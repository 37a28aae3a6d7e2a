-- ===== src/Examples/Findings.antt =====
-- findings.go on small records: one survivor that is attested, withdrawn, merged and shed.
use gomutant.Prelude.{
  ◌≡◌, ◌≢◌, ◌↔◌, refl, inr, true, false, not, ◌||◌, none, some, List, [], ◌∷◌, ◌++◌, Text, text_eq,
  codes, any, filter, find, ok, All, text_beq,
}
use gomutant.Prelude.Map.{get, put}
use gomutant.Record.{
  Finding, Survivor, SurvivorKey, key_eq, key_beq, Attestation, WithdrawnAttestation, record_key_of,
}
use gomutant.Findings.Keys.{DistinctBy}
use gomutant.Examples.Blank.{blank}
use gomutant.Findings.Disposition.{
  oracle_execution_policy_issue, survivor_at, attested_at, withdrawn_at, attestation_key,
  withdrawn_key, open_survivors, without_withdrawn, withdrawn_of, add_attestation, attest,
  withdraw_attestation, attestation_of,
}
use gomutant.Findings.Disposition.Consistency.{
  Consistent, attesting, withdrawing, edits, edits-Consistent,
}
use gomutant.Findings.Disposition.Open.{attest-open, attest_iff-open, withdraw-attest, is_ok}
use gomutant.Findings.Graft.{
  Snapshot, Grafted, graft_dispositions_against, surviving, site_of, held_in, last_at,
}
use gomutant.Findings.Graft.Prior.{Anchored, shed_at}
use gomutant.Findings.Graft.Fresh.{Rests}
use gomutant.Findings.Graft.Laws.{
  graft-Consistent, graft-reports, graft-withdrawn_stands, graft-concurrent_stands,
}
use gomutant.Findings.Merge.{merge_all, by_record_key, Merge}
use gomutant.Findings.Merge.Accounts.{IsName, Accounted, names, merge_all-accounts}

abbrev key : SurvivorKey
key = record { position = codes "1:2"; operator = codes "negate" }

abbrev survivor : Survivor
survivor = record {
  position = codes "1:2";
  operator = codes "negate";
  extent = [];
  site = codes "x > 0";
  execution = [];
  withdrawn_killer = [];
  other_selection = [];
}

abbrev finding : Text → List Survivor → List Attestation → Finding
finding symbol survivors attested = record blank {
  symbol = symbol;
  candidate_count = 1;
  generated = 1;
  mutants = 1;
  survivors = survivors;
  attested = attested;
}

abbrev measured : Finding
measured = finding (codes "p.F") (survivor ∷ []) []

abbrev equivalent : Text
equivalent = codes "equivalent"

abbrev attested : Finding
attested = add_attestation key equivalent (codes "x > 0") measured

attests : attest key equivalent measured ≡ ok attested
unfolding attest oracle_execution_policy_issue find key_beq text_beq any
attests = refl

measured-Consistent : Consistent measured
unfolding any
measured-Consistent = (tt, tt, λ k h. refl)

edits-Consistent_example : Consistent (
    edits
      (attesting key equivalent ∷ attesting key equivalent ∷ withdrawing key equivalent ∷ [])
      measured)
edits-Consistent_example =
    edits-Consistent
      (attesting key equivalent ∷ attesting key equivalent ∷ withdrawing key equivalent ∷ [])
      measured measured-Consistent

attest-open_example :
    open_survivors attested ≡ filter (λ s. not (survivor_at key s)) (open_survivors measured)
attest-open_example = attest-open key equivalent measured attested attests

-- A survivor whose kill the serial confirmation withdrew.
abbrev flipped : Finding
flipped =
    finding (codes "p.F")
      (record survivor { execution = codes "flipped-kill"; withdrawn_killer = codes "TestF" } ∷ [])
      []

attests_flipped : is_ok (attest key equivalent flipped) ≡ true
unfolding attest oracle_execution_policy_issue find key_beq text_beq any
attests_flipped = refl

attest_iff-open_example : (is_ok (attest key equivalent flipped) ≡ true) ↔ (
    (equivalent ≢ [])
    × (oracle_execution_policy_issue flipped ≡ [])
    × (any (survivor_at key) (open_survivors flipped) ≡ true))
attest_iff-open_example = attest_iff-open key equivalent flipped

withdraw-attest_example :
    (h : Finding) × (s : Survivor) × (find (survivor_at key) measured.survivors ≡ some s)
    × (withdraw_attestation key (codes "no") attested ≡ ok h)
    × (h.attested ≡ measured.attested)
    × (open_survivors h ≡ open_survivors measured)
    × (h.withdrawn
        ≡ without_withdrawn key measured ++ withdrawn_of key equivalent (codes "no") s.site ∷ [])
withdraw-attest_example =
    withdraw-attest key equivalent (codes "no") measured attested attests (λ e. cc)

-- A disposition that the prior record holds and the fresh one does not.
abbrev held : Attestation
held = attestation_of key equivalent (codes "x > 0")

abbrev regraft : List Survivor → Snapshot → Grafted
regraft survivors snapshot = graft_dispositions_against (held ∷ []) [] [] [] survivors snapshot

graft-Consistent_example :
    let g = regraft (survivor ∷ []) none in
    All (Anchored (survivor ∷ [])) g.attested
    × DistinctBy attestation_key g.attested
    × All (Rests (survivor ∷ []) g.attested) g.withdrawn
    × DistinctBy withdrawn_key g.withdrawn
graft-Consistent_example = graft-Consistent (held ∷ []) [] [] [] (survivor ∷ []) none tt tt

holds : any (attested_at key) (held ∷ []) ≡ true
unfolding any key_beq text_beq
holds = refl

-- The survivor is gone, so its disposition is shed.
graft-reports_example :
    (any (attested_at key) (regraft [] none).attested || any (shed_at key) (regraft [] none).shed)
    ≡ true
graft-reports_example = graft-reports (held ∷ []) [] [] [] [] none key holds

abbrev gone : WithdrawnAttestation
gone = withdrawn_of key equivalent (codes "no") (codes "x > 0")

snapshot_holds : held_in (some (held ∷ [])) key ≡ some held
unfolding last_at key_beq text_beq
snapshot_holds = refl

gone_there : any (withdrawn_at key) (gone ∷ []) ≡ true
unfolding any key_beq text_beq
gone_there = refl

held-Anchored : All (Anchored (survivor ∷ [])) (held ∷ [])
unfolding any site_of last_at key_beq text_beq
held-Anchored = ((refl, refl), tt)

none_prior : any (attested_at key) [] ≡ false
unfolding any
none_prior = refl

graft-withdrawn_stands_example :
    any
      (attested_at key)
      (graft_dispositions_against []
        (held ∷ [])
        (gone ∷ [])
        []
        (survivor ∷ [])
        (some (held ∷ []))).attested
    ≡ false
graft-withdrawn_stands_example =
    graft-withdrawn_stands [] (held ∷ []) (gone ∷ []) [] (survivor ∷ []) (some (held ∷ [])) key held
      snapshot_holds none_prior gone_there ((λ e. refl), tt) held-Anchored

reported : surviving (survivor ∷ []) (attestation_key held) ≡ true
unfolding any key_beq text_beq
reported = refl

same_site : held.site ≡ site_of (survivor ∷ []) (attestation_key held)
unfolding site_of last_at key_beq text_beq
same_site = refl

graft-concurrent_stands_example :
    any
      (attested_at (attestation_key held))
      (graft_dispositions_against (held ∷ []) [] [] [] (survivor ∷ []) (some [])).attested
    ≡ true
graft-concurrent_stands_example =
    graft-concurrent_stands [] [] [] [] [] (survivor ∷ []) (some []) held reported (inr same_site)
      (unfold last_at in refl)

-- The document holds the disposed record of `p.F`; the run measured `p.F` again, and `p.G`.
abbrev document : Merge
document = (by_record_key (finding (codes "p.F") (survivor ∷ []) (held ∷ []) ∷ []) [], [])

abbrev other : Finding
other = finding (codes "p.G") [] []

in_document :
    get (record_key_of (codes "p.F") []) document.0
    ≡ some (finding (codes "p.F") (survivor ∷ []) (held ∷ []))
unfolding by_record_key get put record_key_of text_beq
in_document = refl

names_only : All (λ f. IsName f.symbol) (other ∷ measured ∷ [])
unfolding any
names_only = (refl, (refl, tt))

attested_there :
    (any (attested_at key) (held ∷ []) || any (names (codes "p.F") key) document.1) ≡ true
unfolding any key_beq text_beq
attested_there = refl

merge_all-accounts_example :
    Accounted
      (codes "p.F")
      (record_key_of (codes "p.F") [])
      key
      (merge_all none (other ∷ measured ∷ []) document)
merge_all-accounts_example =
    merge_all-accounts none (codes "p.F") [] key (other ∷ measured ∷ []) document
      (unfold any in refl) names_only
      (finding (codes "p.F") (survivor ∷ []) (held ∷ []), in_document, attested_there)
