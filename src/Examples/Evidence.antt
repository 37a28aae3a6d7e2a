-- ===== src/Examples/Evidence.antt =====
-- exemptions.go, run.go and prepare.go on a record with unverifiable evidence, which is re-measured.
use gomutant.Prelude.{
  ◌≡◌, ◌&&◌, refl, Bool, true, false, some, List, [], ◌∷◌, Text, text_eq, codes, any, is_some,
  text_beq, length,
}
use gomutant.Record.{Finding, SubjectEvidence, Exemption, SurvivorKey, key_eq, key_beq, Kill}
use gomutant.Examples.Blank.{blank, no_evidence, clause}
use gomutant.Examples.Records.{candidates, scores}
use gomutant.Exemptions.{covered_exemptions}
use gomutant.Exemptions.Laws.{
  all, oracle_accepted, target_accepted, fault_accepted, unverified, covered_exemptions-accepted,
}
use gomutant.Findings.Disposition.{attested_at}
use gomutant.Findings.Graft.{surviving, last_at}
use gomutant.Freshness.Pins.{mutation_domain_held}
use gomutant.Reconcile.Counts.Extend.{Conserved}
use gomutant.Reconcile.Splice.{kill_at}
use gomutant.Run.Fresh.{fresh_counts, fresh_counts-conserves}
use gomutant.Run.Carried.{carry_prior, domain_held}
use gomutant.Run.Carried.Laws.{contradicted_by, carry_prior-contradicts}

-- The oracle reads a clock, and taints the target's evidence.
abbrev tainted : Text → SubjectEvidence
tainted symbol = record no_evidence {
  symbol = symbol;
  runtime_unverifiable = true;
  runtime_reason = codes "reads a clock";
}

abbrev record_of : Finding
record_of = record blank {
  symbol = codes "p.F";
  target_evidence = tainted (codes "p.F");
  oracle_evidence = tainted (codes "p.TestF") ∷ [];
}

abbrev reviewed : List Exemption
reviewed =
    record {
      subject = codes "p.TestF";
      reason = codes "reads a clock";
      rationale = codes "only logged";
    }
    ∷ []

covered_exemptions-accepted_example : is_some (covered_exemptions clause reviewed record_of) ≡ (
    all (oracle_accepted clause reviewed record_of) record_of.oracle_evidence
    && (target_accepted clause reviewed record_of && fault_accepted clause reviewed record_of)
    && unverified record_of)
covered_exemptions-accepted_example = covered_exemptions-accepted clause reviewed record_of

fresh_counts-conserves_example :
    let f = fresh_counts blank candidates scores in
    Conserved (length candidates) f × (length f.kills ≡ f.killed)
fresh_counts-conserves_example =
    fresh_counts-conserves blank candidates scores refl refl refl refl refl

abbrev key : SurvivorKey
key = record { position = codes "1:2"; operator = codes "negate" }

abbrev kill : Kill
kill = record { position = codes "1:2"; operator = codes "negate"; killer = codes "TestF" }

-- The prior record attests a survivor that the new measurement kills.
abbrev prior : Finding
prior = record blank {
  attested =
      record {
        position = codes "1:2";
        operator = codes "negate";
        reason = codes "equivalent";
        site = [];
      }
      ∷ [];
}

abbrev measured : Finding
measured = record blank { symbol = codes "p.F"; kills = kill ∷ [] }

abbrev never_equal : Finding → Finding → Bool
never_equal a b = false

held : domain_held false false prior measured ≡ true
unfolding domain_held mutation_domain_held text_beq
held = refl

attested_before : any (attested_at key) prior.attested ≡ true
unfolding any key_beq text_beq
attested_before = refl

killed_now : last_at (kill_at key) measured.kills ≡ some kill
unfolding last_at key_beq text_beq
killed_now = refl

gone_now : surviving measured.survivors key ≡ false
unfolding any
gone_now = refl

carry_prior-contradicts_example :
    let r = carry_prior false never_equal (some prior) measured in
    (any (attested_at key) r.finding.attested ≡ false)
    × (any (contradicted_by key kill.killer) r.contradictions ≡ true)
carry_prior-contradicts_example =
    carry_prior-contradicts false never_equal prior measured key kill held refl attested_before
      gone_now killed_now
