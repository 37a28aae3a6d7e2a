-- ===== src/Run/Carried.antt =====
-- run.go, the dispositions of a re-measured target: what rides from the prior record, and what the
-- fresh outcomes contradict; prepare.go `contradictKilledDispositions` and `derivationMove`. The
-- calls of the callbacks are lists. `shape_equal` compares the two targets' shapes as JSON.
pub mod Laws
use gomutant.Prelude.{
  ◌≡◌, refl, ap, sym, ◌∙◌, Bool, true, false, not, ◌&&◌, ◌||◌, Option, none, some, List, [], ◌∷◌,
  ◌++◌, Text, text_eq, codes, ◌==◌, if◌then◌else◌, any, any-append, All, All-append, arith, is_some,
  map, Bool-cases, Option-cases, inl, inr,
}
use gomutant.Record.{Finding, SubjectEvidence, Survivor, SurvivorKey, key_eq, Kill, Attestation}
use gomutant.Findings.Disposition.{attestation_key, attested_at}
use gomutant.Findings.Graft.{AttestationShed, surviving, last_at}
use gomutant.Findings.Graft.Prior.{Anchored}
use gomutant.Findings.Graft.Carry.{
  Carried, carry_anchored_attestations, carry_anchored_withdrawn,
  carry_anchored_attestations-partitions,
}
use gomutant.Freshness.Pins.{mutation_domain_held, same_attestation_pins}
use gomutant.Reconcile.Splice.{kill_at}

pub record AttestationContradiction : Type 0 where
  pub symbol : Text
  pub position : Text
  pub operator : Text
  pub killer : Text
  pub reason : Text

pub record AttestationCarry : Type 0 where
  pub symbol : Text
  pub position : Text
  pub operator : Text
  pub reason : Text
  pub derivation : Text

unfoldable pub derivation_move : SubjectEvidence → SubjectEvidence → Text
derivation_move prior current =
    if (prior.closure_strategy == []) || (prior.closure_strategy == current.closure_strategy)
    then []
    else prior.closure_strategy ++ codes " -> " ++ current.closure_strategy

abbrev contradiction : Text → Attestation → Text → AttestationContradiction
contradiction symbol a killer = record {
  symbol = symbol;
  position = a.position;
  operator = a.operator;
  killer = killer;
  reason = a.reason;
}

-- The loop of `contradictKilledDispositions`.
unfoldable pub contradict_killed_dispositions :
    Text → List Attestation → List Survivor → List Kill → List AttestationContradiction
unfolding last_at
contradict_killed_dispositions symbol [] survivors kills = []
contradict_killed_dispositions symbol (a ∷ prior) survivors kills =
    let rest = contradict_killed_dispositions symbol prior survivors kills in
    if surviving survivors (attestation_key a)
    then rest
    else elim (last_at (kill_at (attestation_key a)) kills) [
      | none ↦ rest
      | some kill ↦ contradiction symbol a kill.killer ∷ rest
    ]

abbrev carry_of : Finding → Finding → Attestation → AttestationCarry
carry_of rec f a = record {
  symbol = f.symbol;
  position = a.position;
  operator = a.operator;
  reason = a.reason;
  derivation = derivation_move rec.target_evidence f.target_evidence;
}

abbrev shed_under : Text → AttestationShed → AttestationShed
shed_under symbol d = record d { symbol = symbol }

-- The finding, and what the callbacks were called with.
pub record Remeasured : Type 0 where
  pub finding : Finding
  pub carried : List AttestationCarry
  pub site_sheds : List AttestationShed
  pub contradictions : List AttestationContradiction

-- The closure `domainHeld`.
unfoldable pub domain_held : Bool → Bool → Finding → Finding → Bool
unfolding mutation_domain_held same_attestation_pins
domain_held shaped shape_equal rec f =
    if shaped
    then mutation_domain_held rec f && shape_equal && same_attestation_pins rec f
    else mutation_domain_held rec f

unfoldable pub carry_record : Finding → Finding → Remeasured
unfolding carry_anchored_attestations carry_anchored_withdrawn same_attestation_pins
    contradict_killed_dispositions
carry_record rec f =
    let c = carry_anchored_attestations rec.attested f.survivors in
    let attested = f.attested ++ c.kept in
    record {
      finding = record f {
        attested = attested;
        withdrawn = carry_anchored_withdrawn rec.withdrawn attested f.survivors;
      };
      carried = if same_attestation_pins rec f then [] else map (carry_of rec f) c.kept;
      site_sheds = map (shed_under f.symbol) c.site_sheds;
      contradictions = contradict_killed_dispositions f.symbol c.gone f.survivors f.kills;
    }

-- The target's prior record, where there is one whose domain the measurement holds.
unfoldable pub carry_prior :
    Bool → (Finding → Finding → Bool) → Option Finding → Finding → Remeasured
unfolding domain_held carry_record
carry_prior shaped shape_equal none f = record {
  finding = f;
  carried = [];
  site_sheds = [];
  contradictions = [];
}
carry_prior shaped shape_equal (some rec) f =
    if domain_held shaped (shape_equal rec f) rec f
    then carry_record rec f
    else record { finding = f; carried = []; site_sheds = []; contradictions = [] }
