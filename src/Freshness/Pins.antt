-- ===== src/Freshness/Pins.antt =====
-- freshness.go: the comparison of a record's measurement pins with a run's and with another
-- record's.
pub mod Laws
pub mod Refinement
pub mod Views
use gomutant.Prelude.{
  ◌^◌, ◌-◌, ℕ, Bool, true, false, not, ◌&&◌, ◌||◌, Option, none, some, List, [], ◌∷◌, Text, text_eq,
  nat_eq, bool_beq, codes, ◌==◌, if◌then◌else◌, ltb, any, find, length,
}
use gomutant.Record.{Finding, SubjectEvidence, Kill, CandidateEvidence}
use gomutant.Findings.Disposition.{oracle_execution_policy_issue}

abbrev max_int64 : ℕ
max_int64 = 2 ^ 63 - 1

-- A pin is not negative here, so that `<= 0` is zero.
unfoldable pub effective_ceiling : ℕ → ℕ
effective_ceiling bytes = if bytes == 0 then max_int64 else bytes

unfoldable pub memory_pin_stale : Finding → ℕ → Bool
unfolding effective_ceiling
memory_pin_stale prior current_pin =
    if prior.oracle_ceiling_decided
    then not (prior.oracle_memory_bytes == current_pin)
    else ltb (effective_ceiling current_pin) (effective_ceiling prior.oracle_memory_bytes)

-- `TimeoutKiller`.
abbrev pub timeout_killer : Text
timeout_killer = codes "(timeout)"

abbrev evidence_of : Kill → CandidateEvidence → Bool
evidence_of k ev = (ev.position == k.position) && (ev.operator == k.operator)

-- The loop of `timeoutKillsReexecutable`.
unfoldable kills_reexecutable : List CandidateEvidence → List Kill → Bool
kills_reexecutable evidence [] = true
kills_reexecutable evidence (k ∷ ks) =
    let rest = kills_reexecutable evidence ks in
    if not (k.killer == timeout_killer)
    then rest
    else if any (evidence_of k) evidence
    then rest
    else false

unfoldable timeout_kills_reexecutable : Finding → Bool
unfolding kills_reexecutable
timeout_kills_reexecutable f = kills_reexecutable f.candidate_evidence f.kills

unfoldable timeout_pin_matches : Finding → Text → Bool → Bool
unfolding timeout_kills_reexecutable
timeout_pin_matches prior timeout derived =
    if (prior.oracle_timeout == timeout) && bool_beq prior.oracle_timeout_derived derived
    then true
    else prior.oracle_timeout_derived && derived && timeout_kills_reexecutable prior

unfoldable timeout_pin_matches_record : Finding → Finding → Bool
unfolding timeout_pin_matches
timeout_pin_matches_record prior current =
    timeout_pin_matches prior current.oracle_timeout current.oracle_timeout_derived

unfoldable pub mutation_domain_held : Finding → Finding → Bool
mutation_domain_held prior current =
    (prior.body_hash == current.body_hash) && (prior.operator_set == current.operator_set)

-- The audit fields cleared.
unfoldable pub attestation_pin_view : SubjectEvidence → SubjectEvidence
attestation_pin_view evidence = record evidence {
  dynamic_state_vouches = [];
  package_process_discharges = [];
  single_subject_discharges = [];
  module_base = [];
  closure_strategy = [];
  runtime_attribution = [];
}

-- `==` on the struct.
abbrev pub same_evidence : SubjectEvidence → SubjectEvidence → Bool
same_evidence a b =
    (a.symbol == b.symbol)
    && (a.fingerprint == b.fingerprint)
    && (a.dynamic_state_vouches == b.dynamic_state_vouches)
    && (a.package_process_discharges == b.package_process_discharges)
    && (a.single_subject_discharges == b.single_subject_discharges)
    && (a.closure_strategy == b.closure_strategy)
    && (a.module_base == b.module_base)
    && (a.runtime_inputs == b.runtime_inputs)
    && (a.runtime_digest == b.runtime_digest)
    && bool_beq a.runtime_unverifiable b.runtime_unverifiable
    && (a.runtime_reason == b.runtime_reason)
    && (a.runtime_attribution == b.runtime_attribution)

abbrev same_pins : SubjectEvidence → SubjectEvidence → Bool
same_pins a b = same_evidence (attestation_pin_view a) (attestation_pin_view b)

abbrev pub of_subject : Text → SubjectEvidence → Bool
of_subject symbol ev = ev.symbol == symbol

-- The loop that fills `bySymbol`: the map holds the entries so far, of which no two share a symbol,
-- and `none` is the return on a duplicate.
unfoldable pub index_evidence :
    List SubjectEvidence → List SubjectEvidence → Option (List SubjectEvidence)
index_evidence by_symbol [] = some by_symbol
index_evidence by_symbol (ev ∷ evs) =
    if any (of_subject ev.symbol) by_symbol then none else index_evidence (ev ∷ by_symbol) evs

-- `priorEvidence` stands under the symbol with the same pins.
unfoldable pub pinned_as : List SubjectEvidence → SubjectEvidence → Bool
unfolding find
pinned_as by_symbol ev = elim (find (of_subject ev.symbol) by_symbol) [
  | none ↦ false
  | some prior ↦ same_pins prior ev
]

-- The loop over the current evidence; `seen` holds its symbols so far.
unfoldable pub all_pinned : List SubjectEvidence → List Text → List SubjectEvidence → Bool
unfolding pinned_as
all_pinned by_symbol seen [] = true
all_pinned by_symbol seen (ev ∷ evs) =
    let rest = all_pinned by_symbol (ev.symbol ∷ seen) evs in
    if any (λ s. s == ev.symbol) seen then false else if pinned_as by_symbol ev then rest else false

-- The comparison of the oracle evidence at the end of `sameAttestationPins`.
unfoldable pub same_oracle_pins : List SubjectEvidence → List SubjectEvidence → Bool
unfolding index_evidence all_pinned
same_oracle_pins prior current = elim (index_evidence [] prior) [
  | none ↦ false
  | some by_symbol ↦ all_pinned by_symbol [] current
]

unfoldable pub same_attestation_pins : Finding → Finding → Bool
unfolding timeout_pin_matches_record memory_pin_stale same_oracle_pins
same_attestation_pins prior current =
    if not (prior.property_regime == current.property_regime)
      || not (oracle_execution_policy_issue prior == [])
      || not (oracle_execution_policy_issue current == [])
    then false
    else if not (prior.operator_set == current.operator_set)
        || not (bool_beq prior.oracle_explicit current.oracle_explicit)
        || not (prior.budget == current.budget)
        || not (prior.candidate_count == current.candidate_count)
        || not (prior.generated == current.generated)
        || not (timeout_pin_matches_record prior current)
        || memory_pin_stale prior current.oracle_memory_bytes
        || not (same_pins prior.target_evidence current.target_evidence)
        || not (length prior.oracle_evidence == length current.oracle_evidence)
    then false
    else same_oracle_pins prior.oracle_evidence current.oracle_evidence
