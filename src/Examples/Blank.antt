-- ===== src/Examples/Blank.antt =====
-- The record that the examples fill in: a finding without candidates.
use gomutant.Prelude.{ℕ, true, false, Option, none, some, [], ◌∷◌, Text}
use gomutant.Record.{Finding, SubjectEvidence}
use gomutant.Reconcile.Ceiling.{Durations, RunBounds}
use gomutant.Findings.Disposition.{full_oracle_execution_policy}

abbrev pub no_evidence : SubjectEvidence
no_evidence = record {
  symbol = [];
  fingerprint = [];
  dynamic_state_vouches = [];
  package_process_discharges = [];
  single_subject_discharges = [];
  closure_strategy = [];
  module_base = [];
  runtime_inputs = [];
  runtime_digest = [];
  runtime_unverifiable = false;
  runtime_reason = [];
  runtime_attribution = [];
}

-- A duration is its number as one byte.
abbrev pub parse : Text → Option ℕ
parse (n ∷ []) = some n
parse _ = none

abbrev pub durations : Durations
durations = record { parse_duration = parse; duration_text = λ n. n ∷ [] }

-- A reason is its own clause.
abbrev pub clause : Text → Text
clause reason = reason

abbrev pub run : RunBounds
run = record { memory_pin = 0; oracle_budget = 60; budget_derived = true }

abbrev pub blank : Finding
blank = record {
  symbol = [];
  selection = [];
  labels = [];
  body_hash = [];
  operator_set = [];
  budget = 0;
  has_shape = false;
  target_evidence = no_evidence;
  oracle_evidence = [];
  oracle_explicit = false;
  oracle_timeout = [];
  oracle_timeout_derived = false;
  oracle_memory_bytes = 0;
  oracle_ceiling_decided = false;
  property_regime = [];
  evidence_fault = [];
  exempted = [];
  oracle_execution_policy = full_oracle_execution_policy;
  run = [];
  candidate_count = 0;
  generated = 0;
  mutants = 0;
  killed = 0;
  discarded = 0;
  operators = [];
  kills = [];
  survivors = [];
  attested = [];
  withdrawn = [];
  candidate_evidence = [];
  cached = false;
  skipped = [];
  unreached = false;
}
