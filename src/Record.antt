-- ===== src/Record.antt =====
-- findings.go, execute.go, prepare.go and internal/engine: the data that the components share. Texts
-- are byte lists, durations and sizes naturals (of the struct `Finding` the fields that some
-- modelled operation reads or writes, of its evidence the runtime inputs).
use gomutant.Prelude.{
  ℕ, ◌≡◌, ◌↔◌, Bool, true, ◌&&◌, Option, none, some, List, [], ◌∷◌, ◌++◌, Text, text_eq, Comparable,
  ◌==◌, if◌then◌else◌, arith, text_beq_iff,
}

pub record Survivor : Type 0 where
  pub position : Text
  pub operator : Text
  pub extent : Text
  pub site : Text
  pub execution : Text
  pub withdrawn_killer : Text
  pub other_selection : Text

pub record Kill : Type 0 where
  pub position : Text
  pub operator : Text
  pub killer : Text

pub record CandidateEvidence : Type 0 where
  pub position : Text
  pub operator : Text
  pub reason : Text
  pub disposition : Text

pub record Attestation : Type 0 where
  pub position : Text
  pub operator : Text
  pub reason : Text
  pub site : Text

pub record WithdrawnAttestation : Type 0 where
  pub position : Text
  pub operator : Text
  pub prior_reason : Text
  pub reason : Text
  pub site : Text

pub record OperatorSummary : Type 0 where
  pub operator : Text
  pub generated : ℕ
  pub discarded : ℕ
  pub killed : ℕ
  pub survived : ℕ

pub record SurvivorKey : Type 0 where
  pub position : Text
  pub operator : Text

-- `SubjectEvidence`: of the embedded `gofresh.Fingerprint` the fields that are audit only, and the
-- others together as one opaque text.
pub record SubjectEvidence : Type 0 where
  pub symbol : Text
  pub fingerprint : Text
  pub dynamic_state_vouches : Text
  pub package_process_discharges : Text
  pub single_subject_discharges : Text
  pub closure_strategy : Text
  pub module_base : Text
  pub runtime_inputs : Text
  pub runtime_digest : Text
  pub runtime_unverifiable : Bool
  pub runtime_reason : Text
  pub runtime_attribution : Text

-- exemptions.go: a reviewed acceptance of one subject's unverifiable evidence.
pub record Exemption : Type 0 where
  pub subject : Text
  pub reason : Text
  pub rationale : Text

-- `Shape` is a pointer of which only its presence is read.
pub record Finding : Type 0 where
  pub symbol : Text
  pub selection : Text
  pub labels : List Text
  pub body_hash : Text
  pub operator_set : Text
  pub budget : ℕ
  pub has_shape : Bool
  pub target_evidence : SubjectEvidence
  pub oracle_evidence : List SubjectEvidence
  pub oracle_explicit : Bool
  pub oracle_timeout : Text
  pub oracle_timeout_derived : Bool
  pub oracle_memory_bytes : ℕ
  pub oracle_ceiling_decided : Bool
  pub property_regime : Text
  pub evidence_fault : Text
  pub exempted : List Exemption
  pub oracle_execution_policy : Text
  pub run : Text
  pub candidate_count : ℕ
  pub generated : ℕ
  pub mutants : ℕ
  pub killed : ℕ
  pub discarded : ℕ
  pub operators : List OperatorSummary
  pub kills : List Kill
  pub survivors : List Survivor
  pub attested : List Attestation
  pub withdrawn : List WithdrawnAttestation
  pub candidate_evidence : List CandidateEvidence
  pub cached : Bool
  pub skipped : Text
  pub unreached : Bool

unfoldable pub key_beq : SurvivorKey → SurvivorKey → Bool
key_beq a b = (a.position == b.position) && (a.operator == b.operator)

pub key_beq_iff : (a b : SurvivorKey) → (key_beq a b ≡ true) ↔ (a ≡ b)
unfolding key_beq
key_beq_iff a b =
    ground (arith, text_beq_iff a.position b.position, text_beq_iff a.operator b.operator)

instance abbrev pub key_eq : Comparable SurvivorKey
key_eq = record { decides = key_beq_iff; same = key_beq }

-- `recordKeyOf`: the selection is joined by a zero byte.
unfoldable pub record_key_of : Text → Text → Text
record_key_of symbol selection = if selection == [] then symbol else symbol ++ 0 ∷ selection

abbrev pub record_key : Finding → Text
record_key f = record_key_of f.symbol f.selection

-- `engine.Candidate`: an empty replacement set was discarded before execution.
pub record Candidate : Type 0 where
  pub symbol : Text
  pub operator : Text
  pub position : Text
  pub site : Text
  pub extent : Text
  pub replacements : List (Text × Text)

pub record Mutant : Type 0 where
  pub symbol : Text
  pub operator : Text
  pub position : Text
  pub extent : Text
  pub replacements : List (Text × Text)

-- `Candidate.Mutant`, the schema fields left out.
unfoldable pub mutant : Candidate → Option Mutant
mutant c = elim c.replacements [
  | [] ↦ none
  | r ∷ rs ↦ some (record {
    symbol = c.symbol;
    operator = c.operator;
    position = c.position;
    extent = c.extent;
    replacements = r ∷ rs;
  })
]

pub record Generation : Type 0 where
  pub candidate_count : ℕ
  pub candidates : List Candidate

-- `group`: the packages and the run pattern of one oracle process.
pub record Group : Type 0 where
  pub pkgs : List Text
  pub passed : List Text
  pub run_regex : Text
  pub flags : List Text
  pub module_dir : Text
  pub package_dir : Text

-- `runtimeinput.Observation`, of which the scheduler reads one flag.
pub record Observation : Type 0 where
  pub unverifiable : Bool

-- `work`: the maps as functions, the fields that only the execution reads left out.
pub record Work : Type 0 where
  pub target : ℕ
  pub oracle : List Text
  pub shaped : Bool
  pub candidates : List Candidate
  pub groups : List Group
  pub baselines : List Observation
  pub serve : Option Finding
  pub flagged : ℕ → Bool
  pub extend : Option Finding
  pub extend_from : ℕ
