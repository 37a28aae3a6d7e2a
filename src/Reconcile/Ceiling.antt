-- ===== src/Reconcile/Ceiling.antt =====
-- execute.go `mergeScoredFacts` and `maxGroupBudget`, schedule.go `stepBudget`, ephemeral.go
-- `derivedOracleBudget` and `leashFor`: the resource bounds that a record's verdicts ran under.
pub mod Laws
use gomutant.Prelude.{
  ℕ, ◌*◌, Bool, true, false, ◌||◌, ◌&&◌, Option, none, some, List, [], ◌∷◌, Text, if◌then◌else◌,
  ltb, any,
}
use gomutant.Record.{Finding, Group}
use gomutant.Schedule.Gate.{MutantOutcome}
use gomutant.Freshness.Pins.{effective_ceiling}

-- `time.ParseDuration` and `Duration.String` of Go's library, on durations in nanoseconds.
pub record Durations : Type 0 where
  pub parse_duration : Text → Option ℕ
  pub duration_text : ℕ → Text

unfoldable pub any_memory_decided : List Bool → Bool
unfolding any
any_memory_decided memory_decided = any (λ decided. decided) memory_decided

-- `windowScores`; a slice that is allocated per candidate is a function of the index.
pub record WindowScores : Type 0 where
  pub outcomes : ℕ → MutantOutcome
  pub killers : ℕ → Text
  pub flips : ℕ → Option Text
  pub memory_decided : List Bool

-- The bounds of a run: `memoryPin`, `oracleBudget` and `budgetDerived`.
pub record RunBounds : Type 0 where
  pub memory_pin : ℕ
  pub oracle_budget : ℕ
  pub budget_derived : Bool

unfoldable pub raised_timeout : Durations → Text → ℕ → Text
raised_timeout durations recorded current = elim (durations.parse_duration recorded) [
  | none ↦ recorded
  | some prior ↦ if ltb prior current then durations.duration_text current else recorded
]

unfoldable pub merge_scored_facts : Durations → Finding → WindowScores → RunBounds → Finding
unfolding any_memory_decided raised_timeout
merge_scored_facts durations rec scores run = record rec {
  oracle_ceiling_decided = rec.oracle_ceiling_decided || any_memory_decided scores.memory_decided;
  oracle_memory_bytes =
      if ltb (effective_ceiling rec.oracle_memory_bytes) (effective_ceiling run.memory_pin)
      then run.memory_pin
      else rec.oracle_memory_bytes;
  oracle_timeout =
      if run.budget_derived || rec.oracle_timeout_derived
      then raised_timeout durations rec.oracle_timeout run.oracle_budget
      else rec.oracle_timeout;
  oracle_timeout_derived =
      if run.budget_derived || rec.oracle_timeout_derived
      then rec.oracle_timeout_derived || run.budget_derived
      else rec.oracle_timeout_derived;
}

-- `stepBudget`: `opts.groupBudget`, and `opts.OracleTimeout` where it is nil.
unfoldable step_budget : Option (Group → ℕ) → ℕ → Group → ℕ
step_budget none oracle_timeout g = oracle_timeout
step_budget (some group_budget) oracle_timeout g = group_budget g

-- The loop of `maxGroupBudget`.
unfoldable max_budget_from : (Group → ℕ) → ℕ → List Group → ℕ
max_budget_from step budget [] = budget
max_budget_from step budget (g ∷ gs) =
    max_budget_from step (if ltb budget (step g) then step g else budget) gs

unfoldable max_group_budget : Option (Group → ℕ) → ℕ → List Group → ℕ
unfolding max_budget_from step_budget
max_group_budget group_budget oracle_timeout groups =
    max_budget_from (step_budget group_budget oracle_timeout) 0 groups

-- `floor` is the seam `ephemeralBudgetFloor`.
unfoldable derived_oracle_budget : ℕ → ℕ → ℕ
derived_oracle_budget floor baseline = if ltb (4 * baseline) floor then floor else 4 * baseline

unfoldable pub leash_for : ℕ → ℕ → ℕ → ℕ
unfolding derived_oracle_budget
leash_for floor fixed banked =
    let lifted = derived_oracle_budget floor banked in if ltb fixed lifted then lifted else fixed
