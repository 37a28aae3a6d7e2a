-- ===== src/Reconcile/Ceiling/Laws.antt =====
-- execute.go `mergeWindowScores, RunBounds`: a record's bounds are those of its loosest verdict.
use gomutant.Prelude.{
  ℕ, ◌≤◌, ◌≡◌, refl, Bool, true, false, ◌||◌, some, Text, if◌then◌else◌, ltb, max, arith,
}
use gomutant.Record.{Finding}
use gomutant.Freshness.Pins.{effective_ceiling, memory_pin_stale}
use gomutant.Reconcile.Ceiling.{
  Durations, WindowScores, RunBounds, any_memory_decided, raised_timeout, merge_scored_facts,
}

-- What `memory_pin_stale` lets serve: the pin itself, or, where no ceiling decided a verdict, a
-- ceiling at least as large.
memory_pin_serves :
    (f : Finding) (current : ℕ)
    → memory_pin_stale f current ≡ false
    → effective_ceiling f.oracle_memory_bytes ≤ effective_ceiling current
unfolding memory_pin_stale effective_ceiling
memory_pin_serves f current h = ground arith

larger_ceiling :
    (a b : ℕ)
    → effective_ceiling (if ltb (effective_ceiling a) (effective_ceiling b) then b else a)
      ≡ max (effective_ceiling a) (effective_ceiling b)
larger_ceiling a b = ground arith

raised_timeout-max :
    (durations : Durations) (recorded : Text) (prior current : ℕ)
    → ((n : ℕ) → durations.parse_duration (durations.duration_text n) ≡ some n)
    → durations.parse_duration recorded ≡ some prior
    → durations.parse_duration (raised_timeout durations recorded current)
      ≡ some (max prior current)
unfolding raised_timeout
raised_timeout-max durations recorded prior current inverse parsed = ground (arith, inverse current)

or_true : (a b : Bool) → (a || b) ≡ true → (b || a) ≡ true
or_true a b h = ground arith

-- The bounds of a record that a run has joined: its ceiling is the larger of the recorded and the
-- run's, so that a run to which the record is not stale has at least the ceiling of every verdict of it, and a
-- verdict that the ceiling decided stays marked; and where the recorded
-- timeout is a duration and it or the run's is derived, the timeout reads as the larger of the two.
pub merge_scored_facts-bounds :
    (durations : Durations) (rec : Finding) (scores : WindowScores) (run : RunBounds) (prior : ℕ)
    → ((n : ℕ) → durations.parse_duration (durations.duration_text n) ≡ some n)
    → durations.parse_duration rec.oracle_timeout ≡ some prior
    → let f = merge_scored_facts durations rec scores run in
      (effective_ceiling f.oracle_memory_bytes
        ≡ max (effective_ceiling rec.oracle_memory_bytes) (effective_ceiling run.memory_pin))
      × ((current : ℕ)
          → memory_pin_stale f current ≡ false
          → (effective_ceiling rec.oracle_memory_bytes ≤ effective_ceiling current)
            × (effective_ceiling run.memory_pin ≤ effective_ceiling current))
      × (f.oracle_ceiling_decided
          ≡ (rec.oracle_ceiling_decided || any_memory_decided scores.memory_decided))
      × ((run.budget_derived || rec.oracle_timeout_derived) ≡ true
          → (durations.parse_duration f.oracle_timeout ≡ some (max prior run.oracle_budget))
            × (f.oracle_timeout_derived ≡ true))
unfolding merge_scored_facts
merge_scored_facts-bounds durations rec scores run prior inverse parsed =
    let f = merge_scored_facts durations rec scores run in
    let ceiling : effective_ceiling f.oracle_memory_bytes
        ≡ max (effective_ceiling rec.oracle_memory_bytes) (effective_ceiling run.memory_pin) =
      larger_ceiling rec.oracle_memory_bytes run.memory_pin in
    (
      ceiling,
      (λ current h. (
        omega (arith, ceiling, memory_pin_serves f current h),
        omega (arith, ceiling, memory_pin_serves f current h),
      )),
      refl,
      (λ h. rw h (
        raised_timeout-max durations rec.oracle_timeout prior run.oracle_budget inverse parsed,
        or_true run.budget_derived rec.oracle_timeout_derived h,
      )),
    )
