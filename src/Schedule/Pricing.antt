-- ===== src/Schedule/Pricing.antt =====
-- schedule.go `executesCandidate`, `executingIndexes` and estimate.go: which candidates of a work
-- item execute, and what the window is projected to cost.

pub mod Exact
pub mod Reference
pub mod Estimate
use gomutant.Prelude.{
  ℕ, zero, suc, ◌+◌, Bool, true, false, not, ◌&&◌, Option, none, some, List, [], ◌∷◌, is_some, ltb,
  if◌then◌else◌, length, get_elem?, ◌==◌, nat_eq,
}
use gomutant.Record.{Work, Group, Candidate, mutant}

-- Whether the candidate at `mi` needs a fresh execution; `none` is Go's panic on an index that is
-- out of range, which the early returns do not reach.
unfoldable pub executes_candidate : Work → ℕ → Option Bool
executes_candidate w mi =
    if is_some w.serve && not (w.flagged mi)
    then some false
    else if is_some w.extend && ltb mi w.extend_from
    then some false
    else elim (get_elem? w.candidates mi) [ none ↦ none | some c ↦ some (is_some (mutant c)) ]

-- The loop of `executingIndexes`, over the `n` candidates from `mi` on.
unfoldable pub executing_from : Work → ℕ → ℕ → Option (List ℕ)
executing_from w mi zero = some []
executing_from w mi (suc n) =
    let rest = executing_from w (suc mi) n in
    elim (executes_candidate w mi) [
      | none ↦ none
      | some runs ↦ elim rest [ none ↦ none | some is ↦ some (if runs then mi ∷ is else is) ]
    ]

unfoldable pub executing_indexes : Work → Option (List ℕ)
unfolding executing_from executes_candidate mutant
executing_indexes w = executing_from w 0 (length w.candidates)

pub record WindowEstimate : Type 0 where
  pub projected : ℕ
  pub full : ℕ
  pub unknown : ℕ

-- `baselineDur`, the bank of measured passing baselines; `none` outside is Go's nil function.
abbrev pub BaselineDur : Type 0
BaselineDur = Option (Group → Option ℕ)

-- The loop of `workFullPrice`.
unfoldable pub sum_groups : (Group → Option ℕ) → List Group → ℕ → Option ℕ
sum_groups dur [] full = some full
sum_groups dur (g ∷ gs) full = elim (dur g) [ none ↦ none | some d ↦ sum_groups dur gs (full + d) ]

unfoldable pub work_full_price : Work → BaselineDur → Option ℕ
unfolding sum_groups
work_full_price w none = none
work_full_price w (some dur) = sum_groups dur w.groups 0

-- One executing candidate joins the estimate.
unfoldable pub price_candidate : Work → BaselineDur → WindowEstimate → WindowEstimate
price_candidate w dur est = elim (work_full_price w dur) [
  | none ↦ record est { unknown = est.unknown + 1 }
  | some cost ↦ record est { full = est.full + 1; projected = est.projected + cost }
]

unfoldable pub price_indexes : Work → BaselineDur → List ℕ → WindowEstimate → WindowEstimate
price_indexes w dur [] est = est
price_indexes w dur (i ∷ is) est = price_indexes w dur is (price_candidate w dur est)

unfoldable pub estimate_from : List Work → BaselineDur → WindowEstimate → Option WindowEstimate
estimate_from [] dur est = some est
estimate_from (w ∷ ws) dur est = elim (executing_indexes w) [
  | none ↦ none
  | some is ↦ estimate_from ws dur (price_indexes w dur is est)
]

unfoldable pub estimate_window : List Work → BaselineDur → Option WindowEstimate
unfolding estimate_from price_indexes price_candidate work_full_price executing_indexes
estimate_window window dur =
    estimate_from window dur (record { projected = 0; full = 0; unknown = 0 })

-- The cost and whether every executing candidate has a price.
unfoldable pub window_price : List Work → BaselineDur → Option (ℕ × Bool)
window_price window dur = elim (estimate_window window dur) [
  | none ↦ none
  | some est ↦ some (est.projected, est.unknown == 0)
]
