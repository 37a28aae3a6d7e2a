-- ===== src/Schedule/Windows.antt =====
-- schedule.go `gatherWindow`, `nextReadyWindow` and `advanceDone`: how windows are cut from the
-- stream of prepared work, and which ready window runs next. The channel of work items is the list
-- of those that preparation will deliver.
pub mod Gather
pub mod Order
use gomutant.Prelude.{
  ℕ, zero, suc, ◌+◌, Bool, true, false, not, ◌&&◌, Option, none, some, List, [], ◌∷◌, ltb, leb,
  if◌then◌else◌, length, bool_beq,
}
use gomutant.Record.{Work}
use gomutant.WindowCost.{executions, execution_budget}

abbrev pub candidates_of : Work → ℕ
candidates_of w = length w.candidates

abbrev pub executions_of : Work → ℕ
executions_of w = executions (length w.candidates) (length w.oracle)

-- The loop's condition: the window takes another item.
unfoldable pub takes_more : ℕ → ℕ → ℕ → ℕ → Bool
takes_more ceiling minimum total execs =
    ltb total ceiling && not (leb execution_budget execs && leb minimum total)

-- The loop of `gatherWindow`: the items that join, and those left in the channel.
unfoldable pub gather_more : ℕ → ℕ → ℕ → ℕ → List Work → List Work × List Work
gather_more ceiling minimum total execs [] = ([], [])
gather_more ceiling minimum total execs (w ∷ items) =
    let (joined, rest) =
      gather_more ceiling minimum (total + candidates_of w) (execs + executions_of w) items in
    if takes_more ceiling minimum total execs then (w ∷ joined, rest) else ([], w ∷ items)

-- `none` when no item remains.
unfoldable pub gather_window : List Work → ℕ → ℕ → Option (List Work × List Work)
unfolding gather_more takes_more
gather_window [] ceiling minimum = none
gather_window (first ∷ items) ceiling minimum =
    let (joined, rest) =
      gather_more ceiling minimum (candidates_of first) (executions_of first) items in
    some (first ∷ joined, rest)

pub record ReadyWindow : Type 0 where
  pub window : List Work
  pub cost : ℕ
  pub priced : Bool

-- The loop body of `nextReadyWindow`: `a` takes the place of the pick `b`.
unfoldable pub goes_first : ReadyWindow → ReadyWindow → Bool
goes_first a b =
    if not (bool_beq a.priced b.priced) then a.priced else a.priced && ltb a.cost b.cost

unfoldable pub next_from : ReadyWindow → ℕ → ℕ → List ReadyWindow → ℕ
next_from best pick i [] = pick
next_from best pick i (a ∷ pool) =
    let first = goes_first a best in
    next_from (if first then a else best) (if first then i else pick) (suc i) pool

-- The caller never passes an empty pool, at which Go returns 0 too.
unfoldable pub next_ready_window : List ReadyWindow → ℕ
unfolding next_from goes_first
next_ready_window [] = 0
next_ready_window (best ∷ pool) = next_from best 0 1 pool

unfoldable advance_done : ℕ → ℕ → ℕ → ℕ
advance_done base total cur = let next = base + total in if ltb cur next then next else cur
