-- ===== src/Examples/Windows.antt =====
-- schedule.go and estimate.go on small windows.
use gomutant.Prelude.{
  ℕ, ◌+◌, ◌≡◌, ◌≢◌, ◌↔◌, refl, Bool, true, false, none, some, List, [], ◌∷◌, ◌++◌, ◌==◌, nat_eq,
  if◌then◌else◌, arith, count_if, length, codes, any, filter,
}
use gomutant.Prelude.Map.{get, put}
use gomutant.Record.{Work, Group, Candidate, mutant}
use gomutant.Schedule.Gate.{confirm_reproduced, confirm_flipped, armed, confirm_now, observe}
use gomutant.Schedule.Walk.{
  WindowKill, Callbacks, State, Ended, finished, failed, out_of_fuel, initial, confirm_window_kills,
  walk, visit, drain, ask, confirm_one, settle, rearm, note, gate_for, take_skips,
}
use gomutant.Schedule.Walk.Conservation.{confirm_window_kills_total, confirm_window_kills-conserves}
use gomutant.Schedule.Walk.Invariant.{is_flip, InOrder}
use gomutant.Schedule.Walk.Flip.{flip_confirms_all}
use gomutant.Schedule.Pricing.{
  BaselineDur, executing_indexes, estimate_window, window_price, WindowEstimate, executing_from,
  executes_candidate, work_full_price, sum_groups, price_indexes, price_candidate, estimate_from,
}
use gomutant.Schedule.Pricing.Exact.{Executes, executing_indexes-exact}
use gomutant.Schedule.Pricing.Reference.{total_cost, total_priced, total_executing}
use gomutant.Schedule.Pricing.Estimate.{estimate_window-exact}
use gomutant.Schedule.Windows.{
  ReadyWindow, gather_window, gather_more, takes_more, next_ready_window, next_from, goes_first,
}
use gomutant.WindowCost.{executions}
use gomutant.Schedule.Windows.Gather.{gather_window-cut, IsFull}
use gomutant.Schedule.Windows.Order.{next_ready_window-IsFirst, IsFirst}

abbrev kill : ℕ → WindowKill
kill mi = record { target = 0; mi = mi }

-- Seven kills of one target: three confirmed, three skipped, and the sampled one flips.
abbrev kills : List WindowKill
kills = kill 0 ∷ kill 1 ∷ kill 2 ∷ kill 3 ∷ kill 4 ∷ kill 5 ∷ kill 6 ∷ []

abbrev flips_at : ℕ → Callbacks
flips_at mi = record {
  volatile = λ log t. false;
  confirm = λ log k mode. some (if k.mi == mi then confirm_flipped else confirm_reproduced);
  unverifiable = λ log k. false;
}

abbrev ended : Ended → State
ended (finished s) = s
ended (failed s) = s
ended out_of_fuel = initial

abbrev final : ℕ → State
final mi = ended (confirm_window_kills (flips_at mi) kills)

finishes : confirm_window_kills (flips_at 6) kills ≡ finished (final 6)
unfolding confirm_window_kills walk visit drain ask confirm_one settle rearm note gate_for armed
    confirm_now observe get put take_skips filter
finishes = refl

sampled : length (final 9).skipped ≡ 3
unfolding confirm_window_kills walk visit drain ask confirm_one settle rearm note gate_for armed
    confirm_now observe get put take_skips filter
sampled = refl

flipped : any is_flip (final 6).log ≡ true
unfolding confirm_window_kills walk visit drain ask confirm_one settle rearm note gate_for armed
    confirm_now observe get put take_skips filter any
flipped = refl

in_order : InOrder 0 kills
in_order = ground arith

flip_confirms_all_example : (final 6).skipped ≡ []
flip_confirms_all_example = flip_confirms_all (flips_at 6) kills (final 6) in_order finishes flipped

confirm_window_kills_total_example : confirm_window_kills (flips_at 6) kills ≢ out_of_fuel
confirm_window_kills_total_example = confirm_window_kills_total (flips_at 6) kills

confirm_window_kills-conserves_example :
    count_if (λ r. r.kill.mi == 4) (final 6).log + count_if (λ k. k.mi == 4) (final 6).skipped
    ≡ count_if (λ k. k.mi == 4) kills
confirm_window_kills-conserves_example =
    confirm_window_kills-conserves (flips_at 6) kills (final 6) (λ k. k.mi == 4) finishes

abbrev candidate : List ℕ → List (List ℕ × List ℕ) → Candidate
candidate position edits = record {
  symbol = codes "p.F";
  operator = codes "negate";
  position = position;
  site = [];
  extent = [];
  replacements = edits;
}

abbrev group : Group
group = record {
  pkgs = [];
  passed = [];
  run_regex = [];
  flags = [];
  module_dir = [];
  package_dir = [];
}

-- Two candidates, of which one was discarded before execution, and an oracle of two tests.
abbrev work : ℕ → Work
work t = record {
  target = t;
  oracle = codes "TestA" ∷ codes "TestB" ∷ [];
  shaped = false;
  candidates =
      candidate (codes "1:2") ((codes "a.go", codes "x") ∷ []) ∷ candidate (codes "3:4") [] ∷ [];
  groups = group ∷ group ∷ [];
  baselines = [];
  serve = none;
  flagged = λ i. false;
  extend = none;
  extend_from = 0;
}

executes_first : executing_indexes (work 0) ≡ some (0 ∷ [])
unfolding executing_indexes executing_from executes_candidate mutant
executes_first = refl

executing_indexes-exact_example :
    (is : List ℕ) × (executing_indexes (work 0) ≡ some is)
    × ((i : ℕ) → (any (λ j. j == i) is ≡ true) ↔ Executes (work 0) i)
executing_indexes-exact_example = executing_indexes-exact (work 0)

abbrev bank : BaselineDur
bank = some (λ g. some 250)

priced : window_price (work 0 ∷ work 1 ∷ []) bank ≡ some (1000, true)
unfolding window_price estimate_window estimate_from price_indexes price_candidate work_full_price
    sum_groups executing_indexes executing_from executes_candidate mutant
priced = refl

-- Without a banked baseline no candidate has a price.
unpriced : window_price (work 0 ∷ []) (some (λ g. none)) ≡ some (0, false)
unfolding window_price estimate_window estimate_from price_indexes price_candidate work_full_price
    sum_groups executing_indexes executing_from executes_candidate mutant
unpriced = refl

estimate_window-exact_example :
    let window = work 0 ∷ work 1 ∷ [] in
    (est : WindowEstimate) × (estimate_window window bank ≡ some est)
    × (est.projected ≡ total_cost bank window)
    × (est.full ≡ total_priced bank window)
    × (est.full + est.unknown ≡ total_executing window)
    × ((all_priced : Bool) × (window_price window bank ≡ some (total_cost bank window, all_priced))
        × ((all_priced ≡ true) ↔ (total_priced bank window ≡ total_executing window)))
estimate_window-exact_example = estimate_window-exact (work 0 ∷ work 1 ∷ []) bank

-- Three items of two candidates each: the ceiling of four candidates cuts after the second.
cuts : gather_window (work 0 ∷ work 1 ∷ work 2 ∷ []) 4 1 ≡ some (work 0 ∷ work 1 ∷ [], work 2 ∷ [])
unfolding gather_window gather_more takes_more executions
cuts = refl

gather_window-cut_example :
    (work 0 ∷ work 1 ∷ work 2 ∷ [] ≡ work 0 ∷ work 1 ∷ work 2 ∷ [])
    × (work 0 ∷ work 1 ∷ [] ≢ [])
    × (work 2 ∷ [] ≢ [] → IsFull 4 1 (work 0 ∷ work 1 ∷ []))
    × ((first w : Work) (pre post : List Work)
        → work 0 ∷ work 1 ∷ [] ≡ first ∷ pre ++ w ∷ post
        → ¬ IsFull 4 1 (first ∷ pre))
gather_window-cut_example =
    gather_window-cut 4 1 (work 0 ∷ work 1 ∷ work 2 ∷ []) (work 0 ∷ work 1 ∷ []) (work 2 ∷ []) cuts

abbrev ready : ℕ → Bool → ReadyWindow
ready cost known = record { window = []; cost = cost; priced = known }

abbrev pool : List ReadyWindow
pool = ready 5 true ∷ ready 0 false ∷ ready 3 true ∷ ready 3 true ∷ []

cheapest : next_ready_window (ready 1 false ∷ pool) ≡ 3
unfolding next_ready_window next_from goes_first
cheapest = refl

next_ready_window-IsFirst_example :
    IsFirst (ready 1 false ∷ pool) (next_ready_window (ready 1 false ∷ pool))
next_ready_window-IsFirst_example = next_ready_window-IsFirst (ready 1 false) pool
