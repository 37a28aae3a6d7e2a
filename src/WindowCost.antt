-- ===== src/WindowCost.antt =====
-- internal/windowcost/windowcost.go: the bounds of an execution window. Worker, candidate and test
-- counts are unbounded naturals here; Go's `int` agrees below 2^60 workers.
use gomutant.Prelude.{ℕ, ◌*◌, max, ltb, if◌then◌else◌}

abbrev candidates_per_worker : ℕ
candidates_per_worker = 8

abbrev candidates_floor : ℕ
candidates_floor = 64

abbrev candidates_min : ℕ
candidates_min = 8

abbrev pub execution_budget : ℕ
execution_budget = 512

abbrev pub confirm_streak : ℕ
confirm_streak = 3

abbrev pub confirm_stride : ℕ
confirm_stride = 4

-- The candidate ceiling and minimum of a window; `override` is a test's fixed window.
unfoldable bounds : ℕ → ℕ → ℕ × ℕ
bounds jobs override =
    if ltb 0 override
    then (override, override)
    else (max (jobs * candidates_per_worker) candidates_floor, max jobs candidates_min)

unfoldable pub executions : ℕ → ℕ → ℕ
executions candidates oracle_tests = candidates * oracle_tests
