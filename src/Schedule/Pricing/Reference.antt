-- ===== src/Schedule/Pricing/Reference.antt =====
-- schedule.go `executingIndexes` and estimate.go `workFullPrice`: which candidates run, and what a work
-- item costs, said without their loops.
use gomutant.Prelude.{
  not, ◌&&◌, ◌||◌, Option, false, if◌then◌else◌, is_some, leb, ltb, get_elem?, Bool-cases, ℕ, suc,
  ◌+◌, ◌*◌, ◌≡◌, refl, ap, ◌∙◌, Bool, true, none, some, List, [], ◌∷◌, length, nat_eq, arith,
  Option-cases, inl, inr,
}
use gomutant.Record.{Work, Group, Candidate, mutant}
use gomutant.Schedule.Pricing.{
  executes_candidate, executing_from, sum_groups, executing_indexes, BaselineDur, work_full_price,
}

-- The candidate at `i` needs a fresh execution: it is runnable, not served unless flagged, and not
-- in the prefix of an extension.
abbrev needs_run : Work → ℕ → Candidate → Bool
needs_run w i c =
    (not (is_some w.serve) || w.flagged i)
    && (not (is_some w.extend) || leb w.extend_from i)
    && ltb 0 (length c.replacements)

-- How many of the candidates from `i` on need an execution.
abbrev runs_from : Work → ℕ → List Candidate → ℕ
runs_from w i [] = 0
runs_from w i (c ∷ cs) = (if needs_run w i c then 1 else 0) + runs_from w (suc i) cs

abbrev pub runs : Work → ℕ
runs w = runs_from w 0 w.candidates

abbrev all_banked : (Group → Option ℕ) → List Group → Bool
all_banked dur [] = true
all_banked dur (g ∷ gs) = is_some (dur g) && all_banked dur gs

abbrev banked : Option ℕ → ℕ
banked none = 0
banked (some d) = d

abbrev banked_sum : (Group → Option ℕ) → List Group → ℕ
banked_sum dur [] = 0
banked_sum dur (g ∷ gs) = banked (dur g) + banked_sum dur gs

-- A work item has a price where the baseline of each of its groups is banked: their sum.
abbrev pub has_price : BaselineDur → Work → Bool
has_price none w = false
has_price (some dur) w = all_banked dur w.groups

abbrev pub price : BaselineDur → Work → ℕ
price none w = 0
price (some dur) w = banked_sum dur w.groups

abbrev pub total_executing : List Work → ℕ
total_executing [] = 0
total_executing (w ∷ ws) = runs w + total_executing ws

abbrev pub total_cost : BaselineDur → List Work → ℕ
total_cost dur [] = 0
total_cost dur (w ∷ ws) = (if has_price dur w then runs w * price dur w else 0) + total_cost dur ws

-- The executing candidates of the items that have a price.
abbrev pub total_priced : BaselineDur → List Work → ℕ
total_priced dur [] = 0
total_priced dur (w ∷ ws) = (if has_price dur w then runs w else 0) + total_priced dur ws

sum_groups-banked :
    (dur : Group → Option ℕ) (gs : List Group) (full : ℕ)
    → sum_groups dur gs full ≡ (if all_banked dur gs then some (full + banked_sum dur gs) else none)
unfolding sum_groups
sum_groups-banked dur [] full = ap some (omega arith)
sum_groups-banked dur (g ∷ gs) full = elim (Option-cases (dur g)) [
  | inl n ↦ rw (sum_groups, n) refl
  | inr (d, e) ↦
      rw (sum_groups, e)
        (sum_groups-banked dur gs (full + d)
          ∙ ap (λ x. if all_banked dur gs then some x else none) (omega arith))
]

pub work_full_price-banked :
    (w : Work) (dur : BaselineDur)
    → work_full_price w dur ≡ (if has_price dur w then some (price dur w) else none)
unfolding work_full_price
work_full_price-banked w none = refl
work_full_price-banked w (some dur) =
    sum_groups-banked dur w.groups 0
    ∙ ap (λ x. if all_banked dur w.groups then some x else none) (omega arith)

executes_candidate-at :
    (w : Work) (i : ℕ) (c : Candidate)
    → get_elem? w.candidates i ≡ some c
    → executes_candidate w i ≡ some (needs_run w i c)
unfolding executes_candidate mutant
executes_candidate-at w i c e = ground (arith, e)

executing_from-runs :
    (w : Work) (i : ℕ) (cs : List Candidate)
    → ((n : ℕ) → get_elem? w.candidates (i + n) ≡ get_elem? cs n)
    → (is : List ℕ) × (executing_from w i (length cs) ≡ some is) × (length is ≡ runs_from w i cs)
unfolding executing_from
executing_from-runs w i [] at = ([], refl, refl)
executing_from-runs w i (c ∷ cs) at =
    let (is, e, n) =
      executing_from-runs w (suc i) cs
        (λ n. ap (get_elem? w.candidates) (omega arith) ∙ at (suc n)) in
    let here = executes_candidate-at w i c (ap (get_elem? w.candidates) (omega arith) ∙ at 0) in
    elim (Bool-cases (needs_run w i c)) [
      | inl y ↦ (i ∷ is, rw (executing_from, here, e, y) refl, rw y (omega (arith, n)))
      | inr y ↦ (is, rw (executing_from, here, e, y) refl, rw y (omega (arith, n)))
    ]

pub executing_indexes-runs :
    (w : Work) → (is : List ℕ) × (executing_indexes w ≡ some is) × (length is ≡ runs w)
unfolding executing_indexes
executing_indexes-runs w =
    executing_from-runs w 0 w.candidates (λ n. ap (get_elem? w.candidates) (omega arith))
