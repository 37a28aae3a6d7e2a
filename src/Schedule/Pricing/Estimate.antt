-- ===== src/Schedule/Pricing/Estimate.antt =====
-- estimate.go `estimateWindow` and `windowPrice`: what a window is projected to cost.
use gomutant.Prelude.{
  Bool-cases, ℕ, suc, ◌+◌, ◌*◌, ◌≡◌, ◌↔◌, refl, ap, ◌∙◌, Bool, true, none, some, List, [], ◌∷◌,
  length, ◌==◌, nat_eq, eqb_iff, arith, eq_sound, inl, inr,
}
use gomutant.Record.{Work}
use gomutant.Schedule.Pricing.Reference.{
  has_price, price, total_executing, total_cost, total_priced, work_full_price-banked,
  executing_indexes-runs,
}
use gomutant.Schedule.Pricing.{
  BaselineDur, WindowEstimate, work_full_price, price_candidate, price_indexes, estimate_from,
  estimate_window, window_price,
}

abbrev estimate_of : ℕ → ℕ → ℕ → WindowEstimate
estimate_of p f u = record { projected = p; full = f; unknown = u }

estimate_ext :
    {p f u p' f' u' : ℕ} → p ≡ p' → f ≡ f' → u ≡ u' → estimate_of p f u ≡ estimate_of p' f' u'
estimate_ext a b c = cc

suc_mul : (n c p : ℕ) → p + c + n * c ≡ p + suc n * c
suc_mul n c p = omega arith

price_candidate_priced :
    (w : Work) (dur : BaselineDur) (cost : ℕ)
    → work_full_price w dur ≡ some cost
    → (p f u : ℕ) → price_candidate w dur (estimate_of p f u) ≡ estimate_of (p + cost) (f + 1) u
unfolding price_candidate
price_candidate_priced w dur cost e p f u = rw (price_candidate, e) refl

price_candidate_unpriced :
    (w : Work) (dur : BaselineDur)
    → work_full_price w dur ≡ none
    → (p f u : ℕ) → price_candidate w dur (estimate_of p f u) ≡ estimate_of p f (u + 1)
unfolding price_candidate
price_candidate_unpriced w dur e p f u = rw (price_candidate, e) refl

price_indexes_priced :
    (w : Work) (dur : BaselineDur) (cost : ℕ)
    → work_full_price w dur ≡ some cost
    → (is : List ℕ) (p f u : ℕ)
    → price_indexes w dur is (estimate_of p f u)
      ≡ estimate_of (p + length is * cost) (f + length is) u
unfolding price_indexes
price_indexes_priced w dur cost e [] p f u = estimate_ext (omega arith) (omega arith) refl
price_indexes_priced w dur cost e (i ∷ is) p f u =
    ap (price_indexes w dur is) (price_candidate_priced w dur cost e p f u)
    ∙ (price_indexes_priced w dur cost e is (p + cost) (f + 1) u
        ∙ estimate_ext (suc_mul (length is) cost p) (omega arith) refl)

price_indexes_unpriced :
    (w : Work) (dur : BaselineDur)
    → work_full_price w dur ≡ none
    → (is : List ℕ) (p f u : ℕ)
    → price_indexes w dur is (estimate_of p f u) ≡ estimate_of p f (u + length is)
unfolding price_indexes
price_indexes_unpriced w dur e [] p f u = estimate_ext refl refl (omega arith)
price_indexes_unpriced w dur e (i ∷ is) p f u =
    ap (price_indexes w dur is) (price_candidate_unpriced w dur e p f u)
    ∙ (price_indexes_unpriced w dur e is p f (u + 1) ∙ estimate_ext refl refl (omega arith))

estimate_from-sum :
    (ws : List Work) (dur : BaselineDur) (p f u : ℕ)
    → (est : WindowEstimate) × (estimate_from ws dur (estimate_of p f u) ≡ some est)
      × (est.projected ≡ p + total_cost dur ws)
      × (est.full ≡ f + total_priced dur ws)
      × (est.full + est.unknown ≡ f + u + total_executing ws)
unfolding estimate_from
estimate_from-sum [] dur p f u = (estimate_of p f u, refl, omega arith, omega arith, omega arith)
estimate_from-sum (w ∷ ws) dur p f u =
    let (is, e, x) = executing_indexes-runs w in
    elim (Bool-cases (has_price dur w)) [
      | inr n ↦
          let unpriced : work_full_price w dur ≡ none = work_full_price-banked w dur ∙ rw n refl in
          let (est, q, a, b, c) = estimate_from-sum ws dur p f (u + length is) in
          (
            est,
            rw (estimate_from, e, price_indexes_unpriced w dur unpriced is p f u) q,
            rw n (omega (arith, a)),
            rw n (omega (arith, b)),
            omega (arith, c, x),
          )
      | inl y ↦
          let priced : work_full_price w dur ≡ some (price dur w) =
            work_full_price-banked w dur ∙ rw y refl in
          let (est, q, a, b, c) =
            estimate_from-sum ws dur (p + length is * price dur w) (f + length is) u in
          (
            est,
            rw (estimate_from, e, price_indexes_priced w dur (price dur w) priced is p f u) q,
            rw y (a ∙ ap (λ k. p + k * price dur w + total_cost dur ws) x ∙ omega arith),
            rw y (omega (arith, b, x)),
            omega (arith, c, x),
          )
    ]

-- The estimate of a window never panics. Each candidate that needs a fresh execution is counted
-- once, as priced or as unknown: priced if the baseline of every group of its work item is banked,
-- and the projection is the sum of these baselines over all the priced candidates. A window is
-- priced exactly if none of its executing candidates is unknown.
pub estimate_window-exact :
    (window : List Work) (dur : BaselineDur)
    → (est : WindowEstimate) × (estimate_window window dur ≡ some est)
      × (est.projected ≡ total_cost dur window)
      × (est.full ≡ total_priced dur window)
      × (est.full + est.unknown ≡ total_executing window)
      × ((all_priced : Bool) × (window_price window dur ≡ some (total_cost dur window, all_priced))
          × ((all_priced ≡ true) ↔ (total_priced dur window ≡ total_executing window)))
unfolding estimate_window window_price
estimate_window-exact window dur =
    let (est, e, a, b, c) = estimate_from-sum window dur 0 0 0 in
    (
      est,
      e,
      omega (arith, a),
      omega (arith, b),
      omega (arith, c),
      (
        est.unknown == 0,
        rw (window_price, e) (ap (λ x. some (x, est.unknown == 0)) (omega (arith, a))),
        (
          λ h. omega (arith, eq_sound est.unknown 0 h, b, c),
          λ h. ground (arith, eqb_iff est.unknown 0),
        ),
      ),
    )
