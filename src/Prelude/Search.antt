-- ===== src/Prelude/Search.antt =====
-- First matches in a list: what Go's loops with `break` or `return` find, delete and overwrite.
use mathlib.Core.Path.{◌≡◌, refl}
use mathlib.Core.Logic.{◌⊎◌, inl, inr}
use mathlib.Core.Bool.{Bool, true, false, not}
use mathlib.Core.Option.{Option, none, some}
use mathlib.Core.List.{List, [], ◌∷◌, ◌++◌}
use native.Mathlib.Omega.{arith}
use gomutant.Prelude.Tests.{if◌then◌else◌, is_some}
use gomutant.Prelude.Lists.{any, filter}

-- What a fallible Go function returns.
pub data Result {ℓ κ} (E : Type ℓ) (A : Type κ) : Type (ℓ ⊔ κ) where
  err : E → Result E A
  ok : A → Result E A

pub Result-cases {ℓ κ} :
    {E : Type ℓ} {A : Type κ} (r : Result E A) → ((e : E) × (r ≡ err e)) ⊎ ((a : A) × (r ≡ ok a))
Result-cases (err e) = inl (e, refl)
Result-cases (ok a) = inr (a, refl)

module _ {ℓ} {A : Type ℓ} (p : A → Bool) where
  unfoldable pub find : List A → Option A
  find [] = none
  find (x ∷ xs) = let rest = find xs in if p x then some x else rest

  unfoldable pub delete_first : List A → List A
  delete_first [] = []
  delete_first (x ∷ xs) = let rest = delete_first xs in if p x then xs else x ∷ rest

  unfoldable pub update_first : (A → A) → List A → List A
  update_first f [] = []
  update_first f (x ∷ xs) = let rest = update_first f xs in if p x then f x ∷ xs else x ∷ rest

  pub find-any : (xs : List A) → is_some (find xs) ≡ any p xs
  unfolding find any
  find-any [] = refl
  find-any (x ∷ xs) = ground (arith, find-any xs)

  pub find-holds : (xs : List A) (a : A) → find xs ≡ some a → p a ≡ true
  unfolding find
  find-holds [] a h = absurd (cc)
  find-holds (x ∷ xs) a h = ground (arith, find-holds xs a)

  -- What stands last and alone is deleted again.
  pub delete_first-last :
      (xs : List A) (a : A) → any p xs ≡ false → p a ≡ true → delete_first (xs ++ a ∷ []) ≡ xs
  unfolding delete_first any
  delete_first-last [] a h e = ground arith
  delete_first-last (x ∷ xs) a h e = ground (arith, delete_first-last xs a)

  pub find-last :
      (xs : List A) (a : A) → any p xs ≡ false → p a ≡ true → find (xs ++ a ∷ []) ≡ some a
  unfolding find any
  find-last [] a h e = ground arith
  find-last (x ∷ xs) a h e = ground (arith, find-last xs a)

  -- A filter that keeps nothing that the test holds of.
  pub any-filter-not : (xs : List A) → any p (filter (λ x. not (p x)) xs) ≡ false
  unfolding any filter
  any-filter-not [] = refl
  any-filter-not (x ∷ xs) = ground (arith, any-filter-not xs)

  pub filter-not-id : (xs : List A) → any p xs ≡ false → filter (λ x. not (p x)) xs ≡ xs
  unfolding any filter
  filter-not-id [] h = refl
  filter-not-id (x ∷ xs) h = ground (arith, filter-not-id xs)
