-- ===== src/Prelude/Sort.antt =====
-- Insertion sort by a Boolean order: `sort.Slice` and `sort.Strings` up to the order of equal
-- elements, which Go leaves open and this sort keeps.
use mathlib.Core.Path.{◌≡◌, refl, ap, ◌∙◌}
use mathlib.Core.Logic.{inl, inr}
use mathlib.Core.Bool.{Bool, true, false, ◌||◌}
use mathlib.Core.List.{List, [], ◌∷◌}
use native.Mathlib.Omega.{arith}
use gomutant.Prelude.Tests.{if◌then◌else◌, Bool-cases}
use gomutant.Prelude.Lists.{count_if, any, filter, All, All-imp, All-filter}

module _ {ℓ} {A : Type ℓ} (lt : A → A → Bool) where
  unfoldable pub insert : A → List A → List A
  insert x [] = x ∷ []
  insert x (y ∷ ys) = let rest = insert x ys in if lt y x then y ∷ rest else x ∷ y ∷ ys

  unfoldable pub sort : List A → List A
  unfolding insert
  sort [] = []
  sort (x ∷ xs) = insert x (sort xs)

  -- Nothing stands behind what it is smaller than.
  abbrev Sorted : List A → Type 0
  Sorted [] = Unit
  Sorted (x ∷ xs) = All (λ y. lt y x ≡ false) xs × Sorted xs

  count_if-insert :
      (q : A → Bool) (x : A) (ys : List A) → count_if q (insert x ys) ≡ count_if q (x ∷ ys)
  unfolding insert count_if
  count_if-insert q x [] = refl
  count_if-insert q x (y ∷ ys) = ground (arith, count_if-insert q x ys)

  count_if-sort : (q : A → Bool) (xs : List A) → count_if q (sort xs) ≡ count_if q xs
  unfolding sort count_if
  count_if-sort q [] = refl
  count_if-sort q (x ∷ xs) = count_if-insert q x (sort xs) ∙ ground (arith, count_if-sort q xs)

  any-insert : (q : A → Bool) (x : A) (ys : List A) → any q (insert x ys) ≡ (q x || any q ys)
  unfolding insert any
  any-insert q x [] = refl
  any-insert q x (y ∷ ys) = ground (arith, any-insert q x ys)

  pub any-sort : (q : A → Bool) (xs : List A) → any q (sort xs) ≡ any q xs
  unfolding sort any
  any-sort q [] = refl
  any-sort q (x ∷ xs) = any-insert q x (sort xs) ∙ ap (λ b. q x || b) (any-sort q xs)

  All-insert {κ} : (P : A → Type κ) (x : A) (ys : List A) → P x → All P ys → All P (insert x ys)
  unfolding insert
  All-insert P x [] h k = (h, tt)
  All-insert P x (y ∷ ys) h k = elim (Bool-cases (lt y x)) [
    | inl e ↦ rw e (k.0, All-insert P x ys h k.1)
    | inr e ↦ rw e (h, k)
  ]

  -- The order: not smaller is transitive, and smaller goes one way only.
  module _ (trans : (x y z : A) → lt y x ≡ false → lt z y ≡ false → lt z x ≡ false)
      (asym : (x y : A) → lt y x ≡ true → lt x y ≡ false) where
    insert-Sorted : (x : A) (ys : List A) → Sorted ys → Sorted (insert x ys)
    unfolding insert
    insert-Sorted x [] h = (tt, tt)
    insert-Sorted x (y ∷ ys) h = elim (Bool-cases (lt y x)) [
      | inl e ↦
          rw e (All-insert (λ z. lt z y ≡ false) x ys (asym x y e) h.0, insert-Sorted x ys h.1)
      | inr e ↦
          rw e (
            (e, All-imp (λ z. lt z y ≡ false) (λ z. lt z x ≡ false) (λ z. trans x y z e) ys h.0),
            h,
          )
    ]

    sort-Sorted : (xs : List A) → Sorted (sort xs)
    unfolding sort
    sort-Sorted [] = tt
    sort-Sorted (x ∷ xs) = insert-Sorted x (sort xs) (sort-Sorted xs)

    insert_front : (x : A) (ys : List A) → All (λ y. lt y x ≡ false) ys → insert x ys ≡ x ∷ ys
    unfolding insert
    insert_front x [] h = refl
    insert_front x (y ∷ ys) h = rw h.0 refl

    filter-insert :
        (p : A → Bool) (x : A) (ys : List A)
        → Sorted ys
        → filter p (insert x ys) ≡ (if p x then insert x (filter p ys) else filter p ys)
    unfolding insert filter
    filter-insert p x [] h = ground arith
    filter-insert p x (y ∷ ys) h = elim (Bool-cases (lt y x)) [
      | inl e ↦ ground (arith, filter-insert p x ys h.1)
      | inr e ↦ ground (
        arith,
        insert_front x (filter p ys) (
            All-filter (λ z. lt z x ≡ false) p ys
              (All-imp (λ z. lt z y ≡ false) (λ z. lt z x ≡ false) (λ z. trans x y z e) ys h.0)),
      )
    ]

    -- A filter may be applied before or after the sort.
    pub filter-sort : (p : A → Bool) (xs : List A) → filter p (sort xs) ≡ sort (filter p xs)
    unfolding sort filter
    filter-sort p [] = refl
    filter-sort p (x ∷ xs) =
        filter-insert p x (sort xs) (sort-Sorted xs) ∙ ground (arith, filter-sort p xs)
