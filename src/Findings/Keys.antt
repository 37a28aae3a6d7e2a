-- ===== src/Findings/Keys.antt =====
-- Lists of keyed records: no key twice, and what the disposition methods' loops do to that.
use gomutant.Prelude.{
  ◌≡◌, refl, Bool, false, not, ◌&&◌, List, [], ◌∷◌, ◌++◌, ◌==◌, eq_iff, any, filter, delete_first,
  update_first, arith, Bool-cases, inl, inr, any_snoc,
}
use gomutant.Record.{SurvivorKey, key_eq}

module _ {ℓ} {A : Type ℓ} (key : A → SurvivorKey) where
  abbrev has_key : SurvivorKey → A → Bool
  has_key k a = key a == k

  -- No key stands twice.
  abbrev pub DistinctBy : List A → Type 0
  DistinctBy [] = Unit
  DistinctBy (x ∷ xs) = (any (has_key (key x)) xs ≡ false) × DistinctBy xs

  pub DistinctBy-snoc :
      (xs : List A) (a : A)
      → DistinctBy xs
      → any (has_key (key a)) xs ≡ false
      → DistinctBy (xs ++ a ∷ [])
  unfolding any
  DistinctBy-snoc [] a d h = (refl, tt)
  DistinctBy-snoc (x ∷ xs) a d h = (
    ground (
      arith,
      any_snoc (has_key (key x)) xs a,
      d.0,
      eq_iff (key x) (key a),
      eq_iff (key a) (key x),
    ),
    DistinctBy-snoc xs a d.1 (ground arith),
  )

  pub any-false-filter :
      (q p : A → Bool) (xs : List A) → any q xs ≡ false → any q (filter p xs) ≡ false
  unfolding any filter
  any-false-filter q p [] h = refl
  any-false-filter q p (x ∷ xs) h = ground (arith, any-false-filter q p xs)

  pub DistinctBy-filter : (p : A → Bool) (xs : List A) → DistinctBy xs → DistinctBy (filter p xs)
  unfolding filter
  DistinctBy-filter p [] d = tt
  DistinctBy-filter p (x ∷ xs) d = elim (Bool-cases (p x)) [
    | inl e ↦ rw e (any-false-filter (has_key (key x)) p xs d.0, DistinctBy-filter p xs d.1)
    | inr e ↦ rw e (DistinctBy-filter p xs d.1)
  ]

  any-false-delete_first :
      (q p : A → Bool) (xs : List A) → any q xs ≡ false → any q (delete_first p xs) ≡ false
  unfolding any delete_first
  any-false-delete_first q p [] h = refl
  any-false-delete_first q p (x ∷ xs) h = ground (arith, any-false-delete_first q p xs)

  pub DistinctBy-delete_first :
      (p : A → Bool) (xs : List A) → DistinctBy xs → DistinctBy (delete_first p xs)
  unfolding delete_first
  DistinctBy-delete_first p [] d = tt
  DistinctBy-delete_first p (x ∷ xs) d = elim (Bool-cases (p x)) [
    | inl e ↦ rw e d.1
    | inr e ↦
        rw e (any-false-delete_first (has_key (key x)) p xs d.0, DistinctBy-delete_first p xs d.1)
  ]

  -- An update that keeps the key is not seen by a test on keys.
  pub any-update_first :
      (f : A → A) (p : A → Bool) (k : SurvivorKey)
      → ((a : A) → key (f a) ≡ key a)
      → (xs : List A) → any (has_key k) (update_first p f xs) ≡ any (has_key k) xs
  unfolding any update_first
  any-update_first f p k h [] = refl
  any-update_first f p k h (x ∷ xs) = elim (Bool-cases (p x)) [
    | inl e ↦ rw (e, h x) refl
    | inr e ↦ rw (e, any-update_first f p k h xs) refl
  ]

  pub DistinctBy-update_first :
      (f : A → A) (p : A → Bool)
      → ((a : A) → key (f a) ≡ key a)
      → (xs : List A) → DistinctBy xs
      → DistinctBy (update_first p f xs)
  unfolding update_first
  DistinctBy-update_first f p h [] d = tt
  DistinctBy-update_first f p h (x ∷ xs) d = elim (Bool-cases (p x)) [
    | inl e ↦ rw (e, h x) d
    | inr e ↦ rw (e, any-update_first f p (key x) h xs) (d.0, DistinctBy-update_first f p h xs d.1)
  ]

  -- Deleting the one element of a key is deleting the key.
  pub any-delete_first :
      (k j : SurvivorKey) (xs : List A)
      → DistinctBy xs
      → any (has_key j) (delete_first (has_key k) xs) ≡ (any (has_key j) xs && not (k == j))
  unfolding any delete_first
  any-delete_first k j [] d = ground arith
  any-delete_first k j (x ∷ xs) d =
      ground
        (arith, any-delete_first k j xs d.1, eq_iff (key x) k, eq_iff (key x) j, eq_iff k j, d.0)
