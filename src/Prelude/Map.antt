-- ===== src/Prelude/Map.antt =====
-- A Go map as an association list: `put` overwrites in place or appends, so that every key stands
-- once and a range over the map visits the keys in the order of their first insertion.
use mathlib.Core.Path.{◌≡◌, refl, sym, ap, ◌∙◌}
use mathlib.Core.Option.{Option, none, some}
use mathlib.Core.Logic.{inl, inr}
use mathlib.Core.List.{List, [], ◌∷◌}
use native.Mathlib.Omega.{arith}
use gomutant.Prelude.Tests.{if◌then◌else◌, Bool-cases}
use gomutant.Prelude.Equality.{Comparable, ◌==◌, eq_iff, eq_refl, eq_sound}

abbrev pub Map {ℓ κ} : Type ℓ → Type κ → Type (ℓ ⊔ κ)
Map K V = List (K × V)

module _ {ℓ κ} {K : Type ℓ} ⦃e : Comparable K⦄ {V : Type κ} where
  unfoldable pub get : K → Map K V → Option V
  get k [] = none
  get k ((j, v) ∷ m) = let rest = get k m in if j == k then some v else rest

  -- Each key stands once, as in a Go map.
  abbrev pub Keys : Map K V → Type κ
  Keys [] = Unit
  Keys (p ∷ m) = (get p.0 m ≡ none) × Keys m

  unfoldable pub put : K → V → Map K V → Map K V
  put k v [] = (k, v) ∷ []
  put k v ((j, w) ∷ m) = let rest = put k v m in if j == k then (k, v) ∷ m else (j, w) ∷ rest

  pub get-put :
      (k j : K) (v : V) (m : Map K V) → get j (put k v m) ≡ (if k == j then some v else get j m)
  unfolding get put
  get-put k j v [] = refl
  get-put k j v ((i, w) ∷ m) = ground (arith, eq_iff k j, eq_iff i k, eq_iff i j, get-put k j v m)

  pub put-Keys : (k : K) (v : V) (m : Map K V) → Keys m → Keys (put k v m)
  unfolding get put
  put-Keys k v [] d = (refl, tt)
  put-Keys k v ((j, w) ∷ m) d = elim (Bool-cases (j == k)) [
    | inl y ↦ rw y (ap (λ x. get x m) (sym (eq_sound j k y)) ∙ d.0, d.1)
    | inr n ↦
        rw n (ground (arith, get-put k j v m, eq_iff k j, eq_iff j k, d.0), put-Keys k v m d.1)
  ]

  pub get-put_self : (k : K) (v : V) (m : Map K V) → get k (put k v m) ≡ some v
  get-put_self k v m = simp (get-put, eq_refl)
