-- ===== src/Prelude/Names.antt =====
-- Sets of names as lists: membership, distinctness, and the pigeonhole principle.
use Prim.Native.Nat.{◌≤◌}
use mathlib.Core.Path.{◌≡◌}
use mathlib.Core.Logic.{inl, inr}
use mathlib.Core.Bool.{Bool, true, false, not}
use mathlib.Core.List.{List, [], ◌∷◌}
use native.Mathlib.Omega.{arith}
use gomutant.Prelude.Tests.{Bool-cases}
use gomutant.Prelude.Equality.{◌==◌, eq_iff}
use gomutant.Prelude.Lists.{any, filter, length, length-filter-not, All}
use gomutant.Prelude.Texts.{Text, text_eq}

-- A set of names, and what it holds.
abbrev pub has : Text → List Text → Bool
has s xs = any (λ x. x == s) xs

abbrev pub Distinct : List Text → Type 0
Distinct [] = Unit
Distinct (x ∷ xs) = (has x xs ≡ false) × Distinct xs

has-without :
    (y s : Text) (xs : List Text)
    → has y xs ≡ true
    → (s == y) ≡ false
    → has y (filter (λ x. not (x == s)) xs) ≡ true
unfolding any filter
has-without y s [] h n = absurd (cc)
has-without y s (x ∷ xs) h n = ground (arith, has-without y s xs, eq_iff x y, eq_iff x s)

all-without :
    (s : Text) (ys xs : List Text)
    → All (λ y. has y xs ≡ true) ys
    → has s ys ≡ false
    → All (λ y. has y (filter (λ x. not (x == s)) xs) ≡ true) ys
unfolding any
all-without s [] xs h n = tt
all-without s (y ∷ ys) xs h n = (
  has-without y s xs h.0 (ground (arith, eq_iff y s, eq_iff s y)),
  all-without s ys xs h.1 (ground arith),
)

-- Distinct names of a list are no more than the list has.
subset-length :
    (ys xs : List Text) → Distinct ys → All (λ y. has y xs ≡ true) ys → length ys ≤ length xs
subset-length [] xs d h = omega arith
subset-length (y ∷ ys) xs d h = omega (
  arith,
  length-filter-not (λ x. x == y) xs h.0,
  subset-length ys (filter (λ x. not (x == y)) xs) d.1 (all-without y ys xs h.1 d.0),
)

-- As many distinct names of a list as it has are all of it.
pub pigeonhole :
    (ys xs : List Text) (s : Text)
    → Distinct ys
    → All (λ y. has y xs ≡ true) ys
    → length xs ≤ length ys
    → has s xs ≡ true
    → has s ys ≡ true
pigeonhole ys xs s d h le there = elim (Bool-cases (has s ys)) [
  | inl y ↦ y
  | inr n ↦ absurd (
      omega (
        arith,
        length-filter-not (λ x. x == s) xs there,
        subset-length ys (filter (λ x. not (x == s)) xs) d (all-without s ys xs h n),
      ))
]
