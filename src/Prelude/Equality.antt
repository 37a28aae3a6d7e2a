-- ===== src/Prelude/Equality.antt =====
-- Go's `==` on the types that the code compares: an interface with its law, and one operator.
use Prim.Native.Nat.{ℕ}
use mathlib.Core.Path.{◌≡◌, refl}
use mathlib.Core.Logic.{◌↔◌}
use mathlib.Core.Bool.{Bool, true, false}
use gomutant.Prelude.Tests.{eqb, eqb_iff}

pub record Comparable {κ} (K : Type κ) : Type κ where
  pub same : K → K → Bool
  pub decides : (x y : K) → (same x y ≡ true) ↔ (x ≡ y)

module _ {κ} {K : Type κ} ⦃c : Comparable K⦄ where
  open c use {same, decides}

  infix 50 ◌==◌
  abbrev pub ◌==◌ : K → K → Bool
  x == y = same x y

  pub eq_iff : (x y : K) → ((x == y) ≡ true) ↔ (x ≡ y)
  eq_iff x y = decides x y

  pub eq_sound : (x y : K) → (x == y) ≡ true → x ≡ y
  eq_sound x y h = (decides x y).0 h

  pub eq_refl : (x : K) → (x == x) ≡ true
  eq_refl x = (decides x x).1 refl

abbrev pub bool_beq : Bool → Bool → Bool
bool_beq true b = b
bool_beq false true = false
bool_beq false false = true

instance abbrev pub nat_eq : Comparable ℕ
nat_eq = record { decides = eqb_iff; same = eqb }
