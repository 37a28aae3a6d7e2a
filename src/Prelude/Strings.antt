-- ===== src/Prelude/Strings.antt =====
-- Functions of Go's `strings` on texts: prefixes, cuts at a byte, and splits.
use Prim.Native.Nat.{ℕ}
use mathlib.Core.Bool.{Bool, true, false, ◌&&◌, ◌||◌}
use mathlib.Core.Option.{Option, none, some}
use mathlib.Core.List.{List, [], ◌∷◌, ◌++◌}
use mathlib.Core.Path.{◌≡◌, refl}
use native.Mathlib.Omega.{arith}
use gomutant.Prelude.Tests.{if◌then◌else◌, leb}
use gomutant.Prelude.Equality.{◌==◌, nat_eq, eq_refl}
use gomutant.Prelude.Lists.{any}
use gomutant.Prelude.Texts.{Text}

-- `strings.HasPrefix`, the pattern first.
unfoldable pub starts_with : Text → Text → Bool
starts_with [] s = true
starts_with (x ∷ p) [] = false
starts_with (x ∷ p) (y ∷ s) = (x == y) && starts_with p s

-- `strings.Cut` at a byte: what stands before it, and what after, where it stands in the text.
unfoldable pub cut : ℕ → Text → Text × Option Text
cut c [] = ([], none)
cut c (x ∷ s) =
    let (before, after) = cut c s in if x == c then ([], some s) else (x ∷ before, after)

-- `strings.Split` at a byte.
unfoldable pub split : ℕ → Text → List Text
split c [] = [] ∷ []
split c (x ∷ s) =
    if x == c
    then [] ∷ split c s
    else elim (split c s) [ [] ↦ (x ∷ []) ∷ [] | part ∷ parts ↦ (x ∷ part) ∷ parts ]

-- The bytes of ASCII that `unicode.IsSpace` knows.
abbrev pub is_space : ℕ → Bool
is_space c = (c == 32) || (leb 9 c && leb c 13)

unfoldable fields_from : Text → Text → List Text
fields_from [] [] = []
fields_from (w ∷ word) [] = (w ∷ word) ∷ []
fields_from word (x ∷ s) =
    if is_space x
    then elim word [ [] ↦ fields_from [] s | w ∷ ws ↦ (w ∷ ws) ∷ fields_from [] s ]
    else fields_from (word ++ x ∷ []) s

-- `strings.Fields`, for a text whose spaces are ASCII.
unfoldable pub fields : Text → List Text
unfolding fields_from
fields s = fields_from [] s

-- A text without the byte is all before the cut.
pub cut_absent : (c : ℕ) (s : Text) → any (λ x. x == c) s ≡ false → cut c s ≡ (s, none)
unfolding cut any
cut_absent c [] h = refl
cut_absent c (x ∷ s) h = ground (arith, cut_absent c s)

pub cut_at : (c : ℕ) (s t : Text) → any (λ x. x == c) s ≡ false → cut c (s ++ c ∷ t) ≡ (s, some t)
unfolding cut any
cut_at c [] t h = ground (arith, eq_refl c)
cut_at c (x ∷ s) t h = ground (arith, cut_at c s t)

pub starts_with-append : (p s : Text) → starts_with p (p ++ s) ≡ true
unfolding starts_with
starts_with-append [] s = refl
starts_with-append (x ∷ p) s = ground (arith, eq_refl x, starts_with-append p s)
