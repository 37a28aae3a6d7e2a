-- ===== src/Reconcile/Splice/Tallies.antt =====
-- reconcile.go `spliceFindingCounts`: one candidate's old outcome leaves the summary of its operator
-- and its fresh one joins it; no other summary changes.
use gomutant.Prelude.{
  ℕ, ◌+◌, ◌≤◌, ◌⊎◌, ◌≡◌, refl, ap, sym, ◌∙◌, Bool, false, ◌&&◌, ◌||◌, Option, none, some, List, [],
  ◌∷◌, Text, text_eq, ◌==◌, eq_sound, eq_iff, if◌then◌else◌, any, All, All-imp, arith, Bool-cases,
  inl, inr,
}
use gomutant.Prelude.Integers.{ℤ, pos, negsuc, pos_part, neg_part, ◌+ℤ◌}
use gomutant.Reconcile.Counts.{Disposition, killed, survived, discarded, sum_by}
use gomutant.Reconcile.Counts.Sums.{same_disposition}
use gomutant.Reconcile.Splice.{Tally, adjust, adjust_last}

abbrev pub count : Disposition → Tally → ℤ
count killed t = t.killed
count survived t = t.survived
count discarded t = t.discarded

abbrev pub size : Disposition → Tally → ℕ
size d t = pos_part (count d t)

-- The size, if the tally's operator is among the chosen ones.
abbrev pub size_at : (Text → Bool) → Disposition → Tally → ℕ
size_at chosen d t = if chosen t.operator then size d t else 0

abbrev pub one_at : Text → Disposition → (Text → Bool) → Disposition → ℕ
one_at operator e chosen d = if chosen operator && same_disposition e d then 1 else 0

abbrev pub only : Text → Text → Bool
only o operator = operator == o

-- Every count is a number, and at least what `n` asks of the operator and the outcome.
abbrev pub Holds : ((Text → Bool) → Disposition → ℕ) → Tally → Type 0
Holds n t = (d : Disposition) → (neg_part (count d t) ≡ 0) × (n (only t.operator) d ≤ size d t)

adjust-operator :
    (e : Option Disposition) (δ : ℤ) (t : Tally) → (adjust e δ t).operator ≡ t.operator
unfolding adjust
adjust-operator none δ t = refl
adjust-operator (some killed) δ t = refl
adjust-operator (some survived) δ t = refl
adjust-operator (some discarded) δ t = refl

adjust-count :
    (e d : Disposition) (δ : ℤ) (t : Tally)
    → count d (adjust (some e) δ t) ≡ (if same_disposition e d then count d t +ℤ δ else count d t)
unfolding adjust
adjust-count killed killed δ t = refl
adjust-count killed survived δ t = refl
adjust-count killed discarded δ t = refl
adjust-count survived killed δ t = refl
adjust-count survived survived δ t = refl
adjust-count survived discarded δ t = refl
adjust-count discarded killed δ t = refl
adjust-count discarded survived δ t = refl
adjust-count discarded discarded δ t = refl

abbrev pub one : Disposition → Disposition → ℕ
one e d = if same_disposition e d then 1 else 0

-- The two steps on one count.
move_count :
    (a : ℤ) (p e : Bool)
    → neg_part a ≡ 0
    → (if p then 1 else 0) ≤ pos_part a
    → let b = if p then a +ℤ negsuc 0 else a in
      let c = if e then b +ℤ pos 1 else b in
      (neg_part c ≡ 0) × (pos_part c + (if p then 1 else 0) ≡ pos_part a + (if e then 1 else 0))
unfolding ◌+ℤ◌
move_count a p e h k = ground arith

module _ (p e : Disposition) (t : Tally) where
  abbrev moved : Tally
  moved = adjust (some e) (pos 1) (adjust (some p) (negsuc 0) t)

  moved-operator : moved.operator ≡ t.operator
  moved-operator =
      adjust-operator (some e) (pos 1) (adjust (some p) (negsuc 0) t)
      ∙ adjust-operator (some p) (negsuc 0) t

  moved-size :
      (d : Disposition)
      → neg_part (count d t) ≡ 0
      → one p d ≤ size d t
      → (neg_part (count d moved) ≡ 0) × (size d moved + one p d ≡ size d t + one e d)
  moved-size d h k =
      rw (adjust-count e d (pos 1) (adjust (some p) (negsuc 0) t), adjust-count p d (negsuc 0) t)
        (move_count (count d t) (same_disposition p d) (same_disposition e d) h k)

one_at_same :
    (o : Text) (e : Disposition) (o' : Text) (d : Disposition)
    → o' ≡ o
    → one_at o e (only o') d ≡ one e d
one_at_same o e o' d q = ground (arith, (eq_iff o o').1 (sym q))

-- What one candidate's step does to all summaries: each of them still holds what is asked, and
-- over the summaries of any operator its old outcome has gone and its fresh one is there.
abbrev pub Moves :
    Text
    → Disposition
    → Disposition
    → ((Text → Bool) → Disposition → ℕ)
    → List Tally
    → List Tally
    → Type 0
Moves o p e n ts ts' =
    All (Holds n) ts'
    × ((chosen : Text → Bool) (d : Disposition)
        → sum_by (size_at chosen d) ts' + one_at o p chosen d
          ≡ sum_by (size_at chosen d) ts + one_at o e chosen d)
    × ((o' : Text) → any (λ t. t.operator == o') ts' ≡ any (λ t. t.operator == o') ts)

module _ (o : Text) (p e : Disposition) (n : (Text → Bool) → Disposition → ℕ) where
  abbrev asked : (Text → Bool) → Disposition → ℕ
  asked chosen d = one_at o p chosen d + n chosen d

  relax : (t : Tally) → Holds asked t → Holds n t
  relax t h d = let (z, le) = h d in (z, omega (arith, le))

  moved-Holds : (t : Tally) → t.operator ≡ o → Holds asked t → Holds n (moved p e t)
  moved-Holds t q h d =
      let (z, le) = h d in
      let share = one_at_same o p t.operator d q in
      let (z', m) = moved-size p e t d z (omega (arith, le, share)) in
      (z', omega (arith, m, le, share, ap (λ x. n (only x) d) (moved-operator p e t)))

  moved-at :
      (t : Tally)
      → t.operator ≡ o
      → Holds asked t
      → (chosen : Text → Bool) (d : Disposition)
      → size_at chosen d (moved p e t) + one_at o p chosen d
        ≡ size_at chosen d t + one_at o e chosen d
  moved-at t q h chosen d =
      let (z, le) = h d in
      let share = one_at_same o p t.operator d q in
      let (z', m) = moved-size p e t d z (omega (arith, le, share)) in
      ground (arith, m, ap chosen (moved-operator p e t), ap chosen q)

  pub adjust_last-Moves :
      (ts : List Tally)
      → All (Holds asked) ts
      → ((adjust_last o (some p) e ts ≡ none) × (any (λ t. t.operator == o) ts ≡ false))
        ⊎ ((ts' : List Tally) × (adjust_last o (some p) e ts ≡ some ts') × Moves o p e n ts ts')
  unfolding adjust_last any sum_by
  adjust_last-Moves [] h = inl (refl, refl)
  adjust_last-Moves (t ∷ ts) h = elim (adjust_last-Moves ts h.1) [
    | inr (ts', q, (hs, sums, same)) ↦ inr (
      t ∷ ts',
      rw (adjust_last, q) refl,
      (
        (relax t h.0, hs),
        (λ chosen d. omega (arith, sums chosen d)),
        (λ o'. ap (λ b. (t.operator == o') || b) (same o')),
      ),
    )
    | inl (q, absent) ↦ elim (Bool-cases (t.operator == o)) [
      | inr f ↦ inl (rw (adjust_last, q, f) refl, ground arith)
      | inl y ↦ inr (
        moved p e t ∷ ts,
        rw (adjust_last, q, y) refl,
        (
          (
            moved-Holds t (eq_sound t.operator o y) h.0,
            All-imp (Holds asked) (Holds n) relax ts h.1,
          ),
          (λ chosen d. omega (arith, moved-at t (eq_sound t.operator o y) h.0 chosen d)),
          (λ o'. ap (λ x. (x == o') || any (λ t'. t'.operator == o') ts) (moved-operator p e t)),
        ),
      )
    ]
  ]
