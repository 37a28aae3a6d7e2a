-- ===== src/Edits/Matches.antt =====
-- ephemeral.go `overlappingMatchStarts`: the loop counts every position where the pattern matches.
use gomutant.Prelude.{
  ℕ, zero, suc, ◌+◌, ◌≤◌, ◌<◌, ◌≡◌, ◌≢◌, ◌⊎◌, refl, sym, ap, ◌∙◌, true, none, some, List, [], ◌∷◌,
  ◌++◌, Text, text_eq, nat_eq, eq_sound, if◌then◌else◌, length, take, drop, arith, Bool-cases, inl,
  inr, subst,
}
use gomutant.Prelude.Strings.{starts_with, starts_with-append}
use gomutant.Edits.{index, match_starts_from, overlapping_match_starts}

-- The number of suffixes that start with the pattern.
abbrev pub matches : Text → Text → ℕ
matches p [] = 0
matches p (y ∷ s) = (if starts_with p (y ∷ s) then 1 else 0) + matches p s

pub starts_with-split : (p s : Text) → starts_with p s ≡ true → s ≡ p ++ drop (length p) s
unfolding starts_with
starts_with-split [] s h = refl
starts_with-split (x ∷ p) [] h = absurd (cc)
starts_with-split (x ∷ p) (y ∷ s) h =
    let e : x ≡ y = eq_sound x y (ground arith) in
    let rest : s ≡ p ++ drop (length p) s = starts_with-split p s (ground arith) in
    ap (λ t. y ∷ t) rest ∙ ap (λ z. z ∷ p ++ drop (length p) s) (sym e)

shift : (i n : ℕ) → suc (i + n) ≡ suc i + n
shift i n = omega arith

-- What the search finds: nothing, or the first match, before all the others.
pub index-matches :
    (p s : Text)
    → ((index p s ≡ none) × (matches p s ≡ 0))
      ⊎ ((i : ℕ) × (index p s ≡ some i)
          × (s ≡ take i s ++ p ++ drop (i + length p) s)
          × (i < length s)
          × (matches p s ≡ 1 + matches p (drop (suc i) s)))
unfolding index
index-matches p [] = inl (refl, refl)
index-matches p (y ∷ s) = elim (Bool-cases (starts_with p (y ∷ s))) [
  | inl h ↦ inr (
    0,
    rw (index, h) refl,
    starts_with-split p (y ∷ s) h ∙ ap (λ n. p ++ drop n (y ∷ s)) (omega arith),
    omega arith,
    rw h refl,
  )
  | inr h ↦ elim (index-matches p s) [
    | inl (e, m) ↦ inl (rw (index, h, e) refl, rw h (omega (arith, m)))
    | inr (i, e, split, l, m) ↦ inr (
      suc i,
      rw (index, h, e) refl,
      ap (λ t. y ∷ t) split ∙ ap (λ n. y ∷ take i s ++ p ++ drop n (y ∷ s)) (shift i (length p)),
      omega (arith, l),
      rw h (omega (arith, m)),
    )
  ]
]

length-drop {ℓ} : {A : Type ℓ} (n : ℕ) (s : List A) → length (drop n s) ≤ length s
length-drop zero s = omega arith
length-drop (suc n) [] = omega arith
length-drop (suc n) (x ∷ s) = omega (arith, length-drop n s)

length-drop-suc {ℓ} :
    {A : Type ℓ} (n : ℕ) (s : List A) → n < length s → length (drop (suc n) s) < length s
length-drop-suc n [] h = absurd (omega arith)
length-drop-suc n (x ∷ s) h = omega (arith, length-drop n s)

match_starts_from-matches :
    (fuel : ℕ) (p s : Text) (count : ℕ)
    → length s < fuel
    → match_starts_from fuel p s count ≡ some (count + matches p s)
unfolding match_starts_from
match_starts_from-matches zero p s count h = absurd (omega arith)
match_starts_from-matches (suc fuel) p s count h = elim (index-matches p s) [
  | inl (e, m) ↦ rw (match_starts_from, e) (ap some (omega (arith, m)))
  | inr (i, e, _, l, m) ↦
      rw (match_starts_from, e)
        (match_starts_from-matches fuel p (drop (suc i) s) (count + 1)
            (omega (arith, length-drop-suc i s l))
          ∙ ap some (omega (arith, m)))
]

-- The search for a pattern that is not empty always ends, and counts every position at which the
-- pattern matches, overlapping ones included.
pub overlapping_match_starts-matches :
    (s p : Text) → p ≢ [] → overlapping_match_starts s p ≡ some (matches p s)
unfolding overlapping_match_starts
overlapping_match_starts-matches s [] n = absurd (n refl)
overlapping_match_starts-matches s (x ∷ p) n =
    match_starts_from-matches (suc (length s)) (x ∷ p) s 0 (omega arith) ∙ ap some (omega arith)

pub matches-occurrence : (p pre post : Text) → p ≢ [] → 1 ≤ matches p (pre ++ p ++ post)
matches-occurrence [] pre post n = absurd (n refl)
matches-occurrence (x ∷ p) [] post n = rw (starts_with-append (x ∷ p) post) (omega arith)
matches-occurrence (x ∷ p) (y ∷ pre) post n = omega (arith, matches-occurrence (x ∷ p) pre post n)

-- A pattern that matches once stands at one place.
pub matches_unique :
    (p s pre post pre' post' : Text)
    → p ≢ []
    → matches p s ≡ 1
    → s ≡ pre ++ p ++ post
    → s ≡ pre' ++ p ++ post'
    → pre ≡ pre'
matches_unique p s [] post [] post' n m e e' = refl
matches_unique p [] [] post (y ∷ pre') post' n m e e' = absurd (cc)
matches_unique p (z ∷ s) [] post (y ∷ pre') post' n m e e' =
    let a : starts_with p (z ∷ s) ≡ true =
      subst (λ t. starts_with p t ≡ true) (sym e) (starts_with-append p post) in
    let t : s ≡ pre' ++ p ++ post' = cc in
    let b = subst (λ t. 1 ≤ matches p t) (sym t) (matches-occurrence p pre' post' n) in
    absurd (ground arith)
matches_unique p [] (y ∷ pre) post [] post' n m e e' = absurd (cc)
matches_unique p (z ∷ s) (y ∷ pre) post [] post' n m e e' =
    let a : starts_with p (z ∷ s) ≡ true =
      subst (λ t. starts_with p t ≡ true) (sym e') (starts_with-append p post') in
    let t : s ≡ pre ++ p ++ post = cc in
    let b = subst (λ t. 1 ≤ matches p t) (sym t) (matches-occurrence p pre post n) in
    absurd (ground arith)
matches_unique p [] (y ∷ pre) post (y' ∷ pre') post' n m e e' = absurd (cc)
matches_unique p (z ∷ s) (y ∷ pre) post (y' ∷ pre') post' n m e e' =
    let t : s ≡ pre ++ p ++ post = cc in
    let t' : s ≡ pre' ++ p ++ post' = cc in
    let b = subst (λ t. 1 ≤ matches p t) (sym t) (matches-occurrence p pre post n) in
    let q : y ≡ y' = cc in
    let r : pre ≡ pre' = matches_unique p s pre post pre' post' n (ground arith) t t' in cc
