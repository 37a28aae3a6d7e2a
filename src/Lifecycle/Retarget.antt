-- ===== src/Lifecycle/Retarget.antt =====
-- lifecycle.go `retargetSymbol`: a prefix is rewritten at a boundary of the identity only.
use gomutant.Prelude.{
  ℕ, ◌≡◌, ◌⊎◌, ◌↔◌, refl, sym, ap, ◌∙◌, true, false, some, List, [], ◌∷◌, ◌++◌, Text, text_eq, ◌==◌,
  nat_eq, eqb_iff, if◌then◌else◌, length, drop, get_elem?, arith, Bool-cases, inl, inr,
  length-append,
}
use gomutant.Prelude.Strings.{starts_with, starts_with-append}
use gomutant.Edits.Matches.{starts_with-split}
use gomutant.Lifecycle.{
  Edge, boundary, ambiguous, inside, ends_in_separator, boundary_after, Retargeted, unchanged,
  rewritten, refused, retarget_symbol,
}

-- The text that stands behind a whole prefix.
abbrev pub AtBoundary : Text → Text → Type 0
AtBoundary from rest =
    (rest ≡ []) ⊎ ((ends_in_separator from ≡ true) ⊎ ((tail : Text) × (rest ≡ 47 ∷ tail)))

drop_prefix {ℓ} : {A : Type ℓ} (xs ys : List A) → drop (length xs) (xs ++ ys) ≡ ys
drop_prefix [] ys = refl
drop_prefix (x ∷ xs) ys = drop_prefix xs ys

get_behind {ℓ} :
    {A : Type ℓ} (xs : List A) (y : A) (ys : List A) → get_elem? (xs ++ y ∷ ys) (length xs) ≡ some y
get_behind [] y ys = refl
get_behind (x ∷ xs) y ys = get_behind xs y ys

boundary_after-nil : (from : Text) → boundary_after (from ++ []) from ≡ boundary
unfolding boundary_after
boundary_after-nil from =
    rw
      (
        boundary_after,
        (eqb_iff (length (from ++ [])) (length from)).1 (omega (arith, length-append from [])),
      )
      refl

boundary_after-cons :
    (from : Text) (b : ℕ) (rest : Text)
    → boundary_after (from ++ b ∷ rest) from ≡ (
        if ends_in_separator from
        then boundary
        else if b == 47
        then boundary
        else if b == 46
        then ambiguous
        else inside)
unfolding boundary_after
boundary_after-cons from b rest =
    let longer : (length (from ++ b ∷ rest) == length from) ≡ false =
      ground
        (arith, length-append from (b ∷ rest), eqb_iff (length (from ++ b ∷ rest)) (length from)) in
    rw (boundary_after, longer, get_behind from b rest) refl

boundary_after_iff :
    (from rest : Text) → (boundary_after (from ++ rest) from ≡ boundary) ↔ AtBoundary from rest
boundary_after_iff from [] = ((λ h. inl refl), λ y. boundary_after-nil from)
boundary_after_iff from (b ∷ rest) = elim (Bool-cases (ends_in_separator from)) [
  | inl y ↦ ((λ h. inr (inl y)), λ z. boundary_after-cons from b rest ∙ rw y refl)
  | inr n ↦ elim (Bool-cases (b == 47)) [
    | inl e ↦ (
      (λ h. inr (inr (rest, ap (λ x. x ∷ rest) ((eqb_iff b 47).0 e)))),
      λ z. boundary_after-cons from b rest ∙ rw (n, e) refl,
    )
    | inr m ↦ (
      (λ h. ground (arith, boundary_after-cons from b rest)),
      λ z. elim z [
        | inl q ↦ absurd (cc)
        | inr (inl q) ↦ absurd (cc)
        | inr (inr (tail, q)) ↦ let p : b ≡ 47 = cc in absurd (ground (arith, eqb_iff b 47))
      ],
    )
  ]
]

prefix_cases :
    (from symbol : Text)
    → (starts_with from symbol ≡ false) ⊎ ((rest : Text) × (symbol ≡ from ++ rest))
prefix_cases from symbol = elim (Bool-cases (starts_with from symbol)) [
  | inl y ↦ inr (drop (length from) symbol, starts_with-split from symbol y)
  | inr n ↦ inl n
]

retarget_behind :
    (from rest to : Text)
    → retarget_symbol (from ++ rest) from to
      ≡ (elim (boundary_after (from ++ rest) from) as (λ _. Retargeted) [
        | boundary ↦ rewritten (to ++ rest)
        | ambiguous ↦ refused
        | inside ↦ unchanged
      ])
unfolding retarget_symbol
retarget_behind from rest to =
    rw (retarget_symbol, starts_with-append from rest)
      (ap
        (λ t. elim (boundary_after (from ++ rest) from) as (λ _. Retargeted) [
          | boundary ↦ rewritten (to ++ t)
          | ambiguous ↦ refused
          | inside ↦ unchanged
        ])
        (drop_prefix from rest))

retarget_unmatched :
    (symbol from to : Text)
    → starts_with from symbol ≡ false
    → retarget_symbol symbol from to ≡ unchanged
unfolding retarget_symbol
retarget_unmatched symbol from to n = rw (retarget_symbol, n) refl

rewritten-boundary :
    (e : Edge) (t r : Text)
    → (elim e as (λ _. Retargeted) [
      | boundary ↦ rewritten t
      | ambiguous ↦ refused
      | inside ↦ unchanged
    ])
      ≡ rewritten r
    → (e ≡ boundary) × (t ≡ r)
rewritten-boundary boundary t r h = (refl, cc)
rewritten-boundary ambiguous t r h = absurd (cc)
rewritten-boundary inside t r h = absurd (cc)

-- A symbol is rewritten exactly if the prefix is the whole of it, or ends in a separator, or is
-- followed by a slash; and then the prefix alone is replaced.
pub retarget_symbol_iff-AtBoundary :
    (symbol from to r : Text)
    → (retarget_symbol symbol from to ≡ rewritten r)
      ↔ ((rest : Text) × (symbol ≡ from ++ rest) × (r ≡ to ++ rest) × AtBoundary from rest)
retarget_symbol_iff-AtBoundary symbol from to r = (there symbol, back)
  where
    there :
        (symbol : Text)
        → retarget_symbol symbol from to ≡ rewritten r
        → (rest : Text) × (symbol ≡ from ++ rest) × (r ≡ to ++ rest) × AtBoundary from rest
    there symbol h = elim (prefix_cases from symbol) [
      | inl n ↦ let z = sym (retarget_unmatched symbol from to n) ∙ h in absurd (cc)
      | inr (rest, e) ↦
          let k =
            sym (retarget_behind from rest to) ∙ ap (λ s. retarget_symbol s from to) (sym e) ∙ h in
          let (b, t) = rewritten-boundary (boundary_after (from ++ rest) from) (to ++ rest) r k in
          (rest, e, sym t, (boundary_after_iff from rest).0 b)
    ]

    back :
        ((rest : Text) × (symbol ≡ from ++ rest) × (r ≡ to ++ rest) × AtBoundary from rest)
        → retarget_symbol symbol from to ≡ rewritten r
    back (rest, e, t, at) =
        ap (λ s. retarget_symbol s from to) e
        ∙ retarget_behind from rest to
        ∙ rw ((boundary_after_iff from rest).1 at) (ap rewritten (sym t))

-- A rename is undone by the opposite rename, if both prefixes end in a separator or neither does.
pub retarget_symbol-inverse :
    (symbol from to r : Text)
    → retarget_symbol symbol from to ≡ rewritten r
    → ends_in_separator from ≡ ends_in_separator to
    → retarget_symbol r to from ≡ rewritten symbol
retarget_symbol-inverse symbol from to r h same =
    let (rest, e, t, at) = (retarget_symbol_iff-AtBoundary symbol from to r).0 h in
    (retarget_symbol_iff-AtBoundary r to from symbol).1 (
      rest,
      t,
      e,
      elim at [
        | inl z ↦ inl z
        | inr (inl y) ↦ inr (inl (sym same ∙ y))
        | inr (inr x) ↦ inr (inr x)
      ],
    )
