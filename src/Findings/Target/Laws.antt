-- ===== src/Findings/Target/Laws.antt =====
-- findings.go `AttestFindingWithOptions` and `budgetCovers`: which record is meant.
use gomutant.Prelude.{
  ℕ, suc, ◌+◌, ◌≡◌, ◌≢◌, ◌⊎◌, refl, ap, ◌∙◌, Bool, true, false, ◌&&◌, some, List, [], ◌∷◌, ◌++◌,
  Text, text_eq, ◌==◌, nat_eq, eq_iff, eq_sound, if◌then◌else◌, ok, get_elem?, arith, Bool-cases,
  inl, inr, count_if,
}
use gomutant.Record.{Finding}
use gomutant.Findings.Target.{
  AttestOptions, scoped_from, sole, unscoped_from, is_scoped, target_index,
}

-- The row at an index.
abbrev At : List Finding → ℕ → (Finding → Type 0) → Type 0
At all i P = (f : Finding) × (get_elem? all i ≡ some f) × P f

abbrev Scoped : Text → Text → Finding → Type 0
Scoped symbol selection f = (f.symbol ≡ symbol) × (f.selection ≡ selection)

scoped_from-At :
    (symbol selection : Text) (i : ℕ) (all : List Finding) (r : ℕ)
    → scoped_from symbol selection i all ≡ ok r
    → (n : ℕ) × (r ≡ i + n) × At all n (Scoped symbol selection)
unfolding scoped_from
scoped_from-At symbol selection i [] r h = absurd (cc)
scoped_from-At symbol selection i (f ∷ all) r h =
    elim (Bool-cases ((f.symbol == symbol) && (f.selection == selection))) [
      | inl y ↦ (
        0,
        ground arith,
        (
          f,
          refl,
          (ground (arith, eq_iff f.symbol symbol), ground (arith, eq_iff f.selection selection)),
        ),
      )
      | inr n ↦
          let (m, e, x) = scoped_from-At symbol selection (suc i) all r (ground arith) in
          (suc m, omega (arith, e), x)
    ]

abbrev pub of_symbol : Text → Finding → Bool
of_symbol symbol f = f.symbol == symbol

abbrev Default : Text → Finding → Type 0
Default symbol f = (f.symbol ≡ symbol) × (f.selection ≡ [])

abbrev Symbol : Text → Finding → Type 0
Symbol symbol f = f.symbol ≡ symbol

-- How the second loop ends, having met `others`: at a default record, or with a sole one.
abbrev Found : Text → ℕ → List ℕ → List Finding → ℕ → Type 0
Found symbol i others all r =
    ((n : ℕ) × (r ≡ i + n) × At all n (Default symbol))
    ⊎ ((others ≡ r ∷ []) × (count_if (of_symbol symbol) all ≡ 0))
    ⊎ ((others ≡ [])
        × (count_if (of_symbol symbol) all ≡ 1)
        × ((n : ℕ) × (r ≡ i + n) × At all n (Symbol symbol)))

snoc-cases : (xs : List ℕ) (i r : ℕ) → xs ++ i ∷ [] ≡ r ∷ [] → (xs ≡ []) × (i ≡ r)
snoc-cases [] i r h = (refl, cc)
snoc-cases (x ∷ []) i r h = absurd (cc)
snoc-cases (x ∷ y ∷ xs) i r h = absurd (cc)

snoc-ne-nil : (xs : List ℕ) (i : ℕ) → xs ++ i ∷ [] ≢ []
snoc-ne-nil [] i = λ h. cc
snoc-ne-nil (x ∷ xs) i = λ h. cc

sole_inv : (others : List ℕ) (r : ℕ) → sole others ≡ ok r → others ≡ r ∷ []
sole_inv [] r h = absurd (cc)
sole_inv (i ∷ []) r h = cc
sole_inv (i ∷ j ∷ is) r h = absurd (cc)

Found-step :
    (symbol : Text) (i r : ℕ) (others : List ℕ) (f : Finding) (all : List Finding)
    → Found symbol (suc i) (if f.symbol == symbol then others ++ i ∷ [] else others) all r
    → Found symbol i others (f ∷ all) r
unfolding count_if
Found-step symbol i r others f all (inl (n, e, x)) = inl (suc n, omega (arith, e), x)
Found-step symbol i r others f all (inr (inl (e, c))) = elim (Bool-cases (f.symbol == symbol)) [
  | inl y ↦
      let (o, q) = snoc-cases others i r (rw y at e) in
      inr (inr (o, ground (arith, c), (0, omega (arith, q), (f, refl, eq_sound f.symbol symbol y))))
  | inr n ↦ inr (inl (rw n at e, ground (arith, c)))
]
Found-step symbol i r others f all (inr (inr (o, c, (n, e, x)))) =
    elim (Bool-cases (f.symbol == symbol)) [
      | inl y ↦ absurd (snoc-ne-nil others i (rw y at o))
      | inr z ↦ inr (inr (rw z at o, ground (arith, c), (suc n, omega (arith, e), x)))
    ]

unscoped_from-Found :
    (symbol : Text) (i : ℕ) (others : List ℕ) (all : List Finding) (r : ℕ)
    → unscoped_from symbol i others all ≡ ok r
    → Found symbol i others all r
unfolding unscoped_from count_if
unscoped_from-Found symbol i others [] r h = inr (inl (sole_inv others r h, refl))
unscoped_from-Found symbol i others (f ∷ all) r h =
    elim (Bool-cases ((f.symbol == symbol) && (f.selection == []))) [
      | inl y ↦ inl (
        0,
        ground arith,
        (f, refl, (ground (arith, eq_iff f.symbol symbol), ground (arith, eq_iff f.selection []))),
      )
      | inr n ↦ Found-step symbol i r others f all (
          unscoped_from-Found symbol (suc i)
            (if f.symbol == symbol then others ++ i ∷ [] else others) all r (ground arith))
    ]

-- The record that an attestation means is one of the symbol: under a selection that is asked for,
-- the one of that selection; without one, the default selection's, or the only record that the
-- symbol has.
target_index-At :
    (all : List Finding) (symbol : Text) (opts : AttestOptions) (i : ℕ)
    → target_index all symbol opts ≡ ok i
    → At all i (λ f.
      (f.symbol ≡ symbol)
      × (is_scoped opts ≡ true → f.selection ≡ opts.selection)
      × (is_scoped opts ≡ false → (f.selection ≡ []) ⊎ (count_if (of_symbol symbol) all ≡ 1)))
unfolding target_index
target_index-At all symbol opts i h = elim (Bool-cases (is_scoped opts)) [
  | inl y ↦
      let (n, e, (f, g, (s, t))) = scoped_from-At symbol opts.selection 0 all i (rw y at h) in
      (f, ap (get_elem? all) (omega (arith, e)) ∙ g, (s, (λ _. t), (λ z. absurd (cc))))
  | inr y ↦ elim (unscoped_from-Found symbol 0 [] all i (rw y at h)) [
    | inl (n, e, (f, g, (s, t))) ↦
        (f, ap (get_elem? all) (omega (arith, e)) ∙ g, (s, (λ z. absurd (cc)), (λ _. inl t)))
    | inr (inl (e, c)) ↦ absurd (cc)
    | inr (inr (e, c, (n, q, (f, g, s)))) ↦
        (f, ap (get_elem? all) (omega (arith, q)) ∙ g, (s, (λ z. absurd (cc)), (λ _. inr c)))
  ]
]
