-- ===== src/Delta/Laws.antt =====
-- delta.go `CutSurvivorsContext`: a cut splits the open survivors, and never widens the delta.
use gomutant.Prelude.{
  ℕ, suc, ◌≡◌, ◌⊎◌, refl, ap, sym, ◌∙◌, true, not, Option, some, List, [], ◌∷◌, ◌++◌, Text, text_eq,
  ◌==◌, eq_sound, filter, map, append-nil, append_assoc, arith, Bool-cases, Option-cases, inl, inr,
}
use gomutant.Record.{Finding, Survivor}
use gomutant.Findings.Disposition.{open_survivors}
use gomutant.Delta.{
  DeltaCut, DeltaSurvivors, Places, lies_on_delta, cut_from, placeable, cut_survivors,
}

abbrev enumerate {ℓ} : {A : Type ℓ} → ℕ → List A → List (ℕ × A)
enumerate i [] = []
enumerate i (x ∷ xs) = (i, x) ∷ enumerate (suc i) xs

module _ (atoi : Text → Option ℕ) (places : Places) (c : DeltaCut) where
  -- What the loop leaves: the survivors on the delta, the others, and the places of the former.
  abbrev pub Split : Text → ℕ → List Survivor → DeltaSurvivors → DeltaSurvivors → Type 0
  Split dir i ss out d =
      (d.delta ≡ out.delta ++ filter (lies_on_delta atoi places c dir) ss)
      × (d.remainder ≡ out.remainder ++ filter (λ s. not (lies_on_delta atoi places c dir s)) ss)
      × (d.placed
          ≡ out.placed
            ++ map (λ p. p.0) (filter (λ p. lies_on_delta atoi places c dir p.1) (enumerate i ss)))

  cut_from-Split :
      (dir : Text) (i : ℕ) (ss : List Survivor) (out : DeltaSurvivors)
      → Split dir i ss out (cut_from atoi places c dir i ss out)
  unfolding cut_from filter
  cut_from-Split dir i [] out =
      (sym (append-nil out.delta), sym (append-nil out.remainder), sym (append-nil out.placed))
  cut_from-Split dir i (s ∷ ss) out = elim (Bool-cases (lies_on_delta atoi places c dir s)) [
    | inl y ↦
        let (d, r, p) =
          cut_from-Split dir (suc i) ss
            (record out { delta = out.delta ++ s ∷ []; placed = out.placed ++ i ∷ [] }) in
        rw (cut_from, y)
          (d ∙ append_assoc out.delta (s ∷ []) _, r, p ∙ append_assoc out.placed (i ∷ []) _)
    | inr n ↦
        let (d, r, p) =
          cut_from-Split dir (suc i) ss (record out { remainder = out.remainder ++ s ∷ [] }) in
        rw (cut_from, n) (d, r ∙ append_assoc out.remainder (s ∷ []) _, p)
  ]

  placeable_sound :
      (f : Finding) (ss : List Survivor) (dir : Text)
      → placeable atoi places c f ss ≡ some dir
      → (c.changed f.symbol ≡ true)
        × (places.body_hash f.symbol ≡ some f.body_hash)
        × (places.package_dir f.symbol ≡ some dir)
  unfolding placeable
  placeable_sound f ss dir h = elim (Option-cases (places.body_hash f.symbol)) [
    | inl n ↦ absurd (ground arith)
    | inr (current, e) ↦
        let same : (current == f.body_hash) ≡ true = ground arith in
        (ground arith, e ∙ ap some (eq_sound current f.body_hash same), ground arith)
  ]

  -- A cut leaves every open survivor in the remainder, or the record's symbol is one of the changed
  -- ones, its body is the current one and its package has a directory; then the survivors on the
  -- delta are the open ones that lie on an added line, the remainder are the others, both in the
  -- order of the open survivors, and the places are those of the former among these.
  pub cut_survivors-splits :
      (f : Finding)
      → let d = cut_survivors atoi places c f in
        ((d.delta ≡ []) × (d.remainder ≡ open_survivors f) × (d.placed ≡ []))
        ⊎ ((dir : Text) × (c.changed f.symbol ≡ true)
            × (places.body_hash f.symbol ≡ some f.body_hash)
            × (places.package_dir f.symbol ≡ some dir)
            × Split dir 0 (open_survivors f) (record { delta = []; remainder = []; placed = [] }) d)
  unfolding cut_survivors
  cut_survivors-splits f = elim (Option-cases (placeable atoi places c f (open_survivors f))) [
    | inl n ↦ rw (cut_survivors, n) (inl (refl, refl, refl))
    | inr (dir, e) ↦
        let (changed, body, at) = placeable_sound f (open_survivors f) dir e in
        rw (cut_survivors, e)
          (inr (
            dir,
            changed,
            body,
            at,
            cut_from-Split dir 0 (open_survivors f)
                (record { delta = []; remainder = []; placed = [] }),
          ))
  ]
