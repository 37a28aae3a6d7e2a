-- ===== src/Findings/Graft/Prior.antt =====
-- findings.go `graftDispositionsAgainst`: the loop over the prior dispositions.
use gomutant.Prelude.{
  ◌≡◌, ◌⊎◌, refl, sym, ap, ◌∙◌, Bool, true, false, ◌||◌, List, [], ◌∷◌, ◌++◌, text_eq, ◌==◌, eq_iff,
  eq_sound, any, arith, Bool-cases, inl, inr, any_snoc, subst,
}
use gomutant.Record.{Survivor, SurvivorKey, key_eq, Attestation}
use gomutant.Findings.Disposition.{attestation_key, attested_at}
use gomutant.Findings.Graft.{
  AttestationShed, surviving, site_of, gone_reason, moved_site_reason, moved_domain_reason, shed_of,
  site_moved, Snapshot, judged_before, grafts, sheds, fate, graft_prior,
}

abbrev shed_key : AttestationShed → SurvivorKey
shed_key d = record { position = d.position; operator = d.operator }

abbrev pub shed_at : SurvivorKey → AttestationShed → Bool
shed_at k d = shed_key d == k

-- A disposition at a reported survivor, with that survivor's site.
abbrev pub Anchored : List Survivor → Attestation → Type 0
Anchored survivors a =
    (surviving survivors (attestation_key a) ≡ true)
    × (a.site ≡ site_of survivors (attestation_key a))

-- A fate keeps the key; what grafts is anchored.
fate-keeps :
    (survivors : List Survivor) (snapshot : Snapshot) (a : Attestation)
    → ((b : Attestation) × (fate survivors snapshot a ≡ grafts b)
        × (attestation_key b ≡ attestation_key a)
        × Anchored survivors b)
      ⊎ ((d : AttestationShed) × (fate survivors snapshot a ≡ sheds d)
          × (shed_key d ≡ attestation_key a))
unfolding fate
fate-keeps survivors snapshot a =
    let k = attestation_key a in
    elim (Bool-cases (surviving survivors k)) [
      | inr e ↦ inr (shed_of a gone_reason, rw (fate, e) refl, refl)
      | inl e ↦ elim (Bool-cases (site_moved a.site (site_of survivors k))) [
        | inl m ↦ inr (shed_of a moved_site_reason, rw (fate, e, m) refl, refl)
        | inr m ↦ elim (Bool-cases (judged_before snapshot a)) [
          | inl j ↦ inr (shed_of a moved_domain_reason, rw (fate, e, m, j) refl, refl)
          | inr j ↦
              inl
                (record a { site = site_of survivors k }, rw (fate, e, m, j) refl, refl, (e, refl))
        ]
      ]
    ]

abbrev run_prior : List Survivor → Snapshot → List Attestation → List Attestation → List Attestation
run_prior survivors snapshot prior out = (graft_prior survivors snapshot prior out).0

abbrev run_shed :
    List Survivor → Snapshot → List Attestation → List Attestation → List AttestationShed
run_shed survivors snapshot prior out = (graft_prior survivors snapshot prior out).1

abbrev Has : Bool → SurvivorKey → List Attestation × List AttestationShed → Type 0
Has b k r = any (attested_at k) r.0 ≡ b

abbrev Reported : SurvivorKey → List Attestation × List AttestationShed → Type 0
Reported k r = (any (attested_at k) r.0 || any (shed_at k) r.1) ≡ true

module _ (survivors : List Survivor) (snapshot : Snapshot) where
  step_held :
      (a : Attestation) (prior out : List Attestation)
      → any (attested_at (attestation_key a)) out ≡ true
      → graft_prior survivors snapshot (a ∷ prior) out ≡ graft_prior survivors snapshot prior out
  unfolding graft_prior
  step_held a prior out e = rw (graft_prior, e) refl

  step_grafts :
      (a b : Attestation) (prior out : List Attestation)
      → any (attested_at (attestation_key a)) out ≡ false
      → fate survivors snapshot a ≡ grafts b
      → graft_prior survivors snapshot (a ∷ prior) out
        ≡ graft_prior survivors snapshot prior (out ++ b ∷ [])
  unfolding graft_prior
  step_grafts a b prior out e f = rw (graft_prior, e, f) refl

  step_sheds :
      (a : Attestation) (d : AttestationShed) (prior out : List Attestation)
      → any (attested_at (attestation_key a)) out ≡ false
      → fate survivors snapshot a ≡ sheds d
      → graft_prior survivors snapshot (a ∷ prior) out
        ≡ (run_prior survivors snapshot prior out, d ∷ run_shed survivors snapshot prior out)
  unfolding graft_prior
  step_sheds a d prior out e f = rw (graft_prior, e, f) refl

  -- What a property needs to ride through the loop: it holds of a list that a graft extends.
  pub graft_prior_rule {κ} :
      (P : List Attestation → Type κ)
      → ((out : List Attestation) (b : Attestation)
          → P out
          → any (attested_at (attestation_key b)) out ≡ false
          → Anchored survivors b
          → P (out ++ b ∷ []))
      → (prior out : List Attestation) → P out
      → P (run_prior survivors snapshot prior out)
  unfolding graft_prior
  graft_prior_rule P step [] out h = h
  graft_prior_rule P step (a ∷ prior) out h =
      elim (Bool-cases (any (attested_at (attestation_key a)) out)) [
        | inl e ↦
            subst (λ r. P (r.0)) (sym (step_held a prior out e))
              (graft_prior_rule P step prior out h)
        | inr e ↦ elim (fate-keeps survivors snapshot a) [
          | inr (d, f, k) ↦
              subst (λ r. P (r.0)) (sym (step_sheds a d prior out e f))
                (graft_prior_rule P step prior out h)
          | inl (b, f, k, anchored) ↦
              subst (λ r. P (r.0)) (sym (step_grafts a b prior out e f))
                (graft_prior_rule P step prior (out ++ b ∷ [])
                  (step out b h (subst (λ j. any (attested_at j) out ≡ false) (sym k) e) anchored))
        ]
      ]

  -- A key that is attested stays attested.
  graft_prior-keeps :
      (k : SurvivorKey) (prior out : List Attestation)
      → any (attested_at k) out ≡ true
      → any (attested_at k) (run_prior survivors snapshot prior out) ≡ true
  graft_prior-keeps k prior out h =
      graft_prior_rule (λ xs. any (attested_at k) xs ≡ true)
        (λ xs b p _ _. ground (arith, any_snoc (attested_at k) xs b)) prior out h

  -- No prior disposition disappears: its key is attested, or a shed names it.
  pub graft_prior-reports :
      (k : SurvivorKey) (prior out : List Attestation)
      → any (attested_at k) prior ≡ true
      → (any (attested_at k) (run_prior survivors snapshot prior out)
          || any (shed_at k) (run_shed survivors snapshot prior out))
        ≡ true
  unfolding any
  graft_prior-reports k [] out h = absurd (cc)
  graft_prior-reports k (a ∷ prior) out h =
      let rest = graft_prior-reports k prior in
      elim (Bool-cases (any (attested_at (attestation_key a)) out)) [
        | inl e ↦
            subst (Reported k) (sym (step_held a prior out e))
              (elim (Bool-cases (attestation_key a == k)) [
                | inl same ↦ ground (
                  arith,
                  graft_prior-keeps k prior out (
                      subst (λ j. any (attested_at j) out ≡ true)
                        (eq_sound (attestation_key a) k same) e),
                )
                | inr other ↦ rest out (ground arith)
              ])
        | inr e ↦ elim (fate-keeps survivors snapshot a) [
          | inr (d, f, j) ↦
              subst (Reported k) (sym (step_sheds a d prior out e f))
                (elim (Bool-cases (attestation_key a == k)) [
                  | inl same ↦ ground (arith, ap (λ i. i == k) j)
                  | inr other ↦ ground (arith, rest out)
                ])
          | inl (b, f, j, anchored) ↦
              subst (Reported k) (sym (step_grafts a b prior out e f))
                (elim (Bool-cases (attestation_key a == k)) [
                  | inl same ↦ ground (
                    arith,
                    graft_prior-keeps k prior (out ++ b ∷ [])
                        (ground (arith, any_snoc (attested_at k) out b, ap (λ i. i == k) j)),
                  )
                  | inr other ↦ rest (out ++ b ∷ []) (ground arith)
                ])
        ]
      ]

  grafts-key :
      (a b : Attestation)
      → fate survivors snapshot a ≡ grafts b
      → (attestation_key b == attestation_key a) ≡ true
  grafts-key a b f = elim (fate-keeps survivors snapshot a) [
    | inr (d, g, j) ↦ let p = sym g ∙ f in absurd (cc)
    | inl (c, g, j, _) ↦ ground (arith, j, g, f, eq_iff (attestation_key b) (attestation_key a))
  ]

  -- No key is new: what the result attests was attested before or is a prior disposition's.
  pub graft_prior-new :
      (k : SurvivorKey) (prior out : List Attestation)
      → any (attested_at k) prior ≡ false
      → any (attested_at k) out ≡ false
      → any (attested_at k) (run_prior survivors snapshot prior out) ≡ false
  unfolding any graft_prior
  graft_prior-new k [] out h f = f
  graft_prior-new k (a ∷ prior) out h free =
      elim (Bool-cases (any (attested_at (attestation_key a)) out)) [
        | inl e ↦
            subst (Has false k) (sym (step_held a prior out e))
              (graft_prior-new k prior out (ground arith) free)
        | inr e ↦ elim (fate-keeps survivors snapshot a) [
          | inr (d, f, j) ↦
              subst (Has false k) (sym (step_sheds a d prior out e f))
                (graft_prior-new k prior out (ground arith) free)
          | inl (b, f, j, _) ↦ subst (Has false k) (sym (step_grafts a b prior out e f)) (
              graft_prior-new k prior (out ++ b ∷ []) (ground arith)
                (ground (arith, any_snoc (attested_at k) out b, ap (λ i. i == k) j)))
        ]
      ]

  -- A prior disposition whose fate is to graft is attested in the end.
  pub graft_prior-grafts :
      (a b : Attestation)
      → fate survivors snapshot a ≡ grafts b
      → (before after out : List Attestation)
      → any
          (attested_at (attestation_key a))
          (run_prior survivors snapshot (before ++ a ∷ after) out)
        ≡ true
  unfolding graft_prior
  graft_prior-grafts a b f [] after out =
      elim (Bool-cases (any (attested_at (attestation_key a)) out)) [
        | inl e ↦
            subst (Has true (attestation_key a)) (sym (step_held a after out e))
              (graft_prior-keeps (attestation_key a) after out e)
        | inr e ↦ subst (Has true (attestation_key a)) (sym (step_grafts a b after out e f)) (
            graft_prior-keeps (attestation_key a) after (out ++ b ∷ [])
              (ground (arith, any_snoc (attested_at (attestation_key a)) out b, grafts-key a b f)))
      ]
  graft_prior-grafts a b f (c ∷ before) after out =
      let prior = before ++ a ∷ after in
      elim (Bool-cases (any (attested_at (attestation_key c)) out)) [
        | inl e ↦
            subst (Has true (attestation_key a)) (sym (step_held c prior out e))
              (graft_prior-grafts a b f before after out)
        | inr e ↦ elim (fate-keeps survivors snapshot c) [
          | inr (d, g, j) ↦
              subst (Has true (attestation_key a)) (sym (step_sheds c d prior out e g))
                (graft_prior-grafts a b f before after out)
          | inl (x, g, j, _) ↦
              subst (Has true (attestation_key a)) (sym (step_grafts c x prior out e g))
                (graft_prior-grafts a b f before after (out ++ x ∷ []))
        ]
      ]
