-- ===== src/Findings/Graft/Fresh.antt =====
-- findings.go `graftDispositionsAgainst`: the loop over the fresh dispositions, and the calls of
-- `appendWithdrawn`.
use gomutant.Prelude.{
  ◌≡◌, ◌⊎◌, refl, sym, ap, ◌∙◌, true, false, not, ◌&&◌, ◌||◌, Option, none, some, List, [], ◌∷◌,
  ◌++◌, text_eq, ◌==◌, eq_refl, eq_sound, any, arith, Bool-cases, Option-cases, inl, inr, All,
  All-append, subst,
}
use gomutant.Record.{Survivor, SurvivorKey, key_eq, Attestation, WithdrawnAttestation}
use gomutant.Findings.Keys.{DistinctBy, DistinctBy-snoc}
use gomutant.Findings.Disposition.{attestation_key, withdrawn_key, attested_at, withdrawn_at}
use gomutant.Findings.Graft.{
  surviving, site_of, site_moved, Snapshot, held_in, last_at, adopt, keep_fresh, graft_fresh,
  append_withdrawn,
}
use gomutant.Findings.Graft.Prior.{Anchored}

adopt-Anchored :
    (prior : List Attestation) (survivors : List Survivor) (a : Attestation)
    → Anchored survivors a
    → (attestation_key (adopt prior survivors a) ≡ attestation_key a)
      × Anchored survivors (adopt prior survivors a)
unfolding adopt
adopt-Anchored prior survivors a h =
    let site = site_of survivors (attestation_key a) in
    elim (Option-cases (last_at (attested_at (attestation_key a)) prior)) [
      | inl e ↦ rw (adopt, e) (refl, h)
      | inr (p, e) ↦
          elim (Bool-cases (not (p.reason == a.reason) && ((p.site == []) || (p.site == site)))) [
            | inl y ↦ rw (adopt, e, y) (refl, (h.0, refl))
            | inr n ↦ rw (adopt, e, n) (refl, h)
          ]
    ]

module _ (prior : List Attestation) (gone : List WithdrawnAttestation) (survivors : List Survivor)
    (snapshot : Snapshot) where
  abbrev kept : Attestation → Option Attestation
  kept a = keep_fresh prior gone survivors snapshot a

  keep_fresh-cases :
      (a : Attestation)
      → Anchored survivors a
      → (kept a ≡ none)
        ⊎ ((b : Attestation) × (kept a ≡ some b)
            × (attestation_key b ≡ attestation_key a)
            × Anchored survivors b)
  unfolding keep_fresh
  keep_fresh-cases a h =
      let k = attestation_key a in
      elim (Option-cases (held_in snapshot k)) [
        | inl e ↦ inr (a, rw (keep_fresh, e) refl, refl, h)
        | inr (held, e) ↦ elim (Bool-cases (held.reason == a.reason)) [
          | inr n ↦ inr (a, rw (keep_fresh, e, n) refl, refl, h)
          | inl y ↦
              elim (Bool-cases (not (any (attested_at k) prior) && any (withdrawn_at k) gone)) [
                | inl w ↦ inl (rw (keep_fresh, e, y, w) refl)
                | inr w ↦ inr (
                  adopt prior survivors a,
                  rw (keep_fresh, e, y, w) refl,
                  (adopt-Anchored prior survivors a h).0,
                  (adopt-Anchored prior survivors a h).1,
                )
              ]
        ]
      ]

  fresh_none :
      (a : Attestation) (fresh : List Attestation)
      → kept a ≡ none
      → graft_fresh prior gone survivors snapshot (a ∷ fresh)
        ≡ graft_fresh prior gone survivors snapshot fresh
  unfolding graft_fresh
  fresh_none a fresh e = rw (graft_fresh, e) refl

  fresh_some :
      (a b : Attestation) (fresh : List Attestation)
      → kept a ≡ some b
      → graft_fresh prior gone survivors snapshot (a ∷ fresh)
        ≡ b ∷ graft_fresh prior gone survivors snapshot fresh
  unfolding graft_fresh
  fresh_some a b fresh e = rw (graft_fresh, e) refl

  -- No key is new.
  graft_fresh-any :
      (k : SurvivorKey) (fresh : List Attestation)
      → All (Anchored survivors) fresh
      → any (attested_at k) fresh ≡ false
      → any (attested_at k) (graft_fresh prior gone survivors snapshot fresh) ≡ false
  unfolding any graft_fresh
  graft_fresh-any k [] h e = e
  graft_fresh-any k (a ∷ fresh) h e = elim (keep_fresh-cases a h.0) [
    | inl n ↦ rw (fresh_none a fresh n) (graft_fresh-any k fresh h.1 (ground arith))
    | inr (b, s, j, _) ↦
        rw (fresh_some a b fresh s)
          (ground (arith, ap (λ i. i == k) j, graft_fresh-any k fresh h.1))
  ]

  pub graft_fresh_sound :
      (fresh : List Attestation)
      → All (Anchored survivors) fresh
      → DistinctBy attestation_key fresh
      → All (Anchored survivors) (graft_fresh prior gone survivors snapshot fresh)
        × DistinctBy attestation_key (graft_fresh prior gone survivors snapshot fresh)
  unfolding graft_fresh
  graft_fresh_sound [] h d = (tt, tt)
  graft_fresh_sound (a ∷ fresh) h d =
      let (rest, distinct) = graft_fresh_sound fresh h.1 d.1 in
      elim (keep_fresh-cases a h.0) [
        | inl n ↦ rw (fresh_none a fresh n) (rest, distinct)
        | inr (b, s, j, anchored) ↦ rw (fresh_some a b fresh s) (
          (anchored, rest),
          (
            graft_fresh-any (attestation_key b) fresh h.1
                (subst (λ i. any (attested_at i) fresh ≡ false) (sym j) d.0),
            distinct,
          ),
        )
      ]

  withdrawn_dropped :
      (k : SurvivorKey) (held : Attestation)
      → held_in snapshot k ≡ some held
      → any (attested_at k) prior ≡ false
      → any (withdrawn_at k) gone ≡ true
      → (a : Attestation) → (attestation_key a ≡ k → a.reason ≡ held.reason)
      → attestation_key a ≡ k
      → kept a ≡ none
  unfolding keep_fresh
  withdrawn_dropped k held hs np gw a same e =
      let at : SurvivorKey → Type 0 = λ i.
        (held_in snapshot i ≡ some held)
        × (any (attested_at i) prior ≡ false)
        × (any (withdrawn_at i) gone ≡ true) in
      let (hs', np', gw') = subst at (sym e) (hs, np, gw) in
      rw (keep_fresh, hs', ap (λ r. held.reason == r) (same e) ∙ eq_refl held.reason, np', gw') refl

  -- What the live document withdrew since the snapshot does not come back.
  pub graft_fresh-withdrawn :
      (k : SurvivorKey) (held : Attestation)
      → held_in snapshot k ≡ some held
      → any (attested_at k) prior ≡ false
      → any (withdrawn_at k) gone ≡ true
      → (fresh : List Attestation) → All (λ a. attestation_key a ≡ k → a.reason ≡ held.reason) fresh
      → All (Anchored survivors) fresh
      → any (attested_at k) (graft_fresh prior gone survivors snapshot fresh) ≡ false
  unfolding graft_fresh any
  graft_fresh-withdrawn k held hs np gw [] same h = refl
  graft_fresh-withdrawn k held hs np gw (a ∷ fresh) same h =
      let rest = graft_fresh-withdrawn k held hs np gw fresh same.1 h.1 in
      elim (Bool-cases (attestation_key a == k)) [
        | inl e ↦
            rw
              (fresh_none a fresh
                (withdrawn_dropped k held hs np gw a same.0 (eq_sound (attestation_key a) k e)))
              rest
        | inr e ↦ elim (keep_fresh-cases a h.0) [
          | inl n ↦ rw (fresh_none a fresh n) rest
          | inr (b, s, j, _) ↦ rw (fresh_some a b fresh s) (ground (arith, ap (λ i. i == k) j))
        ]
      ]

module _ (survivors : List Survivor) (attested : List Attestation) where
  -- A withdrawn disposition at a reported survivor that is not attested, with its site.
  abbrev pub Rests : WithdrawnAttestation → Type 0
  Rests w =
      (surviving survivors (withdrawn_key w) ≡ true)
      × (any (attested_at (withdrawn_key w)) attested ≡ false)
      × (w.site ≡ site_of survivors (withdrawn_key w))

  pub append_withdrawn_sound :
      (ws out : List WithdrawnAttestation)
      → All Rests out
      → DistinctBy withdrawn_key out
      → All Rests (append_withdrawn survivors attested ws out)
        × DistinctBy withdrawn_key (append_withdrawn survivors attested ws out)
  unfolding append_withdrawn
  append_withdrawn_sound [] out h d = (h, d)
  append_withdrawn_sound (w ∷ ws) out h d =
      let k = withdrawn_key w in
      let site = site_of survivors k in
      let w' : WithdrawnAttestation = record w { site = site } in
      elim (Bool-cases (
        any (attested_at k) attested
        || any (withdrawn_at k) out
        || not (surviving survivors k)
        || site_moved w.site site)) [
          | inl e ↦ rw (append_withdrawn, e) (append_withdrawn_sound ws out h d)
          | inr e ↦
              rw (append_withdrawn, e)
                (append_withdrawn_sound ws (out ++ w' ∷ [])
                  (All-append Rests out (w' ∷ []) h ((ground arith, ground arith, refl), tt))
                  (DistinctBy-snoc withdrawn_key out w' d (ground arith)))
        ]
