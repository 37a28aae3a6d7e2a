-- ===== src/Run/Carried/Laws.antt =====
-- run.go and prepare.go: evidence beats attestation.
use gomutant.Prelude.{
  ◌≡◌, refl, ap, ◌∙◌, Bool, true, false, ◌&&◌, ◌||◌, some, List, [], ◌∷◌, ◌++◌, Text, text_eq, ◌==◌,
  eq_sound, eq_refl, any, All, arith, Bool-cases, Option-cases, inl, inr,
}
use gomutant.Record.{Finding, Survivor, SurvivorKey, key_eq, Kill, Attestation}
use gomutant.Findings.Disposition.{attestation_key, attested_at}
use gomutant.Findings.Graft.{surviving, last_at, site_moved, site_of}
use gomutant.Findings.Graft.Prior.{Anchored}
use gomutant.Findings.Graft.Carry.{
  carry_anchored_attestations, carry_anchored_attestations-partitions,
}
use gomutant.Reconcile.Splice.{kill_at}
use gomutant.Run.Carried.{
  AttestationContradiction, contradict_killed_dispositions, domain_held, carry_record, carry_prior,
}

abbrev contradiction_key : AttestationContradiction → SurvivorKey
contradiction_key c = record { position = c.position; operator = c.operator }

-- A contradiction at a key, which names the killer.
abbrev pub contradicted_by : SurvivorKey → Text → AttestationContradiction → Bool
contradicted_by k killer c = (contradiction_key c == k) && (c.killer == killer)

module _ (survivors : List Survivor) (k : SurvivorKey) where
  gone-all :
      (prior : List Attestation)
      → surviving survivors k ≡ false
      → any (attested_at k) (carry_anchored_attestations prior survivors).gone
        ≡ any (attested_at k) prior
  unfolding carry_anchored_attestations any
  gone-all [] s = refl
  gone-all (a ∷ prior) s = elim (Bool-cases (surviving survivors (attestation_key a))) [
    | inr x ↦
        rw (carry_anchored_attestations, x) (ap (λ b. attested_at k a || b) (gone-all prior s))
    | inl x ↦ elim (Bool-cases (attested_at k a)) [
      | inl y ↦ absurd (ground (arith, ap (surviving survivors) (eq_sound (attestation_key a) k y)))
      | inr y ↦ elim (Bool-cases (site_moved a.site (site_of survivors (attestation_key a)))) [
        | inl m ↦ rw (carry_anchored_attestations, x, m, y) (gone-all prior s)
        | inr m ↦ rw (carry_anchored_attestations, x, m, y) (gone-all prior s)
      ]
    ]
  ]

  contradicts :
      (symbol : Text) (gone : List Attestation) (kills : List Kill) (kill : Kill)
      → surviving survivors k ≡ false
      → last_at (kill_at k) kills ≡ some kill
      → any (attested_at k) gone ≡ true
      → any
          (contradicted_by k kill.killer)
          (contradict_killed_dispositions symbol gone survivors kills)
        ≡ true
  unfolding contradict_killed_dispositions any
  contradicts symbol [] kills kill s l h = absurd (cc)
  contradicts symbol (a ∷ gone) kills kill s l h = elim (Bool-cases (attested_at k a)) [
    | inl y ↦
        let e = eq_sound (attestation_key a) k y in
        let s' = ap (surviving survivors) e ∙ s in
        let l' = ap (λ x. last_at (kill_at x) kills) e ∙ l in
        rw (contradict_killed_dispositions, s', l') (ground (arith, y, eq_refl kill.killer))
    | inr y ↦
        let rest = contradicts symbol gone kills kill s l (ground arith) in
        elim (Bool-cases (surviving survivors (attestation_key a))) [
          | inl x ↦ rw (contradict_killed_dispositions, x) rest
          | inr x ↦ elim (Option-cases (last_at (kill_at (attestation_key a)) kills)) [
            | inl z ↦ rw (contradict_killed_dispositions, x, z) rest
            | inr (other, z) ↦ rw (contradict_killed_dispositions, x, z) (ground (arith, rest))
          ]
        ]
  ]

  kept-none :
      (prior : List Attestation)
      → All (Anchored survivors) prior
      → surviving survivors k ≡ false
      → any (attested_at k) prior ≡ false
  unfolding any
  kept-none [] h s = refl
  kept-none (a ∷ prior) h s = elim (Bool-cases (attested_at k a)) [
    | inl y ↦
        absurd (ground (arith, h.0.0, ap (surviving survivors) (eq_sound (attestation_key a) k y)))
    | inr y ↦ ground (arith, y, kept-none prior h.1 s)
  ]

-- Evidence beats attestation: where a measurement without dispositions of its own holds the domain
-- of the prior record, an attested candidate which no longer survives and which was killed is not
-- attested in the finding any more, and a contradiction is reported that names its killer.
pub carry_prior-contradicts :
    (shaped : Bool) (shape_equal : Finding → Finding → Bool) (rec f : Finding) (k : SurvivorKey)
    (kill : Kill)
    → domain_held shaped (shape_equal rec f) rec f ≡ true
    → f.attested ≡ []
    → any (attested_at k) rec.attested ≡ true
    → surviving f.survivors k ≡ false
    → last_at (kill_at k) f.kills ≡ some kill
    → let r = carry_prior shaped shape_equal (some rec) f in
      (any (attested_at k) r.finding.attested ≡ false)
      × (any (contradicted_by k kill.killer) r.contradictions ≡ true)
unfolding carry_prior carry_record
carry_prior-contradicts shaped shape_equal rec f k kill held none_yet attested s l =
    let c = carry_anchored_attestations rec.attested f.survivors in
    let (anchored, _, _, _) = carry_anchored_attestations-partitions rec.attested f.survivors k in
    rw held (
      ap (λ xs. any (attested_at k) (xs ++ c.kept)) none_yet
          ∙ kept-none f.survivors k c.kept anchored s,
      contradicts f.survivors k f.symbol c.gone f.kills kill s l
          (gone-all f.survivors k rec.attested s ∙ attested),
    )
