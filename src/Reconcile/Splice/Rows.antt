-- ===== src/Reconcile/Splice/Rows.antt =====
-- reconcile.go `spliceFindingCounts`: the rows of a spliced finding.
use gomutant.Prelude.{
  ℕ, suc, ◌≡◌, refl, ap, sym, ◌∙◌, Bool, true, false, Option, none, some, List, [], ◌∷◌, ◌++◌, Text,
  text_eq, ◌==◌, if◌then◌else◌, any, All, arith, Option-cases, Bool-cases, inl, inr, map,
  map-append, append_assoc, append-nil, Result-cases, err, ok, is_some, filter,
}
use gomutant.Record.{
  Finding, Survivor, SurvivorKey, key_eq, CandidateEvidence, Candidate, Attestation, Exemption,
}
use gomutant.Exemptions.{unstable_for_buckets}
use gomutant.Findings.Disposition.{survivor_key, survivor_at, attestation_key}
use gomutant.Findings.Graft.{last_at, surviving}
use gomutant.Reconcile.Ceiling.{Durations, WindowScores, RunBounds, merge_scored_facts}
use gomutant.Reconcile.Counts.{
  Disposition, killed, survived, discarded, outcome_disposition, new_survivor, carry_survivor,
  adopt_site,
}
use gomutant.Reconcile.Counts.Sums.{same_disposition}
use gomutant.Reconcile.Splice.{
  Splicing, carry_covered, snoc_some, rerun_rows, rerun, bucket, stepped, splice_from, splicing_of,
  spliced, settle_splice, splice_finding_counts, candidate_key, adjust_last, prior_disposition,
  reconciled,
}

last_at-any {ℓ} : {A : Type ℓ} (p : A → Bool) (xs : List A) → is_some (last_at p xs) ≡ any p xs
unfolding last_at any
last_at-any p [] = refl
last_at-any p (x ∷ xs) = ground (arith, last_at-any p xs)

new_survivor-key :
    (c : Candidate) (execution : Text) (flips : ℕ → Option Text) (mi : ℕ)
    → survivor_key (new_survivor c execution flips mi) ≡ candidate_key c
unfolding new_survivor
new_survivor-key c execution flips mi = elim (Option-cases (flips mi)) [
  | inl e ↦ rw (new_survivor, e) refl
  | inr (killer, e) ↦ rw (new_survivor, e) refl
]

abbrev keys : List Survivor → List SurvivorKey
keys = map survivor_key

keys_snoc :
    (xs : List Survivor) (s : Survivor) → keys (xs ++ s ∷ []) ≡ keys xs ++ survivor_key s ∷ []
keys_snoc xs s = map-append survivor_key xs (s ∷ [])

carry-keys :
    (c : Candidate) (xs : List Survivor) (o : Option Survivor)
    → keys (snoc_some xs (carry_survivor c) o)
      ≡ keys xs ++ (if is_some o then candidate_key c ∷ [] else [])
unfolding snoc_some carry_survivor
carry-keys c xs none = sym (append-nil (keys xs))
carry-keys c xs (some prior) = keys_snoc xs (carry_survivor c prior)

rerun_rows-keys :
    (e : Disposition) (rec : Finding) (unstable : Bool) (scores : WindowScores) (mi : ℕ)
    (c : Candidate) (acc : Splicing)
    → keys (rerun_rows e rec unstable scores mi c acc).survivors
      ≡ keys acc.survivors ++ (if same_disposition e survived then candidate_key c ∷ [] else [])
unfolding rerun_rows
rerun_rows-keys killed rec unstable scores mi c acc = sym (append-nil (keys acc.survivors))
rerun_rows-keys discarded rec unstable scores mi c acc = sym (append-nil (keys acc.survivors))
rerun_rows-keys survived rec unstable scores mi c acc =
    let row = new_survivor c (bucket rec unstable c) scores.flips mi in
    keys_snoc acc.survivors row
    ∙ ap (λ k. keys acc.survivors ++ k ∷ [])
        (new_survivor-key c (bucket rec unstable c) scores.flips mi)

module _ (flagged : ℕ → Bool) (rec : Finding) (scores : WindowScores) where
  -- A candidate survives: by its fresh outcome if it ran again, and as recorded otherwise.
  abbrev survives : ℕ → Candidate → Bool
  survives mi c =
      if flagged mi
      then same_disposition (outcome_disposition (scores.outcomes mi)) survived
      else surviving rec.survivors (candidate_key c)

  -- The keys of the candidates that survive, from the candidate at `mi` on.
  abbrev pub surviving_keys : ℕ → List Candidate → List SurvivorKey
  surviving_keys mi [] = []
  surviving_keys mi (c ∷ cs) =
      if survives mi c
      then candidate_key c ∷ surviving_keys (suc mi) cs
      else surviving_keys (suc mi) cs

  abbrev own_keys : ℕ → Candidate → List SurvivorKey
  own_keys mi c = if survives mi c then candidate_key c ∷ [] else []

  surviving_keys_cons :
      (mi : ℕ) (c : Candidate) (cs : List Candidate)
      → surviving_keys mi (c ∷ cs) ≡ own_keys mi c ++ surviving_keys (suc mi) cs
  surviving_keys_cons mi c cs = ground arith

  carry_covered-keys :
      (mi : ℕ) (c : Candidate) (acc : Splicing)
      → flagged mi ≡ false
      → keys (carry_covered rec c acc).survivors ≡ keys acc.survivors ++ own_keys mi c
  unfolding carry_covered snoc_some
  carry_covered-keys mi c acc f = rw f (
      carry-keys c acc.survivors (last_at (survivor_at (candidate_key c)) rec.survivors)
      ∙ ap (λ b. keys acc.survivors ++ (if b then candidate_key c ∷ [] else []))
          (last_at-any (survivor_at (candidate_key c)) rec.survivors))

  module _ (cancelled : ℕ → Bool) (unstable : Bool) (fresh : List CandidateEvidence) where
    rerun-keys :
        (mi : ℕ) (c : Candidate) (acc acc' : Splicing)
        → flagged mi ≡ true
        → rerun rec unstable scores fresh mi c acc ≡ some acc'
        → keys acc'.survivors ≡ keys acc.survivors ++ own_keys mi c
    unfolding rerun
    rerun-keys mi c acc acc' y h =
        let e = outcome_disposition (scores.outcomes mi) in
        elim (Option-cases (adjust_last c.operator (prior_disposition rec c) e acc.operators)) [
          | inl x ↦ absurd (cc)
          | inr (ts, x) ↦
              let a : Splicing = rerun_rows e rec unstable scores mi c (stepped fresh c acc ts) in
              let made : rerun rec unstable scores fresh mi c acc ≡ some a = rw (rerun, x) refl in
              let same : acc' ≡ a = cc in
              rw y (
                ap (λ (r : Splicing). keys r.survivors) same
                ∙ rerun_rows-keys e rec unstable scores mi c (stepped fresh c acc ts))
        ]

    joined :
        (mi : ℕ) (c : Candidate) (cs : List Candidate) (acc acc₁ acc' : Splicing)
        → keys acc₁.survivors ≡ keys acc.survivors ++ own_keys mi c
        → keys acc'.survivors ≡ keys acc₁.survivors ++ surviving_keys (suc mi) cs
        → keys acc'.survivors ≡ keys acc.survivors ++ surviving_keys mi (c ∷ cs)
    joined mi c cs acc acc₁ acc' p q =
        q
        ∙ ap (λ xs. xs ++ surviving_keys (suc mi) cs) p
        ∙ append_assoc (keys acc.survivors) (own_keys mi c) (surviving_keys (suc mi) cs)
        ∙ ap (λ xs. keys acc.survivors ++ xs) (sym (surviving_keys_cons mi c cs))

    splice_from-keys :
        (mi : ℕ) (cs : List Candidate) (acc acc' : Splicing)
        → splice_from cancelled flagged rec unstable scores fresh mi cs acc ≡ ok acc'
        → keys acc'.survivors ≡ keys acc.survivors ++ surviving_keys mi cs
    unfolding splice_from
    splice_from-keys mi [] acc acc' h =
        let same : acc' ≡ acc = cc in
        ap (λ (a : Splicing). keys a.survivors) same ∙ sym (append-nil (keys acc.survivors))
    splice_from-keys mi (c ∷ cs) acc acc' h = elim (Bool-cases (flagged mi)) [
      | inr f ↦
          joined mi c cs acc (carry_covered rec c acc) acc' (carry_covered-keys mi c acc f)
            (splice_from-keys (suc mi) cs (carry_covered rec c acc) acc' (ground arith))
      | inl y ↦ elim (Option-cases (rerun rec unstable scores fresh mi c acc)) [
        | inl x ↦ absurd (ground arith)
        | inr (acc₁, x) ↦
            joined mi c cs acc acc₁ acc' (rerun-keys mi c acc acc₁ y x)
              (splice_from-keys (suc mi) cs acc₁ acc' (ground arith))
      ]
    ]

adopt_site-key :
    (survivors : List Survivor) (a : Attestation)
    → attestation_key (adopt_site survivors a) ≡ attestation_key a
unfolding adopt_site
adopt_site-key survivors a = elim (Bool-cases (a.site == [])) [
  | inl e ↦ rw (adopt_site, e) refl
  | inr e ↦ rw (adopt_site, e) refl
]

attested-anchored :
    (survivors : List Survivor) (attested : List Attestation)
    → All
        (λ a. surviving survivors (attestation_key a) ≡ true)
        (map
          (adopt_site survivors)
          (filter (λ a. surviving survivors (attestation_key a)) attested))
unfolding filter
attested-anchored survivors [] = tt
attested-anchored survivors (a ∷ attested) =
    elim (Bool-cases (surviving survivors (attestation_key a))) [
      | inl e ↦ rw e (rw (adopt_site-key survivors a) e, attested-anchored survivors attested)
      | inr e ↦ rw e (attested-anchored survivors attested)
    ]

-- The survivors of a spliced finding are the candidates that survive, in their order: a flagged
-- candidate by its fresh outcome, any other if the record names it as a survivor. An attestation
-- stays only at one of them.
pub splice_finding_counts-survivors :
    (durations : Durations) (clause : Text → Text) (exemptions : List Exemption)
    (cancelled : ℕ → Bool) (rec : Finding) (candidates : List Candidate) (flagged : ℕ → Bool)
    (scores : WindowScores) (fresh : List CandidateEvidence) (run : RunBounds) (f : Finding)
    → splice_finding_counts durations clause exemptions cancelled rec candidates flagged scores
        fresh run
      ≡ ok f
    → (map survivor_key f.survivors ≡ surviving_keys flagged rec scores 0 candidates)
      × All (λ a. surviving f.survivors (attestation_key a) ≡ true) f.attested
unfolding splice_finding_counts settle_splice spliced merge_scored_facts
splice_finding_counts-survivors durations clause exemptions cancelled recorded candidates flagged
      scores fresh run f h =
    let rec = merge_scored_facts durations recorded scores run in
    let unstable = unstable_for_buckets clause exemptions rec in
    elim (Result-cases
      (splice_from cancelled flagged rec unstable scores fresh 0 candidates (splicing_of rec))) [
        | inl (e, x) ↦ absurd (cc)
        | inr (acc, x) ↦ elim (Result-cases (reconciled acc.operators)) [
          | inl (e, z) ↦
              let made : splice_finding_counts durations clause exemptions cancelled recorded
                    candidates flagged scores fresh run
                  ≡ err e =
                rw (splice_finding_counts, x, settle_splice, z) refl in
              absurd (cc)
          | inr (ss, z) ↦
              let made : splice_finding_counts durations clause exemptions cancelled recorded
                    candidates flagged scores fresh run
                  ≡ ok (spliced rec ss acc) =
                rw (splice_finding_counts, x, settle_splice, z) refl in
              let same : f ≡ spliced rec ss acc = cc in
              rw same (
                splice_from-keys flagged rec scores cancelled unstable fresh 0 candidates
                    (splicing_of rec) acc x,
                attested-anchored acc.survivors recorded.attested,
              )
        ]
      ]
