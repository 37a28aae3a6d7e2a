-- ===== src/Findings/Graft/Laws.antt =====
-- findings.go `graftDispositionsAgainst`: what the graft of dispositions promises.
use gomutant.Prelude.{
  ◌≡◌, ◌⊎◌, refl, true, false, ◌||◌, none, some, List, [], ◌∷◌, ◌++◌, text_eq, eq_iff, any, arith,
  All, All-append,
}
use gomutant.Record.{Survivor, SurvivorKey, key_eq, Attestation, WithdrawnAttestation}
use gomutant.Findings.Keys.{DistinctBy, DistinctBy-snoc}
use gomutant.Findings.Disposition.{attestation_key, withdrawn_key, attested_at, withdrawn_at}
use gomutant.Findings.Graft.{
  surviving, site_of, Snapshot, held_in, graft_fresh, fate, grafts, judged_before, site_moved,
  Grafted, graft_dispositions_against,
}
use gomutant.Findings.Graft.Prior.{
  Anchored, shed_at, graft_prior_rule, graft_prior-reports, graft_prior-new, graft_prior-grafts,
}
use gomutant.Findings.Graft.Fresh.{
  graft_fresh_sound, graft_fresh-withdrawn, Rests, append_withdrawn_sound,
}

module _ (prior fresh : List Attestation)
    (prior_withdrawn fresh_withdrawn : List WithdrawnAttestation) (survivors : List Survivor)
    (snapshot : Snapshot) where
  abbrev graft : Grafted
  graft = graft_dispositions_against prior fresh prior_withdrawn fresh_withdrawn survivors snapshot

  -- If the fresh dispositions stand at reported survivors with their sites, no key twice, so do the
  -- attested ones of the graft; its withdrawn ones stand at reported survivors with their sites
  -- too, no key twice and none that is attested.
  pub graft-Consistent :
      All (Anchored survivors) fresh
      → DistinctBy attestation_key fresh
      → All (Anchored survivors) graft.attested
        × DistinctBy attestation_key graft.attested
        × All (Rests survivors graft.attested) graft.withdrawn
        × DistinctBy withdrawn_key graft.withdrawn
  unfolding graft_dispositions_against
  graft-Consistent h d =
      let (anchored, distinct) =
        graft_fresh_sound prior prior_withdrawn survivors snapshot fresh h d in
      let start = graft_fresh prior prior_withdrawn survivors snapshot fresh in
      let (rests, once) =
        append_withdrawn_sound survivors graft.attested (prior_withdrawn ++ fresh_withdrawn) [] tt
          tt in
      (
        graft_prior_rule survivors snapshot (All (Anchored survivors))
            (λ out b p _ a. All-append (Anchored survivors) out (b ∷ []) p (a, tt)) prior start
            anchored,
        graft_prior_rule survivors snapshot (DistinctBy attestation_key)
            (λ out b p free _. DistinctBy-snoc attestation_key out b p free) prior start distinct,
        rests,
        once,
      )

  -- A disposition of the prior record never disappears silently: its key is attested by the graft,
  -- or a shed names it.
  pub graft-reports :
      (k : SurvivorKey)
      → any (attested_at k) prior ≡ true
      → (any (attested_at k) graft.attested || any (shed_at k) graft.shed) ≡ true
  unfolding graft_dispositions_against
  graft-reports k h =
      graft_prior-reports survivors snapshot k prior
        (graft_fresh prior prior_withdrawn survivors snapshot fresh) h

  -- A disposition that the run carried from its snapshot, its reason unchanged, and that the live
  -- document has withdrawn since, is not attested by the graft.
  pub graft-withdrawn_stands :
      (k : SurvivorKey) (held : Attestation)
      → held_in snapshot k ≡ some held
      → any (attested_at k) prior ≡ false
      → any (withdrawn_at k) prior_withdrawn ≡ true
      → All (λ a. attestation_key a ≡ k → a.reason ≡ held.reason) fresh
      → All (Anchored survivors) fresh
      → any (attested_at k) graft.attested ≡ false
  unfolding graft_dispositions_against
  graft-withdrawn_stands k held hs np gw same h =
      graft_prior-new survivors snapshot k prior
        (graft_fresh prior prior_withdrawn survivors snapshot fresh) np
        (graft_fresh-withdrawn prior prior_withdrawn survivors snapshot k held hs np gw fresh same
          h)

fate-concurrent :
    (survivors : List Survivor) (snapshot : Snapshot) (a : Attestation)
    → surviving survivors (attestation_key a) ≡ true
    → (a.site ≡ []) ⊎ (a.site ≡ site_of survivors (attestation_key a))
    → held_in snapshot (attestation_key a) ≡ none
    → fate survivors snapshot a ≡ grafts (record a { site = site_of survivors (attestation_key a) })
unfolding fate judged_before
fate-concurrent survivors snapshot a s t h =
    let m : site_moved a.site (site_of survivors (attestation_key a)) ≡ false =
      ground (arith, eq_iff a.site [], eq_iff a.site (site_of survivors (attestation_key a))) in
    let j : judged_before snapshot a ≡ false = rw (judged_before, h) refl in rw (fate, s, m, j) refl

-- A disposition of the live document that the run-start snapshot lacks, whose survivor is still
-- reported at its site (or that has no site), is attested by the graft.
pub graft-concurrent_stands :
    (before after fresh : List Attestation)
    (prior_withdrawn fresh_withdrawn : List WithdrawnAttestation) (survivors : List Survivor)
    (snapshot : Snapshot) (a : Attestation)
    → surviving survivors (attestation_key a) ≡ true
    → (a.site ≡ []) ⊎ (a.site ≡ site_of survivors (attestation_key a))
    → held_in snapshot (attestation_key a) ≡ none
    → any
        (attested_at (attestation_key a))
        (graft_dispositions_against
          (before ++ a ∷ after)
          fresh
          prior_withdrawn
          fresh_withdrawn
          survivors
          snapshot).attested
      ≡ true
unfolding graft_dispositions_against
graft-concurrent_stands before after fresh pw fw survivors snapshot a s t h =
    graft_prior-grafts survivors snapshot a
      (record a { site = site_of survivors (attestation_key a) })
      (fate-concurrent survivors snapshot a s t h) before after
      (graft_fresh (before ++ a ∷ after) pw survivors snapshot fresh)
