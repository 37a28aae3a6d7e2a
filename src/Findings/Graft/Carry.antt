-- ===== src/Findings/Graft/Carry.antt =====
-- reconcile.go `carryAnchoredAttestations` and `carryAnchoredWithdrawn`, findings.go
-- `DedupeAttestationSheds`: the carry of dispositions within a run.
use gomutant.Prelude.{
  ◌≡◌, refl, Bool, false, not, ◌||◌, ◌&&◌, ◌+◌, length, List, [], ◌∷◌, ◌++◌, text_eq, ◌==◌,
  if◌then◌else◌, any, arith, Bool-cases, inl, inr, All,
}
use gomutant.Record.{Survivor, SurvivorKey, key_eq, Attestation, WithdrawnAttestation}
use gomutant.Findings.Disposition.{attestation_key, attested_at}
use gomutant.Findings.Graft.{
  AttestationShed, surviving, site_of, site_moved, shed_of, moved_site_reason, append_withdrawn,
}
use gomutant.Findings.Graft.Prior.{Anchored, shed_at}

pub record Carried : Type 0 where
  pub kept : List Attestation
  pub site_sheds : List AttestationShed
  pub gone : List Attestation

unfoldable pub carry_anchored_attestations : List Attestation → List Survivor → Carried
unfolding site_of
carry_anchored_attestations [] survivors = record { kept = []; site_sheds = []; gone = [] }
carry_anchored_attestations (a ∷ prior) survivors =
    let rest = carry_anchored_attestations prior survivors in
    let site = site_of survivors (attestation_key a) in
    if not (surviving survivors (attestation_key a))
    then record rest { gone = a ∷ rest.gone }
    else if site_moved a.site site
    then record rest { site_sheds = shed_of a moved_site_reason ∷ rest.site_sheds }
    else record rest { kept = record a { site = site } ∷ rest.kept }

-- The loop is that of `appendWithdrawn`, over the prior list alone.
unfoldable pub carry_anchored_withdrawn :
    List WithdrawnAttestation → List Attestation → List Survivor → List WithdrawnAttestation
unfolding append_withdrawn
carry_anchored_withdrawn prior attested survivors = append_withdrawn survivors attested prior []

-- `mutantKey` names the symbol, the position and the operator.
abbrev same_mutant : AttestationShed → AttestationShed → Bool
same_mutant a b = (a.symbol == b.symbol) && (a.position == b.position) && (a.operator == b.operator)

-- The loop of `DedupeAttestationSheds`; `seen` is the membership of the list so far.
unfoldable dedupe_from : List AttestationShed → List AttestationShed → List AttestationShed
dedupe_from [] out = out
dedupe_from (d ∷ ds) out = dedupe_from ds (if any (same_mutant d) out then out else out ++ d ∷ [])

unfoldable dedupe_attestation_sheds : List AttestationShed → List AttestationShed
unfolding dedupe_from
dedupe_attestation_sheds sheds = dedupe_from sheds []

-- Every prior attestation is kept, shed for its moved site, or gone with its survivor, and in that
-- part only; what is kept stands at a reported survivor with its site, and what is gone at none.
pub carry_anchored_attestations-partitions :
    (prior : List Attestation) (survivors : List Survivor) (k : SurvivorKey)
    → let c = carry_anchored_attestations prior survivors in
      All (Anchored survivors) c.kept
      × All (λ a. surviving survivors (attestation_key a) ≡ false) c.gone
      × (any (attested_at k) prior ≡ (
          any (attested_at k) c.kept || any (shed_at k) c.site_sheds || any (attested_at k) c.gone))
      × (length c.kept + length c.site_sheds + length c.gone ≡ length prior)
unfolding carry_anchored_attestations any
carry_anchored_attestations-partitions [] survivors k = (tt, tt, refl, omega arith)
carry_anchored_attestations-partitions (a ∷ prior) survivors k =
    let (h, g, e, n) = carry_anchored_attestations-partitions prior survivors k in
    elim (Bool-cases (surviving survivors (attestation_key a))) [
      | inr s ↦ rw (carry_anchored_attestations, s) (h, (s, g), ground arith, omega (arith, n))
      | inl s ↦ elim (Bool-cases (site_moved a.site (site_of survivors (attestation_key a)))) [
        | inl m ↦ rw (carry_anchored_attestations, s, m) (h, g, ground arith, omega (arith, n))
        | inr m ↦
            rw (carry_anchored_attestations, s, m)
              (((s, refl), h), g, ground arith, omega (arith, n))
      ]
    ]
