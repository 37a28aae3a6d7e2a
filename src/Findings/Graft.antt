-- ===== src/Findings/Graft.antt =====
-- findings.go `graftDispositionsAgainst` and `DedupeAttestationSheds`, and reconcile.go
-- `carryAnchoredAttestations` and `carryAnchoredWithdrawn`: how dispositions ride from a record to
-- the one that replaces it. The maps that the loops fill from a list are looked up as `last_at`
-- (the last entry of a key wins).
pub mod Prior
pub mod Fresh
pub mod Laws
pub mod Carry
use gomutant.Prelude.{
  ◌≡◌, Bool, true, false, not, ◌&&◌, ◌||◌, Option, none, some, List, [], ◌∷◌, ◌++◌, Text, text_eq,
  codes, ◌==◌, if◌then◌else◌, is_some, any, filter,
}
use gomutant.Record.{Survivor, SurvivorKey, key_eq, Attestation, WithdrawnAttestation}
use gomutant.Findings.Disposition.{
  survivor_key, attestation_key, withdrawn_key, survivor_at, attested_at, withdrawn_at,
}

pub record AttestationShed : Type 0 where
  pub symbol : Text
  pub position : Text
  pub operator : Text
  pub reason : Text

-- The entry that a loop `m[key(x)] = x` leaves at a key.
unfoldable pub last_at {ℓ} : {A : Type ℓ} → (A → Bool) → List A → Option A
last_at p [] = none
last_at p (x ∷ xs) = elim (last_at p xs) [ some y ↦ some y | none ↦ if p x then some x else none ]

abbrev pub surviving : List Survivor → SurvivorKey → Bool
surviving survivors k = any (survivor_at k) survivors

-- `siteOf[key]`, empty where the key is missing.
unfoldable pub site_of : List Survivor → SurvivorKey → Text
unfolding last_at
site_of survivors k = elim (last_at (survivor_at k) survivors) [ none ↦ [] | some s ↦ s.site ]

abbrev pub gone_reason : Text
gone_reason =
    codes "the attested survivor is no longer reported - the disposition sheds with its mutant"

abbrev pub moved_site_reason : Text
moved_site_reason =
    codes "site content changed under the position - the surviving mutant is not the attested one"

abbrev pub moved_domain_reason : Text
moved_domain_reason =
    codes "the mutation domain moved or cannot be shown held - the equivalence is judged afresh"

abbrev pub shed_of : Attestation → Text → AttestationShed
shed_of a reason = record {
  symbol = [];
  position = a.position;
  operator = a.operator;
  reason = reason;
}

-- `a.Site != "" && a.Site != siteOf[key]`.
abbrev pub site_moved : Text → Text → Bool
site_moved recorded current = not (recorded == []) && not (recorded == current)

-- `snapAtt == attestation`, on every field.
abbrev same_attestation : Attestation → Attestation → Bool
same_attestation a b =
    (a.position == b.position)
    && (a.operator == b.operator)
    && (a.reason == b.reason)
    && (a.site == b.site)

-- The run-start snapshot of one record, `none` where the caller has none (`snapped` is false).
abbrev pub Snapshot : Type 0
Snapshot = Option (List Attestation)

abbrev pub held_in : Snapshot → SurvivorKey → Option Attestation
held_in none k = none
held_in (some snap) k = last_at (attested_at k) snap

-- The re-attestation that the live document made of a carried disposition.
unfoldable pub adopt : List Attestation → List Survivor → Attestation → Attestation
unfolding last_at
adopt prior survivors a = elim (last_at (attested_at (attestation_key a)) prior) [
  | none ↦ a
  | some p ↦
      if not (p.reason == a.reason)
        && ((p.site == []) || (p.site == site_of survivors (attestation_key a)))
      then record a { reason = p.reason; site = site_of survivors (attestation_key a) }
      else a
]

-- One round of the loop over the fresh dispositions: `none` is the `continue` on a disposition
-- that the live document withdrew.
unfoldable pub keep_fresh :
    List Attestation
    → List WithdrawnAttestation
    → List Survivor
    → Snapshot
    → Attestation
    → Option Attestation
unfolding adopt
keep_fresh prior prior_withdrawn survivors snapshot a =
    let k = attestation_key a in
    elim (held_in snapshot k) [
      | none ↦ some a
      | some held ↦
          if held.reason == a.reason
          then (if not (any (attested_at k) prior) && any (withdrawn_at k) prior_withdrawn
              then none
              else some (adopt prior survivors a))
          else some a
    ]

unfoldable pub graft_fresh :
    List Attestation
    → List WithdrawnAttestation
    → List Survivor
    → Snapshot
    → List Attestation
    → List Attestation
unfolding keep_fresh
graft_fresh prior prior_withdrawn survivors snapshot [] = []
graft_fresh prior prior_withdrawn survivors snapshot (a ∷ fresh) =
    let rest = graft_fresh prior prior_withdrawn survivors snapshot fresh in
    elim (keep_fresh prior prior_withdrawn survivors snapshot a) [ none ↦ rest | some b ↦ b ∷ rest ]

-- `held && snapAtt == attestation`.
unfoldable pub judged_before : Snapshot → Attestation → Bool
unfolding last_at
judged_before snapshot a = elim (held_in snapshot (attestation_key a)) [
  | none ↦ false
  | some held ↦ same_attestation held a
]

-- The fate of a prior disposition that the fresh record does not carry.
pub data Fate : Type 0 where
  grafts : Attestation → Fate
  sheds : AttestationShed → Fate

unfoldable pub fate : List Survivor → Snapshot → Attestation → Fate
unfolding site_of judged_before
fate survivors snapshot a =
    let k = attestation_key a in
    if not (surviving survivors k)
    then sheds (shed_of a gone_reason)
    else if site_moved a.site (site_of survivors k)
    then sheds (shed_of a moved_site_reason)
    else if judged_before snapshot a
    then sheds (shed_of a moved_domain_reason)
    else grafts (record a { site = site_of survivors k })

-- The loop over the prior dispositions; `attested` is the membership of `out`, whose keys it has.
unfoldable pub graft_prior :
    List Survivor
    → Snapshot
    → List Attestation
    → List Attestation
    → List Attestation × List AttestationShed
unfolding fate
graft_prior survivors snapshot [] out = (out, [])
graft_prior survivors snapshot (a ∷ prior) out = elim (any (attested_at (attestation_key a)) out) [
  | true ↦ graft_prior survivors snapshot prior out
  | false ↦ elim (fate survivors snapshot a) [
    | grafts b ↦ graft_prior survivors snapshot prior (out ++ b ∷ [])
    | sheds d ↦ let (out', shed) = graft_prior survivors snapshot prior out in (out', d ∷ shed)
  ]
]

-- The calls of `appendWithdrawn`; `withdrawnSeen` is the membership of the list so far.
unfoldable pub append_withdrawn :
    List Survivor
    → List Attestation
    → List WithdrawnAttestation
    → List WithdrawnAttestation
    → List WithdrawnAttestation
unfolding site_of
append_withdrawn survivors attested [] out = out
append_withdrawn survivors attested (w ∷ ws) out =
    let k = withdrawn_key w in
    let site = site_of survivors k in
    append_withdrawn survivors attested ws (
      if any (attested_at k) attested
        || any (withdrawn_at k) out
        || not (surviving survivors k)
        || site_moved w.site site
      then out
      else out ++ record w { site = site } ∷ [])

pub record Grafted : Type 0 where
  pub attested : List Attestation
  pub withdrawn : List WithdrawnAttestation
  pub shed : List AttestationShed

unfoldable pub graft_dispositions_against :
    List Attestation
    → List Attestation
    → List WithdrawnAttestation
    → List WithdrawnAttestation
    → List Survivor
    → Snapshot
    → Grafted
unfolding graft_fresh graft_prior append_withdrawn
graft_dispositions_against prior fresh prior_withdrawn fresh_withdrawn survivors snapshot =
    let (attested, shed) =
      graft_prior survivors snapshot prior
        (graft_fresh prior prior_withdrawn survivors snapshot fresh) in
    record {
      attested = attested;
      withdrawn = append_withdrawn survivors attested (prior_withdrawn ++ fresh_withdrawn) [];
      shed = shed;
    }
