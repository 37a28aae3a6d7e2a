-- ===== src/Reconcile/Identity/Prefix.antt =====
-- reconcile.go `extendedPrefixStands`: what a budget extension may build on.
use gomutant.Prelude.{
  ℕ, ◌<◌, ◌≡◌, true, some, List, [], ◌∷◌, text_eq, nat_eq, eq_iff, length, arith, Option-cases, inl,
  inr, All,
}
use gomutant.Prelude.Map.{Map, get}
use gomutant.Record.{Finding, Survivor, SurvivorKey, key_eq, Generation, Candidate}
use gomutant.Findings.Disposition.{survivor_key}
use gomutant.Reconcile.Identity.{
  candidate_identity_index, survivors_in_prefix, extended_prefix_stands,
}
use gomutant.Reconcile.Identity.Laws.{Names, candidate_identity_index-exact}

-- A candidate of the first `n` has the identity.
abbrev pub InPrefix : List Candidate → ℕ → SurvivorKey → Type 0
InPrefix candidates n k = (i : ℕ) × (i < n) × Names candidates i k

survivors_in_prefix-All :
    (candidates : List Candidate) (m : Map SurvivorKey ℕ)
    → candidate_identity_index candidates ≡ some m
    → (n : ℕ) (ss : List Survivor) → survivors_in_prefix m n ss ≡ true
    → All (λ s. InPrefix candidates n (survivor_key s)) ss
unfolding survivors_in_prefix
survivors_in_prefix-All candidates m e n [] h = tt
survivors_in_prefix-All candidates m e n (s ∷ ss) h = elim (Option-cases (get (survivor_key s) m)) [
  | inl x ↦ absurd (ground arith)
  | inr (i, g) ↦ (
    (i, ground arith, (candidate_identity_index-exact candidates m e (survivor_key s) i).0 g),
    survivors_in_prefix-All candidates m e n ss (ground arith),
  )
]

-- A record whose prefix stands in a wider enumeration has its complete candidate count and fewer
-- selected candidates, and each of its survivors is a candidate of the prefix.
pub extended_prefix_stands-InPrefix :
    (g : Generation) (rec : Finding)
    → extended_prefix_stands g rec ≡ true
    → (g.candidate_count ≡ rec.candidate_count)
      × (rec.generated < length g.candidates)
      × All (λ s. InPrefix g.candidates rec.generated (survivor_key s)) rec.survivors
unfolding extended_prefix_stands
extended_prefix_stands-InPrefix g rec h =
    elim (Option-cases (candidate_identity_index g.candidates)) [
      | inl n ↦ absurd (ground arith)
      | inr (m, e) ↦ (
        ground (arith, eq_iff g.candidate_count rec.candidate_count),
        ground arith,
        survivors_in_prefix-All g.candidates m e rec.generated rec.survivors (ground arith),
      )
    ]
