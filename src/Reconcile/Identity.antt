-- ===== src/Reconcile/Identity.antt =====
-- reconcile.go `candidateIdentityIndex`, `reidentify`, `flaggedCandidateIndexes` and
-- `extendedPrefixStands`: whether recorded per-candidate state names candidates of a regenerated
-- enumeration. `none` is the second result `false`.
pub mod Laws
pub mod Prefix
pub mod Unique
use gomutant.Prelude.{
  ℕ, zero, suc, ◌+◌, Bool, true, false, not, ◌&&◌, ◌||◌, Option, none, some, List, [], ◌∷◌, Text,
  text_eq, ◌==◌, nat_eq, ltb, leb, if◌then◌else◌, is_some, length, get_elem?, take,
}
use gomutant.Prelude.Map.{Map, get, put}
use gomutant.Record.{
  Finding, Survivor, SurvivorKey, key_eq, OperatorSummary, CandidateEvidence, Candidate, mutant,
  Generation,
}
use gomutant.Findings.Disposition.{survivor_key}

abbrev pub candidate_key : Candidate → SurvivorKey
candidate_key c = record { position = c.position; operator = c.operator }

abbrev pub evidence_key : CandidateEvidence → SurvivorKey
evidence_key e = record { position = e.position; operator = e.operator }

-- The loop, from the candidate at `i` on: a duplicate refuses.
unfoldable pub index_from : ℕ → List Candidate → Map SurvivorKey ℕ → Option (Map SurvivorKey ℕ)
unfolding get put
index_from i [] m = some m
index_from i (c ∷ cs) m =
    if is_some (get (candidate_key c) m)
    then none
    else index_from (suc i) cs (put (candidate_key c) i m)

unfoldable pub candidate_identity_index : List Candidate → Option (Map SurvivorKey ℕ)
unfolding index_from
candidate_identity_index candidates = index_from 0 candidates []

unfoldable pub reidentify : Generation → Finding → Option (Map SurvivorKey ℕ)
unfolding candidate_identity_index
reidentify g rec =
    if not (g.candidate_count == rec.candidate_count) || not (length g.candidates == rec.generated)
    then none
    else candidate_identity_index g.candidates

-- Whether every recorded survivor has an index.
unfoldable pub survivors_known : Map SurvivorKey ℕ → List Survivor → Bool
unfolding get
survivors_known by_identity [] = true
survivors_known by_identity (s ∷ ss) =
    let rest = survivors_known by_identity ss in is_some (get (survivor_key s) by_identity) && rest

abbrev pub runnable_at : List Candidate → ℕ → Bool
runnable_at candidates i = elim (get_elem? candidates i) [
  | none ↦ false
  | some c ↦ is_some (mutant c)
]

-- The keys of the map `flagged`, in the order of the recorded evidence.
unfoldable pub flag : List Candidate → Map SurvivorKey ℕ → List CandidateEvidence → Option (List ℕ)
unfolding get mutant
flag candidates by_identity [] = some []
flag candidates by_identity (e ∷ es) =
    let rest = flag candidates by_identity es in
    elim (get (evidence_key e) by_identity) [
      | none ↦ none
      | some i ↦
          if runnable_at candidates i
          then elim rest [ none ↦ none | some is ↦ some (i ∷ is) ]
          else none
    ]

unfoldable pub flagged_candidate_indexes : Generation → Finding → Option (List ℕ)
unfolding reidentify survivors_known flag
flagged_candidate_indexes g rec = elim (reidentify g rec) [
  | none ↦ none
  | some by_identity ↦
      if survivors_known by_identity rec.survivors
      then flag g.candidates by_identity rec.candidate_evidence
      else none
]

-- `prefixOperators`, the candidates of the prefix counted by operator.
unfoldable pub count_operators : List Candidate → Map Text ℕ → Map Text ℕ
unfolding get put
count_operators [] m = m
count_operators (c ∷ cs) m =
    count_operators cs (put c.operator (elim (get c.operator m) [ none ↦ 1 | some n ↦ n + 1 ]) m)

unfoldable pub operators_match : Map Text ℕ → List OperatorSummary → Bool
unfolding get
operators_match m [] = true
operators_match m (s ∷ ss) =
    let rest = operators_match m ss in
    let count : ℕ = elim (get s.operator m) [ none ↦ 0 | some n ↦ n ] in
    (count == s.generated) && rest

unfoldable pub survivors_in_prefix : Map SurvivorKey ℕ → ℕ → List Survivor → Bool
unfolding get
survivors_in_prefix by_identity n [] = true
survivors_in_prefix by_identity n (s ∷ ss) =
    let rest = survivors_in_prefix by_identity n ss in
    elim (get (survivor_key s) by_identity) [ none ↦ false | some i ↦ ltb i n && rest ]

unfoldable pub extended_prefix_stands : Generation → Finding → Bool
unfolding candidate_identity_index count_operators operators_match survivors_in_prefix
extended_prefix_stands g rec =
    if not (g.candidate_count == rec.candidate_count) || leb (length g.candidates) rec.generated
    then false
    else elim (candidate_identity_index g.candidates) [
      | none ↦ false
      | some by_identity ↦
          let prefix = count_operators (take rec.generated g.candidates) [] in
          (length prefix == length rec.operators)
          && operators_match prefix rec.operators
          && survivors_in_prefix by_identity rec.generated rec.survivors
    ]
