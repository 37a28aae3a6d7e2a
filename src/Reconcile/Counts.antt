-- ===== src/Reconcile/Counts.antt =====
-- reconcile.go `applyDisposition`, `sumOperatorTotals`, `summarizeOperators` and
-- `extendFindingCounts`, execute.go `carrySurvivor` and `newSurvivor`: the candidate accounting of
-- a finding.
pub mod Sums
pub mod Rows
pub mod Extend
use gomutant.Prelude.{
  ◌&&◌, ℕ, zero, suc, ◌+◌, Bool, true, false, not, Option, none, some, List, [], ◌∷◌, ◌++◌, Text,
  text_eq, codes, ◌==◌, nat_eq, if◌then◌else◌, length, drop, text_lt, any, map,
}
use gomutant.Prelude.Sort.{sort}
use gomutant.Record.{
  Finding, Survivor, Kill, OperatorSummary, CandidateEvidence, Candidate, Attestation, Exemption,
}
use gomutant.Exemptions.{unstable_for_buckets}
use gomutant.Findings.Disposition.{attestation_key}
use gomutant.Findings.Graft.{site_of}
use gomutant.Findings.Graft.Carry.{carry_anchored_withdrawn}
use gomutant.Reconcile.Ceiling.{Durations, WindowScores, RunBounds, merge_scored_facts}
use gomutant.Schedule.Gate.{MutantOutcome, mutant_discarded, mutant_killed, mutant_survived}

-- The three words of `outcomeDisposition`.
pub data Disposition : Type 0 where
  killed survived discarded : Disposition

unfoldable pub outcome_disposition : MutantOutcome → Disposition
outcome_disposition mutant_killed = killed
outcome_disposition mutant_survived = survived
outcome_disposition mutant_discarded = discarded

-- `applyDisposition` with the delta 1.
unfoldable pub apply_disposition : Disposition → OperatorSummary → OperatorSummary
apply_disposition killed s = record s { killed = s.killed + 1 }
apply_disposition survived s = record s { survived = s.survived + 1 }
apply_disposition discarded s = record s { discarded = s.discarded + 1 }

-- One more candidate of an operator.
unfoldable pub score : Disposition → OperatorSummary → OperatorSummary
unfolding apply_disposition
score d s = apply_disposition d (record s { generated = s.generated + 1 })

abbrev pub empty_summary : Text → OperatorSummary
empty_summary operator = record {
  operator = operator;
  generated = 0;
  discarded = 0;
  killed = 0;
  survived = 0;
}

-- The summary that the map `byOperator` names: the last one of the operator.
unfoldable pub score_last :
    Text → Disposition → List OperatorSummary → Option (List OperatorSummary)
score_last operator d [] = none
score_last operator d (s ∷ ss) = elim (score_last operator d ss) [
  | some ss' ↦ some (s ∷ ss')
  | none ↦ if s.operator == operator then some (score d s ∷ ss) else none
]

-- A candidate's outcome joins its operator's summary, which is made at the first use.
unfoldable pub score_operator : Text → Disposition → List OperatorSummary → List OperatorSummary
unfolding score_last score
score_operator operator d ss = elim (score_last operator d ss) [
  | some ss' ↦ ss'
  | none ↦ ss ++ score d (empty_summary operator) ∷ []
]

abbrev pub by_operator : OperatorSummary → OperatorSummary → Bool
by_operator a b = text_lt a.operator b.operator

unfoldable pub sum_by {ℓ} : {A : Type ℓ} → (A → ℕ) → List A → ℕ
sum_by f [] = 0
sum_by f (x ∷ xs) = f x + sum_by f xs

-- Killed, discarded and survived, over all the operators.
unfoldable pub sum_operator_totals : List OperatorSummary → ℕ × ℕ × ℕ
unfolding sum_by
sum_operator_totals ss =
    (sum_by (λ s. s.killed) ss, sum_by (λ s. s.discarded) ss, sum_by (λ s. s.survived) ss)

-- The loop of `summarizeOperators`, from the candidate at `mi` on.
unfoldable pub summarize_from :
    (ℕ → MutantOutcome) → ℕ → List Candidate → List OperatorSummary → List OperatorSummary
unfolding score_operator outcome_disposition
summarize_from outcomes mi [] ss = ss
summarize_from outcomes mi (c ∷ cs) ss =
    summarize_from outcomes (suc mi) cs
      (score_operator c.operator (outcome_disposition (outcomes mi)) ss)

unfoldable pub summarize_operators : List Candidate → (ℕ → MutantOutcome) → List OperatorSummary
unfolding summarize_from
summarize_operators candidates outcomes = sort by_operator (summarize_from outcomes 0 candidates [])

-- The survivor rows: of a candidate that did not execute, and of one that did.
unfoldable pub carry_survivor : Candidate → Survivor → Survivor
carry_survivor c prior = record {
  position = c.position;
  operator = c.operator;
  extent = c.extent;
  site = c.site;
  execution = prior.execution;
  withdrawn_killer = prior.withdrawn_killer;
  other_selection = prior.other_selection;
}

abbrev survivor_row : Candidate → Text → Text → Survivor
survivor_row c execution killer = record {
  position = c.position;
  operator = c.operator;
  extent = c.extent;
  site = c.site;
  execution = execution;
  withdrawn_killer = killer;
  other_selection = [];
}

-- `flips` names the killer of a kill that serial confirmation withdrew.
unfoldable pub new_survivor : Candidate → Text → (ℕ → Option Text) → ℕ → Survivor
new_survivor c execution flips mi = elim (flips mi) [
  | none ↦ survivor_row c execution []
  | some withdrawn ↦ survivor_row c (codes "flipped-kill") withdrawn
]

-- The variables of the loop of `extendFindingCounts`.
pub record Accounts : Type 0 where
  pub operators : List OperatorSummary
  pub survivors : List Survivor
  pub kills : List Kill

-- The `switch` on the disposition.
unfoldable pub record_outcome :
    Disposition → WindowScores → Text → Bool → ℕ → Candidate → Accounts → Accounts
unfolding new_survivor
record_outcome survived scores execution complete mi c acc = record acc {
  survivors = acc.survivors ++ new_survivor c execution scores.flips mi ∷ [];
}
record_outcome killed scores execution complete mi c acc = record acc {
  kills =
      if complete
      then acc.kills
        ++ record { position = c.position; operator = c.operator; killer = scores.killers mi } ∷ []
      else acc.kills;
}
record_outcome discarded scores execution complete mi c acc = acc

unfoldable pub extend_one : WindowScores → Text → Bool → ℕ → Candidate → Accounts → Accounts
unfolding score_operator outcome_disposition record_outcome
extend_one scores execution complete mi c acc =
    let d = outcome_disposition (scores.outcomes mi) in
    record_outcome d scores execution complete mi c
      (record acc { operators = score_operator c.operator d acc.operators })

-- `cancelled mi` is a context error at the candidate `mi`, which ends the loop.
unfoldable pub extend_from :
    (ℕ → Bool) → WindowScores → Text → Bool → ℕ → List Candidate → Accounts → Option Accounts
unfolding extend_one
extend_from cancelled scores execution kills_complete mi [] acc = some acc
extend_from cancelled scores execution kills_complete mi (c ∷ cs) acc =
    if cancelled mi
    then none
    else extend_from cancelled scores execution kills_complete (suc mi) cs
        (extend_one scores execution kills_complete mi c acc)

-- A disposition without a site adopts that of its survivor, where there is one.
unfoldable pub adopt_site : List Survivor → Attestation → Attestation
unfolding site_of
adopt_site survivors a =
    if a.site == [] then record a { site = site_of survivors (attestation_key a) } else a

-- The end of `extendFindingCounts`.
unfoldable pub extended : Finding → ℕ → List CandidateEvidence → ℕ → Bool → Accounts → Finding
unfolding sum_operator_totals carry_anchored_withdrawn adopt_site
extended rec generated fresh_evidence budget kills_complete acc =
    let (k, d, s) = sum_operator_totals (sort by_operator acc.operators) in
    let attested = map (adopt_site acc.survivors) rec.attested in
    record rec {
      operators = sort by_operator acc.operators;
      killed = k;
      discarded = d;
      mutants = k + s;
      kills = if kills_complete then acc.kills else [];
      survivors = acc.survivors;
      candidate_evidence = fresh_evidence;
      budget = budget;
      generated = generated;
      attested = attested;
      withdrawn = carry_anchored_withdrawn rec.withdrawn attested acc.survivors;
    }

abbrev pub kills_complete : Finding → Bool
kills_complete rec = length rec.kills == rec.killed

abbrev pub suffix_execution : Bool → Text
suffix_execution unstable = if unstable then codes "unstable-oracle" else []

abbrev pub accounts_of : Finding → Accounts
accounts_of rec = record { operators = rec.operators; survivors = rec.survivors; kills = rec.kills }

module _ (durations : Durations) (clause : Text → Text) (exemptions : List Exemption) where
  unfoldable pub extend_finding_counts :
      (ℕ → Bool)
      → Finding
      → List Candidate
      → ℕ
      → WindowScores
      → List CandidateEvidence
      → ℕ
      → RunBounds
      → Option Finding
  unfolding merge_scored_facts extend_from extended unstable_for_buckets
  extend_finding_counts cancelled recorded candidates from scores fresh_evidence budget run =
      let rec = merge_scored_facts durations recorded scores run in
      let unstable = unstable_for_buckets clause exemptions rec in
      elim (extend_from cancelled scores (suffix_execution unstable) (kills_complete rec) from
        (drop from candidates) (accounts_of rec)) [
          | none ↦ none
          | some acc ↦
              some (extended rec (length candidates) fresh_evidence budget (kills_complete rec) acc)
        ]
