-- ===== src/Reconcile/Splice.antt =====
-- reconcile.go `spliceFindingCounts`: a served record whose flagged candidates ran again. The
-- summaries are counted down and up again, on signed numbers.
pub mod Tallies
pub mod Loop
pub mod Laws
pub mod Rows
use gomutant.Prelude.{
  ℕ, zero, suc, ◌+◌, Bool, true, false, not, ◌&&◌, Option, none, some, List, [], ◌∷◌, ◌++◌, Text,
  text_eq, codes, ◌==◌, if◌then◌else◌, any, filter, map, is_some, Result, err, ok,
}
use gomutant.Prelude.Integers.{ℤ, pos, negsuc, ◌+ℤ◌}
use gomutant.Record.{
  Finding, Survivor, SurvivorKey, key_eq, Kill, OperatorSummary, CandidateEvidence, Candidate,
  Attestation, Exemption,
}
use gomutant.Exemptions.{unstable_for_buckets}
use gomutant.Findings.Disposition.{survivor_at, attestation_key}
use gomutant.Findings.Graft.{last_at, surviving}
use gomutant.Findings.Graft.Carry.{carry_anchored_withdrawn}
use gomutant.Schedule.Gate.{MutantOutcome}
use gomutant.Reconcile.Ceiling.{Durations, WindowScores, RunBounds, merge_scored_facts}
use gomutant.Reconcile.Counts.{
  Disposition, killed, survived, discarded, outcome_disposition, sum_operator_totals,
  carry_survivor, new_survivor, adopt_site, kills_complete,
}

-- An operator's summary while it is counted: its numbers may fall below zero.
pub record Tally : Type 0 where
  pub operator : Text
  pub generated : ℕ
  pub discarded : ℤ
  pub killed : ℤ
  pub survived : ℤ

abbrev pub tally_of : OperatorSummary → Tally
tally_of s = record {
  operator = s.operator;
  generated = s.generated;
  discarded = pos s.discarded;
  killed = pos s.killed;
  survived = pos s.survived;
}

-- The words that `applyDisposition` knows.
unfoldable pub recorded_disposition : Text → Option Disposition
recorded_disposition word =
    if word == codes "killed"
    then some killed
    else if word == codes "survived"
    then some survived
    else if word == codes "discarded"
    then some discarded
    else none

-- `applyDisposition` with a signed delta; an unknown word changes nothing.
unfoldable pub adjust : Option Disposition → ℤ → Tally → Tally
adjust none delta t = t
adjust (some killed) delta t = record t { killed = t.killed +ℤ delta }
adjust (some survived) delta t = record t { survived = t.survived +ℤ delta }
adjust (some discarded) delta t = record t { discarded = t.discarded +ℤ delta }

-- The summary that the map `byOperator` names: the last one of the operator.
unfoldable pub adjust_last :
    Text → Option Disposition → Disposition → List Tally → Option (List Tally)
unfolding adjust
adjust_last operator prior fresh [] = none
adjust_last operator prior fresh (t ∷ ts) = elim (adjust_last operator prior fresh ts) [
  | some ts' ↦ some (t ∷ ts')
  | none ↦
      if t.operator == operator
      then some (adjust (some fresh) (pos 1) (adjust prior (negsuc 0) t) ∷ ts)
      else none
]

pub data SpliceError : Type 0 where
  cancelled_at : ℕ → SpliceError
  no_summary : Candidate → SpliceError
  unreconciled : Text → SpliceError

-- The summary that a tally leaves, and `none` where a count is negative.
unfoldable pub summary_of : Tally → Option OperatorSummary
summary_of t = elim t.killed [
  | negsuc _ ↦ none
  | pos k ↦ elim t.discarded [
    | negsuc _ ↦ none
    | pos d ↦ elim t.survived [
      | negsuc _ ↦ none
      | pos s ↦ some (record {
        operator = t.operator;
        generated = t.generated;
        discarded = d;
        killed = k;
        survived = s;
      })
    ]
  ]
]

-- The loop that refuses negative counts.
unfoldable pub reconciled : List Tally → Result SpliceError (List OperatorSummary)
unfolding summary_of
reconciled [] = ok []
reconciled (t ∷ ts) = elim (summary_of t) [
  | none ↦ err (unreconciled t.operator)
  | some s ↦ elim (reconciled ts) [ err e ↦ err e | ok ss ↦ ok (s ∷ ss) ]
]

-- The variables of the loop.
pub record Splicing : Type 0 where
  pub operators : List Tally
  pub survivors : List Survivor
  pub kills : List Kill
  pub evidence : List CandidateEvidence

abbrev pub candidate_key : Candidate → SurvivorKey
candidate_key c = record { position = c.position; operator = c.operator }

abbrev pub kill_at : SurvivorKey → Kill → Bool
kill_at k kill = record { position = kill.position; operator = kill.operator } == k

abbrev evidence_at : SurvivorKey → CandidateEvidence → Bool
evidence_at k ev = record { position = ev.position; operator = ev.operator } == k

abbrev kill_of : Candidate → Text → Kill
kill_of c killer = record { position = c.position; operator = c.operator; killer = killer }

unfoldable pub snoc_some {ℓ κ} : {A : Type ℓ} {B : Type κ} → List B → (A → B) → Option A → List B
snoc_some xs f none = xs
snoc_some xs f (some a) = xs ++ f a ∷ []

-- A candidate that is covered keeps its recorded survivor and kill.
unfoldable pub carry_covered : Finding → Candidate → Splicing → Splicing
unfolding last_at carry_survivor snoc_some
carry_covered rec c acc =
    let k = candidate_key c in
    record acc {
      survivors =
          snoc_some acc.survivors (carry_survivor c) (last_at (survivor_at k) rec.survivors);
      kills = snoc_some acc.kills (λ kill. kill_of c kill.killer) (last_at (kill_at k) rec.kills);
    }

unfoldable pub prior_disposition : Finding → Candidate → Option Disposition
unfolding last_at recorded_disposition
prior_disposition rec c = elim (last_at (evidence_at (candidate_key c)) rec.candidate_evidence) [
  | none ↦ none
  | some ev ↦ recorded_disposition ev.disposition
]

-- The bucket of a survivor: its recorded one, unless the record is unstable.
unfoldable pub bucket : Finding → Bool → Candidate → Text
unfolding last_at
bucket rec unstable c =
    if unstable
    then codes "unstable-oracle"
    else elim (last_at (survivor_at (candidate_key c)) rec.survivors) [
      | none ↦ []
      | some prior ↦ prior.execution
    ]

-- What the fresh outcome of a flagged candidate adds to the rows.
unfoldable pub rerun_rows :
    Disposition → Finding → Bool → WindowScores → ℕ → Candidate → Splicing → Splicing
unfolding bucket new_survivor
rerun_rows survived rec unstable scores mi c acc = record acc {
  survivors = acc.survivors ++ new_survivor c (bucket rec unstable c) scores.flips mi ∷ [];
}
rerun_rows killed rec unstable scores mi c acc = record acc {
  kills = if kills_complete rec then acc.kills ++ kill_of c (scores.killers mi) ∷ [] else acc.kills;
}
rerun_rows discarded rec unstable scores mi c acc = acc

-- The new summaries, and the fresh evidence of the candidate where there is some.
unfoldable pub stepped : List CandidateEvidence → Candidate → Splicing → List Tally → Splicing
unfolding snoc_some last_at
stepped fresh_evidence c acc ts = record acc {
  operators = ts;
  evidence =
      snoc_some acc.evidence (λ ev. ev) (last_at (evidence_at (candidate_key c)) fresh_evidence);
}

-- One candidate that ran again, `none` where no summary has its operator.
unfoldable pub rerun :
    Finding
    → Bool
    → WindowScores
    → List CandidateEvidence
    → ℕ
    → Candidate
    → Splicing
    → Option Splicing
unfolding adjust_last prior_disposition rerun_rows outcome_disposition stepped
rerun rec unstable scores fresh_evidence mi c acc =
    let fresh = outcome_disposition (scores.outcomes mi) in
    elim (adjust_last c.operator (prior_disposition rec c) fresh acc.operators) [
      | none ↦ none
      | some ts ↦ some (rerun_rows fresh rec unstable scores mi c (stepped fresh_evidence c acc ts))
    ]

-- The loop over the candidates; `cancelled mi` is a context error at `mi`.
unfoldable pub splice_from :
    (ℕ → Bool)
    → (ℕ → Bool)
    → Finding
    → Bool
    → WindowScores
    → List CandidateEvidence
    → ℕ
    → List Candidate
    → Splicing
    → Result SpliceError Splicing
unfolding carry_covered rerun
splice_from cancelled flagged rec unstable scores fresh mi [] acc = ok acc
splice_from cancelled flagged rec unstable scores fresh mi (c ∷ cs) acc =
    if cancelled mi
    then err (cancelled_at mi)
    else if not (flagged mi)
    then splice_from cancelled flagged rec unstable scores fresh (suc mi) cs
        (carry_covered rec c acc)
    else elim (rerun rec unstable scores fresh mi c acc) [
      | none ↦ err (no_summary c)
      | some acc' ↦ splice_from cancelled flagged rec unstable scores fresh (suc mi) cs acc'
    ]

abbrev pub splicing_of : Finding → Splicing
splicing_of rec = record {
  operators = map tally_of rec.operators;
  survivors = [];
  kills = [];
  evidence = [];
}

-- The end of the function.
unfoldable pub spliced : Finding → List OperatorSummary → Splicing → Finding
unfolding sum_operator_totals carry_anchored_withdrawn adopt_site filter
spliced rec operators acc =
    let (k, d, s) = sum_operator_totals operators in
    let kept = filter (λ a. surviving acc.survivors (attestation_key a)) rec.attested in
    let attested = map (adopt_site acc.survivors) kept in
    record rec {
      operators = operators;
      killed = k;
      discarded = d;
      mutants = k + s;
      kills = if kills_complete rec then acc.kills else [];
      survivors = acc.survivors;
      candidate_evidence = acc.evidence;
      attested = attested;
      withdrawn = carry_anchored_withdrawn rec.withdrawn attested acc.survivors;
    }

-- The counts of the loop's variables, once they are seen to be numbers.
unfoldable pub settle_splice : Finding → Splicing → Result SpliceError Finding
unfolding reconciled spliced
settle_splice rec acc = elim (reconciled acc.operators) [
  | err e ↦ err e
  | ok operators ↦ ok (spliced rec operators acc)
]

module _ (durations : Durations) (clause : Text → Text) (exemptions : List Exemption) where
  unfoldable pub splice_finding_counts :
      (ℕ → Bool)
      → Finding
      → List Candidate
      → (ℕ → Bool)
      → WindowScores
      → List CandidateEvidence
      → RunBounds
      → Result SpliceError Finding
  unfolding merge_scored_facts splice_from settle_splice unstable_for_buckets
  splice_finding_counts cancelled recorded candidates flagged scores fresh_evidence run =
      let rec = merge_scored_facts durations recorded scores run in
      let unstable = unstable_for_buckets clause exemptions rec in
      elim (splice_from cancelled flagged rec unstable scores fresh_evidence 0 candidates
        (splicing_of rec)) [ err e ↦ err e | ok acc ↦ settle_splice rec acc ]
