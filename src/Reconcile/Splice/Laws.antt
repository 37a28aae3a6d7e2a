-- ===== src/Reconcile/Splice/Laws.antt =====
-- reconcile.go `spliceFindingCounts`: a splice conserves the candidate accounting.
use gomutant.Prelude.{
  ℕ, suc, ◌+◌, ◌≤◌, ◌≡◌, refl, ap, Bool, true, false, ◌||◌, some, List, [], ◌∷◌, Text, text_eq,
  ◌==◌, if◌then◌else◌, any, All, arith, Bool-cases, inl, inr, map, ok,
}
use gomutant.Prelude.Integers.{ℤ, pos, pos_part, neg_part}
use gomutant.Record.{Finding, OperatorSummary, CandidateEvidence, Candidate, Exemption}
use gomutant.Exemptions.{unstable_for_buckets}
use gomutant.Reconcile.Ceiling.{Durations, WindowScores, RunBounds, merge_scored_facts}
use gomutant.Reconcile.Counts.{
  Disposition, killed, survived, discarded, outcome_disposition, sum_by, sum_operator_totals,
}
use gomutant.Reconcile.Counts.Sums.{counted}
use gomutant.Reconcile.Splice.{
  Tally, tally_of, summary_of, reconciled, splicing_of, spliced, settle_splice,
  splice_finding_counts,
}
use gomutant.Reconcile.Splice.Tallies.{count, size, size_at, one_at, only, Holds}
use gomutant.Reconcile.Splice.Loop.{
  retracted, remeasured, Recorded, Recorded-same, listing, retracted_skip, retracted_take,
  remeasured_skip, remeasured_take, splice_from-Spliced,
}

number : (a : ℤ) → neg_part a ≡ 0 → a ≡ pos (pos_part a)
number a h = ground arith

abbrev summary : Text → ℕ → ℕ → ℕ → ℕ → OperatorSummary
summary operator generated k d s = record {
  operator = operator;
  generated = generated;
  discarded = d;
  killed = k;
  survived = s;
}

summary_of-numbers :
    (t : Tally) (k d s : ℕ)
    → t.killed ≡ pos k
    → t.discarded ≡ pos d
    → t.survived ≡ pos s
    → summary_of t ≡ some (summary t.operator t.generated k d s)
unfolding summary_of
summary_of-numbers t k d s ek ed es = rw (ek, ed, es) refl

sizes :
    (t : Tally) (d : Disposition)
    → counted d
        (summary t.operator t.generated (size killed t) (size discarded t) (size survived t))
      ≡ size d t
sizes t killed = refl
sizes t survived = refl
sizes t discarded = refl

-- The numbers that the last check reads off the tallies.
whole-summary :
    (t : Tally)
    → Holds (λ _ _. 0) t
    → (s : OperatorSummary) × (summary_of t ≡ some s)
      × (s.operator ≡ t.operator)
      × ((d : Disposition) → counted d s ≡ size d t)
unfolding summary_of
whole-summary t h = (
  summary t.operator t.generated (size killed t) (size discarded t) (size survived t),
  summary_of-numbers t (size killed t) (size discarded t) (size survived t)
      (number t.killed (h killed).0) (number t.discarded (h discarded).0)
      (number t.survived (h survived).0),
  refl,
  sizes t,
)

reconciled_whole :
    (ts : List Tally)
    → All (Holds (λ _ _. 0)) ts
    → (ss : List OperatorSummary) × (reconciled ts ≡ ok ss)
      × ((chosen : Text → Bool) (d : Disposition)
          → sum_by (λ s. if chosen s.operator then counted d s else 0) ss
            ≡ sum_by (size_at chosen d) ts)
unfolding reconciled sum_by
reconciled_whole [] h = ([], refl, (λ chosen d. refl))
reconciled_whole (t ∷ ts) h =
    let (s, e, o, sizes) = whole-summary t h.0 in
    let (ss, es, sums) = reconciled_whole ts h.1 in
    (
      s ∷ ss,
      rw (reconciled, e, es) refl,
      (λ chosen d. ground (arith, sizes d, sums chosen d, ap chosen o)),
    )

abbrev pub counted_in : (Text → Bool) → Disposition → OperatorSummary → ℕ
counted_in chosen d s = if chosen s.operator then counted d s else 0

tally-count : (d : Disposition) (s : OperatorSummary) → count d (tally_of s) ≡ pos (counted d s)
tally-count killed s = refl
tally-count survived s = refl
tally-count discarded s = refl

tally-size :
    (chosen : Text → Bool) (d : Disposition) (s : OperatorSummary)
    → size_at chosen d (tally_of s) ≡ counted_in chosen d s
tally-size chosen d s = rw (tally-count d s) refl

tallies_sum :
    (chosen : Text → Bool) (d : Disposition) (ss : List OperatorSummary)
    → sum_by (size_at chosen d) (map tally_of ss) ≡ sum_by (counted_in chosen d) ss
unfolding sum_by
tallies_sum chosen d [] = refl
tallies_sum chosen d (s ∷ ss) = omega (arith, tally-size chosen d s, tallies_sum chosen d ss)

tallies_listed :
    (o : Text) (ss : List OperatorSummary)
    → any (λ t. t.operator == o) (map tally_of ss) ≡ any (λ s. s.operator == o) ss
unfolding any
tallies_listed o [] = refl
tallies_listed o (s ∷ ss) = ap (λ b. (s.operator == o) || b) (tallies_listed o ss)

tallies-Holds :
    (n : (Text → Bool) → Disposition → ℕ) (ss : List OperatorSummary)
    → All (λ s. (d : Disposition) → n (only s.operator) d ≤ counted d s) ss
    → All (Holds n) (map tally_of ss)
tallies-Holds n [] h = tt
tallies-Holds n (s ∷ ss) h = ((λ d. rw (tally-count d s) (refl, h.0 d)), tallies-Holds n ss h.1)

abbrev every : Text → Bool
every o = true

abbrev pub totals : (Disposition → ℕ) → ℕ
totals f = f killed + f discarded + f survived

-- All the flagged candidates, by their recorded and by their fresh outcomes.
all_outcomes : (o : Text) (e : Disposition) → totals (one_at o e every) ≡ 1
all_outcomes o killed = refl
all_outcomes o survived = refl
all_outcomes o discarded = refl

module _ (flagged : ℕ → Bool) (rec : Finding) (scores : WindowScores) (listed : Text → Bool) where
  retracted-remeasured :
      (mi : ℕ) (cs : List Candidate)
      → Recorded flagged rec scores listed mi cs
      → totals (retracted flagged rec scores mi cs every)
        ≡ totals (remeasured flagged rec scores mi cs every)
  retracted-remeasured mi [] h = refl
  retracted-remeasured mi (c ∷ cs) h =
      let rest = retracted-remeasured (suc mi) cs h.1 in
      elim (Bool-cases (flagged mi)) [
        | inr f ↦ omega (
          arith,
          rest,
          retracted_skip flagged rec scores mi c cs every killed f,
          retracted_skip flagged rec scores mi c cs every discarded f,
          retracted_skip flagged rec scores mi c cs every survived f,
          remeasured_skip flagged rec scores mi c cs every killed f,
          remeasured_skip flagged rec scores mi c cs every discarded f,
          remeasured_skip flagged rec scores mi c cs every survived f,
        )
        | inl y ↦
            let ((p, q), there) = h.0 y in
            let e = outcome_disposition (scores.outcomes mi) in
            omega (
              arith,
              rest,
              all_outcomes c.operator p,
              all_outcomes c.operator e,
              retracted_take flagged rec scores mi c cs every killed p y q,
              retracted_take flagged rec scores mi c cs every discarded p y q,
              retracted_take flagged rec scores mi c cs every survived p y q,
              remeasured_take flagged rec scores mi c cs every killed y,
              remeasured_take flagged rec scores mi c cs every discarded y,
              remeasured_take flagged rec scores mi c cs every survived y,
            )
      ]

-- A splice that is not cancelled gives a finding, where each flagged candidate has a recorded
-- outcome and a summary of its operator, and no summary counts fewer candidates with an outcome
-- than the flagged ones of its operator with that recorded outcome. Over the summaries of any
-- choice of operators, the count of an outcome loses the flagged candidates that had it recorded
-- and gains those that have it now; the totals are the sums of the summaries; and their sum, over
-- all outcomes, is that of the recorded summaries.
pub splice_finding_counts-conserves :
    (durations : Durations) (clause : Text → Text) (exemptions : List Exemption)
    (cancelled : ℕ → Bool) (rec : Finding) (candidates : List Candidate) (flagged : ℕ → Bool)
    (scores : WindowScores) (fresh : List CandidateEvidence) (run : RunBounds)
    → ((mi : ℕ) → cancelled mi ≡ false)
    → Recorded flagged rec scores (λ o. any (λ s. s.operator == o) rec.operators) 0 candidates
    → All
        (λ s.
          (d : Disposition)
          → retracted flagged rec scores 0 candidates (only s.operator) d ≤ counted d s)
        rec.operators
    → (f : Finding) × (splice_finding_counts durations clause exemptions cancelled rec candidates
          flagged scores fresh run
        ≡ ok f)
      × ((chosen : Text → Bool) (d : Disposition)
          → sum_by (counted_in chosen d) f.operators
              + retracted flagged rec scores 0 candidates chosen d
            ≡ sum_by (counted_in chosen d) rec.operators
              + remeasured flagged rec scores 0 candidates chosen d)
      × (f.killed ≡ sum_by (counted killed) f.operators)
      × (f.discarded ≡ sum_by (counted discarded) f.operators)
      × (f.mutants ≡ f.killed + sum_by (counted survived) f.operators)
      × (f.mutants + f.discarded ≡ totals (λ d. sum_by (counted d) rec.operators))
unfolding splice_finding_counts settle_splice spliced sum_operator_totals merge_scored_facts
splice_finding_counts-conserves durations clause exemptions cancelled recorded candidates flagged
      scores fresh run alive known backed =
    let rec = merge_scored_facts durations recorded scores run in
    let unstable = unstable_for_buckets clause exemptions rec in
    let (acc, e, (hs, sums)) =
      splice_from-Spliced flagged rec scores cancelled unstable fresh alive 0 candidates
        (splicing_of rec)
        (Recorded-same flagged rec scores (λ o. any (λ s. s.operator == o) rec.operators)
          (listing (map tally_of rec.operators)) (λ o. tallies_listed o rec.operators) 0 candidates
          known)
        (tallies-Holds (retracted flagged rec scores 0 candidates) rec.operators backed) in
    let (ss, es, read) = reconciled_whole acc.operators hs in
    (
      spliced rec ss acc,
      rw (splice_finding_counts, e, settle_splice, es) refl,
      (λ chosen d. omega (arith, read chosen d, sums chosen d, tallies_sum chosen d rec.operators)),
      refl,
      refl,
      refl,
      omega (
        arith,
        retracted-remeasured flagged rec scores (λ o. any (λ s. s.operator == o) rec.operators) 0
            candidates known,
        read every killed,
        read every discarded,
        read every survived,
        sums every killed,
        sums every discarded,
        sums every survived,
        tallies_sum every killed rec.operators,
        tallies_sum every discarded rec.operators,
        tallies_sum every survived rec.operators,
      ),
    )
