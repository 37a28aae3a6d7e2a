-- ===== src/Examples/Splices.antt =====
-- reconcile.go `spliceFindingCounts` and execute.go `mergeScoredFacts`: the first of two candidates
-- runs again.
use gomutant.Prelude.{
  ℕ, ◌+◌, ◌≤◌, ◌≡◌, ◌||◌, refl, true, false, some, [], ◌∷◌, Text, text_eq, codes, arith, Bool,
  nat_eq, All, ◌==◌, text_beq, max, Result, ok, map, any, err,
}
use gomutant.Prelude.Integers.{◌+ℤ◌}
use gomutant.Record.{Finding, key_beq, OperatorSummary}
use gomutant.Examples.Blank.{blank, durations, clause, run}
use gomutant.Examples.Records.{candidates, recorded, scores, evidence}
use gomutant.Findings.Disposition.{survivor_key, attestation_key}
use gomutant.Findings.Graft.{last_at, surviving}
use gomutant.Freshness.Pins.{effective_ceiling, memory_pin_stale}
use gomutant.Reconcile.Ceiling.{any_memory_decided, merge_scored_facts}
use gomutant.Reconcile.Ceiling.Laws.{merge_scored_facts-bounds}
use gomutant.Reconcile.Counts.{
  Disposition, killed, survived, discarded, outcome_disposition, sum_by,
}
use gomutant.Reconcile.Counts.Sums.{counted}
use gomutant.Reconcile.Splice.{
  splice_finding_counts, prior_disposition, recorded_disposition, settle_splice, splice_from,
  carry_covered, rerun, stepped, adjust_last, adjust, reconciled, summary_of, snoc_some,
  SpliceError,
}
use gomutant.Reconcile.Splice.Tallies.{only}
use gomutant.Reconcile.Splice.Loop.{retracted, remeasured, Recorded}
use gomutant.Reconcile.Splice.Laws.{counted_in, totals, splice_finding_counts-conserves}
use gomutant.Reconcile.Splice.Rows.{surviving_keys, splice_finding_counts-survivors}

-- Two killed candidates, of which the second, whose kill rested on a clock, runs again and survives.
abbrev rec : Finding
rec = record (recorded 2 2 (evidence ∷ [])) {
  operators =
      record { operator = codes "negate"; generated = 2; discarded = 0; killed = 2; survived = 0 }
      ∷ [];
  mutants = 2;
  killed = 2;
}

abbrev flagged : ℕ → Bool
flagged mi = mi == 1

abbrev listed : Text → Bool
listed o = any (λ (s : OperatorSummary). s.operator == o) rec.operators

known : Recorded flagged rec scores listed 0 candidates
unfolding prior_disposition recorded_disposition last_at key_beq text_beq any
known = ((λ y. absurd (cc)), ((λ y. ((killed, refl), refl)), tt))

backed :
    (d : Disposition)
    → retracted flagged rec scores 0 candidates (only (codes "negate")) d
      ≤ counted d (record {
        operator = codes "negate";
        generated = 2;
        discarded = 0;
        killed = 2;
        survived = 0;
      })
unfolding prior_disposition recorded_disposition last_at key_beq text_beq
backed killed = omega arith
backed survived = omega arith
backed discarded = omega arith

splice_finding_counts-conserves_example :
    (f : Finding) × (splice_finding_counts durations clause []
        (λ mi. false)
        rec
        candidates
        flagged
        scores
        []
        run
      ≡ ok f)
    × ((chosen : Text → Bool) (d : Disposition)
        → sum_by (counted_in chosen d) f.operators
            + retracted flagged rec scores 0 candidates chosen d
          ≡ sum_by (counted_in chosen d) rec.operators
            + remeasured flagged rec scores 0 candidates chosen d)
    × (f.killed ≡ sum_by (counted killed) f.operators)
    × (f.discarded ≡ sum_by (counted discarded) f.operators)
    × (f.mutants ≡ f.killed + sum_by (counted survived) f.operators)
    × (f.mutants + f.discarded ≡ totals (λ d. sum_by (counted d) rec.operators))
splice_finding_counts-conserves_example =
    splice_finding_counts-conserves durations clause [] (λ mi. false) rec candidates flagged scores
      [] run (λ mi. refl) known (backed, tt)

abbrev outcome_of : Result SpliceError Finding → Finding
outcome_of (ok f) = f
outcome_of (err e) = blank

abbrev again : Finding
again =
    outcome_of
      (splice_finding_counts durations clause [] (λ mi. false) rec candidates flagged scores [] run)

runs_again :
    splice_finding_counts durations clause [] (λ mi. false) rec candidates flagged scores [] run
    ≡ ok again
unfolding splice_finding_counts settle_splice splice_from carry_covered rerun stepped adjust_last
    adjust reconciled summary_of prior_disposition recorded_disposition snoc_some last_at
    outcome_disposition key_beq text_beq ◌+ℤ◌
runs_again = refl

splice_finding_counts-survivors_example :
    (map survivor_key again.survivors ≡ surviving_keys flagged rec scores 0 candidates)
    × All (λ a. surviving again.survivors (attestation_key a) ≡ true) again.attested
splice_finding_counts-survivors_example =
    splice_finding_counts-survivors durations clause [] (λ mi. false) rec candidates flagged scores
      [] run again runs_again

merge_scored_facts-bounds_example :
    let f = merge_scored_facts durations (record rec { oracle_timeout = 45 ∷ [] }) scores run in
    (effective_ceiling f.oracle_memory_bytes ≡ max (effective_ceiling 0) (effective_ceiling 0))
    × ((current : ℕ)
        → memory_pin_stale f current ≡ false
        → (effective_ceiling 0 ≤ effective_ceiling current)
          × (effective_ceiling 0 ≤ effective_ceiling current))
    × (f.oracle_ceiling_decided ≡ (false || any_memory_decided []))
    × ((true || false) ≡ true
        → (durations.parse_duration f.oracle_timeout ≡ some (max 45 60))
          × (f.oracle_timeout_derived ≡ true))
merge_scored_facts-bounds_example =
    merge_scored_facts-bounds durations (record rec { oracle_timeout = 45 ∷ [] }) scores run 45
      (λ n. refl) refl
