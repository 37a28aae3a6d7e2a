-- ===== src/Run/Fresh.antt =====
-- run.go, the assembly of a freshly measured finding: its summaries, totals, survivors and kills.
-- Cancellation, which refuses the whole window, and the buckets of the survivors, which come from
-- coverage probes, are outside.
use gomutant.Prelude.{
  ℕ, suc, ◌+◌, ◌≡◌, refl, ap, ◌∙◌, List, [], ◌∷◌, ◌++◌, if◌then◌else◌, length, length-append, arith,
}
use gomutant.Record.{Finding, OperatorSummary, Candidate}
use gomutant.Schedule.Gate.{MutantOutcome, mutant_discarded, mutant_killed, mutant_survived}
use gomutant.Reconcile.Ceiling.{WindowScores}
use gomutant.Reconcile.Counts.{
  Disposition, killed, survived, outcome_disposition, new_survivor, summarize_operators,
  sum_operator_totals, sum_by,
}
use gomutant.Reconcile.Counts.Sums.{
  weigh, with_outcome, same_disposition, summarize_operators-conserves,
}
use gomutant.Reconcile.Counts.Extend.{Conserved}

-- The loop over the summaries, which adds them to the totals.
unfoldable add_summaries : List OperatorSummary → Finding → Finding
add_summaries [] f = f
add_summaries (s ∷ ss) f = add_summaries ss (record f {
  discarded = f.discarded + s.discarded;
  mutants = f.mutants + (s.killed + s.survived);
  killed = f.killed + s.killed;
})

-- The `switch` on the outcome.
unfoldable add_row : MutantOutcome → WindowScores → ℕ → Candidate → Finding → Finding
unfolding new_survivor
add_row mutant_survived scores mi c f = record f {
  survivors = f.survivors ++ new_survivor c [] scores.flips mi ∷ [];
}
add_row mutant_killed scores mi c f = record f {
  kills =
      f.kills
      ++ record { position = c.position; operator = c.operator; killer = scores.killers mi } ∷ [];
}
add_row mutant_discarded scores mi c f = f

-- The loop over the candidates, from the one at `mi` on.
unfoldable add_rows : WindowScores → ℕ → List Candidate → Finding → Finding
unfolding add_row
add_rows scores mi [] f = f
add_rows scores mi (c ∷ cs) f =
    add_rows scores (suc mi) cs (add_row (scores.outcomes mi) scores mi c f)

unfoldable pub fresh_counts : Finding → List Candidate → WindowScores → Finding
unfolding add_summaries add_rows summarize_operators
fresh_counts skeleton candidates scores =
    let operators = summarize_operators candidates scores.outcomes in
    add_rows scores 0 candidates
      (add_summaries operators (record skeleton { operators = operators }))

-- The fields that the accounting reads.
abbrev Same : Finding → Finding → Type 0
Same f f' =
    (f'.operators ≡ f.operators)
    × (f'.killed ≡ f.killed)
    × (f'.discarded ≡ f.discarded)
    × (f'.mutants ≡ f.mutants)

add_summaries-totals :
    (ss : List OperatorSummary) (f : Finding)
    → let f' = add_summaries ss f in
      (f'.operators ≡ f.operators)
      × (f'.killed ≡ f.killed + sum_by (λ s. s.killed) ss)
      × (f'.discarded ≡ f.discarded + sum_by (λ s. s.discarded) ss)
      × (f'.mutants ≡ f.mutants + (sum_by (λ s. s.killed) ss + sum_by (λ s. s.survived) ss))
      × (f'.survivors ≡ f.survivors)
      × (f'.kills ≡ f.kills)
unfolding add_summaries sum_by
add_summaries-totals [] f = (refl, omega arith, omega arith, omega arith, refl, refl)
add_summaries-totals (s ∷ ss) f =
    let (o, k, d, m, sv, kl) = add_summaries-totals ss (record f {
      discarded = f.discarded + s.discarded;
      mutants = f.mutants + (s.killed + s.survived);
      killed = f.killed + s.killed;
    }) in
    (o, omega (arith, k), omega (arith, d), omega (arith, m), sv, kl)

abbrev own : Disposition → MutantOutcome → ℕ
own d o = if same_disposition (outcome_disposition o) d then 1 else 0

add_row-adds :
    (o : MutantOutcome) (scores : WindowScores) (mi : ℕ) (c : Candidate) (f : Finding)
    → let f' = add_row o scores mi c f in
      Same f f'
      × (length f'.survivors ≡ length f.survivors + own survived o)
      × (length f'.kills ≡ length f.kills + own killed o)
unfolding add_row outcome_disposition
add_row-adds mutant_survived scores mi c f = (
  (refl, refl, refl, refl),
  omega (arith, length-append f.survivors (new_survivor c [] scores.flips mi ∷ [])),
  omega arith,
)
add_row-adds mutant_killed scores mi c f = (
  (refl, refl, refl, refl),
  omega arith,
  omega (
    arith,
    length-append f.kills
        (record { position = c.position; operator = c.operator; killer = scores.killers mi } ∷ []),
  ),
)
add_row-adds mutant_discarded scores mi c f = ((refl, refl, refl, refl), omega arith, omega arith)

add_rows-adds :
    (scores : WindowScores) (mi : ℕ) (cs : List Candidate) (f : Finding)
    → let f' = add_rows scores mi cs f in
      Same f f'
      × (length f'.survivors
          ≡ length f.survivors + weigh (with_outcome survived) scores.outcomes mi cs)
      × (length f'.kills ≡ length f.kills + weigh (with_outcome killed) scores.outcomes mi cs)
unfolding add_rows
add_rows-adds scores mi [] f = ((refl, refl, refl, refl), omega arith, omega arith)
add_rows-adds scores mi (c ∷ cs) f =
    let ((o₁, k₁, d₁, m₁), s₁, l₁) = add_row-adds (scores.outcomes mi) scores mi c f in
    let ((o₂, k₂, d₂, m₂), s₂, l₂) =
      add_rows-adds scores (suc mi) cs (add_row (scores.outcomes mi) scores mi c f) in
    ((o₂ ∙ o₁, k₂ ∙ k₁, d₂ ∙ d₁, m₂ ∙ m₁), omega (arith, s₁, s₂), omega (arith, l₁, l₂))

-- A skeleton without counts and rows becomes a finding whose totals and rows agree over all its
-- candidates, and every kill of which is attributed.
pub fresh_counts-conserves :
    (skeleton : Finding) (candidates : List Candidate) (scores : WindowScores)
    → skeleton.killed ≡ 0
    → skeleton.discarded ≡ 0
    → skeleton.mutants ≡ 0
    → skeleton.survivors ≡ []
    → skeleton.kills ≡ []
    → let f = fresh_counts skeleton candidates scores in
      Conserved (length candidates) f × (length f.kills ≡ f.killed)
unfolding fresh_counts sum_operator_totals
fresh_counts-conserves skeleton candidates scores zk zd zm zs zl =
    let operators = summarize_operators candidates scores.outcomes in
    let (o₁, k₁, d₁, m₁, s₁, l₁) =
      add_summaries-totals operators (record skeleton { operators = operators }) in
    let ((o₂, k₂, d₂, m₂), s₂, l₂) =
      add_rows-adds scores 0 candidates
        (add_summaries operators (record skeleton { operators = operators })) in
    let (_, ck, cd, cs, all) = summarize_operators-conserves candidates scores.outcomes in
    let o = o₂ ∙ o₁ in
    let ok = ap (sum_by (λ s. s.killed)) o in
    let od = ap (sum_by (λ s. s.discarded)) o in
    let os = ap (sum_by (λ s. s.survived)) o in
    let rows = ap length s₁ ∙ ap length zs in
    let deaths = ap length l₁ ∙ ap length zl in
    (
      (
        omega (arith, ok, k₁, k₂, zk),
        omega (arith, od, d₁, d₂, zd),
        omega (arith, os, s₂, rows, cs),
        omega (arith, m₁, m₂, zm, k₁, k₂, zk, s₂, rows, cs),
        omega (arith, m₁, m₂, zm, d₁, d₂, zd, all),
      ),
      omega (arith, l₂, deaths, k₁, k₂, zk, ck),
    )
