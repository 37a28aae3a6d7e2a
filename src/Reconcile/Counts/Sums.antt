-- ===== src/Reconcile/Counts/Sums.antt =====
-- reconcile.go `summarizeOperators`: sums over the operator summaries are counts of candidates.
use gomutant.Prelude.{
  ℕ, suc, ◌+◌, ◌≡◌, refl, ap, ◌∙◌, Bool, true, false, ◌&&◌, some, List, [], ◌∷◌, ◌++◌, Text,
  text_eq, ◌==◌, eq_iff, if◌then◌else◌, arith, Option-cases, inl, inr, length,
}
use gomutant.Prelude.Sort.{sort, insert}
use gomutant.Record.{OperatorSummary, Candidate}
use gomutant.Schedule.Gate.{MutantOutcome}
use gomutant.Reconcile.Counts.{
  Disposition, killed, survived, discarded, outcome_disposition, apply_disposition, score,
  empty_summary, score_last, score_operator, by_operator, sum_by, sum_operator_totals,
  summarize_from, summarize_operators,
}

sum_by-insert {ℓ} :
    {A : Type ℓ} (lt : A → A → Bool) (f : A → ℕ) (x : A) (xs : List A)
    → sum_by f (insert lt x xs) ≡ f x + sum_by f xs
unfolding insert sum_by
sum_by-insert lt f x [] = refl
sum_by-insert lt f x (y ∷ ys) = ground (arith, sum_by-insert lt f x ys)

pub sum_by-sort {ℓ} :
    {A : Type ℓ} (lt : A → A → Bool) (f : A → ℕ) (xs : List A) → sum_by f (sort lt xs) ≡ sum_by f xs
unfolding sort sum_by
sum_by-sort lt f [] = refl
sum_by-sort lt f (x ∷ xs) = sum_by-insert lt f x (sort lt xs) ∙ omega (arith, sum_by-sort lt f xs)

sum_by-append {ℓ} :
    {A : Type ℓ} (f : A → ℕ) (xs ys : List A) → sum_by f (xs ++ ys) ≡ sum_by f xs + sum_by f ys
unfolding sum_by
sum_by-append f [] ys = omega arith
sum_by-append f (x ∷ xs) ys = omega (arith, sum_by-append f xs ys)

-- A reading of a summary to which one more candidate of `operator` with outcome `d` adds `n`.
abbrev Adds : Text → Disposition → ℕ → (OperatorSummary → ℕ) → Type 0
Adds operator d n f =
    ((s : OperatorSummary) → s.operator ≡ operator → f (score d s) ≡ f s + n)
    × (f (score d (empty_summary operator)) ≡ n)

score_last-sum :
    (operator : Text) (d : Disposition) (n : ℕ) (f : OperatorSummary → ℕ)
    → Adds operator d n f
    → (ss ss' : List OperatorSummary) → score_last operator d ss ≡ some ss'
    → sum_by f ss' ≡ sum_by f ss + n
unfolding score_last sum_by
score_last-sum operator d n f h [] ss' e = absurd (cc)
score_last-sum operator d n f h (s ∷ ss) ss' e = elim (Option-cases (score_last operator d ss)) [
  | inr (more, p) ↦ ground (arith, score_last-sum operator d n f h ss more p)
  | inl p ↦ ground (arith, eq_iff s.operator operator, h.0 s)
]

-- One more candidate adds its share to the sum over all operators.
pub score_operator-sum :
    (operator : Text) (d : Disposition) (n : ℕ) (f : OperatorSummary → ℕ)
    → Adds operator d n f
    → (ss : List OperatorSummary) → sum_by f (score_operator operator d ss) ≡ sum_by f ss + n
unfolding score_operator sum_by
score_operator-sum operator d n f h ss = elim (Option-cases (score_last operator d ss)) [
  | inr (more, p) ↦ rw (score_operator, p) (score_last-sum operator d n f h ss more p)
  | inl p ↦
      rw (score_operator, p)
        (sum_by-append f ss (score d (empty_summary operator) ∷ []) ∙ omega (arith, h.1))
]

-- The candidates from `mi` on, each weighed by its operator and its outcome.
abbrev pub weigh : (Text → Disposition → ℕ) → (ℕ → MutantOutcome) → ℕ → List Candidate → ℕ
weigh w outcomes mi [] = 0
weigh w outcomes mi (c ∷ cs) =
    w c.operator (outcome_disposition (outcomes mi)) + weigh w outcomes (suc mi) cs

-- A reading adds up as a weight does.
abbrev Reads : (Text → Disposition → ℕ) → (OperatorSummary → ℕ) → Type 0
Reads w f = (operator : Text) (d : Disposition) → Adds operator d (w operator d) f

summarize_from-sum :
    (w : Text → Disposition → ℕ) (f : OperatorSummary → ℕ)
    → Reads w f
    → (outcomes : ℕ → MutantOutcome) (mi : ℕ) (cs : List Candidate) (ss : List OperatorSummary)
    → sum_by f (summarize_from outcomes mi cs ss) ≡ sum_by f ss + weigh w outcomes mi cs
unfolding summarize_from
summarize_from-sum w f h outcomes mi [] ss = omega arith
summarize_from-sum w f h outcomes mi (c ∷ cs) ss =
    let d = outcome_disposition (outcomes mi) in
    summarize_from-sum w f h outcomes (suc mi) cs (score_operator c.operator d ss)
    ∙ omega (arith, score_operator-sum c.operator d (w c.operator d) f (h c.operator d) ss)

-- The field of a summary that counts an outcome.
abbrev pub counted : Disposition → OperatorSummary → ℕ
counted killed s = s.killed
counted survived s = s.survived
counted discarded s = s.discarded

abbrev pub same_disposition : Disposition → Disposition → Bool
same_disposition killed killed = true
same_disposition survived survived = true
same_disposition discarded discarded = true
same_disposition _ _ = false

-- One if the candidate has the outcome, whatever its operator.
abbrev pub with_outcome : Disposition → Text → Disposition → ℕ
with_outcome d operator e = if same_disposition e d then 1 else 0

-- One if the candidate has the operator and the outcome.
abbrev pub with_operator : Text → Disposition → Text → Disposition → ℕ
with_operator o d operator e = if (operator == o) && same_disposition e d then 1 else 0

abbrev pub counted_at : Text → Disposition → OperatorSummary → ℕ
counted_at o d s = if s.operator == o then counted d s else 0

score-counted :
    (d e : Disposition) (s : OperatorSummary)
    → counted d (score e s) ≡ counted d s + (if same_disposition e d then 1 else 0)
unfolding score apply_disposition
score-counted killed killed s = omega arith
score-counted killed survived s = omega arith
score-counted killed discarded s = omega arith
score-counted survived killed s = omega arith
score-counted survived survived s = omega arith
score-counted survived discarded s = omega arith
score-counted discarded killed s = omega arith
score-counted discarded survived s = omega arith
score-counted discarded discarded s = omega arith

score-operator : (e : Disposition) (s : OperatorSummary) → (score e s).operator ≡ s.operator
unfolding score apply_disposition
score-operator killed s = refl
score-operator survived s = refl
score-operator discarded s = refl

counted_empty : (d : Disposition) (operator : Text) → counted d (empty_summary operator) ≡ 0
counted_empty killed operator = refl
counted_empty survived operator = refl
counted_empty discarded operator = refl

pub counted-Reads : (d : Disposition) → Reads (with_outcome d) (counted d)
counted-Reads d operator e = (
  (λ s _. score-counted d e s),
  omega (arith, score-counted d e (empty_summary operator), counted_empty d operator),
)

counted_at-Reads : (o : Text) (d : Disposition) → Reads (with_operator o d) (counted_at o d)
counted_at-Reads o d operator e = (
  (λ s p.
      ground
        (arith, score-counted d e s, ap (λ x. x == o) (score-operator e s), ap (λ x. x == o) p)),
  ground (
    arith,
    score-counted d e (empty_summary operator),
    counted_empty d operator,
    ap (λ x. x == o) (score-operator e (empty_summary operator)),
  ),
)

one_outcome :
    (e : Disposition)
    → (if same_disposition e killed then 1 else 0)
        + (if same_disposition e discarded then 1 else 0)
        + (if same_disposition e survived then 1 else 0)
      ≡ 1
one_outcome killed = refl
one_outcome survived = refl
one_outcome discarded = refl

-- Every candidate has one outcome.
pub weigh_all :
    (outcomes : ℕ → MutantOutcome) (mi : ℕ) (cs : List Candidate)
    → weigh (with_outcome killed) outcomes mi cs
        + weigh (with_outcome discarded) outcomes mi cs
        + weigh (with_outcome survived) outcomes mi cs
      ≡ length cs
weigh_all outcomes mi [] = omega arith
weigh_all outcomes mi (c ∷ cs) =
    omega (arith, one_outcome (outcome_disposition (outcomes mi)), weigh_all outcomes (suc mi) cs)

-- The summaries of a run hold, under each operator, the number of its candidates with each outcome;
-- and the totals over all operators are the numbers of killed, discarded and survived candidates,
-- which together are all the candidates.
pub summarize_operators-conserves :
    (candidates : List Candidate) (outcomes : ℕ → MutantOutcome)
    → let ss = summarize_operators candidates outcomes in
      let (k, d, s) = sum_operator_totals ss in
      ((o : Text) (e : Disposition)
        → sum_by (counted_at o e) ss ≡ weigh (with_operator o e) outcomes 0 candidates)
      × (k ≡ weigh (with_outcome killed) outcomes 0 candidates)
      × (d ≡ weigh (with_outcome discarded) outcomes 0 candidates)
      × (s ≡ weigh (with_outcome survived) outcomes 0 candidates)
      × (k + d + s ≡ length candidates)
unfolding summarize_operators sum_operator_totals sum_by
summarize_operators-conserves candidates outcomes =
    let run = summarize_from outcomes 0 candidates [] in
    let total : (d : Disposition)
        → sum_by (counted d) (sort by_operator run) ≡ weigh (with_outcome d) outcomes 0 candidates =
      λ d.
        sum_by-sort by_operator (counted d) run
        ∙ summarize_from-sum (with_outcome d) (counted d) (counted-Reads d) outcomes 0 candidates []
        ∙ omega arith in
    (
      (λ o e.
          sum_by-sort by_operator (counted_at o e) run
          ∙ summarize_from-sum (with_operator o e) (counted_at o e) (counted_at-Reads o e) outcomes
              0 candidates []
          ∙ omega arith),
      total killed,
      total discarded,
      total survived,
      omega (arith, total killed, total discarded, total survived, weigh_all outcomes 0 candidates),
    )
