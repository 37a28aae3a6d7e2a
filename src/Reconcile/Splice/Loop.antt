-- ===== src/Reconcile/Splice/Loop.antt =====
-- reconcile.go `spliceFindingCounts`: the loop over the candidates.
use gomutant.Prelude.{
  ℕ, suc, ◌+◌, ◌≡◌, refl, ap, sym, ◌∙◌, subst, Bool, true, false, Option, none, some, List, [], ◌∷◌,
  Text, text_eq, ◌==◌, if◌then◌else◌, any, All, All-imp, arith, Bool-cases, inl, inr, ok,
}
use gomutant.Record.{Finding, CandidateEvidence, Candidate}
use gomutant.Reconcile.Ceiling.{WindowScores}
use gomutant.Reconcile.Counts.{
  Disposition, killed, survived, discarded, outcome_disposition, sum_by,
}
use gomutant.Reconcile.Splice.{
  Tally, Splicing, carry_covered, prior_disposition, rerun_rows, rerun, splice_from, adjust_last,
  stepped,
}
use gomutant.Reconcile.Splice.Tallies.{size_at, one_at, only, Holds, Moves, adjust_last-Moves}

rerun_rows-operators :
    (e : Disposition) (rec : Finding) (unstable : Bool) (scores : WindowScores) (mi : ℕ)
    (c : Candidate) (acc : Splicing)
    → (rerun_rows e rec unstable scores mi c acc).operators ≡ acc.operators
unfolding rerun_rows
rerun_rows-operators killed rec unstable scores mi c acc = refl
rerun_rows-operators survived rec unstable scores mi c acc = refl
rerun_rows-operators discarded rec unstable scores mi c acc = refl

abbrev pub listing : List Tally → Text → Bool
listing ts o = any (λ t. t.operator == o) ts

-- A number for a disposition that is there.
abbrev at_some : (Disposition → ℕ) → Option Disposition → ℕ
at_some f none = 0
at_some f (some p) = f p

module _ (flagged : ℕ → Bool) (rec : Finding) (scores : WindowScores) where
  -- How many flagged candidates of the chosen operators, from `mi` on, have the recorded outcome;
  -- and how many have the fresh one.
  abbrev pub retracted : ℕ → List Candidate → (Text → Bool) → Disposition → ℕ
  retracted mi [] chosen d = 0
  retracted mi (c ∷ cs) chosen d =
      (if flagged mi
        then at_some (λ p. one_at c.operator p chosen d) (prior_disposition rec c)
        else 0)
      + retracted (suc mi) cs chosen d

  abbrev pub remeasured : ℕ → List Candidate → (Text → Bool) → Disposition → ℕ
  remeasured mi [] chosen d = 0
  remeasured mi (c ∷ cs) chosen d =
      (if flagged mi
        then one_at c.operator (outcome_disposition (scores.outcomes mi)) chosen d
        else 0)
      + remeasured (suc mi) cs chosen d

  module _ (mi : ℕ) (c : Candidate) (cs : List Candidate) (chosen : Text → Bool)
      (d : Disposition) where
    pub retracted_skip :
        flagged mi ≡ false → retracted mi (c ∷ cs) chosen d ≡ retracted (suc mi) cs chosen d
    retracted_skip f = rw f (omega arith)

    pub retracted_take :
        (p : Disposition)
        → flagged mi ≡ true
        → prior_disposition rec c ≡ some p
        → retracted mi (c ∷ cs) chosen d
          ≡ one_at c.operator p chosen d + retracted (suc mi) cs chosen d
    retracted_take p y q = rw (y, q) refl

    pub remeasured_skip :
        flagged mi ≡ false → remeasured mi (c ∷ cs) chosen d ≡ remeasured (suc mi) cs chosen d
    remeasured_skip f = rw f (omega arith)

    pub remeasured_take :
        flagged mi ≡ true
        → remeasured mi (c ∷ cs) chosen d
          ≡ one_at c.operator (outcome_disposition (scores.outcomes mi)) chosen d
            + remeasured (suc mi) cs chosen d
    remeasured_take y = rw y refl

  -- Each flagged candidate has a recorded outcome and a summary of its operator.
  abbrev pub Recorded : (Text → Bool) → ℕ → List Candidate → Type 0
  Recorded listed mi [] = Unit
  Recorded listed mi (c ∷ cs) =
      (flagged mi ≡ true
        → ((p : Disposition) × (prior_disposition rec c ≡ some p)) × (listed c.operator ≡ true))
      × Recorded listed (suc mi) cs

  pub Recorded-same :
      (listed listed' : Text → Bool)
      → ((o : Text) → listed' o ≡ listed o)
      → (mi : ℕ) (cs : List Candidate) → Recorded listed mi cs
      → Recorded listed' mi cs
  Recorded-same listed listed' same mi [] h = tt
  Recorded-same listed listed' same mi (c ∷ cs) h = (
    (λ y. let (p, there) = h.0 y in (p, same c.operator ∙ there)),
    Recorded-same listed listed' same (suc mi) cs h.1,
  )

  -- What the loop does to the summaries.
  abbrev Spliced : ℕ → List Candidate → List Tally → List Tally → Type 0
  Spliced mi cs ts ts' =
      All (Holds (λ _ _. 0)) ts'
      × ((chosen : Text → Bool) (d : Disposition)
          → sum_by (size_at chosen d) ts' + retracted mi cs chosen d
            ≡ sum_by (size_at chosen d) ts + remeasured mi cs chosen d)

  module _ (cancelled : ℕ → Bool) (unstable : Bool) (fresh : List CandidateEvidence) where
    rerun-Moves :
        (mi : ℕ) (c : Candidate) (acc : Splicing) (p : Disposition)
        (n : (Text → Bool) → Disposition → ℕ)
        → prior_disposition rec c ≡ some p
        → any (λ t. t.operator == c.operator) acc.operators ≡ true
        → All (Holds (λ chosen d. one_at c.operator p chosen d + n chosen d)) acc.operators
        → (acc' : Splicing) × (rerun rec unstable scores fresh mi c acc ≡ some acc')
          × Moves c.operator p
              (outcome_disposition (scores.outcomes mi))
              n
              acc.operators
              acc'.operators
    unfolding rerun rerun_rows stepped
    rerun-Moves mi c acc p n q there h =
        let e = outcome_disposition (scores.outcomes mi) in
        elim (adjust_last-Moves c.operator p e n acc.operators h) [
          | inl (x, absent) ↦ absurd (cc)
          | inr (ts, x, moves) ↦ (
            rerun_rows e rec unstable scores mi c (stepped fresh c acc ts),
            rw (rerun, ap (λ o. adjust_last c.operator o e acc.operators) q ∙ x) refl,
            subst (Moves c.operator p e n acc.operators)
                (sym (rerun_rows-operators e rec unstable scores mi c (stepped fresh c acc ts)))
                moves,
          )
        ]

    pub splice_from-Spliced :
        ((mi : ℕ) → cancelled mi ≡ false)
        → (mi : ℕ) (cs : List Candidate) (acc : Splicing) → Recorded (listing acc.operators) mi cs
        → All (Holds (retracted mi cs)) acc.operators
        → (acc' : Splicing) × (splice_from cancelled flagged rec unstable scores fresh mi cs acc
            ≡ ok acc')
          × Spliced mi cs acc.operators acc'.operators
    unfolding splice_from carry_covered
    splice_from-Spliced alive mi [] acc r h = (acc, refl, (h, (λ chosen d. omega arith)))
    splice_from-Spliced alive mi (c ∷ cs) acc r h = elim (Bool-cases (flagged mi)) [
      | inr f ↦
          let (acc', e, (hs, sums)) =
            splice_from-Spliced alive (suc mi) cs (carry_covered rec c acc) r.1 (
              All-imp (Holds (retracted mi (c ∷ cs))) (Holds (retracted (suc mi) cs))
                (λ t k d.
                  ((k d).0, omega (arith, (k d).1, retracted_skip mi c cs (only t.operator) d f)))
                acc.operators h) in
          (
            acc',
            rw (splice_from, alive mi, f) e,
            (
              hs,
              (λ chosen d. omega (
                arith,
                sums chosen d,
                retracted_skip mi c cs chosen d f,
                remeasured_skip mi c cs chosen d f,
              )),
            ),
          )
      | inl y ↦
          let ((p, q), there) = r.0 y in
          let e = outcome_disposition (scores.outcomes mi) in
          let (acc₁, e₁, (hs₁, sums₁, same)) =
            rerun-Moves mi c acc p (retracted (suc mi) cs) q there (
              All-imp (Holds (retracted mi (c ∷ cs)))
                (Holds (λ chosen d. one_at c.operator p chosen d + retracted (suc mi) cs chosen d))
                (λ t k d. (
                  (k d).0,
                  omega (arith, (k d).1, retracted_take mi c cs (only t.operator) d p y q),
                ))
                acc.operators h) in
          let (acc', e₂, (hs, sums)) =
            splice_from-Spliced alive (suc mi) cs acc₁
              (Recorded-same (listing acc.operators) (listing acc₁.operators) same (suc mi) cs r.1)
              hs₁ in
          (
            acc',
            rw (splice_from, alive mi, y, e₁) e₂,
            (
              hs,
              (λ chosen d. omega (
                arith,
                sums chosen d,
                sums₁ chosen d,
                retracted_take mi c cs chosen d p y q,
                remeasured_take mi c cs chosen d y,
              )),
            ),
          )
    ]
