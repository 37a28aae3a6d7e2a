-- ===== src/Reconcile/Counts/Extend.antt =====
-- reconcile.go `extendFindingCounts`: a budget extension conserves the candidate accounting.
use gomutant.Prelude.{
  ap₂, codes, ℕ, zero, suc, ◌+◌, ◌≤◌, ◌≡◌, refl, sym, ap, ◌∙◌, Bool, true, false, some, List, [],
  ◌∷◌, ◌++◌, Text, text_eq, nat_eq, eq_iff, if◌then◌else◌, arith, length, drop, append_assoc,
  append-nil, length-append,
}
use gomutant.Prelude.Sort.{sort}
use gomutant.Record.{Finding, Survivor, Kill, CandidateEvidence, Candidate, Exemption}
use gomutant.Exemptions.{unstable_for_buckets}
use gomutant.Reconcile.Ceiling.{Durations, WindowScores, RunBounds, merge_scored_facts}
use gomutant.Schedule.Gate.{MutantOutcome, mutant_discarded, mutant_killed, mutant_survived}
use gomutant.Reconcile.Counts.{
  Disposition, killed, survived, discarded, outcome_disposition, score_operator, by_operator,
  sum_by, sum_operator_totals, Accounts, record_outcome, extend_one, extend_from, extended,
  kills_complete, suffix_execution, accounts_of, extend_finding_counts, new_survivor,
}
use gomutant.Reconcile.Counts.Rows.{
  row, kill_row, if_survived, if_killed, survivor_rows, kill_rows, new_survivor-row,
}
use gomutant.Reconcile.Counts.Sums.{
  weigh, with_outcome, counted, counted-Reads, same_disposition, score_operator-sum, sum_by-sort,
  weigh_all,
}

abbrev one : Disposition → Disposition → ℕ
one e d = if same_disposition e d then 1 else 0

-- What the accounts gain of each outcome, and the rows they gain.
abbrev Gains : Bool → (Disposition → ℕ) → List Survivor → List Kill → Accounts → Accounts → Type 0
Gains complete n survivors kills acc acc' =
    ((d : Disposition) → sum_by (counted d) acc'.operators ≡ sum_by (counted d) acc.operators + n d)
    × (length acc'.survivors ≡ length acc.survivors + n survived)
    × (complete ≡ true → length acc'.kills ≡ length acc.kills + n killed)
    × (acc'.survivors ≡ acc.survivors ++ survivors)
    × (complete ≡ true → acc'.kills ≡ acc.kills ++ kills)

length_snoc {ℓ} : {A : Type ℓ} (xs : List A) (a : A) → length (xs ++ a ∷ []) ≡ length xs + 1
length_snoc xs a = omega (arith, length-append xs (a ∷ []))

module _ (scores : WindowScores) (execution : Text) (complete : Bool) (mi : ℕ) (c : Candidate) where
  record_outcome-Gains :
      (o : MutantOutcome) (acc acc' : Accounts)
      → ((d : Disposition)
          → sum_by (counted d) acc'.operators
            ≡ sum_by (counted d) acc.operators + one (outcome_disposition o) d)
      → acc'.survivors ≡ acc.survivors
      → acc'.kills ≡ acc.kills
      → Gains complete
          (one (outcome_disposition o))
          (if_survived o (row scores execution mi c))
          (if_killed o (kill_row scores mi c))
          acc
          (record_outcome (outcome_disposition o) scores execution complete mi c acc')
  unfolding record_outcome outcome_disposition
  record_outcome-Gains mutant_survived acc acc' h s k = (
    h,
    length_snoc acc'.survivors (new_survivor c execution scores.flips mi)
        ∙ ap (λ xs. length xs + 1) s,
    (λ _. ap length k ∙ omega arith),
    ap₂ (λ xs r. xs ++ r ∷ []) s (new_survivor-row scores execution mi c),
    (λ _. k ∙ sym (append-nil acc.kills)),
  )
  record_outcome-Gains mutant_killed acc acc' h s k = (
    h,
    ap length s ∙ omega arith,
    (λ y. rw y (length_snoc acc'.kills (kill_row scores mi c) ∙ ap (λ xs. length xs + 1) k)),
    s ∙ sym (append-nil acc.survivors),
    (λ y. rw y (ap (λ xs. xs ++ kill_row scores mi c ∷ []) k)),
  )
  record_outcome-Gains mutant_discarded acc acc' h s k = (
    h,
    ap length s ∙ omega arith,
    (λ _. ap length k ∙ omega arith),
    s ∙ sym (append-nil acc.survivors),
    (λ _. k ∙ sym (append-nil acc.kills)),
  )

  extend_one-Gains :
      (acc : Accounts)
      → Gains complete
          (one (outcome_disposition (scores.outcomes mi)))
          (if_survived (scores.outcomes mi) (row scores execution mi c))
          (if_killed (scores.outcomes mi) (kill_row scores mi c))
          acc
          (extend_one scores execution complete mi c acc)
  unfolding extend_one
  extend_one-Gains acc =
      let e = outcome_disposition (scores.outcomes mi) in
      record_outcome-Gains (scores.outcomes mi) acc
        (record acc { operators = score_operator c.operator e acc.operators })
        (λ d.
          score_operator-sum c.operator e (one e d) (counted d) (counted-Reads d c.operator e)
            acc.operators)
        refl refl

module _ (cancelled : ℕ → Bool) (scores : WindowScores) (execution : Text) (complete : Bool) where
  extend_from-Gains :
      ((mi : ℕ) → cancelled mi ≡ false)
      → (mi : ℕ) (cs : List Candidate) (acc : Accounts)
      → (acc' : Accounts) × (extend_from cancelled scores execution complete mi cs acc ≡ some acc')
        × Gains complete
            (λ d. weigh (with_outcome d) scores.outcomes mi cs)
            (survivor_rows scores execution mi cs)
            (kill_rows scores mi cs)
            acc
            acc'
  unfolding extend_from
  extend_from-Gains alive mi [] acc = (
    acc,
    refl,
    (
      (λ d. omega arith),
      omega arith,
      (λ _. omega arith),
      sym (append-nil acc.survivors),
      (λ _. sym (append-nil acc.kills)),
    ),
  )
  extend_from-Gains alive mi (c ∷ cs) acc =
      let (t₁, s₁, k₁, p₁, q₁) = extend_one-Gains scores execution complete mi c acc in
      let (acc', e, (t₂, s₂, k₂, p₂, q₂)) =
        extend_from-Gains alive (suc mi) cs (extend_one scores execution complete mi c acc) in
      let ss = survivor_rows scores execution (suc mi) cs in
      let ks = kill_rows scores (suc mi) cs in
      (
        acc',
        rw (extend_from, alive mi) e,
        (
          (λ d. omega (arith, t₁ d, t₂ d)),
          omega (arith, s₁, s₂),
          (λ y. omega (arith, k₁ y, k₂ y)),
          p₂
              ∙ ap (λ xs. xs ++ ss) p₁
              ∙ append_assoc acc.survivors
                  (if_survived (scores.outcomes mi) (row scores execution mi c)) ss,
          (λ y.
              q₂ y
              ∙ ap (λ xs. xs ++ ks) (q₁ y)
              ∙ append_assoc acc.kills (if_killed (scores.outcomes mi) (kill_row scores mi c)) ks),
        ),
      )

length-drop {ℓ} :
    {A : Type ℓ} (n : ℕ) (xs : List A) → n ≤ length xs → n + length (drop n xs) ≡ length xs
length-drop zero xs h = omega arith
length-drop (suc n) [] h = absurd (omega arith)
length-drop (suc n) (x ∷ xs) h = omega (arith, length-drop n xs)

-- A record whose totals and rows agree, over its first `from` candidates.
abbrev pub Conserved : ℕ → Finding → Type 0
Conserved from rec =
    let (k, d, s) = sum_operator_totals rec.operators in
    (rec.killed ≡ k)
    × (rec.discarded ≡ d)
    × (length rec.survivors ≡ s)
    × (rec.mutants ≡ rec.killed + length rec.survivors)
    × (rec.mutants + rec.discarded ≡ from)

-- A budget extension that is not cancelled gives a finding. If the candidate accounting of the
-- record agreed over its prefix, that of the extended finding agrees over all the candidates. Its
-- survivors are the recorded ones and then, in the order of the suffix, the row of each candidate
-- that survived, which a withdrawn kill marks and an unstable record too; and where every recorded
-- kill was attributed, its kills are the recorded ones and then those of the suffix.
pub extend_finding_counts-conserves :
    (durations : Durations) (clause : Text → Text) (exemptions : List Exemption)
    (cancelled : ℕ → Bool) (rec : Finding) (candidates : List Candidate) (from : ℕ)
    (scores : WindowScores) (fresh : List CandidateEvidence) (budget : ℕ) (run : RunBounds)
    → ((mi : ℕ) → cancelled mi ≡ false)
    → from ≤ length candidates
    → Conserved from rec
    → (f : Finding) × (extend_finding_counts durations clause exemptions cancelled rec candidates
          from scores fresh budget run
        ≡ some f)
      × Conserved (length candidates) f
      × (f.generated ≡ length candidates)
      × (f.survivors
          ≡ rec.survivors
            ++ survivor_rows scores
                (if unstable_for_buckets clause exemptions
                    (merge_scored_facts durations rec scores run)
                  then codes "unstable-oracle"
                  else [])
                from
                (drop from candidates))
      × (length rec.kills ≡ rec.killed
          → (f.kills ≡ rec.kills ++ kill_rows scores from (drop from candidates))
            × (length f.kills ≡ f.killed))
unfolding extend_finding_counts extended merge_scored_facts sum_operator_totals
extend_finding_counts-conserves durations clause exemptions cancelled recorded candidates from
      scores fresh budget run alive le (ck, cd, cs, cm, ct) =
    let rec = merge_scored_facts durations recorded scores run in
    let (acc, e, (t, s, k, rows, kills)) =
      extend_from-Gains cancelled scores
        (suffix_execution (unstable_for_buckets clause exemptions rec)) (kills_complete rec) alive
        from (drop from candidates) (accounts_of rec) in
    let total : (d : Disposition)
        → sum_by (counted d) (sort by_operator acc.operators)
          ≡ sum_by (counted d) rec.operators
            + weigh (with_outcome d) scores.outcomes from (drop from candidates) =
      λ d. sum_by-sort by_operator (counted d) acc.operators ∙ t d in
    let all = weigh_all scores.outcomes from (drop from candidates) in
    let rest = length-drop from candidates le in
    (
      extended rec (length candidates) fresh budget (kills_complete rec) acc,
      rw (extend_finding_counts, e) refl,
      (
        refl,
        refl,
        omega (arith, s, cs, total survived),
        omega (arith, s, cs, total survived),
        omega (arith, total killed, total discarded, total survived, all, rest, cm, ct, ck, cd, cs),
      ),
      refl,
      rows,
      (λ full.
          let y = (eq_iff (length rec.kills) rec.killed).1 full in
          (
            ap (λ b. if b then acc.kills else []) y ∙ kills y,
            ap (λ b. length (if b then acc.kills else [])) y
                ∙ omega (arith, k y, ck, total killed, full),
          )),
    )
