-- ===== src/Schedule/Pricing/Exact.antt =====
-- schedule.go `executingIndexes`: exactly the candidates that need a fresh execution.
use gomutant.Prelude.{
  ℕ, zero, suc, ◌+◌, ◌≤◌, ◌<◌, ◌≡◌, ◌≢◌, ◌↔◌, refl, sym, Bool, true, false, not, ◌&&◌, some, List,
  [], ◌∷◌, is_some, ltb, if◌then◌else◌, length, get_elem?, ◌==◌, nat_eq, eqb_iff, arith, any,
  Bool-cases, eq_sound, subst, inl, inr,
}
use gomutant.Record.{Work, Candidate, mutant}
use gomutant.Schedule.Pricing.{executes_candidate, executing_from, executing_indexes}

-- What makes a candidate's index execute: it is runnable and no reuse gate serves it.
abbrev pub Executes : Work → ℕ → Type 0
Executes w i =
    (is_some w.serve ≡ true → w.flagged i ≡ true)
    × (is_some w.extend ≡ true → w.extend_from ≤ i)
    × ((c : Candidate) × (get_elem? w.candidates i ≡ some c) × (c.replacements ≢ []))

get_elem?-lt {ℓ} :
    {A : Type ℓ} (xs : List A) (i : ℕ) → i < length xs → (a : A) × (get_elem? xs i ≡ some a)
get_elem?-lt [] i h = absurd (omega arith)
get_elem?-lt (x ∷ xs) zero h = (x, refl)
get_elem?-lt (x ∷ xs) (suc i) h = get_elem?-lt xs i (omega arith)

lt-get_elem? {ℓ} :
    {A : Type ℓ} (xs : List A) (i : ℕ) {a : A} → get_elem? xs i ≡ some a → i < length xs
lt-get_elem? [] i h = absurd (cc)
lt-get_elem? (x ∷ xs) zero h = omega arith
lt-get_elem? (x ∷ xs) (suc i) h = omega (arith, lt-get_elem? xs i h)

mutant_iff : (c : Candidate) → (is_some (mutant c) ≡ true) ↔ (c.replacements ≢ [])
unfolding mutant
mutant_iff c = ground arith

executes_candidate-lt :
    (w : Work) (i : ℕ)
    → i < length w.candidates
    → (b : Bool) × (executes_candidate w i ≡ some b) × ((b ≡ true) ↔ Executes w i)
unfolding executes_candidate
executes_candidate-lt w i h =
    let (c, e) = get_elem?-lt w.candidates i h in
    (
      (if is_some w.serve && not (w.flagged i)
          then false
          else if is_some w.extend && ltb i w.extend_from
          then false
          else is_some (mutant c)),
      ground arith,
      (
        λ y. (ground arith, ground arith, (c, e, ground (arith, mutant_iff c))),
        λ (a, b, (c', e', ne)). ground (arith, mutant_iff c),
      ),
    )

abbrev FromIff : Work → ℕ → ℕ → ℕ → Type 0
FromIff w mi n i = (mi ≤ i) × (i < mi + n) × Executes w i

-- The new index itself.
any_here :
    (w : Work) (mi n : ℕ) (b : Bool) (is : List ℕ)
    → (b ≡ true) ↔ Executes w mi
    → (any (λ j. j == mi) is ≡ true) ↔ FromIff w (suc mi) n mi
    → (any (λ j. j == mi) (if b then mi ∷ is else is) ≡ true) ↔ FromIff w mi (suc n) mi
unfolding any
any_here w mi n true is ex rest =
    (λ h. (omega arith, omega arith, ex.0 refl), λ y. ground (arith, eqb_iff mi mi))
any_here w mi n false is ex rest = (
  (λ h. let (l, u, x) = rest.0 h in absurd (omega arith)),
  λ (l, u, x). let q = ex.1 x in absurd (cc),
)

-- One more index in front.
any_step :
    (w : Work) (mi n : ℕ) (b : Bool) (is : List ℕ) (i : ℕ)
    → (b ≡ true) ↔ Executes w mi
    → (any (λ j. j == i) is ≡ true) ↔ FromIff w (suc mi) n i
    → (any (λ j. j == i) (if b then mi ∷ is else is) ≡ true) ↔ FromIff w mi (suc n) i
unfolding any
any_step w mi n b is i ex rest = elim (Bool-cases (mi == i)) [
  | inl e ↦
      subst (λ k. (any (λ j. j == k) (if b then mi ∷ is else is) ≡ true) ↔ FromIff w mi (suc n) k)
        (eq_sound mi i e)
        (any_here w mi n b is ex (
          subst (λ k. (any (λ j. j == k) is ≡ true) ↔ FromIff w (suc mi) n k)
            (sym (eq_sound mi i e)) rest))
  | inr e ↦ (
    (λ h. let (l, u, x) = rest.0 (ground arith) in (omega arith, omega arith, x)),
    λ (l, u, x). let r = rest.1 (ground arith, omega arith, x) in ground arith,
  )
]

-- The indexes from `mi` on, `n` of them.
executing_from-exact :
    (w : Work) (mi n : ℕ)
    → mi + n ≤ length w.candidates
    → (is : List ℕ) × (executing_from w mi n ≡ some is)
      × ((i : ℕ) → (any (λ j. j == i) is ≡ true) ↔ FromIff w mi n i)
unfolding executing_from any
executing_from-exact w mi zero h = ([], refl, λ i. (λ y. absurd (cc), λ y. absurd (omega arith)))
executing_from-exact w mi (suc n) h =
    let (b, e, ex) = executes_candidate-lt w mi (omega arith) in
    let (is, e', rest) = executing_from-exact w (suc mi) n (omega arith) in
    (if b then mi ∷ is else is, ground arith, λ i. any_step w mi n b is i ex (rest i))

-- The scan of a work item's candidates never panics on an index, and lists exactly the candidates
-- that a run executes: those with a replacement that neither the serve gate (unless flagged) nor
-- the extend prefix answers.
pub executing_indexes-exact :
    (w : Work)
    → (is : List ℕ) × (executing_indexes w ≡ some is)
      × ((i : ℕ) → (any (λ j. j == i) is ≡ true) ↔ Executes w i)
unfolding executing_indexes
executing_indexes-exact w =
    let (is, e, ex) = executing_from-exact w 0 (length w.candidates) (omega arith) in
    (
      is,
      e,
      λ i. (
        λ h. let (l, u, x) = (ex i).0 h in x,
        λ x.
            let (a, b, (c, ec, ne)) = x in
            (ex i).1 (omega arith, omega (arith, lt-get_elem? w.candidates i ec), x),
      ),
    )
