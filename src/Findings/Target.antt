-- ===== src/Findings/Target.antt =====
-- findings.go `AttestFindingWithOptions`, `RecordFilter.Admits`, `budgetCovers` and
-- `CoverageBoundOf`: the faces' operations on a document's rows. `strings.TrimSpace` is on ASCII.
pub mod Laws
use gomutant.Prelude.{
  ℕ, zero, suc, ◌+◌, ◌≤◌, Bool, true, false, not, ◌&&◌, ◌||◌, Option, none, some, List, [], ◌∷◌,
  ◌++◌, Text, text_eq, ◌==◌, nat_eq, leb, ltb, min, if◌then◌else◌, any, Result, err, ok, get_elem?,
  text_lt, filter, map,
}
use gomutant.Prelude.Sort.{sort}
use gomutant.Record.{Finding, SurvivorKey}
use gomutant.Findings.Disposition.{Refusal, attest, reattest, withdraw_attestation}
use gomutant.Findings.Verdict.{annotate_selection_verdicts}

pub record AttestOptions : Type 0 where
  pub selection : Text
  pub has_selection : Bool
  pub reattest : Bool
  pub withdraw : Bool

pub data TargetError : Type 0 where
  conflicting_options blank_reason no_finding multiple_findings : TargetError
  refused : Refusal → TargetError

-- A white space byte: tab to carriage return, or the space.
abbrev pub is_space : ℕ → Bool
is_space b = (leb 9 b && leb b 13) || (b == 32)

-- `strings.TrimSpace(reason) == ""`.
unfoldable is_blank : Text → Bool
is_blank [] = true
is_blank (b ∷ s) = is_space b && is_blank s

-- The first loop: the record of the symbol under the selection.
unfoldable pub scoped_from : Text → Text → ℕ → List Finding → Result TargetError ℕ
scoped_from symbol selection i [] = err no_finding
scoped_from symbol selection i (f ∷ all) =
    let rest = scoped_from symbol selection (suc i) all in
    if (f.symbol == symbol) && (f.selection == selection) then ok i else rest

-- What stands after the second loop, by `nonDefault`.
abbrev pub sole : List ℕ → Result TargetError ℕ
sole [] = err no_finding
sole (i ∷ []) = ok i
sole (i ∷ j ∷ is) = err multiple_findings

-- The second loop, which breaks at the default selection.
unfoldable pub unscoped_from : Text → ℕ → List ℕ → List Finding → Result TargetError ℕ
unscoped_from symbol i others [] = sole others
unscoped_from symbol i others (f ∷ all) =
    let rest =
      unscoped_from symbol (suc i) (if f.symbol == symbol then others ++ i ∷ [] else others) all in
    if (f.symbol == symbol) && (f.selection == []) then ok i else rest

abbrev pub is_scoped : AttestOptions → Bool
is_scoped opts = opts.has_selection || not (opts.selection == [])

unfoldable pub target_index : List Finding → Text → AttestOptions → Result TargetError ℕ
unfolding scoped_from unscoped_from
target_index all symbol opts =
    if is_scoped opts
    then scoped_from symbol opts.selection 0 all
    else unscoped_from symbol 0 [] all

-- The `switch` on the options.
unfoldable dispose : AttestOptions → SurvivorKey → Text → Finding → Result Refusal Finding
unfolding attest reattest withdraw_attestation
dispose opts k reason f =
    if opts.withdraw
    then withdraw_attestation k reason f
    else if opts.reattest
    then reattest k reason f
    else attest k reason f

unfoldable set_at {ℓ} : {A : Type ℓ} → ℕ → A → List A → List A
set_at i a [] = []
set_at zero a (x ∷ xs) = a ∷ xs
set_at (suc i) a (x ∷ xs) = x ∷ set_at i a xs

-- The rows after the disposition, with the index of the disposed one.
unfoldable attest_finding_with_options :
    List Finding → Text → SurvivorKey → Text → AttestOptions → Result TargetError (List Finding × ℕ)
unfolding is_blank target_index dispose set_at annotate_selection_verdicts
attest_finding_with_options all symbol k reason opts =
    if opts.reattest && opts.withdraw
    then err conflicting_options
    else if is_blank reason
    then err blank_reason
    else elim (target_index all symbol opts) [
      | err x ↦ err x
      | ok i ↦ elim (get_elem? all i) [
        | none ↦ err no_finding
        | some f ↦ elim (dispose opts k reason f) [
          | err x ↦ err (refused x)
          | ok g ↦ ok (annotate_selection_verdicts (set_at i g all), i)
        ]
      ]
    ]

pub record RecordFilter : Type 0 where
  pub label : Text
  pub symbol : Text
  pub run : Text
  pub selection : Text
  pub has_selection : Bool

unfoldable admits : RecordFilter → Finding → Bool
admits r f =
    if not (r.label == []) && not (any (λ l. l == r.label) f.labels)
    then false
    else if not (r.symbol == []) && not (f.symbol == r.symbol)
    then false
    else if not (r.run == []) && not (f.run == r.run)
    then false
    else if (r.has_selection || not (r.selection == [])) && not (f.selection == r.selection)
    then false
    else true

-- Whether the selected prefix covers a request, 0 asking for all.
unfoldable budget_covers : Finding → ℕ → Bool
budget_covers f request =
    leb (if ltb 0 request then min request f.candidate_count else f.candidate_count) f.generated

pub record CoverageBound : Type 0 where
  pub selection : Text
  pub run : Text
  pub unreached : List Text

-- `slices.Compact`: of equal neighbours the first stays.
unfoldable compact : List Text → List Text
compact [] = []
compact (x ∷ xs) = elim (compact xs) [
  | [] ↦ x ∷ []
  | y ∷ ys ↦ if x == y then x ∷ ys else x ∷ y ∷ ys
]

-- `key` is the key of the selection.
unfoldable pub coverage_bound_of : List Finding → Text → Text → Option CoverageBound
unfolding compact
coverage_bound_of findings key run_id =
    if key == []
    then none
    else some (record {
      selection = key;
      run = run_id;
      unreached = compact (sort text_lt (map (λ f. f.symbol) (filter (λ f. f.unreached) findings)));
    })
