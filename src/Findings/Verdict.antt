-- ===== src/Findings/Verdict.antt =====
-- findings.go `AnnotateSelectionVerdicts` with `selectionVerdictFrom`: the advisory verdicts on a
-- survivor in the records of its symbol under other build selections.
pub mod Laws
use gomutant.Prelude.{
  ℕ, Bool, true, false, not, ◌&&◌, ◌||◌, ◌++◌, Option, none, some, List, [], ◌∷◌, Text, text_eq,
  codes, ◌==◌, if◌then◌else◌, is_some, find, filter, length, ltb, map, text_lt,
}
use gomutant.Prelude.Sort.{sort}
use gomutant.Record.{Finding, Survivor, Kill, SurvivorKey, key_eq, Attestation}
use gomutant.Findings.Disposition.{
  oracle_execution_policy_issue, survivor_key, survivor_at, attested_at,
}

pub record SelectionVerdict : Type 0 where
  pub selection : Text
  pub disposition : Text
  pub killer : Text
  pub reason : Text

abbrev killed_at : SurvivorKey → Kill → Bool
killed_at k x = record { position = x.position; operator = x.operator } == k

abbrev verdict : Finding → Text → Text → Text → SelectionVerdict
verdict other disposition killer reason = record {
  selection = other.selection;
  disposition = disposition;
  killer = killer;
  reason = reason;
}

-- The verdict of a record on a survivor of another selection, by the first match of each list.
unfoldable selection_verdict_from : Finding → SurvivorKey → Text → Option SelectionVerdict
selection_verdict_from other k site = elim (find (killed_at k) other.kills) [
  | some x ↦ some (verdict other (codes "killed") x.killer [])
  | none ↦ elim (find (survivor_at k) other.survivors) [
    | none ↦ none
    | some s ↦
        if not (site == []) && not (s.site == []) && not (site == s.site)
        then none
        else elim (find (attested_at k) other.attested) [
          | some a ↦ some (verdict other (codes "attested") [] a.reason)
          | none ↦ some (verdict other (codes "survived") [] [])
        ]
  ]
]

-- The record's place in `bySymbol`.
abbrev pub of_symbol : Text → Finding → Bool
of_symbol symbol f = (f.skipped == []) && (f.symbol == symbol)

-- The guards of the inner loop; a record is passed over with its own selection.
abbrev comparable : Finding → Finding → Bool
comparable f other =
    of_symbol f.symbol other
    && not (other.selection == f.selection)
    && (oracle_execution_policy_issue other == [])
    && (other.body_hash == f.body_hash)
    && (other.operator_set == f.operator_set)

unfoldable collect_verdicts : List Finding → SurvivorKey → Text → List SelectionVerdict
unfolding selection_verdict_from
collect_verdicts [] k site = []
collect_verdicts (other ∷ others) k site =
    let rest = collect_verdicts others k site in
    elim (selection_verdict_from other k site) [ none ↦ rest | some v ↦ v ∷ rest ]

abbrev by_selection : SelectionVerdict → SelectionVerdict → Bool
by_selection a b = text_lt a.selection b.selection

abbrev pub with_survivors : (Survivor → Survivor) → Finding → Finding
with_survivors g f = record f { survivors = map g f.survivors }

-- `formatSelectionVerdict`: an empty selection reads `default`.
unfoldable format_selection_verdict : SelectionVerdict → Text
format_selection_verdict v =
    let sel = if v.selection == [] then codes "default" else v.selection in
    if v.disposition == codes "killed"
    then sel ++ codes ": killed by " ++ v.killer
    else if v.disposition == codes "attested"
    then sel ++ codes ": attested (" ++ v.reason ++ codes ")"
    else sel ++ codes ": survived"

-- The lines, joined by line feeds.
unfoldable format_selection_verdicts : List SelectionVerdict → Text
unfolding format_selection_verdict
format_selection_verdicts [] = []
format_selection_verdicts (v ∷ vs) =
    let rest = format_selection_verdicts vs in
    let line = format_selection_verdict v in elim vs [ [] ↦ line | _ ∷ _ ↦ line ++ 10 ∷ rest ]

-- What one survivor is told of the other records.
unfoldable pub other_selections : List Finding → Finding → Survivor → Text
unfolding collect_verdicts format_selection_verdicts
other_selections all f s =
    format_selection_verdicts
      (sort by_selection (collect_verdicts (filter (comparable f) all) (survivor_key s) s.site))

unfoldable pub annotate : List Finding → Finding → Finding
unfolding other_selections oracle_execution_policy_issue
annotate all f =
    if not (f.skipped == []) || ltb (length (filter (of_symbol f.symbol) all)) 2
    then f
    else if not (oracle_execution_policy_issue f == [])
    then with_survivors (λ s. record s { other_selection = [] }) f
    else with_survivors (λ s. record s { other_selection = other_selections all f s }) f

unfoldable pub annotate_selection_verdicts : List Finding → List Finding
unfolding annotate
annotate_selection_verdicts all = map (annotate all) all
