-- ===== src/Findings/Merge.antt =====
-- findings.go `MergeFindings`, `MergeWholeFindingsForSelection`, `MergeWholeFindings` and
-- `RenderedFindings`: a run's findings join the document's. A range over the map of records visits
-- it in the order of first insertion, where Go leaves the order open.
pub mod Accounts
pub mod Laws
pub mod Standing
use gomutant.Prelude.{
  Bool, true, false, not, ◌&&◌, ◌||◌, Option, none, some, List, [], ◌∷◌, ◌++◌, Text, text_eq, ◌==◌,
  if◌then◌else◌, is_some, any, filter, map,
}
use gomutant.Prelude.Map.{Map, get, put}
use gomutant.Record.{Finding, Attestation, record_key, record_key_of}
use gomutant.Findings.Graft.{AttestationShed, Snapshot, Grafted, graft_dispositions_against}
use gomutant.Findings.Verdict.{annotate_selection_verdicts}

-- The run-start snapshot of attested dispositions per record key; `none` is Go's nil map.
abbrev pub Snapshots : Type 0
Snapshots = Option (Map Text (List Attestation))

abbrev list_at : Text → Map Text (List Attestation) → List Attestation
list_at k m = elim (get k m) [ none ↦ [] | some xs ↦ xs ]

-- `snapList`, with the fallback to the bare symbol under the default selection.
unfoldable pub snapshot_of : Snapshots → Finding → Snapshot
unfolding get record_key_of
snapshot_of none f = none
snapshot_of (some m) f =
    if not (is_some (get (record_key f) m)) && (f.selection == [])
    then some (list_at f.symbol m)
    else some (list_at (record_key f) m)

abbrev pub sheds_of : Text → List AttestationShed → List AttestationShed
sheds_of symbol = map {A = AttestationShed} (λ d. record d { symbol = symbol })

abbrev pub grafted : Snapshots → Finding → Finding → Grafted
grafted snapshot old f =
    graft_dispositions_against old.attested f.attested old.withdrawn f.withdrawn f.survivors
      (snapshot_of snapshot f)

-- A fresh record with the dispositions that it takes over from the one it replaces.
unfoldable pub replacing : Snapshots → Finding → Finding → Finding
unfolding graft_dispositions_against snapshot_of
replacing snapshot old f = record f {
  attested = (grafted snapshot old f).attested;
  withdrawn = (grafted snapshot old f).withdrawn;
}

-- The state of the merge: the records by key, and the sheds so far.
abbrev pub Merge : Type 0
Merge = Map Text Finding × List AttestationShed

unfoldable pub merge_one : Snapshots → Finding → Merge → Merge
unfolding replacing get put record_key_of
merge_one snapshot f (by_key, shed) =
    if not (f.skipped == []) then (by_key, shed) else elim (get (record_key f) by_key) [
      | none ↦ (put (record_key f) f by_key, shed)
      | some old ↦ (
        put (record_key f) (replacing snapshot old f) by_key,
        shed ++ sheds_of f.symbol (grafted snapshot old f).shed,
      )
    ]

unfoldable pub merge_all : Snapshots → List Finding → Merge → Merge
unfolding merge_one
merge_all snapshot [] m = m
merge_all snapshot (f ∷ fresh) m = merge_all snapshot fresh (merge_one snapshot f m)

unfoldable pub by_record_key : List Finding → Map Text Finding → Map Text Finding
unfolding put record_key_of
by_record_key [] m = m
by_record_key (f ∷ fs) m = by_record_key fs (put (record_key f) f m)

abbrev pub values {ℓ κ} : {K : Type ℓ} {V : Type κ} → Map K V → List V
values m = map (λ kv. kv.1) m

-- A run finding as the document holds it, with the marks of the run.
unfoldable rendered : Map Text Finding → Finding → Finding
unfolding get record_key_of
rendered post_merge f =
    let marked : Finding → Finding =
      λ m. record m { cached = f.cached; skipped = f.skipped; unreached = f.unreached } in
    elim (get (record_key f) post_merge) [
      | some m ↦ marked m
      | none ↦
          if f.selection == []
          then elim (get f.symbol post_merge) [ some m ↦ marked m | none ↦ f ]
          else f
    ]

unfoldable rendered_findings : List Finding → Map Text Finding → List Finding
unfolding rendered
rendered_findings findings post_merge = map (rendered post_merge) findings

unfoldable pub merge_findings :
    List Finding → List Finding → Snapshots → List Finding × List AttestationShed
unfolding merge_all by_record_key annotate_selection_verdicts
merge_findings prior fresh snapshot =
    let (by_key, shed) = merge_all snapshot fresh (by_record_key prior [], []) in
    (annotate_selection_verdicts (values by_key), shed)

-- What survives a whole-tree run of `sel_key`: another selection's, a discovered or a shaped one.
abbrev pub stands : List Text → Text → Finding → Bool
stands discovered sel_key f =
    not (f.selection == sel_key) || any (λ s. s == f.symbol) discovered || f.has_shape

unfoldable pub merge_whole_findings_for_selection :
    List Finding → List Finding → List Text → Snapshots → Text → List Finding × List AttestationShed
unfolding merge_findings
merge_whole_findings_for_selection prior fresh discovered snapshot sel_key =
    let (merged, shed) = merge_findings prior fresh snapshot in
    (annotate_selection_verdicts (filter (stands discovered sel_key) merged), shed)

unfoldable merge_whole_findings :
    List Finding → List Finding → List Text → Snapshots → List Finding × List AttestationShed
unfolding merge_whole_findings_for_selection
merge_whole_findings prior fresh discovered snapshot =
    merge_whole_findings_for_selection prior fresh discovered snapshot []
