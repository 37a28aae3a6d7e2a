-- ===== src/Store.antt =====
-- store.go `mergeLayers`, `RecordCoverageBound`, `RecordRunBound` and `mergedBounds`, and
-- driftabort.go `completedFindings`: the two layers of records and the standing coverage bounds.
-- The range over the pending rows is in the order of their insertion; a key stands once in it.
pub mod Bank
pub mod Layers
use gomutant.Prelude.{
  Bool, true, false, not, Option, none, some, List, [], ◌∷◌, ◌++◌, Text, text_eq, ◌==◌,
  if◌then◌else◌, any, filter, map, text_lt,
}
use gomutant.Prelude.Map.{Map, get, put}
use gomutant.Prelude.Sort.{sort}
use gomutant.Record.{Finding, record_key, record_key_of}
use gomutant.Findings.Merge.{by_record_key, values}
use gomutant.Findings.Target.{CoverageBound, coverage_bound_of}

abbrev finding_lt : Finding → Finding → Bool
finding_lt a b =
    if a.symbol == b.symbol then text_lt a.selection b.selection else text_lt a.symbol b.symbol

-- The map of both layers, the overlay laid over the repository's.
abbrev pub layered : List Finding → List Finding → Map Text Finding
layered repo overlay = by_record_key overlay (by_record_key repo [])

unfoldable merge_layers : List Finding → List Finding → List Finding
unfolding by_record_key
merge_layers repo overlay = sort finding_lt (values (layered repo overlay))

-- `pendingBounds[bound.Selection] = bound`.
unfoldable record_coverage_bound : CoverageBound → Map Text CoverageBound → Map Text CoverageBound
unfolding put
record_coverage_bound bound pending = put bound.selection bound pending

-- `key` is the key of the run's selection.
unfoldable record_run_bound :
    List Finding → Text → Text → Bool → Map Text CoverageBound → Map Text CoverageBound
unfolding record_coverage_bound coverage_bound_of
record_run_bound findings key run_id whole_tree pending =
    if not whole_tree then pending else elim (coverage_bound_of findings key run_id) [
      | none ↦ pending
      | some bound ↦ record_coverage_bound bound pending
    ]

-- `delete(m, k)`.
unfoldable delete {ℓ} : {V : Type ℓ} → Text → Map Text V → Map Text V
delete k [] = []
delete k ((j, v) ∷ m) = let rest = delete k m in if j == k then rest else (j, v) ∷ rest

unfoldable lay_bounds : Map Text CoverageBound → Map Text CoverageBound → Map Text CoverageBound
unfolding delete put
lay_bounds [] by_sel = by_sel
lay_bounds ((sel, b) ∷ pending) by_sel =
    lay_bounds pending (elim b.unreached [ [] ↦ delete sel by_sel | _ ∷ _ ↦ put sel b by_sel ])

unfoldable bounds_by_selection :
    List CoverageBound → Map Text CoverageBound → Map Text CoverageBound
unfolding put
bounds_by_selection [] m = m
bounds_by_selection (b ∷ bs) m = bounds_by_selection bs (put b.selection b m)

abbrev bound_lt : CoverageBound → CoverageBound → Bool
bound_lt a b = text_lt a.selection b.selection

unfoldable merged_bounds : List CoverageBound → Map Text CoverageBound → List CoverageBound
unfolding lay_bounds bounds_by_selection
merged_bounds standing pending =
    sort bound_lt (values (lay_bounds pending (bounds_by_selection standing [])))

-- `drifted` names the refused symbols.
unfoldable completed_findings : List Finding → List Text → List Finding
completed_findings findings drifted = filter (λ f. not (any (λ s. s == f.symbol) drifted)) findings
