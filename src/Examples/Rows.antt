-- ===== src/Examples/Rows.antt =====
-- findings.go: a document of two rows of one symbol, under two build selections.
use gomutant.Prelude.{
  some, ◌≡◌, refl, false, none, List, [], ◌∷◌, Text, codes, ok, text_beq, map, filter, any,
}
use gomutant.Record.{Finding, record_key_of}
use gomutant.Examples.Blank.{blank}
use gomutant.Findings.Verdict.Laws.{plain}
use gomutant.Findings.Merge.{merge_findings, merge_whole_findings_for_selection}
use gomutant.Findings.Merge.Laws.{measures}
use gomutant.Findings.Merge.Standing.{keyed, last_of, merge_findings-stands, merge_whole-stands}
use gomutant.Findings.Target.{AttestOptions, target_index, unscoped_from}

abbrev row : Text → Text → Finding
row symbol selection = record blank { symbol = symbol; selection = selection }

abbrev rows : List Finding
rows = row (codes "p.F") (codes "tags=a") ∷ row (codes "p.F") [] ∷ []

abbrev defaults : AttestOptions
defaults = record { selection = []; has_selection = false; reattest = false; withdraw = false }

targets : target_index rows (codes "p.F") defaults ≡ ok 1
unfolding target_index unscoped_from text_beq
targets = refl

-- The run measures another symbol.
abbrev fresh : List Finding
fresh = row (codes "p.G") [] ∷ []

default_row : last_of (codes "p.F") rows ≡ some (row (codes "p.F") [])
unfolding record_key_of text_beq
default_row = refl

not_measured : any (measures (codes "p.F")) fresh ≡ false
unfolding any record_key_of text_beq
not_measured = refl

merge_findings-stands_example :
    map plain (filter (keyed (codes "p.F")) (merge_findings rows fresh none).0)
    ≡ plain (row (codes "p.F") []) ∷ []
merge_findings-stands_example =
    merge_findings-stands rows fresh none (codes "p.F") (row (codes "p.F") []) default_row
      not_measured

-- The symbol was discovered, so its record stands.
merge_whole-stands_example :
    map plain (
      filter
        (keyed (codes "p.F"))
        (merge_whole_findings_for_selection rows fresh (codes "p.F" ∷ []) none []).0)
    ≡ plain (row (codes "p.F") []) ∷ []
unfolding any text_beq
merge_whole-stands_example =
    merge_whole-stands rows fresh none (codes "p.F") (row (codes "p.F") []) (codes "p.F" ∷ []) []
      default_row not_measured
