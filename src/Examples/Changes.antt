-- ===== src/Examples/Changes.antt =====
-- addedlines.go on a diff whose content imitates a header, and delta.go on a record with survivors.
use gomutant.Prelude.{
  ℕ, ◌-◌, ◌≡◌, ◌⊎◌, refl, Bool, true, Option, none, some, Text, codes, [], ◌∷◌, ok, any, text_beq,
  All,
}
use gomutant.Prelude.Strings.{starts_with, fields}
use gomutant.Record.{Finding, Survivor}
use gomutant.Examples.Blank.{blank}
use gomutant.Findings.Disposition.{open_survivors}
use gomutant.Delta.{DeltaCut, Places, cut_survivors}
use gomutant.Delta.Laws.{Split, cut_survivors-splits}
use gomutant.Gitref.{parse_hunk_added, parse_unified_added}
use gomutant.Gitref.Laws.{FileDiff, Hunk, IsFile, render, add_files, parse_unified_added-render}

-- A number of one digit.
abbrev atoi : Text → Option ℕ
atoi (d ∷ []) = some (d - 48)
atoi _ = none

abbrev wanted : Text → Bool
wanted path = true

abbrev hunk : Hunk
hunk = record {
  header = codes "@@ -1 +2,3 @@";
  added = (2, 3);
  content = codes "+++ b/evil.go" ∷ codes "+x" ∷ codes "+y" ∷ [];
}

abbrev file : FileDiff
file = record { path = codes "a.go"; head = codes "--- a/a.go" ∷ []; hunks = hunk ∷ [] }

file_reads : All (IsFile atoi wanted) (file ∷ [])
unfolding starts_with parse_hunk_added fields any text_beq
file_reads = (
  (
    refl,
    refl,
    (((refl, refl), refl), tt),
    ((refl, refl, ((refl, refl), ((refl, refl), ((refl, refl), tt)))), tt),
  ),
  tt,
)

parse_unified_added-render_example :
    parse_unified_added atoi wanted (render (file ∷ [])) []
    ≡ ok (add_files atoi wanted (file ∷ []) [])
parse_unified_added-render_example =
    parse_unified_added-render atoi wanted (file ∷ []) [] file_reads

abbrev survivor : Text → Survivor
survivor position = record {
  position = position;
  operator = codes "negate";
  extent = [];
  site = [];
  execution = [];
  withdrawn_killer = [];
  other_selection = [];
}

abbrev surviving : Finding
surviving = record blank {
  symbol = codes "p.F";
  body_hash = codes "h";
  survivors = survivor (codes "a.go:3:5") ∷ survivor (codes "a.go:9:5#1") ∷ [];
}

abbrev places : Places
places = record {
  body_hash = λ s. some (codes "h");
  package_dir = λ s. some (codes "p");
  tree_relative = λ dir name. some name;
}

abbrev change : DeltaCut
change = record {
  ref = codes "main";
  added = (codes "a.go", record { from = 2; to = 5 } ∷ []) ∷ [];
  changed = λ s. true;
}

cut_survivors-splits_example :
    let d = cut_survivors atoi places change surviving in
    ((d.delta ≡ []) × (d.remainder ≡ open_survivors surviving) × (d.placed ≡ []))
    ⊎ ((dir : Text) × (change.changed surviving.symbol ≡ true)
        × (places.body_hash surviving.symbol ≡ some surviving.body_hash)
        × (places.package_dir surviving.symbol ≡ some dir)
        × Split atoi places change dir 0
            (open_survivors surviving)
            (record { delta = []; remainder = []; placed = [] })
            d)
cut_survivors-splits_example = cut_survivors-splits atoi places change surviving
