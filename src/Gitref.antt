-- ===== src/Gitref.antt =====
-- internal/gitref/addedlines.go: the lines that a unified diff adds. The diff comes as its lines,
-- without their line feeds; `atoi` is `strconv.Atoi` on numbers that are not negative, as git
-- writes them.
pub mod Laws
use gomutant.Prelude.{
  ℕ, ◌+◌, Bool, true, false, ◌&&◌, ◌||◌, not, Option, none, some, List, [], ◌∷◌, ◌++◌, Text,
  text_eq, nat_eq, codes, ◌==◌, if◌then◌else◌, ltb, drop, length, Result, err, ok,
}
use gomutant.Prelude.Map.{Map, get, put}
use gomutant.Prelude.Strings.{starts_with, cut, fields}
use gomutant.Delta.{LineRange}

pub data DiffError : Type 0 where
  unexpected_header malformed_hunk : Text → DiffError

-- The name in a `+++ ` line, up to a tab: the file's path, and none for a deletion.
unfoldable pub header_name : Text → Result DiffError Text
unfolding cut starts_with
header_name line =
    let name = (cut 9 (drop 4 line)).0 in
    if name == codes "/dev/null"
    then ok []
    else if starts_with (codes "b/") name
    then ok (drop 2 name)
    else err (unexpected_header line)

abbrev pub Added : Type 0
Added = Map Text (List LineRange)

-- `added[path] = append(added[path], r)`.
unfoldable append_range : Text → LineRange → Added → Added
unfolding get put
append_range path r added = elim (get path added) [
  | none ↦ put path (r ∷ []) added
  | some rs ↦ put path (rs ++ r ∷ []) added
]

unfoldable pub add_hunk : Text → ℕ × ℕ → Added → Added
unfolding append_range
add_hunk path (from, n) added =
    if ltb 0 n then append_range path (record { from = from; to = from + n }) added else added

module _ (atoi : Text → Option ℕ) where
  -- The numbers of `+c,d`: the count is one where it is left out.
  unfoldable parse_added_spec : Text → Text → Result DiffError (ℕ × ℕ)
  unfolding cut
  parse_added_spec header spec =
      let (start, count) = cut 44 spec in
      elim (atoi start) [
        | none ↦ err (malformed_hunk header)
        | some from ↦ elim count [
          | none ↦ ok (from, 1)
          | some digits ↦ elim (atoi digits) [
            | none ↦ err (malformed_hunk header)
            | some n ↦ ok (from, n)
          ]
        ]
      ]

  unfoldable pub parse_hunk_added : Text → Result DiffError (ℕ × ℕ)
  unfolding fields parse_added_spec
  parse_hunk_added header = elim (fields header) [
    | [] ↦ err (malformed_hunk header)
    | _ ∷ more ↦ elim more [
      | [] ↦ err (malformed_hunk header)
      | _ ∷ rest ↦ elim rest [
        | [] ↦ err (malformed_hunk header)
        | field ∷ _ ↦ elim field [
          | [] ↦ err (malformed_hunk header)
          | c ∷ spec ↦ if c == 43 then parse_added_spec header spec else err (malformed_hunk header)
        ]
      ]
    ]
  ]

  -- The loop: the file of the current header, and whether the lines are still its header's.
  unfoldable pub parse_lines :
      (Text → Bool) → Text → Bool → List Text → Added → Result DiffError Added
  unfolding header_name parse_hunk_added add_hunk starts_with
  parse_lines wanted current in_header [] added = ok added
  parse_lines wanted current in_header (line ∷ lines) added =
      if starts_with (codes "diff --git ") line
      then parse_lines wanted [] true lines added
      else if in_header && starts_with (codes "+++ ") line
      then elim (header_name line) [
        | err e ↦ err e
        | ok path ↦ parse_lines wanted path in_header lines added
      ]
      else if starts_with (codes "@@ ") line
      then (if (current == []) || not (wanted current)
          then parse_lines wanted current false lines added
          else elim (parse_hunk_added line) [
            | err e ↦ err e
            | ok hunk ↦ parse_lines wanted current false lines (add_hunk current hunk added)
          ])
      else parse_lines wanted current in_header lines added

  unfoldable pub parse_unified_added : (Text → Bool) → List Text → Added → Result DiffError Added
  unfolding parse_lines
  parse_unified_added wanted lines added = parse_lines wanted [] false lines added
