-- ===== src/Edits.antt =====
-- ephemeral.go `ApplyEdits` and `overlappingMatchStarts`: exact-match edits of a source, as bytes.
-- `index`, `replace_once` are `strings.Index` and `strings.Replace` with the limit 1 on a pattern
-- that is not empty. The loop of `overlappingMatchStarts` runs on fuel.
pub mod Matches
pub mod Apply
use gomutant.Prelude.{
  ℕ, zero, suc, ◌+◌, Bool, true, false, ◌&&◌, Option, none, some, List, [], ◌∷◌, ◌++◌, Text,
  text_eq, ◌==◌, nat_eq, if◌then◌else◌, length, take, drop, Result, err, ok,
}
use gomutant.Prelude.Strings.{starts_with}

pub record Edit : Type 0 where
  pub old : Text
  pub new : Text

unfoldable pub index : Text → Text → Option ℕ
unfolding starts_with
index p [] = none
index p (y ∷ s) =
    let rest : Option ℕ = elim (index p s) [ none ↦ none | some i ↦ some (suc i) ] in
    if starts_with p (y ∷ s) then some 0 else rest

unfoldable pub replace_once : Text → Text → Text → Text
unfolding index
replace_once old new s = elim (index old s) [
  | none ↦ s
  | some i ↦ take i s ++ new ++ drop (i + length old) s
]

-- The loop, `s` being `s[from:]`; `none` is out of fuel.
unfoldable pub match_starts_from : ℕ → Text → Text → ℕ → Option ℕ
unfolding index
match_starts_from zero p s count = none
match_starts_from (suc fuel) p s count = elim (index p s) [
  | none ↦ some count
  | some i ↦ match_starts_from fuel p (drop (suc i) s) (count + 1)
]

unfoldable pub overlapping_match_starts : Text → Text → Option ℕ
unfolding match_starts_from
overlapping_match_starts s [] = some 0
overlapping_match_starts s (x ∷ p) = match_starts_from (suc (length s)) (x ∷ p) s 0

-- The errors, with the edit's number from one on.
pub data EditError : Type 0 where
  canceled no_edits fuel_spent : EditError
  empty_match matches_nothing : ℕ → EditError
  is_ambiguous : ℕ → ℕ → EditError

-- One round of the loop, after the check of the context.
unfoldable pub apply_one : ℕ → Text → Edit → Result EditError Text
unfolding overlapping_match_starts replace_once
apply_one i out e =
    if e.old == [] then err (empty_match (i + 1)) else elim (overlapping_match_starts out e.old) [
      | none ↦ err fuel_spent
      | some n ↦
          if n == 0
          then err (matches_nothing (i + 1))
          else if n == 1
          then ok (replace_once e.old e.new out)
          else err (is_ambiguous (i + 1) n)
    ]

-- `alive i` is a context that is not canceled at the check before the edit `i`, and at the last
-- check with the number of edits.
unfoldable pub apply_from : (ℕ → Bool) → ℕ → List Edit → Text → Result EditError Text
unfolding apply_one
apply_from alive i [] out = if alive i then ok out else err canceled
apply_from alive i (e ∷ edits) out = elim (alive i) [
  | false ↦ err canceled
  | true ↦ elim (apply_one i out e) [
    | err x ↦ err x
    | ok out' ↦ apply_from alive (suc i) edits out'
  ]
]

-- `started` is the check before the first.
unfoldable pub apply_edits : Bool → (ℕ → Bool) → Text → List Edit → Result EditError Text
unfolding apply_from
apply_edits started alive src [] = if started then err no_edits else err canceled
apply_edits started alive src (e ∷ edits) =
    let run = apply_from alive 0 (e ∷ edits) src in if started then run else err canceled
