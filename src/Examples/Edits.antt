-- ===== src/Examples/Edits.antt =====
-- ephemeral.go `ApplyEdits` on a source of a few bytes.
use gomutant.Prelude.{◌≡◌, ◌≢◌, ◌↔◌, refl, true, some, [], ◌∷◌, codes, text_beq, err, ok}
use gomutant.Prelude.Strings.{starts_with}
use gomutant.Edits.{
  Edit, is_ambiguous, index, replace_once, match_starts_from, overlapping_match_starts, apply_one,
  apply_from, apply_edits,
}
use gomutant.Edits.Matches.{matches, overlapping_match_starts-matches}
use gomutant.Edits.Apply.{Edited, apply_edits_iff-Edited}

abbrev edit : Edit
edit = record { old = codes "<"; new = codes "<=" }

applies : apply_edits true (λ i. true) (codes "a<b") (edit ∷ []) ≡ ok (codes "a<=b")
unfolding apply_edits apply_from apply_one overlapping_match_starts match_starts_from index
    starts_with replace_once text_beq
applies = refl

overlaps :
    apply_edits true (λ i. true) (codes "aaa") (record { old = codes "aa"; new = [] } ∷ [])
    ≡ err (is_ambiguous 1 2)
unfolding apply_edits apply_from apply_one overlapping_match_starts match_starts_from index
    starts_with text_beq
overlaps = refl

apply_edits_iff-Edited_example :
    (apply_edits true (λ i. true) (codes "a<b") (edit ∷ []) ≡ ok (codes "a<=b"))
    ↔ ((edit ∷ [] ≢ []) × Edited (codes "a<b") (edit ∷ []) (codes "a<=b"))
apply_edits_iff-Edited_example =
    apply_edits_iff-Edited (λ i. true) (λ i. refl) (codes "a<b") (codes "a<=b") (edit ∷ [])

overlapping_match_starts-matches_example :
    overlapping_match_starts (codes "aaa") (codes "aa") ≡ some (matches (codes "aa") (codes "aaa"))
overlapping_match_starts-matches_example =
    overlapping_match_starts-matches (codes "aaa") (codes "aa") (λ e. cc)
