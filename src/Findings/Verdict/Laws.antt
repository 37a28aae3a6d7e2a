-- ===== src/Findings/Verdict/Laws.antt =====
-- findings.go `AnnotateSelectionVerdicts`: what the annotation leaves alone.
use gomutant.Prelude.{
  ◌≡◌, refl, ap, ap₂, not, ◌||◌, List, [], ◌∷◌, Text, text_eq, ◌==◌, nat_eq, length, ltb, filter,
  map, Bool-cases, inl, inr,
}
use gomutant.Record.{Finding, Survivor}
use gomutant.Findings.Disposition.{oracle_execution_policy_issue}
use gomutant.Findings.Verdict.{
  of_symbol, with_survivors, other_selections, annotate, annotate_selection_verdicts,
}

abbrev clear : Survivor → Survivor
clear s = record s { other_selection = [] }

-- A finding without the verdicts of other selections.
abbrev pub plain : Finding → Finding
plain f = with_survivors clear f

map-clear :
    (t : Survivor → Text) (ss : List Survivor)
    → map clear (map {A = Survivor} (λ s. record s { other_selection = t s }) ss) ≡ map clear ss
map-clear t [] = refl
map-clear t (s ∷ ss) = ap (λ r. clear s ∷ r) (map-clear t ss)

plain-with_survivors :
    (t : Survivor → Text) (f : Finding)
    → plain (with_survivors (λ s. record s { other_selection = t s }) f) ≡ plain f
plain-with_survivors t f =
    ap {A = List Survivor} (λ ss. record f { survivors = ss }) (map-clear t f.survivors)

-- A test that does not read the survivors cannot tell an annotated record.
pub annotate-test {ℓ} :
    {B : Type ℓ} (q : Finding → B)
    → ((g : Survivor → Survivor) (f : Finding) → q (with_survivors g f) ≡ q f)
    → (all : List Finding) (f : Finding) → q (annotate all f) ≡ q f
unfolding annotate
annotate-test q h all f =
    elim (Bool-cases (not (f.skipped == []) || ltb (length (filter (of_symbol f.symbol) all)) 2)) [
      | inl y ↦ rw (annotate, y) refl
      | inr n ↦ elim (Bool-cases (not (oracle_execution_policy_issue f == []))) [
        | inl y ↦ rw (annotate, n, y) (h clear f)
        | inr m ↦
            rw (annotate, n, m) (h (λ s. record s { other_selection = other_selections all f s }) f)
      ]
    ]

pub annotate-plain : (all : List Finding) (f : Finding) → plain (annotate all f) ≡ plain f
unfolding annotate
annotate-plain all f =
    elim (Bool-cases (not (f.skipped == []) || ltb (length (filter (of_symbol f.symbol) all)) 2)) [
      | inl y ↦ rw (annotate, y) refl
      | inr n ↦ elim (Bool-cases (not (oracle_execution_policy_issue f == []))) [
        | inl y ↦ rw (annotate, n, y) (plain-with_survivors (λ s. []) f)
        | inr m ↦ rw (annotate, n, m) (plain-with_survivors (other_selections all f) f)
      ]
    ]

map-annotate : (all fs : List Finding) → map plain (map (annotate all) fs) ≡ map plain fs
map-annotate all [] = refl
map-annotate all (f ∷ fs) = ap₂ (λ g gs. g ∷ gs) (annotate-plain all f) (map-annotate all fs)

-- Annotating a list of records changes nothing but the other selections' verdicts on their
-- survivors: the records, their order and all their other fields stay.
annotate_selection_verdicts-plain :
    (all : List Finding) → map plain (annotate_selection_verdicts all) ≡ map plain all
unfolding annotate_selection_verdicts
annotate_selection_verdicts-plain all = map-annotate all all
