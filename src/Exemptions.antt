-- ===== src/Exemptions.antt =====
-- exemptions.go: whether the reviewed acceptances cover a record's unverifiable evidence. What the
-- gofresh library makes of a reason before the match (`RefusalClause`, then
-- `CanonicalMovedBracketClause`) is the parameter `clause`.
pub mod Laws
use gomutant.Prelude.{
  Bool, true, false, not, ◌&&◌, ◌||◌, Option, none, some, List, [], ◌∷◌, ◌++◌, Text, text_eq, ◌==◌,
  if◌then◌else◌, any, find, is_some,
}
use gomutant.Record.{Finding, SubjectEvidence, Exemption}

-- `==` on the struct.
abbrev same_exemption : Exemption → Exemption → Bool
same_exemption a b =
    (a.subject == b.subject) && (a.reason == b.reason) && (a.rationale == b.rationale)

-- The closure `note` of `coveredExemptions`; `seen` is the membership of `matched`.
unfoldable pub note_match : Exemption → List Exemption → List Exemption
note_match e matched = if any (same_exemption e) matched then matched else matched ++ e ∷ []

-- Notes the entry, where there is one.
unfoldable pub note_found : Option Exemption → List Exemption → List Exemption
unfolding note_match
note_found none matched = matched
note_found (some e) matched = note_match e matched

-- The first of two answers: `e`, and where it is nil the later one.
unfoldable pub or_else {ℓ} : {A : Type ℓ} → Option A → Option A → Option A
or_else none b = b
or_else (some a) b = some a

-- A failed lookup ends the function with false.
unfoldable pub note_required : Option Exemption → List Exemption → Option (List Exemption)
unfolding note_match
note_required none matched = none
note_required (some e) matched = some (note_match e matched)

-- An answer that matched nothing is false.
unfoldable pub unless_empty : Option (List Exemption) → Option (List Exemption)
unless_empty none = none
unless_empty (some []) = none
unless_empty (some (e ∷ es)) = some (e ∷ es)

module _ (clause : Text → Text) (exemptions : List Exemption) where
  unfoldable pub exemption_for : Text → Text → Option Exemption
  unfolding find
  exemption_for subject reason =
      find (λ e. (e.subject == subject) && (e.reason == clause reason)) exemptions

  -- The entry for an oracle's evidence: its own, or the finding's where the reason is its fault.
  unfoldable pub oracle_exemption : Finding → SubjectEvidence → Option Exemption
  unfolding exemption_for or_else
  oracle_exemption f ev = or_else (exemption_for ev.symbol ev.runtime_reason) (
      if not (f.evidence_fault == []) && (ev.runtime_reason == f.evidence_fault)
      then exemption_for f.symbol f.evidence_fault
      else none)

  -- The loop over the oracle evidence.
  unfoldable pub cover_oracles :
      Finding → List SubjectEvidence → List Exemption → Option (List Exemption)
  unfolding oracle_exemption note_match
  cover_oracles f [] matched = some matched
  cover_oracles f (ev ∷ evs) matched =
      if ev.runtime_unverifiable
      then elim (oracle_exemption f ev) [
        | none ↦ none
        | some e ↦ cover_oracles f evs (note_match e matched)
      ]
      else cover_oracles f evs matched

  -- The first entry that names an oracle which was unverifiable for the same reason.
  unfoldable pub shared_exemption : Text → List SubjectEvidence → Option Exemption
  unfolding exemption_for or_else
  shared_exemption reason [] = none
  shared_exemption reason (oracle ∷ oracles) =
      let rest = shared_exemption reason oracles in
      if not oracle.runtime_unverifiable || not (oracle.runtime_reason == reason)
      then rest
      else or_else (exemption_for oracle.symbol reason) rest

  unfoldable pub cover_target : Finding → List Exemption → Option (List Exemption)
  unfolding exemption_for or_else shared_exemption note_required
  cover_target f matched =
      let ev = f.target_evidence in
      if ev.runtime_unverifiable
      then note_required
          (or_else (exemption_for ev.symbol ev.runtime_reason)
            (shared_exemption ev.runtime_reason f.oracle_evidence))
          matched
      else some matched

  -- The loop over the oracles for a fault: every entry that names one, and whether there was one.
  unfoldable pub note_oracles :
      Text → List SubjectEvidence → List Exemption → Bool → List Exemption × Bool
  unfolding exemption_for note_match
  note_oracles fault [] matched found = (matched, found)
  note_oracles fault (oracle ∷ oracles) matched found = elim (exemption_for oracle.symbol fault) [
    | none ↦ note_oracles fault oracles matched found
    | some oe ↦ note_oracles fault oracles (note_match oe matched) true
  ]

  unfoldable pub cover_fault : Finding → List Exemption → Option (List Exemption)
  unfolding exemption_for note_found note_oracles
  cover_fault f matched =
      if f.evidence_fault == []
      then some matched
      else (let e = exemption_for f.symbol f.evidence_fault in
          let (all, found) =
            note_oracles f.evidence_fault f.oracle_evidence (note_found e matched) (is_some e) in
          if found then some all else none)

  unfoldable pub cover_all : Finding → Option (List Exemption)
  unfolding cover_oracles cover_target cover_fault
  cover_all f = elim (cover_oracles f f.oracle_evidence []) [
    | none ↦ none
    | some after_oracles ↦ elim (cover_target f after_oracles) [
      | none ↦ none
      | some after_target ↦ cover_fault f after_target
    ]
  ]

  -- `none` is the answer false.
  unfoldable pub covered_exemptions : Finding → Option (List Exemption)
  unfolding cover_all unless_empty
  covered_exemptions f = elim exemptions [ [] ↦ none | _ ∷ _ ↦ unless_empty (cover_all f) ]

  unfoldable stamp_exemptions : Finding → Finding
  unfolding covered_exemptions
  stamp_exemptions f = elim (covered_exemptions f) [
    | none ↦ record f { exempted = [] }
    | some matched ↦ record f { exempted = matched }
  ]

  unfoldable pub unstable_for_buckets : Finding → Bool
  unfolding covered_exemptions
  unstable_for_buckets f =
      if not f.target_evidence.runtime_unverifiable && (f.evidence_fault == [])
      then false
      else not (is_some (covered_exemptions f))
