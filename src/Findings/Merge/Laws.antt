-- ===== src/Findings/Merge/Laws.antt =====
-- findings.go `MergeFindings`: what a merge keeps, replaces and reports.
use gomutant.Prelude.{
  ◌≡◌, refl, sym, ap, ◌∙◌, Bool, true, false, ◌&&◌, Option, none, some, List, [], ◌∷◌, ◌++◌, Text,
  text_eq, ◌==◌, any, arith, Bool-cases, Option-cases, inl, inr, append-nil,
}
use gomutant.Prelude.Map.{get, put, get-put}
use gomutant.Record.{Finding, key_eq, record_key}
use gomutant.Findings.Graft.{AttestationShed}
use gomutant.Findings.Merge.{Snapshots, sheds_of, grafted, replacing, Merge, merge_one, merge_all}

-- The fresh finding measures the record key: skipped ones measure nothing.
abbrev pub measures : Text → Finding → Bool
measures k f = (f.skipped == []) && (record_key f == k)

-- The record that a fresh finding becomes, given the one it meets.
abbrev pub joined : Snapshots → Finding → Option Finding → Finding
joined snapshot f none = f
joined snapshot f (some old) = replacing snapshot old f

-- What a fresh finding makes the merge report.
abbrev pub reported : Snapshots → Finding → Option Finding → List AttestationShed
reported snapshot f none = []
reported snapshot f (some old) = sheds_of f.symbol (grafted snapshot old f).shed

pub merge_one-skipped :
    (snapshot : Snapshots) (f : Finding) (m : Merge)
    → (f.skipped == []) ≡ false
    → merge_one snapshot f m ≡ m
unfolding merge_one
merge_one-skipped snapshot f m h = rw (merge_one, h) refl

pub merge_one-measured :
    (snapshot : Snapshots) (f : Finding) (m : Merge)
    → (f.skipped == []) ≡ true
    → merge_one snapshot f m ≡ (
      put (record_key f) (joined snapshot f (get (record_key f) m.0)) m.0,
      m.1 ++ reported snapshot f (get (record_key f) m.0),
    )
unfolding merge_one
merge_one-measured snapshot f m h = elim (Option-cases (get (record_key f) m.0)) [
  | inl e ↦ rw (merge_one, h, e) (ap (λ s. (put (record_key f) f m.0, s)) (sym (append-nil m.1)))
  | inr (old, e) ↦ rw (merge_one, h, e) refl
]

merge_one-stands :
    (snapshot : Snapshots) (k : Text) (f : Finding) (m : Merge)
    → measures k f ≡ false
    → get k (merge_one snapshot f m).0 ≡ get k m.0
merge_one-stands snapshot k f m h = elim (Bool-cases (f.skipped == [])) [
  | inr e ↦ ap (λ x. get k x.0) (merge_one-skipped snapshot f m e)
  | inl e ↦
      ap (λ x. get k x.0) (merge_one-measured snapshot f m e)
      ∙ get-put (record_key f) k (joined snapshot f (get (record_key f) m.0)) m.0
      ∙ ground (arith, e, h)
]

-- A record stands in the merged document exactly as the prior document holds it if no fresh finding
-- measures its key: a skipped finding never overwrites a record.
pub merge_all-stands :
    (snapshot : Snapshots) (k : Text) (fresh : List Finding) (m : Merge)
    → any (measures k) fresh ≡ false
    → get k (merge_all snapshot fresh m).0 ≡ get k m.0
unfolding merge_all any
merge_all-stands snapshot k [] m h = refl
merge_all-stands snapshot k (f ∷ fresh) m h =
    merge_all-stands snapshot k fresh (merge_one snapshot f m) (ground arith)
    ∙ merge_one-stands snapshot k f m (ground arith)
