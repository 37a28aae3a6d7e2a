-- ===== src/Findings/Merge/Standing.antt =====
-- findings.go `MergeFindings` and `MergeWholeFindingsForSelection`: the records of the prior document
-- that no finding of the run measures.
use gomutant.Prelude.{
  ◌≡◌, refl, sym, ap, ap₂, ◌∙◌, subst, Bool, true, false, not, ◌&&◌, Option, none, some, List, [],
  ◌∷◌, Text, text_eq, ◌==◌, eq_sound, if◌then◌else◌, any, filter, map, arith, All, Bool-cases,
  Option-cases, inl, inr, filter-filter, filter_comm,
}
use gomutant.Prelude.Map.{Map, Keys, get, put, get-put, put-Keys}
use gomutant.Record.{Finding, record_key}
use gomutant.Findings.Verdict.{annotate, annotate_selection_verdicts}
use gomutant.Findings.Verdict.Laws.{plain, annotate-test, annotate-plain}
use gomutant.Findings.Merge.{
  Snapshots, Merge, replacing, merge_one, merge_all, by_record_key, values, merge_findings, stands,
  merge_whole_findings_for_selection,
}
use gomutant.Findings.Merge.Laws.{
  measures, joined, merge_one-skipped, merge_one-measured, merge_all-stands,
}

abbrev pub keyed : Text → Finding → Bool
keyed k f = record_key f == k

-- The last record of a key, where there is one.
abbrev pub last_of : Text → List Finding → Option Finding
last_of k [] = none
last_of k (f ∷ fs) = elim (last_of k fs) [
  | some g ↦ some g
  | none ↦ if keyed k f then some f else none
]

abbrev pub or_else {ℓ} : {A : Type ℓ} → Option A → Option A → Option A
or_else (some a) o = some a
or_else none o = o

pub or_else-none {ℓ} : {A : Type ℓ} (o : Option A) → or_else o none ≡ o
or_else-none none = refl
or_else-none (some a) = refl

pub by_record_key-get :
    (k : Text) (fs : List Finding) (m : Map Text Finding)
    → get k (by_record_key fs m) ≡ or_else (last_of k fs) (get k m)
unfolding by_record_key
by_record_key-get k [] m = refl
by_record_key-get k (f ∷ fs) m =
    by_record_key-get k fs (put (record_key f) f m) ∙ (elim (Option-cases (last_of k fs)) [
      | inr (g, e) ↦ rw e refl
      | inl e ↦
          rw (e, get-put (record_key f) k f m)
            (elim (Bool-cases (record_key f == k)) [ inl y ↦ rw y refl | inr n ↦ rw n refl ])
    ])

-- Each record stands under its own key, and each key once.
abbrev Keyed : Map Text Finding → Type 0
Keyed m = All (λ kv. record_key kv.1 ≡ kv.0) m × Keys m

put-own :
    (f : Finding) (m : Map Text Finding)
    → All (λ kv. record_key kv.1 ≡ kv.0) m
    → All (λ kv. record_key kv.1 ≡ kv.0) (put (record_key f) f m)
unfolding put
put-own f [] h = (refl, tt)
put-own f ((j, g) ∷ m) h = elim (Bool-cases (j == record_key f)) [
  | inl y ↦ rw y (refl, h.1)
  | inr n ↦ rw n (h.0, put-own f m h.1)
]

put-Keyed : (f : Finding) (m : Map Text Finding) → Keyed m → Keyed (put (record_key f) f m)
put-Keyed f m h = (put-own f m h.0, put-Keys (record_key f) f m h.1)

by_record_key-Keyed :
    (fs : List Finding) (m : Map Text Finding) → Keyed m → Keyed (by_record_key fs m)
unfolding by_record_key
by_record_key-Keyed [] m h = h
by_record_key-Keyed (f ∷ fs) m h = by_record_key-Keyed fs (put (record_key f) f m) (put-Keyed f m h)

joined-key :
    (snapshot : Snapshots) (f : Finding) (o : Option Finding)
    → record_key (joined snapshot f o) ≡ record_key f
unfolding replacing
joined-key snapshot f none = refl
joined-key snapshot f (some old) = refl

merge_one-Keyed :
    (snapshot : Snapshots) (f : Finding) (m : Merge) → Keyed m.0 → Keyed (merge_one snapshot f m).0
merge_one-Keyed snapshot f m h = elim (Bool-cases (f.skipped == [])) [
  | inr n ↦ subst (λ x. Keyed x.0) (sym (merge_one-skipped snapshot f m n)) h
  | inl y ↦
      let new = joined snapshot f (get (record_key f) m.0) in
      subst (λ x. Keyed x.0) (sym (merge_one-measured snapshot f m y))
        (subst (λ k. Keyed (put k new m.0)) (joined-key snapshot f (get (record_key f) m.0))
          (put-Keyed new m.0 h))
]

merge_all-Keyed :
    (snapshot : Snapshots) (fresh : List Finding) (m : Merge)
    → Keyed m.0
    → Keyed (merge_all snapshot fresh m).0
unfolding merge_all
merge_all-Keyed snapshot [] m h = h
merge_all-Keyed snapshot (f ∷ fresh) m h =
    merge_all-Keyed snapshot fresh (merge_one snapshot f m) (merge_one-Keyed snapshot f m h)

abbrev listed : Option Finding → List Finding
listed none = []
listed (some g) = g ∷ []

-- The values under a key: the one that the map gives.
values-keyed :
    (k : Text) (m : Map Text Finding) → Keyed m → filter (keyed k) (values m) ≡ listed (get k m)
unfolding filter get
values-keyed k [] h = refl
values-keyed k ((j, g) ∷ m) ((own, owns), (alone, keys)) = elim (Bool-cases (j == k)) [
  | inl y ↦
      let at : (record_key g == k) ≡ true = ap (λ x. x == k) own ∙ y in
      let gone : get k m ≡ none = ap (λ x. get x m) (sym (eq_sound j k y)) ∙ alone in
      rw (filter, get, at, y) (ap (λ xs. g ∷ xs) (values-keyed k m (owns, keys) ∙ ap listed gone))
  | inr n ↦
      let at : (record_key g == k) ≡ false = ap (λ x. x == k) own ∙ n in
      rw (filter, get, at, n) (values-keyed k m (owns, keys))
]

-- A test that annotating does not change selects the same records, up to the verdicts.
filter-annotate :
    (p : Finding → Bool) (all : List Finding)
    → ((f : Finding) → p (annotate all f) ≡ p f)
    → (fs : List Finding) → map plain (filter p (map (annotate all) fs)) ≡ map plain (filter p fs)
unfolding filter
filter-annotate p all h [] = refl
filter-annotate p all h (f ∷ fs) = elim (Bool-cases (p f)) [
  | inl y ↦
      rw (filter, h f, y) (ap₂ (λ g gs. g ∷ gs) (annotate-plain all f) (filter-annotate p all h fs))
  | inr n ↦ rw (filter, h f, n) (filter-annotate p all h fs)
]

module _ (prior fresh : List Finding) (snapshot : Snapshots) (k : Text) (old : Finding) where
  abbrev merged_map : Map Text Finding
  merged_map = (merge_all snapshot fresh (by_record_key prior [], [])).0

  standing :
      last_of k prior ≡ some old
      → any (measures k) fresh ≡ false
      → filter (keyed k) (values merged_map) ≡ old ∷ []
  unfolding get
  standing e h =
      values-keyed k merged_map (
        merge_all-Keyed snapshot fresh (by_record_key prior [], [])
          (by_record_key-Keyed prior [] (tt, tt)))
      ∙ ap listed (
          merge_all-stands snapshot k fresh (by_record_key prior [], []) h
          ∙ by_record_key-get k prior []
          ∙ or_else-none (last_of k prior)
          ∙ e)

  -- If no fresh finding measures the key of a record, skipped ones measuring nothing, the merged
  -- document has exactly one record of the key: the last that the prior document has, unchanged but
  -- for the verdicts of other selections on its survivors, which are derived anew.
  pub merge_findings-stands :
      last_of k prior ≡ some old
      → any (measures k) fresh ≡ false
      → map plain (filter (keyed k) (merge_findings prior fresh snapshot).0) ≡ plain old ∷ []
  unfolding merge_findings annotate_selection_verdicts
  merge_findings-stands e h =
      filter-annotate (keyed k) (values merged_map)
        (annotate-test (keyed k) (λ g f. refl) (values merged_map)) (values merged_map)
      ∙ ap (map plain) (standing e h)

  -- A whole-tree run drops a record that no fresh finding measures exactly if it is of the run's
  -- selection, its symbol was not discovered and it has no shape; else the document has exactly
  -- one record of the key, the last that the prior document has, unchanged but for the verdicts.
  pub merge_whole-stands :
      (discovered : List Text) (sel_key : Text)
      → last_of k prior ≡ some old
      → any (measures k) fresh ≡ false
      → map plain (
          filter
            (keyed k)
            (merge_whole_findings_for_selection prior fresh discovered snapshot sel_key).0)
        ≡ (if (old.selection == sel_key)
              && not (any (λ s. s == old.symbol) discovered)
              && not old.has_shape
            then []
            else plain old ∷ [])
  unfolding merge_whole_findings_for_selection merge_findings annotate_selection_verdicts filter
  merge_whole-stands discovered sel_key e h =
      let q = stands discovered sel_key in
      let vs = values merged_map in
      let kept = filter q (map (annotate vs) vs) in
      filter-annotate (keyed k) kept (annotate-test (keyed k) (λ g f. refl) kept) kept
      ∙ ap (map plain) (filter-filter (keyed k) q (map (annotate vs) vs))
      ∙ filter-annotate (λ f. q f && keyed k f) vs
          (annotate-test (λ f. q f && keyed k f) (λ g f. refl) vs) vs
      ∙ ap (map plain) (
          sym (filter-filter (keyed k) q vs)
          ∙ filter_comm (keyed k) q vs
          ∙ ap (filter q) (standing e h))
      ∙ last
    where
      last : map plain (filter (stands discovered sel_key) (old ∷ [])) ≡ (
          if (old.selection == sel_key)
            && not (any (λ s. s == old.symbol) discovered)
            && not old.has_shape
          then []
          else plain old ∷ [])
      last = ground arith
