-- ===== src/Freshness/Pins/Views.antt =====
-- freshness.go `sameAttestationPins`: the comparison of the oracle evidence refines the equality of
-- two maps from subjects to pins, which forget the order of the rows.
use gomutant.Prelude.{
  ◌≡◌, refl, ap, sym, ◌∙◌, true, false, ◌||◌, Option, none, some, List, [], ◌∷◌, Text, text_eq,
  ◌==◌, eq_iff, eq_sound, any, find, find-any, All, All-imp, map, arith, Bool-cases, inl, inr,
}
use gomutant.Prelude.Names.{has, Distinct}
use gomutant.Record.{SubjectEvidence}
use gomutant.Freshness.Pins.{
  attestation_pin_view, of_subject, index_evidence, pinned_as, all_pinned,
}

abbrev pub symbols : List SubjectEvidence → List Text
symbols = map (λ ev. ev.symbol)

-- The pins under a symbol, where it has some.
abbrev pub view_of : Option SubjectEvidence → Option SubjectEvidence
view_of none = none
view_of (some ev) = some (attestation_pin_view ev)

abbrev pub pins_of : List SubjectEvidence → Text → Option SubjectEvidence
pins_of evs s = view_of (find (of_subject s) evs)

abbrev pub or : Option SubjectEvidence → Option SubjectEvidence → Option SubjectEvidence
or none b = b
or (some a) b = some a

pub has-symbols :
    (s : Text) (evs : List SubjectEvidence) → has s (symbols evs) ≡ any (of_subject s) evs
unfolding any
has-symbols s [] = refl
has-symbols s (ev ∷ evs) = ap (λ b. (ev.symbol == s) || b) (has-symbols s evs)

-- Its own symbol is not among others.
pub apart :
    (s : Text) (ev : SubjectEvidence) (acc : List SubjectEvidence)
    → any (of_subject s) (ev ∷ acc) ≡ false
    → ((s == ev.symbol) ≡ false) × (any (of_subject s) acc ≡ false)
unfolding any
apart s ev acc h = (ground (arith, eq_iff s ev.symbol, eq_iff ev.symbol s), ground arith)

absent-heads :
    (ev : SubjectEvidence) (acc evs : List SubjectEvidence)
    → All (λ e. any (of_subject e.symbol) (ev ∷ acc) ≡ false) evs
    → any (of_subject ev.symbol) evs ≡ false
unfolding any
absent-heads ev acc [] h = refl
absent-heads ev acc (e ∷ evs) h =
    ground (arith, (apart e.symbol ev acc h.0).0, absent-heads ev acc evs h.1)

find-moved :
    (s : Text) (ev : SubjectEvidence) (evs acc : List SubjectEvidence)
    → any (of_subject ev.symbol) evs ≡ false
    → or (find (of_subject s) evs) (find (of_subject s) (ev ∷ acc))
      ≡ or (find (of_subject s) (ev ∷ evs)) (find (of_subject s) acc)
unfolding find
find-moved s ev evs acc alone = elim (Bool-cases (ev.symbol == s)) [
  | inr n ↦ ground arith
  | inl y ↦
      let none_here : any (of_subject s) evs ≡ false =
        ap (λ x. any (of_subject x) evs) (sym (eq_sound ev.symbol s y)) ∙ alone in
      ground (arith, find-any (of_subject s) evs)
]

-- What the filled map holds.
abbrev pub Indexed : List SubjectEvidence → List SubjectEvidence → List SubjectEvidence → Type 0
Indexed acc evs m =
    All (λ e. any (of_subject e.symbol) acc ≡ false) evs
    × Distinct (symbols evs)
    × ((s : Text) → find (of_subject s) m ≡ or (find (of_subject s) evs) (find (of_subject s) acc))

pub index_evidence-Indexed :
    (acc evs m : List SubjectEvidence) → index_evidence acc evs ≡ some m → Indexed acc evs m
unfolding index_evidence find
index_evidence-Indexed acc [] m h =
    let same : m ≡ acc = cc in (tt, tt, (λ s. ap (find (of_subject s)) same))
index_evidence-Indexed acc (ev ∷ evs) m h = elim (Bool-cases (any (of_subject ev.symbol) acc)) [
  | inl y ↦ absurd (ground arith)
  | inr n ↦
      let (fresh, distinct, finds) = index_evidence-Indexed (ev ∷ acc) evs m (ground arith) in
      let alone = absent-heads ev acc evs fresh in
      (
        (
          n,
          All-imp (λ e. any (of_subject e.symbol) (ev ∷ acc) ≡ false)
              (λ e. any (of_subject e.symbol) acc ≡ false) (λ e k. (apart e.symbol ev acc k).1) evs
              fresh,
        ),
        (has-symbols ev.symbol evs ∙ alone, distinct),
        (λ s. finds s ∙ find-moved s ev evs acc alone),
      )
]

-- What the loop over the current evidence has seen.
abbrev Pinned : List SubjectEvidence → List Text → List SubjectEvidence → Type 0
Pinned m seen evs =
    All (λ e. pinned_as m e ≡ true) evs
    × All (λ e. has e.symbol seen ≡ false) evs
    × Distinct (symbols evs)

seen-split :
    (x : Text) (seen : List Text) (evs : List SubjectEvidence)
    → All (λ e. has e.symbol (x ∷ seen) ≡ false) evs
    → (has x (symbols evs) ≡ false) × All (λ e. has e.symbol seen ≡ false) evs
unfolding any
seen-split x seen [] h = (refl, tt)
seen-split x seen (e ∷ evs) h =
    let (a, b) = seen-split x seen evs h.1 in
    (ground (arith, h.0, a, eq_iff x e.symbol, eq_iff e.symbol x), (ground (arith, h.0), b))

seen-join :
    (x : Text) (seen : List Text) (evs : List SubjectEvidence)
    → has x (symbols evs) ≡ false
    → All (λ e. has e.symbol seen ≡ false) evs
    → All (λ e. has e.symbol (x ∷ seen) ≡ false) evs
unfolding any
seen-join x seen [] a b = tt
seen-join x seen (e ∷ evs) a b = (
  ground (arith, a, b.0, eq_iff x e.symbol, eq_iff e.symbol x),
  seen-join x seen evs (ground arith) b.1,
)

pub all_pinned_sound :
    (m : List SubjectEvidence) (seen : List Text) (evs : List SubjectEvidence)
    → all_pinned m seen evs ≡ true
    → Pinned m seen evs
unfolding all_pinned
all_pinned_sound m seen [] h = (tt, tt, tt)
all_pinned_sound m seen (ev ∷ evs) h = elim (Bool-cases (has ev.symbol seen)) [
  | inl y ↦ absurd (ground arith)
  | inr n ↦ elim (Bool-cases (pinned_as m ev)) [
    | inr z ↦ absurd (ground arith)
    | inl p ↦
        let (pins, fresh, distinct) = all_pinned_sound m (ev.symbol ∷ seen) evs (ground arith) in
        let (d, r) = seen-split ev.symbol seen evs fresh in ((p, pins), (n, r), (d, distinct))
  ]
]

pub all_pinned_complete :
    (m : List SubjectEvidence) (seen : List Text) (evs : List SubjectEvidence)
    → Pinned m seen evs
    → all_pinned m seen evs ≡ true
unfolding all_pinned
all_pinned_complete m seen [] h = refl
all_pinned_complete m seen (ev ∷ evs) ((p, pins), (q, fresh), (d, distinct)) =
    rw (all_pinned, q, p)
      (all_pinned_complete m (ev.symbol ∷ seen) evs
        (pins, seen-join ev.symbol seen evs d fresh, distinct))
