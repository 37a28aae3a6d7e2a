-- ===== src/Freshness/Pins/Refinement.antt =====
-- freshness.go `sameAttestationPins`: the loops over the oracle evidence decide the equality of two
-- maps from subjects to pins.
use gomutant.Prelude.{
  suc, ◌≤◌, ◌≡◌, ◌↔◌, refl, ap, sym, ◌∙◌, subst, Bool, true, false, Option, none, some, List, [],
  ◌∷◌, Text, text_eq, ◌==◌, eq_iff, eq_sound, eq_refl, any, find, find-any, find-holds, length, All,
  All-imp, arith, Bool-cases, Option-cases, inl, inr,
}
use gomutant.Prelude.Names.{has, Distinct, pigeonhole}
use gomutant.Record.{SubjectEvidence}
use gomutant.Freshness.Pins.{
  attestation_pin_view, same_evidence, of_subject, index_evidence, pinned_as, same_oracle_pins,
}
use gomutant.Freshness.Pins.Laws.{same_evidence_sound, same_evidence_refl}
use gomutant.Freshness.Pins.Views.{
  symbols, view_of, pins_of, or, has-symbols, index_evidence-Indexed, all_pinned_sound,
  all_pinned_complete,
}

or-none : (a : Option SubjectEvidence) → or a none ≡ a
or-none none = refl
or-none (some a) = refl

find-of-indexed :
    (prior m : List SubjectEvidence) (s : Text)
    → index_evidence [] prior ≡ some m
    → find (of_subject s) m ≡ find (of_subject s) prior
unfolding find
find-of-indexed prior m s h =
    let (_, _, finds) = index_evidence-Indexed [] prior m h in
    finds s ∙ or-none (find (of_subject s) prior)

All-find :
    (P : SubjectEvidence → Type 0) (p : SubjectEvidence → Bool) (xs : List SubjectEvidence)
    (a : SubjectEvidence)
    → All P xs
    → find p xs ≡ some a
    → P a
unfolding find
All-find P p [] a h e = absurd (cc)
All-find P p (x ∷ xs) a h e = elim (Bool-cases (p x)) [
  | inl y ↦
      let found : find p (x ∷ xs) ≡ some x = rw (find, y) refl in
      let same : x ≡ a = cc in subst P same h.0
  | inr n ↦ All-find P p xs a h.1 (ground arith)
]

-- The subject stands in the map with the same pins.
abbrev Same : List SubjectEvidence → SubjectEvidence → Type 0
Same m ev =
    (p : SubjectEvidence) × (find (of_subject ev.symbol) m ≡ some p)
    × (attestation_pin_view p ≡ attestation_pin_view ev)

pinned_as-Same :
    (m : List SubjectEvidence) (ev : SubjectEvidence) → pinned_as m ev ≡ true → Same m ev
unfolding pinned_as
pinned_as-Same m ev h = elim (Option-cases (find (of_subject ev.symbol) m)) [
  | inl n ↦ absurd (ground arith)
  | inr (p, e) ↦
      (p, e, same_evidence_sound (attestation_pin_view p) (attestation_pin_view ev) (ground arith))
]

Same-pinned_as :
    (m : List SubjectEvidence) (ev : SubjectEvidence) → Same m ev → pinned_as m ev ≡ true
unfolding pinned_as
Same-pinned_as m ev (p, e, same) =
    rw (pinned_as, e)
      (subst (λ x. same_evidence (attestation_pin_view p) x ≡ true) same
        (same_evidence_refl (attestation_pin_view p)))

others-found :
    (ev : SubjectEvidence) (seen evs : List SubjectEvidence)
    → has ev.symbol (symbols evs) ≡ false
    → All (λ e. find (of_subject e.symbol) seen ≡ some e) evs
    → All (λ e. find (of_subject e.symbol) (ev ∷ seen) ≡ some e) evs
unfolding find any
others-found ev seen [] n h = tt
others-found ev seen (e ∷ evs) n h =
    let apart : (ev.symbol == e.symbol) ≡ false =
      ground (arith, eq_iff ev.symbol e.symbol, eq_iff e.symbol ev.symbol) in
    (rw (find, apart) h.0, others-found ev seen evs (ground arith) h.1)

-- Distinct rows are found under their own symbols.
find-own :
    (evs : List SubjectEvidence)
    → Distinct (symbols evs)
    → All (λ e. find (of_subject e.symbol) evs ≡ some e) evs
unfolding find
find-own [] d = tt
find-own (ev ∷ evs) d =
    (rw (eq_refl ev.symbol) refl, others-found ev evs evs d.0 (find-own evs d.1))

none-of-first :
    (ev : SubjectEvidence) (acc evs : List SubjectEvidence)
    → has ev.symbol (symbols evs) ≡ false
    → All (λ e. any (of_subject e.symbol) acc ≡ false) evs
    → All (λ e. any (of_subject e.symbol) (ev ∷ acc) ≡ false) evs
unfolding any
none-of-first ev acc [] n h = tt
none-of-first ev acc (e ∷ evs) n h =
    let apart : (ev.symbol == e.symbol) ≡ false =
      ground (arith, eq_iff ev.symbol e.symbol, eq_iff e.symbol ev.symbol) in
    (rw (any, apart) h.0, none-of-first ev acc evs (ground arith) h.1)

index_evidence_complete :
    (acc evs : List SubjectEvidence)
    → All (λ e. any (of_subject e.symbol) acc ≡ false) evs
    → Distinct (symbols evs)
    → (m : List SubjectEvidence) × (index_evidence acc evs ≡ some m)
unfolding index_evidence
index_evidence_complete acc [] fresh d = (acc, refl)
index_evidence_complete acc (ev ∷ evs) fresh d =
    let (m, e) =
      index_evidence_complete (ev ∷ acc) evs (none-of-first ev acc evs d.0 fresh.1) d.1 in
    (m, rw (index_evidence, fresh.0) e)

length-symbols : (evs : List SubjectEvidence) → length (symbols evs) ≡ length evs
length-symbols [] = refl
length-symbols (e ∷ evs) = ap suc (length-symbols evs)

all-known :
    (prior : List SubjectEvidence) (evs : List SubjectEvidence)
    → All (λ e. any (of_subject e.symbol) prior ≡ true) evs
    → All (λ y. has y (symbols prior) ≡ true) (symbols evs)
all-known prior [] h = tt
all-known prior (e ∷ evs) h = (has-symbols e.symbol prior ∙ h.0, all-known prior evs h.1)

trivially : (evs : List SubjectEvidence) → All (λ e. any (of_subject e.symbol) [] ≡ false) evs
unfolding any
trivially [] = tt
trivially (e ∷ evs) = (refl, trivially evs)

unseen : (evs : List SubjectEvidence) → All (λ e. has e.symbol [] ≡ false) evs
unfolding any
unseen [] = tt
unseen (e ∷ evs) = (refl, unseen evs)

module _ (prior current : List SubjectEvidence) where
  pinned-known :
      (m : List SubjectEvidence) (ev : SubjectEvidence)
      → index_evidence [] prior ≡ some m
      → pinned_as m ev ≡ true
      → any (of_subject ev.symbol) prior ≡ true
  pinned-known m ev x h =
      let (p, f, same) = pinned_as-Same m ev h in
      let here : find (of_subject ev.symbol) prior ≡ some p =
        sym (find-of-indexed prior m ev.symbol x) ∙ f in
      ground (arith, find-any (of_subject ev.symbol) prior)

  pins-equal :
      (m : List SubjectEvidence)
      → length prior ≡ length current
      → index_evidence [] prior ≡ some m
      → All (λ e. pinned_as m e ≡ true) current
      → Distinct (symbols current)
      → (s : Text) → pins_of prior s ≡ pins_of current s
  pins-equal m len x pins d s = elim (Option-cases (find (of_subject s) current)) [
    | inr (ev, e) ↦
        let (p, f, same) =
          pinned_as-Same m ev
            (All-find (λ e. pinned_as m e ≡ true) (of_subject s) current ev pins e) in
        let at : ev.symbol ≡ s = eq_sound ev.symbol s (find-holds (of_subject s) current ev e) in
        let here : find (of_subject s) prior ≡ some p =
          sym (find-of-indexed prior m s x) ∙ ap (λ y. find (of_subject y) m) (sym at) ∙ f in
        rw (here, e) (ap some same)
    | inl n ↦ elim (Option-cases (find (of_subject s) prior)) [
      | inl n' ↦ rw (n, n') refl
      | inr (p, e) ↦
          let known = all-known prior current (
            All-imp (λ e. pinned_as m e ≡ true) (λ e. any (of_subject e.symbol) prior ≡ true)
              (λ e h. pinned-known m e x h) current pins) in
          let there : has s (symbols prior) ≡ true =
            has-symbols s prior ∙ ground (arith, find-any (of_subject s) prior) in
          let le : length (symbols prior) ≤ length (symbols current) =
            omega (arith, length-symbols prior, length-symbols current) in
          let back : has s (symbols current) ≡ true =
            pigeonhole (symbols current) (symbols prior) s d known le there in
          let back' : any (of_subject s) current ≡ true = sym (has-symbols s current) ∙ back in
          absurd (ground (arith, find-any (of_subject s) current))
    ]
  ]

  refines_sound :
      length prior ≡ length current
      → same_oracle_pins prior current ≡ true
      → Distinct (symbols prior) × Distinct (symbols current) × (pins_of prior ≡ pins_of current)
  unfolding same_oracle_pins
  refines_sound len h = elim (Option-cases (index_evidence [] prior)) [
    | inl n ↦ absurd (ground arith)
    | inr (m, x) ↦
        let (pins, fresh, d) = all_pinned_sound m [] current (ground arith) in
        let (_, d', _) = index_evidence-Indexed [] prior m x in
        (d', d, (λ i s. pins-equal m len x pins d s i))
  ]

  own-pinned :
      (m : List SubjectEvidence) (ev : SubjectEvidence)
      → index_evidence [] prior ≡ some m
      → pins_of prior ≡ pins_of current
      → find (of_subject ev.symbol) current ≡ some ev
      → pinned_as m ev ≡ true
  own-pinned m ev x same own = elim (Option-cases (find (of_subject ev.symbol) prior)) [
    | inl n ↦
        let gone : none ≡ some (attestation_pin_view ev) =
          ap view_of (sym n) ∙ ap (λ g. g ev.symbol) same ∙ ap view_of own in
        absurd (cc)
    | inr (p, e) ↦
        let eq : some (attestation_pin_view p) ≡ some (attestation_pin_view ev) =
          ap view_of (sym e) ∙ ap (λ g. g ev.symbol) same ∙ ap view_of own in
        let eq' : attestation_pin_view p ≡ attestation_pin_view ev = cc in
        Same-pinned_as m ev (p, find-of-indexed prior m ev.symbol x ∙ e, eq')
  ]

  refines_complete :
      Distinct (symbols prior) × Distinct (symbols current) × (pins_of prior ≡ pins_of current)
      → same_oracle_pins prior current ≡ true
  unfolding same_oracle_pins any
  refines_complete (d, d', same) =
      let (m, x) = index_evidence_complete [] prior (trivially prior) d in
      rw (same_oracle_pins, x)
        (all_pinned_complete m [] current (
          All-imp (λ e. find (of_subject e.symbol) current ≡ some e) (λ e. pinned_as m e ≡ true)
              (λ e own. own-pinned m e x same own) current (find-own current d'),
          unseen current,
          d',
        ))

  -- Of two lists of oracle evidence of one length, the comparison accepts exactly those in which no
  -- subject stands twice and which are the same map from subjects to pins.
  pub same_oracle_pins-refines :
      length prior ≡ length current
      → (same_oracle_pins prior current ≡ true) ↔ (
          Distinct (symbols prior) × Distinct (symbols current) × (pins_of prior ≡ pins_of current))
  same_oracle_pins-refines len = (refines_sound len, refines_complete)
