-- ===== src/Exemptions/Laws.antt =====
-- exemptions.go `coveredExemptions`: when the acceptances cover a record.
use gomutant.Prelude.{
  ◌≡◌, refl, subst, inl, inr, Bool, true, false, not, ◌&&◌, ◌||◌, Option, none, some, List, [], ◌∷◌,
  ◌++◌, Text, text_eq, ◌==◌, any, find-any, is_some, arith, Option-cases,
}
use gomutant.Record.{Finding, SubjectEvidence, Exemption}
use gomutant.Exemptions.{
  note_match, note_found, or_else, note_required, exemption_for, oracle_exemption, cover_oracles,
  shared_exemption, cover_target, note_oracles, cover_fault, cover_all, unless_empty,
  covered_exemptions,
}

abbrev pub all {ℓ} : {A : Type ℓ} → (A → Bool) → List A → Bool
all p [] = true
all p (x ∷ xs) = p x && all p xs

abbrev filled {ℓ} : {A : Type ℓ} → List A → Bool
filled [] = false
filled (x ∷ xs) = true

abbrev held : Option (List Exemption) → Bool
held none = false
held (some m) = filled m

-- What an answer says: whether there is one, and whether it holds anything.
abbrev Says : Bool → Bool → Option (List Exemption) → Type 0
Says b n r = (is_some r ≡ b) × (held r ≡ (b && n))

abbrev both :
    Option (List Exemption) → (List Exemption → Option (List Exemption)) → Option (List Exemption)
both r k = elim r [ none ↦ none | some m ↦ k m ]

unless_empty_some :
    (b n : Bool) (r : Option (List Exemption)) → Says b n r → is_some (unless_empty r) ≡ (b && n)
unfolding unless_empty
unless_empty_some b n none h = ground (arith, h)
unless_empty_some b n (some []) h = ground (arith, h)
unless_empty_some b n (some (e ∷ m)) h = ground (arith, h)

or_assoc : (a b c : Bool) → (a || b || c) ≡ (a || (b || c))
or_assoc a b c = ground arith

-- One answer after the other.
then-Says :
    (b b' n n' : Bool) (r : Option (List Exemption)) (k : List Exemption → Option (List Exemption))
    → Says b n r
    → ((m : List Exemption) → Says b' (filled m || n') (k m))
    → Says (b && b') (n || n') (both r k)
then-Says b b' n n' none k h h' = ground (arith, h)
then-Says b b' n n' (some m) k h h' = ground (arith, h, h' m)

or_else_some {ℓ} : {A : Type ℓ} (a b : Option A) → is_some (or_else a b) ≡ (is_some a || is_some b)
unfolding or_else
or_else_some none b = refl
or_else_some (some a) b = refl

filled_snoc {ℓ} : {A : Type ℓ} (xs : List A) (a : A) → filled (xs ++ a ∷ []) ≡ true
filled_snoc [] a = refl
filled_snoc (x ∷ xs) a = refl

filled_note : (e : Exemption) (m : List Exemption) → filled (note_match e m) ≡ true
unfolding note_match any
filled_note e [] = refl
filled_note e (x ∷ m) = ground (arith, filled_snoc (x ∷ m) e)

noted :
    (e : Option Exemption) (m : List Exemption) → is_some e ≡ true → filled (note_found e m) ≡ true
unfolding note_found
noted none m h = absurd (cc)
noted (some e) m h = filled_note e m

abbrev pub unverified : Finding → Bool
unverified f =
    any (λ ev. ev.runtime_unverifiable) f.oracle_evidence
    || (f.target_evidence.runtime_unverifiable || not (f.evidence_fault == []))

module _ (clause : Text → Text) (exemptions : List Exemption) where
  -- Some entry names the subject and the clause of the reason.
  abbrev accepted : Text → Text → Bool
  accepted subject reason =
      any (λ e. (e.subject == subject) && (e.reason == clause reason)) exemptions

  -- The reference: each piece of unverifiable evidence has its acceptance.
  abbrev pub oracle_accepted : Finding → SubjectEvidence → Bool
  oracle_accepted f ev =
      not ev.runtime_unverifiable
      || accepted ev.symbol ev.runtime_reason
      || (not (f.evidence_fault == [])
          && (ev.runtime_reason == f.evidence_fault)
          && accepted f.symbol f.evidence_fault)

  abbrev shares : Text → SubjectEvidence → Bool
  shares reason oracle =
      oracle.runtime_unverifiable
      && (oracle.runtime_reason == reason)
      && accepted oracle.symbol reason

  abbrev pub target_accepted : Finding → Bool
  target_accepted f =
      let ev = f.target_evidence in
      not ev.runtime_unverifiable
      || accepted ev.symbol ev.runtime_reason
      || any (shares ev.runtime_reason) f.oracle_evidence

  abbrev pub fault_accepted : Finding → Bool
  fault_accepted f =
      (f.evidence_fault == [])
      || accepted f.symbol f.evidence_fault
      || any (λ oracle. accepted oracle.symbol f.evidence_fault) f.oracle_evidence

  exemption_for_some :
      (subject reason : Text)
      → is_some (exemption_for clause exemptions subject reason) ≡ accepted subject reason
  unfolding exemption_for
  exemption_for_some subject reason =
      find-any (λ e. (e.subject == subject) && (e.reason == clause reason)) exemptions

  oracle_exemption_some :
      (f : Finding) (ev : SubjectEvidence)
      → is_some (oracle_exemption clause exemptions f ev) ≡ (
          accepted ev.symbol ev.runtime_reason
          || (not (f.evidence_fault == [])
              && (ev.runtime_reason == f.evidence_fault)
              && accepted f.symbol f.evidence_fault))
  unfolding oracle_exemption or_else
  oracle_exemption_some f ev = ground (
    arith,
    exemption_for_some ev.symbol ev.runtime_reason,
    exemption_for_some f.symbol f.evidence_fault,
  )

  shared_exemption_some :
      (reason : Text) (oracles : List SubjectEvidence)
      → is_some (shared_exemption clause exemptions reason oracles) ≡ any (shares reason) oracles
  unfolding shared_exemption or_else any
  shared_exemption_some reason [] = refl
  shared_exemption_some reason (oracle ∷ oracles) =
      ground (arith, exemption_for_some oracle.symbol reason, shared_exemption_some reason oracles)

  cover_oracles-Says :
      (f : Finding) (evs : List SubjectEvidence) (m : List Exemption)
      → Says
          (all (oracle_accepted f) evs)
          (filled m || any (λ ev. ev.runtime_unverifiable) evs)
          (cover_oracles clause exemptions f evs m)
  unfolding cover_oracles any
  cover_oracles-Says f [] m = (refl, ground arith)
  cover_oracles-Says f (ev ∷ evs) m =
      elim (Option-cases (oracle_exemption clause exemptions f ev)) [
        | inl p ↦ ground (arith, oracle_exemption_some f ev, cover_oracles-Says f evs m)
        | inr (e, p) ↦ ground (
          arith,
          oracle_exemption_some f ev,
          filled_note e m,
          cover_oracles-Says f evs m,
          cover_oracles-Says f evs (note_match e m),
        )
      ]

  cover_target-Says :
      (f : Finding) (m : List Exemption)
      → Says
          (target_accepted f)
          (filled m || f.target_evidence.runtime_unverifiable)
          (cover_target clause exemptions f m)
  unfolding cover_target or_else note_required
  cover_target-Says f m =
      let ev = f.target_evidence in
      let h₁ = exemption_for_some ev.symbol ev.runtime_reason in
      let h₂ = shared_exemption_some ev.runtime_reason f.oracle_evidence in
      elim (Option-cases (exemption_for clause exemptions ev.symbol ev.runtime_reason)) [
        | inr (e, p) ↦ ground (arith, h₁, filled_note e m)
        | inl p ↦
            elim (Option-cases
              (shared_exemption clause exemptions ev.runtime_reason f.oracle_evidence)) [
                | inl q ↦ ground (arith, h₁, h₂)
                | inr (e, q) ↦ ground (arith, h₁, h₂, filled_note e m)
              ]
      ]

  note_oracles-found :
      (fault : Text) (oracles : List SubjectEvidence) (m : List Exemption) (found : Bool)
      → (found ≡ true → filled m ≡ true)
      → let (all, found') = note_oracles clause exemptions fault oracles m found in
        (found' ≡ (found || any (λ oracle. accepted oracle.symbol fault) oracles))
        × (found' ≡ true → filled all ≡ true)
  unfolding note_oracles any
  note_oracles-found fault [] m found h = (ground arith, h)
  note_oracles-found fault (oracle ∷ oracles) m found h =
      elim (Option-cases (exemption_for clause exemptions oracle.symbol fault)) [
        | inl p ↦ ground (
          arith,
          exemption_for_some oracle.symbol fault,
          note_oracles-found fault oracles m found h,
        )
        | inr (e, p) ↦ ground (
          arith,
          exemption_for_some oracle.symbol fault,
          note_oracles-found fault oracles (note_match e m) true (λ _. filled_note e m),
        )
      ]

  cover_fault-Says :
      (f : Finding) (m : List Exemption)
      → Says
          (fault_accepted f)
          (filled m || not (f.evidence_fault == []))
          (cover_fault clause exemptions f m)
  unfolding cover_fault note_found
  cover_fault-Says f m =
      let e = exemption_for clause exemptions f.symbol f.evidence_fault in
      let h : is_some e ≡ true → filled (note_found e m) ≡ true = noted e m in
      let (p, q) =
        note_oracles-found f.evidence_fault f.oracle_evidence (note_found e m) (is_some e) h in
      ground (arith, p, q, exemption_for_some f.symbol f.evidence_fault)

  cover_all-Says :
      (f : Finding)
      → Says
          (all (oracle_accepted f) f.oracle_evidence && (target_accepted f && fault_accepted f))
          (any (λ ev. ev.runtime_unverifiable) f.oracle_evidence
            || (f.target_evidence.runtime_unverifiable || not (f.evidence_fault == [])))
          (cover_all clause exemptions f)
  unfolding cover_all
  cover_all-Says f =
      let target = f.target_evidence.runtime_unverifiable in
      let fault = not (f.evidence_fault == []) in
      then-Says (all (oracle_accepted f) f.oracle_evidence) (target_accepted f && fault_accepted f)
        (any (λ ev. ev.runtime_unverifiable) f.oracle_evidence) (target || fault)
        (cover_oracles clause exemptions f f.oracle_evidence [])
        (λ m. both (cover_target clause exemptions f m) (cover_fault clause exemptions f))
        (cover_oracles-Says f f.oracle_evidence [])
        (λ m.
          subst
            (λ n.
              Says (target_accepted f && fault_accepted f) n
                (both (cover_target clause exemptions f m) (cover_fault clause exemptions f)))
            (or_assoc (filled m) target fault)
            (then-Says (target_accepted f) (fault_accepted f) (filled m || target) fault
              (cover_target clause exemptions f m) (cover_fault clause exemptions f)
              (cover_target-Says f m) (cover_fault-Says f)))

any_never {ℓ} :
    {A : Type ℓ} (p : A → Bool) (xs : List A) → ((x : A) → p x ≡ false) → any p xs ≡ false
unfolding any
any_never p [] h = refl
any_never p (x ∷ xs) h = ground (arith, h x, any_never p xs h)

none_accepted :
    (clause : Text → Text) (f : Finding) (evs : List SubjectEvidence)
    → all (oracle_accepted clause [] f) evs ≡ not (any (λ ev. ev.runtime_unverifiable) evs)
unfolding any
none_accepted clause f [] = refl
none_accepted clause f (ev ∷ evs) = ground (arith, none_accepted clause f evs)

-- A record is covered if and only if something of it is unverified, and each unverifiable oracle,
-- the target where it is unverifiable and the evidence fault where there is one has an
-- acceptance: under its own subject and reason, or, for an oracle that failed with the fault of the
-- finding, under the symbol of the finding, and for the target and the fault also under an oracle
-- (for the target, one which was unverifiable for the same reason).
pub covered_exemptions-accepted :
    (clause : Text → Text) (exemptions : List Exemption) (f : Finding)
    → is_some (covered_exemptions clause exemptions f) ≡ (
        all (oracle_accepted clause exemptions f) f.oracle_evidence
        && (target_accepted clause exemptions f && fault_accepted clause exemptions f)
        && unverified f)
unfolding covered_exemptions any
covered_exemptions-accepted clause [] f = ground (
  arith,
  none_accepted clause f f.oracle_evidence,
  any_never (shares clause [] f.target_evidence.runtime_reason) f.oracle_evidence
      (λ oracle. ground arith),
  any_never (λ oracle. accepted clause [] oracle.symbol f.evidence_fault) f.oracle_evidence
      (λ oracle. refl),
)
covered_exemptions-accepted clause (e ∷ es) f =
    let fs : Bool = target_accepted clause (e ∷ es) f && fault_accepted clause (e ∷ es) f in
    unless_empty_some (all (oracle_accepted clause (e ∷ es) f) f.oracle_evidence && fs)
      (unverified f) (cover_all clause (e ∷ es) f) (cover_all-Says clause (e ∷ es) f)
