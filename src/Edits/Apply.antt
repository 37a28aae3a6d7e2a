-- ===== src/Edits/Apply.antt =====
-- ephemeral.go `ApplyEdits`: an edit is applied at the one place where it matches.
use gomutant.Prelude.{
  ℕ, zero, suc, ◌+◌, ◌≤◌, ◌≡◌, ◌≢◌, ◌↔◌, refl, sym, ap, ap₂, Result-cases, ◌∙◌, Bool, true, some,
  List, [], ◌∷◌, ◌++◌, Text, text_eq, ◌==◌, nat_eq, eq_iff, length, take, drop, arith, Bool-cases,
  inl, inr, subst, append_assoc, length-append, ok, eqb_iff,
}
use gomutant.Edits.{Edit, replace_once, apply_one, apply_from, apply_edits}
use gomutant.Edits.Matches.{
  matches, index-matches, overlapping_match_starts-matches, matches-occurrence, matches_unique,
}

-- The edit takes `s` to `t`: its nonempty match stands at one place, where the replacement goes.
abbrev Replaces : Edit → Text → Text → Type 0
Replaces e s t =
    (e.old ≢ [])
    × ((pre : Text) × (post : Text) × (s ≡ pre ++ e.old ++ post)
        × (t ≡ pre ++ e.new ++ post)
        × ((pre' post' : Text) → s ≡ pre' ++ e.old ++ post' → pre' ≡ pre))

apply_one_inv :
    (i : ℕ) (s t : Text) (e : Edit)
    → apply_one i s e ≡ ok t
    → (e.old ≢ []) × (matches e.old s ≡ 1) × (t ≡ replace_once e.old e.new s)
unfolding apply_one
apply_one_inv i s t e h = elim (Bool-cases (e.old == [])) [
  | inl y ↦ absurd (ground arith)
  | inr n ↦
      let ne : e.old ≢ [] = λ p. ground (arith, eq_iff e.old []) in
      let m = overlapping_match_starts-matches s e.old ne in
      (ne, ground (arith, m, eqb_iff (matches e.old s) 1), ground (arith, m))
]

apply_one_sound : (i : ℕ) (s t : Text) (e : Edit) → apply_one i s e ≡ ok t → Replaces e s t
unfolding replace_once
apply_one_sound i s t e h =
    let (ne, m, q) = apply_one_inv i s t e h in
    elim (index-matches e.old s) [
      | inl (_, z) ↦ absurd (omega (arith, z, m))
      | inr (j, f, split, l, _) ↦ (
        ne,
        (
          take j s,
          drop (j + length e.old) s,
          split,
          q ∙ rw (replace_once, f) refl,
          λ pre' post' w.
              matches_unique e.old s pre' post' (take j s) (drop (j + length e.old) s) ne m w split,
        ),
      )
    ]

take-drop {ℓ} : {A : Type ℓ} (n : ℕ) (s : List A) → take n s ++ drop n s ≡ s
take-drop zero s = refl
take-drop (suc n) [] = refl
take-drop (suc n) (x ∷ s) = ap (λ t. x ∷ t) (take-drop n s)

length-take {ℓ} : {A : Type ℓ} (n : ℕ) (s : List A) → n ≤ length s → length (take n s) ≡ n
length-take zero s h = refl
length-take (suc n) [] h = absurd (omega arith)
length-take (suc n) (x ∷ s) h = omega (arith, length-take n s)

-- One place means one match.
unique-matches :
    (p s pre post : Text)
    → p ≢ []
    → s ≡ pre ++ p ++ post
    → ((pre' post' : Text) → s ≡ pre' ++ p ++ post' → pre' ≡ pre)
    → matches p s ≡ 1
unique-matches p s pre post ne e u =
    let one = subst (λ t. 1 ≤ matches p t) (sym e) (matches-occurrence p pre post ne) in
    elim (index-matches p s) [
      | inl (_, z) ↦ absurd (omega (arith, z, one))
      | inr (i, _, split, l, m) ↦ elim (index-matches p (drop (suc i) s)) [
        | inl (_, z) ↦ omega (arith, m, z)
        | inr (j, _, again, _, _) ↦
            let first = u (take i s) (drop (i + length p) s) split in
            let rest = drop (suc i) s in
            let second = u (take (suc i) s ++ take j rest) (drop (j + length p) rest) (
              sym (take-drop (suc i) s)
              ∙ ap (λ t. take (suc i) s ++ t) again
              ∙ sym (append_assoc (take (suc i) s) (take j rest ++ p) (drop (j + length p) rest))
              ∙ ap (λ t. t ++ drop (j + length p) rest)
                  (sym (append_assoc (take (suc i) s) (take j rest) p))) in
            absurd (
              omega (
                arith,
                ap length (first ∙ sym second),
                length-append (take (suc i) s) (take j rest),
                length-take i s,
                length-take (suc i) s,
                l,
              ))
      ]
    ]

drop-append {ℓ} : {A : Type ℓ} (xs ys : List A) → drop (length xs) (xs ++ ys) ≡ ys
drop-append [] ys = refl
drop-append (x ∷ xs) ys = drop-append xs ys

-- What stands after a match at a known place.
after :
    (p pre' post' pre post s : Text)
    → s ≡ pre' ++ p ++ post'
    → s ≡ pre ++ p ++ post
    → pre' ≡ pre
    → post' ≡ post
after p pre' post' pre post s e' e q =
    sym (drop-append (pre' ++ p) post')
    ∙ ap (drop (length (pre' ++ p))) (sym e' ∙ e)
    ∙ ap (λ x. drop (length (x ++ p)) (pre ++ p ++ post)) q
    ∙ drop-append (pre ++ p) post

apply_one_complete : (i : ℕ) (s t : Text) (e : Edit) → Replaces e s t → apply_one i s e ≡ ok t
unfolding apply_one
apply_one_complete i s t e (ne, (pre, post, split, q, u)) =
    let m = unique-matches e.old s pre post ne split u in
    let count = overlapping_match_starts-matches s e.old ne ∙ ap some m in
    let done : apply_one i s e ≡ ok (replace_once e.old e.new s) =
      ground (arith, count, eq_iff e.old []) in
    let (_, (pre', post', split', q', _)) =
      apply_one_sound i s (replace_once e.old e.new s) e done in
    let same = u pre' post' split' in
    done
    ∙ ap ok (
        q'
        ∙ ap₂ (λ a b. a ++ e.new ++ b) same (after e.old pre' post' pre post s split' split same)
        ∙ sym q)

-- The edits one after the other.
abbrev pub Edited : Text → List Edit → Text → Type 0
Edited s [] t = s ≡ t
Edited s (e ∷ es) t = (u : Text) × Replaces e s u × Edited u es t

apply_from_sound :
    (alive : ℕ → Bool) (i : ℕ) (es : List Edit) (s t : Text)
    → apply_from alive i es s ≡ ok t
    → Edited s es t
unfolding apply_from
apply_from_sound alive i [] s t h = ground arith
apply_from_sound alive i (e ∷ es) s t h = elim (Bool-cases (alive i)) [
  | inr n ↦ let z = rw (apply_from, n) at h in absurd (cc)
  | inl y ↦ elim (Result-cases (apply_one i s e)) [
    | inl (x, p) ↦ let z = rw (apply_from, y, p) at h in absurd (cc)
    | inr (u, p) ↦ (
      u,
      apply_one_sound i s u e p,
      apply_from_sound alive (suc i) es u t (rw (apply_from, y, p) at h),
    )
  ]
]

apply_from_complete :
    (alive : ℕ → Bool)
    → ((i : ℕ) → alive i ≡ true)
    → (i : ℕ) (es : List Edit) (s t : Text) → Edited s es t
    → apply_from alive i es s ≡ ok t
unfolding apply_from
apply_from_complete alive live i [] s t h = rw (apply_from, live i) (ap ok h)
apply_from_complete alive live i (e ∷ es) s t (u, r, h) =
    rw (apply_from, live i, apply_one_complete i s u e r)
      (apply_from_complete alive live (suc i) es u t h)

-- Under a context that is not canceled, edits are accepted exactly if there is one and each match
-- is not empty and stands at one place of the source that the edits before it leave; the result is
-- the source with each match replaced there.
pub apply_edits_iff-Edited :
    (alive : ℕ → Bool)
    → ((i : ℕ) → alive i ≡ true)
    → (src out : Text) (edits : List Edit)
    → (apply_edits true alive src edits ≡ ok out) ↔ ((edits ≢ []) × Edited src edits out)
unfolding apply_edits
apply_edits_iff-Edited alive live src out [] = ((λ h. absurd (cc)), λ (n, h). absurd (n refl))
apply_edits_iff-Edited alive live src out (e ∷ es) = (
  (λ h. ((λ z. cc), apply_from_sound alive 0 (e ∷ es) src out h)),
  λ (n, h). apply_from_complete alive live 0 (e ∷ es) src out h,
)
