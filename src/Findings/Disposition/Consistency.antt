-- ===== src/Findings/Disposition/Consistency.antt =====
-- findings.go: the disposition methods keep the attested and withdrawn lists of a finding consistent.
use gomutant.Prelude.{
  ◌≡◌, ◌≢◌, refl, sym, ◌∙◌, true, false, not, some, List, [], ◌∷◌, ◌++◌, Text, text_eq, ◌==◌,
  eq_iff, eq_sound, any, find, Result, Result-cases, err, ok, arith, Bool-cases, Option-cases, inl,
  inr, any_snoc, any-filter-not, subst,
}
use gomutant.Record.{Finding, Survivor, SurvivorKey, key_eq, Attestation}
use gomutant.Findings.Keys.{
  DistinctBy, DistinctBy-snoc, DistinctBy-filter, DistinctBy-delete_first, DistinctBy-update_first,
  any-update_first, any-delete_first, any-false-filter,
}
use gomutant.Findings.Disposition.{
  oracle_execution_policy_issue, attestation_key, withdrawn_key, survivor_at, attested_at,
  withdrawn_at, is_attested, Refusal, without_withdrawn, add_attestation, replace_attestation,
  move_to_withdrawn, attestation_of, withdrawn_of, reworded, attest, reattest, withdraw_attestation,
  withdrawn_site,
}

-- Every survivor has one disposition at most: no key is attested twice, none is withdrawn twice,
-- and none is both.
abbrev pub Consistent : Finding → Type 0
Consistent f =
    DistinctBy attestation_key f.attested
    × DistinctBy withdrawn_key f.withdrawn
    × ((k : SurvivorKey) → is_attested f k ≡ true → any (withdrawn_at k) f.withdrawn ≡ false)

-- What an accepted attestation was given and leaves.
pub attest_inv :
    (k : SurvivorKey) (reason : Text) (f g : Finding)
    → attest k reason f ≡ ok g
    → (s : Survivor) × (reason ≢ [])
      × (oracle_execution_policy_issue f ≡ [])
      × (find (survivor_at k) f.survivors ≡ some s)
      × (any (attested_at k) f.attested ≡ false)
      × (g ≡ add_attestation k reason s.site f)
unfolding attest
attest_inv k reason f g h = elim (Option-cases (find (survivor_at k) f.survivors)) [
  | inl e ↦ absurd (ground (arith))
  | inr (s, e) ↦ (
    s,
    ground (arith, eq_iff reason []),
    ground (arith, eq_iff (oracle_execution_policy_issue f) []),
    e,
    ground arith,
    ground arith,
  )
]

reattest_inv :
    (k : SurvivorKey) (reason : Text) (f g : Finding)
    → reattest k reason f ≡ ok g
    → (s : Survivor) × (find (survivor_at k) f.survivors ≡ some s)
      × (any (attested_at k) f.attested ≡ true)
      × (g ≡ replace_attestation k reason s.site f)
unfolding reattest
reattest_inv k reason f g h = elim (Option-cases (find (survivor_at k) f.survivors)) [
  | inl e ↦ absurd (ground (arith))
  | inr (s, e) ↦ (s, e, ground arith, ground arith)
]

withdraw_inv :
    (k : SurvivorKey) (reason : Text) (f g : Finding)
    → withdraw_attestation k reason f ≡ ok g
    → (a : Attestation) × (find (attested_at k) f.attested ≡ some a)
      × (g ≡ move_to_withdrawn k reason a f)
unfolding withdraw_attestation
withdraw_inv k reason f g h = elim (Option-cases (find (attested_at k) f.attested)) [
  | inl e ↦ absurd (ground (arith))
  | inr (a, e) ↦ (a, e, ground arith)
]

-- One lemma on a list of which one key is taken away.
without_key : (k : SurvivorKey) (f : Finding) → any (withdrawn_at k) (without_withdrawn k f) ≡ false
without_key k f = any-filter-not (withdrawn_at k) f.withdrawn

add-Consistent :
    (k : SurvivorKey) (reason site : Text) (f : Finding)
    → any (attested_at k) f.attested ≡ false
    → Consistent f
    → Consistent (add_attestation k reason site f)
unfolding add_attestation
add-Consistent k reason site f free (da, dw, apart) = (
  DistinctBy-snoc attestation_key f.attested (attestation_of k reason site) da free,
  DistinctBy-filter withdrawn_key (λ w. not (withdrawn_at k w)) f.withdrawn dw,
  λ j h. elim (Bool-cases (k == j)) [
    | inl e ↦
        subst (λ j. any (withdrawn_at j) (without_withdrawn k f) ≡ false) (eq_sound k j e)
          (without_key k f)
    | inr e ↦
        any-false-filter withdrawn_key (withdrawn_at j) (λ w. not (withdrawn_at k w)) f.withdrawn
          (apart j
            (ground (arith, any_snoc (attested_at j) f.attested (attestation_of k reason site))))
  ],
)

replace-Consistent :
    (k : SurvivorKey) (reason site : Text) (f : Finding)
    → Consistent f
    → Consistent (replace_attestation k reason site f)
unfolding replace_attestation
replace-Consistent k reason site f (da, dw, apart) = (
  DistinctBy-update_first attestation_key (reworded reason site) (attested_at k) (λ a. refl)
      f.attested da,
  dw,
  λ j h. apart j (
      sym (
        any-update_first attestation_key (reworded reason site) (attested_at k) j (λ a. refl)
          f.attested)
      ∙ h),
)

withdrawn_key_after :
    (k j : SurvivorKey) (prior reason site : Text) (f : Finding)
    → (k == j) ≡ false
    → any (withdrawn_at j) (without_withdrawn k f ++ withdrawn_of k prior reason site ∷ [])
      ≡ any (withdrawn_at j) (without_withdrawn k f)
withdrawn_key_after k j prior reason site f e =
    ground
      (arith, any_snoc (withdrawn_at j) (without_withdrawn k f) (withdrawn_of k prior reason site))

move-Consistent :
    (k : SurvivorKey) (reason : Text) (a : Attestation) (f : Finding)
    → Consistent f
    → Consistent (move_to_withdrawn k reason a f)
unfolding move_to_withdrawn
move-Consistent k reason a f (da, dw, apart) =
    let site = withdrawn_site k f a in
    (
      DistinctBy-delete_first attestation_key (attested_at k) f.attested da,
      DistinctBy-snoc withdrawn_key (without_withdrawn k f) (withdrawn_of k a.reason reason site)
          (DistinctBy-filter withdrawn_key (λ w. not (withdrawn_at k w)) f.withdrawn dw)
          (without_key k f),
      λ j h.
          let both = any-delete_first attestation_key k j f.attested da in
          withdrawn_key_after k j a.reason reason site f (ground arith)
          ∙ any-false-filter withdrawn_key (withdrawn_at j) (λ w. not (withdrawn_at k w))
              f.withdrawn (apart j (ground arith)),
    )

-- A call of one of the three methods.
pub data Call : Type 0 where
  attesting reattesting withdrawing : SurvivorKey → Text → Call

pub edit : Call → Finding → Result Refusal Finding
edit (attesting k reason) f = attest k reason f
edit (reattesting k reason) f = reattest k reason f
edit (withdrawing k reason) f = withdraw_attestation k reason f

-- A refused call leaves the finding as it was.
pub edits : List Call → Finding → Finding
unfolding edit
edits [] f = f
edits (e ∷ es) f = elim (edit e f) [ err _ ↦ edits es f | ok g ↦ edits es g ]

edit-Consistent : (e : Call) (f g : Finding) → edit e f ≡ ok g → Consistent f → Consistent g
unfolding edit
edit-Consistent (attesting k reason) f g h c =
    let (s, _, _, _, free, p) = attest_inv k reason f g h in
    subst Consistent (sym p) (add-Consistent k reason s.site f free c)
edit-Consistent (reattesting k reason) f g h c =
    let (s, _, _, p) = reattest_inv k reason f g h in
    subst Consistent (sym p) (replace-Consistent k reason s.site f c)
edit-Consistent (withdrawing k reason) f g h c =
    let (a, _, p) = withdraw_inv k reason f g h in
    subst Consistent (sym p) (move-Consistent k reason a f c)

-- Any sequence of attest, reattest and withdraw calls, refused ones included, leads from a finding
-- whose dispositions are consistent (no key attested twice, none withdrawn twice, none both) to
-- one whose dispositions are consistent.
pub edits-Consistent : (es : List Call) (f : Finding) → Consistent f → Consistent (edits es f)
unfolding edits
edits-Consistent [] f c = c
edits-Consistent (e ∷ es) f c = elim (Result-cases (edit e f)) [
  | inl (x, p) ↦ rw (edits, p) (edits-Consistent es f c)
  | inr (g, p) ↦ rw (edits, p) (edits-Consistent es g (edit-Consistent e f g p c))
]
