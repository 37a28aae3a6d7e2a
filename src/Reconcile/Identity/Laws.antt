-- ===== src/Reconcile/Identity/Laws.antt =====
-- reconcile.go `candidateIdentityIndex`, `flaggedCandidateIndexes`: what the indexes name.
use gomutant.Prelude.{
  ℕ, zero, suc, ◌+◌, ◌≡◌, ◌⊎◌, ◌↔◌, refl, sym, ap, ◌∙◌, true, none, some, List, [], ◌∷◌, text_eq,
  nat_eq, ◌==◌, eq_iff, eq_refl, eq_sound, arith, Bool-cases, Option-cases, inl, inr, subst, length,
  get_elem?, All, All-imp,
}
use gomutant.Prelude.Map.{Map, get, put, get-put}
use gomutant.Record.{
  Finding, Survivor, SurvivorKey, key_eq, CandidateEvidence, Candidate, Generation,
}
use gomutant.Findings.Disposition.{survivor_key}
use gomutant.Reconcile.Identity.{
  candidate_key, evidence_key, index_from, candidate_identity_index, reidentify, survivors_known,
  runnable_at, flag, flagged_candidate_indexes,
}

-- The candidate at an index has the identity.
abbrev pub Names : List Candidate → ℕ → SurvivorKey → Type 0
Names candidates i k =
    (c : Candidate) × (get_elem? candidates i ≡ some c)
    × (record { position = c.position; operator = c.operator } ≡ k)

-- What an index says after the candidates `cs` from `i` on.
abbrev Indexed : ℕ → List Candidate → Map SurvivorKey ℕ → Map SurvivorKey ℕ → Type 0
Indexed i cs m r =
    ((k : SurvivorKey) (j : ℕ) → get k m ≡ some j → get k r ≡ some j)
    × ((k : SurvivorKey) (j : ℕ)
        → get k r ≡ some j
        → (get k m ≡ some j) ⊎ ((n : ℕ) × (j ≡ i + n) × Names cs n k))
    × ((n : ℕ) (c : Candidate) → get_elem? cs n ≡ some c → get (candidate_key c) r ≡ some (i + n))

-- What the index said before the candidate `c`, it says after: `c` is no duplicate.
put-keeps :
    (i : ℕ) (c : Candidate) (m : Map SurvivorKey ℕ)
    → get (candidate_key c) m ≡ none
    → (k : SurvivorKey) (j : ℕ) → get k m ≡ some j
    → get k (put (candidate_key c) i m) ≡ some j
put-keeps i c m free k j h =
    get-put (candidate_key c) k i m ∙ (elim (Bool-cases (candidate_key c == k)) [
      | inl y ↦ absurd (ground (arith, ap (λ x. get x m) (eq_sound (candidate_key c) k y)))
      | inr n ↦ rw n h
    ])

put-back :
    (i : ℕ) (c : Candidate) (m : Map SurvivorKey ℕ) (k : SurvivorKey) (j : ℕ)
    → get k (put (candidate_key c) i m) ≡ some j
    → (get k m ≡ some j) ⊎ ((j ≡ i) × (candidate_key c ≡ k))
put-back i c m k j h = elim (Bool-cases (candidate_key c == k)) [
  | inl y ↦ inr (ground (arith, get-put (candidate_key c) k i m), eq_sound (candidate_key c) k y)
  | inr n ↦ inl (ground (arith, get-put (candidate_key c) k i m))
]

index_from-Indexed :
    (i : ℕ) (cs : List Candidate) (m r : Map SurvivorKey ℕ)
    → index_from i cs m ≡ some r
    → Indexed i cs m r
unfolding index_from
index_from-Indexed i [] m r e =
    let p : m ≡ r = cc in
    (
      (λ k j h. subst (λ x. get k x ≡ some j) p h),
      (λ k j h. inl (subst (λ x. get k x ≡ some j) (sym p) h)),
      (λ n c h. absurd (cc)),
    )
index_from-Indexed i (c ∷ cs) m r e = elim (Option-cases (get (candidate_key c) m)) [
  | inr (j, p) ↦ absurd (ground arith)
  | inl p ↦
      let (keep, back, all) =
        index_from-Indexed (suc i) cs (put (candidate_key c) i m) r (ground arith) in
      (
        (λ k j h. keep k j (put-keeps i c m p k j h)),
        (λ k j h. elim (back k j h) [
          | inr (n, q, x) ↦ inr (suc n, omega (arith, q), x)
          | inl y ↦ elim (put-back i c m k j y) [
            | inl old ↦ inl old
            | inr (q, w) ↦ inr (0, omega (arith, q), (c, refl, w))
          ]
        ]),
        named i c cs r
            (keep (candidate_key c) i (
              get-put (candidate_key c) (candidate_key c) i m
              ∙ rw (eq_refl (candidate_key c)) refl))
            all,
      )
]
  where
    named :
        (i : ℕ) (c : Candidate) (cs : List Candidate) (r : Map SurvivorKey ℕ)
        → get (candidate_key c) r ≡ some i
        → ((n : ℕ) (c : Candidate)
            → get_elem? cs n ≡ some c
            → get (candidate_key c) r ≡ some (suc i + n))
        → (n : ℕ) (d : Candidate) → get_elem? (c ∷ cs) n ≡ some d
        → get (candidate_key d) r ≡ some (i + n)
    named i c cs r h all zero d e =
        let p : c ≡ d = cc in ap (λ x. get (candidate_key x) r) (sym p) ∙ h ∙ ap some (omega arith)
    named i c cs r h all (suc n) d e = all n d e ∙ ap some (omega arith)

-- The index of a regenerated enumeration, where its identities are unique, gives an identity the
-- index of the candidate that has it, and no other identity an index.
pub candidate_identity_index-exact :
    (candidates : List Candidate) (m : Map SurvivorKey ℕ)
    → candidate_identity_index candidates ≡ some m
    → (k : SurvivorKey) (i : ℕ) → (get k m ≡ some i) ↔ Names candidates i k
unfolding candidate_identity_index get
candidate_identity_index-exact candidates m e k i =
    let (_, back, all) = index_from-Indexed 0 candidates [] m e in
    (
      (λ h. elim (back k i h) [
        | inl x ↦ absurd (cc)
        | inr (n, q, x) ↦ subst (λ j. Names candidates j k) (omega (arith, q)) x
      ]),
      λ (c, g, q). subst (λ j. get j m ≡ some i) q (all i c g ∙ ap some (omega arith)),
    )

-- A flagged index is that of a runnable candidate that recorded evidence names.
abbrev pub Flagged : List Candidate → List CandidateEvidence → ℕ → Type 0
Flagged candidates evidence i =
    (runnable_at candidates i ≡ true)
    × ((n : ℕ) × (e : CandidateEvidence) × (get_elem? evidence n ≡ some e)
        × Names candidates i (evidence_key e))

-- An identity that some candidate of the enumeration has.
abbrev pub Known : List Candidate → SurvivorKey → Type 0
Known candidates k = (i : ℕ) × Names candidates i k

abbrev Exact : List Candidate → Map SurvivorKey ℕ → Type 0
Exact candidates m = (k : SurvivorKey) (i : ℕ) → (get k m ≡ some i) ↔ Names candidates i k

flag_sound :
    (candidates : List Candidate) (m : Map SurvivorKey ℕ)
    → Exact candidates m
    → (es : List CandidateEvidence) (is : List ℕ) → flag candidates m es ≡ some is
    → All (Flagged candidates es) is × All (λ e. Known candidates (evidence_key e)) es
unfolding flag
flag_sound candidates m exact [] is h =
    let p : [] ≡ is = cc in (subst (All (Flagged candidates [])) p tt, tt)
flag_sound candidates m exact (e ∷ es) is h = elim (Option-cases (get (evidence_key e) m)) [
  | inl n ↦ absurd (ground arith)
  | inr (i, g) ↦ elim (Option-cases (flag candidates m es)) [
    | inl n ↦ absurd (ground arith)
    | inr (js, p) ↦
        let (flagged, known) = flag_sound candidates m exact es js p in
        let names = (exact (evidence_key e) i).0 g in
        let here : Flagged candidates (e ∷ es) i = (ground arith, (0, e, refl, names)) in
        let there =
          All-imp (Flagged candidates es) (Flagged candidates (e ∷ es))
            (λ j (r, (n, x, q, z)). (r, (suc n, x, q, z))) js flagged in
        let q : i ∷ js ≡ is = ground arith in
        (subst (All (Flagged candidates (e ∷ es))) q (here, there), ((i, names), known))
  ]
]

survivors-Known :
    (candidates : List Candidate) (m : Map SurvivorKey ℕ)
    → Exact candidates m
    → (ss : List Survivor) → survivors_known m ss ≡ true
    → All (λ s. Known candidates (survivor_key s)) ss
unfolding survivors_known
survivors-Known candidates m exact [] h = tt
survivors-Known candidates m exact (s ∷ ss) h = elim (Option-cases (get (survivor_key s) m)) [
  | inl n ↦ absurd (ground arith)
  | inr (i, g) ↦
      ((i, (exact (survivor_key s) i).0 g), survivors-Known candidates m exact ss (ground arith))
]

-- Where the flagged candidates of a served record are re-identified, the enumeration has the
-- recorded candidate count and length; every recorded survivor and every candidate of the recorded
-- evidence is one of its candidates; and each flagged index is that of a runnable candidate that
-- the evidence names.
pub flagged_candidate_indexes_sound :
    (g : Generation) (rec : Finding) (is : List ℕ)
    → flagged_candidate_indexes g rec ≡ some is
    → (g.candidate_count ≡ rec.candidate_count)
      × (length g.candidates ≡ rec.generated)
      × All (λ s. Known g.candidates (survivor_key s)) rec.survivors
      × All (λ e. Known g.candidates (evidence_key e)) rec.candidate_evidence
      × All (Flagged g.candidates rec.candidate_evidence) is
unfolding flagged_candidate_indexes reidentify
flagged_candidate_indexes_sound g rec is h = elim (Option-cases (reidentify g rec)) [
  | inl n ↦ absurd (ground arith)
  | inr (m, p) ↦
      let exact : Exact g.candidates m =
        candidate_identity_index-exact g.candidates m (ground arith) in
      let (flagged, known) =
        flag_sound g.candidates m exact rec.candidate_evidence is (ground arith) in
      (
        ground (arith, eq_iff g.candidate_count rec.candidate_count),
        ground (arith, eq_iff (length g.candidates) rec.generated),
        survivors-Known g.candidates m exact rec.survivors (ground arith),
        known,
        flagged,
      )
]
