-- ===== src/Reconcile/Identity/Unique.antt =====
-- reconcile.go `candidateIdentityIndex`: when there is an index.
use gomutant.Prelude.{
  ℕ, zero, suc, ◌≡◌, ◌↔◌, refl, ◌∙◌, true, none, some, List, [], ◌∷◌, text_eq, is_some, ◌==◌,
  eq_sound, arith, Bool-cases, Option-cases, inl, inr, get_elem?,
}
use gomutant.Prelude.Map.{Map, get, put, get-put}
use gomutant.Record.{SurvivorKey, key_eq, Candidate}
use gomutant.Reconcile.Identity.{candidate_key, index_from, candidate_identity_index}
use gomutant.Reconcile.Identity.Laws.{Names, candidate_identity_index-exact}

-- No identity is that of two candidates.
abbrev pub Unique : List Candidate → Type 0
Unique candidates =
    (k : SurvivorKey) (i j : ℕ) → Names candidates i k → Names candidates j k → i ≡ j

-- None of the candidates is indexed yet.
abbrev Fresh : List Candidate → Map SurvivorKey ℕ → Type 0
Fresh cs m = (n : ℕ) (c : Candidate) → get_elem? cs n ≡ some c → get (candidate_key c) m ≡ none

suc_injective : (i j : ℕ) → suc i ≡ suc j → i ≡ j
suc_injective i j e = omega (arith, e)

Unique-tail : (c : Candidate) (cs : List Candidate) → Unique (c ∷ cs) → Unique cs
Unique-tail c cs u k i j a b = suc_injective i j (u k (suc i) (suc j) a b)

put-Fresh :
    (i : ℕ) (c : Candidate) (cs : List Candidate) (m : Map SurvivorKey ℕ)
    → Unique (c ∷ cs)
    → Fresh (c ∷ cs) m
    → Fresh cs (put (candidate_key c) i m)
put-Fresh i c cs m u fresh n d e =
    get-put (candidate_key c) (candidate_key d) i m
    ∙ elim (Bool-cases (candidate_key c == candidate_key d)) [
      | inl y ↦
          let same = eq_sound (candidate_key c) (candidate_key d) y in
          let p : zero ≡ suc n = u (candidate_key d) 0 (suc n) (c, refl, same) (d, e, refl) in
          absurd (omega (arith, p))
      | inr x ↦ rw x (fresh (suc n) d e)
    ]

index_from_total :
    (i : ℕ) (cs : List Candidate) (m : Map SurvivorKey ℕ)
    → Unique cs
    → Fresh cs m
    → (r : Map SurvivorKey ℕ) × (index_from i cs m ≡ some r)
unfolding index_from
index_from_total i [] m u fresh = (m, refl)
index_from_total i (c ∷ cs) m u fresh =
    let (r, e) =
      index_from_total (suc i) cs (put (candidate_key c) i m) (Unique-tail c cs u)
        (put-Fresh i c cs m u fresh) in
    (r, rw (index_from, fresh 0 c refl) e)

index-Unique :
    (candidates : List Candidate) (m : Map SurvivorKey ℕ)
    → candidate_identity_index candidates ≡ some m
    → Unique candidates
index-Unique candidates m e k i j a b =
    let x : get k m ≡ some i = (candidate_identity_index-exact candidates m e k i).1 a in
    let y : get k m ≡ some j = (candidate_identity_index-exact candidates m e k j).1 b in cc

Unique-index :
    (candidates : List Candidate)
    → Unique candidates
    → (m : Map SurvivorKey ℕ) × (candidate_identity_index candidates ≡ some m)
unfolding candidate_identity_index get
Unique-index candidates u = index_from_total 0 candidates [] u (λ n c h. refl)

-- There is an index exactly if no identity is that of two candidates; and an identity has the
-- position `i` in the index exactly if, besides, it is that of the candidate at `i`.
pub candidate_identity_index_iff-Unique :
    (candidates : List Candidate)
    → ((is_some (candidate_identity_index candidates) ≡ true) ↔ Unique candidates)
      × ((k : SurvivorKey) (i : ℕ)
          → ((m : Map SurvivorKey ℕ) × (candidate_identity_index candidates ≡ some m)
              × (get k m ≡ some i))
            ↔ (Unique candidates × Names candidates i k))
candidate_identity_index_iff-Unique candidates = (
  (
    (λ h. elim (Option-cases (candidate_identity_index candidates)) [
      | inl n ↦ absurd (ground arith)
      | inr (m, e) ↦ index-Unique candidates m e
    ]),
    λ u. let (m, e) = Unique-index candidates u in rw e refl,
  ),
  λ k i. (
    (λ (m, e, g).
        (index-Unique candidates m e, (candidate_identity_index-exact candidates m e k i).0 g)),
    λ (u, n).
        let (m, e) = Unique-index candidates u in
        (m, e, (candidate_identity_index-exact candidates m e k i).1 n),
  ),
)
