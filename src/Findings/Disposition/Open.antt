-- ===== src/Findings/Disposition/Open.antt =====
-- findings.go: what the disposition methods do to the open survivors, and how they undo each other.
use gomutant.Prelude.{
  ◌≡◌, ◌≢◌, ◌↔◌, refl, sym, ap, ◌∙◌, Bool, true, false, not, ◌&&◌, some, List, [], ◌∷◌, ◌++◌, Text,
  text_eq, eq_iff, eq_refl, eq_sound, any, filter, find, Result, err, ok, arith, any_snoc,
  filter-filter, any-filter, any-filter-not, filter-not-id, find-any, delete_first-last, find-last,
  text_lt_connex, text_beq_iff, text_lt_asym, text_not_lt_trans,
}
use gomutant.Prelude.Sort.{sort, any-sort, filter-sort}
use gomutant.Record.{Finding, Survivor, SurvivorKey, key_eq}
use gomutant.Findings.Disposition.{
  oracle_execution_policy_issue, survivor_key, survivor_at, key_lt, attested_at, withdrawn_at,
  survivor_lt, is_attested, open_survivors, without_withdrawn, add_attestation, move_to_withdrawn,
  attestation_of, withdrawn_of, attest, withdraw_attestation, withdrawn_site,
}
use gomutant.Findings.Disposition.Consistency.{attest_inv}

key_lt_asym : (a b : SurvivorKey) → key_lt b a ≡ true → key_lt a b ≡ false
key_lt_asym a b h = ground (
  arith,
  text_beq_iff a.position b.position,
  text_beq_iff b.position a.position,
  text_lt_asym b.position a.position,
  text_lt_asym b.operator a.operator,
)

key_lt_trans : (a b c : SurvivorKey) → key_lt b a ≡ false → key_lt c b ≡ false → key_lt c a ≡ false
key_lt_trans a b c h k = ground (
  arith,
  text_beq_iff c.position a.position,
  text_beq_iff b.position a.position,
  text_beq_iff c.position b.position,
  text_lt_connex a.position b.position,
  text_lt_connex c.position b.position,
  text_not_lt_trans a.position b.position c.position,
  text_not_lt_trans a.operator b.operator c.operator,
)

filter-pointwise {ℓ} :
    {A : Type ℓ} (p q : A → Bool)
    → ((x : A) → p x ≡ q x)
    → (xs : List A) → filter p xs ≡ filter q xs
unfolding filter
filter-pointwise p q h [] = refl
filter-pointwise p q h (x ∷ xs) = ground (arith, h x, filter-pointwise p q h xs)

filter-sort_survivors :
    (p : Survivor → Bool) (xs : List Survivor)
    → filter p (sort survivor_lt xs) ≡ sort survivor_lt (filter p xs)
filter-sort_survivors p xs =
    filter-sort survivor_lt
      (λ a b c. key_lt_trans (survivor_key a) (survivor_key b) (survivor_key c))
      (λ a b. key_lt_asym (survivor_key a) (survivor_key b)) p xs

-- An accepted attestation closes the survivors of its key, and changes nothing else in the list of
-- the open survivors, nor its order.
pub attest-open :
    (k : SurvivorKey) (reason : Text) (f g : Finding)
    → attest k reason f ≡ ok g
    → open_survivors g ≡ filter (λ s. not (survivor_at k s)) (open_survivors f)
unfolding open_survivors add_attestation
attest-open k reason f g h =
    let (s, _, _, _, _, p) = attest_inv k reason f g h in
    let isOpen : Finding → Survivor → Bool = λ x y. not (is_attested x (survivor_key y)) in
    ap open_survivors p
    ∙ ap (sort survivor_lt) (
        filter-pointwise (isOpen (add_attestation k reason s.site f))
          (λ y. isOpen f y && not (survivor_at k y))
          (λ y. ground (
            arith,
            any_snoc (attested_at (survivor_key y)) f.attested (attestation_of k reason s.site),
            eq_iff k (survivor_key y),
            eq_iff (survivor_key y) k,
          ))
          f.survivors
        ∙ sym (filter-filter (λ y. not (survivor_at k y)) (isOpen f) f.survivors))
    ∙ sym (filter-sort_survivors (λ y. not (survivor_at k y)) (filter (isOpen f) f.survivors))

any_split {ℓ} :
    {A : Type ℓ} (p q : A → Bool) (b : Bool)
    → ((x : A) → q x ≡ true → p x ≡ b)
    → (xs : List A) → any (λ x. p x && q x) xs ≡ (b && any q xs)
unfolding any
any_split p q b h [] = ground arith
any_split p q b h (x ∷ xs) = ground (arith, h x, any_split p q b h xs)

open_at :
    (k : SurvivorKey) (f : Finding)
    → any (survivor_at k) (open_survivors f)
      ≡ (not (is_attested f k) && any (survivor_at k) f.survivors)
unfolding open_survivors
open_at k f =
    any-sort survivor_lt (survivor_at k)
      (filter (λ s. not (is_attested f (survivor_key s))) f.survivors)
    ∙ any-filter (survivor_at k) (λ s. not (is_attested f (survivor_key s))) f.survivors
    ∙ any_split (λ s. not (is_attested f (survivor_key s))) (survivor_at k) (not (is_attested f k))
        (λ s e. ap (λ j. not (is_attested f j)) (eq_sound (survivor_key s) k e)) f.survivors

abbrev pub is_ok {ℓ κ} : {E : Type ℓ} {A : Type κ} → Result E A → Bool
is_ok (err _) = false
is_ok (ok _) = true

-- `Attest` accepts exactly the keys of open survivors, whatever their execution bucket
-- (`flipped-kill` included), given a reason and an admitted oracle execution policy.
pub attest_iff-open :
    (k : SurvivorKey) (reason : Text) (f : Finding)
    → (is_ok (attest k reason f) ≡ true) ↔ (
        (reason ≢ [])
        × (oracle_execution_policy_issue f ≡ [])
        × (any (survivor_at k) (open_survivors f) ≡ true))
unfolding attest
attest_iff-open k reason f = ground (
  arith,
  open_at k f,
  find-any (survivor_at k) f.survivors,
  eq_iff reason [],
  eq_iff (oracle_execution_policy_issue f) [],
)

find_added :
    (k : SurvivorKey) (reason site : Text) (f : Finding)
    → any (attested_at k) f.attested ≡ false
    → find (attested_at k) (add_attestation k reason site f).attested
      ≡ some (attestation_of k reason site)
unfolding add_attestation
find_added k reason site f free =
    find-last (attested_at k) f.attested (attestation_of k reason site) free (eq_refl k)

-- The two moves one after the other.
move-add :
    (k : SurvivorKey) (reason why : Text) (s : Survivor) (f : Finding)
    → find (survivor_at k) f.survivors ≡ some s
    → any (attested_at k) f.attested ≡ false
    → ((move_to_withdrawn k why
          (attestation_of k reason s.site)
          (add_attestation k reason s.site f)).attested
        ≡ f.attested)
      × (open_survivors (
            move_to_withdrawn k why
              (attestation_of k reason s.site)
              (add_attestation k reason s.site f))
          ≡ open_survivors f)
      × ((move_to_withdrawn k why
            (attestation_of k reason s.site)
            (add_attestation k reason s.site f)).withdrawn
          ≡ without_withdrawn k f ++ withdrawn_of k reason why s.site ∷ [])
unfolding add_attestation move_to_withdrawn open_survivors
move-add k reason why s f e free =
    let back =
      delete_first-last (attested_at k) f.attested (attestation_of k reason s.site) free
        (eq_refl k) in
    (
      back,
      ap
          (λ xs.
            sort survivor_lt
              (filter (λ y. not (any (attested_at (survivor_key y)) xs)) f.survivors))
          back,
      ap
            (λ ws.
              ws
              ++ withdrawn_of k reason why (withdrawn_site k f (attestation_of k reason s.site))
                ∷ [])
            (filter-not-id (withdrawn_at k) (without_withdrawn k f)
              (any-filter-not (withdrawn_at k) f.withdrawn))
          ∙ ap (λ site. without_withdrawn k f ++ withdrawn_of k reason why site ∷ []) (site_of s e),
    )
  where
    site_of :
        (s : Survivor)
        → find (survivor_at k) f.survivors ≡ some s
        → withdrawn_site k f (attestation_of k reason s.site) ≡ s.site
    site_of s e = ground (arith, e)

-- What is attested can be withdrawn again with any nonempty reason: the attested list and the open
-- survivors are then those of before, and the withdrawn list ends in a record of both reasons at
-- the survivor's site.
pub withdraw-attest :
    (k : SurvivorKey) (reason why : Text) (f g : Finding)
    → attest k reason f ≡ ok g
    → why ≢ []
    → (h : Finding) × (s : Survivor) × (find (survivor_at k) f.survivors ≡ some s)
      × (withdraw_attestation k why g ≡ ok h)
      × (h.attested ≡ f.attested)
      × (open_survivors h ≡ open_survivors f)
      × (h.withdrawn ≡ without_withdrawn k f ++ withdrawn_of k reason why s.site ∷ [])
unfolding withdraw_attestation
withdraw-attest k reason why f g h n =
    let (s, _, _, e, free, p) = attest_inv k reason f g h in
    let (c, o, w) = move-add k reason why s f e free in
    let find_it = ap (λ x. find (attested_at k) x.attested) p ∙ find_added k reason s.site f free in
    (
      move_to_withdrawn k why (attestation_of k reason s.site) (add_attestation k reason s.site f),
      s,
      e,
      ground (arith, eq_iff why [], find_it, p),
      c,
      o,
      w,
    )
