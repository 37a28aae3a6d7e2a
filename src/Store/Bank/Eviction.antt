-- ===== src/Store/Bank/Eviction.antt =====
-- bank.go `persistLocked`: the bank that is written fits its ceiling, and what it loses is old.
use gomutant.Prelude.{
  ℕ, zero, suc, ◌≤◌, ◌<◌, ◌≡◌, refl, subst, ap, sym, ◌∙◌, Bool, true, false, not, ◌&&◌, ◌||◌, none,
  some, List, [], ◌∷◌, Text, text_eq, nat_eq, ◌==◌, eq_iff, eq_sound, eq_refl, ltb, length, any,
  filter, length-filter-not, text_lt, arith, Bool-cases, Option-cases, inl, inr, ◌⊎◌, All, All-imp,
  All-filter,
}
use gomutant.Store.Bank.{
  BankedBaseline, BankFile, bank_file_ceiling, older, oldest_from, delete_key, drop_oldest, evict,
}

abbrev Entry : Type 0
Entry = Text × BankedBaseline

abbrev age : Entry → ℕ
age p = p.1.measured_at_unix

-- Each key stands once, as in a Go map.
abbrev pub DistinctKeys : List Entry → Type 0
DistinctKeys [] = Unit
DistinctKeys (p ∷ m) = (any (λ q. q.0 == p.0) m ≡ false) × DistinctKeys m

older-time :
    (o t : Text) (time n : ℕ)
    → (k : Text) × (m : ℕ) × (older (some (o, time)) t n ≡ some (k, m))
      × (m ≤ time)
      × (m ≤ n)
      × (((k ≡ o) × (m ≡ time)) ⊎ ((k ≡ t) × (m ≡ n)))
unfolding older
older-time o t time n = elim (Bool-cases (ltb n time || ((n == time) && text_lt t o))) [
  | inl y ↦ (t, n, rw (older, y) refl, ground (arith, eq_iff n time), omega arith, inr (refl, refl))
  | inr f ↦ (o, time, rw (older, f) refl, omega arith, ground arith, inl (refl, refl))
]

abbrev stands : Text → ℕ → Entry → Bool
stands k t p = (p.0 == k) && (age p == t)

oldest_from-min :
    (o : Text) (time : ℕ) (m : List Entry)
    → (k : Text) × (t : ℕ) × (oldest_from (some (o, time)) m ≡ some (k, t))
      × (t ≤ time)
      × All (λ p. t ≤ age p) m
      × (((k ≡ o) × (t ≡ time)) ⊎ (any (stands k t) m ≡ true))
unfolding oldest_from any
oldest_from-min o time [] = (o, time, refl, omega arith, tt, inl (refl, refl))
oldest_from-min o time ((j, e) ∷ m) =
    let (k₁, t₁, e₁, le₁, le₂, which₁) = older-time o j time e.measured_at_unix in
    let (k, t, e₂, le, all, which) = oldest_from-min k₁ t₁ m in
    (
      k,
      t,
      ap (λ o. oldest_from o m) e₁ ∙ e₂,
      omega (arith, le, le₁),
      (omega (arith, le, le₂), all),
      elim which [
        | inr there ↦ inr (ground (arith, there))
        | inl (p, q) ↦ elim which₁ [
          | inl (p₁, q₁) ↦ inl (p ∙ p₁, q ∙ q₁)
          | inr (p₁, q₁) ↦ inr (
              ground (
                arith,
                (eq_iff j k).1 (sym (p ∙ p₁)),
                (eq_iff e.measured_at_unix t).1 (sym (q ∙ q₁)),
              ))
        ]
      ],
    )

stands-key :
    (k : Text) (t : ℕ) (m : List Entry) → any (stands k t) m ≡ true → any (λ p. p.0 == k) m ≡ true
unfolding any
stands-key k t [] h = absurd (cc)
stands-key k t (p ∷ m) h = ground (arith, stands-key k t m)

absent-all :
    (k : Text) (t : ℕ) (m : List Entry)
    → any (λ p. p.0 == k) m ≡ false
    → All (λ p. (p.0 == k) ≡ true → age p ≡ t) m
unfolding any
absent-all k t [] h = tt
absent-all k t (p ∷ m) h = ((λ y. absurd (ground arith)), absent-all k t m (ground arith))

-- With distinct keys, the entry of the oldest key is the one that was seen.
stands-only :
    (k : Text) (t : ℕ) (m : List Entry)
    → DistinctKeys m
    → any (stands k t) m ≡ true
    → All (λ p. (p.0 == k) ≡ true → age p ≡ t) m
unfolding any
stands-only k t [] d h = tt
stands-only k t ((j, e) ∷ m) d h = elim (Bool-cases (j == k)) [
  | inl y ↦
      let absent : any (λ p. p.0 == k) m ≡ false =
        ap (λ x. any (λ p. p.0 == x) m) (sym (eq_sound j k y)) ∙ d.0 in
      (
        (λ _. ground (arith, stands-key k t m, eq_iff e.measured_at_unix t, absent)),
        absent-all k t m absent,
      )
  | inr n ↦ ((λ y. absurd (ground arith)), stands-only k t m d.1 (ground arith))
]

oldest-is :
    (m : List Entry)
    → DistinctKeys m
    → 0 < length m
    → (k : Text) × (t : ℕ) × (oldest_from none m ≡ some (k, t))
      × (any (λ p. p.0 == k) m ≡ true)
      × All (λ p. t ≤ age p) m
      × All (λ p. (p.0 == k) ≡ true → age p ≡ t) m
unfolding oldest_from older any
oldest-is [] d h = absurd (omega arith)
oldest-is ((j, e) ∷ m) d h =
    let (k, t, x, le, all, which) = oldest_from-min j e.measured_at_unix m in
    let there : any (stands k t) ((j, e) ∷ m) ≡ true = elim which [
      | inr later ↦ ground (arith, later)
      | inl (p, q) ↦ ground (arith, (eq_iff j k).1 (sym p), (eq_iff e.measured_at_unix t).1 (sym q))
    ] in
    (k, t, x, stands-key k t ((j, e) ∷ m) there, (le, all), stands-only k t ((j, e) ∷ m) d there)

any-deleted :
    (j k : Text) (m : List Entry)
    → any (λ q. q.0 == j) m ≡ false
    → any (λ q. q.0 == j) (delete_key k m) ≡ false
unfolding any filter
any-deleted j k [] h = refl
any-deleted j k (p ∷ m) h = ground (arith, any-deleted j k m)

delete-Distinct : (k : Text) (m : List Entry) → DistinctKeys m → DistinctKeys (delete_key k m)
unfolding filter
delete-Distinct k [] d = tt
delete-Distinct k (p ∷ m) d = elim (Bool-cases (p.0 == k)) [
  | inl y ↦ rw y (delete-Distinct k m d.1)
  | inr n ↦ rw n (any-deleted p.0 k m d.0, delete-Distinct k m d.1)
]

drop-All : (P : Entry → Type 0) (m : List Entry) → All P m → All P (drop_oldest m)
unfolding drop_oldest
drop-All P m h = elim (Option-cases (oldest_from none m)) [
  | inl e ↦ rw (drop_oldest, e) h
  | inr ((k, t), e) ↦ rw (drop_oldest, e) (All-filter P (λ p. not (p.0 == k)) m h)
]

-- What holds of the entries that stay and of those that go holds of all.
All-deleted :
    (P : Entry → Type 0) (k : Text) (m : List Entry)
    → All P (delete_key k m)
    → All (λ p. (p.0 == k) ≡ true → P p) m
    → All P m
unfolding filter
All-deleted P k [] h g = tt
All-deleted P k (p ∷ m) h g = elim (Bool-cases (p.0 == k)) [
  | inl y ↦ (g.0 y, All-deleted P k m (rw y at h) g.1)
  | inr n ↦ let h' = rw n at h in (h'.0, All-deleted P k m h'.1 g.1)
]

every-own : (m : List Entry) → All (λ p. any (λ q. q.0 == p.0) m ≡ true) m
unfolding any
every-own [] = tt
every-own (p ∷ m) = (
  ground (arith, eq_refl p.0),
  All-imp (λ r. any (λ q. q.0 == r.0) m ≡ true) (λ r. any (λ q. q.0 == r.0) (p ∷ m) ≡ true)
      (λ r h. ground (arith, h)) m (every-own m),
)

module _ {Coverage : Type 0} (encoded : BankFile Coverage → ℕ) where
  over : BankFile Coverage → Bool
  over f = ltb bank_file_ceiling (encoded f) && ltb 1 (length f.baselines)

  abbrev less : BankFile Coverage → BankFile Coverage
  less f = record f { baselines = drop_oldest f.baselines }

  evict-step :
      (n : ℕ) (f : BankFile Coverage)
      → over f ≡ true
      → evict encoded (suc n) f ≡ evict encoded n (less f)
  unfolding over evict
  evict-step n f y = rw y refl

  evict-stop : (n : ℕ) (f : BankFile Coverage) → over f ≡ false → evict encoded n f ≡ f
  unfolding over evict
  evict-stop zero f h = refl
  evict-stop (suc n) f h = rw h refl

  evict-All :
      (P : Entry → Type 0) (n : ℕ) (f : BankFile Coverage)
      → All P f.baselines
      → All P (evict encoded n f).baselines
  unfolding evict
  evict-All P zero f h = h
  evict-All P (suc n) f h = elim (Bool-cases (over f)) [
    | inl y ↦ rw (evict-step n f y) (evict-All P n (less f) (drop-All P f.baselines h))
    | inr s ↦ rw (evict-stop (suc n) f s) h
  ]

  abbrev pub Kept : BankFile Coverage → Entry → Type 0
  Kept f p = (any (λ q. q.0 == p.0) f.baselines ≡ true) ⊎ All (λ q. age p ≤ age q) f.baselines

  all-Kept : (f : BankFile Coverage) → All (Kept f) f.baselines
  all-Kept f =
      All-imp (λ p. any (λ q. q.0 == p.0) f.baselines ≡ true) (Kept f) (λ p h. inl h) f.baselines
        (every-own f.baselines)

  fits :
      (f : BankFile Coverage)
      → over f ≡ false
      → (encoded f ≤ bank_file_ceiling) ⊎ (length f.baselines ≤ 1)
  unfolding over
  fits f s = ground arith

  over-many : (f : BankFile Coverage) → over f ≡ true → 0 < length f.baselines
  unfolding over
  over-many f y = ground arith

  -- On fuel for each of its entries, the eviction leaves a bank that fits the ceiling or has one
  -- entry at most; and an entry whose key is not there any more is no newer than any that is.
  pub evict-fits :
      (n : ℕ) (f : BankFile Coverage)
      → length f.baselines ≤ n
      → DistinctKeys f.baselines
      → let f' = evict encoded n f in
        ((encoded f' ≤ bank_file_ceiling) ⊎ (length f'.baselines ≤ 1)) × All (Kept f') f.baselines
  unfolding evict
  evict-fits zero f h d = (inr (omega arith), all-Kept f)
  evict-fits (suc n) f h d = elim (Bool-cases (over f)) [
    | inr s ↦ rw (evict-stop (suc n) f s) (fits f s, all-Kept f)
    | inl y ↦
        let (k, t, x, there, min, only) = oldest-is f.baselines d (over-many f y) in
        let dropped : drop_oldest f.baselines ≡ delete_key k f.baselines =
          rw (drop_oldest, x) refl in
        let (fit, kept) =
          evict-fits n (less f)
            (rw dropped (omega (arith, h, length-filter-not (λ p. p.0 == k) f.baselines there)))
            (rw dropped (delete-Distinct k f.baselines d)) in
        let low =
          evict-All (λ q. t ≤ age q) n (less f) (drop-All (λ q. t ≤ age q) f.baselines min) in
        rw (evict-step n f y) (
          fit,
          All-deleted (Kept (evict encoded n (less f))) k f.baselines
              (subst (All (Kept (evict encoded n (less f)))) dropped kept)
              (All-imp (λ p. (p.0 == k) ≡ true → age p ≡ t)
                (λ p. (p.0 == k) ≡ true → Kept (evict encoded n (less f)) p)
                (λ p own e. inr (
                  All-imp (λ q. t ≤ age q) (λ q. age p ≤ age q) (λ q le. omega (arith, le, own e))
                    (evict encoded n (less f)).baselines low))
                f.baselines only),
        )
  ]
