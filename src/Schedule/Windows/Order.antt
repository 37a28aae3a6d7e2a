-- ===== src/Schedule/Windows/Order.antt =====
-- schedule.go `nextReadyWindow`: the cheapest priced window, the first of any tie.
use gomutant.Prelude.{
  ℕ, zero, suc, ◌+◌, ◌≤◌, ◌<◌, ◌≡◌, ◌⊎◌, refl, true, false, some, List, [], ◌∷◌, arith, Bool-cases,
  inl, inr, get_elem?,
}
use gomutant.Schedule.Windows.{ReadyWindow, goes_first, next_from, next_ready_window}

-- `p` may run before `q`: no unpriced window goes before a priced one, no dearer before a cheaper.
abbrev NotAfter : ReadyWindow → ReadyWindow → Type 0
NotAfter p q = q.priced ≡ true → (p.priced ≡ true) × (p.cost ≤ q.cost)

-- `p` must run before `q`.
abbrev Before : ReadyWindow → ReadyWindow → Type 0
Before p q = (p.priced ≡ true) × ((q.priced ≡ true) → (p.cost < q.cost))

-- What the loop knows of its pick after the `i` windows of `seen`.
abbrev Best : List ReadyWindow → ReadyWindow → ℕ → Type 0
Best seen best pick =
    (get_elem? seen pick ≡ some best)
    × ((j : ℕ) (q : ReadyWindow)
        → get_elem? seen j ≡ some q
        → NotAfter best q × (j < pick → Before best q))

goes_first_iff :
    (a b : ReadyWindow)
    → (goes_first a b ≡ true → Before a b) × (goes_first a b ≡ false → NotAfter b a)
unfolding goes_first
goes_first_iff a b = ground arith

-- The loop either keeps its pick, or ends at the first of the best windows still to come.
abbrev Ends : ReadyWindow → ℕ → ℕ → List ReadyWindow → ℕ → Type 0
Ends best pick i pool r =
    ((r ≡ pick) × ((m : ℕ) (q : ReadyWindow) → get_elem? pool m ≡ some q → NotAfter best q))
    ⊎ ((j : ℕ) × (p : ReadyWindow) × (r ≡ i + j)
        × (get_elem? pool j ≡ some p)
        × Before p best
        × ((m : ℕ) (q : ReadyWindow)
            → get_elem? pool m ≡ some q
            → NotAfter p q × (m < j → Before p q)))

Ends-take :
    (best a : ReadyWindow) (pick i r : ℕ) (pool : List ReadyWindow)
    → Before a best
    → Ends a i (suc i) pool r
    → Ends best pick i (a ∷ pool) r
Ends-take best a pick i r pool h (inl (e, f)) = inr (0, a, omega arith, refl, h, go)
  where
    go :
        (m : ℕ) (q : ReadyWindow)
        → get_elem? (a ∷ pool) m ≡ some q
        → NotAfter a q × (m < 0 → Before a q)
    go zero q z = (ground arith, λ l. absurd (omega arith))
    go (suc m) q z = (f m q z, λ l. absurd (omega arith))
Ends-take best a pick i r pool h (inr (j, p, e, g, b, f)) =
    inr (suc j, p, omega arith, g, ground arith, go)
  where
    go :
        (m : ℕ) (q : ReadyWindow)
        → get_elem? (a ∷ pool) m ≡ some q
        → NotAfter p q × (m < suc j → Before p q)
    go zero q z = (ground arith, λ l. ground arith)
    go (suc m) q z = ((f m q z).0, λ l. (f m q z).1 (omega arith))

Ends-keep :
    (best a : ReadyWindow) (pick i r : ℕ) (pool : List ReadyWindow)
    → NotAfter best a
    → Ends best pick (suc i) pool r
    → Ends best pick i (a ∷ pool) r
Ends-keep best a pick i r pool h (inl (e, f)) = inl (e, go)
  where
    go : (m : ℕ) (q : ReadyWindow) → get_elem? (a ∷ pool) m ≡ some q → NotAfter best q
    go zero q z = ground arith
    go (suc m) q z = f m q z
Ends-keep best a pick i r pool h (inr (j, p, e, g, b, f)) = inr (suc j, p, omega arith, g, b, go)
  where
    go :
        (m : ℕ) (q : ReadyWindow)
        → get_elem? (a ∷ pool) m ≡ some q
        → NotAfter p q × (m < suc j → Before p q)
    go zero q z = (ground arith, λ l. ground arith)
    go (suc m) q z = ((f m q z).0, λ l. (f m q z).1 (omega arith))

next_from-Ends :
    (best : ReadyWindow) (pick i : ℕ) (pool : List ReadyWindow)
    → Ends best pick i pool (next_from best pick i pool)
unfolding next_from
next_from-Ends best pick i [] = inl (refl, λ m q z. absurd (cc))
next_from-Ends best pick i (a ∷ pool) = elim (Bool-cases (goes_first a best)) [
  | inl y ↦ rw y (
      Ends-take best a pick i _ pool ((goes_first_iff a best).0 y)
        (next_from-Ends a i (suc i) pool))
  | inr n ↦ rw n (
      Ends-keep best a pick i _ pool ((goes_first_iff a best).1 n)
        (next_from-Ends best pick (suc i) pool))
]

-- The window at `r` is the first of the best ones of the pool.
abbrev pub IsFirst : List ReadyWindow → ℕ → Type 0
IsFirst pool r =
    (p : ReadyWindow) × (get_elem? pool r ≡ some p)
    × ((j : ℕ) (q : ReadyWindow) → get_elem? pool j ≡ some q → NotAfter p q × (j < r → Before p q))

Ends-IsFirst :
    (best : ReadyWindow) (pool : List ReadyWindow) (r : ℕ)
    → Ends best 0 1 pool r
    → IsFirst (best ∷ pool) r
Ends-IsFirst best pool r (inl (e, f)) = rw e (best, refl, go)
  where
    go :
        (j : ℕ) (q : ReadyWindow)
        → get_elem? (best ∷ pool) j ≡ some q
        → NotAfter best q × (j < 0 → Before best q)
    go zero q z = (ground arith, λ l. absurd (omega arith))
    go (suc j) q z = (f j q z, λ l. absurd (omega arith))
Ends-IsFirst best pool r (inr (j, p, e, g, b, f)) =
    let e' : r ≡ suc j = omega arith in rw e' (p, g, go)
  where
    go :
        (m : ℕ) (q : ReadyWindow)
        → get_elem? (best ∷ pool) m ≡ some q
        → NotAfter p q × (m < suc j → Before p q)
    go zero q z = (ground arith, λ l. ground arith)
    go (suc m) q z = ((f m q z).0, λ l. (f m q z).1 (omega arith))

-- The pick of a pool that is not empty is one of its windows. No unpriced window runs before a
-- priced one and no dearer one before a cheaper, and against the windows that arrived earlier the
-- pick is priced and, where they are priced too, strictly cheaper.
pub next_ready_window-IsFirst :
    (best : ReadyWindow) (pool : List ReadyWindow)
    → IsFirst (best ∷ pool) (next_ready_window (best ∷ pool))
unfolding next_ready_window
next_ready_window-IsFirst best pool = Ends-IsFirst best pool _ (next_from-Ends best 0 1 pool)
