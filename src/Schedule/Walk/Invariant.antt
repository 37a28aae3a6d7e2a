-- ===== src/Schedule/Walk/Invariant.antt =====
-- schedule.go `confirmWindowKills`: the invariant of a window whose kills come in the order of
-- their targets: what a flip has done to the gates and the skips.
use gomutant.Prelude.{
  ℕ, ◌≤◌, ◌≡◌, refl, subst, Bool, true, false, not, ◌&&◌, ◌||◌, some, List, [], ◌∷◌, filter, arith,
  Bool-cases, inl, inr, All, All-filter, filter-eq-nil, filter_nil, any, nat_eq, eqb_iff,
}
use gomutant.Prelude.Map.{get, get-put, get-put_self}
use gomutant.Schedule.Gate.{
  ConfirmationGate, ConfirmOutcome, confirm_reproduced, confirm_inconclusive, confirm_flipped,
  confirm_now, observe,
}
use gomutant.Schedule.Walk.{WindowKill, State, of_target, take_skips, note, set_gate, Confirmation}

abbrev pub is_flip : Confirmation → Bool
is_flip r = elim r.outcome [ confirm_flipped ↦ true | _ ↦ false ]

-- The targets never fall, and start at `t` or above it.
abbrev pub InOrder : ℕ → List WindowKill → Type 0
InOrder t [] = Unit
InOrder t (k ∷ kills) = (t ≤ k.target) × InOrder k.target kills

-- Between two kills, `cur` being the last target that was walked.
pub record Inv (cur : ℕ) (s : State) : Type 0 where
  pub bounded : (t : ℕ) (g : ConfirmationGate) → get t s.gates ≡ some g → t ≤ cur
  pub seen :
      (t : ℕ) (g : ConfirmationGate)
      → get t s.gates ≡ some g
      → g.flipped ≡ true
      → s.window_flipped ≡ true
  pub cleared : s.window_flipped ≡ true → s.skipped ≡ []
  pub current :
      s.window_flipped ≡ true → (g : ConfirmationGate) → get cur s.gates ≡ some g → g.flipped ≡ true
  pub within : All (λ k. k.target ≤ cur) s.skipped

pub log-Inv :
    (cur : ℕ) (s : State) (l : List Confirmation) → Inv cur s → Inv cur (record s { log = l })
log-Inv cur s l i = record {
  bounded = i.bounded;
  seen = i.seen;
  cleared = i.cleared;
  current = i.current;
  within = i.within;
}

-- A flip in the log has reached the window.
abbrev pub Logged : State → Type 0
Logged s = any is_flip s.log ≡ true → s.window_flipped ≡ true

-- The gate that a step works on, where it stands in the map.
abbrev pub Holds : ℕ → ConfirmationGate → State → Type 0
Holds t g s = get t s.gates ≡ some g

pub set_gate-Inv :
    (cur t : ℕ) (g : ConfirmationGate) (s : State)
    → t ≤ cur
    → (g.flipped ≡ true → s.window_flipped ≡ true)
    → (t ≡ cur → s.window_flipped ≡ true → g.flipped ≡ true)
    → Inv cur s
    → Inv cur (set_gate t g s)
set_gate-Inv cur t g s h up down i = record {
  bounded = λ j x e. ground (arith, get-put t j g s.gates, i.bounded j x, eqb_iff t j);
  seen = λ j x e f. ground (arith, get-put t j g s.gates, i.seen j x, eqb_iff t j);
  cleared = i.cleared;
  current = λ w x e. ground (arith, get-put t cur g s.gates, i.current w x, eqb_iff t cur);
  within = i.within;
}

-- What the gate at hand says of the window, by the invariant.
pub Gate-Inv :
    (cur t : ℕ) (g : ConfirmationGate) (s : State)
    → Inv cur s
    → Holds t g s
    → (g.flipped ≡ true → s.window_flipped ≡ true)
      × (t ≡ cur → s.window_flipped ≡ true → g.flipped ≡ true)
Gate-Inv cur t g s i h =
    (i.seen t g h, λ e w. i.current w g (subst (λ j. get j s.gates ≡ some g) e h))

pub set_gate-Holds : (t : ℕ) (g : ConfirmationGate) (s : State) → Holds t g (set_gate t g s)
set_gate-Holds t g s = get-put_self t g s.gates

pub confirm_now-flipped :
    (g : ConfirmationGate)
    → ((confirm_now g).0.flipped ≡ g.flipped) × ((confirm_now g).1 ≡ false → g.flipped ≡ false)
unfolding confirm_now
confirm_now-flipped g = ground arith

All-own :
    (t : ℕ) (xs : List WindowKill)
    → All (λ x. x.target ≡ t) (filter (λ k. false || of_target t k) xs)
unfolding filter
All-own t [] = tt
All-own t (x ∷ xs) = elim (Bool-cases (of_target t x)) [
  | inl e ↦ rw e ((eqb_iff x.target t).0 e, All-own t xs)
  | inr e ↦ rw e (All-own t xs)
]

-- Taking one target's skips.
pub take_skips-Inv :
    (cur t : ℕ) (s : State)
    → Inv cur s
    → Inv cur (take_skips t false s).1
      × All (λ x. x.target ≤ cur) (take_skips t false s).0
      × All (λ x. x.target ≡ t) (take_skips t false s).0
unfolding take_skips
take_skips-Inv cur t s i = (
  record {
    bounded = i.bounded;
    seen = i.seen;
    cleared = λ w. rw (i.cleared w) (filter_nil _);
    current = i.current;
    within = All-filter (λ k. k.target ≤ cur) _ s.skipped i.within;
  },
  All-filter (λ k. k.target ≤ cur) _ s.skipped i.within,
  All-own t s.skipped,
)

-- The first flip: every skip is taken and the gate at hand stays flipped.
first_flip-Inv :
    (cur t : ℕ) (g : ConfirmationGate) (s : State)
    → t ≡ cur
    → g.flipped ≡ true
    → Inv cur s
    → Inv cur (take_skips 0 true (record (set_gate t g s) { window_flipped = true })).1
      × All
          (λ x. x.target ≤ cur)
          (take_skips 0 true (record (set_gate t g s) { window_flipped = true })).0
unfolding take_skips
first_flip-Inv cur t g s own f i = (
  record {
    bounded = λ j x e. ground (arith, get-put t j g s.gates, i.bounded j x, eqb_iff t j);
    seen = λ j x e k. refl;
    cleared = λ w. filter-eq-nil _ s.skipped (λ x. refl);
    current = λ w x e. ground (arith, get-put t cur g s.gates, eqb_iff t cur);
    within = All-filter (λ k. k.target ≤ cur) _ s.skipped i.within;
  },
  All-filter (λ k. k.target ≤ cur) _ s.skipped i.within,
)

-- What a drain adds to the invariant: who may stand in the queue.
pub record Queued (cur : ℕ) (queue : List WindowKill) (s : State) : Type 0 where
  pub reached : All (λ k. k.target ≤ cur) queue
  pub own : s.window_flipped ≡ false → All (λ k. k.target ≡ cur) queue

-- What an observed outcome leaves, and what it adds to the queue.
pub note-Inv :
    (cur : ℕ) (k : WindowKill) (o : ConfirmOutcome) (s : State) (g : ConfirmationGate)
    → k.target ≤ cur
    → (s.window_flipped ≡ false → k.target ≡ cur)
    → Inv cur s
    → Holds k.target g s
    → let (all, s') = note k o s g in
      Inv cur s'
      × All (λ x. x.target ≤ cur) all
      × (s'.window_flipped ≡ false → all ≡ [])
      × (o ≡ confirm_flipped → s'.window_flipped ≡ true)
      × (s'.window_flipped ≡ false → s.window_flipped ≡ false)
unfolding note observe take_skips
note-Inv cur k confirm_reproduced s g h own i e =
    let (up, down) = Gate-Inv cur k.target g s i e in
    (set_gate-Inv cur k.target _ s h up down i, tt, λ w. refl, λ o. cc, λ w. w)
note-Inv cur k confirm_inconclusive s g h own i e =
    let (up, down) = Gate-Inv cur k.target g s i e in
    (set_gate-Inv cur k.target _ s h up down i, tt, λ w. refl, λ o. cc, λ w. w)
note-Inv cur k confirm_flipped s g h own i e =
    let (up, down) = Gate-Inv cur k.target g s i e in
    let g' : ConfirmationGate = record g { flipped = true } in
    elim (Bool-cases (not g.flipped && not s.window_flipped)) [
      | inl y ↦
          let (j, reached) = first_flip-Inv cur k.target g' s (own (ground arith)) refl i in
          rw y (j, reached, λ w. cc, λ o. refl, λ w. cc)
      | inr n ↦
          let w : s.window_flipped ≡ true = ground arith in
          rw n (
            set_gate-Inv cur k.target g' s h (λ _. w) (λ _ _. refl) i,
            tt,
            λ w. refl,
            λ o. w,
            λ w. w,
          )
    ]

pub no_flip :
    (r : Confirmation) (log : List Confirmation)
    → (any is_flip log || any is_flip (r ∷ [])) ≡ true
    → (any is_flip log ≡ true → ⊥)
    → (r.outcome ≡ confirm_flipped → ⊥)
    → ⊥
unfolding any
no_flip r log h a b = ground arith
