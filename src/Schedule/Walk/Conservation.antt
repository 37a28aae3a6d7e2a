-- ===== src/Schedule/Walk/Conservation.antt =====
-- schedule.go `confirmWindowKills`: every kill of the window is confirmed or skipped, once, and the
-- drain loop stops within its fuel.
use gomutant.Prelude.{
  ℕ, zero, suc, ◌+◌, ◌≤◌, ◌≡◌, ◌≢◌, refl, Bool, true, false, ◌||◌, some, List, [], ◌∷◌, ◌++◌,
  length, arith, count_if, count_if-append, count_if-filter_split, count_if-true, count_if_cons,
  length-append, Option-cases, inl, inr,
}
use gomutant.Schedule.Gate.{ConfirmationGate, ConfirmOutcome, observe}
use gomutant.Schedule.Walk.{
  mode_of, Confirmation, WindowKill, State, Ended, finished, failed, out_of_fuel, of_target,
  take_skips, Callbacks, gate_for, rearm, note, settle, confirm_one, ask, drain, visit, walk,
  confirm_window_kills, initial, set_gate,
}
use gomutant.Schedule.Walk.Rules.{confirm_one_inv, drain_rule, visit_rule, walk_cons_inv}

-- The kills that a test holds of, confirmed so far or waiting as skips.
abbrev accounted : (WindowKill → Bool) → State → ℕ
accounted p s = count_if (λ c. p c.kill) s.log + count_if p s.skipped

take_skips-count :
    (p : WindowKill → Bool) (t : ℕ) (all : Bool) (s : State)
    → let (taken, s') = take_skips t all s in
      (count_if p taken + count_if p s'.skipped ≡ count_if p s.skipped) × (s'.log ≡ s.log)
unfolding take_skips
take_skips-count p t all s = (count_if-filter_split p (λ k. all || of_target t k) s.skipped, refl)

note-count :
    (p : WindowKill → Bool) (k : WindowKill) (o : ConfirmOutcome) (s : State) (g : ConfirmationGate)
    → let (taken, s') = note k o s g in
      (count_if p taken + count_if p s'.skipped ≡ count_if p s.skipped) × (s'.log ≡ s.log)
unfolding note count_if
note-count p k o s g = ground (
  arith,
  take_skips-count p 0 true
      (record (set_gate k.target (observe o g).0 s) { window_flipped = true }),
)

module _ (c : Callbacks) (p : WindowKill → Bool) where
  pub gate_for-count :
      (t : ℕ) (s : State)
      → ((gate_for c t s).0.log ≡ s.log) × ((gate_for c t s).0.skipped ≡ s.skipped)
  unfolding gate_for
  gate_for-count t s = ground arith

  pub ask-count :
      (k : WindowKill) (s : State)
      → ((ask c k s).0.log ≡ s.log) × ((ask c k s).0.skipped ≡ s.skipped)
  unfolding ask
  ask-count k s = ground (arith, gate_for-count k.target s)

  rearm-count :
      (k : WindowKill) (s : State) (g : ConfirmationGate)
      → let (taken, s', _) = rearm c k s g in
        (count_if p taken + count_if p s'.skipped ≡ count_if p s.skipped) × (s'.log ≡ s.log)
  unfolding rearm count_if
  rearm-count k s g = ground (arith, take_skips-count p k.target false s)

  count_if_nil : count_if p [] ≡ 0
  unfolding count_if
  count_if_nil = refl

  count_row : (r : Confirmation) → count_if (λ c. p c.kill) (r ∷ []) ≡ count_if p (r.kill ∷ [])
  unfolding count_if
  count_row r = refl

  -- A settled round moves skips into the queue and logs its one confirmation.
  pub settle-count :
      (k : WindowKill) (o : ConfirmOutcome) (s : State) (g : ConfirmationGate)
      → let (more, s') = settle c k o s g in
        (count_if p more + count_if p s'.skipped ≡ count_if p s.skipped)
        × (s'.log ≡ s.log ++ record { kill = k; mode = mode_of g; outcome = o } ∷ [])
  unfolding settle
  settle-count k o s g =
      let row : Confirmation = record { kill = k; mode = mode_of g; outcome = o } in
      let (taken, s₂, g₁) = rearm c k (record s { log = s.log ++ row ∷ [] }) g in
      ground (
        arith,
        count_if-append p taken (note k o s₂ g₁).0,
        rearm-count k (record s { log = s.log ++ row ∷ [] }) g,
        note-count p k o s₂ g₁,
      )

  confirm_one-skips :
      (k : WindowKill) (s : State) (r : List WindowKill × State)
      → confirm_one c k s ≡ some r
      → count_if p r.0 + count_if p r.1.skipped ≡ count_if p s.skipped
  confirm_one-skips k s r h =
      let (o, e) = confirm_one_inv c k s h in
      let (s₁, g) = gate_for c k.target s in
      ground (arith, gate_for-count k.target s, settle-count k o s₁ g)

  confirm_one-count :
      (k : WindowKill) (s : State) (r : List WindowKill × State)
      → confirm_one c k s ≡ some r
      → count_if p r.0 + accounted p r.1 ≡ accounted p s + count_if p (k ∷ [])
  confirm_one-count k s r h =
      let (o, e) = confirm_one_inv c k s h in
      let (s₁, g) = gate_for c k.target s in
      let row : Confirmation = record { kill = k; mode = mode_of g; outcome = o } in
      ground (
        arith,
        gate_for-count k.target s,
        settle-count k o s₁ g,
        count_row row,
        count_if-append (λ r. p r.kill) s₁.log (row ∷ []),
      )

  drain-count :
      (fuel : ℕ) (queue : List WindowKill) (s s' : State)
      → drain c fuel queue s ≡ finished s'
      → accounted p s' ≡ accounted p s + count_if p queue
  drain-count fuel queue s s' h = omega (
    arith,
    count_if_nil,
    drain_rule c (λ q t. accounted p t + count_if p q ≡ accounted p s + count_if p queue)
        (λ k q t r e i.
          omega (arith, confirm_one-count k t r e, count_if-append p q r.0, count_if_cons p k q))
        fuel queue s s' h (omega arith),
  )

  visit-count :
      (k : WindowKill) (s s' : State)
      → visit c k s ≡ finished s'
      → accounted p s' ≡ accounted p s + count_if p (k ∷ [])
  visit-count k s s' =
      visit_rule c (λ t. accounted p t ≡ accounted p s + count_if p (k ∷ [])) k s s'
        (λ e. ground (arith, ask-count k s, count_if-append p (ask c k s).0.skipped (k ∷ [])))
        (λ e d. ground (arith, ask-count k s, drain-count _ (k ∷ []) (ask c k s).0 s' d))

  walk-count :
      (kills : List WindowKill) (s s' : State)
      → walk c kills s ≡ finished s'
      → accounted p s' ≡ accounted p s + count_if p kills
  unfolding walk
  walk-count [] s s' h = ground (arith, count_if_nil)
  walk-count (k ∷ kills) s s' h =
      let (t, v, w) = walk_cons_inv c k kills s h in
      omega (arith, visit-count k s t v, walk-count kills t s' w, count_if_cons p k kills)

module _ (c : Callbacks) where
  more_bound :
      (k : WindowKill) (s : State) (r : List WindowKill × State)
      → confirm_one c k s ≡ some r
      → length r.0 + length r.1.skipped ≤ length s.skipped
  more_bound k s r e = omega (
    arith,
    confirm_one-skips c (λ _. true) k s r e,
    count_if-true r.0,
    count_if-true r.1.skipped,
    count_if-true s.skipped,
  )

  drain-ne-out_of_fuel :
      (fuel : ℕ) (queue : List WindowKill) (s : State)
      → length queue + length s.skipped ≤ fuel
      → drain c fuel queue s ≢ out_of_fuel
  unfolding drain
  drain-ne-out_of_fuel fuel [] s h = λ e. cc
  drain-ne-out_of_fuel zero (k ∷ queue) s h = absurd (omega arith)
  drain-ne-out_of_fuel (suc fuel) (k ∷ queue) s h = λ z. elim (Option-cases (confirm_one c k s)) [
    | inl e ↦ ground arith
    | inr (r, e) ↦
        drain-ne-out_of_fuel fuel (queue ++ r.0) r.1
          (omega (arith, more_bound k s r e, length-append queue r.0)) (rw (e, drain) at z)
  ]

  visit-ne-out_of_fuel : (k : WindowKill) (s : State) → visit c k s ≢ out_of_fuel
  unfolding visit
  visit-ne-out_of_fuel k s = ground (
    arith,
    drain-ne-out_of_fuel (suc (length (ask c k s).0.skipped)) (k ∷ []) (ask c k s).0 (omega arith),
  )

  walk-ne-out_of_fuel : (kills : List WindowKill) (s : State) → walk c kills s ≢ out_of_fuel
  unfolding walk
  walk-ne-out_of_fuel [] s = λ e. cc
  walk-ne-out_of_fuel (k ∷ kills) s = go (visit c k s) refl (walk-ne-out_of_fuel kills)
    where
      go :
          (a : Ended)
          → visit c k s ≡ a
          → ((t : State) → walk c kills t ≢ out_of_fuel)
          → walk c (k ∷ kills) s ≢ out_of_fuel
      go (finished t) e rest = rw (e, walk) (rest t)
      go (failed t) e rest = rw (e, walk) (λ z. cc)
      go out_of_fuel e rest = absurd (visit-ne-out_of_fuel k s e)

  -- The walk over a window's kills always ends by itself or with an error of `confirm`: the fuel of
  -- the drain loop, one more than the waiting skips, is enough.
  pub confirm_window_kills_total :
      (kills : List WindowKill) → confirm_window_kills c kills ≢ out_of_fuel
  unfolding confirm_window_kills
  confirm_window_kills_total kills = walk-ne-out_of_fuel kills initial

  -- When the walk ends with no error, every kill of the window has been confirmed or is left
  -- skipped, as often as it stands in the window: whatever test picks kills out, the confirmed and
  -- the skipped ones that pass it are together as many as those of the window.
  pub confirm_window_kills-conserves :
      (kills : List WindowKill) (s : State) (p : WindowKill → Bool)
      → confirm_window_kills c kills ≡ finished s
      → count_if (λ r. p r.kill) s.log + count_if p s.skipped ≡ count_if p kills
  unfolding confirm_window_kills count_if
  confirm_window_kills-conserves kills s p h = omega (arith, walk-count c p kills initial s h)
