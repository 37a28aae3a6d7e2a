-- ===== src/Schedule/Walk/Rules.antt =====
-- schedule.go `confirmWindowKills`: rules that carry an invariant through its two loops.
use gomutant.Prelude.{
  ℕ, zero, suc, ◌≡◌, refl, subst, true, false, Option, none, some, List, [], ◌∷◌, ◌++◌, length,
  arith, Option-cases, Bool-cases, inl, inr,
}
use gomutant.Schedule.Gate.{ConfirmOutcome}
use gomutant.Schedule.Walk.{
  WindowKill, State, Ended, finished, failed, out_of_fuel, Callbacks, gate_for, settle, confirm_one,
  mode_of, ask, drain, visit, walk,
}

module _ (c : Callbacks) where
  open c use {confirm}

  -- A round that did not fail settled an outcome.
  pub confirm_one_inv :
      (k : WindowKill) (s : State) {r : List WindowKill × State}
      → confirm_one c k s ≡ some r
      → (o : ConfirmOutcome) × (r
          ≡ settle c k o (gate_for c k.target s).0 (gate_for c k.target s).1)
  unfolding confirm_one
  confirm_one_inv k s {r} h =
      go (confirm (gate_for c k.target s).0.log k (mode_of (gate_for c k.target s).1)) refl
    where
      go :
          (a : Option ConfirmOutcome)
          → confirm (gate_for c k.target s).0.log k (mode_of (gate_for c k.target s).1) ≡ a
          → (o : ConfirmOutcome) × (r
              ≡ settle c k o (gate_for c k.target s).0 (gate_for c k.target s).1)
      go none e = absurd (ground arith)
      go (some o) e = (o, ground arith)

  -- The inner loop: `P` speaks of the queue and the state.
  pub drain_rule {ℓ} :
      (P : List WindowKill → State → Type ℓ)
      → ((k : WindowKill) (queue : List WindowKill) (s : State) (r : List WindowKill × State)
          → confirm_one c k s ≡ some r
          → P (k ∷ queue) s
          → P (queue ++ r.0) r.1)
      → (fuel : ℕ) (queue : List WindowKill) (s s' : State) → drain c fuel queue s ≡ finished s'
      → P queue s
      → P [] s'
  unfolding drain
  drain_rule P step fuel [] s s' h i = subst (P []) (cc) i
  drain_rule P step zero (k ∷ queue) s s' h i = absurd (cc)
  drain_rule P step (suc fuel) (k ∷ queue) s s' h i = elim (Option-cases (confirm_one c k s)) [
    | inl e ↦ absurd (ground arith)
    | inr (r, e) ↦
        drain_rule P step fuel (queue ++ r.0) r.1 s' (rw (e, drain) at h) (step k queue s r e i)
  ]

  -- One kill: its gate is asked, and it is skipped or drained.
  pub visit_rule {ℓ} :
      (P : State → Type ℓ) (k : WindowKill) (s s' : State)
      → ((ask c k s).1 ≡ false
          → P (record (ask c k s).0 { skipped = (ask c k s).0.skipped ++ k ∷ [] }))
      → ((ask c k s).1 ≡ true
          → drain c (suc (length (ask c k s).0.skipped)) (k ∷ []) (ask c k s).0 ≡ finished s'
          → P s')
      → visit c k s ≡ finished s'
      → P s'
  unfolding visit
  visit_rule P k s s' skip go h = elim (Bool-cases (ask c k s).1) [
    | inl e ↦ go e (rw e at h)
    | inr e ↦ subst P (ground arith) (skip e)
  ]

  -- A kill that ended the walk passed on the state that the rest starts from.
  pub walk_cons_inv :
      (k : WindowKill) (kills : List WindowKill) (s : State) {s' : State}
      → walk c (k ∷ kills) s ≡ finished s'
      → (t : State) × (visit c k s ≡ finished t) × (walk c kills t ≡ finished s')
  unfolding walk
  walk_cons_inv k kills s {s'} h = go (visit c k s) refl
    where
      go :
          (a : Ended)
          → visit c k s ≡ a
          → (t : State) × (visit c k s ≡ finished t) × (walk c kills t ≡ finished s')
      go (finished t) e = (t, e, rw (e, walk) at h)
      go (failed t) e = absurd (ground arith)
      go out_of_fuel e = absurd (ground arith)
