-- ===== src/Schedule/Walk/Steps.antt =====
-- schedule.go `confirmWindowKills`: each step of the walk keeps the invariant.
use gomutant.Prelude.{
  ℕ, ◌≤◌, ◌≡◌, refl, subst, true, false, not, ◌&&◌, some, List, [], ◌∷◌, ◌++◌, arith, Option-cases,
  Bool-cases, inl, inr, All, All-append, any, any-append, nat_eq, append-nil,
}
use gomutant.Prelude.Map.{get}
use gomutant.Schedule.Gate.{ConfirmationGate, ConfirmOutcome, confirm_flipped, confirm_now}
use gomutant.Schedule.Walk.{
  WindowKill, State, finished, take_skips, Callbacks, gate_for, rearm, note, settle, confirm_one,
  ask, drain, visit, Confirmation, mode_of,
}
use gomutant.Schedule.Walk.Conservation.{gate_for-count, ask-count, settle-count}
use gomutant.Schedule.Walk.Rules.{confirm_one_inv, drain_rule, visit_rule}
use gomutant.Schedule.Walk.Invariant.{
  is_flip, log-Inv, Logged, Holds, set_gate-Inv, Gate-Inv, set_gate-Holds, confirm_now-flipped,
  take_skips-Inv, note-Inv, no_flip, Inv, Queued,
}

module _ (c : Callbacks) (cur : ℕ) where
  gate_for-Inv :
      (t : ℕ) (s : State)
      → t ≤ cur
      → Inv cur s
      → Inv cur (gate_for c t s).0
        × Holds t (gate_for c t s).1 (gate_for c t s).0
        × ((gate_for c t s).0.window_flipped ≡ s.window_flipped)
        × ((gate_for c t s).0.skipped ≡ s.skipped)
  unfolding gate_for
  gate_for-Inv t s h i = elim (Option-cases (get t s.gates)) [
    | inl e ↦
        let g : ConfirmationGate = record {
          volatile = c.volatile s.log t;
          streak = 0;
          since_sample = 0;
          flipped = s.window_flipped;
        } in
        rw (e, gate_for)
          (set_gate-Inv cur t g s h (λ f. f) (λ _ f. f) i, set_gate-Holds t g s, refl, refl)
    | inr (g, e) ↦ rw (e, gate_for) (i, e, refl, refl)
  ]

  ask-Inv :
      (k : WindowKill) (s : State)
      → k.target ≤ cur
      → Inv cur s
      → Inv cur (ask c k s).0
        × ((ask c k s).0.window_flipped ≡ s.window_flipped)
        × ((ask c k s).0.skipped ≡ s.skipped)
        × ((ask c k s).1 ≡ false → k.target ≡ cur → s.window_flipped ≡ false)
  unfolding ask
  ask-Inv k s h i =
      let (j, holds, w, e) = gate_for-Inv k.target s h i in
      let (s₁, g) = gate_for c k.target s in
      let (up, down) = Gate-Inv cur k.target g s₁ j holds in
      let (same, off) = confirm_now-flipped g in
      (
        set_gate-Inv cur k.target (confirm_now g).0 s₁ h (rw same up) (rw same down) j,
        w,
        e,
        λ skip t. ground (arith, w, down t, off skip),
      )

  rearm-Inv :
      (k : WindowKill) (s : State) (g : ConfirmationGate)
      → k.target ≤ cur
      → Inv cur s
      → Holds k.target g s
      → let (taken, s', g') = rearm c k s g in
        Inv cur s'
        × Holds k.target g' s'
        × (s'.window_flipped ≡ s.window_flipped)
        × All (λ x. x.target ≤ cur) taken
        × All (λ x. x.target ≡ k.target) taken
  unfolding rearm take_skips
  rearm-Inv k s g h i e = elim (Bool-cases (not g.volatile && c.unverifiable s.log k)) [
    | inl y ↦
        let g' : ConfirmationGate = record g { volatile = true } in
        let (up, down) = Gate-Inv cur k.target g s i e in
        let (j, reached, own) = take_skips-Inv cur k.target s i in
        rw y (
          set_gate-Inv cur k.target g' (take_skips k.target false s).1 h up down j,
          set_gate-Holds k.target g' (take_skips k.target false s).1,
          refl,
          reached,
          own,
        )
    | inr n ↦ rw n (i, e, refl, tt, tt)
  ]

  settle-Inv :
      (k : WindowKill) (o : ConfirmOutcome) (s : State) (g : ConfirmationGate)
      → k.target ≤ cur
      → (s.window_flipped ≡ false → k.target ≡ cur)
      → Inv cur s
      → Holds k.target g s
      → let (more, s') = settle c k o s g in
        Inv cur s'
        × All (λ x. x.target ≤ cur) more
        × (s'.window_flipped ≡ false
            → (s.window_flipped ≡ false) × All (λ x. x.target ≡ k.target) more)
        × (o ≡ confirm_flipped → s'.window_flipped ≡ true)
  unfolding settle
  settle-Inv k o s g h own i e =
      let row : Confirmation = record { kill = k; mode = mode_of g; outcome = o } in
      let s₁ : State = record s { log = s.log ++ row ∷ [] } in
      let (i₂, e₂, w₂, reached, mine) = rearm-Inv k s₁ g h (log-Inv cur s _ i) e in
      let (taken, s₂, g₂) = rearm c k s₁ g in
      let (i₃, reached', none_left, flips, back) =
        note-Inv cur k o s₂ g₂ h (λ w. own (rw w₂ at w)) i₂ e₂ in
      let all = (note k o s₂ g₂).0 in
      (
        i₃,
        All-append (λ x. x.target ≤ cur) taken all reached reached',
        λ w. (rw w₂ at (back w), rw (none_left w, append-nil taken) mine),
        flips,
      )

  gate_for-Logged :
      (t : ℕ) (s : State)
      → (gate_for c t s).0.window_flipped ≡ s.window_flipped
      → Logged s
      → Logged (gate_for c t s).0
  gate_for-Logged t s w l = λ h. rw w (l (rw (gate_for-count c (λ _. true) t s).0 at h))

  settle-Logged :
      (k : WindowKill) (o : ConfirmOutcome) (s : State) (g : ConfirmationGate)
      → Logged s
      → ((settle c k o s g).1.window_flipped ≡ false → s.window_flipped ≡ false)
      → (o ≡ confirm_flipped → (settle c k o s g).1.window_flipped ≡ true)
      → Logged (settle c k o s g).1
  settle-Logged k o s g l back flips = λ h. elim (Bool-cases (settle c k o s g).1.window_flipped) [
    | inl e ↦ e
    | inr e ↦
        let row : Confirmation = record { kill = k; mode = mode_of g; outcome = o } in
        let h' : any is_flip (s.log ++ row ∷ []) ≡ true =
          rw (settle-count c (λ _. true) k o s g).1 at h in
        absurd (
          no_flip row s.log (rw (any-append is_flip s.log (row ∷ [])) at h')
            (λ a. ground (arith, l a, back e)) (λ f. ground (arith, flips f)))
  ]

  -- One round keeps the invariant of the queue and the state.
  drain_step :
      (k : WindowKill) (queue : List WindowKill) (s : State) (r : List WindowKill × State)
      → confirm_one c k s ≡ some r
      → Inv cur s × Queued cur (k ∷ queue) s × Logged s
      → Inv cur r.1 × Queued cur (queue ++ r.0) r.1 × Logged r.1
  drain_step k queue s r e (i, q, l) =
      let (o, eq) = confirm_one_inv c k s e in
      let (i₁, holds, w₁, same) = gate_for-Inv k.target s q.reached.0 i in
      let (s₁, g) = gate_for c k.target s in
      let (i₂, reached, back, flips) =
        settle-Inv k o s₁ g q.reached.0 (λ w. (q.own (rw w₁ at w)).0) i₁ holds in
      let shown : Logged (settle c k o s₁ g).1 =
        settle-Logged k o s₁ g (gate_for-Logged k.target s w₁ l) (λ w. (back w).0) flips in
      rw eq (
        i₂,
        record {
          reached = All-append (λ x. x.target ≤ cur) queue _ q.reached.1 reached;
          own = λ w.
              let (t, rest) = q.own (rw w₁ at ((back w).0)) in
              All-append (λ x. x.target ≡ cur) queue _ rest
                (subst (λ n. All (λ x. x.target ≡ n) (settle c k o s₁ g).0) t ((back w).1));
        },
        shown,
      )

  drain-Inv :
      (fuel : ℕ) (queue : List WindowKill) (s s' : State)
      → drain c fuel queue s ≡ finished s'
      → Inv cur s × Queued cur queue s × Logged s
      → Inv cur s' × Queued cur [] s' × Logged s'
  drain-Inv = drain_rule c (λ q t. Inv cur t × Queued cur q t × Logged t) drain_step

  -- A kill of the current target or a later one leaves the invariant at its own target.
  pub visit-Inv :
      (k : WindowKill) (s s' : State)
      → k.target ≡ cur
      → Inv cur s
      → Logged s
      → visit c k s ≡ finished s'
      → Inv cur s' × Logged s'
  visit-Inv k s s' t i l =
      let (j, w, same, off) = ask-Inv k s (omega arith) i in
      let s₁ = (ask c k s).0 in
      let l₁ : Logged s₁ = λ h. rw w (l (rw (ask-count c (λ _. true) k s).0 at h)) in
      visit_rule c (λ u. Inv cur u × Logged u) k s s'
        (λ e. (
          record {
            bounded = j.bounded;
            seen = j.seen;
            cleared = λ f. absurd (ground (arith, off e t));
            current = j.current;
            within =
                All-append (λ x. x.target ≤ cur) s₁.skipped (k ∷ []) j.within (omega arith, tt);
          },
          l₁,
        ))
        (λ e d.
          let (i', _, l') =
            drain-Inv _ (k ∷ []) s₁ s' d
              (j, record { reached = (omega arith, tt); own = λ _. (t, tt) }, l₁) in
          (i', l'))
