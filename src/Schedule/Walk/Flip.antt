-- ===== src/Schedule/Walk/Flip.antt =====
-- schedule.go `confirmWindowKills`: a flip confirms the whole window.
use gomutant.Prelude.{
  ℕ, ◌≤◌, ◌≡◌, refl, subst, true, some, List, [], ◌∷◌, arith, All-imp, any, nat_eq,
}
use gomutant.Prelude.Map.{get}
use gomutant.Schedule.Walk.{
  WindowKill, State, finished, Callbacks, walk, confirm_window_kills, initial,
}
use gomutant.Schedule.Walk.Rules.{walk_cons_inv}
use gomutant.Schedule.Walk.Invariant.{is_flip, InOrder, Logged, Inv}
use gomutant.Schedule.Walk.Steps.{visit-Inv}

-- Going on to a later target: its gate cannot exist yet.
Inv-later : (cur t : ℕ) (s : State) → cur ≤ t → Inv cur s → Inv t s
Inv-later cur t s h i = record {
  bounded = λ j g e. omega (arith, i.bounded j g e);
  seen = i.seen;
  cleared = i.cleared;
  current = λ w g e.
      i.current w g (subst (λ n. get n s.gates ≡ some g) (omega (arith, i.bounded t g e)) e);
  within =
      All-imp (λ k. k.target ≤ cur) (λ k. k.target ≤ t) (λ k e. omega arith) s.skipped i.within;
}

initial-Inv : Inv 0 initial
unfolding get
initial-Inv = record {
  bounded = λ j g e. cc;
  seen = λ j g e. cc;
  cleared = λ w. refl;
  current = λ w g e. cc;
  within = tt;
}

module _ (c : Callbacks) where
  walk-Inv :
      (cur : ℕ) (kills : List WindowKill) (s s' : State)
      → InOrder cur kills
      → Inv cur s
      → Logged s
      → walk c kills s ≡ finished s'
      → (t : ℕ) × Inv t s' × Logged s'
  unfolding walk
  walk-Inv cur [] s s' o i l h =
      let (i', l') : Inv cur s' × Logged s' = subst (λ u. Inv cur u × Logged u) (cc) (i, l) in
      (cur, i', l')
  walk-Inv cur (k ∷ kills) s s' o i l h =
      let (u, v, w) = walk_cons_inv c k kills s h in
      let (j, m) = visit-Inv c k.target k s u refl (Inv-later cur k.target s o.0 i) l v in
      walk-Inv k.target kills u s' o.1 j m w

  -- In a window whose kills come in the order of their targets, one flip confirms everything: if
  -- the walk ends with no error and the log holds a flip, then no kill is left skipped.
  pub flip_confirms_all :
      (kills : List WindowKill) (s : State)
      → InOrder 0 kills
      → confirm_window_kills c kills ≡ finished s
      → any is_flip s.log ≡ true
      → s.skipped ≡ []
  unfolding confirm_window_kills
  flip_confirms_all kills s o h f =
      let (t, i, l) = walk-Inv 0 kills initial s o initial-Inv (unfold any in λ e. cc) h in
      i.cleared (l f)
