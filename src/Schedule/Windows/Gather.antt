-- ===== src/Schedule/Windows/Gather.antt =====
-- schedule.go `gatherWindow`: the cut of the work stream into windows.
use gomutant.Prelude.{
  ℕ, ◌+◌, ◌≤◌, ◌≡◌, ◌≢◌, ◌⊎◌, refl, ap, true, false, some, List, [], ◌∷◌, ◌++◌, arith, Bool-cases,
  inl, inr, sym, subst,
}
use gomutant.Record.{Work}
use gomutant.WindowCost.{execution_budget}
use gomutant.Schedule.Windows.{candidates_of, executions_of, takes_more, gather_more, gather_window}

-- The sizes that the window rule reads.
abbrev total_candidates : List Work → ℕ
total_candidates [] = 0
total_candidates (w ∷ ws) = candidates_of w + total_candidates ws

abbrev total_executions : List Work → ℕ
total_executions [] = 0
total_executions (w ∷ ws) = executions_of w + total_executions ws

-- The window is full: at the ceiling, or past the minimum with its executions spent.
abbrev pub IsFull : ℕ → ℕ → List Work → Type 0
IsFull ceiling minimum ws =
    (ceiling ≤ total_candidates ws)
    ⊎ ((execution_budget ≤ total_executions ws) × (minimum ≤ total_candidates ws))

-- Full with what was gathered before.
abbrev FullAt : ℕ → ℕ → ℕ → ℕ → Type 0
FullAt ceiling minimum total execs =
    (ceiling ≤ total) ⊎ ((execution_budget ≤ execs) × (minimum ≤ total))

takes_more_iff :
    (ceiling minimum total execs : ℕ)
    → (takes_more ceiling minimum total execs ≡ false → FullAt ceiling minimum total execs)
      × (takes_more ceiling minimum total execs ≡ true → FullAt ceiling minimum total execs → ⊥)
unfolding takes_more
takes_more_iff ceiling minimum total execs = ground arith

same_head : (i x : Work) (is xs : List Work) → i ∷ is ≡ x ∷ xs → i ≡ x
same_head i x is xs h = cc

module _ (ceiling minimum : ℕ) where
  gather_more-append :
      (total execs : ℕ) (items : List Work)
      → let (joined, rest) = gather_more ceiling minimum total execs items in joined ++ rest ≡ items
  unfolding gather_more
  gather_more-append total execs [] = refl
  gather_more-append total execs (w ∷ items) =
      ground (arith, gather_more-append (total + candidates_of w) (execs + executions_of w) items)

  gather_more-full :
      (total execs : ℕ) (items : List Work)
      → let (joined, rest) = gather_more ceiling minimum total execs items in
        rest ≢ []
        → FullAt ceiling minimum (total + total_candidates joined) (execs + total_executions joined)
  unfolding gather_more
  gather_more-full total execs [] = λ h. absurd (h refl)
  gather_more-full total execs (w ∷ items) =
      elim (Bool-cases (takes_more ceiling minimum total execs)) [
        | inl y ↦ rw y (λ h.
            ground
              (arith, gather_more-full (total + candidates_of w) (execs + executions_of w) items h))
        | inr n ↦ rw n (λ h. ground (arith, (takes_more_iff ceiling minimum total execs).0 n))
      ]

  -- No window that is cut short of the gathered one was full.
  gather_more-needed :
      (total execs : ℕ) (items pre post : List Work) (w : Work)
      → (gather_more ceiling minimum total execs items).0 ≡ pre ++ w ∷ post
      → FullAt ceiling minimum (total + total_candidates pre) (execs + total_executions pre)
      → ⊥
  unfolding gather_more
  gather_more-needed total execs [] [] post w e f = cc
  gather_more-needed total execs [] (x ∷ pre) post w e f = cc
  gather_more-needed total execs (i ∷ items) [] post w e f =
      elim (Bool-cases (takes_more ceiling minimum total execs)) [
        | inl y ↦ (takes_more_iff ceiling minimum total execs).1 y (ground (arith, f))
        | inr n ↦ ground arith
      ]
  gather_more-needed total execs (i ∷ items) (x ∷ pre) post w e f =
      elim (Bool-cases (takes_more ceiling minimum total execs)) [
        | inl y ↦
            let e' = rw (y, gather_more) at e in
            gather_more-needed (total + candidates_of i) (execs + executions_of i) items pre post w
              (cc) (ground (arith, same_head i x _ _ e', f))
        | inr n ↦ ground arith
      ]

  -- The gathered window and the rest are the stream, in order. The window holds an item; it is cut
  -- only when it is full, and no shorter non-empty part of it was full.
  pub gather_window-cut :
      (items window rest : List Work)
      → gather_window items ceiling minimum ≡ some (window, rest)
      → (window ++ rest ≡ items)
        × (window ≢ [])
        × (rest ≢ [] → IsFull ceiling minimum window)
        × ((first w : Work) (pre post : List Work)
            → window ≡ first ∷ pre ++ w ∷ post
            → ¬ IsFull ceiling minimum (first ∷ pre))
  unfolding gather_window
  gather_window-cut [] window rest h = absurd (cc)
  gather_window-cut (i ∷ items) window rest h =
      let c = candidates_of i in
      let x = executions_of i in
      let (joined, left) = gather_more ceiling minimum c x items in
      let e : window ≡ i ∷ joined = cc in
      let d : rest ≡ left = cc in
      rw (e, d)
        (
          ap (λ l. i ∷ l) (gather_more-append c x items),
          λ z. cc,
          gather_more-full c x items,
          λ first w pre post q f. gather_more-needed c x items pre post w (cc) (
              subst
                (λ t.
                  FullAt ceiling minimum (candidates_of t + total_candidates pre)
                    (executions_of t + total_executions pre))
                (sym (same_head i first _ _ q)) f),
        )
