-- ===== src/Schedule/Walk.antt =====
-- schedule.go `confirmWindowKills`: the walk over one window's kills under the stride gates.
-- The closures' shared variables are the fields of `State`; `log` is the trace of the calls of
-- `confirm`. The callbacks read the world that the earlier calls left, so each takes the log.
-- An error of `confirm` ends the walk; the drain loop runs on fuel.
pub mod Rules
pub mod Conservation
pub mod Invariant
pub mod Steps
pub mod Flip
use gomutant.Prelude.{
  ℕ, zero, suc, Bool, true, false, not, ◌&&◌, ◌||◌, Option, none, some, List, [], ◌∷◌, ◌++◌, ◌==◌,
  nat_eq, if◌then◌else◌, length, filter,
}
use gomutant.Prelude.Map.{Map, get, put}
use gomutant.Schedule.Gate.{ConfirmationGate, ConfirmOutcome, armed, confirm_now, observe}

pub record WindowKill : Type 0 where
  pub target : ℕ
  pub mi : ℕ

pub data Mode : Type 0 where
  serial_full stride_sampled : Mode

pub record Confirmation : Type 0 where
  pub kill : WindowKill
  pub mode : Mode
  pub outcome : ConfirmOutcome

pub record State : Type 0 where
  pub gates : Map ℕ ConfirmationGate
  pub window_flipped : Bool
  pub skipped : List WindowKill
  pub log : List Confirmation

-- How a walk ends: by itself, by an error of `confirm`, or (in the model only) without fuel.
pub data Ended : Type 0 where
  finished : State → Ended
  failed : State → Ended
  out_of_fuel : Ended

-- `mode`: the label of the gate state that decides the next confirmation.
unfoldable pub mode_of : ConfirmationGate → Mode
mode_of g = if armed g then serial_full else stride_sampled

abbrev pub of_target : ℕ → WindowKill → Bool
of_target t k = k.target == t

-- `takeSkips`: the skips of one target, or all, with the state that keeps the rest.
unfoldable pub take_skips : ℕ → Bool → State → List WindowKill × State
take_skips t all s = (
  filter (λ k. all || of_target t k) s.skipped,
  record s { skipped = filter (λ k. not (all || of_target t k)) s.skipped },
)

abbrev pub set_gate : ℕ → ConfirmationGate → State → State
set_gate t g s = record s { gates = put t g s.gates }

-- The state of the closures before the first kill.
abbrev pub initial : State
initial = record { gates = []; window_flipped = false; skipped = []; log = [] }

-- `note`: the outcome is observed; the window's first flip takes every skip.
unfoldable pub note :
    WindowKill → ConfirmOutcome → State → ConfirmationGate → List WindowKill × State
note k o s g =
    let (g', retroactive) = observe o g in
    let s' = set_gate k.target g' s in
    if retroactive && not s.window_flipped
    then take_skips 0 true (record s' { window_flipped = true })
    else ([], s')

pub record Callbacks : Type 0 where
  pub volatile : List Confirmation → ℕ → Bool
  pub confirm : List Confirmation → WindowKill → Mode → Option ConfirmOutcome
  pub unverifiable : List Confirmation → WindowKill → Bool

module _ (c : Callbacks) where
  open c use {volatile, confirm, unverifiable}

  -- `gateFor`: the target's gate, made at the first use.
  unfoldable pub gate_for : ℕ → State → State × ConfirmationGate
  gate_for t s = elim (get t s.gates) [
    | some g ↦ (s, g)
    | none ↦
        let g : ConfirmationGate = record {
          volatile = volatile s.log t;
          streak = 0;
          since_sample = 0;
          flipped = s.window_flipped;
        } in
        (set_gate t g s, g)
  ]

  -- Serial evidence that arrives unverifiable re-arms the target and takes its skips.
  unfoldable pub rearm :
      WindowKill → State → ConfirmationGate → List WindowKill × State × ConfirmationGate
  rearm k s g =
      if not g.volatile && unverifiable s.log k
      then (let (taken, s') = take_skips k.target false s in
          let g' : ConfirmationGate = record g { volatile = true } in
          (taken, set_gate k.target g' s', g'))
      else ([], s, g)

  -- The rest of a round, after `confirm` has answered: what joins the queue, and the state.
  unfoldable pub settle :
      WindowKill → ConfirmOutcome → State → ConfirmationGate → List WindowKill × State
  settle k o s g =
      let s₁ : State = record s {
        log = s.log ++ record { kill = k; mode = mode_of g; outcome = o } ∷ [];
      } in
      let (taken, s₂, g₁) = rearm k s₁ g in let (all, s₃) = note k o s₂ g₁ in (taken ++ all, s₃)

  -- One round of the inner loop; `none` is the error.
  unfoldable pub confirm_one : WindowKill → State → Option (List WindowKill × State)
  confirm_one k s =
      let (s₁, g) = gate_for k.target s in
      elim (confirm s₁.log k (mode_of g)) [ none ↦ none | some o ↦ some (settle k o s₁ g) ]

  -- `for len(queue) > 0`.
  unfoldable pub drain : ℕ → List WindowKill → State → Ended
  drain fuel [] s = finished s
  drain zero (k ∷ queue) s = out_of_fuel
  drain (suc fuel) (k ∷ queue) s = elim (confirm_one k s) [
    | none ↦ failed s
    | some (more, s') ↦ drain fuel (queue ++ more) s'
  ]

  -- `gateFor(k.target).confirmNow()`.
  unfoldable pub ask : WindowKill → State → State × Bool
  ask k s =
      let (s₁, g) = gate_for k.target s in
      let (g', now) = confirm_now g in (set_gate k.target g' s₁, now)

  -- The body of the outer loop: a kill is skipped, or confirmed with all that this demands.
  unfoldable pub visit : WindowKill → State → Ended
  visit k s =
      let (s₁, now) = ask k s in
      let rest = drain (suc (length s₁.skipped)) (k ∷ []) s₁ in
      if now then rest else finished (record s₁ { skipped = s₁.skipped ++ k ∷ [] })

  unfoldable pub walk : List WindowKill → State → Ended
  walk [] s = finished s
  walk (k ∷ kills) s = elim (visit k s) [
    | finished s' ↦ walk kills s'
    | failed s' ↦ failed s'
    | out_of_fuel ↦ out_of_fuel
  ]

  unfoldable pub confirm_window_kills : List WindowKill → Ended
  confirm_window_kills kills = walk kills initial
