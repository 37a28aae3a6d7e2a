-- ===== src/Schedule/Gate.antt =====
-- schedule.go: the stride gate over the serial confirmation of kills, one per target and window.
-- A method that mutates the gate returns the new gate with its result.
use gomutant.Prelude.{
  ℕ, ◌+◌, Bool, true, false, not, ◌||◌, ltb, leb, if◌then◌else◌, List, Text, text_eq, codes, ◌==◌,
  any,
}
use gomutant.Record.{Work, Observation}
use gomutant.WindowCost.{confirm_streak, confirm_stride}

pub record ConfirmationGate : Type 0 where
  pub volatile : Bool
  pub streak : ℕ
  pub since_sample : ℕ
  pub flipped : Bool

pub data ConfirmOutcome : Type 0 where
  confirm_reproduced confirm_flipped confirm_inconclusive : ConfirmOutcome

unfoldable pub armed : ConfirmationGate → Bool
armed g = g.volatile || g.flipped || ltb g.streak confirm_streak

unfoldable pub confirm_now : ConfirmationGate → ConfirmationGate × Bool
unfolding armed
confirm_now g =
    if armed g
    then (g, true)
    else if leb confirm_stride (g.since_sample + 1)
    then (record g { since_sample = 0 }, true)
    else (record g { since_sample = g.since_sample + 1 }, false)

-- The Boolean is Go's `retroactive`: a first flip demands the stride-skipped kills.
unfoldable pub observe : ConfirmOutcome → ConfirmationGate → ConfirmationGate × Bool
observe confirm_reproduced g = (record g { streak = g.streak + 1 }, false)
observe confirm_inconclusive g = (g, false)
observe confirm_flipped g = (record g { flipped = true }, not g.flipped)

pub data MutantOutcome : Type 0 where
  mutant_discarded mutant_killed mutant_survived : MutantOutcome

-- `engine.TimeoutKiller`.
abbrev pub timeout_killer : Text
timeout_killer = codes "(timeout)"

-- What a serial confirmation's scored result says to the gate.
unfoldable classify_confirmation : MutantOutcome → Text → ConfirmOutcome
classify_confirmation mutant_killed killer =
    if killer == timeout_killer then confirm_inconclusive else confirm_reproduced
classify_confirmation mutant_discarded killer = confirm_inconclusive
classify_confirmation mutant_survived killer = confirm_flipped

unfoldable window_evidence_volatile : Work → List Observation → Bool
window_evidence_volatile w observations =
    any (λ b. b.unverifiable) w.baselines || any (λ o. o.unverifiable) observations
