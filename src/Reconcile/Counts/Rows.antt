-- ===== src/Reconcile/Counts/Rows.antt =====
-- execute.go and reconcile.go: the rows that the outcomes of candidates stand for.
use gomutant.Prelude.{
  ℕ, suc, ◌≡◌, refl, none, some, List, [], ◌∷◌, ◌++◌, Text, codes, is_some, if◌then◌else◌,
  Option-cases, inl, inr,
}
use gomutant.Record.{Survivor, Kill, Candidate}
use gomutant.Reconcile.Ceiling.{WindowScores}
use gomutant.Schedule.Gate.{MutantOutcome, mutant_killed, mutant_survived}
use gomutant.Reconcile.Counts.{new_survivor}

-- The row of a candidate that ran and survived; a withdrawn kill marks it and names its killer.
abbrev pub row : WindowScores → Text → ℕ → Candidate → Survivor
row scores execution mi c = record {
  position = c.position;
  operator = c.operator;
  extent = c.extent;
  site = c.site;
  execution = if is_some (scores.flips mi) then codes "flipped-kill" else execution;
  withdrawn_killer = elim (scores.flips mi) [ none ↦ [] | some killer ↦ killer ];
  other_selection = [];
}

abbrev pub kill_row : WindowScores → ℕ → Candidate → Kill
kill_row scores mi c = record {
  position = c.position;
  operator = c.operator;
  killer = scores.killers mi;
}

abbrev pub if_survived {ℓ} : {A : Type ℓ} → MutantOutcome → A → List A
if_survived mutant_survived a = a ∷ []
if_survived _ a = []

abbrev pub if_killed {ℓ} : {A : Type ℓ} → MutantOutcome → A → List A
if_killed mutant_killed a = a ∷ []
if_killed _ a = []

-- The rows of the candidates from `mi` on, by their outcomes.
abbrev pub survivor_rows : WindowScores → Text → ℕ → List Candidate → List Survivor
survivor_rows scores execution mi [] = []
survivor_rows scores execution mi (c ∷ cs) =
    if_survived (scores.outcomes mi) (row scores execution mi c)
    ++ survivor_rows scores execution (suc mi) cs

abbrev pub kill_rows : WindowScores → ℕ → List Candidate → List Kill
kill_rows scores mi [] = []
kill_rows scores mi (c ∷ cs) =
    if_killed (scores.outcomes mi) (kill_row scores mi c) ++ kill_rows scores (suc mi) cs

pub new_survivor-row :
    (scores : WindowScores) (execution : Text) (mi : ℕ) (c : Candidate)
    → new_survivor c execution scores.flips mi ≡ row scores execution mi c
unfolding new_survivor
new_survivor-row scores execution mi c = elim (Option-cases (scores.flips mi)) [
  | inl n ↦ rw (new_survivor, n) refl
  | inr (killer, y) ↦ rw (new_survivor, y) refl
]
