-- ===== src/Delta.antt =====
-- delta.go: the cut of a record's open survivors by the lines that a change added; execute.go
-- `splitSurvivorPosition`. What the engine and the tree answer is the record `Places`; a cancelled
-- context, which ends the cut with its error, is left out. `atoi` is `strconv.Atoi`.
pub mod Laws
use gomutant.Prelude.{
  ℕ, ◌+◌, zero, suc, Bool, true, false, not, ◌&&◌, ◌||◌, Option, none, some, List, [], ◌∷◌, ◌++◌,
  Text, text_eq, ◌==◌, if◌then◌else◌, ltb, leb, any,
}
use gomutant.Prelude.Map.{Map, get}
use gomutant.Prelude.Strings.{split, cut}
use gomutant.Record.{Finding, Survivor}
use gomutant.Findings.Disposition.{open_survivors}

-- The lines from `from` up to `to`, which is not one of them.
pub record LineRange : Type 0 where
  pub from : ℕ
  pub to : ℕ

unfoldable contains : LineRange → ℕ → Bool
contains r line = leb r.from line && ltb line r.to

-- `Changed` is a set of symbols.
pub record DeltaCut : Type 0 where
  pub ref : Text
  pub added : Map Text (List LineRange)
  pub changed : Text → Bool

unfoldable on_delta : DeltaCut → Text → ℕ → Bool
unfolding contains get any
on_delta c path line = elim (get path c.added) [
  | none ↦ false
  | some ranges ↦ any (λ r. contains r line) ranges
]

-- `Remainder` and `OnDelta` in the record's survivor order; `placed` holds the places of the latter.
pub record DeltaSurvivors : Type 0 where
  pub delta : List Survivor
  pub remainder : List Survivor
  pub placed : List ℕ

-- A symbol's body hash and the tree-relative path of a file of its package, where they are known.
pub record Places : Type 0 where
  pub body_hash : Text → Option Text
  pub package_dir : Text → Option Text
  pub tree_relative : Text → Text → Option Text

-- Three parts at the colons: a file, a line, and a column before any `#`.
unfoldable split_survivor_position : (Text → Option ℕ) → Text → Option (Text × ℕ × ℕ)
unfolding split cut
split_survivor_position atoi position = elim (split 58 position) [
  | [] ↦ none
  | file ∷ p₁ ↦ elim p₁ [
    | [] ↦ none
    | line ∷ p₂ ↦ elim p₂ [
      | [] ↦ none
      | column ∷ p₃ ↦ elim p₃ [
        | _ ∷ _ ↦ none
        | [] ↦ elim (atoi line) [
          | none ↦ none
          | some l ↦ elim (atoi (cut 35 column).0) [ none ↦ none | some c ↦ some (file, l, c) ]
        ]
      ]
    ]
  ]
]

abbrev is_empty {ℓ} : {A : Type ℓ} → List A → Bool
is_empty [] = true
is_empty (_ ∷ _) = false

module _ (atoi : Text → Option ℕ) (places : Places) (c : DeltaCut) where
  -- Whether a survivor lies on an added line of its file.
  unfoldable pub lies_on_delta : Text → Survivor → Bool
  unfolding split_survivor_position on_delta
  lies_on_delta dir s = elim (split_survivor_position atoi s.position) [
    | none ↦ false
    | some (file, line, column) ↦ elim (places.tree_relative dir file) [
      | none ↦ false
      | some path ↦ on_delta c path line
    ]
  ]

  -- The loop over the open survivors, from the one at `i` on.
  unfoldable pub cut_from : Text → ℕ → List Survivor → DeltaSurvivors → DeltaSurvivors
  unfolding lies_on_delta
  cut_from dir i [] out = out
  cut_from dir i (s ∷ ss) out = cut_from dir (suc i) ss (
      if lies_on_delta dir s
      then record out { delta = out.delta ++ s ∷ []; placed = out.placed ++ i ∷ [] }
      else record out { remainder = out.remainder ++ s ∷ [] })

  -- The package directory of a record that the cut can place.
  unfoldable pub placeable : Finding → List Survivor → Option Text
  placeable f unattested =
      if is_empty unattested || is_empty c.added || not (c.changed f.symbol)
      then none
      else elim (places.body_hash f.symbol) [
        | none ↦ none
        | some current ↦ if current == f.body_hash then places.package_dir f.symbol else none
      ]

  unfoldable pub cut_survivors : Finding → DeltaSurvivors
  unfolding open_survivors placeable cut_from
  cut_survivors f =
      let unattested = open_survivors f in
      elim (placeable f unattested) [
        | none ↦ record { delta = []; remainder = unattested; placed = [] }
        | some dir ↦ cut_from dir 0 unattested (record { delta = []; remainder = []; placed = [] })
      ]
