-- ===== src/Examples/Records.antt =====
-- reconcile.go on a small enumeration: two candidates, of which the second is a budget extension.
use gomutant.Prelude.{
  is_some, ◌<◌, true, ℕ, ◌+◌, ◌≡◌, ◌↔◌, refl, false, none, some, List, [], ◌∷◌, ◌++◌, Text, codes,
  arith, length, All, if◌then◌else◌, ◌==◌, text_beq, nat_eq,
}
use gomutant.Prelude.Map.{Map, get, put}
use gomutant.Record.{
  Finding, SurvivorKey, key_eq, key_beq, CandidateEvidence, Candidate, mutant, Generation,
}
use gomutant.Examples.Blank.{blank, durations, clause, run}
use gomutant.Findings.Disposition.{survivor_key}
use gomutant.Schedule.Gate.{MutantOutcome, mutant_killed, mutant_survived}
use gomutant.Exemptions.{unstable_for_buckets}
use gomutant.Reconcile.Ceiling.{WindowScores, merge_scored_facts}
use gomutant.Reconcile.Counts.{
  Disposition, killed, survived, discarded, sum_by, sum_operator_totals, summarize_operators,
  extend_finding_counts,
}
use gomutant.Reconcile.Counts.Sums.{
  weigh, with_outcome, with_operator, counted_at, summarize_operators-conserves,
}
use gomutant.Reconcile.Counts.Rows.{survivor_rows, kill_rows}
use gomutant.Reconcile.Counts.Extend.{Conserved, extend_finding_counts-conserves}
use gomutant.Reconcile.Identity.{
  extended_prefix_stands, count_operators, operators_match, survivors_in_prefix, evidence_key,
  index_from, candidate_identity_index, reidentify, survivors_known, flag,
  flagged_candidate_indexes,
}
use gomutant.Reconcile.Identity.Prefix.{InPrefix, extended_prefix_stands-InPrefix}
use gomutant.Reconcile.Identity.Unique.{Unique, candidate_identity_index_iff-Unique}
use gomutant.Reconcile.Identity.Laws.{Names, Known, Flagged, flagged_candidate_indexes_sound}

abbrev candidate : Text → Candidate
candidate position = record {
  symbol = codes "p.F";
  operator = codes "negate";
  position = position;
  site = [];
  extent = [];
  replacements = (codes "a.go", codes "x") ∷ [];
}

abbrev pub candidates : List Candidate
candidates = candidate (codes "1:2") ∷ candidate (codes "3:4") ∷ []

abbrev outcomes : ℕ → MutantOutcome
outcomes mi = if mi == 0 then mutant_killed else mutant_survived

summarize_operators-conserves_example :
    let ss = summarize_operators candidates outcomes in
    let (k, d, s) = sum_operator_totals ss in
    ((o : Text) (e : Disposition)
      → sum_by (counted_at o e) ss ≡ weigh (with_operator o e) outcomes 0 candidates)
    × (k ≡ weigh (with_outcome killed) outcomes 0 candidates)
    × (d ≡ weigh (with_outcome discarded) outcomes 0 candidates)
    × (s ≡ weigh (with_outcome survived) outcomes 0 candidates)
    × (k + d + s ≡ length candidates)
summarize_operators-conserves_example = summarize_operators-conserves candidates outcomes

-- The record of the first candidate, which was killed.
abbrev pub recorded : ℕ → ℕ → List CandidateEvidence → Finding
recorded count generated evidence = record blank {
  symbol = codes "p.F";
  budget = 1;
  candidate_count = count;
  generated = generated;
  mutants = 1;
  killed = 1;
  operators =
      record { operator = codes "negate"; generated = 1; discarded = 0; killed = 1; survived = 0 }
      ∷ [];
  kills = record { position = codes "1:2"; operator = codes "negate"; killer = codes "TestA" } ∷ [];
  candidate_evidence = evidence;
}

abbrev pub scores : WindowScores
scores = record {
  outcomes = outcomes;
  killers = λ mi. codes "TestA";
  flips = λ mi. none;
  memory_decided = [];
}

recorded-Conserved : Conserved 1 (recorded 2 1 [])
unfolding sum_operator_totals sum_by
recorded-Conserved = (refl, refl, refl, refl, refl)

extend_finding_counts-conserves_example :
    (f : Finding) × (extend_finding_counts durations clause []
        (λ mi. false)
        (recorded 2 1 [])
        candidates
        1
        scores
        []
        2
        run
      ≡ some f)
    × Conserved (length candidates) f
    × (f.generated ≡ length candidates)
    × (f.survivors
        ≡ []
          ++ survivor_rows scores
              (if unstable_for_buckets clause []
                  (merge_scored_facts durations (recorded 2 1 []) scores run)
                then codes "unstable-oracle"
                else [])
              1
              (candidate (codes "3:4") ∷ []))
    × (length (recorded 2 1 []).kills ≡ (recorded 2 1 []).killed
        → (f.kills ≡ (recorded 2 1 []).kills ++ kill_rows scores 1 (candidate (codes "3:4") ∷ []))
          × (length f.kills ≡ f.killed))
extend_finding_counts-conserves_example =
    extend_finding_counts-conserves durations clause [] (λ mi. false) (recorded 2 1 []) candidates 1
      scores [] 2 run (λ mi. refl) (omega arith) recorded-Conserved

abbrev key : Text → SurvivorKey
key position = record { position = position; operator = codes "negate" }

abbrev index : Map SurvivorKey ℕ
index = (key (codes "1:2"), 0) ∷ (key (codes "3:4"), 1) ∷ []

indexes : candidate_identity_index candidates ≡ some index
unfolding candidate_identity_index index_from get put key_beq text_beq
indexes = refl

candidate_identity_index_iff-Unique_example :
    ((is_some (candidate_identity_index candidates) ≡ true) ↔ Unique candidates)
    × ((k : SurvivorKey) (i : ℕ)
        → ((m : Map SurvivorKey ℕ) × (candidate_identity_index candidates ≡ some m)
            × (get k m ≡ some i))
          ↔ (Unique candidates × Names candidates i k))
candidate_identity_index_iff-Unique_example = candidate_identity_index_iff-Unique candidates

abbrev pub evidence : CandidateEvidence
evidence = record {
  position = codes "3:4";
  operator = codes "negate";
  reason = codes "read a clock";
  disposition = codes "killed";
}

abbrev generation : Generation
generation = record { candidate_count = 2; candidates = candidates }

flags : flagged_candidate_indexes generation (recorded 2 2 (evidence ∷ [])) ≡ some (1 ∷ [])
unfolding flagged_candidate_indexes reidentify survivors_known flag candidate_identity_index
    index_from get put key_beq text_beq mutant
flags = refl

flagged_candidate_indexes_sound_example :
    (generation.candidate_count ≡ 2)
    × (length candidates ≡ 2)
    × All (λ s. Known candidates (survivor_key s)) []
    × All (λ e. Known candidates (evidence_key e)) (evidence ∷ [])
    × All (Flagged candidates (evidence ∷ [])) (1 ∷ [])
flagged_candidate_indexes_sound_example =
    flagged_candidate_indexes_sound generation (recorded 2 2 (evidence ∷ [])) (1 ∷ []) flags

prefix_stands : extended_prefix_stands generation (recorded 2 1 []) ≡ true
unfolding extended_prefix_stands candidate_identity_index index_from get put key_beq text_beq
    count_operators operators_match survivors_in_prefix
prefix_stands = refl

extended_prefix_stands-InPrefix_example :
    (generation.candidate_count ≡ 2)
    × (1 < length candidates)
    × All (λ s. InPrefix candidates 1 (survivor_key s)) []
extended_prefix_stands-InPrefix_example =
    extended_prefix_stands-InPrefix generation (recorded 2 1 []) prefix_stands
