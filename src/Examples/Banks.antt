-- ===== src/Examples/Banks.antt =====
-- bank.go on a bank of two entries, and freshness.go on two lists of oracle evidence.
use gomutant.Prelude.{
  some, text_eq, ℕ, ◌≤◌, ◌*◌, ◌≡◌, ◌⊎◌, ◌↔◌, refl, true, Text, codes, List, [], ◌∷◌, length, any,
  text_beq, All, arith,
}
use gomutant.Prelude.Map.{Map, Keys, get}
use gomutant.Prelude.Names.{Distinct}
use gomutant.Record.{SubjectEvidence}
use gomutant.Examples.Blank.{no_evidence}
use gomutant.Freshness.Pins.{same_oracle_pins}
use gomutant.Freshness.Pins.Views.{symbols, pins_of}
use gomutant.Freshness.Pins.Refinement.{same_oracle_pins-refines}
use gomutant.Store.Bank.{
  BankedBaseline, BankFile, bank_file_ceiling, bank_version, evict, merge_baselines,
}
use gomutant.Store.Bank.Eviction.{DistinctKeys, Kept, evict-fits}
use gomutant.Store.Bank.Join.{joined, merge_baselines-joins}
use gomutant.Store.Bank.Durations.{
  durations_to_millis, millis_to_durations, rounded, millis_to_durations-durations_to_millis,
}

abbrev measured_at : ℕ → BankedBaseline
measured_at t = record {
  evidence = [];
  manifest = [];
  digest = [];
  raw_millis = 5;
  passed_tests = codes "TestF" ∷ [];
  test_duration_millis = [];
  measured_at_unix = t;
}

abbrev two_entries : BankFile Text
two_entries = record {
  version = bank_version;
  baselines = (codes "p", measured_at 7) ∷ (codes "q", measured_at 4) ∷ [];
  coverage = [];
}

-- Each entry takes as much as the ceiling admits.
abbrev large : BankFile Text → ℕ
large f = length f.baselines * bank_file_ceiling

two_distinct : DistinctKeys two_entries.baselines
unfolding any text_beq
two_distinct = (refl, (refl, tt))

drops_older :
    evict large 2 two_entries ≡ record two_entries { baselines = (codes "p", measured_at 7) ∷ [] }
unfolding evict text_beq
drops_older = refl

evict-fits_example :
    let f = evict large 2 two_entries in
    ((large f ≤ bank_file_ceiling) ⊎ (length f.baselines ≤ 1))
    × All (Kept large f) two_entries.baselines
evict-fits_example = evict-fits large 2 two_entries (omega arith) two_distinct

-- The file of another run has newer entries, one of them under a key that this run deposited.
abbrev on_disk : Map Text BankedBaseline
on_disk = (codes "p", measured_at 9) ∷ (codes "q", measured_at 9) ∷ []

disk-Keys : Keys on_disk
unfolding get text_beq
disk-Keys = (refl, (refl, tt))

own_stands :
    get (codes "p") (merge_baselines (codes "p" ∷ []) on_disk two_entries.baselines)
    ≡ some (measured_at 7)
unfolding merge_baselines any text_beq get
own_stands = refl

merge_baselines-joins_example :
    get (codes "p") (merge_baselines (codes "p" ∷ []) on_disk two_entries.baselines)
    ≡ joined true (get (codes "p") two_entries.baselines) (get (codes "p") on_disk)
unfolding any text_beq
merge_baselines-joins_example =
    merge_baselines-joins (codes "p" ∷ []) on_disk two_entries.baselines (codes "p") disk-Keys

abbrev durs : Map Text ℕ
durs = (codes "TestF", 1500000) ∷ (codes "TestG", 20) ∷ (codes "TestH", 0) ∷ []

durs-Keys : Keys durs
unfolding get text_beq
durs-Keys = (refl, (refl, (refl, tt)))

millis_to_durations-durations_to_millis_example :
    (get (codes "TestG") (millis_to_durations (durations_to_millis durs))
      ≡ rounded (get (codes "TestG") durs))
    × (get (codes "TestG") (durations_to_millis (millis_to_durations (durations_to_millis durs)))
        ≡ get (codes "TestG") (durations_to_millis durs))
millis_to_durations-durations_to_millis_example =
    millis_to_durations-durations_to_millis durs (codes "TestG") durs-Keys

abbrev evidence : Text → Text → SubjectEvidence
evidence symbol reason = record no_evidence { symbol = symbol; runtime_reason = reason }

abbrev one_order : List SubjectEvidence
one_order = evidence (codes "p.TestF") [] ∷ evidence (codes "p.TestG") (codes "reads a clock") ∷ []

abbrev other_order : List SubjectEvidence
other_order =
    evidence (codes "p.TestG") (codes "reads a clock") ∷ evidence (codes "p.TestF") [] ∷ []

same_oracle_pins-refines_example : (same_oracle_pins one_order other_order ≡ true) ↔ (
    Distinct (symbols one_order)
    × Distinct (symbols other_order)
    × (pins_of one_order ≡ pins_of other_order))
same_oracle_pins-refines_example = same_oracle_pins-refines one_order other_order refl
