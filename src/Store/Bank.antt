-- ===== src/Store/Bank.antt =====
-- bank.go: the machine-local bank of baseline measurements, without its file. What the file held is
-- an argument, and so is the length of the bank's JSON encoding. A range over a map is in the
-- order of insertion. `Coverage` is the type of the historical coverage entries, which the bank only
-- passes on.
pub mod Eviction
pub mod Durations
pub mod Join
use gomutant.Prelude.{
  ℕ, zero, suc, ◌*◌, ◌/◌, ◌^◌, Bool, true, false, not, ◌&&◌, ◌||◌, Option, none, some, List, [],
  ◌∷◌, Text, text_eq, nat_eq, ◌==◌, if◌then◌else◌, ltb, leb, length, any, filter, map, text_lt,
}
use gomutant.Prelude.Map.{Map, get, put}
use gomutant.Record.{SubjectEvidence}
use gomutant.Reconcile.Ceiling.{leash_for}

pub record BankedBaseline : Type 0 where
  pub evidence : List SubjectEvidence
  pub manifest : Text
  pub digest : Text
  pub raw_millis : ℕ
  pub passed_tests : List Text
  pub test_duration_millis : Map Text ℕ
  pub measured_at_unix : ℕ

pub record BankFile (Coverage : Type 0) : Type 0 where
  pub version : ℕ
  pub baselines : Map Text BankedBaseline
  pub coverage : Map Text Coverage

pub record BaselineBank (Coverage : Type 0) : Type 0 where
  pub file : BankFile Coverage
  pub dirty : Bool
  pub dirty_keys : List Text

abbrev pub bank_version : ℕ
bank_version = 3

-- `8 << 20`.
abbrev pub bank_file_ceiling : ℕ
bank_file_ceiling = 8 * 2 ^ 20

-- The name of a package in a bank key: what stands before the first zero byte.
unfoldable cut_zero : Text → Text
cut_zero [] = []
cut_zero (c ∷ cs) = let rest = cut_zero cs in if c == 0 then [] else c ∷ rest

abbrev forget_passed : Text × BankedBaseline → Text × BankedBaseline
forget_passed (k, e) = (k, record e { passed_tests = [] })

-- The loop that joins the baselines on disk: one of this run's own stands, and of two others the newer.
unfoldable pub merge_baselines :
    List Text → Map Text BankedBaseline → Map Text BankedBaseline → Map Text BankedBaseline
unfolding get put any
merge_baselines dirty [] m = m
merge_baselines dirty ((k, e) ∷ disk) m = merge_baselines dirty disk (elim (get k m) [
  | none ↦ put k e m
  | some cur ↦
      if not (any (λ d. d == k) dirty) && ltb cur.measured_at_unix e.measured_at_unix
      then put k e m
      else m
])

unfoldable longest_from : Text → List (Text × BankedBaseline) → Option ℕ → Option ℕ
unfolding cut_zero
longest_from pkg [] longest = longest
longest_from pkg ((k, e) ∷ m) longest = longest_from pkg m (
    if not (cut_zero k == pkg) then longest else elim longest [
      | none ↦ some (e.raw_millis * 10 ^ 6)
      | some l ↦ if ltb l (e.raw_millis * 10 ^ 6) then some (e.raw_millis * 10 ^ 6) else some l
    ])

module _ {Coverage : Type 0} where
  -- A file of version 2 has no passing identities; any version but 2 and 3 is refused.
  unfoldable read_version : BankFile Coverage → Option (BankFile Coverage)
  read_version f =
      if f.version == bank_version
      then some f
      else if f.version == 2
      then some (record f { version = bank_version; baselines = map forget_passed f.baselines })
      else none

  -- `openBaselineBank`: the size and the decoded content of the file, where there are any.
  unfoldable open_baseline_bank : Option (ℕ × Option (BankFile Coverage)) → BankFile Coverage
  unfolding read_version
  open_baseline_bank on_disk =
      let empty : BankFile Coverage = record {
        version = bank_version;
        baselines = [];
        coverage = [];
      } in
      elim on_disk [
        | none ↦ empty
        | some (size, content) ↦ if ltb bank_file_ceiling size then empty else elim content [
          | none ↦ empty
          | some f ↦ elim (read_version f) [ none ↦ empty | some g ↦ g ]
        ]
      ]

  unfoldable merge_coverage : Map Text Coverage → Map Text Coverage → Map Text Coverage
  unfolding get put
  merge_coverage [] m = m
  merge_coverage ((k, e) ∷ disk) m =
      merge_coverage disk (elim (get k m) [ none ↦ put k e m | some _ ↦ m ])

  -- The merge of a concurrent writer's deposits, where its file is read and decoded.
  unfoldable merge_disk :
      List Text → Option (ℕ × Option (BankFile Coverage)) → BankFile Coverage → BankFile Coverage
  unfolding merge_baselines merge_coverage read_version
  merge_disk dirty on_disk f = elim on_disk [
    | none ↦ f
    | some (size, content) ↦ if ltb bank_file_ceiling size then f else elim content [
      | none ↦ f
      | some d ↦ elim (read_version d) [
        | none ↦ f
        | some disk ↦ record f {
          baselines = merge_baselines dirty disk.baselines f.baselines;
          coverage = merge_coverage disk.coverage f.coverage;
        }
      ]
    ]
  ]

  -- In nanoseconds.
  unfoldable longest_baseline_for : Text → BankFile Coverage → Option ℕ
  unfolding longest_from
  longest_baseline_for pkg f = longest_from pkg f.baselines none

-- The older of the entry so far and the next; of one age, the smaller key.
unfoldable pub older : Option (Text × ℕ) → Text → ℕ → Option (Text × ℕ)
older none k t = some (k, t)
older (some (oldest, time)) k t =
    if ltb t time || ((t == time) && text_lt k oldest) then some (k, t) else some (oldest, time)

unfoldable pub oldest_from : Option (Text × ℕ) → List (Text × BankedBaseline) → Option (Text × ℕ)
unfolding older
oldest_from oldest [] = oldest
oldest_from oldest ((k, e) ∷ m) = oldest_from (older oldest k e.measured_at_unix) m

abbrev pub delete_key : Text → Map Text BankedBaseline → Map Text BankedBaseline
delete_key k m = filter (λ p. not (p.0 == k)) m

unfoldable pub drop_oldest : Map Text BankedBaseline → Map Text BankedBaseline
unfolding oldest_from filter
drop_oldest m = elim (oldest_from none m) [ none ↦ m | some (k, t) ↦ delete_key k m ]

-- `encoded` is the length of the JSON encoding.
module _ {Coverage : Type 0} (encoded : BankFile Coverage → ℕ) where
  -- The `for` of `persistLocked`, on fuel.
  unfoldable pub evict : ℕ → BankFile Coverage → BankFile Coverage
  unfolding drop_oldest
  evict zero f = f
  evict (suc n) f =
      let rest = evict n (record f { baselines = drop_oldest f.baselines }) in
      if ltb bank_file_ceiling (encoded f) && ltb 1 (length f.baselines) then rest else f

  -- The bank before and after a write: whether the path is known and its directory stands, what the
  -- file holds, and whether the write succeeds.
  unfoldable persist_locked :
      Bool
      → Option (ℕ × Option (BankFile Coverage))
      → Bool
      → BaselineBank Coverage
      → BaselineBank Coverage
  unfolding merge_disk evict
  persist_locked ready on_disk written b =
      if not b.dirty || not ready
      then b
      else (let merged = merge_disk b.dirty_keys on_disk b.file in
          let file = evict (length merged.baselines) merged in
          if written
          then record { file = file; dirty = false; dirty_keys = [] }
          else record b { file = file })

  unfoldable put_baseline :
      Bool
      → Option (ℕ × Option (BankFile Coverage))
      → Bool
      → Text
      → BankedBaseline
      → BaselineBank Coverage
      → BaselineBank Coverage
  unfolding persist_locked put
  put_baseline ready on_disk written k e b = persist_locked ready on_disk written (record {
    file = record b.file { baselines = put k e b.file.baselines };
    dirty = true;
    dirty_keys = k ∷ b.dirty_keys;
  })
