-- ===== src/Findings/Disposition.antt =====
-- findings.go `Open`, `AttestedDispositions`, `WithdrawnDispositions`, `Attest`, `Reattest`,
-- `WithdrawAttestation`, and executionpolicy.go: the dispositions of one finding's survivors.
-- A method on a pointer returns the finding it leaves; an error leaves the finding as it was.
pub mod Consistency
pub mod Open
use gomutant.Prelude.{
  ◌≡◌, Bool, true, false, not, ◌&&◌, ◌||◌, Option, none, some, List, [], ◌∷◌, ◌++◌, Text, text_eq,
  codes, ◌==◌, if◌then◌else◌, is_some, any, filter, find, delete_first, update_first, text_lt,
  Result, err, ok,
}
use gomutant.Prelude.Sort.{sort}
use gomutant.Record.{Finding, Survivor, SurvivorKey, key_eq, Attestation, WithdrawnAttestation}

abbrev pub full_oracle_execution_policy : Text
full_oracle_execution_policy = codes "gomutant/full-oracle@3"

unfoldable pub oracle_execution_policy_issue : Finding → Text
oracle_execution_policy_issue f =
    if f.oracle_execution_policy == full_oracle_execution_policy
    then []
    else codes
        "oracle execution policy is missing or unsupported; re-measure with the complete oracle"

abbrev pub survivor_key : Survivor → SurvivorKey
survivor_key s = record { position = s.position; operator = s.operator }

abbrev pub attestation_key : Attestation → SurvivorKey
attestation_key a = record { position = a.position; operator = a.operator }

abbrev pub withdrawn_key : WithdrawnAttestation → SurvivorKey
withdrawn_key w = record { position = w.position; operator = w.operator }

-- The tests `s.Position == position && s.Operator == operator` of the three lists.
abbrev pub survivor_at : SurvivorKey → Survivor → Bool
survivor_at k s = survivor_key s == k

abbrev pub attested_at : SurvivorKey → Attestation → Bool
attested_at k a = attestation_key a == k

abbrev pub withdrawn_at : SurvivorKey → WithdrawnAttestation → Bool
withdrawn_at k w = withdrawn_key w == k

-- The order of the views: by position, then by operator.
abbrev pub key_lt : SurvivorKey → SurvivorKey → Bool
key_lt a b =
    if a.position == b.position
    then text_lt a.operator b.operator
    else text_lt a.position b.position

abbrev pub survivor_lt : Survivor → Survivor → Bool
survivor_lt a b = key_lt (survivor_key a) (survivor_key b)

abbrev attestation_lt : Attestation → Attestation → Bool
attestation_lt a b = key_lt (attestation_key a) (attestation_key b)

abbrev withdrawn_lt : WithdrawnAttestation → WithdrawnAttestation → Bool
withdrawn_lt a b = key_lt (withdrawn_key a) (withdrawn_key b)

-- Membership in the map `attested` that `Open` fills.
abbrev pub is_attested : Finding → SurvivorKey → Bool
is_attested f k = any (attested_at k) f.attested

unfoldable pub open_survivors : Finding → List Survivor
open_survivors f = sort survivor_lt (filter (λ s. not (is_attested f (survivor_key s))) f.survivors)

unfoldable attested_dispositions : Finding → List Attestation
attested_dispositions f = sort attestation_lt f.attested

unfoldable withdrawn_dispositions : Finding → List WithdrawnAttestation
withdrawn_dispositions f = sort withdrawn_lt f.withdrawn

-- The errors of the three methods, by their cause.
pub data Refusal : Type 0 where
  needs_reason : Refusal
  policy_issue : Text → Refusal
  no_survivor : SurvivorKey → Refusal
  already_attested : SurvivorKey → Refusal
  not_attested : SurvivorKey → Refusal

-- `slices.DeleteFunc` on the withdrawn list.
abbrev pub without_withdrawn : SurvivorKey → Finding → List WithdrawnAttestation
without_withdrawn k f = filter (λ w. not (withdrawn_at k w)) f.withdrawn

abbrev pub attestation_of : SurvivorKey → Text → Text → Attestation
attestation_of k reason site = record {
  position = k.position;
  operator = k.operator;
  reason = reason;
  site = site;
}

-- The two assignments that end `Attest`.
unfoldable pub add_attestation : SurvivorKey → Text → Text → Finding → Finding
add_attestation k reason site f = record f {
  withdrawn = without_withdrawn k f;
  attested = f.attested ++ attestation_of k reason site ∷ [];
}

unfoldable pub attest : SurvivorKey → Text → Finding → Result Refusal Finding
unfolding oracle_execution_policy_issue add_attestation
attest k reason f =
    if reason == []
    then err needs_reason
    else if not (oracle_execution_policy_issue f == [])
    then err (policy_issue (oracle_execution_policy_issue f))
    else elim (find (survivor_at k) f.survivors) [
      | none ↦ err (no_survivor k)
      | some s ↦
          if any (attested_at k) f.attested
          then err (already_attested k)
          else ok (add_attestation k reason s.site f)
    ]

abbrev pub reworded : Text → Text → Attestation → Attestation
reworded reason site a = record a { reason = reason; site = site }

-- The loop over `f.Attested` in `Reattest`.
unfoldable pub replace_attestation : SurvivorKey → Text → Text → Finding → Finding
replace_attestation k reason site f = record f {
  attested = update_first (attested_at k) (reworded reason site) f.attested;
}

unfoldable pub reattest : SurvivorKey → Text → Finding → Result Refusal Finding
unfolding oracle_execution_policy_issue replace_attestation
reattest k reason f =
    if reason == []
    then err needs_reason
    else if not (oracle_execution_policy_issue f == [])
    then err (policy_issue (oracle_execution_policy_issue f))
    else elim (find (survivor_at k) f.survivors) [
      | none ↦ err (no_survivor k)
      | some s ↦
          if any (attested_at k) f.attested
          then ok (replace_attestation k reason s.site f)
          else err (not_attested k)
    ]

-- The site of the survivor, or of the attestation where no survivor gives one.
abbrev pub withdrawn_site : SurvivorKey → Finding → Attestation → Text
withdrawn_site k f a =
    let site : Text = elim (find (survivor_at k) f.survivors) [ none ↦ [] | some s ↦ s.site ] in
    if site == [] then a.site else site

abbrev pub withdrawn_of : SurvivorKey → Text → Text → Text → WithdrawnAttestation
withdrawn_of k prior reason site = record {
  position = k.position;
  operator = k.operator;
  prior_reason = prior;
  reason = reason;
  site = site;
}

-- The three assignments that end `WithdrawAttestation`.
unfoldable pub move_to_withdrawn : SurvivorKey → Text → Attestation → Finding → Finding
move_to_withdrawn k reason a f = record f {
  attested = delete_first (attested_at k) f.attested;
  withdrawn = without_withdrawn k f ++ withdrawn_of k a.reason reason (withdrawn_site k f a) ∷ [];
}

unfoldable pub withdraw_attestation : SurvivorKey → Text → Finding → Result Refusal Finding
unfolding move_to_withdrawn
withdraw_attestation k reason f =
    if reason == [] then err needs_reason else elim (find (attested_at k) f.attested) [
      | none ↦ err (not_attested k)
      | some a ↦ ok (move_to_withdrawn k reason a f)
    ]
