-- ===== src/Freshness/Pins/Laws.antt =====
-- freshness.go `sameAttestationPins`: equality of evidence.
use gomutant.Prelude.{◌≡◌, refl, Bool, true, ◌&&◌, text_eq, eq_sound, eq_refl, bool_beq, arith}
use gomutant.Record.{SubjectEvidence}
use gomutant.Freshness.Pins.{same_evidence}

bool_sound : (a b : Bool) → bool_beq a b ≡ true → a ≡ b
bool_sound a b h = ground arith

bool_refl : (a : Bool) → bool_beq a a ≡ true
bool_refl a = ground arith

both_true : {a b : Bool} → (a && b) ≡ true → (a ≡ true) × (b ≡ true)
both_true h = (ground arith, ground arith)

pub same_evidence_sound : (a b : SubjectEvidence) → same_evidence a b ≡ true → a ≡ b
same_evidence_sound a b h =
    let (h11, e11) = both_true h in
    let (h10, e10) = both_true h11 in
    let (h9, e9) = both_true h10 in
    let (h8, e8) = both_true h9 in
    let (h7, e7) = both_true h8 in
    let (h6, e6) = both_true h7 in
    let (h5, e5) = both_true h6 in
    let (h4, e4) = both_true h5 in
    let (h3, e3) = both_true h4 in
    let (h2, e2) = both_true h3 in
    let (h1, e1) = both_true h2 in
    λ i. record {
      symbol = eq_sound a.symbol b.symbol h1 i;
      fingerprint = eq_sound a.fingerprint b.fingerprint e1 i;
      dynamic_state_vouches = eq_sound a.dynamic_state_vouches b.dynamic_state_vouches e2 i;
      package_process_discharges =
          eq_sound a.package_process_discharges b.package_process_discharges e3 i;
      single_subject_discharges =
          eq_sound a.single_subject_discharges b.single_subject_discharges e4 i;
      closure_strategy = eq_sound a.closure_strategy b.closure_strategy e5 i;
      module_base = eq_sound a.module_base b.module_base e6 i;
      runtime_inputs = eq_sound a.runtime_inputs b.runtime_inputs e7 i;
      runtime_digest = eq_sound a.runtime_digest b.runtime_digest e8 i;
      runtime_unverifiable = bool_sound a.runtime_unverifiable b.runtime_unverifiable e9 i;
      runtime_reason = eq_sound a.runtime_reason b.runtime_reason e10 i;
      runtime_attribution = eq_sound a.runtime_attribution b.runtime_attribution e11 i;
    }

pub same_evidence_refl : (a : SubjectEvidence) → same_evidence a a ≡ true
same_evidence_refl a =
    rw
      (
        eq_refl a.symbol,
        eq_refl a.fingerprint,
        eq_refl a.dynamic_state_vouches,
        eq_refl a.package_process_discharges,
        eq_refl a.single_subject_discharges,
        eq_refl a.closure_strategy,
        eq_refl a.module_base,
        eq_refl a.runtime_inputs,
        eq_refl a.runtime_digest,
        bool_refl a.runtime_unverifiable,
        eq_refl a.runtime_reason,
        eq_refl a.runtime_attribution,
      )
      refl
