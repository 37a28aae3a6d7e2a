-- ===== src/Findings.antt =====
-- findings.go: survivor dispositions, their carry between records, and the document merge.
pub mod Keys
pub mod Disposition
pub mod Graft
pub mod Verdict
pub mod Merge
pub mod Target
