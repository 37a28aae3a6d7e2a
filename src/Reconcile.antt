-- ===== src/Reconcile.antt =====
-- reconcile.go: how one target's outcomes become its finding, fresh or joined to a recorded one.
pub mod Ceiling
pub mod Counts
pub mod Identity
pub mod Splice
