-- ===== src/Run.antt =====
-- run.go: the findings of a window that ran.
pub mod Fresh
pub mod Carried
