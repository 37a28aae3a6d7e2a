-- ===== src/Schedule.antt =====
-- schedule.go and estimate.go: which candidates execute, how windows are gathered, priced and
-- ordered, and which kills confirm again.
pub mod Gate
pub mod Walk
pub mod Pricing
pub mod Windows
