-- ===== src/Freshness.antt =====
-- freshness.go: the pins of a record, which decide on its reuse.
pub mod Pins
