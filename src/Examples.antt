-- ===== src/Examples.antt =====
-- Runs of the modelled code on concrete inputs, and the theorems at them.
mod Blank
mod Windows
mod Findings
mod Records
mod Edits
mod Rows
mod Splices
mod Evidence
mod Names
mod Banks
mod Changes
