-- ===== src/Examples.antt =====
-- The theorems at concrete sessions, rows, sequences and payloads.
pub mod Data
pub mod Sessions
pub mod Links
pub mod Rollouts
pub mod Rows
pub mod Writes
pub mod Traces
pub mod Transcripts
pub mod Payloads
pub mod Tallies
pub mod Inputs
pub mod Labels
