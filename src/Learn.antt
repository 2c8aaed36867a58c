-- ===== src/Learn.antt =====
-- lib/learn: capture of a code from the bursts of the three receivers.
pub mod Match
pub mod Merge
pub mod Track
pub mod Machine
