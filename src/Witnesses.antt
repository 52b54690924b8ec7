-- ===== src/Witnesses.antt =====
-- Concrete jobs and runs on which the theorems apply.
pub mod Data
mod Runs
mod Calls
mod Workers
mod Checks
mod Forms
mod Preflights
mod Sequences
