-- ===== src/Tests.antt =====
-- Runs on concrete data, and the theorems at them.
mod Data
mod Values
mod Pipeline
mod Tasks
mod Sources
mod Runs
mod Writes
mod Reads
mod Transfers
mod Copies
mod Histories
