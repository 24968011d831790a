-- ===== src/Attempts.antt =====
-- The attempt store: src/attempts/store.mjs over the tables of src/attempts/postgres-store.mjs.
pub mod Data
pub mod Same
pub mod Session
pub mod Runs
mod Ownership
mod Exclusion
mod Transitions
mod Capacity
mod Ledger
mod Keeps
mod Admission
mod Settlement
mod Intents
mod Observations
mod Rows
mod Written
mod Release
mod Witnesses
pub mod Postgres
pub mod Input
pub mod Store
pub mod Opened
pub mod Examples
