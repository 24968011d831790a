-- ===== src/Github.antt =====
-- The reads of the GitHub API: src/github/candidate-checks.mjs.
pub mod Runs
pub mod Checks
pub mod Selected
mod Bounded
pub mod Latest
pub mod Collected
pub mod Fixtures
pub mod Witnesses
