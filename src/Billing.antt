-- ===== src/Billing.antt =====
-- The 43 billing cases: src/contracts/billing-43.mjs, the evidence that each asks for
-- (src/billing/fixtures.mjs), and the validation of their results (src/contracts/evidence.mjs).
pub mod Cases
pub mod Contracts
pub mod Results
pub mod Validated
mod Again
mod Registry
mod Fixtures
mod Witnesses
