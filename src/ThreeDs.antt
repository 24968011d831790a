-- ===== src/ThreeDs.antt =====
-- The verdict on a case of 3D Secure: src/billing/three-ds.mjs, with the scenarios of
-- src/billing/fixtures.mjs and the counts of src/billing/observations.mjs.
pub mod Scenarios
pub mod Access
pub mod Verdict
pub mod Run
pub mod Covered
pub mod Passed
pub mod Fixtures
pub mod Witnesses
