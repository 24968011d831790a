-- ===== src/Evidence.antt =====
-- The evidence that a candidate's final workflow hands over: src/contracts/evidence.mjs.
pub mod Bytes
pub mod Utf8
mod Ends
pub mod Archive
pub mod Shapes
pub mod Document
mod Fixtures
mod Witnesses
