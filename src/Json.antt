-- ===== src/Json.antt =====
-- JSON texts with sorted keys: `canonicalJson` of src/contracts/evidence.mjs, which `canonical` of
-- src/billing/contracts.mjs repeats.
pub mod Order
pub mod Canonical
mod Laws
mod Witnesses
