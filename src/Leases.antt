-- ===== src/Leases.antt =====
-- The table of leases of src/attempts/postgres-store.mjs, seen as a map from keys to leases.
mod Spec
mod Table
mod Refined
mod Witnesses
