-- ===== src/Renewal.antt =====
-- The supervision of a lease while work runs: `withRenewingLease` of src/attempts/lock.mjs.
mod Supervisor
mod Current
mod Extended
mod Witnesses
