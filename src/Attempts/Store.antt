-- ===== src/Attempts/Store.antt =====
-- The methods of `createAttemptStore` in src/attempts/store.mjs, each a function of the host, of
-- its arguments and of the session. The transaction object has every method, so the tests of
-- `typeof tx.method` pass.
pub mod Owner
pub mod Fenced
pub mod Retention
pub mod Takeover
pub mod Prepare
pub mod Intents
pub mod Fixtures
pub mod Handoff
pub mod Recheck
pub mod Lock
