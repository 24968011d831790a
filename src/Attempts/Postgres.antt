-- ===== src/Attempts/Postgres.antt =====
-- The transaction object of src/attempts/postgres-store.mjs, one action for each method. A query is
-- read as what it does to the tables; the primary keys and unique constraints of
-- src/attempts/schema.sql that an `INSERT` may meet refuse it, its triggers are not modelled.
mod Basic
mod Locks
mod Leases
mod Ledger
mod Intents
mod Fixtures
unfoldable pub use Basic.*
unfoldable pub use Locks.*
unfoldable pub use Leases.*
unfoldable pub use Ledger.*
unfoldable pub use Intents.*
unfoldable pub use Fixtures.*
