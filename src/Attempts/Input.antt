-- ===== src/Attempts/Input.antt =====
-- The validation of what callers hand to the attempt store: src/attempts/store.mjs,
-- src/attempts/prepare.mjs and src/contracts/attempt.mjs. `RegExp.test` turns a value that is no
-- text into one first; here a field that must match a pattern must be a text.
mod Fields
mod Requests
mod Observed
unfoldable pub use Fields.*
unfoldable pub use Requests.*
unfoldable pub use Observed.*
