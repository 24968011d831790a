-- ===== src/Evidence/Archive.antt =====
-- The ZIP archive of the evidence: `parseDirectory` and `decodeEntry` of src/contracts/evidence.mjs.
pub mod Names
pub mod Directory
pub mod Entries
pub mod Locals
pub mod Decode
pub mod Sound
