-- ===== src/Evidence/Archive/Sound.antt =====
-- What `parseDirectory` of src/contracts/evidence.mjs ensures.
mod Reads
mod Headers
mod Entries
mod Apart
pub mod Members
