-- ===== src/Evidence/Document.antt =====
-- The manifest of the evidence: `parseDocument` and `parseEvidenceArchive` of
-- src/contracts/evidence.mjs.
pub mod Producer
pub mod Parse
pub mod Accepted
