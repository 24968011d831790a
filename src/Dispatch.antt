-- ===== src/Dispatch.antt =====
-- The parsing of a workflow dispatch: src/contracts/dispatch.mjs and src/contracts/control-identity.mjs.
--
-- A text is refused or accepted by its characters' codes; the candidate's SHA is given back as the
-- codes of the text in lower case. A read of an object whose reflection throws is `read_failed`.
pub mod Parse
mod Accepted
mod Witnesses
