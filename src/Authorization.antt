-- ===== src/Authorization.antt =====
-- The authorization of a collection: manifest.mjs, challenge.mjs, dispatch.mjs, release-policy.mjs and
-- emitter.mjs of src/authorization.
pub mod Schema
pub mod Manifest
pub mod Challenge
mod Inputs
mod Release
mod Emitter
mod Again
mod Copied
mod Digits
mod Parsed
mod Emitted
mod Uses
mod Fixtures
mod Witnesses
