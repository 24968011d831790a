-- ===== src/Lib.antt =====
-- A verification library of the billing validation control plane.
--
-- The program validates a billing candidate in protected workflow runs. An attempt is one such
-- validation. The attempt store (src/attempts/store.mjs) keeps the attempts, their leases with a
-- fence each, a lock for the Stripe account and one for the Supabase project, a ledger of what
-- each attempt may retain, and the Stripe intents that are in flight; it runs in transactions on
-- PostgreSQL (src/attempts/postgres-store.mjs). A run starts from a dispatch that
-- src/contracts/dispatch.mjs parses. The candidate's own final workflow leaves an archive of
-- evidence, which src/contracts/evidence.mjs reads, and the billing suite consists of 43 cases
-- with a contract each (src/contracts/billing-43.mjs). Before a collection, the checks of the
-- candidate are read from GitHub (src/github/candidate-checks.mjs), and a manifest authorizes it,
-- bound to a challenge of the collector (src/authorization/manifest.mjs and challenge.mjs). The
-- cases of 3D Secure are judged by src/billing/three-ds.mjs from what is observed at Stripe and in
-- the database.
--
-- Common and Checks: shared helpers. Js: JavaScript values as validation sees them.
-- Dispatch/Parse: `parseDispatch`. Attempts/Data and Attempts/Same: the rows of the tables and
-- `equal`. Attempts/Session: tables, clock, sequence, and actions that return or refuse.
-- Attempts/Postgres: one function for each method of the transaction object, in snake_case.
-- Attempts/Input: the snapshots and tests of what callers hand over (also of
-- src/attempts/prepare.mjs and src/contracts/attempt.mjs). Attempts/Store: the methods of
-- `createAttemptStore`; Owner holds `assertFencedOwner` and the opening that the fenced methods
-- share, Fenced `assertFence`, `renew`, `transition`, `fixtureMutation` and `cleanup`, and
-- Retention, Prepare (with Takeover), Intents, Fixtures, Handoff and Recheck the methods of those
-- names, Lock `withStripeIntent` and `withExternalFence` of src/attempts/lock.mjs. The modules
-- beside them hold the proofs.
--
-- Json: `canonicalJson`. Evidence: Bytes, Utf8 and Archive read the ZIP archive (Directory,
-- Entries and Locals are the parts of `parseDirectory`, Decode is `decodeEntry`), Shapes and
-- Document the manifest (`validFinalProducerShape`, `parseDocument`, `parseEvidenceArchive`).
-- Billing: Cases the 43 identifiers and the evidence that each requires, Contracts the registry of
-- src/contracts/billing-43.mjs, Results `validateBilling43Results`. Authorization: Schema and
-- Manifest the manifest (`record` and `SCHEMA` as data that `conform` interprets), Challenge the
-- life of a challenge, Inputs, Release and Emitter what dispatch.mjs, release-policy.mjs and
-- emitter.mjs beside them make a manifest of. Github: Runs and Checks `listRuns`, `latestAttempt`,
-- `readJobs` and `collectCandidateChecks`. ThreeDs: Scenarios, Access (counts of
-- src/billing/observations.mjs), Verdict and Run `runThreeDsCase`, whose observations are its
-- input. A parser returns, refuses with a code, or fails with a fault (a read out of range).
--
-- Renewal: Supervisor is `withRenewingLease` of src/attempts/lock.mjs, one step for each event (a
-- timer that fires, an answer of the store, the end of the work). Leases: Spec is the map that the
-- table of leases is, for the functions of Attempts/Postgres/Leases.
--
-- A method of the store takes the session (the tables, the counts of clock readings and drawn
-- identifiers, the fence sequence, the locks requested so far) and returns a value or a refusal
-- with the session that it leaves. Transactions run one after the other: the advisory locks are
-- recorded, and what they exclude is not modelled. A table is a list, newest row first; a unique
-- constraint is the test at the insert. Times are microseconds. A fence is the sequence number in
-- twelve hexadecimal digits, which the bound 2^48 - 1 on the sequence fits. The loops run over
-- lists; that of `rejectZip64` has fuel, one round more than the bytes that it may read, of which
-- each round reads four at least, `String` of a number has sixteen digits, as many as a safe
-- integer may have, and those over the pages of GitHub count the five pages that the code reads at
-- most. What GitHub answers depends on the number of calls before.
--
-- Parameters (`Host`, `Platform` of the parser of evidence and of the authorization, `Client` of
-- GitHub): JSON.parse, JSON.stringify of values that are no objects, inflateRawSync, Date.parse,
-- toISOString, the clocks, `randomUUID`, SHA-256, `new URL`, the verifiers that callers hand over,
-- and the order of keys that a `jsonb` column gives back.
--
-- Not modelled: the triggers of the schema, the legacy table of claims, the checks of the
-- database's identity, inherited properties and the coercion of values that are no texts by
-- `RegExp.test`, what fixture writers do to their own tables, sparse arrays, the observations on
-- which a case of 3D Secure is judged and the calls of `assertCurrentAttempt` around them, and the
-- rest of the program: its clients of Stripe, Supabase and Vercel, the rest of those of GitHub,
-- the runner and the scripts.
mod Common
mod Checks
pub mod Js
pub mod Attempts
pub mod Dispatch
pub mod Evidence
pub mod Json
pub mod Billing
pub mod Authorization
pub mod Github
pub mod ThreeDs
mod Renewal
mod Leases
