-- ===== src/Attempts/Session.antt =====
-- What a transaction of the attempt store runs on: the tables of the control schema, and what the
-- store is given from outside (`transactionAdapter` and `createAttemptStore`).
--
-- An action takes the session and returns a value or a refusal, each with the session that it
-- leaves. `transaction` is the commit and rollback of the database client: a refusal restores the
-- tables; the fence sequence, the clock and the draws of `randomUUID` are not rolled back.
use billing_validation_contr.Common.{ℕ, Bool, true, false, String, List, [], Option, none, some}
use billing_validation_contr.Js.{Value}
use billing_validation_contr.Attempts.Data.{
  Code, Key, KeyOrder, Attempt, Lease, LeaseHistory, Resource, Snapshot, ResourceLock, Reservation,
  Receipt, Usage, Outcome, StripeIntent, StripeReceipt, CleanupReceipt, Projection, CaseClaim,
  FixtureClaim, RowsEvent, Scope,
}

pub record Tables : Type 0 where
  pub attempts : List Attempt
  pub leases : List Lease
  pub history : List LeaseHistory
  pub locks : List ResourceLock
  pub reservations : List Reservation
  pub receipts : List Receipt
  pub intents : List StripeIntent
  pub stripe_receipts : List StripeReceipt
  pub cleanup_receipts : List CleanupReceipt
  pub case_claims : List CaseClaim
  pub fixture_claims : List FixtureClaim
  pub rows_events : List RowsEvent

-- The advisory locks, by what their keys name.
pub data LockKey : Type 0 where
  attempt_lock : String → LockKey
  retention_lock : Scope → LockKey
  resource_lock : Resource → LockKey
  lease_lock : Key → LockKey
  business_lock : String → List String → LockKey

-- `ticks` counts the clock readings, `draws` those of `randomUUID`, `sequence` is the last value of
-- `fixture_lease_fence_seq`. `held` lists the advisory locks in the order of the requests, newest
-- first; they are given back when the transaction ends.
pub record Session : Type 0 where
  pub tables : Tables
  pub open tables use *
  pub ticks : ℕ
  pub draws : ℕ
  pub sequence : ℕ
  pub held : List LockKey

pub record Url : Type 0 where
  pub protocol : String
  pub origin : String
  pub hostname : String

pub data RecoveryMode : Type 0 where
  takeover_mode resume_mode intent_recovery_mode : RecoveryMode

-- The argument of `verifyRecovery`; the locks are the one of the prior owner, or all.
pub record RecoveryQuery : Type 0 where
  pub mode : RecoveryMode
  pub prior : Attempt
  pub lease : Lease
  pub locks : List ResourceLock
  pub pending : List StripeIntent

pub record Recovery : Type 0 where
  pub run_terminal : Bool
  pub runner_removed : Bool
  pub cleanup_complete : Bool
  pub current_run : Value

-- What a caller's verifier answers, or that it throws.
pub data Answer (A : Type 0) : Type 0 where
  thrown : Answer A
  answered : A → Answer A

pub record Observation : Type 0 where
  pub account_id : String
  pub operation : String
  pub request_digest : String
  pub idempotency_key : String
  pub resource_ids : List String
  pub test_clock : Option (String × ℕ)

-- What is not the store's own code: the platform (clock, `randomUUID`, SHA-256 of a text and of the
-- JSON text of a projection, a snapshot and an observation, `new URL`), the
-- order of keys that a `jsonb` column gives back, and the verifiers that the caller hands over.
-- A verifier is a function of the session's clock too, so that it may answer differently each time.
pub record Host : Type 0 where
  pub clock : ℕ → ℕ
  pub uuid : ℕ → String
  pub sha256 : String → String
  pub parse_url : String → Option Url
  pub projection_digest : Projection → String
  pub snapshot_digest : Snapshot → String
  pub observation_digest : Observation → String
  pub jsonb_order : KeyOrder → KeyOrder
  pub verify_recovery : ℕ → RecoveryQuery → Answer (Option Recovery)
  pub verify_cleanup : ℕ → Attempt → Lease → Reservation → Projection → String → Answer Bool
  pub verify_receipt : ℕ → Reservation → Lease → Bool → Outcome → Usage → Answer Bool
  pub verify_observation : ℕ → StripeIntent → Observation → Answer Bool

pub data Reply {ℓ} (A : Type ℓ) : Type ℓ where
  done : A → Session → Reply A
  refused : Code → Session → Reply A

abbrev pub Action {ℓ} : Type ℓ → Type ℓ
Action A = Session → Reply A

abbrev pub pure {ℓ} : {A : Type ℓ} → A → Action A
pure a s = done a s

abbrev pub refuse {ℓ} : {A : Type ℓ} → Code → Action A
refuse c s = refused c s

infixl 5 ◌>>=◌ ◌>>◌
abbrev pub ◌>>=◌ {ℓ κ} :
    {A : Type ℓ} {B : Type κ} → Action A → (A → Session → Reply B) → Session → Reply B
◌>>=◌ m f s = elim (m s) [ done a s' ↦ f a s' | refused c s' ↦ refused c s' ]

abbrev pub ◌>>◌ {ℓ} : {B : Type ℓ} → Action (Unit {0}) → Action B → Action B
m >> k = m >>= λ _. k

-- `if (!test) refuse(code)`.
abbrev pub require : Bool → Code → Action (Unit {0})
require true c s = done tt s
require false c s = refused c s

-- `if (!value) refuse(code)`, with the value.
abbrev pub require_some {ℓ} : {A : Type ℓ} → Option A → Code → Action A
require_some none c s = refused c s
require_some (some a) c s = done a s

abbrev pub ask : Answer Bool → Action Bool
ask thrown s = refused Code.callback_failed s
ask (answered b) s = done b s

abbrev rolled_back : Session → Session → Session
rolled_back s s' = record s' { tables = s.tables; held = [] }

abbrev committed : Session → Session
committed s' = record s' { held = [] }

unfoldable pub transaction {ℓ} : {A : Type ℓ} → Action A → Action A
transaction m s = elim (m s) [
  | done a s' ↦ done a (committed s')
  | refused c s' ↦ refused c (rolled_back s s')
]
