-- ===== src/Attempts/Data.antt =====
-- The rows that the attempt store keeps, as records: the object literals of
-- src/attempts/store.mjs and the `...FromDb` functions of src/attempts/postgres-store.mjs.
--
-- Times are natural numbers of microseconds. `equal(a, b)` compares `JSON.stringify` texts, so it
-- sees the order of an object's keys. Objects that pass through a `jsonb` column carry that order:
-- `written` is the order in which the code writes the keys, `reordered` any other.
use billing_validation_contr.Common.{ℕ, Bool, String, List, Option}

-- The codes of the refusals; `callback_failed` is an exception of a caller's verifier, and
-- `database_rejected` one of the database (a constraint or a trigger).
pub data Code : Type 0 where
  attempt_input_invalid attempt_replay_mismatch attempt_replay_not_owner attempt_replay_expired :
      Code
  attempt_missing attempt_conflict attempt_identity_invalid invalid_transition : Code
  retention_policy_invalid retention_ledger_invalid retention_policy_mismatch : Code
  retention_capacity_exceeded retention_reservation_missing retention_attempt_settled : Code
  retention_receipt_invalid retention_owner_fence_lost retention_already_settled : Code
  retention_receipt_exceeds_reservation retention_reconciliation_unverified : Code
  lease_held lease_fence_lost lease_expired lease_fence_store_unavailable : Code
  resource_lock_held resource_lock_ledger_invalid recovery_unverified recovery_read_only : Code
  stripe_intent_invalid stripe_intent_identity_mismatch stripe_intent_unresolved : Code
  stripe_intent_store_unavailable stripe_intent_missing stripe_intent_already_reconciled
        stripe_observation_invalid :
      Code
  stripe_observation_mismatch stripe_reconciliation_window_expired : Code
  stripe_reconciliation_unverified : Code
  fixture_mutation_invalid fixture_reservation_invalid fixture_reservation_insufficient : Code
  fixture_case_duplicate fixture_writer_failed : Code
  artifact_identity_mismatch recheck_identity_mismatch : Code
  cleanup_receipt_invalid cleanup_not_terminal cleanup_receipt_conflict cleanup_unverified : Code
  stripe_mutation_ambiguous : Code
  callback_failed database_rejected : Code

pub data KeyOrder : Type 0 where
  written reordered : KeyOrder

pub record Key : Type 0 where
  pub project_ref : String
  pub suite : String
  pub fixture_key : String

pub record Workflow : Type 0 where
  pub repository : String
  pub ref : String
  pub run_id : String
  pub run_attempt : ℕ
  pub runner_label : String

pub record Environment : Type 0 where
  pub project_ref : String
  pub deployment_id : String
  pub deployment_origin : String
  pub account_id : String
  pub order : KeyOrder

-- Counts for the keys of `RETENTION_QUOTA_KEYS`.
pub record Usage : Type 0 where
  pub attempts : ℕ
  pub database_rows : ℕ
  pub auth_users : ℕ
  pub stripe_objects : ℕ
  pub order : KeyOrder

pub record Scope : Type 0 where
  pub project_ref : String
  pub account_id : String

pub data AttemptState : Type 0 where
  collecting collected rechecking complete cancelled timed_out : AttemptState

pub data CleanupStatus : Type 0 where
  pending cleaned : CleanupStatus

pub record Artifact : Type 0 where
  pub id : String
  pub digest : String
  pub retention_days : Option ℕ

pub record Attempt : Type 0 where
  pub attempt_id : String
  pub key : Key
  pub candidate_sha : String
  pub workflow : Workflow
  pub environment : Environment
  pub state : AttemptState
  pub cleanup_status : CleanupStatus
  pub artifact : Option Artifact
  pub resource_ids : List String
  pub created_at : ℕ
  pub updated_at : ℕ

-- The projection of a row that `createSnapshot` seals; keys are compared in sorted order there, so
-- the environment's order of keys does not count.
pub record Snapshot : Type 0 where
  pub artifact_id : String
  pub attempt_id : String
  pub key : Key
  pub candidate_sha : String
  pub workflow : Workflow
  pub environment : Environment
  pub state : AttemptState
  pub cleanup_status : CleanupStatus
  pub resource_ids : List String

pub record Lease : Type 0 where
  pub key : Key
  pub attempt_id : String
  pub fence : String
  pub expires_at : ℕ
  pub candidate_sha : String
  pub owner_repository : String
  pub owner_ref : String
  pub owner_run_id : String
  pub owner_run_attempt : ℕ
  pub recovery_only : Bool

pub data LeaseEvent : Type 0 where
  acquired renewed takeover recheck_handoff recovery_handoff released : LeaseEvent

-- A row of `fixture_lease_history`.
pub record LeaseHistory : Type 0 where
  pub key : Key
  pub attempt_id : String
  pub fence : String
  pub run_id : String
  pub run_attempt : ℕ
  pub event : LeaseEvent
  pub expires_at : ℕ

pub data ResourceType : Type 0 where
  stripe_account supabase_project : ResourceType

pub record Resource : Type 0 where
  pub type : ResourceType
  pub id : String

pub record ResourceLock : Type 0 where
  pub resource : Resource
  pub attempt_id : String
  pub fence : String
  pub candidate_sha : String
  pub workflow : Workflow
  pub environment : Environment
  pub expires_at : ℕ

-- What `putResourceLocks` is given.
pub record LockOwner : Type 0 where
  pub attempt_id : String
  pub fence : String
  pub candidate_sha : String
  pub workflow : Workflow
  pub environment : Environment
  pub expires_at : ℕ

pub record Capacity : Type 0 where
  pub quotas : Usage
  pub committed : Usage
  pub reserved : Usage
  pub requested : Usage
  pub projected : Usage
  pub remaining : Usage

pub record Reservation : Type 0 where
  pub reservation_id : String
  pub attempt_id : String
  pub scope : Scope
  pub quotas : Usage
  pub projection : Usage
  pub capacity : Capacity
  pub created_at : ℕ

pub data Outcome : Type 0 where
  completed failed cancelled timed_out : Outcome

pub record Receipt : Type 0 where
  pub receipt_id : String
  pub reservation_id : String
  pub attempt_id : String
  pub owner_fence : String
  pub scope : Scope
  pub outcome : Outcome
  pub retained : Usage
  pub created_at : ℕ

pub data StripeAction : Type 0 where
  checkout_replay checkout_session_expire subscription_cancel : StripeAction

pub record StripeIntent : Type 0 where
  pub intent_id : String
  pub attempt_id : String
  pub fence : String
  pub account_id : String
  pub candidate_sha : String
  pub workflow : Workflow
  pub environment : Environment
  pub action : StripeAction
  pub operation : String
  pub request_digest : String
  pub idempotency_key : String
  pub created_at : ℕ

pub record StripeReceipt : Type 0 where
  pub receipt_id : String
  pub intent_id : String
  pub attempt_id : String
  pub fence : String
  pub account_id : String
  pub operation : String
  pub request_digest : String
  pub idempotency_key : String
  pub observation_digest : String
  pub resource_ids : List String
  pub observed_at : ℕ

-- An entry of `retainedObjects` of a cleanup projection.
pub record RetainedObject : Type 0 where
  pub id : String
  pub type : String
  pub status : String

-- The fields of a cleanup projection that are no constants.
pub record Projection : Type 0 where
  pub baseline_digest : String
  pub mutated_ids : List String
  pub retained_objects : List RetainedObject

pub record CleanupReceipt : Type 0 where
  pub receipt_id : String
  pub reservation_id : String
  pub attempt_id : String
  pub environment : Environment
  pub fence : String
  pub digest : String
  pub projection : Projection
  pub created_at : ℕ

-- Rows of `fixture_case_claims`, `fixture_resource_claims` and `fixture_reservation_claim_events`.
pub record CaseClaim : Type 0 where
  pub attempt_id : String
  pub case_id : String
  pub reservation_id : String
  pub fence : String
  pub candidate_sha : String
  pub namespace_id : String
  pub environment : Environment

pub data FixtureKind : Type 0 where
  catalog billing_identity : FixtureKind

pub record FixtureClaim : Type 0 where
  pub attempt_id : String
  pub case_id : String
  pub kind : FixtureKind
  pub fixture_id : String

pub record RowsEvent : Type 0 where
  pub reservation_id : String
  pub attempt_id : String
  pub previous_rows : ℕ
  pub current_rows : ℕ
