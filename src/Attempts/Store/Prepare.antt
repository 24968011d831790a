-- ===== src/Attempts/Store/Prepare.antt =====
-- `prepare` of src/attempts/store.mjs: admission of an attempt and its replay by the owner.
use billing_validation_contr.Common.{
  ℕ, ◌+◌, Bool, false, ◌&&◌, not, String, str_eq, List, [], Option, none, some, ltb, nat_eq,
  is_none, is_some, if◌then◌else◌,
}
use billing_validation_contr.Js.{Value, is_uuid_v4}
use billing_validation_contr.Attempts.Data.{
  attempt_input_invalid, attempt_replay_mismatch, attempt_replay_not_owner, attempt_replay_expired,
  retention_policy_invalid, retention_reservation_missing, retention_attempt_settled, lease_held,
  lease_fence_store_unavailable, collecting, pending, acquired, takeover, Environment, Attempt,
  Lease, ResourceLock, Reservation, Capacity,
}
use billing_validation_contr.Attempts.Same.{same_workflow, same_environment, same_state}
use billing_validation_contr.Attempts.Session.{
  Host, Action, pure, require, require_some, transaction, ◌>>=◌, ◌>>◌,
}
use billing_validation_contr.Attempts.Postgres.{
  now, random_uuid, next_fence, lock_attempt, get_attempt, put_attempt, lock_retention,
  lock_resource_locks, get_resource_locks, put_resource_locks, get_lease, put_lease,
  get_retention_usage, get_retention_reservation_by_attempt, put_retention_reservation,
  get_retention_receipt,
}
use billing_validation_contr.Attempts.Input.{PrepareInput, attempt_input, retention_input}
use billing_validation_contr.Attempts.Store.Owner.{assert_resource_owner}
use billing_validation_contr.Attempts.Store.Fenced.{microseconds, retention_scope}
use billing_validation_contr.Attempts.Store.Retention.{same_usage, retention_capacity}
use billing_validation_contr.Attempts.Store.Takeover.{
  same_given_key, lock_owners, with_lease_owner, recover_owners,
}

-- `admissionResult`.
pub record Admission : Type 0 where
  pub row : Attempt
  pub fence : String
  pub reservation_id : String
  pub capacity : Capacity

-- `equal(stored, key)`: a stored key shows its parts in the store's own order.
abbrev is_same_attempt : PrepareInput → Attempt → Bool
is_same_attempt input row =
    same_given_key row.key input.key
    && str_eq row.candidate_sha input.candidate_sha
    && same_workflow row.workflow input.workflow
    && same_environment row.environment input.environment

abbrev is_replay_owner : PrepareInput → Attempt → Lease → Bool
is_replay_owner input row lease =
    same_state row.state collecting
    && str_eq lease.candidate_sha input.candidate_sha
    && str_eq lease.owner_repository input.workflow.repository
    && str_eq lease.owner_ref input.workflow.ref
    && str_eq lease.owner_run_id input.workflow.run_id
    && nat_eq lease.owner_run_attempt input.workflow.run_attempt

-- The branch of an attempt that exists and whose lease is alive.
unfoldable pub replay : Host → PrepareInput → Attempt → Lease → Action Admission
replay host input row lease = do
  require (is_replay_owner input row lease) attempt_replay_not_owner
  locks ← get_resource_locks host input.environment
  assert_resource_owner locks row lease input.attempt_id lease.fence
  found ← get_retention_reservation_by_attempt host input.attempt_id
  (reservation, rows) ← require_some found retention_reservation_missing
  require
      (same_usage reservation.quotas input.retention.quotas
        && same_usage reservation.projection input.retention.projection)
      attempt_replay_mismatch
  receipt ← get_retention_receipt host reservation.reservation_id
  require (is_none receipt) retention_attempt_settled
  pure (record {
    row = row;
    fence = lease.fence;
    reservation_id = reservation.reservation_id;
    capacity = reservation.capacity;
  })

abbrev live_lease_of : String → ℕ → Option Lease → Option Lease
live_lease_of attempt_id time none = none
live_lease_of attempt_id time (some l) =
    if str_eq l.attempt_id attempt_id && ltb time l.expires_at then some l else none

unfoldable pub resume_existing : Host → PrepareInput → Attempt → ℕ → Action Admission
resume_existing host input row time = do
  lease ← get_lease input.key.key
  live ← require_some (live_lease_of input.attempt_id time lease) attempt_replay_expired
  replay host input row live

-- `lease?.expiresAt > now`.
abbrev pub is_live : ℕ → Option Lease → Bool
is_live time none = false
is_live time (some l) = ltb time l.expires_at

abbrev expected_fence : Option Lease → Option String
expected_fence none = none
expected_fence (some l) = some l.fence

abbrev new_row : PrepareInput → ℕ → Attempt
new_row input time = record {
  attempt_id = input.attempt_id;
  key = input.key.key;
  candidate_sha = input.candidate_sha;
  workflow = input.workflow;
  environment = input.environment;
  state = collecting;
  cleanup_status = pending;
  artifact = none;
  resource_ids = [];
  created_at = time;
  updated_at = time;
}

abbrev new_lease : PrepareInput → String → ℕ → Lease
new_lease input fence until = record {
  key = input.key.key;
  attempt_id = input.attempt_id;
  fence = fence;
  expires_at = until;
  candidate_sha = input.candidate_sha;
  owner_repository = input.workflow.repository;
  owner_ref = input.workflow.ref;
  owner_run_id = input.workflow.run_id;
  owner_run_attempt = input.workflow.run_attempt;
  recovery_only = false;
}

-- The writes of an admission, under a new fence.
unfoldable pub write_admission :
    Host → PrepareInput → ℕ → Capacity → Option Lease → List ResourceLock → Action Admission
write_admission host input time capacity lease previous = do
  fence ← next_fence
  require (is_uuid_v4 fence) lease_fence_store_unavailable
  let until : ℕ = time + microseconds input.ttl_seconds
  let row : Attempt = new_row input time
  put_attempt row
  put_resource_locks
      (record {
        attempt_id = input.attempt_id;
        fence = fence;
        candidate_sha = input.candidate_sha;
        workflow = input.workflow;
        environment = input.environment;
        expires_at = until;
      })
      previous
  id ← random_uuid host
  let reservation : Reservation = record {
    reservation_id = id;
    attempt_id = input.attempt_id;
    scope = retention_scope input.environment;
    quotas = input.retention.quotas;
    projection = input.retention.projection;
    capacity = capacity;
    created_at = time;
  }
  put_retention_reservation reservation
  put_lease (new_lease input fence until) (expected_fence lease)
      (if is_some lease then takeover else acquired)
  pure (record { row = row; fence = fence; reservation_id = id; capacity = capacity })

unfoldable pub admit : Host → PrepareInput → ℕ → Action Admission
admit host input time = do
  usage ← get_retention_usage host (retention_scope input.environment)
  capacity ← retention_capacity usage input.retention.quotas input.retention.projection
  lease ← get_lease input.key.key
  require (not (is_live time lease)) lease_held
  previous ← get_resource_locks host input.environment
  lockers ← lock_owners time lease previous []
  owners ← with_lease_owner input.key lease previous lockers
  recover_owners host time owners
  write_admission host input time capacity lease previous

abbrev check_existing : PrepareInput → Option Attempt → Action (Unit {0})
check_existing input none = pure tt
check_existing input (some row) = require (is_same_attempt input row) attempt_replay_mismatch

abbrev admit_or_resume : Host → PrepareInput → ℕ → Option Attempt → Action Admission
admit_or_resume host input time none = admit host input time
admit_or_resume host input time (some row) = resume_existing host input row time

unfoldable pub prepare_attempt : Host → PrepareInput → Action Admission
prepare_attempt host input = do
  lock_attempt input.attempt_id
  time ← now host
  existing ← get_attempt input.attempt_id
  check_existing input existing
  lock_retention (retention_scope input.environment)
  lock_resource_locks input.environment
  admit_or_resume host input time existing

-- `expected` is the environment that the adapter is bound to.
unfoldable pub prepare : Host → Environment → Value → Action Admission
prepare host expected input = do
  retention ← require_some (retention_input input) retention_policy_invalid
  given ← require_some (attempt_input host expected retention input) attempt_input_invalid
  transaction (prepare_attempt host given)
