-- ===== src/Attempts/Store/Fenced.antt =====
-- `assertFence`, `renew`, `transition`, `fixtureMutation` and `cleanup` of src/attempts/store.mjs.
use billing_validation_contr.Common.{
  ℕ, ◌+◌, ◌*◌, Bool, true, false, ◌&&◌, ◌||◌, not, String, str_eq, List, [], ◌∷◌, Option, none,
  some, is_none,
}
use billing_validation_contr.Js.{Value, is_safe_id, valid_ttl}
use billing_validation_contr.Attempts.Data.{
  attempt_missing, attempt_input_invalid, invalid_transition, recovery_read_only,
  fixture_writer_failed, cleanup_receipt_invalid, cleanup_not_terminal, cleanup_receipt_conflict,
  cleanup_unverified, stripe_intent_unresolved, Environment, AttemptState, collecting, collected,
  rechecking, complete, cleaned, renewed, Artifact, Attempt, Lease, ResourceLock, Workflow, Scope,
  CleanupReceipt, Reservation, Projection,
}
use billing_validation_contr.Attempts.Same.{same_state, same_scope}
use billing_validation_contr.Attempts.Session.{
  Host, Answer, thrown, answered, Action, pure, refuse, require, require_some, ask, transaction,
  ◌>>=◌, ◌>>◌,
}
use billing_validation_contr.Attempts.Postgres.{
  now, random_uuid, lock_attempt, get_attempt, put_attempt, lock_resource_locks, get_resource_locks,
  put_resource_locks, delete_resource_locks, get_lease, put_lease, delete_lease,
  has_in_flight_stripe_intent, get_retention_reservation_by_attempt, get_cleanup_receipt,
  put_cleanup_receipt,
}
use billing_validation_contr.Attempts.Input.{
  valid_artifact, valid_resource_ids, snapshot_cleanup_projection,
}
use billing_validation_contr.Attempts.Store.Owner.{assert_fenced_owner, fenced_attempt}

abbrev pub microseconds : ℕ → ℕ
microseconds seconds = seconds * 1000000

-- `{ ...row, fence, expiresAt, serverNow }`.
pub record Owned : Type 0 where
  pub row : Attempt
  pub fence : String
  pub expires_at : ℕ
  pub server_now : ℕ

unfoldable pub assert_fence : Host → String → String → Action Owned
assert_fence host attempt_id fence = transaction do
  lock_attempt attempt_id
  found ← get_attempt attempt_id
  row ← require_some found attempt_missing
  time ← now host
  lock_resource_locks row.environment
  lease ← get_lease row.key
  l ← assert_fenced_owner host row lease attempt_id fence time
  pure (record { row = row; fence = fence; expires_at = l.expires_at; server_now = time })

-- `resourceLocks[0]?.workflow`, where `assertResourceOwner` has found two locks.
abbrev first_workflow : Workflow → List ResourceLock → Workflow
first_workflow w [] = w
first_workflow w (l ∷ ls) = l.workflow

unfoldable pub renew : Host → String → String → Value → Action Owned
renew host attempt_id fence ttl = do
  seconds ← require_some (valid_ttl ttl) attempt_input_invalid
  transaction do
    f ← fenced_attempt host attempt_id fence
    let lease : Lease = f.lease
    let row : Attempt = f.row
    let until : ℕ = f.time + microseconds seconds
    put_lease (record lease { expires_at = until }) (some fence) renewed
    locks ← get_resource_locks host row.environment
    put_resource_locks
        (record {
          attempt_id = attempt_id;
          fence = fence;
          candidate_sha = row.candidate_sha;
          workflow = first_workflow row.workflow locks;
          environment = row.environment;
          expires_at = until;
        })
        locks
    pure (record { row = row; fence = fence; expires_at = until; server_now = f.time })

-- `transitions[from]?.has(to)`.
unfoldable pub is_transition : AttemptState → AttemptState → Bool
unfolding same_state
is_transition collecting to =
    same_state to collected
    || same_state to AttemptState.cancelled
    || same_state to AttemptState.timed_out
is_transition collected to =
    same_state to AttemptState.cancelled || same_state to AttemptState.timed_out
is_transition rechecking to =
    same_state to complete
    || same_state to AttemptState.cancelled
    || same_state to AttemptState.timed_out
is_transition _ to = false

abbrev or_else {ℓ} : {A : Type ℓ} → Option A → A → A
or_else none a = a
or_else (some b) a = b

abbrev or_keep {ℓ} : {A : Type ℓ} → Option A → Option A → Option A
or_keep none o = o
or_keep (some b) o = some b

abbrev is_absent_or {ℓ} : {A : Type ℓ} → (A → Bool) → Option A → Bool
is_absent_or p none = true
is_absent_or p (some a) = p a

abbrev pub valid_change : AttemptState → Option Artifact → Option (List String) → Bool
valid_change to artifact resource_ids =
    is_absent_or valid_artifact artifact
    && is_absent_or valid_resource_ids resource_ids
    && not (same_state to collected && is_none artifact)

abbrev pub moved_row : AttemptState → ℕ → Option Artifact → Option (List String) → Attempt → Attempt
moved_row to time artifact resource_ids row = record row {
  state = to;
  updated_at = time;
  artifact = or_keep artifact row.artifact;
  resource_ids = or_else resource_ids row.resource_ids;
}

unfoldable pub transition :
    Host
    → String
    → String
    → AttemptState
    → AttemptState
    → Option Artifact
    → Option (List String)
    → Action Attempt
transition host attempt_id fence from to artifact resource_ids = transaction do
  f ← fenced_attempt host attempt_id fence
  let row : Attempt = f.row
  require (same_state row.state from && is_transition from to) invalid_transition
  require (valid_change to artifact resource_ids) attempt_input_invalid
  time ← now host
  let changed : Attempt = moved_row to time artifact resource_ids row
  put_attempt changed
  pure changed

-- The mutation runs in the same transaction; what it does to tables of its own is not modelled.
unfoldable pub fixture_mutation : {V : Type 0} → Host → String → String → Answer V → Action V
fixture_mutation host attempt_id fence mutation = transaction do
  f ← fenced_attempt host attempt_id fence
  let row : Attempt = f.row
  let lease : Lease = f.lease
  require (not (same_state row.state rechecking || lease.recovery_only)) recovery_read_only
  elim mutation [ thrown ↦ refuse fixture_writer_failed | answered v ↦ pure v ]

abbrev pub is_terminal : AttemptState → Bool
is_terminal state =
    same_state state complete
    || same_state state AttemptState.cancelled
    || same_state state AttemptState.timed_out

abbrev pub retention_scope : Environment → Scope
retention_scope e = record { project_ref = e.project_ref; account_id = e.account_id }

-- `verifyCleanup`.
unfoldable pub ask_cleanup : Host → Attempt → Lease → Reservation → Projection → Action Bool
ask_cleanup host row lease reservation projection s =
    ask
      (host.verify_cleanup s.ticks row lease reservation projection
        (host.projection_digest projection))
      s

abbrev pub new_cleanup_receipt :
    Host → Attempt → Reservation → Projection → String → String → String → ℕ → CleanupReceipt
new_cleanup_receipt host row reservation projection attempt_id fence id time = record {
  receipt_id = id;
  reservation_id = reservation.reservation_id;
  attempt_id = attempt_id;
  environment = row.environment;
  fence = fence;
  digest = host.projection_digest projection;
  projection = projection;
  created_at = time;
}

abbrev pub is_reservation_of : Attempt → String → Reservation → Bool
is_reservation_of row attempt_id reservation =
    str_eq reservation.attempt_id attempt_id
    && is_safe_id reservation.reservation_id
    && same_scope reservation.scope (retention_scope row.environment)

unfoldable pub cleanup : Host → String → String → Value → Action (Attempt × CleanupReceipt)
cleanup host attempt_id fence raw = do
  projection ← require_some (snapshot_cleanup_projection raw) cleanup_receipt_invalid
  transaction do
    f ← fenced_attempt host attempt_id fence
    let row : Attempt = f.row
    let lease : Lease = f.lease
    require (is_terminal row.state) cleanup_not_terminal
    in_flight ← has_in_flight_stripe_intent attempt_id
    require (not in_flight) stripe_intent_unresolved
    found ← get_retention_reservation_by_attempt host attempt_id
    (reservation, rows) ← require_some found cleanup_receipt_invalid
    require (is_reservation_of row attempt_id reservation) cleanup_receipt_invalid
    prior ← get_cleanup_receipt attempt_id
    require (is_none prior) cleanup_receipt_conflict
    verified ← ask_cleanup host row lease reservation projection
    require verified cleanup_unverified
    id ← random_uuid host
    let receipt : CleanupReceipt =
        new_cleanup_receipt host row reservation projection attempt_id fence id f.time
    put_cleanup_receipt receipt
    let changed : Attempt = record row { cleanup_status = cleaned; updated_at = f.time }
    put_attempt changed
    delete_lease host row.key attempt_id fence
    delete_resource_locks host attempt_id fence row.environment
    pure (changed, receipt)
