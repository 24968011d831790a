-- ===== src/Attempts/Store/Retention.antt =====
-- `snapshotUsage` of stored counts, `sameUsage`, `retentionCapacity` and `reconcileReservation` of
-- src/attempts/store.mjs.
use billing_validation_contr.Common.{
  ℕ, ◌+◌, ◌-◌, Bool, ◌&&◌, String, str_eq, Option, none, some, leb, if◌then◌else◌,
}
use billing_validation_contr.Js.{Value, is_uuid_v4, max_safe_integer}
use billing_validation_contr.Attempts.Data.{
  retention_ledger_invalid, retention_policy_mismatch, retention_capacity_exceeded,
  retention_reservation_missing, retention_receipt_invalid, retention_owner_fence_lost,
  retention_already_settled, retention_receipt_exceeds_reservation,
  retention_reconciliation_unverified, written, Usage, Capacity, Lease, Reservation, Receipt,
}
use billing_validation_contr.Attempts.Same.{same_usage_json, same_scope, same_outcome}
use billing_validation_contr.Attempts.Session.{
  Host, Action, pure, require, require_some, ask, transaction, ◌>>=◌, ◌>>◌,
}
use billing_validation_contr.Attempts.Postgres.{
  LedgerUsage, is_safe_usage, same_counts, now, random_uuid, lock_attempt, get_attempt,
  lock_retention, lock_resource_locks, get_lease, get_retention_reservation, get_retention_receipt,
  put_retention_receipt,
}
use billing_validation_contr.Attempts.Input.{TerminalRequest, terminal_request}
use billing_validation_contr.Attempts.Store.Fenced.{retention_scope}

-- `snapshotUsage` of a stored object: the counts, under keys written anew.
unfoldable pub stored_usage : Usage → Option Usage
stored_usage u = if is_safe_usage u then some (record u { order = written }) else none

-- `sameUsage`.
unfoldable pub same_usage : Usage → Usage → Bool
same_usage a b = is_safe_usage a && is_safe_usage b && same_counts a b

abbrev is_positive_usage : Usage → Bool
is_positive_usage u =
    leb 1 u.attempts && leb 1 u.database_rows && leb 1 u.auth_users && leb 1 u.stripe_objects

unfoldable pub check_policy : Option Usage → Usage → Action (Unit {0})
unfolding stored_usage
check_policy none quotas = pure tt
check_policy (some prior) quotas = do
  pinned ← require_some (stored_usage prior) retention_ledger_invalid
  require (is_positive_usage pinned) retention_ledger_invalid
  require (same_usage_json pinned quotas) retention_policy_mismatch

-- One round of the loop over `RETENTION_QUOTA_KEYS`.
unfoldable pub check_total : ℕ → ℕ → Action (Unit {0})
check_total total quota = do
  require (leb total max_safe_integer) retention_ledger_invalid
  require (leb total quota) retention_capacity_exceeded

abbrev pub total_usage : Usage → Usage → Usage → Usage
total_usage a b c = record {
  attempts = a.attempts + b.attempts + c.attempts;
  database_rows = a.database_rows + b.database_rows + c.database_rows;
  auth_users = a.auth_users + b.auth_users + c.auth_users;
  stripe_objects = a.stripe_objects + b.stripe_objects + c.stripe_objects;
  order = written;
}

abbrev remaining_usage : Usage → Usage → Usage
remaining_usage quotas total = record {
  attempts = quotas.attempts - total.attempts;
  database_rows = quotas.database_rows - total.database_rows;
  auth_users = quotas.auth_users - total.auth_users;
  stripe_objects = quotas.stripe_objects - total.stripe_objects;
  order = written;
}

unfoldable pub retention_capacity : LedgerUsage → Usage → Usage → Action Capacity
unfolding stored_usage check_policy check_total
retention_capacity usage quotas projection = do
  committed ← require_some (stored_usage usage.committed) retention_ledger_invalid
  reserved ← require_some (stored_usage usage.reserved) retention_ledger_invalid
  check_policy usage.policy_limits quotas
  let total : Usage = total_usage committed reserved projection
  check_total total.attempts quotas.attempts
  check_total total.database_rows quotas.database_rows
  check_total total.auth_users quotas.auth_users
  check_total total.stripe_objects quotas.stripe_objects
  pure (record {
    quotas = quotas;
    committed = committed;
    reserved = reserved;
    requested = projection;
    projected = total;
    remaining = remaining_usage quotas total;
  })

abbrev pub fits_in : Usage → Usage → Bool
fits_in a b =
    leb a.attempts b.attempts
    && leb a.database_rows b.database_rows
    && leb a.auth_users b.auth_users
    && leb a.stripe_objects b.stripe_objects

-- The receipt that is there already must be the one that is asked for.
unfoldable pub replay_receipt : TerminalRequest → Lease → Receipt → Action Receipt
replay_receipt request lease existing = do
  require
      (same_outcome existing.outcome request.outcome
        && same_usage_json existing.retained request.retained
        && str_eq existing.owner_fence lease.fence)
      retention_already_settled
  pure existing

-- `verifyReceipt`, which is told whether the lease has expired.
unfoldable pub ask_receipt : Host → TerminalRequest → Reservation → Lease → Action Bool
ask_receipt host request reservation lease = do
  time ← now host
  λ s.
      ask
        (host.verify_receipt s.ticks reservation lease (leb lease.expires_at time) request.outcome
          request.retained)
        s

abbrev pub new_receipt : TerminalRequest → Reservation → Lease → String → ℕ → Receipt
new_receipt request reservation lease id time = record {
  receipt_id = id;
  reservation_id = reservation.reservation_id;
  attempt_id = reservation.attempt_id;
  owner_fence = lease.fence;
  scope = reservation.scope;
  outcome = request.outcome;
  retained = request.retained;
  created_at = time;
}

unfoldable pub settle : Host → TerminalRequest → Reservation → Lease → Action Receipt
settle host request reservation lease = do
  projection ← require_some (stored_usage reservation.projection) retention_ledger_invalid
  require (fits_in request.retained projection) retention_receipt_exceeds_reservation
  verified ← ask_receipt host request reservation lease
  require verified retention_reconciliation_unverified
  id ← random_uuid host
  time ← now host
  let receipt : Receipt = new_receipt request reservation lease id time
  put_retention_receipt receipt
  pure receipt

abbrev pub receipt_or_settle :
    Host → TerminalRequest → Reservation → Lease → Option Receipt → Action Receipt
receipt_or_settle host request reservation lease none = settle host request reservation lease
receipt_or_settle host request reservation lease (some existing) =
    replay_receipt request lease existing

-- The lease of the reservation's attempt, under a fence of the store's form.
unfoldable pub reservation_owner : Host → Reservation → Action Lease
reservation_owner host reservation = do
  lock_attempt reservation.attempt_id
  found ← get_attempt reservation.attempt_id
  attempt ← require_some found retention_ledger_invalid
  require (same_scope reservation.scope (retention_scope attempt.environment))
      retention_ledger_invalid
  lock_resource_locks attempt.environment
  held ← get_lease attempt.key
  lease ← require_some held retention_owner_fence_lost
  require (str_eq lease.attempt_id reservation.attempt_id && is_uuid_v4 lease.fence)
      retention_owner_fence_lost
  lock_retention reservation.scope
  pure lease

unfoldable pub reconcile_reservation : Host → Value → Action Receipt
reconcile_reservation host input = do
  request ← require_some (terminal_request input) retention_receipt_invalid
  transaction do
    found ← get_retention_reservation host request.reservation_id
    (reservation, rows) ← require_some found retention_reservation_missing
    lease ← reservation_owner host reservation
    existing ← get_retention_receipt host reservation.reservation_id
    receipt_or_settle host request reservation lease existing
