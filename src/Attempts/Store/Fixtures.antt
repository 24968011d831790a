-- ===== src/Attempts/Store/Fixtures.antt =====
-- `fixtureMutationWithReservation` of src/attempts/store.mjs.
use billing_validation_contr.Common.{ℕ, ◌+◌, ◌-◌, ◌&&◌, not, String, str_eq, List, leb, is_none}
use billing_validation_contr.Js.{Value, max_safe_integer}
use billing_validation_contr.Attempts.Data.{
  recovery_read_only, retention_ledger_invalid, retention_reservation_missing,
  retention_attempt_settled, fixture_mutation_invalid, fixture_reservation_invalid,
  fixture_reservation_insufficient, fixture_writer_failed, collecting, Usage, Scope, Attempt, Lease,
  Reservation,
}
use billing_validation_contr.Attempts.Same.{same_state, same_scope}
use billing_validation_contr.Attempts.Session.{
  Host, Answer, thrown, answered, Action, pure, refuse, require, require_some, transaction, ◌>>=◌,
  ◌>>◌,
}
use billing_validation_contr.Attempts.Postgres.{
  random_uuid, lock_retention, get_retention_reservation, get_retention_receipt,
  set_retention_fixture_rows_used, claim_fixture_case,
}
use billing_validation_contr.Attempts.Input.{FixtureRequest, fixture_request}
use billing_validation_contr.Attempts.Store.Owner.{fenced_attempt}
use billing_validation_contr.Attempts.Store.Fenced.{retention_scope}
use billing_validation_contr.Attempts.Store.Retention.{stored_usage}

-- The object that the writer is handed.
pub record FixtureTransaction : Type 0 where
  pub attempt_id : String
  pub fence : String
  pub reservation_id : String
  pub transaction_id : String
  pub remaining_rows : ℕ

-- The rows that the reservation has left pay for the request; the new total comes back with what
-- the writer is told.
pub record RowsGrant : Type 0 where
  pub used : ℕ
  pub next_used : ℕ
  pub remaining : ℕ

unfoldable pub grant_rows : FixtureRequest → Scope → Reservation → ℕ → Action RowsGrant
grant_rows request scope reservation used = do
  projection ← require_some (stored_usage reservation.projection) fixture_reservation_invalid
  require
      (str_eq reservation.attempt_id request.attempt_id
        && str_eq reservation.reservation_id request.reservation_id
        && same_scope reservation.scope scope)
      fixture_reservation_invalid
  pure (record {
    used = used;
    next_used = used + request.rows;
    remaining = projection.database_rows - used;
  })

unfoldable pub check_rows : FixtureRequest → Usage → ℕ → Action (Unit {0})
check_rows request projection used = do
  require (leb request.rows projection.database_rows) fixture_reservation_insufficient
  require (leb used max_safe_integer && leb used projection.database_rows) retention_ledger_invalid
  require
      (leb (used + request.rows) max_safe_integer
        && leb (used + request.rows) projection.database_rows)
      fixture_reservation_insufficient

-- The reads and the ledger writes before the writer is called.
unfoldable pub reserve_rows : Host → FixtureRequest → Action FixtureTransaction
reserve_rows host request = do
  f ← fenced_attempt host request.attempt_id request.fence
  let row : Attempt = f.row
  let lease : Lease = f.lease
  require (same_state row.state collecting && not lease.recovery_only) recovery_read_only
  lock_retention (retention_scope row.environment)
  found ← get_retention_reservation host request.reservation_id
  (reservation, used) ← require_some found retention_reservation_missing
  grant ← grant_rows request (retention_scope row.environment) reservation used
  receipt ← get_retention_receipt host request.reservation_id
  require (is_none receipt) retention_attempt_settled
  check_rows request reservation.projection used
  claim_fixture_case
      (record {
        attempt_id = request.attempt_id;
        case_id = request.case_id;
        reservation_id = request.reservation_id;
        fence = request.fence;
        candidate_sha = row.candidate_sha;
        namespace_id = request.namespace_id;
        environment = row.environment;
      })
      request.fixture_id request.kind
  set_retention_fixture_rows_used request.reservation_id request.attempt_id used grant.next_used
  id ← random_uuid host
  pure (record {
    attempt_id = request.attempt_id;
    fence = request.fence;
    reservation_id = request.reservation_id;
    transaction_id = id;
    remaining_rows = grant.remaining;
  })

-- What the writer throws is kept beside the transaction, which commits, and is thrown after it.
abbrev throw_or_return : {V : Type 0} → Answer V → Action V
throw_or_return thrown = refuse fixture_writer_failed
throw_or_return (answered v) = pure v

unfoldable pub fixture_mutation_with_reservation :
    {V : Type 0} → Host → List String → Value → (FixtureTransaction → Answer V) → Action V
fixture_mutation_with_reservation host cases input mutation = do
  request ← require_some (fixture_request cases input) fixture_mutation_invalid
  value ← transaction (reserve_rows host request >>= λ t. pure (mutation t))
  throw_or_return value
