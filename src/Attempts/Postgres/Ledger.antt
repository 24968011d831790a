-- ===== src/Attempts/Postgres/Ledger.antt =====
-- The retention ledger of src/attempts/postgres-store.mjs: `getRetentionUsage`,
-- `getRetentionReservation`, `getRetentionReservationByAttempt`, `putRetentionReservation`,
-- `getRetentionReceipt`, `putRetentionReceipt`, `getCleanupReceipt` and `putCleanupReceipt`.
-- Rows of the legacy table `fixture_reservation_claims` are not modelled.
use billing_validation_contr.Common.{
  ℕ, Bool, ◌&&◌, ◌||◌, not, String, str_eq, List, [], ◌∷◌, Option, none, some, leb, ltb, nat_eq,
  if◌then◌else◌, find, keep, some_of, every, sum_of,
}
use billing_validation_contr.Js.{max_safe_integer}
use billing_validation_contr.Attempts.Data.{
  retention_ledger_invalid, database_rejected, written, Usage, Scope, Reservation, Receipt,
  CleanupReceipt, RowsEvent, Environment,
}
use billing_validation_contr.Attempts.Same.{same_scope}
use billing_validation_contr.Attempts.Session.{
  Session, Tables, Host, Action, business_lock, done, refused, pure, require, ◌>>=◌, ◌>>◌,
}
use billing_validation_contr.Attempts.Postgres.Basic.{lock, lock_attempt}

-- A `jsonb` column gives the counts back under keys in its own order.
abbrev pub usage_from_db : Host → Usage → Usage
usage_from_db host u = record u { order = host.jsonb_order u.order }

abbrev pub environment_from_db : Host → Environment → Environment
environment_from_db host e = record e { order = host.jsonb_order e.order }

unfoldable pub is_settled : List Receipt → Reservation → Bool
is_settled receipts r = some_of (λ x. str_eq x.reservation_id r.reservation_id) receipts

-- `SUM(units)` of the bucket 'committed': the receipts of the scope.
unfoldable pub committed_units : (Usage → ℕ) → Scope → Tables → ℕ
unfolding same_scope
committed_units units scope t =
    sum_of (λ x. units x.retained) (keep (λ x. same_scope x.scope scope) t.receipts)

-- That of the bucket 'reserved': the reservations of the scope that no receipt settles.
unfoldable pub reserved_units : (Usage → ℕ) → Scope → Tables → ℕ
unfolding same_scope is_settled
reserved_units units scope t =
    sum_of (λ r. units r.projection)
      (keep (λ r. same_scope r.scope scope && not (is_settled t.receipts r)) t.reservations)

abbrev pub usage_of : ((Usage → ℕ) → ℕ) → Usage
usage_of f = record {
  attempts = f (λ u. u.attempts);
  database_rows = f (λ u. u.database_rows);
  auth_users = f (λ u. u.auth_users);
  stripe_objects = f (λ u. u.stripe_objects);
  order = written;
}

abbrev pub is_safe_usage : Usage → Bool
is_safe_usage u =
    leb u.attempts max_safe_integer
    && leb u.database_rows max_safe_integer
    && leb u.auth_users max_safe_integer
    && leb u.stripe_objects max_safe_integer

-- Equality of `jsonb` values, which does not see the order of keys.
abbrev pub same_counts : Usage → Usage → Bool
same_counts a b =
    nat_eq a.attempts b.attempts
    && nat_eq a.database_rows b.database_rows
    && nat_eq a.auth_users b.auth_users
    && nat_eq a.stripe_objects b.stripe_objects

pub record LedgerUsage : Type 0 where
  pub committed : Usage
  pub reserved : Usage
  pub policy_limits : Option Usage

abbrev pub policies : Scope → List Reservation → List Reservation
policies scope = keep (λ r. same_scope r.scope scope)

-- `GROUP BY quota_limits LIMIT 2`: none, one or more than one.
unfoldable pub pinned_policy : Host → List Reservation → Action (Option Usage)
pinned_policy host [] = pure none
pinned_policy host (r ∷ rs) = do
  require (every (λ x. same_counts x.quotas r.quotas) rs) retention_ledger_invalid
  pure (some (usage_from_db host r.quotas))

unfoldable pub get_retention_usage : Host → Scope → Action LedgerUsage
unfolding pinned_policy committed_units reserved_units same_scope
get_retention_usage host scope s =
    (do
      limits ← pinned_policy host (policies scope s.reservations)
      let committed : Usage = usage_of (λ units. committed_units units scope s.tables)
      let reserved : Usage = usage_of (λ units. reserved_units units scope s.tables)
      require (is_safe_usage committed && is_safe_usage reserved) retention_ledger_invalid
      pure (record { committed = committed; reserved = reserved; policy_limits = limits }))
      s

abbrev pub reservation_from_db : Host → Reservation → Reservation
reservation_from_db host r = record r {
  quotas = usage_from_db host r.quotas;
  projection = usage_from_db host r.projection;
}

-- The greatest `current_rows` among the events of a reservation, or 0.
abbrev pub rows_used : String → List RowsEvent → ℕ
rows_used id [] = 0
rows_used id (e ∷ es) =
    if str_eq e.reservation_id id && ltb (rows_used id es) e.current_rows
    then e.current_rows
    else rows_used id es

abbrev pub find_reservation : String → List Reservation → Option Reservation
find_reservation id = find (λ r. str_eq r.reservation_id id)

abbrev loaded : Host → Option Reservation → Session → Option (Reservation × ℕ)
loaded host none s = none
loaded host (some r) s = some (reservation_from_db host r, rows_used r.reservation_id s.rows_events)

unfoldable pub get_retention_reservation_by_attempt :
    Host → String → Action (Option (Reservation × ℕ))
unfolding lock
get_retention_reservation_by_attempt host attempt_id = do
  lock (business_lock "retention-reservation-attempt" (attempt_id ∷ []))
  λ s. done (loaded host (find (λ r. str_eq r.attempt_id attempt_id) s.reservations) s) s

-- The first read gives the key of the attempt's lock; the row is read again under it.
unfoldable pub get_retention_reservation : Host → String → Action (Option (Reservation × ℕ))
unfolding lock lock_attempt
get_retention_reservation host id s = elim (find_reservation id s.reservations) [
  | none ↦ done none s
  | some r ↦
      (do
        lock_attempt r.attempt_id
        lock (business_lock "retention-reservation" (id ∷ []))
        λ s'. done (loaded host (find_reservation id s'.reservations) s') s')
        s
]

-- An insert; `PRIMARY KEY (reservation_id)` and `UNIQUE (attempt_id)` may refuse it.
unfoldable pub put_retention_reservation : Reservation → Action (Unit {0})
unfolding lock
put_retention_reservation r = do
  lock (business_lock "retention-reservation-attempt" (r.attempt_id ∷ []))
  λ s.
      if some_of (λ x. str_eq x.reservation_id r.reservation_id || str_eq x.attempt_id r.attempt_id)
        s.reservations
      then refused database_rejected s
      else done tt (record s { tables = with_reservation r s.tables })
  where
    with_reservation : Reservation → Tables → Tables
    with_reservation row t = record t { reservations = row ∷ t.reservations }

abbrev receipt_from_db : Host → Option Receipt → Option Receipt
receipt_from_db host none = none
receipt_from_db host (some x) = some (record x { retained = usage_from_db host x.retained })

unfoldable pub get_retention_receipt : Host → String → Action (Option Receipt)
unfolding lock
get_retention_receipt host id = do
  lock (business_lock "retention-receipt" (id ∷ []))
  λ s. done (receipt_from_db host (find (λ x. str_eq x.reservation_id id) s.receipts)) s

-- An insert under `UNIQUE (reservation_id)`, `UNIQUE (attempt_id)` and the primary key.
unfoldable pub put_retention_receipt : Receipt → Action (Unit {0})
unfolding lock
put_retention_receipt r = do
  lock (business_lock "retention-receipt" (r.reservation_id ∷ []))
  λ s.
      if some_of
        (λ x.
          str_eq x.receipt_id r.receipt_id
          || str_eq x.reservation_id r.reservation_id
          || str_eq x.attempt_id r.attempt_id)
        s.receipts
      then refused database_rejected s
      else done tt (record s { tables = with_receipt r s.tables })
  where
    with_receipt : Receipt → Tables → Tables
    with_receipt row t = record t { receipts = row ∷ t.receipts }

unfoldable pub get_cleanup_receipt : String → Action (Option CleanupReceipt)
unfolding lock
get_cleanup_receipt attempt_id = do
  lock (business_lock "cleanup-receipt" (attempt_id ∷ []))
  λ s. done (find (λ x. str_eq x.attempt_id attempt_id) s.cleanup_receipts) s

unfoldable pub put_cleanup_receipt : CleanupReceipt → Action (Unit {0})
unfolding lock
put_cleanup_receipt r = do
  lock (business_lock "cleanup-receipt" (r.attempt_id ∷ []))
  λ s.
      if some_of
        (λ x.
          str_eq x.receipt_id r.receipt_id
          || str_eq x.reservation_id r.reservation_id
          || str_eq x.attempt_id r.attempt_id)
        s.cleanup_receipts
      then refused database_rejected s
      else done tt (record s { tables = with_cleanup r s.tables })
  where
    with_cleanup : CleanupReceipt → Tables → Tables
    with_cleanup row t = record t { cleanup_receipts = row ∷ t.cleanup_receipts }
