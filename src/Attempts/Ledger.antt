-- ===== src/Attempts/Ledger.antt =====
-- The sums of the retention ledger under the writes of an admission and of a settlement.
use billing_validation_contr.Common.{
  ℕ, ◌+◌, ◌≤◌, Bool, true, false, not, ◌&&◌, ◌||◌, List, [], ◌∷◌, some, ◌≡◌, arith, refl, sum_of,
  keep, some_of, str_eq, eq_iff, find-true,
}
use billing_validation_contr.Attempts.Data.{Usage, Scope, Reservation, Receipt}
use billing_validation_contr.Attempts.Same.{same_scope, same_scope_iff}
use billing_validation_contr.Attempts.Session.{Session, Tables, done}
use billing_validation_contr.Attempts.Postgres.{
  committed_units, reserved_units, is_settled, find_reservation, put_retention_reservation,
  put_retention_receipt,
}

-- The units of a scope that are settled or reserved.
unfoldable pub used_units : (Usage → ℕ) → Scope → Tables → ℕ
used_units units scope t = committed_units units scope t + reserved_units units scope t

-- A reservation adds its projection at most.
pub put_retention_reservation-used :
    (units : Usage → ℕ) (scope : Scope) (r : Reservation) (s : Session) {x : Unit {0}} {t : Session}
    → put_retention_reservation r s ≡ done x t
    → used_units units scope t.tables ≤ used_units units scope s.tables + units r.projection
unfolding put_retention_reservation used_units committed_units reserved_units
put_retention_reservation-used units scope r s h = ground arith

open_units : (Usage → ℕ) → Scope → List Receipt → List Reservation → ℕ
open_units units scope receipts rows =
    sum_of (λ r. units r.projection)
      (keep (λ r. same_scope r.scope scope && not (is_settled receipts r)) rows)

open_units-settled :
    (units : Usage → ℕ) (scope : Scope) (receipts : List Receipt) (x : Receipt)
    (rows : List Reservation)
    → open_units units scope (x ∷ receipts) rows ≤ open_units units scope receipts rows
unfolding open_units is_settled
open_units-settled units scope receipts x [] = ground arith
open_units-settled units scope receipts x (r ∷ rs) =
    ground (arith, open_units-settled units scope receipts x rs)

-- A receipt takes the projection of its reservation out of the open ones.
open_units-receipt :
    (units : Usage → ℕ) (scope : Scope) (receipts : List Receipt) (x : Receipt)
    (rows : List Reservation) {r : Reservation}
    → find_reservation x.reservation_id rows ≡ some r
    → same_scope r.scope scope ≡ true
    → is_settled receipts r ≡ false
    → open_units units scope (x ∷ receipts) rows + units r.projection
      ≤ open_units units scope receipts rows
unfolding open_units is_settled
open_units-receipt units scope receipts x [] found same settled = cc
open_units-receipt units scope receipts x (y ∷ rs) {r} found same settled = ground (
  arith,
  eq_iff y.reservation_id x.reservation_id,
  eq_iff x.reservation_id y.reservation_id,
  open_units-settled units scope receipts x rs,
  open_units-receipt units scope receipts x rs {r = r},
)

-- The unique constraints of the receipts refuse a second one for a reservation.
abbrev clashes : Receipt → Receipt → Bool
clashes r x =
    str_eq x.receipt_id r.receipt_id
    || str_eq x.reservation_id r.reservation_id
    || str_eq x.attempt_id r.attempt_id

unsettled :
    (x : Receipt) (r : Reservation) (receipts : List Receipt)
    → r.reservation_id ≡ x.reservation_id
    → some_of (clashes x) receipts ≡ false
    → is_settled receipts r ≡ false
unfolding is_settled
unsettled x r [] same h = refl
unsettled x r (y ∷ ys) same h = ground (arith, unsettled x r ys same)

put_retention_receipt-rows :
    (x : Receipt) (s : Session) {u : Unit {0}} {t : Session}
    → put_retention_receipt x s ≡ done u t
    → (some_of (clashes x) s.receipts ≡ false)
      × (t.receipts ≡ x ∷ s.receipts)
      × (t.reservations ≡ s.reservations)
unfolding put_retention_receipt
put_retention_receipt-rows x s h = ground arith

-- A receipt of at most what its reservation holds, under the reservation's scope, adds nothing.
pub put_retention_receipt-used :
    (units : Usage → ℕ) (scope : Scope) (x : Receipt) (s : Session) {r : Reservation} {u : Unit {0}}
    {t : Session}
    → find_reservation x.reservation_id s.reservations ≡ some r
    → x.scope ≡ r.scope
    → units x.retained ≤ units r.projection
    → put_retention_receipt x s ≡ done u t
    → used_units units scope t.tables ≤ used_units units scope s.tables
unfolding used_units committed_units reserved_units open_units
put_retention_receipt-used units scope x s {r} found same less h =
    let (fresh, added, kept) = put_retention_receipt-rows x s h in
    let id =
      (eq_iff r.reservation_id x.reservation_id).0
        (find-true (λ y. str_eq y.reservation_id x.reservation_id) s.reservations {x = r} found) in
    ground (
      arith,
      added,
      kept,
      same_scope_iff r.scope scope,
      open_units-settled units scope s.receipts x s.reservations,
      open_units-receipt units scope s.receipts x s.reservations {r = r} found,
      unsettled x r s.receipts id fresh,
    )
