-- ===== src/Attempts/Settlement.antt =====
-- The retention ledger after `reconcileReservation`.
use billing_validation_contr.Common.{
  ℕ, suc, ◌≤◌, String, Option, none, some, ◌≡◌, arith, refl, subst, ap, sym, eq_iff, find-true,
  str_eq, ◌&&◌, true, inl, inr, Option-cases,
}
use billing_validation_contr.Js.{Value}
use billing_validation_contr.Attempts.Data.{
  written, Usage, Scope, Reservation, Receipt, Lease, KeyOrder,
}
use billing_validation_contr.Attempts.Same.{same_outcome, same_usage_json}
use billing_validation_contr.Attempts.Session.{Session, Host, done}
use billing_validation_contr.Attempts.Runs.{
  >>=-then, require-then, require_some-then, transaction-then, done-eq,
}
use billing_validation_contr.Attempts.Input.{TerminalRequest, terminal_request}
use billing_validation_contr.Attempts.Postgres.{
  get_retention_reservation, find_reservation, rows_used, reservation_from_db,
  get_retention_receipt, put_retention_receipt, get_attempt, row_from_db, lock_attempt, lock,
  lock_resource_locks, get_lease, lock_retention, now, random_uuid,
}
use billing_validation_contr.Attempts.Capacity.{Within, stored_usage-some}
use billing_validation_contr.Attempts.Ledger.{used_units, put_retention_receipt-used}
use billing_validation_contr.Attempts.Admission.{used_usage, used_units-same}
use billing_validation_contr.Attempts.Keeps.{SameLedger, Keeps, SameLedger-of, SameLedger-trans}
use billing_validation_contr.Attempts.Store.Retention.{
  ask_receipt, new_receipt, reconcile_reservation, receipt_or_settle, settle, replay_receipt,
  reservation_owner, stored_usage, fits_in,
}

Keeps-reservation_owner : (host : Host) (r : Reservation) → Keeps (reservation_owner host r)
unfolding reservation_owner get_attempt row_from_db lock_attempt lock lock_resource_locks get_lease
    lock_retention
Keeps-reservation_owner host r = record { keeps = λ s o t h. SameLedger-of (ground arith) }

Keeps-get_retention_receipt : (host : Host) (id : String) → Keeps (get_retention_receipt host id)
unfolding get_retention_receipt lock
Keeps-get_retention_receipt host id = record { keeps = λ s o t h. SameLedger-of (ground arith) }

pub get_retention_reservation-found :
    (host : Host) (id : String) (s : Session) (o : Option (Reservation × ℕ)) (t : Session)
    {r : Reservation} {rows : ℕ}
    → get_retention_reservation host id s ≡ done o t
    → o ≡ some (r, rows)
    → (stored : Reservation) × (find_reservation id s.reservations ≡ some stored)
      × (r ≡ reservation_from_db host stored)
      × (t.tables ≡ s.tables)
      × (rows ≡ rows_used id s.rows_events)
unfolding get_retention_reservation lock lock_attempt
get_retention_reservation-found host id s o t h q =
    elim (Option-cases (find_reservation id s.reservations)) [
      | inl absent ↦ absurd (ground (arith, absent))
      | inr (stored, found) ↦
          (let same =
              (eq_iff stored.reservation_id id).0
                (find-true (λ r. str_eq r.reservation_id id) s.reservations {x = stored} found) in
            (
              stored,
              found,
              ground (arith, found),
              ground (arith, found),
              ground (arith, found, ap (λ i. rows_used i s.rows_events) same),
            ))
    ]

Keeps-ask_receipt :
    (host : Host) (request : TerminalRequest) (r : Reservation) (lease : Lease)
    → Keeps (ask_receipt host request r lease)
unfolding ask_receipt now
Keeps-ask_receipt host request r lease = record { keeps = λ s o t h. SameLedger-of (ground arith) }

settle-used :
    (units : Usage → ℕ) (scope : Scope) (host : Host) (request : TerminalRequest)
    (stored : Reservation) (lease : Lease) (s : Session) {receipt : Receipt} {t : Session}
    → ((u v : Usage) → fits_in u v ≡ true → units u ≤ units v)
    → ((u : Usage) (o : KeyOrder) → units (record u { order = o }) ≡ units u)
    → find_reservation stored.reservation_id s.reservations ≡ some stored
    → settle host request (reservation_from_db host stored) lease s ≡ done receipt t
    → used_units units scope t.tables ≤ used_units units scope s.tables
unfolding settle now random_uuid
settle-used units scope host request stored lease s mono blind found h =
    require_some-then (stored_usage (reservation_from_db host stored).projection) _ _ s h
      λ projection e1 h1. require-then (fits_in request.retained projection) _ _ s h1 λ fits h2.
        >>=-then (ask_receipt host request (reservation_from_db host stored) lease) _ s h2
          λ verified s1 e2 h3. require-then verified _ _ s1 h3 λ _ h4.
            >>=-then (put_retention_receipt _) _ _ h4 λ _ s2 e3 h5.
              let kept = used_units-same units scope (
                (Keeps-ask_receipt host request (reservation_from_db host stored) lease).keeps s
                  verified s1 e2) in
              let less : units request.retained ≤ units stored.projection = ground (
                arith,
                mono request.retained projection fits,
                stored_usage-some _ e1,
                blind stored.projection written,
              ) in
              let found1 =
                subst (λ rows. find_reservation stored.reservation_id rows ≡ some stored)
                  (sym
                    ((Keeps-ask_receipt host request _ lease).keeps s verified s1
                      e2).same_reservations)
                  found in
              let after =
                put_retention_receipt-used units scope
                  (new_receipt request (reservation_from_db host stored) lease (host.uuid s1.draws)
                    (host.clock s1.ticks))
                  (record s1 { ticks = suc s1.ticks; draws = suc s1.draws }) {r = stored} found1
                  refl less e3 in
              ground (arith, after, kept, (done-eq h5).1)

receipt_or_settle-used :
    (units : Usage → ℕ) (scope : Scope) (host : Host) (request : TerminalRequest)
    (stored : Reservation) (lease : Lease) (existing : Option Receipt) (s : Session)
    {receipt : Receipt} {t : Session}
    → ((u v : Usage) → fits_in u v ≡ true → units u ≤ units v)
    → ((u : Usage) (o : KeyOrder) → units (record u { order = o }) ≡ units u)
    → find_reservation stored.reservation_id s.reservations ≡ some stored
    → receipt_or_settle host request (reservation_from_db host stored) lease existing s
      ≡ done receipt t
    → used_units units scope t.tables ≤ used_units units scope s.tables
unfolding replay_receipt
receipt_or_settle-used units scope host request stored lease none s mono blind found h =
    settle-used units scope host request stored lease s mono blind found h
receipt_or_settle-used units scope host request stored lease (some x) s mono blind found h =
    require-then
      (same_outcome x.outcome request.outcome
        && same_usage_json x.retained request.retained
        && str_eq x.owner_fence lease.fence)
      _ _ s h λ _ h1. ground (arith, (done-eq h1).1)

reconcile-used :
    (units : Usage → ℕ) (scope : Scope) (host : Host) (input : Value) (s : Session)
    {receipt : Receipt} {t : Session}
    → ((u v : Usage) → fits_in u v ≡ true → units u ≤ units v)
    → ((u : Usage) (o : KeyOrder) → units (record u { order = o }) ≡ units u)
    → reconcile_reservation host input s ≡ done receipt t
    → used_units units scope t.tables ≤ used_units units scope s.tables
unfolding reconcile_reservation
reconcile-used units scope host input s {receipt = receipt} mono blind h =
    require_some-then (terminal_request input) _ _ s h λ request _ h1.
      transaction-then _ s h1 λ u run last.
        >>=-then (get_retention_reservation host request.reservation_id) _ s run λ o s1 e1 h2.
          require_some-then o _ _ s1 h2 λ pair e2 h3.
            let (stored, found, loaded, q1, _) =
              get_retention_reservation-found host request.reservation_id s o s1 e1 e2 in
            >>=-then (reservation_owner host pair.0) _ s1 h3 λ lease s2 e3 h4.
              >>=-then (get_retention_receipt host pair.0.reservation_id) _ s2 h4
                λ existing s3 e4 h5.
                  let kept : SameLedger s s3 = SameLedger-trans (SameLedger-of q1) (
                    SameLedger-trans ((Keeps-reservation_owner host pair.0).keeps s1 lease s2 e3)
                      ((Keeps-get_retention_receipt host _).keeps s2 existing s3 e4)) in
                  let id = (eq_iff stored.reservation_id request.reservation_id).0 (
                    find-true (λ r. str_eq r.reservation_id request.reservation_id) s.reservations
                      {x = stored} found) in
                  let found3 : find_reservation stored.reservation_id s3.reservations
                      ≡ some stored =
                    subst (λ rows. find_reservation stored.reservation_id rows ≡ some stored)
                      (sym kept.same_reservations)
                      (subst (λ i. find_reservation i s.reservations ≡ some stored) (sym id)
                        found) in
                  let after =
                    receipt_or_settle-used units scope host request stored lease existing s3 mono
                      blind found3
                      (subst
                        (λ r. receipt_or_settle host request r lease existing s3 ≡ done receipt u)
                        loaded h5) in
                  ground (arith, after, used_units-same units scope kept, ap (λ x. x.tables) last)

-- `reconcileReservation` adds nothing to what the ledger has used, for any database and Stripe
-- account and any key: the retained usage that it commits is within the projection that it frees.
pub reconcile_reservation-Within :
    (host : Host) (input : Value) (scope : Scope) (s : Session) {receipt : Receipt} {t : Session}
    → reconcile_reservation host input s ≡ done receipt t
    → Within (used_usage scope t.tables) (used_usage scope s.tables)
reconcile_reservation-Within host input scope s h = (
  reconcile-used (λ u. u.attempts) scope host input s (λ u v e. ground arith) (λ u o. refl) h,
  reconcile-used (λ u. u.database_rows) scope host input s (λ u v e. ground arith) (λ u o. refl) h,
  reconcile-used (λ u. u.auth_users) scope host input s (λ u v e. ground arith) (λ u o. refl) h,
  reconcile-used (λ u. u.stripe_objects) scope host input s (λ u v e. ground arith) (λ u o. refl) h,
)
