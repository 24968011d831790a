-- ===== src/Attempts/Rows.antt =====
-- The database rows that `fixtureMutationWithReservation` has taken from a reservation before it
-- calls the writer.
use billing_validation_contr.Common.{
  ℕ, ◌+◌, ◌-◌, ◌≤◌, ◌&&◌, not, String, Option, some, ◌≡◌, arith, subst, ap, ◌∙◌, eq_refl, is_none,
}
use billing_validation_contr.Attempts.Data.{
  collecting, Reservation, Receipt, CaseClaim, FixtureClaim, FixtureKind, Usage, Scope,
}
use billing_validation_contr.Attempts.Same.{same_state}
use billing_validation_contr.Attempts.Session.{Session, Host, done}
use billing_validation_contr.Attempts.Runs.{>>=-then, require-then, require_some-then, done-eq}
use billing_validation_contr.Attempts.Input.{FixtureRequest}
use billing_validation_contr.Attempts.Postgres.{
  lock, lock_retention, find_reservation, rows_used, get_retention_reservation,
  get_retention_receipt, claim_fixture_case, insert_case_claim, check_case_claim,
  insert_fixture_claim, set_retention_fixture_rows_used, insert_rows_event, random_uuid,
}
use billing_validation_contr.Attempts.Ownership.{fenced_attempt-done}
use billing_validation_contr.Attempts.Settlement.{get_retention_reservation-found}
use billing_validation_contr.Attempts.Store.Owner.{fenced_attempt}
use billing_validation_contr.Attempts.Store.Retention.{stored_usage}
use billing_validation_contr.Attempts.Store.Fenced.{retention_scope}
use billing_validation_contr.Attempts.Store.Fixtures.{
  FixtureTransaction, RowsGrant, grant_rows, check_rows, reserve_rows,
}

set_rows-used :
    (id attempt_id : String) (expected used : ℕ) (s : Session) {x : Unit {0}} {t : Session}
    → set_retention_fixture_rows_used id attempt_id expected used s ≡ done x t
    → (rows_used id s.rows_events ≡ expected) × (rows_used id t.rows_events ≡ used)
unfolding set_retention_fixture_rows_used insert_rows_event lock
set_rows-used id attempt_id expected used s h = ground (arith, eq_refl id)

insert_case_claim-rows :
    (c : CaseClaim) (s : Session) {x : Unit {0}} {t : Session}
    → insert_case_claim c s ≡ done x t
    → t.rows_events ≡ s.rows_events
unfolding insert_case_claim
insert_case_claim-rows c s h = ground arith

check_case_claim-rows :
    (c : CaseClaim) (s : Session) {x : Unit {0}} {t : Session}
    → check_case_claim c s ≡ done x t
    → t.rows_events ≡ s.rows_events
unfolding check_case_claim
check_case_claim-rows c s h = ground arith

insert_fixture_claim-rows :
    (c : FixtureClaim) (s : Session) {x : Unit {0}} {t : Session}
    → insert_fixture_claim c s ≡ done x t
    → t.rows_events ≡ s.rows_events
unfolding insert_fixture_claim
insert_fixture_claim-rows c s h = ground arith

claim_fixture_case-rows :
    (c : CaseClaim) (id : String) (kind : FixtureKind) (s : Session) {x : Unit {0}} {t : Session}
    → claim_fixture_case c id kind s ≡ done x t
    → t.rows_events ≡ s.rows_events
unfolding claim_fixture_case lock
claim_fixture_case-rows c id kind s h = >>=-then (insert_case_claim c) _ _ h λ _ s1 e1 h1.
    >>=-then (check_case_claim c) _ s1 h1 λ _ s2 e2 h2.
      insert_fixture_claim-rows _ s2 h2
      ∙ check_case_claim-rows c s1 e2
      ∙ insert_case_claim-rows c _ e1

check_rows-done :
    (request : FixtureRequest) (projection : Usage) (used : ℕ) (s : Session) (x : Unit {0})
    (t : Session)
    → check_rows request projection used s ≡ done x t
    → (used + request.rows ≤ projection.database_rows) × (t ≡ s)
unfolding check_rows
check_rows-done request projection used s x t h = ground arith

grant_rows-done :
    (request : FixtureRequest) (scope : Scope) (r : Reservation) (used : ℕ) (s : Session)
    (g : RowsGrant) (t : Session)
    → grant_rows request scope r used s ≡ done g t
    → (g.next_used ≡ used + request.rows)
      × (g.remaining ≡ r.projection.database_rows - used)
      × (t ≡ s)
unfolding grant_rows stored_usage
grant_rows-done request scope r used s g t h = ground arith

get_retention_receipt-same :
    (host : Host) (id : String) (s : Session) (o : Option Receipt) (t : Session)
    → get_retention_receipt host id s ≡ done o t
    → t.tables ≡ s.tables
unfolding get_retention_receipt lock
get_retention_receipt-same host id s o t h = ground arith

-- The rows that a reservation has used grow by those asked for, to at most its projection.
pub record Taken (request : FixtureRequest) (s t : Session) (granted : FixtureTransaction)
    : Type 0 where
  pub stored : Reservation
  pub found : find_reservation request.reservation_id s.reservations ≡ some stored
  pub grown :
      rows_used request.reservation_id t.rows_events
      ≡ rows_used request.reservation_id s.rows_events + request.rows
  pub bounded : rows_used request.reservation_id t.rows_events ≤ stored.projection.database_rows
  pub told :
      granted.remaining_rows
      ≡ stored.projection.database_rows - rows_used request.reservation_id s.rows_events

-- Before the writer is called, the rows that the reservation has used grow by exactly those asked
-- for, to at most the rows of its projection; the writer is told what was left before.
pub reserve_rows-Taken :
    (host : Host) (request : FixtureRequest) (s : Session) {granted : FixtureTransaction}
    {t : Session}
    → reserve_rows host request s ≡ done granted t
    → Taken request s t granted
unfolding reserve_rows lock_retention lock random_uuid
reserve_rows-Taken host request s {granted} {t} h =
    >>=-then (fenced_attempt host request.attempt_id request.fence) _ s h λ f s1 e1 h1.
      require-then (same_state f.row.state collecting && not f.lease.recovery_only) _ _ s1 h1
        λ _ h2.
          >>=-then (get_retention_reservation host request.reservation_id) _ _ h2 λ o s2 e2 h3.
            require_some-then o _ _ s2 h3 λ pair e3 h4.
              >>=-then (grant_rows request (retention_scope f.row.environment) pair.0 pair.1) _ s2
                h4
                λ g s3 e4 h5.
                  >>=-then (get_retention_receipt host request.reservation_id) _ s3 h5
                    λ receipt s4 e5 h6. require-then (is_none receipt) _ _ s4 h6 λ _ h7.
                      >>=-then (check_rows request pair.0.projection pair.1) _ s4 h7 λ _ s5 e6 h8.
                        >>=-then (claim_fixture_case _ request.fixture_id request.kind) _ s5 h8
                          λ _ s6 e7 h9.
                            >>=-then
                              (set_retention_fixture_rows_used request.reservation_id
                                request.attempt_id pair.1 g.next_used)
                              _ s6 h9
                              λ _ s7 e8 h10.
                                let (_, q1, _, _, _) =
                                  fenced_attempt-done host request.attempt_id request.fence s e1 in
                                let (stored, found, loaded, q2, used) =
                                  get_retention_reservation-found host request.reservation_id _ o s2
                                    e2 e3 in
                                let (next, left, q3) =
                                  grant_rows-done request _ pair.0 pair.1 s2 g s3 e4 in
                                let q4 =
                                  get_retention_receipt-same host request.reservation_id s3 receipt
                                    s4 e5 in
                                let (fits, q5) =
                                  check_rows-done request pair.0.projection pair.1 s4 _ s5 e6 in
                                let q6 =
                                  claim_fixture_case-rows _ request.fixture_id request.kind s5 e7 in
                                let (expected, grown) =
                                  set_rows-used request.reservation_id request.attempt_id pair.1
                                    g.next_used s6 e8 in
                                let (same, q7) = done-eq h10 in
                                let before =
                                  ap (λ ts. rows_used request.reservation_id ts.rows_events) q1 in
                                let after =
                                  ap (λ x. rows_used request.reservation_id x.rows_events) q7 in
                                let most = ap (λ r. r.projection.database_rows) loaded in
                                record {
                                  stored = stored;
                                  found =
                                      subst
                                        (λ ts.
                                          find_reservation request.reservation_id ts.reservations
                                          ≡ some stored)
                                        q1 found;
                                  grown = ground (arith, after, grown, next, used, before);
                                  bounded = ground (arith, after, grown, next, fits, most);
                                  told = ground (
                                    arith,
                                    ap (λ x. x.remaining_rows) same,
                                    left,
                                    most,
                                    used,
                                    before,
                                  );
                                }
