-- ===== src/Attempts/Admission.antt =====
-- The retention ledger after `prepare` has admitted an attempt.
use billing_validation_contr.Common.{
  ℕ, ◌+◌, ◌≤◌, List, [], ◌∷◌, not, ◌&&◌, Option, ◌≡◌, arith, ap, sym,
}
use billing_validation_contr.Js.{is_uuid_v4}
use billing_validation_contr.Attempts.Data.{
  Usage, Scope, Reservation, ResourceLock, Lease, Capacity,
}
use billing_validation_contr.Attempts.Session.{Session, Tables, Host, done}
use billing_validation_contr.Attempts.Runs.{>>=-then, >>=-then_same, require-then, done-eq}
use billing_validation_contr.Attempts.Input.{PrepareInput}
use billing_validation_contr.Attempts.Postgres.{
  policies, is_safe_usage, next_fence, put_attempt, put_resource_locks, random_uuid,
  put_retention_reservation, put_lease, get_retention_usage, pinned_policy, LedgerUsage, usage_of,
  committed_units, reserved_units, get_lease, get_resource_locks,
}
use billing_validation_contr.Attempts.Capacity.{Within, retention_capacity-Within}
use billing_validation_contr.Attempts.Ledger.{used_units, put_retention_reservation-used}
use billing_validation_contr.Attempts.Keeps.{
  SameLedger, SameLedger-of, SameLedger-trans, Keeps-next_fence, Keeps-get_lease,
  Keeps-get_resource_locks, Keeps-put_attempt, Keeps-put_resource_locks, Keeps-put_lease,
  Keeps-lock_owners, Keeps-with_lease_owner, Keeps-recover_owners,
}
use billing_validation_contr.Attempts.Store.Retention.{retention_capacity}
use billing_validation_contr.Attempts.Store.Fenced.{retention_scope}
use billing_validation_contr.Attempts.Store.Prepare.{is_live, Admission, write_admission, admit}
use billing_validation_contr.Attempts.Store.Takeover.{lock_owners, with_lease_owner, recover_owners}

-- The counts that the ledger has for a scope, settled and reserved together.
abbrev pub used_usage : Scope → Tables → Usage
used_usage scope t = usage_of (λ units. used_units units scope t)

pub used_units-same :
    (units : Usage → ℕ) (scope : Scope) {s t : Session}
    → SameLedger s t
    → used_units units scope t.tables ≡ used_units units scope s.tables
unfolding used_units committed_units reserved_units
used_units-same units scope q = ground (arith, q.same_receipts, q.same_reservations)

write_admission-used :
    (units : Usage → ℕ) (scope : Scope) (host : Host) (input : PrepareInput) (time : ℕ)
    (capacity : Capacity) (lease : Option Lease) (previous : List ResourceLock) (s : Session)
    {a : Admission} {t : Session}
    → write_admission host input time capacity lease previous s ≡ done a t
    → used_units units scope t.tables
      ≤ used_units units scope s.tables + units input.retention.projection
unfolding write_admission random_uuid
write_admission-used units scope host input time capacity lease previous s h =
    >>=-then next_fence _ s h λ fence s1 e1 h1. require-then (is_uuid_v4 fence) _ _ s1 h1 λ _ h2.
      >>=-then (put_attempt _) _ s1 h2 λ _ s2 e2 h3.
        >>=-then (put_resource_locks _ previous) _ s2 h3 λ _ s3 e3 h4.
          >>=-then (put_retention_reservation _) _ _ h4 λ _ s4 e4 h5.
            >>=-then (put_lease _ _ _) _ s4 h5 λ _ s5 e5 h6.
              let k1 = used_units-same units scope (Keeps-next_fence.keeps s fence s1 e1) in
              let k2 = used_units-same units scope ((Keeps-put_attempt _).keeps s1 _ s2 e2) in
              let k3 =
                used_units-same units scope
                  ((Keeps-put_resource_locks _ previous).keeps s2 _ s3 e3) in
              let k4 = put_retention_reservation-used units scope _ _ e4 in
              let k5 = used_units-same units scope ((Keeps-put_lease _ _ _).keeps s4 _ s5 e5) in
              let k6 = (done-eq h6).1 in ground (arith, k1, k2, k3, k4, k5, k6)

pinned_policy-same :
    (host : Host) (rows : List Reservation) (s : Session) (o : Option Usage) (t : Session)
    → pinned_policy host rows s ≡ done o t
    → t ≡ s
unfolding pinned_policy
pinned_policy-same host [] s o t h = cc
pinned_policy-same host (r ∷ rs) s o t h = ground arith

get_retention_usage-sums :
    (host : Host) (scope : Scope) (s : Session) (u : LedgerUsage) (t : Session)
    → get_retention_usage host scope s ≡ done u t
    → (u.committed ≡ usage_of (λ units. committed_units units scope s.tables))
      × (u.reserved ≡ usage_of (λ units. reserved_units units scope s.tables))
      × (t ≡ s)
unfolding get_retention_usage
get_retention_usage-sums host scope s u t h =
    let committed = usage_of (λ units. committed_units units scope s.tables) in
    let reserved = usage_of (λ units. reserved_units units scope s.tables) in
    >>=-then_same (pinned_policy host (policies scope s.reservations)) _ s
      (pinned_policy-same host (policies scope s.reservations) s) h
      λ o e h1. require-then (is_safe_usage committed && is_safe_usage reserved) _ _ s h1 λ safe h2.
        let (same, q) = done-eq h2 in
        (ap (λ x. x.committed) (sym same), ap (λ x. x.reserved) (sym same), q)

-- A bound on the sum that an admission will come to is one on what it has come to.
write_admission-bound :
    (units : Usage → ℕ) (host : Host) (input : PrepareInput) (time : ℕ) (capacity : Capacity)
    (lease : Option Lease) (previous : List ResourceLock) {r : Session} (s : Session) (n : ℕ)
    {a : Admission} {t : Session}
    → let scope = retention_scope input.environment in
      SameLedger r s
      → write_admission host input time capacity lease previous s ≡ done a t
      → committed_units units scope r.tables
          + reserved_units units scope r.tables
          + units input.retention.projection
        ≤ n
      → used_units units scope t.tables ≤ n
unfolding used_units
write_admission-bound units host input time capacity lease previous s n kept h less =
    let scope = retention_scope input.environment in
    ground (
      arith,
      used_units-same units scope kept,
      write_admission-used units scope host input time capacity lease previous s h,
    )

-- Once `prepare` has admitted a new attempt, the units settled and reserved in the ledger for the
-- attempt's database and Stripe account are within the quotas of the request, for every key.
pub admit-Within :
    (host : Host) (input : PrepareInput) (time : ℕ) (s : Session) {a : Admission} {t : Session}
    → admit host input time s ≡ done a t
    → Within (used_usage (retention_scope input.environment) t.tables) input.retention.quotas
unfolding admit
admit-Within host input time s h =
    let scope = retention_scope input.environment in
    >>=-then_same (get_retention_usage host scope) _ s
      (λ u t e. (get_retention_usage-sums host scope s u t e).2) h
      λ usage e1 h1.
        >>=-then (retention_capacity usage input.retention.quotas input.retention.projection) _ s h1
          λ capacity s1 e2 h2. >>=-then (get_lease input.key.key) _ s1 h2 λ lease s2 e3 h3.
            require-then (not (is_live time lease)) _ _ s2 h3 λ free h4.
              >>=-then (get_resource_locks host input.environment) _ s2 h4 λ locks s3 e4 h5.
                >>=-then (lock_owners time lease locks []) _ s3 h5 λ lockers s4 e5 h6.
                  >>=-then (with_lease_owner input.key lease locks lockers) _ s4 h6
                    λ owners s5 e6 h7.
                      >>=-then (recover_owners host time owners) _ s5 h7 λ _ s6 e7 h8.
                        let (committed, reserved, _) =
                          get_retention_usage-sums host scope s usage s e1 in
                        let (fits, _, same) =
                          retention_capacity-Within usage input.retention.quotas
                            input.retention.projection s e2 in
                        let kept : SameLedger s s6 =
                          SameLedger-trans (SameLedger-of (ap (λ x. x.tables) same)) (
                            SameLedger-trans ((Keeps-get_lease _).keeps s1 _ s2 e3) (
                              SameLedger-trans ((Keeps-get_resource_locks host _).keeps s2 _ s3 e4)
                                (SameLedger-trans
                                  ((Keeps-lock_owners time lease locks []).keeps s3 _ s4 e5)
                                  (SameLedger-trans
                                    ((Keeps-with_lease_owner _ lease locks _).keeps s4 _ s5 e6)
                                    ((Keeps-recover_owners host time owners).keeps s5 _ s6
                                      e7))))) in
                        let bound = λ (units : Usage → ℕ).
                          write_admission-bound units host input time capacity lease locks s6
                            (units input.retention.quotas) kept h8 in
                        ground (
                          arith,
                          fits,
                          committed,
                          reserved,
                          bound (λ u. u.attempts),
                          bound (λ u. u.database_rows),
                          bound (λ u. u.auth_users),
                          bound (λ u. u.stripe_objects),
                        )
