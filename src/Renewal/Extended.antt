-- ===== src/Renewal/Extended.antt =====
-- A renewal that the store grants: `renew` of src/attempts/store.mjs within `withRenewingLease` of
-- src/attempts/lock.mjs.
use billing_validation_contr.Common.{
  ℕ, ◌+◌, ◌-◌, ◌≤◌, ◌<◌, String, none, some, ◌≡◌, refl, sym, subst, ap, arith,
}
use billing_validation_contr.Js.{number, valid_ttl}
use billing_validation_contr.Attempts.Session.{Session, Host, done}
use billing_validation_contr.Attempts.Postgres.{put_lease, get_resource_locks, put_resource_locks}
use billing_validation_contr.Attempts.Store.Owner.{fenced_attempt}
use billing_validation_contr.Attempts.Store.Fenced.{Owned, microseconds, renew}
use billing_validation_contr.Attempts.Runs.{>>=-then, require_some-then, transaction-then, done-eq}
use billing_validation_contr.Renewal.Supervisor.{
  Confirmed, confirmed_of, Supervisor, waiting, asking, renewed, next_deadline, confirm_renewal,
  step,
}

-- What the store confirms lasts for the time that was asked for, from the reading of its clock.
renew-lasts :
    (host : Host) (attempt_id fence : String) (ttl : ℕ) (s : Session) {o : Owned} {t : Session}
    → renew host attempt_id fence (number ttl) s ≡ done o t
    → (1 ≤ ttl) × (o.expires_at ≡ o.server_now + microseconds ttl)
unfolding renew
renew-lasts host attempt_id fence ttl s {o = o} h =
    require_some-then (valid_ttl (number ttl)) _ _ s h λ seconds valid h1.
      let same : ttl ≡ seconds = ground (arith, valid) in
      let positive : 1 ≤ ttl = ground (arith, valid) in
      transaction-then _ s h1 λ u run q.
        >>=-then (fenced_attempt host attempt_id fence) _ s run λ f s1 e1 h2.
          >>=-then (put_lease _ _ _) _ s1 h2 λ x s2 e2 h3.
            >>=-then (get_resource_locks host f.row.environment) _ s2 h3 λ locks s3 e3 h4.
              >>=-then (put_resource_locks _ locks) _ s3 h4 λ y s4 e4 last.
                let (result, end) = done-eq last in
                (
                  positive,
                  subst (λ r. r.expires_at ≡ r.server_now + microseconds ttl) result
                      (ap (λ n. f.time + microseconds n) (sym same)),
                )

next_deadline-full :
    (ttl : ℕ) (lease : Confirmed) (requested now : ℕ)
    → 1 ≤ ttl
    → lease.expires_at ≡ lease.server_now + microseconds ttl
    → now < requested + microseconds ttl
    → next_deadline ttl lease requested now ≡ some (requested + microseconds ttl)
unfolding next_deadline
next_deadline-full ttl lease requested now positive lasts before =
    let all : lease.expires_at - lease.server_now ≡ microseconds ttl = omega (arith, lasts) in
    rw all (ground (arith, positive, before))

-- A renewal that the store grants, and whose answer a running supervisor reads before the time to live
-- has passed since it asked, keeps the supervisor running: its new deadline is the full time to live
-- after the asking, and the next renewal is scheduled.
pub renew-extends :
    {A : Type 0} (host : Host) (attempt_id fence : String) (ttl : ℕ) (s : Session) {o : Owned}
    {t : Session} (v : Supervisor A) (requested now : ℕ)
    → renew host attempt_id fence (number ttl) s ≡ done o t
    → v.outcome ≡ none
    → v.renewal ≡ asking requested
    → now < requested + microseconds ttl
    → step ttl (renewed (confirmed_of o) now) v ≡ record v {
      deadline = requested + microseconds ttl;
      lease = confirmed_of o;
      renewal = waiting;
    }
unfolding step confirm_renewal
renew-extends host attempt_id fence ttl s {o = o} v requested now granted on asked before =
    let (positive, lasts) = renew-lasts host attempt_id fence ttl s granted in
    rw (asked, on, next_deadline-full ttl (confirmed_of o) requested now positive lasts before) refl
