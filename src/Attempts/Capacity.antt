-- ===== src/Attempts/Capacity.antt =====
-- What `retentionCapacity` grants.
use billing_validation_contr.Common.{ℕ, ◌≤◌, Option, none, some, ◌≡◌, arith, subst, ap, sym, ◌∙◌}
use billing_validation_contr.Attempts.Data.{written, Usage, Capacity}
use billing_validation_contr.Attempts.Session.{Session, done}
use billing_validation_contr.Attempts.Runs.{>>=-then_same, require_some-then, done-eq}
use billing_validation_contr.Attempts.Postgres.{LedgerUsage}
use billing_validation_contr.Attempts.Store.Retention.{
  stored_usage, check_policy, check_total, total_usage, retention_capacity,
}

abbrev pub Within : Usage → Usage → Type 0
Within a b =
    (a.attempts ≤ b.attempts)
    × (a.database_rows ≤ b.database_rows)
    × (a.auth_users ≤ b.auth_users)
    × (a.stripe_objects ≤ b.stripe_objects)

check_total-done :
    (total quota : ℕ) (s : Session) {x : Unit {0}} {t : Session}
    → check_total total quota s ≡ done x t
    → (total ≤ quota) × (t ≡ s)
unfolding check_total
check_total-done total quota s h = ground arith

check_total-same :
    (total quota : ℕ) (s : Session) (x : Unit {0}) (t : Session)
    → check_total total quota s ≡ done x t
    → t ≡ s
check_total-same total quota s x t h = (check_total-done total quota s h).1

check_policy-same :
    (limits : Option Usage) (quotas : Usage) (s : Session) (x : Unit {0}) (t : Session)
    → check_policy limits quotas s ≡ done x t
    → t ≡ s
unfolding check_policy
check_policy-same none quotas s x t h = cc
check_policy-same (some prior) quotas s x t h = ground arith

pub stored_usage-some :
    (u : Usage) {v : Usage} → stored_usage u ≡ some v → v ≡ record u { order = written }
unfolding stored_usage
stored_usage-some u h = ground arith

-- `retentionCapacity` returns only where the settled units, the reserved units and those asked for
-- fit in the quota of every key together; it returns that sum, and changes nothing.
pub retention_capacity-Within :
    (usage : LedgerUsage) (quotas projection : Usage) (s : Session) {c : Capacity} {t : Session}
    → retention_capacity usage quotas projection s ≡ done c t
    → Within (total_usage usage.committed usage.reserved projection) quotas
      × (c.projected ≡ total_usage usage.committed usage.reserved projection)
      × (t ≡ s)
unfolding retention_capacity
retention_capacity-Within usage quotas projection s h =
    require_some-then (stored_usage usage.committed) _ _ s h λ committed e h1.
      require_some-then (stored_usage usage.reserved) _ _ s h1 λ reserved e' h2.
        let total = total_usage committed reserved projection in
        >>=-then_same (check_policy usage.policy_limits quotas) _ s
          (check_policy-same usage.policy_limits quotas s) h2
          λ x1 e1 h3.
            >>=-then_same (check_total total.attempts quotas.attempts) _ s
              (check_total-same total.attempts quotas.attempts s) h3
              λ x2 e2 h4.
                >>=-then_same (check_total total.database_rows quotas.database_rows) _ s
                  (check_total-same total.database_rows quotas.database_rows s) h4
                  λ x3 e3 h5.
                    >>=-then_same (check_total total.auth_users quotas.auth_users) _ s
                      (check_total-same total.auth_users quotas.auth_users s) h5
                      λ x4 e4 h6.
                        >>=-then_same (check_total total.stripe_objects quotas.stripe_objects) _ s
                          (check_total-same total.stripe_objects quotas.stripe_objects s) h6
                          λ x5 e5 h7.
                            let a = stored_usage-some usage.committed e in
                            let b = stored_usage-some usage.reserved e' in
                            let (same, q) = done-eq h7 in
                            let sums : total
                                ≡ total_usage usage.committed usage.reserved projection =
                              ground (arith, a, b) in
                            let within : Within total quotas = (
                              (check_total-done total.attempts quotas.attempts s e2).0,
                              (check_total-done total.database_rows quotas.database_rows s e3).0,
                              (check_total-done total.auth_users quotas.auth_users s e4).0,
                              (check_total-done total.stripe_objects quotas.stripe_objects s e5).0,
                            ) in
                            (
                              subst (λ x. Within x quotas) sums within,
                              ap (λ c. c.projected) (sym same) ∙ sums,
                              q,
                            )
