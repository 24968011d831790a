-- ===== src/Attempts/Ownership.antt =====
-- What `assertFencedOwner` has checked once it returns: the lease and the two resource locks belong
-- to the fence that the caller names.
mod Locks
pub use Locks.{IsLocked}
use billing_validation_contr.Common.{
  ℕ, ◌<◌, suc, String, Option, none, some, true, List, ◌++◌, ◌≡◌, ◌⊎◌, inl, inr, arith, eq_iff,
  nat_eq_iff, find-true, Option-cases, sym, refl, subst, ap,
}
use billing_validation_contr.Attempts.Data.{
  Attempt, Lease, ResourceLock, Resource, Workflow, Environment,
}
use billing_validation_contr.Attempts.Same.{same_environment_iff, same_resource, same_resource_iff}
use billing_validation_contr.Attempts.Session.{Session, Host, done, pure}
use billing_validation_contr.Attempts.Runs.{done-eq, >>=-then_same, require-then, require_some-then}
use billing_validation_contr.Attempts.Postgres.{
  find_attempt, find_lease, row_from_db, restored_row, find_lock, lock_from_db, stripe_resource,
  supabase_resource, get_attempt, now, get_lease, get_resource_locks, lock_resource_locks,
  lock_attempt, lock,
}
use billing_validation_contr.Attempts.Ownership.Locks.{
  read_locks, owns_resources-IsLocked, assert_owner-done,
}
use billing_validation_contr.Attempts.Store.Owner.{
  is_owned, owned_resource, assert_owner, owns_resources, assert_resource_owner,
  assert_fenced_owner, fenced_attempt, Fenced,
}

-- What a fenced transaction has found, at the clock reading that it compares with.
pub record IsFenced (host : Host) (s : Session) (attempt_id fence : String) (f : Fenced)
    : Type 0 where
  pub stored : Attempt
  pub found : find_attempt attempt_id s.attempts ≡ some stored
  pub row : f.row ≡ restored_row stored
  pub leased : find_lease f.row.key s.leases ≡ some f.lease
  pub attempt : f.lease.attempt_id ≡ attempt_id
  pub owner_fence : f.lease.fence ≡ fence
  pub time : f.time ≡ host.clock s.ticks
  pub unexpired : f.time < f.lease.expires_at
  pub stripe : IsLocked host s.locks f.row f.lease (stripe_resource f.row.environment)
  pub supabase : IsLocked host s.locks f.row f.lease (supabase_resource f.row.environment)

pub get_attempt-then {ℓ} :
    {Q : Type ℓ} (attempt_id : String) (s : Session) (o : Option Attempt) (t : Session)
    → get_attempt attempt_id s ≡ done o t
    → {r : Attempt} → o ≡ some r
    → ((a : Attempt) → find_attempt attempt_id s.attempts ≡ some a → r ≡ restored_row a → t ≡ s → Q)
    → Q
unfolding get_attempt row_from_db
get_attempt-then attempt_id s o t h {r} q k =
    elim (Option-cases (find_attempt attempt_id s.attempts)) [
      | inl absent ↦ absurd (ground (arith, absent))
      | inr (a, found) ↦ k a found (ground (arith, found)) (ground (arith, found))
    ]

get_attempt-same :
    (attempt_id : String) (s : Session) (o : Option Attempt) (t : Session)
    → get_attempt attempt_id s ≡ done o t
    → t ≡ s
unfolding get_attempt row_from_db
get_attempt-same attempt_id s o t h = ground arith

-- What `assertFencedOwner` has checked of a lease once it returns it.
pub record IsOwner (host : Host) (s : Session) (row : Attempt) (lease : Option Lease)
    (attempt_id fence : String) (time : ℕ) (l : Lease) : Type 0 where
  pub given : lease ≡ some l
  pub attempt : l.attempt_id ≡ attempt_id
  pub owner_fence : l.fence ≡ fence
  pub unexpired : time < l.expires_at
  pub stripe : IsLocked host s.locks row l (stripe_resource row.environment)
  pub supabase : IsLocked host s.locks row l (supabase_resource row.environment)

pub assert_fenced_owner-done :
    (host : Host) (row : Attempt) (lease : Option Lease) (attempt_id fence : String) (time : ℕ)
    (s : Session) (l : Lease) (t : Session)
    → assert_fenced_owner host row lease attempt_id fence time s ≡ done l t
    → IsOwner host s row lease attempt_id fence time l × (t ≡ s)
unfolding assert_fenced_owner get_resource_locks assert_resource_owner
assert_fenced_owner-done host row lease attempt_id fence time s l t h =
    >>=-then_same (assert_owner lease attempt_id fence time) _ s
      (λ a u e. (assert_owner-done lease attempt_id fence time s e).4) h
      λ k e1 h1.
        require-then (owns_resources (read_locks host s row.environment) row k attempt_id fence) _
          (pure k) s h1
          λ owned h2.
            let (given, own, same_fence, before, q1) =
              assert_owner-done lease attempt_id fence time s e1 in
            let (p, q) =
              owns_resources-IsLocked host s row k (ground (arith, owned, own, same_fence)) in
            let (same, q2) = done-eq h2 in
            (
              subst (IsOwner host s row lease attempt_id fence time) same (record {
                given = given;
                attempt = own;
                owner_fence = same_fence;
                unexpired = before;
                stripe = p;
                supabase = q;
              }),
              q2,
            )

-- A caller that passes the opening of a fenced transaction owns the attempt: the attempt is stored,
-- the lease of its key is the caller's by attempt and fence and has not expired at the clock reading,
-- and the locks of the Stripe account and of the Supabase project belong to that attempt, fence,
-- candidate, run and environment with the lease's expiry. The opening changes no table, draws no
-- identifier and reads the clock once.
pub fenced_attempt-done :
    (host : Host) (attempt_id fence : String) (s : Session) {f : Fenced} {t : Session}
    → fenced_attempt host attempt_id fence s ≡ done f t
    → IsFenced host s attempt_id fence f
      × (t.tables ≡ s.tables)
      × (t.sequence ≡ s.sequence)
      × (t.draws ≡ s.draws)
      × (t.ticks ≡ suc s.ticks)
unfolding fenced_attempt lock_attempt lock lock_resource_locks get_lease now
fenced_attempt-done host attempt_id fence s {f} {t} h =
    >>=-then_same (get_attempt attempt_id) _ _ (get_attempt-same attempt_id _) h λ o e1 h1.
      require_some-then o _ _ _ h1 λ row e2 h2.
        get_attempt-then attempt_id _ o _ e1 e2 λ a found q _.
          >>=-then_same (assert_fenced_owner host row _ attempt_id fence _) _ _
            (λ l u e. (assert_fenced_owner-done host row _ attempt_id fence _ _ l u e).1) h2
            λ l e3 h3.
              let w = (assert_fenced_owner-done host row _ attempt_id fence _ _ l _ e3).0 in
              let (same, q2) = done-eq h3 in
              (
                subst (IsFenced host s attempt_id fence) same (record {
                  stored = a;
                  found = found;
                  row = q;
                  leased = w.given;
                  attempt = w.attempt;
                  owner_fence = w.owner_fence;
                  time = refl;
                  unexpired = w.unexpired;
                  stripe = w.stripe;
                  supabase = w.supabase;
                }),
                ap (λ u. u.tables) q2,
                ap (λ u. u.sequence) q2,
                ap (λ u. u.draws) q2,
                ap (λ u. u.ticks) q2,
              )
