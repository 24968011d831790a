-- ===== src/Attempts/Store/Owner.antt =====
-- `assertOwner`, `assertResourceOwner` and `assertFencedOwner` of src/attempts/store.mjs, and the
-- opening that `renew`, `transition`, `cleanup`, `fixtureMutation` and the Stripe methods share.
use billing_validation_contr.Common.{
  ℕ, Bool, false, ◌&&◌, not, String, str_eq, List, Option, none, some, leb, nat_eq, length,
}
use billing_validation_contr.Attempts.Data.{
  attempt_missing, lease_fence_lost, lease_expired, Resource, ResourceLock, Attempt, Lease,
}
use billing_validation_contr.Attempts.Same.{same_environment, same_resource}
use billing_validation_contr.Attempts.Session.{
  Host, Action, pure, require, require_some, ◌>>=◌, ◌>>◌,
}
use billing_validation_contr.Attempts.Postgres.{
  now, lock_attempt, get_attempt, stripe_resource, supabase_resource, lock_resource_locks,
  find_lock, get_resource_locks, get_lease,
}

-- `lease && lease.attemptId === attemptId && lease.fence === fence`, and then the expiry.
unfoldable pub assert_owner : Option Lease → String → String → ℕ → Action Lease
assert_owner lease attempt_id fence time = do
  l ← require_some lease lease_fence_lost
  require (str_eq l.attempt_id attempt_id && str_eq l.fence fence) lease_fence_lost
  require (not (leb l.expires_at time)) lease_expired
  pure l

unfoldable pub is_owned : Attempt → Lease → String → String → ResourceLock → Bool
is_owned row l attempt_id fence k =
    str_eq k.attempt_id attempt_id
    && str_eq k.fence fence
    && str_eq k.candidate_sha row.candidate_sha
    && str_eq k.workflow.repository l.owner_repository
    && str_eq k.workflow.ref l.owner_ref
    && str_eq k.workflow.run_id l.owner_run_id
    && nat_eq k.workflow.run_attempt l.owner_run_attempt
    && str_eq k.workflow.runner_label row.workflow.runner_label
    && same_environment k.environment row.environment
    && nat_eq k.expires_at l.expires_at

unfoldable pub owned_resource :
    List ResourceLock → Attempt → Lease → String → String → Resource → Bool
unfolding same_resource is_owned
owned_resource locks row l attempt_id fence r = elim (find_lock r locks) [
  | none ↦ false
  | some k ↦ is_owned row l attempt_id fence k
]

unfoldable pub owns_resources : List ResourceLock → Attempt → Lease → String → String → Bool
unfolding owned_resource
owns_resources locks row l attempt_id fence =
    nat_eq (length locks) 2
    && owned_resource locks row l attempt_id fence (stripe_resource row.environment)
    && owned_resource locks row l attempt_id fence (supabase_resource row.environment)

unfoldable pub assert_resource_owner :
    List ResourceLock → Attempt → Lease → String → String → Action (Unit {0})
assert_resource_owner locks row l attempt_id fence =
    require (owns_resources locks row l attempt_id fence) lease_fence_lost

unfoldable pub assert_fenced_owner :
    Host → Attempt → Option Lease → String → String → ℕ → Action Lease
assert_fenced_owner host row lease attempt_id fence time = do
  l ← assert_owner lease attempt_id fence time
  locks ← get_resource_locks host row.environment
  assert_resource_owner locks row l attempt_id fence
  pure l

pub record Fenced : Type 0 where
  pub row : Attempt
  pub lease : Lease
  pub time : ℕ

unfoldable pub fenced_attempt : Host → String → String → Action Fenced
fenced_attempt host attempt_id fence = do
  lock_attempt attempt_id
  found ← get_attempt attempt_id
  row ← require_some found attempt_missing
  lock_resource_locks row.environment
  lease ← get_lease row.key
  time ← now host
  l ← assert_fenced_owner host row lease attempt_id fence time
  pure (record { row = row; lease = l; time = time })
