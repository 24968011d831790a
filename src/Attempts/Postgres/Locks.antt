-- ===== src/Attempts/Postgres/Locks.antt =====
-- `resourceKeys`, `lockRetention`, `lockResourceLocks`, `getResourceLocks`, `putResourceLocks` and
-- `deleteResourceLocks` of src/attempts/postgres-store.mjs.
use billing_validation_contr.Common.{
  Bool, ◌&&◌, String, str_eq, List, [], ◌∷◌, ◌++◌, Option, none, some, ltb, if◌then◌else◌, find,
  update_where, delete_where, some_of,
}
use billing_validation_contr.Attempts.Data.{
  resource_lock_held, lease_fence_lost, Environment, Scope, Resource, stripe_account,
  supabase_project, ResourceLock, LockOwner,
}
use billing_validation_contr.Attempts.Same.{same_resource}
use billing_validation_contr.Attempts.Session.{
  Session, Tables, Host, Action, retention_lock, resource_lock, done, refused, ◌>>=◌, ◌>>◌,
}
use billing_validation_contr.Attempts.Postgres.Basic.{lock, now}

-- Sorted by `type:id`, and "stripe_account" sorts before "supabase_project".
abbrev pub stripe_resource : Environment → Resource
stripe_resource e = record { type = stripe_account; id = e.account_id }

abbrev pub supabase_resource : Environment → Resource
supabase_resource e = record { type = supabase_project; id = e.project_ref }

abbrev pub resource_keys : Environment → List Resource
resource_keys e = stripe_resource e ∷ supabase_resource e ∷ []

unfoldable pub lock_retention : Scope → Action (Unit {0})
unfolding lock
lock_retention scope = lock (retention_lock scope)

unfoldable pub lock_resource_locks : Environment → Action (Unit {0})
unfolding lock
lock_resource_locks e = do
  lock (resource_lock (stripe_resource e))
  lock (resource_lock (supabase_resource e))

abbrev pub find_lock : Resource → List ResourceLock → Option ResourceLock
find_lock r = find (λ l. same_resource l.resource r)

-- `resourceLockFromDb`: the environment comes back from its `jsonb` column.
abbrev pub lock_from_db : Host → Option ResourceLock → List ResourceLock
lock_from_db host none = []
lock_from_db host (some l) =
    record l { environment = record env { order = host.jsonb_order env.order } } ∷ []
  where
    env : Environment
    env = l.environment

-- At most one row for each resource, by the primary key, in the order of the types.
unfoldable pub get_resource_locks : Host → Environment → Action (List ResourceLock)
unfolding same_resource
get_resource_locks host e s =
    done
      (lock_from_db host (find_lock (stripe_resource e) s.locks)
        ++ lock_from_db host (find_lock (supabase_resource e) s.locks))
      s

abbrev set_locks : List ResourceLock → Session → Session
set_locks rows s = record s { tables = record t { locks = rows } }
  where
    t : Tables
    t = s.tables

abbrev lock_row : LockOwner → Resource → ResourceLock
lock_row o r = record {
  resource = r;
  attempt_id = o.attempt_id;
  fence = o.fence;
  candidate_sha = o.candidate_sha;
  workflow = o.workflow;
  environment = o.environment;
  expires_at = o.expires_at;
}

abbrev pub is_held_by : Resource → String → String → ResourceLock → Bool
is_held_by r attempt_id fence l =
    same_resource l.resource r && str_eq l.attempt_id attempt_id && str_eq l.fence fence

-- One round of the loop of `putResourceLocks`: an insert for an absent row, else an update that
-- names the old owner and fence.
unfoldable pub put_resource_lock : LockOwner → List ResourceLock → Resource → Action (Unit {0})
unfolding same_resource
put_resource_lock o previous r s = elim (find_lock r previous) [
  | none ↦ elim (find_lock r s.locks) [
    | none ↦ done tt (set_locks (lock_row o r ∷ s.locks) s)
    | some l ↦ refused resource_lock_held s
  ]
  | some old ↦
      if some_of (is_held_by r old.attempt_id old.fence) s.locks
      then done tt (
          set_locks
            (update_where (is_held_by r old.attempt_id old.fence) (λ l. lock_row o r) s.locks) s)
      else refused resource_lock_held s
]

unfoldable pub put_resource_locks : LockOwner → List ResourceLock → Action (Unit {0})
put_resource_locks o previous = do
  put_resource_lock o previous (stripe_resource o.environment)
  put_resource_lock o previous (supabase_resource o.environment)

unfoldable pub delete_resource_lock : Host → String → String → Resource → Action (Unit {0})
unfolding now same_resource
delete_resource_lock host attempt_id fence r = do
  time ← now host
  λ s.
      if some_of (λ l. is_held_by r attempt_id fence l && ltb time l.expires_at) s.locks
      then done tt (
          set_locks
            (delete_where (λ l. is_held_by r attempt_id fence l && ltb time l.expires_at) s.locks)
            s)
      else refused lease_fence_lost s

unfoldable pub delete_resource_locks : Host → String → String → Environment → Action (Unit {0})
delete_resource_locks host attempt_id fence e = do
  delete_resource_lock host attempt_id fence (stripe_resource e)
  delete_resource_lock host attempt_id fence (supabase_resource e)
