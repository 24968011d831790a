-- ===== src/Attempts/Ownership/Locks.antt =====
-- The locks that `assertResourceOwner` has found, in terms of the table of locks.
use billing_validation_contr.Common.{
  ℕ, ◌<◌, String, Option, none, some, true, List, ◌++◌, ◌≡◌, ◌⊎◌, inl, inr, arith, eq_iff,
  nat_eq_iff, find-true, Option-cases, sym, refl, subst,
}
use billing_validation_contr.Attempts.Data.{
  Attempt, Lease, ResourceLock, Resource, Workflow, Environment,
}
use billing_validation_contr.Attempts.Same.{same_environment_iff, same_resource, same_resource_iff}
use billing_validation_contr.Attempts.Session.{Session, Host, done}
use billing_validation_contr.Attempts.Postgres.{
  find_lock, lock_from_db, stripe_resource, supabase_resource,
}
use billing_validation_contr.Attempts.Store.Owner.{
  is_owned, owned_resource, assert_owner, owns_resources,
}

pub assert_owner-done :
    (lease : Option Lease) (attempt_id fence : String) (time : ℕ) (s : Session) {l : Lease}
    {t : Session}
    → assert_owner lease attempt_id fence time s ≡ done l t
    → (lease ≡ some l)
      × (l.attempt_id ≡ attempt_id)
      × (l.fence ≡ fence)
      × (time < l.expires_at)
      × (t ≡ s)
unfolding assert_owner
assert_owner-done none attempt_id fence time s h = cc
assert_owner-done (some l) attempt_id fence time s h =
    ground (arith, eq_iff l.attempt_id attempt_id, eq_iff l.fence fence)

-- The run that a lease names, with the label of the row's runner.
abbrev pub owner_workflow : Attempt → Lease → Workflow
owner_workflow row l = record {
  repository = l.owner_repository;
  ref = l.owner_ref;
  run_id = l.owner_run_id;
  run_attempt = l.owner_run_attempt;
  runner_label = row.workflow.runner_label;
}

abbrev pub read_environment : Host → Environment → Environment
read_environment host e = record e { order = host.jsonb_order e.order }

-- The lock row of a resource that belongs to the lease and has its expiry.
pub record IsLocked (host : Host) (locks : List ResourceLock) (row : Attempt) (l : Lease)
    (r : Resource) : Type 0 where
  pub lock : ResourceLock
  pub found : find_lock r locks ≡ some lock
  pub attempt : lock.attempt_id ≡ l.attempt_id
  pub fence : lock.fence ≡ l.fence
  pub candidate : lock.candidate_sha ≡ row.candidate_sha
  pub workflow : lock.workflow ≡ owner_workflow row l
  pub expiry : lock.expires_at ≡ l.expires_at
  pub environment : read_environment host lock.environment ≡ row.environment

is_owned-workflow :
    (row : Attempt) (l : Lease) (attempt_id fence : String) (k : ResourceLock)
    → is_owned row l attempt_id fence k ≡ true
    → k.workflow ≡ owner_workflow row l
unfolding is_owned
is_owned-workflow row l attempt_id fence k h = ground (
  arith,
  eq_iff k.workflow.repository l.owner_repository,
  eq_iff k.workflow.ref l.owner_ref,
  eq_iff k.workflow.run_id l.owner_run_id,
  eq_iff k.workflow.runner_label row.workflow.runner_label,
  nat_eq_iff k.workflow.run_attempt l.owner_run_attempt,
)

is_owned-fields :
    (row : Attempt) (l : Lease) (attempt_id fence : String) (k : ResourceLock)
    → is_owned row l attempt_id fence k ≡ true
    → (k.attempt_id ≡ attempt_id)
      × (k.fence ≡ fence)
      × (k.candidate_sha ≡ row.candidate_sha)
      × (k.expires_at ≡ l.expires_at)
      × (k.environment ≡ row.environment)
unfolding is_owned
is_owned-fields row l attempt_id fence k h = ground (
  arith,
  eq_iff k.attempt_id attempt_id,
  eq_iff k.fence fence,
  eq_iff k.candidate_sha row.candidate_sha,
  nat_eq_iff k.expires_at l.expires_at,
  same_environment_iff k.environment row.environment,
)

read_back : Host → ResourceLock → ResourceLock
read_back host k = record k { environment = read_environment host k.environment }

-- A resource found among the rows that were read is one of the table, its environment read back.
find_lock-read :
    (host : Host) (e : Environment) (o p : Option ResourceLock) (r : Resource) {k : ResourceLock}
    → ((a : ResourceLock) → o ≡ some a → a.resource ≡ stripe_resource e)
    → ((a : ResourceLock) → p ≡ some a → a.resource ≡ supabase_resource e)
    → find_lock r (lock_from_db host o ++ lock_from_db host p) ≡ some k
    → (r ≡ stripe_resource e → (a : ResourceLock) × (o ≡ some a) × (k ≡ read_back host a))
      × (r ≡ supabase_resource e → (a : ResourceLock) × (p ≡ some a) × (k ≡ read_back host a))
unfolding same_resource read_back
find_lock-read host e none none r f g h = cc
find_lock-read host e (some a) none r f g h =
    let fa = f a refl in
    (
      λ q. (a, refl, ground (arith, same_resource_iff a.resource r)),
      λ q. absurd (ground (arith, same_resource_iff a.resource r)),
    )
find_lock-read host e none (some b) r f g h =
    let fb = g b refl in
    (
      λ q. absurd (ground (arith, same_resource_iff b.resource r)),
      λ q. (b, refl, ground (arith, same_resource_iff b.resource r)),
    )
find_lock-read host e (some a) (some b) r f g h =
    let fa = f a refl in
    let fb = g b refl in
    (
      λ q. (a, refl, ground (arith, same_resource_iff a.resource r)),
      λ q.
          (b, refl, ground (arith, same_resource_iff a.resource r, same_resource_iff b.resource r)),
    )

abbrev pub read_locks : Host → Session → Environment → List ResourceLock
read_locks host s e =
    lock_from_db host (find_lock (stripe_resource e) s.locks)
    ++ lock_from_db host (find_lock (supabase_resource e) s.locks)

find_lock-resource :
    (s : Session) (r : Resource) (a : ResourceLock) → find_lock r s.locks ≡ some a → a.resource ≡ r
find_lock-resource s r a h = ground (
  arith,
  find-true (λ l. same_resource l.resource r) s.locks {x = a},
  same_resource_iff a.resource r,
)

owned_resource-found :
    (locks : List ResourceLock) (row : Attempt) (l : Lease) (r : Resource)
    → owned_resource locks row l l.attempt_id l.fence r ≡ true
    → (k : ResourceLock) × (find_lock r locks ≡ some k)
      × (is_owned row l l.attempt_id l.fence k ≡ true)
unfolding owned_resource
owned_resource-found locks row l r h = elim (Option-cases (find_lock r locks)) [
  | inl absent ↦ ground (arith, absent)
  | inr (k, found) ↦ (k, found, ground (arith, found))
]

is_owned-IsLocked :
    (host : Host) (s : Session) (row : Attempt) (l : Lease) (r : Resource) (k : ResourceLock)
    → find_lock r s.locks ≡ some k
    → is_owned row l l.attempt_id l.fence (read_back host k) ≡ true
    → IsLocked host s.locks row l r
unfolding read_back
is_owned-IsLocked host s row l r k found h =
    let fields = is_owned-fields row l l.attempt_id l.fence (read_back host k) h in
    record {
      lock = k;
      found = found;
      attempt = fields.0;
      fence = fields.1;
      candidate = fields.2;
      workflow = is_owned-workflow row l l.attempt_id l.fence (read_back host k) h;
      expiry = fields.3;
      environment = fields.4;
    }

owned_resource-IsLocked :
    (host : Host) (s : Session) (row : Attempt) (l : Lease) (r : Resource)
    → (r ≡ stripe_resource row.environment) ⊎ (r ≡ supabase_resource row.environment)
    → owned_resource (read_locks host s row.environment) row l l.attempt_id l.fence r ≡ true
    → IsLocked host s.locks row l r
owned_resource-IsLocked host s row l r which h =
    let (k, found, owned) = owned_resource-found (read_locks host s row.environment) row l r h in
    let read =
      find_lock-read host row.environment (find_lock (stripe_resource row.environment) s.locks)
        (find_lock (supabase_resource row.environment) s.locks) r
        (find_lock-resource s (stripe_resource row.environment))
        (find_lock-resource s (supabase_resource row.environment)) found in
    elim which [
      | inl q ↦
          (let (a, found_a, back) = read.0 q in
            is_owned-IsLocked host s row l r a
              (subst (λ x. find_lock x s.locks ≡ some a) (sym q) found_a)
              (subst (λ x. is_owned row l l.attempt_id l.fence x ≡ true) back owned))
      | inr q ↦
          (let (a, found_a, back) = read.1 q in
            is_owned-IsLocked host s row l r a
              (subst (λ x. find_lock x s.locks ≡ some a) (sym q) found_a)
              (subst (λ x. is_owned row l l.attempt_id l.fence x ≡ true) back owned))
    ]

pub owns_resources-IsLocked :
    (host : Host) (s : Session) (row : Attempt) (l : Lease)
    → owns_resources (read_locks host s row.environment) row l l.attempt_id l.fence ≡ true
    → IsLocked host s.locks row l (stripe_resource row.environment)
      × IsLocked host s.locks row l (supabase_resource row.environment)
unfolding owns_resources
owns_resources-IsLocked host s row l h = (
  owned_resource-IsLocked host s row l _ (inl refl) (ground arith),
  owned_resource-IsLocked host s row l _ (inr refl) (ground arith),
)
