-- ===== src/Attempts/Store/Takeover.antt =====
-- What `prepare` of src/attempts/store.mjs takes over: the owners of the resource locks and of the
-- lease, of which the expired ones are recovered.
use billing_validation_contr.Common.{
  ℕ, Bool, ◌&&◌, not, str_eq, List, [], ◌∷◌, Option, none, some, ltb, nat_eq, is_some,
  if◌then◌else◌, find, some_of,
}
use billing_validation_contr.Js.{is_safe_id}
use billing_validation_contr.Attempts.Data.{
  resource_lock_held, resource_lock_ledger_invalid, recovery_unverified, callback_failed, cleaned,
  Key, Attempt, Lease, ResourceLock,
}
use billing_validation_contr.Attempts.Same.{same_key, same_environment}
use billing_validation_contr.Attempts.Input.{GivenKey}
use billing_validation_contr.Attempts.Session.{
  Host, Answer, thrown, answered, Recovery, takeover_mode, Action, done, refused, pure, require,
  require_some, ◌>>=◌, ◌>>◌,
}
use billing_validation_contr.Attempts.Postgres.{
  get_attempt, put_attempt, get_lease, has_in_flight_stripe_intent,
  get_retention_reservation_by_attempt, get_retention_receipt,
}

abbrev pub same_given_key : Key → GivenKey → Bool
same_given_key stored given = same_key stored given.key && given.in_order

-- An entry of `priorOwners`.
pub record PriorOwner : Type 0 where
  pub prior : Attempt
  pub lock : Option ResourceLock
  pub lease : Lease

-- `priorOwners.set(prior.attemptId, owner)`: a new value keeps the key's place.
abbrev set_owner : PriorOwner → List PriorOwner → List PriorOwner
set_owner o [] = o ∷ []
set_owner o (p ∷ ps) =
    if str_eq p.prior.attempt_id o.prior.attempt_id then o ∷ ps else p ∷ set_owner o ps

abbrev is_lock_of : Attempt → ResourceLock → Bool
is_lock_of prior lock =
    same_environment prior.environment lock.environment
    && str_eq prior.candidate_sha lock.candidate_sha
    && str_eq lock.workflow.repository prior.workflow.repository
    && str_eq lock.workflow.ref prior.workflow.ref
    && str_eq lock.workflow.runner_label prior.workflow.runner_label

abbrev is_lease_for : Attempt → ResourceLock → Lease → Bool
is_lease_for prior lock l =
    str_eq l.attempt_id prior.attempt_id
    && str_eq l.fence lock.fence
    && nat_eq l.expires_at lock.expires_at
    && str_eq l.owner_repository lock.workflow.repository
    && str_eq l.owner_ref lock.workflow.ref
    && str_eq l.owner_run_id lock.workflow.run_id
    && nat_eq l.owner_run_attempt lock.workflow.run_attempt

-- `lease?.attemptId === prior.attemptId ? lease : await tx.getLease(prior.key)`.
unfoldable pub owner_lease : Option Lease → Attempt → Action (Option Lease)
owner_lease none prior = get_lease prior.key
owner_lease (some l) prior =
    if str_eq l.attempt_id prior.attempt_id then pure (some l) else get_lease prior.key

-- One round of the loop over `previousLocks`. The ledger's rows are typed and under the resources
-- asked for, so of the test for `resource_lock_ledger_invalid` only the attempt's name is left.
unfoldable pub prior_owner : ℕ → Option Lease → ResourceLock → Action PriorOwner
prior_owner time lease lock = do
  require (is_safe_id lock.attempt_id) resource_lock_ledger_invalid
  require (not (ltb time lock.expires_at)) resource_lock_held
  found ← get_attempt lock.attempt_id
  prior ← require_some found recovery_unverified
  require (is_lock_of prior lock) recovery_unverified
  held ← owner_lease lease prior
  l ← require_some held recovery_unverified
  require (is_lease_for prior lock l) recovery_unverified
  pure (record { prior = prior; lock = some lock; lease = l })

unfoldable pub lock_owners :
    ℕ → Option Lease → List ResourceLock → List PriorOwner → Action (List PriorOwner)
lock_owners time lease [] owners = pure owners
lock_owners time lease (lock ∷ locks) owners =
    prior_owner time lease lock >>= λ o. lock_owners time lease locks (set_owner o owners)

abbrev is_lock_under : Lease → ResourceLock → Bool
is_lock_under lease lock = str_eq lock.attempt_id lease.attempt_id && str_eq lock.fence lease.fence

-- The owner of the expired lease of the key itself.
unfoldable pub with_lease_owner :
    GivenKey → Option Lease → List ResourceLock → List PriorOwner → Action (List PriorOwner)
with_lease_owner key none locks owners = pure owners
with_lease_owner key (some lease) locks owners = do
  require (some_of (is_lock_under lease) locks) recovery_unverified
  found ← get_attempt lease.attempt_id
  prior ← require_some found recovery_unverified
  require (same_given_key prior.key key) recovery_unverified
  pure (
      set_owner (record { prior = prior; lock = find (is_lock_under lease) locks; lease = lease })
        owners)

abbrev pub ask_recovery : Answer (Option Recovery) → Action (Option Recovery)
ask_recovery thrown s = refused callback_failed s
ask_recovery (answered r) s = done r s

abbrev one_lock : Option ResourceLock → List ResourceLock
one_lock none = []
one_lock (some l) = l ∷ []

-- One round of the loop over `priorOwners.values()`.
unfoldable pub recover_owner : Host → ℕ → PriorOwner → Action (Unit {0})
recover_owner host time o = do
  let prior : Attempt = o.prior
  in_flight ← has_in_flight_stripe_intent prior.attempt_id
  require (not in_flight) recovery_unverified
  answer ← λ s.
      ask_recovery
        (host.verify_recovery s.ticks (record {
          mode = takeover_mode;
          prior = prior;
          lease = o.lease;
          locks = one_lock o.lock;
          pending = [];
        }))
        s
  recovery ← require_some answer recovery_unverified
  require (recovery.run_terminal && recovery.runner_removed && recovery.cleanup_complete)
      recovery_unverified
  found ← get_retention_reservation_by_attempt host prior.attempt_id
  (reservation, rows) ← require_some found recovery_unverified
  receipt ← get_retention_receipt host reservation.reservation_id
  require (is_some receipt) recovery_unverified
  put_attempt (record prior { cleanup_status = cleaned; updated_at = time })

unfoldable pub recover_owners : Host → ℕ → List PriorOwner → Action (Unit {0})
recover_owners host time [] = pure tt
recover_owners host time (o ∷ os) = recover_owner host time o >>= λ _. recover_owners host time os
