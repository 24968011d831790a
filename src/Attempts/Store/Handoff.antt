-- ===== src/Attempts/Store/Handoff.antt =====
-- `handoffStripeIntentRecovery` of src/attempts/store.mjs: an attempt whose run has ended is given,
-- read only, to another run of the same workflow.
use billing_validation_contr.Common.{
  ℕ, ◌+◌, Bool, true, false, ◌&&◌, ◌||◌, not, String, str_eq, List, [], ◌∷◌, some, nat_eq, is_none,
  every,
}
use billing_validation_contr.Js.{Value, is_safe_id, is_uuid_v4, valid_ttl}
use billing_validation_contr.Attempts.Data.{
  attempt_input_invalid, lease_fence_lost, recovery_unverified, lease_fence_store_unavailable,
  rechecking, pending, cleaned, recovery_handoff, CleanupStatus, Workflow, Attempt, Lease,
  ResourceLock, StripeIntent,
}
use billing_validation_contr.Attempts.Same.{same_state}
use billing_validation_contr.Attempts.Session.{
  Host, intent_recovery_mode, Action, pure, require, require_some, transaction, ◌>>=◌, ◌>>◌,
}
use billing_validation_contr.Attempts.Postgres.{
  now, next_fence, lock_attempt, get_attempt, put_attempt, lock_resource_locks, get_resource_locks,
  put_resource_locks, get_lease, put_lease, list_pending_stripe_intents,
  get_retention_reservation_by_attempt, get_retention_receipt, get_cleanup_receipt,
}
use billing_validation_contr.Attempts.Input.{is_fence, valid_workflow, snapshot_workflow}
use billing_validation_contr.Attempts.Store.Owner.{assert_resource_owner}
use billing_validation_contr.Attempts.Store.Fenced.{Owned, is_terminal, microseconds}
use billing_validation_contr.Attempts.Store.Takeover.{ask_recovery}

abbrev is_cleaned : CleanupStatus → Bool
is_cleaned pending = false
is_cleaned cleaned = true

-- The attempt has ended or is being rechecked, and is not cleaned up.
unfoldable pub may_recover : Attempt → Bool
may_recover row =
    (is_terminal row.state || same_state row.state rechecking)
    && not (is_cleaned row.cleanup_status)

-- With no pending intent, only a recovery that goes on: the lease is a recovery's, and no cleanup
-- receipt is there.
unfoldable pub require_unfinished : String → Attempt → Lease → List StripeIntent → Action (Unit {0})
require_unfinished attempt_id row lease [] = do
  require (lease.recovery_only && not (is_cleaned row.cleanup_status)) recovery_unverified
  receipt ← get_cleanup_receipt attempt_id
  require (is_none receipt) recovery_unverified
require_unfinished attempt_id row lease (i ∷ is) = pure tt

-- The reservation is there and not settled.
unfoldable pub require_unsettled : Host → String → Action (Unit {0})
require_unsettled host attempt_id = do
  found ← get_retention_reservation_by_attempt host attempt_id
  (reservation, rows) ← require_some found recovery_unverified
  receipt ← get_retention_receipt host reservation.reservation_id
  require (is_none receipt) recovery_unverified

-- The run that owns the lease, under the runner of the attempt.
abbrev owner_run : Attempt → Lease → Workflow
owner_run row lease = record {
  repository = lease.owner_repository;
  ref = lease.owner_ref;
  run_id = lease.owner_run_id;
  run_attempt = lease.owner_run_attempt;
  runner_label = w.runner_label;
}
  where
    w : Workflow
    w = row.workflow

unfoldable pub is_other_run : Workflow → Workflow → Bool
is_other_run current owner =
    str_eq current.repository owner.repository
    && str_eq current.ref owner.ref
    && str_eq current.runner_label owner.runner_label
    && not (str_eq current.run_id owner.run_id && nat_eq current.run_attempt owner.run_attempt)

-- The verifier's word that the owner's run is over, and the run that takes its place.
unfoldable pub recovery_run :
    Host → Attempt → Lease → List ResourceLock → List StripeIntent → Action Workflow
recovery_run host row lease locks pending_intents = do
  let owner : Workflow = owner_run row lease
  require
      (valid_workflow owner
        && str_eq owner.repository row.workflow.repository
        && str_eq owner.ref row.workflow.ref)
      recovery_unverified
  answer ← λ s.
      ask_recovery
        (host.verify_recovery s.ticks (record {
          mode = intent_recovery_mode;
          prior = row;
          lease = lease;
          locks = locks;
          pending = pending_intents;
        }))
        s
  recovery ← require_some answer recovery_unverified
  require (recovery.run_terminal && recovery.runner_removed) recovery_unverified
  current ← require_some (snapshot_workflow recovery.current_run) recovery_unverified
  require (is_other_run current owner) recovery_unverified
  pure current

-- The writes of the handoff, under a new fence.
unfoldable pub write_handoff :
    Host → ℕ → Attempt → Lease → List ResourceLock → Workflow → Action Owned
write_handoff host seconds row lease locks current = do
  time ← now host
  fence ← next_fence
  require (is_uuid_v4 fence) lease_fence_store_unavailable
  let until : ℕ = time + microseconds seconds
  put_lease
      (record lease {
        fence = fence;
        recovery_only = true;
        expires_at = until;
        owner_repository = current.repository;
        owner_ref = current.ref;
        owner_run_id = current.run_id;
        owner_run_attempt = current.run_attempt;
      })
      (some lease.fence) recovery_handoff
  put_resource_locks
      (record {
        attempt_id = row.attempt_id;
        fence = fence;
        candidate_sha = row.candidate_sha;
        workflow = current;
        environment = row.environment;
        expires_at = until;
      })
      locks
  let changed : Attempt = record row { state = rechecking; updated_at = time }
  put_attempt changed
  pure (record { row = changed; fence = fence; expires_at = until; server_now = time })

unfoldable pub handoff_attempt : Host → String → String → ℕ → Action Owned
handoff_attempt host attempt_id fence seconds = do
  lock_attempt attempt_id
  found ← get_attempt attempt_id
  row ← require_some found recovery_unverified
  require (may_recover row) recovery_unverified
  lock_resource_locks row.environment
  held ← get_lease row.key
  lease ← require_some held lease_fence_lost
  require (str_eq lease.attempt_id attempt_id && str_eq lease.fence fence) lease_fence_lost
  locks ← get_resource_locks host row.environment
  assert_resource_owner locks row lease attempt_id fence
  pending_intents ← list_pending_stripe_intents host attempt_id
  require (every (λ i. str_eq i.attempt_id attempt_id) pending_intents) recovery_unverified
  require_unfinished attempt_id row lease pending_intents
  require_unsettled host attempt_id
  current ← recovery_run host row lease locks pending_intents
  write_handoff host seconds row lease locks current

unfoldable pub handoff_stripe_intent_recovery : Host → String → String → Value → Action Owned
handoff_stripe_intent_recovery host attempt_id fence ttl = do
  require (is_safe_id attempt_id && is_fence fence) attempt_input_invalid
  seconds ← require_some (valid_ttl ttl) attempt_input_invalid
  transaction (handoff_attempt host attempt_id fence seconds)
