-- ===== src/Attempts/Store/Recheck.antt =====
-- `resumeRecheck` of src/attempts/store.mjs, and `createSnapshot` and `verifyRecheckSnapshot` of
-- src/contracts/attempt.mjs. A snapshot is compared through `canonical`, which sorts keys, so a
-- value that passes has the fields of `Snapshot` and no other. The artifact that a caller hands
-- back has its keys in the order in which the store gave it out.
use billing_validation_contr.Common.{
  ℕ, ◌+◌, Bool, true, false, ◌&&◌, not, String, str_eq, List, [], Option, none, some, leb, nat_eq,
  codes, same_texts,
}
use billing_validation_contr.Js.{Value, is_hex_run, is_uuid_v4, max_safe_integer, valid_ttl}
use billing_validation_contr.Attempts.Data.{
  attempt_input_invalid, invalid_transition, lease_fence_lost, recovery_unverified,
  lease_fence_store_unavailable, artifact_identity_mismatch, recheck_identity_mismatch, collected,
  rechecking, pending, cleaned, recheck_handoff, CleanupStatus, Environment, Workflow, Artifact,
  Attempt, Lease, ResourceLock, Snapshot,
}
use billing_validation_contr.Attempts.Same.{same_key, same_workflow, same_environment, same_state}
use billing_validation_contr.Attempts.Session.{
  Host, resume_mode, Action, pure, require, require_some, transaction, ◌>>=◌, ◌>>◌,
}
use billing_validation_contr.Attempts.Postgres.{
  now, next_fence, lock_attempt, get_attempt, put_attempt, lock_resource_locks, get_resource_locks,
  put_resource_locks, get_lease, put_lease, has_in_flight_stripe_intent,
}
use billing_validation_contr.Attempts.Input.{
  is_run_id, is_artifact_id, valid_workflow, valid_environment, valid_resource_ids,
}
use billing_validation_contr.Attempts.Store.Owner.{assert_resource_owner}
use billing_validation_contr.Attempts.Store.Fenced.{microseconds}
use billing_validation_contr.Attempts.Store.Takeover.{ask_recovery}

pub record RecheckRun : Type 0 where
  pub repository : String
  pub ref : String
  pub run_id : String
  pub run_attempt : ℕ

pub record RecheckInput : Type 0 where
  pub attempt_id : String
  pub artifact : Option Artifact
  pub snapshot : Snapshot
  pub artifact_id : String
  pub artifact_digest : String
  pub workflow : Workflow
  pub environment : Environment
  pub candidate_sha : String
  pub current_head_sha : String
  pub recheck_run : RecheckRun
  pub ttl : Value

-- `project`.
abbrev pub project : Attempt → String → Snapshot
project row artifact_id = record {
  artifact_id = artifact_id;
  attempt_id = row.attempt_id;
  key = row.key;
  candidate_sha = row.candidate_sha;
  workflow = row.workflow;
  environment = row.environment;
  state = row.state;
  cleanup_status = row.cleanup_status;
  resource_ids = row.resource_ids;
}

abbrev same_status : CleanupStatus → CleanupStatus → Bool
same_status pending pending = true
same_status cleaned cleaned = true
same_status _ _ = false

-- `same` on environments, through `canonical`.
unfoldable pub same_identity : Environment → Environment → Bool
same_identity a b =
    str_eq a.project_ref b.project_ref
    && str_eq a.deployment_id b.deployment_id
    && str_eq a.deployment_origin b.deployment_origin
    && str_eq a.account_id b.account_id

unfoldable pub same_snapshot : Snapshot → Snapshot → Bool
unfolding same_identity
same_snapshot a b =
    str_eq a.artifact_id b.artifact_id
    && str_eq a.attempt_id b.attempt_id
    && same_key a.key b.key
    && str_eq a.candidate_sha b.candidate_sha
    && same_workflow a.workflow b.workflow
    && same_identity a.environment b.environment
    && same_state a.state b.state
    && same_status a.cleanup_status b.cleanup_status
    && same_texts a.resource_ids b.resource_ids

-- The tests of `createSnapshot`, on a row of the store.
unfoldable pub may_seal : Host → Attempt → String → Bool
may_seal host row artifact_id =
    valid_workflow row.workflow
    && valid_environment host row.environment
    && is_hex_run 40 row.candidate_sha
    && valid_resource_ids row.resource_ids
    && is_artifact_id (codes artifact_id)

abbrev is_artifact_of : RecheckInput → Option Artifact → Bool
is_artifact_of input none = false
is_artifact_of input (some a) =
    str_eq a.id input.artifact_id && str_eq a.digest input.artifact_digest

unfoldable pub verify_recheck_snapshot : Host → Attempt → RecheckInput → Bool
unfolding same_identity same_snapshot may_seal
verify_recheck_snapshot host row input =
    str_eq input.candidate_sha input.current_head_sha
    && same_workflow input.workflow row.workflow
    && same_identity input.environment row.environment
    && str_eq input.candidate_sha row.candidate_sha
    && str_eq snapshot.artifact_id input.artifact_id
    && same_snapshot snapshot (project row input.artifact_id)
    && may_seal host row input.artifact_id
    && str_eq (host.snapshot_digest (project row input.artifact_id)) input.artifact_digest
    && is_artifact_of input row.artifact
  where
    snapshot : Snapshot
    snapshot = input.snapshot

abbrev is_recheck_run : Workflow → RecheckRun → Bool
is_recheck_run w run =
    str_eq run.repository w.repository
    && str_eq run.ref w.ref
    && is_run_id run.run_id
    && leb run.run_attempt max_safe_integer
    && leb 1 run.run_attempt
    && not (str_eq run.run_id w.run_id)

abbrev same_days : Option ℕ → Option ℕ → Bool
same_days none none = true
same_days (some a) (some b) = nat_eq a b
same_days _ _ = false

abbrev same_artifact : Option Artifact → Option Artifact → Bool
same_artifact none none = true
same_artifact (some a) (some b) =
    str_eq a.id b.id && str_eq a.digest b.digest && same_days a.retention_days b.retention_days
same_artifact _ _ = false

abbrev is_same_identity : Attempt → RecheckInput → Bool
is_same_identity row input =
    same_workflow row.workflow input.workflow
    && same_environment row.environment input.environment
    && str_eq row.candidate_sha input.candidate_sha
    && str_eq input.current_head_sha input.candidate_sha
    && same_artifact row.artifact input.artifact

abbrev recheck_workflow : Workflow → RecheckRun → Workflow
recheck_workflow w run = record w { run_id = run.run_id; run_attempt = run.run_attempt }

-- The writes of the handoff to the recheck run, under a new fence.
unfoldable pub write_recheck :
    RecheckInput → ℕ → ℕ → Attempt → Lease → List ResourceLock → Action (Attempt × String)
write_recheck input seconds time row lease locks = do
  fence ← next_fence
  require (is_uuid_v4 fence) lease_fence_store_unavailable
  let run : RecheckRun = input.recheck_run
  let until : ℕ = time + microseconds seconds
  put_lease
      (record lease {
        fence = fence;
        expires_at = until;
        candidate_sha = input.candidate_sha;
        owner_repository = run.repository;
        owner_ref = run.ref;
        owner_run_id = run.run_id;
        owner_run_attempt = run.run_attempt;
      })
      (some lease.fence) recheck_handoff
  put_resource_locks
      (record {
        attempt_id = input.attempt_id;
        fence = fence;
        candidate_sha = row.candidate_sha;
        workflow = recheck_workflow row.workflow run;
        environment = row.environment;
        expires_at = until;
      })
      locks
  let changed : Attempt = record row { state = rechecking; updated_at = time }
  put_attempt changed
  pure (changed, fence)

unfoldable pub resume_recheck : Host → RecheckInput → Action (Attempt × String)
resume_recheck host input = transaction do
  lock_attempt input.attempt_id
  found ← get_attempt input.attempt_id
  row ← require_some found invalid_transition
  require (same_state row.state collected) invalid_transition
  lock_resource_locks row.environment
  held ← get_lease row.key
  time ← now host
  lease ← require_some held lease_fence_lost
  require (str_eq lease.attempt_id input.attempt_id) lease_fence_lost
  locks ← get_resource_locks host row.environment
  assert_resource_owner locks row lease input.attempt_id lease.fence
  in_flight ← has_in_flight_stripe_intent input.attempt_id
  require (not in_flight) recovery_unverified
  answer ← λ s.
      ask_recovery
        (host.verify_recovery s.ticks
          (record { mode = resume_mode; prior = row; lease = lease; locks = []; pending = [] }))
        s
  recovery ← require_some answer recovery_unverified
  require (recovery.run_terminal && recovery.runner_removed) recovery_unverified
  require (verify_recheck_snapshot host row input) artifact_identity_mismatch
  require (is_recheck_run row.workflow input.recheck_run) recheck_identity_mismatch
  require (is_same_identity row input) recheck_identity_mismatch
  seconds ← require_some (valid_ttl input.ttl) attempt_input_invalid
  write_recheck input seconds time row lease locks
