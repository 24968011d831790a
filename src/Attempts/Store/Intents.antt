-- ===== src/Attempts/Store/Intents.antt =====
-- `beginStripeIntent`, `getStripeIntent`, `listPendingStripeIntents` and `reconcileStripeIntent` of
-- src/attempts/store.mjs.
use billing_validation_contr.Common.{
  ℕ, Bool, true, ◌&&◌, ◌||◌, not, String, str_eq, List, Option, none, some, leb, is_none, every,
}
use billing_validation_contr.Js.{Value, is_safe_id}
use billing_validation_contr.Attempts.Data.{
  recovery_read_only, stripe_intent_invalid, stripe_intent_identity_mismatch,
  stripe_intent_store_unavailable, stripe_intent_unresolved, stripe_intent_missing,
  stripe_intent_already_reconciled, stripe_observation_invalid, stripe_observation_mismatch,
  stripe_reconciliation_window_expired, stripe_reconciliation_unverified, rechecking, Environment,
  Workflow, Attempt, Lease, StripeIntent, StripeReceipt,
}
use billing_validation_contr.Attempts.Same.{same_workflow, same_environment, same_state}
use billing_validation_contr.Attempts.Session.{
  Host, Observation, Action, pure, require, require_some, ask, transaction, ◌>>=◌, ◌>>◌,
}
use billing_validation_contr.Attempts.Postgres.{
  random_uuid, get_stripe_intent_by_operation, get_stripe_intent as read_stripe_intent,
  list_pending_stripe_intents as read_pending, insert_stripe_intent, get_stripe_receipt,
  put_stripe_receipt,
}
use billing_validation_contr.Attempts.Input.{
  IntentRequest, GivenWorkflow, stripe_intent_request, is_fence, snapshot_observation,
}
use billing_validation_contr.Attempts.Store.Owner.{fenced_attempt}
use billing_validation_contr.Attempts.Store.Fenced.{microseconds}

-- `equal(request.workflow, row.workflow)`: a row has its keys in the order of `workflow_keys`.
abbrev pub same_given_workflow : GivenWorkflow → Workflow → Bool
same_given_workflow given w = same_workflow given.workflow w && given.in_order

abbrev pub is_request_for : IntentRequest → Attempt → Bool
is_request_for request row =
    str_eq request.candidate_sha row.candidate_sha
    && same_given_workflow request.workflow row.workflow
    && same_environment request.environment row.environment
    && str_eq request.environment.account_id row.environment.account_id

abbrev pub new_intent : IntentRequest → Attempt → String → ℕ → StripeIntent
new_intent request row id time = record {
  intent_id = id;
  attempt_id = row.attempt_id;
  fence = request.fence;
  account_id = env.account_id;
  candidate_sha = row.candidate_sha;
  workflow = row.workflow;
  environment = row.environment;
  action = request.action;
  operation = request.operation;
  request_digest = request.request_digest;
  idempotency_key = request.idempotency_key;
  created_at = time;
}
  where
    env : Environment
    env = row.environment

unfoldable pub begin_stripe_intent : Host → Value → Action StripeIntent
begin_stripe_intent host input = do
  request ← require_some (stripe_intent_request host input) stripe_intent_invalid
  transaction do
    f ← fenced_attempt host request.attempt_id request.fence
    let row : Attempt = f.row
    let lease : Lease = f.lease
    require (not (same_state row.state rechecking || lease.recovery_only)) recovery_read_only
    require (is_request_for request row) stripe_intent_identity_mismatch
    prior ← get_stripe_intent_by_operation host request.attempt_id request.operation
    require (is_none prior) stripe_intent_unresolved
    id ← random_uuid host
    let intent : StripeIntent = new_intent request row id f.time
    insert_stripe_intent intent
    pure intent

unfoldable pub get_stripe_intent : Host → String → Action (Option StripeIntent)
get_stripe_intent host id = do
  require (is_safe_id id) stripe_intent_invalid
  transaction (read_stripe_intent host id)

-- The stored state is `in_flight` by a constraint, so only the attempt is tested.
unfoldable pub list_pending_stripe_intents : Host → String → String → Action (List StripeIntent)
list_pending_stripe_intents host attempt_id fence = do
  require (is_safe_id attempt_id && is_fence fence) stripe_intent_invalid
  transaction do
    f ← fenced_attempt host attempt_id fence
    pending ← read_pending host attempt_id
    require (every (λ i. str_eq i.attempt_id attempt_id) pending) stripe_intent_store_unavailable
    pure pending

abbrev is_clock_open : Option (String × ℕ) → ℕ → Bool
is_clock_open none time = true
is_clock_open (some (id, deletes_after)) time = not (leb (microseconds deletes_after) time)

unfoldable pub assert_intent_observation : StripeIntent → Observation → ℕ → Action (Unit {0})
assert_intent_observation intent observation time = do
  require
      (str_eq observation.account_id intent.account_id
        && str_eq observation.operation intent.operation
        && str_eq observation.request_digest intent.request_digest
        && str_eq observation.idempotency_key intent.idempotency_key)
      stripe_observation_mismatch
  require (is_clock_open observation.test_clock time) stripe_reconciliation_window_expired

-- `verifyObservation`.
unfoldable pub ask_observation : Host → StripeIntent → Observation → Action Bool
ask_observation host intent observation s =
    ask (host.verify_observation s.ticks intent observation) s

abbrev pub new_stripe_receipt :
    Host → StripeIntent → Observation → String → String → String → String → ℕ → StripeReceipt
new_stripe_receipt host intent observation attempt_id fence intent_id id time = record {
  receipt_id = id;
  intent_id = intent_id;
  attempt_id = attempt_id;
  fence = fence;
  account_id = intent.account_id;
  operation = intent.operation;
  request_digest = intent.request_digest;
  idempotency_key = intent.idempotency_key;
  observation_digest = host.observation_digest observation;
  resource_ids = observation.resource_ids;
  observed_at = time;
}

unfoldable pub reconcile_stripe_intent :
    Host → String → String → String → Value → Action StripeReceipt
reconcile_stripe_intent host attempt_id fence intent_id raw = do
  require (is_safe_id attempt_id && is_safe_id intent_id) stripe_intent_invalid
  observation ← require_some (snapshot_observation raw) stripe_observation_invalid
  transaction do
    f ← fenced_attempt host attempt_id fence
    let row : Attempt = f.row
    found ← read_stripe_intent host intent_id
    intent ← require_some found stripe_intent_missing
    require (str_eq intent.attempt_id attempt_id) stripe_intent_missing
    require (not (same_state row.state rechecking && str_eq intent.fence fence)) recovery_read_only
    prior ← get_stripe_receipt intent_id
    require (is_none prior) stripe_intent_already_reconciled
    assert_intent_observation intent observation f.time
    verified ← ask_observation host intent observation
    require verified stripe_reconciliation_unverified
    id ← random_uuid host
    let receipt : StripeReceipt =
        new_stripe_receipt host intent observation attempt_id fence intent_id id f.time
    put_stripe_receipt receipt
    pure receipt
