-- ===== src/Attempts/Input/Requests.antt =====
-- `terminalRequest`, `stripeIntentRequest`, the requests of `prepare` and
-- `fixtureMutationWithReservation` of src/attempts/store.mjs, and `providerIdempotencyKey` of
-- src/attempts/prepare.mjs.
use billing_validation_contr.Common.{
  ℕ, Bool, ◌&&◌, ◌||◌, String, str_eq, str_append, List, [], ◌∷◌, Option, none, some, leb, nat_eq,
  if◌then◌else◌, codes, run_of, is_digit, includes,
}
use billing_validation_contr.Js.{
  Value, text, own_data_value, exact_data_record, data_record, is_safe_id, is_hex_run, is_uuid_v4,
  safe_count, safe_text, valid_ttl,
}
use billing_validation_contr.Attempts.Data.{
  Workflow, Environment, Usage, Outcome, completed, failed, StripeAction, checkout_replay,
  checkout_session_expire, subscription_cancel, FixtureKind, catalog, billing_identity,
}
use billing_validation_contr.Attempts.Session.{Host}
use billing_validation_contr.Attempts.Input.Fields.{
  ◌>>=◌, ◌>>◌, check, snapshot_workflow, GivenWorkflow, given_workflow, snapshot_environment,
  snapshot_usage, validate_retention_configuration, Retention, GivenKey, valid_key,
}

pub record PrepareInput : Type 0 where
  pub retention : Retention
  pub attempt_id : String
  pub key : GivenKey
  pub candidate_sha : String
  pub workflow : Workflow
  pub environment : Environment
  pub ttl_seconds : ℕ

abbrev hex_text_of : ℕ → Value → Option String
hex_text_of n (text s) = if is_hex_run n s then some s else none
hex_text_of n _ = none

-- The identity fields of `prepare`; `expected` is the environment that the adapter is bound to.
unfoldable pub attempt_input : Host → Environment → Retention → Value → Option PrepareInput
unfolding own_data_value snapshot_workflow snapshot_environment valid_key
attempt_input host expected retention input = do
  workflow ← snapshot_workflow (own_data_value input "workflow")
  environment ← snapshot_environment host (own_data_value input "environment")
  attempt_id ← safe_text (own_data_value input "attemptId")
  key ← valid_key (own_data_value input "key")
  sha ← hex_text_of 40 (own_data_value input "candidateSha")
  ttl ← valid_ttl (own_data_value input "ttlSeconds")
  check (str_eq key.key.project_ref environment.project_ref)
  check (
      str_eq environment.project_ref expected.project_ref
      && str_eq environment.deployment_id expected.deployment_id
      && str_eq environment.deployment_origin expected.deployment_origin
      && str_eq environment.account_id expected.account_id)
  some (record {
    retention = retention;
    attempt_id = attempt_id;
    key = key;
    candidate_sha = sha;
    workflow = workflow;
    environment = environment;
    ttl_seconds = ttl;
  })

unfoldable pub retention_input : Value → Option Retention
unfolding own_data_value validate_retention_configuration
retention_input input =
    validate_retention_configuration (own_data_value input "retentionPolicy")
      (own_data_value input "projection")

pub record TerminalRequest : Type 0 where
  pub reservation_id : String
  pub outcome : Outcome
  pub retained : Usage

unfoldable pub parse_outcome : String → Option Outcome
parse_outcome s =
    if str_eq s "completed"
    then some completed
    else if str_eq s "failed"
    then some failed
    else if str_eq s "cancelled"
    then some Outcome.cancelled
    else if str_eq s "timed_out"
    then some Outcome.timed_out
    else none

abbrev terminal_fields : List Value → Option TerminalRequest
terminal_fields (id ∷ text outcome ∷ retained ∷ []) = do
  usage ← snapshot_usage retained
  reservation_id ← safe_text id
  o ← parse_outcome outcome
  check (nat_eq usage.attempts 1)
  some (record { reservation_id = reservation_id; outcome = o; retained = usage })
terminal_fields _ = none

unfoldable pub terminal_request : Value → Option TerminalRequest
unfolding data_record snapshot_usage parse_outcome
terminal_request input = do
  fields ← data_record input ("reservationId" ∷ "outcome" ∷ "retained" ∷ [])
  terminal_fields fields

-- `JSON.stringify([a, b, c])` of three safe identifiers, which need no escapes.
abbrev json_texts : String → String → String → String
json_texts a b c =
    str_append "[\""
      (str_append a (str_append "\",\"" (str_append b (str_append "\",\"" (str_append c "\"]")))))

unfoldable pub provider_idempotency_key : Host → String → String → String → Option String
provider_idempotency_key host attempt_id provider operation = do
  check (is_safe_id attempt_id && is_safe_id provider && is_safe_id operation)
  some (str_append "billing-validation-" (host.sha256 (json_texts attempt_id provider operation)))

-- /^[0-9a-f-]{36}$/i
abbrev is_fence_char : ℕ → Bool
is_fence_char c =
    is_digit c || (leb b'a' c && leb c b'f') || (leb b'A' c && leb c b'F') || nat_eq c b'-'

unfoldable pub is_fence : String → Bool
is_fence s = run_of is_fence_char 36 36 (codes s)

pub record IntentRequest : Type 0 where
  pub attempt_id : String
  pub fence : String
  pub candidate_sha : String
  pub workflow : GivenWorkflow
  pub environment : Environment
  pub action : StripeAction
  pub operation : String
  pub request_digest : String
  pub idempotency_key : String

unfoldable pub parse_action : String → Option StripeAction
parse_action s =
    if str_eq s "checkout.replay"
    then some checkout_replay
    else if str_eq s "checkout_session.expire"
    then some checkout_session_expire
    else if str_eq s "subscription.cancel"
    then some subscription_cancel
    else none

abbrev intent_fields : Host → List Value → Option IntentRequest
intent_fields host
      (id
        ∷ text fence
        ∷ sha
        ∷ workflow
        ∷ environment
        ∷ text action
        ∷ operation
        ∷ digest
        ∷ text key
        ∷ []) =
    do
      attempt_id ← safe_text id
      check (is_fence fence)
      candidate_sha ← hex_text_of 40 sha
      w ← given_workflow workflow
      e ← snapshot_environment host environment
      a ← parse_action action
      op ← safe_text operation
      d ← hex_text_of 64 digest
      expected ← provider_idempotency_key host attempt_id "stripe" op
      check (str_eq key expected)
      some (record {
        attempt_id = attempt_id;
        fence = fence;
        candidate_sha = candidate_sha;
        workflow = w;
        environment = e;
        action = a;
        operation = op;
        request_digest = d;
        idempotency_key = key;
      })
intent_fields host _ = none

unfoldable pub stripe_intent_request : Host → Value → Option IntentRequest
unfolding exact_data_record given_workflow snapshot_environment parse_action is_fence
    provider_idempotency_key
stripe_intent_request host input = do
  fields ← exact_data_record input (
      "attemptId" ∷ "fence" ∷ "candidateSha" ∷ "workflow" ∷ "environment" ∷ "action" ∷ "operation"
      ∷ "requestDigest" ∷ "idempotencyKey" ∷ [])
  intent_fields host fields

pub record FixtureRequest : Type 0 where
  pub attempt_id : String
  pub fence : String
  pub reservation_id : String
  pub rows : ℕ
  pub case_id : String
  pub namespace_id : String
  pub fixture_id : String
  pub kind : FixtureKind

unfoldable pub parse_kind : String → Option FixtureKind
parse_kind s =
    if str_eq s "catalog"
    then some catalog
    else if str_eq s "billing_identity"
    then some billing_identity
    else none

abbrev uuid_text : Value → Option String
uuid_text (text s) = if is_uuid_v4 s then some s else none
uuid_text _ = none

abbrev one_count : List Value → Option ℕ
one_count (n ∷ []) = safe_count 1 n
one_count _ = none

abbrev fixture_fields : List String → List Value → Option FixtureRequest
fixture_fields cases
      (id ∷ text fence ∷ reservation ∷ rows ∷ text case_id ∷ namespace ∷ fixture ∷ text kind ∷ []) =
    do
      requested ← exact_data_record rows ("databaseRows" ∷ [])
      attempt_id ← safe_text id
      check (is_fence fence)
      reservation_id ← safe_text reservation
      check (includes cases case_id)
      namespace_id ← uuid_text namespace
      fixture_id ← uuid_text fixture
      k ← parse_kind kind
      n ← one_count requested
      some (record {
        attempt_id = attempt_id;
        fence = fence;
        reservation_id = reservation_id;
        rows = n;
        case_id = case_id;
        namespace_id = namespace_id;
        fixture_id = fixture_id;
        kind = k;
      })
fixture_fields cases _ = none

unfoldable pub fixture_request : List String → Value → Option FixtureRequest
unfolding exact_data_record is_fence is_uuid_v4 parse_kind
fixture_request cases request = do
  fields ← exact_data_record request (
      "attemptId" ∷ "fence" ∷ "reservationId" ∷ "rows" ∷ "caseId" ∷ "namespaceId" ∷ "fixtureId"
      ∷ "kind" ∷ [])
  fixture_fields cases fields
