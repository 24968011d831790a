-- ===== src/Attempts/Store/Lock.antt =====
-- `withStripeIntent` and `withExternalFence` of src/attempts/lock.mjs. What `beginStripeIntent` returns
-- has its state and a text for an identifier, so the test of the stored intent passes.
use billing_validation_contr.Common.{
  Bool, true, false, ◌&&◌, not, String, str_eq, codes, is_hex, prefixed_run, nat_eq,
}
use billing_validation_contr.Js.{
  Value, undefined, null, boolean, number, text, object, plain, field, end, is_safe_id, is_hex_run,
}
use billing_validation_contr.Attempts.Data.{
  stripe_intent_invalid, stripe_mutation_ambiguous, StripeIntent,
}
use billing_validation_contr.Attempts.Session.{
  Host, Answer, thrown, answered, Action, pure, refuse, require, ◌>>=◌, ◌>>◌,
}
use billing_validation_contr.Attempts.Store.Fenced.{assert_fence}
use billing_validation_contr.Attempts.Store.Intents.{begin_stripe_intent}

pub record IntentOwner : Type 0 where
  pub attempt_id : Value
  pub fence : Value
  pub candidate_sha : Value
  pub workflow : Value
  pub environment : Value

pub record GivenIntent : Type 0 where
  pub action : Value
  pub operation : Value
  pub request_digest : Value
  pub idempotency_key : Value

abbrev is_text : Value → Bool
is_text (text s) = true
is_text _ = false

abbrev is_text_that : (String → Bool) → Value → Bool
is_text_that p (text s) = p s
is_text_that p _ = false

-- Truth of a value that is no number, or a natural one.
abbrev is_truthy : Value → Bool
is_truthy undefined = false
is_truthy null = false
is_truthy (boolean b) = b
is_truthy (number n) = not (nat_eq n 0)
is_truthy (text s) = not (str_eq s "")
is_truthy _ = true

abbrev is_intent_key : String → Bool
is_intent_key s = prefixed_run (codes "billing-validation-") is_hex 64 64 (codes s)

unfoldable pub valid_intent_call : IntentOwner → GivenIntent → Bool
valid_intent_call owner intent =
    is_text owner.attempt_id
    && is_text owner.fence
    && is_text owner.candidate_sha
    && is_truthy owner.workflow
    && is_truthy owner.environment
    && is_text intent.action
    && is_text_that is_safe_id intent.operation
    && is_text_that (is_hex_run 64) intent.request_digest
    && is_text_that is_intent_key intent.idempotency_key

abbrev pub begin_request : IntentOwner → GivenIntent → Value
begin_request owner intent = object plain (
    field "attemptId" true owner.attempt_id (
      field "fence" true owner.fence (
        field "candidateSha" true owner.candidate_sha (
          field "workflow" true owner.workflow (
            field "environment" true owner.environment (
              field "action" true intent.action (
                field "operation" true intent.operation (
                  field "requestDigest" true intent.request_digest
                    (field "idempotencyKey" true intent.idempotency_key end)))))))))

-- The adapter is called after the intent's transaction, with the stored intent.
abbrev after_adapter : StripeIntent → Answer (Unit {0}) → Action StripeIntent
after_adapter stored thrown = refuse stripe_mutation_ambiguous
after_adapter stored (answered x) = pure stored

unfoldable pub with_stripe_intent :
    Host → IntentOwner → GivenIntent → (StripeIntent → Answer (Unit {0})) → Action StripeIntent
with_stripe_intent host owner intent invoke_adapter = do
  require (valid_intent_call owner intent) stripe_intent_invalid
  stored ← begin_stripe_intent host (begin_request owner intent)
  after_adapter stored (invoke_adapter stored)

unfoldable pub with_external_fence : {A : Type 0} → Host → String → String → Action A → Action A
with_external_fence host attempt_id fence mutation =
    assert_fence host attempt_id fence >>= λ owned. mutation
