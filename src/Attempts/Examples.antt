-- ===== src/Attempts/Examples.antt =====
-- Concrete inputs for the witnesses and tests: a host, the requests of an attempt, and the sessions
-- that some calls leave.
use billing_validation_contr.Common.{
  ℕ, ◌+◌, ◌*◌, Bool, true, false, ◌≡◌, String, [], Option, none, some,
}
use billing_validation_contr.Js.{
  Value, undefined, number, text, object, plain, Props, end, field, boolean, array, nil, cons,
}
use billing_validation_contr.Attempts.Data.{
  Scope, catalog, KeyOrder, written, reordered, Environment,
}
use billing_validation_contr.Attempts.Session.{Session, Host, answered, Reply, done, refused}
use billing_validation_contr.Attempts.Input.{FixtureRequest}
use billing_validation_contr.Attempts.Store.Prepare.{prepare}
use billing_validation_contr.Attempts.Opened.{runs}

-- A second passes between two readings of the clock.
abbrev host_with : (KeyOrder → KeyOrder) → Host
host_with order = record {
  clock = λ n. 1000000000 + n * 1000000;
  uuid = λ n. "id-1";
  sha256 = λ s. "0000000000000000000000000000000000000000000000000000000000000000";
  projection_digest = λ p. "1111111111111111111111111111111111111111111111111111111111111111";
  snapshot_digest = λ p. "2222222222222222222222222222222222222222222222222222222222222222";
  observation_digest = λ o. "3333333333333333333333333333333333333333333333333333333333333333";
  parse_url = λ s. some (record {
    protocol = "https:";
    origin = "https://candidate.vercel.app";
    hostname = "candidate.vercel.app";
  });
  jsonb_order = order;
  verify_recovery = λ n q. answered (
      some (record {
        run_terminal = true;
        runner_removed = true;
        cleanup_complete = true;
        current_run = undefined;
      }));
  verify_cleanup = λ n row lease r p d. answered true;
  verify_receipt = λ n r lease late o u. answered true;
  verify_observation = λ n i o. answered true;
}

-- A database whose `jsonb` columns keep the order of keys, and one whose columns do not.
abbrev pub host : Host
host = host_with (λ o. o)

abbrev pub sorting_host : Host
sorting_host = host_with (λ o. reordered)

abbrev pub environment : Environment
environment = record {
  project_ref = "abcdefghijklmnopqrst";
  deployment_id = "dpl_candidate123";
  deployment_origin = "https://candidate.vercel.app";
  account_id = "acct_synthetic123";
  order = written;
}

abbrev entry : String → Value → Props → Props
entry name value rest = field name true value rest

abbrev usage_value : ℕ → ℕ → ℕ → ℕ → Value
usage_value a d u s = object plain (
    entry "attempts" (number a) (
      entry "databaseRows" (number d)
        (entry "authUsers" (number u) (entry "stripeObjects" (number s) end))))

abbrev workflow_value : String → Value
workflow_value run_id = object plain (
    entry "repository" (text "lawx-ai/billing-validation-control") (
      entry "ref" (text "refs/heads/main") (
        entry "runId" (text run_id) (
          entry "runAttempt" (number 1) (
            entry "runnerLabel" (text "billing-validation-aaaaaaaaaaaaaaaaaaaaaaaaaaaaaaaa")
              end)))))

abbrev environment_value : Value
environment_value = object plain (
    entry "database" (object plain (entry "projectRef" (text "abcdefghijklmnopqrst") end)) (
      entry "deployment"
        (object plain (
          entry "id" (text "dpl_candidate123")
            (entry "origin" (text "https://candidate.vercel.app") end)))
        (entry "stripe" (object plain (entry "accountId" (text "acct_synthetic123") end)) end)))

abbrev key_value : Value
key_value = object plain (
    entry "projectRef" (text "abcdefghijklmnopqrst")
      (entry "suite" (text "billing") (entry "fixtureKey" (text "invoice-a") end)))

abbrev input_with : String → Value → Value → Value
input_with attempt_id key projection = object plain (
    entry "attemptId" (text attempt_id) (
      entry "key" key (
        entry "candidateSha" (text "aaaaaaaaaaaaaaaaaaaaaaaaaaaaaaaaaaaaaaaa") (
          entry "workflow" (workflow_value "100") (
            entry "environment" environment_value (
              entry "ttlSeconds" (number 60) (
                entry "retentionPolicy"
                  (object plain
                    (entry "version" (number 1) (entry "quotas" (usage_value 20 200 20 200) end)))
                  (entry "projection" projection end))))))))

abbrev pub input : Value
input = input_with "attempt-a" key_value (usage_value 1 10 1 10)

abbrev pub empty : Session
empty = record {
  tables = record {
    attempts = [];
    leases = [];
    history = [];
    locks = [];
    reservations = [];
    receipts = [];
    intents = [];
    stripe_receipts = [];
    cleanup_receipts = [];
    case_claims = [];
    fixture_claims = [];
    rows_events = [];
  };
  ticks = 0;
  draws = 0;
  sequence = 0;
  held = [];
}

abbrev pub session_of {ℓ} : {A : Type ℓ} → Reply A → Session
session_of (done a s) = s
session_of (refused c s) = s

abbrev pub is_done {ℓ} : {A : Type ℓ} → Reply A → Bool
is_done (done a s) = true
is_done (refused c s) = false

abbrev pub done_of {ℓ} : {A : Type ℓ} (r : Reply A) → is_done r ≡ true → A
done_of (done a s) h = a
done_of (refused c s) h = absurd cc

abbrev pub is_found {ℓ} : {A : Type ℓ} → Option A → Bool
is_found none = false
is_found (some a) = true

abbrev pub value_of {ℓ} : {A : Type ℓ} (o : Option A) → is_found o ≡ true → A
value_of none h = absurd cc
value_of (some a) h = a

abbrev pub attempt_a : String
attempt_a = "attempt-a"

abbrev pub scope : Scope
scope = record { project_ref = "abcdefghijklmnopqrst"; account_id = "acct_synthetic123" }

abbrev pub zeros : String
zeros = "0000000000000000000000000000000000000000000000000000000000000000"

abbrev pub fence : String
fence = "00000000-0000-4000-8000-000000000001"

abbrev pub intent_value : Value
intent_value = object plain (
    entry "attemptId" (text "attempt-a") (
      entry "fence" (text fence) (
        entry "candidateSha" (text "aaaaaaaaaaaaaaaaaaaaaaaaaaaaaaaaaaaaaaaa") (
          entry "workflow" (workflow_value "100") (
            entry "environment" environment_value (
              entry "action" (text "subscription.cancel") (
                entry "operation" (text "cancel-1") (
                  entry "requestDigest" (text zeros)
                    (entry "idempotencyKey" (text intent_key) end)))))))))
  where
    intent_key : String
    intent_key =
        "billing-validation-0000000000000000000000000000000000000000000000000000000000000000"

abbrev pub observation_value : Value
observation_value = object plain (
    entry "accountId" (text "acct_synthetic123") (
      entry "livemode" (boolean false) (
        entry "operation" (text "cancel-1") (
          entry "requestDigest" (text zeros) (
            entry "idempotencyKey"
              (text
                "billing-validation-0000000000000000000000000000000000000000000000000000000000000000")
              (entry "resourceIds" (array (cons (text "sub_a1") nil)) end))))))

abbrev pub projection_value : Value
projection_value = object plain (
    entry "cleanupClaim" (text "owned_reversible_provider_fixtures_only") (
      entry "databaseBaselineDigest" (text zeros) (
        entry "mutatedResourceIds" (array (cons (text "sub_a1") nil)) (
          entry "retainedDatabaseResources" (array nil) (
            entry "retainedObjects" (array nil)
              (entry "removedDatabaseFixtureCount" (number 0) end))))))

abbrev pub terminal_value : Value
terminal_value = object plain (
    entry "reservationId" (text "id-1")
      (entry "outcome" (text "completed") (entry "retained" (usage_value 1 4 0 3) end)))

abbrev pub fixture : FixtureRequest
fixture = record {
  attempt_id = "attempt-a";
  fence = fence;
  reservation_id = "id-1";
  rows = 4;
  case_id = "case-1";
  namespace_id = "11111111-1111-4111-8111-111111111111";
  fixture_id = "22222222-2222-4222-8222-222222222222";
  kind = catalog;
}

-- The session after the admission of `attempt-a`.
unfoldable pub admitted : Session
unfolding runs
admitted = session_of (prepare host environment input empty)
