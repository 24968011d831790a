-- ===== src/Attempts/Input/Observed.antt =====
-- `validResourceIds` and `validArtifact` of src/contracts/attempt.mjs, and `snapshotObservation`,
-- `snapshotStripeResourceIds`, `assertIntentObservation` and `snapshotCleanupProjection` of
-- src/attempts/store.mjs.
use billing_validation_contr.Common.{
  ℕ, Bool, true, false, ◌&&◌, ◌||◌, not, String, str_eq, List, [], ◌∷◌, ◌++◌, map, Option, none,
  some, leb, nat_eq, if◌then◌else◌, length, every, some_of, codes, includes, is_alnum, is_word,
  prefixed_run, has_prefix, to_lower, same_codes,
}
use billing_validation_contr.Js.{
  Value, boolean, text, number, array, object, Values, nil, cons, own_keys, exact_data_record,
  is_hex_run, safe_count, safe_text,
}
use billing_validation_contr.Attempts.Data.{Artifact, Projection, RetainedObject}
use billing_validation_contr.Attempts.Session.{Observation}
use billing_validation_contr.Attempts.Input.Fields.{◌>>=◌, ◌>>◌, check, prefixed_nonempty}

abbrev id_prefixes : List String
id_prefixes =
    "cus_" ∷ "in_" ∷ "pi_" ∷ "sub_" ∷ "price_" ∷ "prod_" ∷ "evt_" ∷ "ch_" ∷ "re_" ∷ "pm_" ∷ "seti_"
    ∷ "cs_" ∷ []

-- The texts between underscores.
abbrev segments : List ℕ → List ℕ → List (List ℕ)
segments current [] = current ∷ []
segments current (c ∷ s) =
    if nat_eq c b'_' then current ∷ segments [] s else segments (current ++ to_lower c ∷ []) s

-- /(?:^|_)secret(?:_|$)/i
abbrev has_secret_segment : String → Bool
has_secret_segment s = some_of (same_codes (codes "secret")) (segments [] (codes s))

-- /^(?:cus|in|...|cs)_[A-Za-z0-9_]{1,120}$/ without a `secret` segment.
unfoldable pub is_resource_id : String → Bool
is_resource_id s =
    some_of (λ p. prefixed_run (codes p) is_word 1 120 (codes s)) id_prefixes
    && not (has_secret_segment s)

unfoldable pub valid_resource_ids : List String → Bool
unfolding is_resource_id
valid_resource_ids ids = leb (length ids) 100 && every is_resource_id ids

abbrev is_artifact_char : ℕ → Bool
is_artifact_char c = is_word c || nat_eq c b'-'

abbrev is_two_days : Option ℕ → Bool
is_two_days none = true
is_two_days (some n) = nat_eq n 2

abbrev pub is_artifact_id : List ℕ → Bool
is_artifact_id s = leb 2 (length s) && leb (length s) 128 && every is_artifact_char s

unfoldable pub valid_artifact : Artifact → Bool
valid_artifact a =
    is_artifact_id (codes a.id) && is_hex_run 64 a.digest && is_two_days a.retention_days

-- `new Set(xs).size === xs.length`.
abbrev pub all_distinct : List String → Bool
all_distinct [] = true
all_distinct (x ∷ xs) = not (includes xs x) && all_distinct xs

abbrev text_items : Values → Option (List String)
text_items nil = some []
text_items (cons (text s) vs) = do rest ← text_items vs; some (s ∷ rest)
text_items (cons _ vs) = none

unfoldable pub snapshot_stripe_resource_ids : Value → Option (List String)
unfolding valid_resource_ids
snapshot_stripe_resource_ids (array vs) = do
  ids ← text_items vs
  check (valid_resource_ids ids)
  some ids
snapshot_stripe_resource_ids _ = none

abbrev has_test_clock : Value → Bool
has_test_clock (object proto ps) = some_of is_test_clock (own_keys ps)
  where
    is_test_clock : Option String → Bool
    is_test_clock none = false
    is_test_clock (some k) = str_eq k "testClock"
has_test_clock _ = false

abbrev clock_fields : List Value → Option (String × ℕ)
clock_fields (text id ∷ deletes_after ∷ []) = do
  check (prefixed_nonempty "clock_" is_alnum id)
  n ← safe_count 1 deletes_after
  some (id, n)
clock_fields _ = none

abbrev observed_clock : List Value → Option (Option (String × ℕ))
observed_clock [] = some none
observed_clock (value ∷ []) = do
  fields ← exact_data_record value ("id" ∷ "deletes_after" ∷ [])
  clock ← clock_fields fields
  some (some clock)
observed_clock _ = none

abbrev observation_fields : List Value → Option Observation
observation_fields
      (text account
        ∷ boolean livemode
        ∷ operation
        ∷ text digest
        ∷ text key
        ∷ resource_ids
        ∷ clock) =
    do
      check (not livemode)
      op ← safe_text operation
      check (is_hex_run 64 digest)
      ids ← snapshot_stripe_resource_ids resource_ids
      check (leb 1 (length ids) && all_distinct ids)
      test_clock ← observed_clock clock
      some (record {
        account_id = account;
        operation = op;
        request_digest = digest;
        idempotency_key = key;
        resource_ids = ids;
        test_clock = test_clock;
      })
observation_fields _ = none

abbrev observation_keys : List String
observation_keys =
    "accountId" ∷ "livemode" ∷ "operation" ∷ "requestDigest" ∷ "idempotencyKey" ∷ "resourceIds" ∷ []

unfoldable pub snapshot_observation : Value → Option Observation
unfolding exact_data_record snapshot_stripe_resource_ids
snapshot_observation value = do
  fields ←
      exact_data_record value
        (if has_test_clock value then observation_keys ++ "testClock" ∷ [] else observation_keys)
  observation_fields fields

abbrev allowed_statuses : String → List String
allowed_statuses type =
    if str_eq type "customer"
    then "retained_test_customer" ∷ []
    else if str_eq type "checkout_session"
    then "expired_test_checkout_session" ∷ "completed_test_checkout_session" ∷ []
    else if str_eq type "subscription"
    then "retained_test_subscription" ∷ "canceled_test_subscription" ∷ []
    else if includes ("payment_intent" ∷ "invoice" ∷ "charge" ∷ "setup_intent" ∷ "event" ∷ []) type
    then "retained_test_financial_object" ∷ []
    else []

-- `CLEANUP_RESOURCE_PREFIXES`.
abbrev resource_prefixes : List (String × String)
resource_prefixes =
    ("customer", "cus_")
    ∷ ("checkout_session", "cs_")
    ∷ ("payment_intent", "pi_")
    ∷ ("invoice", "in_")
    ∷ ("subscription", "sub_")
    ∷ ("charge", "ch_")
    ∷ ("setup_intent", "seti_")
    ∷ ("event", "evt_")
    ∷ []

abbrev prefix_of : String → List (String × String) → Option String
prefix_of type [] = none
prefix_of type ((t, p) ∷ rest) = if str_eq t type then some p else prefix_of type rest

abbrev retained_fields : List Value → Option RetainedObject
retained_fields (text id ∷ text type ∷ text status ∷ []) = do
  prefix ← prefix_of type resource_prefixes
  check (is_resource_id id && has_prefix prefix id && includes (allowed_statuses type) status)
  some (record { id = id; type = type; status = status })
retained_fields _ = none

abbrev retained_items : Values → Option (List RetainedObject)
retained_items nil = some []
retained_items (cons v vs) = do
  fields ← exact_data_record v ("id" ∷ "type" ∷ "status" ∷ [])
  item ← retained_fields fields
  rest ← retained_items vs
  some (item ∷ rest)

abbrev projection_fields : List Value → Option Projection
projection_fields
      (text claim
        ∷ text digest
        ∷ array mutated
        ∷ array nil
        ∷ array retained
        ∷ number removed
        ∷ []) =
    do
      check (str_eq claim "owned_reversible_provider_fixtures_only")
      check (is_hex_run 64 digest && nat_eq removed 0)
      ids ← text_items mutated
      check (valid_resource_ids ids)
      check (every (λ id. has_prefix "cs_" id || has_prefix "sub_" id) ids && all_distinct ids)
      objects ← retained_items retained
      check (leb (length objects) 100 && all_distinct (map (λ (o : RetainedObject). o.id) objects))
      some (record { baseline_digest = digest; mutated_ids = ids; retained_objects = objects })
projection_fields _ = none

unfoldable pub snapshot_cleanup_projection : Value → Option Projection
unfolding exact_data_record valid_resource_ids
snapshot_cleanup_projection value = do
  fields ← exact_data_record value (
      "cleanupClaim" ∷ "databaseBaselineDigest" ∷ "mutatedResourceIds" ∷ "retainedDatabaseResources"
      ∷ "retainedObjects" ∷ "removedDatabaseFixtureCount" ∷ [])
  projection_fields fields
