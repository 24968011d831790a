-- ===== src/Attempts/Input/Fields.antt =====
-- `validWorkflow`, `validResourceIds`, `validArtifact` of src/contracts/attempt.mjs,
-- `isValidExpectedEnvironment` of src/contracts/evidence.mjs, `exactUsage` and
-- `validateRetentionConfiguration` of src/attempts/prepare.mjs, and `snapshotEnvironment`,
-- `snapshotWorkflow`, `snapshotUsage` and `validKey` of src/attempts/store.mjs.
use billing_validation_contr.Common.{
  ℕ, Bool, true, false, ◌&&◌, ◌||◌, not, String, str_eq, List, [], ◌∷◌, map, Option, none, some,
  leb, nat_eq, if◌then◌else◌, length, every, codes, is_digit, is_lower, is_alnum, is_hex, is_word,
  run_of, after_prefix, prefixed_run, matches_classes, includes, same_texts,
}
use billing_validation_contr.Js.{
  Value, text, number, object, get_property, enumerable_keys, exact_data_record, data_record,
  safe_count, safe_text,
}
use billing_validation_contr.Attempts.Data.{written, Key, Workflow, Environment, Usage}
use billing_validation_contr.Attempts.Session.{Host, Url}

infixl 5 ◌>>=◌ ◌>>◌
abbrev pub ◌>>=◌ {ℓ κ} : {A : Type ℓ} {B : Type κ} → Option A → (A → Option B) → Option B
none >>= f = none
some a >>= f = f a

abbrev pub ◌>>◌ {ℓ} : {B : Type ℓ} → Option (Unit {0}) → Option B → Option B
m >> k = m >>= λ _. k

abbrev pub check : Bool → Option (Unit {0})
check true = some tt
check false = none

abbrev pub control_repository : String
control_repository = "lawx-ai/billing-validation-control"

-- /^refs\/heads\/[A-Za-z0-9._/-]+$/
abbrev is_ref_char : ℕ → Bool
is_ref_char c = is_alnum c || nat_eq c b'.' || nat_eq c b'_' || nat_eq c b'/' || nat_eq c b'-'

abbrev is_nonempty_run : (ℕ → Bool) → List ℕ → Bool
is_nonempty_run p [] = false
is_nonempty_run p (c ∷ s) = p c && every p s

abbrev pub prefixed_nonempty : String → (ℕ → Bool) → String → Bool
prefixed_nonempty prefix p s = elim (after_prefix (codes prefix) (codes s)) [
  | none ↦ false
  | some rest ↦ is_nonempty_run p rest
]

-- /^[1-9][0-9]{0,k}$/
abbrev is_positive_decimal : ℕ → List ℕ → Bool
is_positive_decimal k [] = false
is_positive_decimal k (c ∷ s) = is_digit c && not (nat_eq c b'0') && run_of is_digit 0 k s

abbrev pub is_run_id : String → Bool
is_run_id s = is_positive_decimal 19 (codes s)

unfoldable pub valid_workflow : Workflow → Bool
valid_workflow w =
    str_eq w.repository control_repository
    && prefixed_nonempty "refs/heads/" is_ref_char w.ref
    && is_run_id w.run_id
    && leb 1 w.run_attempt
    && prefixed_run (codes "billing-validation-") is_hex 32 32 (codes w.runner_label)

abbrev workflow_fields : List Value → Option Workflow
workflow_fields (text repository ∷ text ref ∷ text run_id ∷ attempt ∷ text label ∷ []) = do
  n ← safe_count 1 attempt
  some (record {
    repository = repository;
    ref = ref;
    run_id = run_id;
    run_attempt = n;
    runner_label = label;
  })
workflow_fields _ = none

abbrev pub workflow_keys : List String
workflow_keys = "repository" ∷ "ref" ∷ "runId" ∷ "runAttempt" ∷ "runnerLabel" ∷ []

unfoldable pub snapshot_workflow : Value → Option Workflow
unfolding exact_data_record valid_workflow
snapshot_workflow value = do
  fields ← exact_data_record value workflow_keys
  w ← workflow_fields fields
  check (valid_workflow w)
  some w

-- [a-z0-9-]+ before ".vercel.app".
abbrev is_host_char : ℕ → Bool
is_host_char c = is_lower c || is_digit c || nat_eq c b'-'

abbrev is_vercel_tail : List ℕ → Bool
is_vercel_tail r = matches_classes (map nat_eq (codes ".vercel.app")) r

-- /^[a-z0-9-]+\.vercel\.app$/
abbrev is_vercel_host : List ℕ → Bool
is_vercel_host [] = false
is_vercel_host (c ∷ s) = is_host_char c && (is_vercel_tail s || is_vercel_host s)

unfoldable pub valid_deployment_origin : (String → Option Url) → String → Bool
valid_deployment_origin parse_url origin = elim (parse_url origin) [
  | none ↦ false
  | some url ↦
      str_eq url.protocol "https:"
      && str_eq url.origin origin
      && is_vercel_host (codes url.hostname)
]

-- `isValidExpectedEnvironment` on the texts of the four identities.
unfoldable pub valid_environment : Host → Environment → Bool
unfolding valid_deployment_origin
valid_environment host e =
    run_of (λ c. is_lower c || is_digit c) 20 20 (codes e.project_ref)
    && prefixed_nonempty "dpl_" is_alnum e.deployment_id
    && valid_deployment_origin host.parse_url e.deployment_origin
    && prefixed_nonempty "acct_" is_word e.account_id

abbrev environment_fields : List Value → List Value → List Value → Option Environment
environment_fields (text project_ref ∷ []) (text id ∷ text origin ∷ []) (text account ∷ []) =
    some (record {
      project_ref = project_ref;
      deployment_id = id;
      deployment_origin = origin;
      account_id = account;
      order = written;
    })
environment_fields _ _ _ = none

abbrev environment_parts : List Value → Option Environment
environment_parts (database ∷ deployment ∷ stripe ∷ []) = do
  d ← exact_data_record database ("projectRef" ∷ [])
  p ← exact_data_record deployment ("id" ∷ "origin" ∷ [])
  s ← exact_data_record stripe ("accountId" ∷ [])
  environment_fields d p s
environment_parts _ = none

unfoldable pub snapshot_environment : Host → Value → Option Environment
unfolding exact_data_record valid_environment
snapshot_environment host value = do
  fields ← exact_data_record value ("database" ∷ "deployment" ∷ "stripe" ∷ [])
  e ← environment_parts fields
  check (valid_environment host e)
  some e

abbrev pub quota_keys : List String
quota_keys = "attempts" ∷ "databaseRows" ∷ "authUsers" ∷ "stripeObjects" ∷ []

abbrev usage_fields : ℕ → List Value → Option Usage
usage_fields least (a ∷ d ∷ u ∷ s ∷ []) = do
  attempts ← safe_count least a
  rows ← safe_count least d
  users ← safe_count least u
  objects ← safe_count least s
  some (record {
    attempts = attempts;
    database_rows = rows;
    auth_users = users;
    stripe_objects = objects;
    order = written;
  })
usage_fields least _ = none

-- `exactUsage`, positive where `least` is 1.
unfoldable pub exact_usage : ℕ → Value → Option Usage
unfolding exact_data_record
exact_usage least value = do fields ← exact_data_record value quota_keys; usage_fields least fields

-- `snapshotUsage` of a caller's value.
unfoldable pub snapshot_usage : Value → Option Usage
unfolding data_record
snapshot_usage value = do fields ← data_record value quota_keys; usage_fields 0 fields

pub record Retention : Type 0 where
  pub quotas : Usage
  pub projection : Usage

abbrev policy_quotas : List Value → Option Usage
policy_quotas (number version ∷ quotas ∷ []) =
    if nat_eq version 1 then exact_usage 1 quotas else none
policy_quotas _ = none

unfoldable pub validate_retention_configuration : Value → Value → Option Retention
unfolding exact_data_record exact_usage
validate_retention_configuration policy projection = do
  fields ← exact_data_record policy ("version" ∷ "quotas" ∷ [])
  quotas ← policy_quotas fields
  projected ← exact_usage 0 projection
  check (nat_eq projected.attempts 1)
  some (record { quotas = quotas; projection = projected })

-- A caller's key: its texts, and whether `JSON.stringify` shows them in the store's own order.
pub record GivenKey : Type 0 where
  pub key : Key
  pub in_order : Bool

-- A caller's workflow, likewise: `validWorkflow` looks at the five enumerable properties alone, at
-- accessors too, and the spread copies them in the order in which they stand. A proxy whose
-- reflection throws is refused here; the code does not catch what it throws.
pub record GivenWorkflow : Type 0 where
  pub workflow : Workflow
  pub in_order : Bool

unfoldable pub given_workflow : Value → Option GivenWorkflow
unfolding valid_workflow
given_workflow (object proto ps) = do
  check (
      nat_eq (length (enumerable_keys ps)) 5 && every (includes workflow_keys) (enumerable_keys ps))
  w ← workflow_fields (map (λ key. get_property key ps) workflow_keys)
  check (valid_workflow w)
  some (record { workflow = w; in_order = same_texts (enumerable_keys ps) workflow_keys })
given_workflow _ = none

abbrev key_texts : Value → Value → Value → Option Key
key_texts p s f = do
  project_ref ← safe_text p
  suite ← safe_text s
  fixture_key ← safe_text f
  some (record { project_ref = project_ref; suite = suite; fixture_key = fixture_key })

unfoldable pub valid_key : Value → Option GivenKey
valid_key (object proto ps) = do
  key ←
      key_texts (get_property "projectRef" ps) (get_property "suite" ps)
        (get_property "fixtureKey" ps)
  check (nat_eq (length (enumerable_keys ps)) 3)
  some (record {
    key = key;
    in_order = same_texts (enumerable_keys ps) ("projectRef" ∷ "suite" ∷ "fixtureKey" ∷ []);
  })
valid_key _ = none
