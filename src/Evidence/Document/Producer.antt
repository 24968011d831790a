-- ===== src/Evidence/Document/Producer.antt =====
-- `validFinalProducerShape` of src/contracts/evidence.mjs, in the order of its tests.
use billing_validation_contr.Common.{
  ℕ, Bool, true, false, ◌&&◌, ◌||◌, not, String, str_append, List, [], ◌∷◌, Option, nat_eq, every,
  some_of, length,
}
use billing_validation_contr.Js.{Value, text, array, Values, nil, cons}
use billing_validation_contr.Attempts.Session.{Url}
use billing_validation_contr.Json.Canonical.{canonical}
use billing_validation_contr.Evidence.Shapes.{
  get, is_object, has_own, has_only_keys, has_strings, is_text, is_number, is_false, is_undefined,
  is_sha256, is_full_sha, is_project_ref, is_deployment_id, is_account_id, is_count,
  is_nonempty_text, same_text, text_where, valid_origin, valid_provenance, valid_bootstrap,
  valid_migration_artifacts, valid_artifact_evidence, count_of,
}

-- What the parser is given by the platform: `JSON.parse` of a text (`none` where it throws),
-- `JSON.stringify` of a value that is no object, SHA-256 of a text and of bytes in hexadecimal,
-- `inflateRawSync` with its `maxOutputLength`, `new URL`, and whether `Date.parse` gives a number.
pub record Platform : Type 0 where
  pub parse_json : List ℕ → Option Value
  pub stringify : Value → List ℕ
  pub sha256_text : List ℕ → String
  pub sha256_bytes : List ℕ → String
  pub inflate : ℕ → List ℕ → Option (List ℕ)
  pub parse_url : String → Option Url
  pub is_date : String → Bool

module _ (platform : Platform) where
  abbrev pub digest_of : Value → String
  digest_of value = platform.sha256_text (canonical platform.stringify value)

  -- The schema fingerprint is left out everywhere or given everywhere, and then the same.
  unfoldable pub valid_fingerprint : Value → Bool
  valid_fingerprint database = is_absent || is_given
    where
      bootstrap : Value
      bootstrap = get "bootstrap" database

      is_absent : Bool
      is_absent =
          is_undefined (get "schemaFingerprintVersion" database)
          && is_undefined (get "observedSchemaDigest" database)
          && is_undefined (get "schemaFingerprintVersion" bootstrap)

      is_given : Bool
      is_given =
          is_number 1 (get "schemaFingerprintVersion" database)
          && is_number 1 (get "schemaFingerprintVersion" bootstrap)
          && is_sha256 (get "observedSchemaDigest" database)
          && same_text (get "observedSchemaDigest" database) (get "schemaDigest" bootstrap)

  unfoldable pub valid_database : Value → Bool
  valid_database database =
      has_only_keys database (
        "projectRef" ∷ "migrationDigest" ∷ "migrationDigestScope" ∷ "bootstrap"
        ∷ "migrationArtifacts" ∷ "schemaFingerprintVersion" ∷ "observedSchemaDigest" ∷ [])
      && has_strings database ("projectRef" ∷ "migrationDigest" ∷ "migrationDigestScope" ∷ [])
      && is_project_ref (get "projectRef" database)
      && not (some_of (has_own database) ("branchId" ∷ "parentProjectRef" ∷ "branchName" ∷ []))
      && is_sha256 (get "migrationDigest" database)
      && is_text "reviewed-assets" (get "migrationDigestScope" database)
      && valid_bootstrap (get "bootstrap" database)
      && same_text (get "projectRef" (get "bootstrap" database)) (get "projectRef" database)
      && valid_migration_artifacts (get "migrationArtifacts" database)
      && (is_undefined (get "observedSchemaDigest" database)
          || is_sha256 (get "observedSchemaDigest" database))
      && (is_undefined (get "schemaFingerprintVersion" database)
          || is_number 1 (get "schemaFingerprintVersion" database))
      && valid_fingerprint database
      && is_text (digest_of (get "migrationArtifacts" database)) (get "migrationDigest" database)

  unfoldable pub valid_deployment : Value → Value → Bool
  valid_deployment candidate deployment =
      has_strings deployment ("id" ∷ "origin" ∷ "sha" ∷ "treeHash" ∷ [])
      && is_deployment_id (get "id" deployment)
      && valid_origin platform.parse_url (get "origin" deployment)
      && is_full_sha (get "sha" deployment)
      && is_full_sha (get "treeHash" deployment)
      && same_text (get "sha" deployment) (get "sha" candidate)
      && same_text (get "treeHash" deployment) (get "treeHash" candidate)

unfoldable pub valid_stripe : Value → Bool
valid_stripe stripe =
    has_strings stripe ("accountId" ∷ [])
    && is_account_id (get "accountId" stripe)
    && is_false (get "livemode" stripe)

-- `value === \`${origin}/api/stripe/webhook\``.
abbrev pub is_endpoint_of : Value → Value → Bool
is_endpoint_of (text origin) value = is_text (str_append origin "/api/stripe/webhook") value
is_endpoint_of _ value = false

unfoldable pub valid_webhook : Value → Value → Bool
valid_webhook deployment webhook =
    has_strings webhook ("endpoint" ∷ [])
    && is_endpoint_of (get "origin" deployment) (get "endpoint" webhook)
    && is_false (get "livemode" webhook)
    && (is_undefined (get "id" webhook) || is_nonempty_text (get "id" webhook))
    && (is_undefined (get "window" webhook) || is_object (get "window" webhook))

abbrev final_artifact_kinds : List String
final_artifact_kinds =
    "lint" ∷ "typecheck" ∷ "coverage" ∷ "build" ∷ "sql" ∷ "browser" ∷ "stripe" ∷ "webhook"
    ∷ "worker" ∷ []

abbrev has_kind : Values → String → Bool
has_kind nil kind = false
has_kind (cons item items) kind = is_text kind (get "kind" item) || has_kind items kind

unfoldable pub valid_artifact : Value → Value → Bool
valid_artifact candidate item =
    is_object item
    && same_text (get "candidateSha" item) (get "sha" candidate)
    && same_text (get "treeHash" item) (get "treeHash" candidate)
    && is_sha256 (get "sha256" item)
    && is_nonempty_text (get "collectedAt" item)
    && valid_provenance false (get "provenance" item)
    && text_where (λ kind. valid_artifact_evidence kind (get "evidence" item)) (get "kind" item)

abbrev each : (Value → Bool) → Values → Bool
each p nil = true
each p (cons v vs) = p v && each p vs

-- As many artifacts as kinds, with every kind among them: so no kind comes twice.
unfoldable pub valid_artifacts : Value → Value → Bool
valid_artifacts candidate (array items) =
    nat_eq (count_of items) (length final_artifact_kinds)
    && every (has_kind items) final_artifact_kinds
    && each (valid_artifact candidate) items
valid_artifacts candidate _ = false

unfoldable pub valid_replay_run : ℕ → Value → Bool
valid_replay_run sequence run =
    is_object run
    && is_number sequence (get "sequence" run)
    && is_text "passed" (get "status" run)
    && is_nonempty_text (get "startedAt" run)
    && is_nonempty_text (get "finishedAt" run)
    && is_count (get "scenarioCount" run)
    && is_sha256 (get "scenarioDigest" run)
    && is_sha256 (get "cleanupDigest" run)
    && is_sha256 (get "manifestSha256" run)
    && is_count (get "manifestBytes" run)
    && is_sha256 (get "receiptDigest" run)
    && valid_provenance true (get "provenance" run)

unfoldable pub valid_replay_runs : Value → Bool
valid_replay_runs (array (cons first (cons second nil))) =
    valid_replay_run 1 first && valid_replay_run 2 second
valid_replay_runs _ = false

unfoldable pub valid_reports : Platform → Value → Bool
valid_reports platform document =
    text_where platform.is_date (get "generatedAt" document)
    && is_nonempty_text (get "generatedAt" document)
    && has_strings (get "replayVerification" document) ("scope" ∷ "businessOutcomeEquivalence" ∷ [])
    && has_strings report ("job" ∷ "sha256" ∷ "githubOutputSha256" ∷ [])
    && is_sha256 (get "sha256" report)
    && is_sha256 (get "githubOutputSha256" report)
    && is_count (get "bytes" report)
    && is_sha256 (get "replayIndexSha256" document)
  where
    report : Value
    report = get "financialReport" document

unfoldable pub valid_producer : Platform → Value → Bool
valid_producer platform document =
    valid_database platform (get "database" document)
    && valid_deployment platform (get "candidate" document) (get "deployment" document)
    && valid_stripe (get "stripe" document)
    && valid_webhook (get "deployment" document) (get "webhook" document)
    && valid_artifacts (get "candidate" document) (get "artifacts" document)
    && valid_replay_runs (get "replayRuns" document)
    && valid_reports platform document
