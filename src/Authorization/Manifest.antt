-- ===== src/Authorization/Manifest.antt =====
-- `SCHEMA`, `createAuthorizationManifest`, `serializeAuthorizationManifest`,
-- `parseAuthorizationManifest` and `authorizationDigest` of src/authorization/manifest.mjs. The two
-- codes are told apart by the function: `none` is `authorization_manifest_invalid` of the first two,
-- `authorization_noncanonical` of the last two.
use billing_validation_contr.Common.{
  ℕ, ◌-◌, Bool, true, false, ◌&&◌, not, String, str_eq, List, [], ◌∷◌, ◌++◌, Option, none, some,
  leb, ltb, nat_eq, if◌then◌else◌, length, codes, is_digit, matches_classes, is_some, same_codes,
}
use billing_validation_contr.Checks.{◌>>=◌, ◌>>◌, check}
use billing_validation_contr.Js.{Value, null, text}
use billing_validation_contr.Evidence.Utf8.{decode_utf8}
use billing_validation_contr.Authorization.Schema.{
  Schema, scalar, record_of, jobs_of, Fields, no_fields, a_field, conform, text_at, literal, one_of,
  version_two, hex, prefixed_digest, decimal_id,
}

-- The platform: `Date.parse` in milliseconds from the start of year 0, `toISOString` of that, the
-- bytes of `JSON.stringify`, `JSON.parse` of a text, SHA-256 of bytes in hexadecimal.
pub record Platform : Type 0 where
  pub parse_date : String → Option ℕ
  pub iso_text : ℕ → String
  pub json_bytes : Value → List ℕ
  pub parse_json : List ℕ → Option Value
  pub sha256 : List ℕ → String

-- /^\d{4}-\d{2}-\d{2}T\d{2}:\d{2}:\d{2}\.\d{3}Z$/
abbrev date_classes : List (ℕ → Bool)
date_classes =
    is_digit
    ∷ is_digit
    ∷ is_digit
    ∷ is_digit
    ∷ nat_eq b'-'
    ∷ is_digit
    ∷ is_digit
    ∷ nat_eq b'-'
    ∷ is_digit
    ∷ is_digit
    ∷ nat_eq b'T'
    ∷ is_digit
    ∷ is_digit
    ∷ nat_eq b':'
    ∷ is_digit
    ∷ is_digit
    ∷ nat_eq b':'
    ∷ is_digit
    ∷ is_digit
    ∷ nat_eq b'.'
    ∷ is_digit
    ∷ is_digit
    ∷ is_digit
    ∷ nat_eq b'Z'
    ∷ []

abbrev pub job : String → Fields
job key =
    a_field "key" (literal key)
      (a_field "jobId" decimal_id (a_field "conclusion" (literal "success") no_fields))

abbrev pub candidate : Fields
candidate = a_field "repository" (literal "lawxcompany-stack/Plataforma-LawX") (
    a_field "repositoryId" (literal "1234079266") (
      a_field "pullNumber" decimal_id (
        a_field "sha" (hex 40)
          (a_field "treeSha" (hex 40) (a_field "baseSha" (hex 40) no_fields)))))

abbrev prerequisites : Fields
prerequisites = a_field "workflowId" (literal "290018021") (
    a_field "workflowPath" (literal ".github/workflows/ci.yml") (
      a_field "runId" decimal_id (
        a_field "runAttempt" decimal_id
          (a_field "jobs" (jobs_of (job "quality") (job "regression") (job "build")) no_fields))))

abbrev control : Fields
control = a_field "repository" (literal "lawx-ai/billing-validation-control") (
    a_field "repositoryId" (literal "1384018279") (
      a_field "ref" (literal "refs/heads/main") (
        a_field "workflowPath" (literal ".github/workflows/authorize-local-collector.yml") (
          a_field "sha" (hex 40) (
            a_field "runId" decimal_id (
              a_field "runAttempt" decimal_id
                (a_field "event" (literal "workflow_dispatch") no_fields)))))))

abbrev pub collector_release : Fields
collector_release =
    a_field "image" (prefixed_digest "ghcr.io/lawxcompany-stack/billing-validation-control@sha256:")
      (a_field "configDigest" (prefixed_digest "sha256:") (
        a_field "sourceSha" (hex 40)
          (a_field "sourceTreeSha" (hex 40) (a_field "policyDigest" (hex 64) no_fields))))

abbrev pub policy : Fields
policy = a_field "environmentDigest" (hex 64) (
    a_field "contractsDigest" (hex 64)
      (a_field "egressDigest" (hex 64) (a_field "limitsDigest" (hex 64) no_fields)))

abbrev pub max_window_ms : ℕ
max_window_ms = 1_200_000

abbrev pub max_manifest_bytes : ℕ
max_manifest_bytes = 16_384

module _ (platform : Platform) where
  -- `timestamp`.
  abbrev is_same_iso : String → Option ℕ → Bool
  is_same_iso s none = false
  is_same_iso s (some t) = str_eq (platform.iso_text t) s

  abbrev is_timestamp : Value → Bool
  is_timestamp (text s) =
      matches_classes date_classes (codes s) && is_same_iso s (platform.parse_date s)
  is_timestamp _ = false

  abbrev is_source : Value → Bool
  is_source null = true
  is_source v = is_some (conform (hex 32) v)

  -- `SCHEMA`.
  unfoldable pub schema : Schema
  unfolding conform
  schema = record_of (
      a_field "schemaVersion" version_two (
        a_field "kind" (literal "billing-collector-authorization") (
          a_field "executionMode" (literal "isolated-local") (
            a_field "operation" (one_of ("collect" ∷ "recover" ∷ "recheck" ∷ [])) (
              a_field "executionId" (hex 32) (
                a_field "activationCommitment" (hex 64) (
                  a_field "candidate" (record_of candidate) (
                    a_field "prerequisites" (record_of prerequisites) (
                      a_field "control" (record_of control)
                        (a_field "collectorRelease" (record_of collector_release) rest))))))))))
    where
      rest : Fields
      rest = a_field "policy" (record_of policy) (
          a_field "suite" (one_of ("billing-43" ∷ "billing-3ds-15" ∷ [])) (
            a_field "issuedAt" (scalar is_timestamp) (
              a_field "expiresAt" (scalar is_timestamp)
                (a_field "sourceExecutionId" (scalar is_source) no_fields))))

  abbrev pub date_at : String → Value → Option ℕ
  date_at key manifest = text_at key manifest >>= platform.parse_date

  -- Collections have no source; the other operations have one, which is not the execution itself.
  abbrev is_collection : Option String → Bool
  is_collection none = false
  is_collection (some operation) = str_eq operation "collect"

  abbrev differ : Option String → Option String → Bool
  differ (some s) (some t) = not (str_eq s t)
  differ _ _ = false

  unfoldable pub valid_source : Value → Bool
  valid_source manifest =
      if is_collection (text_at "operation" manifest)
      then not (is_some (text_at "sourceExecutionId" manifest))
      else differ (text_at "sourceExecutionId" manifest) (text_at "executionId" manifest)

  unfoldable pub create_manifest : Value → Option Value
  create_manifest value = do
    manifest ← conform schema value
    issued ← date_at "issuedAt" manifest
    expires ← date_at "expiresAt" manifest
    check (ltb issued expires && leb (expires - issued) max_window_ms)
    check (valid_source manifest)
    some manifest

  -- The bytes of the serialized text.
  unfoldable pub serialize_manifest : Value → Option (List ℕ)
  serialize_manifest value =
      create_manifest value >>= λ manifest. some (platform.json_bytes manifest ++ (0xa ∷ []))

  -- `input` is what `snapshotBytes` copies: the bytes of a text or of a `Uint8Array`, or `none` of any
  -- other value.
  unfoldable pub parse_manifest : Option (List ℕ) → Option Value
  parse_manifest input = do
    bytes ← input
    check (leb 1 (length bytes) && leb (length bytes) max_manifest_bytes)
    decoded ← decode_utf8 bytes
    value ← platform.parse_json decoded
    manifest ← create_manifest value
    canonical ← serialize_manifest manifest
    check (same_codes canonical bytes)
    some manifest

  unfoldable pub authorization_digest : Option (List ℕ) → Option String
  authorization_digest input = do
    manifest ← parse_manifest input
    bytes ← serialize_manifest manifest
    some (platform.sha256 bytes)
