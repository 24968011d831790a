-- ===== src/Evidence/Shapes.antt =====
-- Tests on the values of a manifest in src/contracts/evidence.mjs: `hasExactKeys`, `hasOnlyKeys`,
-- `hasStrings`, `isCount`, `validProducerProvenance`, `validMigrationArtifacts`, `validBootstrap`,
-- `validDeploymentOrigin` and `validArtifactEvidence`.
--
-- A manifest is a result of `JSON.parse`: plain objects, arrays, texts, numbers, Booleans and null.
-- `RegExp.test` of a value that is no text is false here; where the code tests such a value, it
-- refuses it by another test as well.
use billing_validation_contr.Common.{
  ℕ, suc, Bool, true, false, ◌&&◌, ◌||◌, not, String, str_eq, List, [], ◌∷◌, Option, none, some,
  leb, nat_eq, if◌then◌else◌, length, every, some_of, codes, includes, is_lower, is_digit, is_alnum,
  is_word, run_of, is_none,
}
use billing_validation_contr.Js.{
  Value, undefined, text, number, boolean, array, object, Values, nil, cons, enumerable_keys,
  own_keys, get_property, is_hex_run, safe_count,
}
use billing_validation_contr.Attempts.Session.{Url}
use billing_validation_contr.Attempts.Input.{valid_deployment_origin, prefixed_nonempty}
use billing_validation_contr.Json.Order.{is_below}

-- `value[key]` on the own properties of an object; the code reads only of objects.
abbrev pub get : String → Value → Value
get key (object proto ps) = get_property key ps
get key _ = undefined

abbrev pub is_object : Value → Bool
is_object (object proto ps) = true
is_object _ = false

abbrev is_key : String → Option String → Bool
is_key key none = false
is_key key (some k) = str_eq k key

-- `Object.hasOwn(value, key)`.
abbrev pub has_own : Value → String → Bool
has_own (object proto ps) key = some_of (is_key key) (own_keys ps)
has_own _ key = false

abbrev pub keys_of : Value → List String
keys_of (object proto ps) = enumerable_keys ps
keys_of _ = []

unfoldable pub has_exact_keys : Value → List String → Bool
has_exact_keys value keys =
    is_object value && nat_eq (length (keys_of value)) (length keys) && every (has_own value) keys

unfoldable pub has_only_keys : Value → List String → Bool
has_only_keys value keys = is_object value && every (includes keys) (keys_of value)

abbrev pub text_where : (String → Bool) → Value → Bool
text_where p (text s) = p s
text_where p _ = false

abbrev is_nonempty : String → Bool
is_nonempty s = not (nat_eq (length (codes s)) 0)

abbrev pub is_nonempty_text : Value → Bool
is_nonempty_text = text_where is_nonempty

abbrev pub is_count : Value → Bool
is_count v = not (is_none (safe_count 0 v))

unfoldable pub has_strings : Value → List String → Bool
has_strings value keys = is_object value && every (λ k. is_nonempty_text (get k value)) keys

abbrev pub is_text : String → Value → Bool
is_text s = text_where (λ t. str_eq t s)

abbrev pub is_number : ℕ → Value → Bool
is_number n (number m) = nat_eq m n
is_number n _ = false

abbrev pub is_false : Value → Bool
is_false (boolean b) = not b
is_false _ = false

abbrev pub is_undefined : Value → Bool
is_undefined undefined = true
is_undefined _ = false

-- SHA256, FULL_SHA, DATABASE_PROJECT_REF, DEPLOYMENT_ID and STRIPE_ACCOUNT_ID.
abbrev pub is_sha256 : Value → Bool
is_sha256 = text_where (is_hex_run 64)

abbrev pub is_full_sha : Value → Bool
is_full_sha = text_where (is_hex_run 40)

abbrev pub is_project_ref : Value → Bool
is_project_ref = text_where (λ s. run_of (λ c. is_lower c || is_digit c) 20 20 (codes s))

abbrev pub is_deployment_id : Value → Bool
is_deployment_id = text_where (prefixed_nonempty "dpl_" is_alnum)

abbrev pub is_account_id : Value → Bool
is_account_id = text_where (prefixed_nonempty "acct_" is_word)

-- `a === b` where both are texts.
abbrev pub same_text : Value → Value → Bool
same_text (text s) (text t) = str_eq s t
same_text _ _ = false

unfoldable pub valid_origin : (String → Option Url) → Value → Bool
valid_origin parse_url = text_where (λ s. is_nonempty s && valid_deployment_origin parse_url s)

unfoldable pub valid_provenance : Bool → Value → Bool
valid_provenance replay value =
    has_strings value ("runId" ∷ "runAttempt" ∷ "repository" ∷ "source" ∷ [])
    && is_text "github-actions" (get "source" value)
    && is_false (get "synthetic" value)
    && (not replay || has_strings value ("fixtureRunId" ∷ "manifestPath" ∷ []))

abbrev is_after : Value → Value → Bool
is_after undefined path = true
is_after (text previous) (text path) = is_below previous path
is_after _ _ = false

unfoldable pub valid_artifact_paths : Value → Values → Bool
valid_artifact_paths previous nil = true
valid_artifact_paths previous (cons item items) =
    has_strings item ("path" ∷ "sha256" ∷ [])
    && is_sha256 (get "sha256" item)
    && is_count (get "bytes" item)
    && is_after previous (get "path" item)
    && valid_artifact_paths (get "path" item) items

abbrev pub count_of : Values → ℕ
count_of nil = 0
count_of (cons v vs) = suc (count_of vs)

unfoldable pub valid_migration_artifacts : Value → Bool
valid_migration_artifacts (array items) =
    leb 5 (count_of items) && valid_artifact_paths undefined items
valid_migration_artifacts _ = false

abbrev bootstrap_texts : List String
bootstrap_texts =
    "binding" ∷ "receiptSha256" ∷ "projectRef" ∷ "schemaDigest" ∷ "completedAt" ∷ "jobReportSha256"
    ∷ []

unfoldable pub valid_bootstrap : Value → Bool
valid_bootstrap b =
    has_only_keys b ("schemaFingerprintVersion" ∷ "appliedVersionCount" ∷ bootstrap_texts)
    && has_strings b bootstrap_texts
    && every (λ k. is_sha256 (get k b)) ("receiptSha256" ∷ "schemaDigest" ∷ "jobReportSha256" ∷ [])
    && is_count (get "appliedVersionCount" b)
    && (is_undefined (get "schemaFingerprintVersion" b)
        || is_number 1 (get "schemaFingerprintVersion" b))

-- `isCount(value) && value > 0`.
abbrev is_positive_count : Value → Bool
is_positive_count v = not (is_none (safe_count 1 v))

unfoldable pub valid_sources : ℕ → Values → Bool
valid_sources sequence nil = true
valid_sources sequence (cons source sources) =
    is_number sequence (get "sequence" source)
    && is_positive_count (get "receiptCount" source)
    && is_sha256 (get "sha256" source)
    && is_sha256 (get "manifestSha256" source)
    && valid_sources (suc sequence) sources

abbrev two_sources : Value → Bool
two_sources (array sources) = nat_eq (count_of sources) 2 && valid_sources 1 sources
two_sources _ = false

-- `SIMPLE_ARTIFACT_REPORTS[kind]`.
abbrev report_kind : String → Option String
report_kind kind =
    if str_eq kind "lint" || str_eq kind "typecheck"
    then some "quality"
    else if str_eq kind "coverage"
    then some "regression"
    else if str_eq kind "build"
    then some "build"
    else if str_eq kind "sql"
    then some "billing-remote"
    else none

unfoldable pub valid_artifact_evidence : String → Value → Bool
valid_artifact_evidence kind evidence = is_object evidence && (elim (report_kind kind) [
  | some report ↦
      has_strings evidence ("job" ∷ "reportKind" ∷ [])
      && is_text report (get "reportKind" evidence)
      && is_count (get "bytes" evidence)
  | none ↦ is_positive_count (get "receiptCount" evidence) && two_sources (get "sources" evidence)
])
