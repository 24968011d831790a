-- ===== src/Evidence/Document/Parse.antt =====
-- `parseDocument` and `parseEvidenceArchive` of src/contracts/evidence.mjs.
use billing_validation_contr.Common.{
  ℕ, Bool, true, false, ◌&&◌, String, str_eq, str_append, List, [], ◌∷◌, Option, none, some, leb,
  nat_eq, if◌then◌else◌, every, length, codes, is_hex, prefixed_run, same_codes,
}
use billing_validation_contr.Js.{Value, Props, end, field, accessor, symbol, object}
use billing_validation_contr.Evidence.Bytes
use billing_validation_contr.Evidence.Bytes.{Reply, ok, refused, fault, Fault}
use billing_validation_contr.Evidence.Utf8.{decode_utf8}
use billing_validation_contr.Evidence.Archive.Directory.{archive_bytes}
use billing_validation_contr.Evidence.Archive.Locals.{Member, parse_directory}
use billing_validation_contr.Evidence.Archive.Decode.{decode_entry}
use billing_validation_contr.Evidence.Shapes.{
  get, is_object, text_where, has_own, has_exact_keys, has_only_keys, keys_of, is_text, is_number,
  is_sha256, is_full_sha, is_project_ref, is_deployment_id, is_account_id, same_text, valid_origin,
}
use billing_validation_contr.Evidence.Document.Producer.{
  Platform, digest_of, valid_producer, is_endpoint_of,
}

pub data Refusal : Type 0 where
  unreadable : Bytes.Refusal → Refusal
  evidence_schema_invalid evidence_manifest_digest_invalid evidence_identity_invalid : Refusal
  evidence_identity_mismatch : Refusal

pub data Outcome (A : Type 0) : Type 0 where
  accepted : A → Outcome A
  rejected : Refusal → Outcome A
  failed : Fault → Outcome A

infixl 5 ◌>>=◌ ◌>>◌
abbrev pub ◌>>=◌ : {A B : Type 0} → Outcome A → (A → Outcome B) → Outcome B
accepted a >>= f = f a
rejected c >>= f = rejected c
failed e >>= f = failed e

abbrev pub ◌>>◌ : {B : Type 0} → Outcome (Unit {0}) → Outcome B → Outcome B
m >> k = m >>= λ _. k

unfoldable pub require : Bool → Refusal → Outcome (Unit {0})
require true c = accepted tt
require false c = rejected c

unfoldable pub lift : {A : Type 0} → Reply A → Outcome A
lift (ok a) = accepted a
lift (refused c) = rejected (unreadable c)
lift (fault e) = failed e

abbrev manifest_keys : List String
manifest_keys =
    "version" ∷ "kind" ∷ "status" ∷ "candidate" ∷ "database" ∷ "deployment" ∷ "stripe" ∷ "webhook"
    ∷ "artifacts" ∷ "replayRuns" ∷ "generatedAt" ∷ "replayVerification" ∷ "financialReport"
    ∷ "replayIndexSha256" ∷ "manifestDigest" ∷ []

unfoldable pub valid_candidate : Value → Bool
valid_candidate candidate =
    is_object candidate
    && nat_eq (length (keys_of candidate)) 2
    && has_own candidate "sha"
    && has_own candidate "treeHash"
    && is_full_sha (get "sha" candidate)
    && is_full_sha (get "treeHash" candidate)

unfoldable pub valid_manifest : Platform → Value → Bool
valid_manifest platform document =
    has_only_keys document manifest_keys
    && every (has_own document) manifest_keys
    && is_number 1 (get "version" document)
    && is_text "billing-final-acceptance" (get "kind" document)
    && is_text "passed" (get "status" document)
    && valid_candidate (get "candidate" document)
    && is_sha256 (get "replayIndexSha256" document)
    && valid_producer platform document

-- `const { manifestDigest, ...unsigned } = document`.
abbrev without : String → Props → Props
without key end = end
without key (field k e v ps) = if str_eq k key then without key ps else field k e v (without key ps)
without key (accessor k e v ps) =
    if str_eq k key then without key ps else accessor k e v (without key ps)
without key (symbol ps) = symbol (without key ps)

abbrev pub unsigned : Value → Value
unsigned (object proto ps) = object proto (without "manifestDigest" ps)
unsigned v = v

unfoldable pub valid_digest : Platform → Value → Bool
valid_digest platform document =
    is_sha256 (get "manifestDigest" document)
    && is_text (digest_of platform (unsigned document)) (get "manifestDigest" document)

-- `isValidExpectedEnvironment`.
unfoldable pub is_valid_expected_environment : Platform → Value → Bool
is_valid_expected_environment platform environment =
    has_exact_keys environment ("database" ∷ "deployment" ∷ "stripe" ∷ [])
    && has_exact_keys (get "database" environment) ("projectRef" ∷ [])
    && is_project_ref (get "projectRef" (get "database" environment))
    && has_exact_keys (get "deployment" environment) ("id" ∷ "origin" ∷ [])
    && is_deployment_id (get "id" (get "deployment" environment))
    && valid_origin platform.parse_url (get "origin" (get "deployment" environment))
    && has_exact_keys (get "stripe" environment) ("accountId" ∷ [])
    && is_account_id (get "accountId" (get "stripe" environment))

unfoldable pub valid_expectation : Platform → Value → Bool
valid_expectation platform expected =
    has_exact_keys expected ("candidateSha" ∷ "candidateTree" ∷ "environment" ∷ [])
    && is_full_sha (get "candidateSha" expected)
    && is_full_sha (get "candidateTree" expected)
    && is_valid_expected_environment platform (get "environment" expected)

unfoldable pub is_candidate_of : Value → Value → Bool
is_candidate_of document expected =
    same_text (get "sha" candidate) (get "candidateSha" expected)
    && same_text (get "treeHash" candidate) (get "candidateTree" expected)
  where
    candidate : Value
    candidate = get "candidate" document

unfoldable pub is_environment_of : Value → Value → Bool
is_environment_of document environment =
    same_text (get "projectRef" (get "database" document))
      (get "projectRef" (get "database" environment))
    && same_text (get "id" (get "deployment" document)) (get "id" (get "deployment" environment))
    && same_text (get "origin" (get "deployment" document))
        (get "origin" (get "deployment" environment))
    && same_text (get "accountId" (get "stripe" document))
        (get "accountId" (get "stripe" environment))
    && is_endpoint_of (get "origin" (get "deployment" environment))
        (get "endpoint" (get "webhook" document))

pub record Evidence : Type 0 where
  pub schema_version : Value
  pub kind : Value
  pub candidate_sha : Value
  pub candidate_tree : Value
  pub status : Value
  pub manifest_digest : Value

abbrev evidence_of : Value → Evidence
evidence_of document = record {
  schema_version = get "version" document;
  kind = get "kind" document;
  candidate_sha = get "sha" (get "candidate" document);
  candidate_tree = get "treeHash" (get "candidate" document);
  status = get "status" document;
  manifest_digest = get "manifestDigest" document;
}

abbrev pub parsed : Option Value → Outcome Value
parsed none = rejected evidence_schema_invalid
parsed (some v) = accepted v

unfoldable pub read_json : Platform → List ℕ → Option Value
read_json platform contents = elim (decode_utf8 contents) [
  | none ↦ none
  | some s ↦ platform.parse_json s
]

unfoldable pub parse_document : Platform → List ℕ → Value → Outcome Evidence
parse_document platform contents expected = do
  document ← parsed (read_json platform contents)
  require (valid_manifest platform document) evidence_schema_invalid
  require (valid_digest platform document) evidence_manifest_digest_invalid
  require (valid_expectation platform expected) evidence_identity_invalid
  require (is_candidate_of document expected) evidence_identity_mismatch
  require (is_environment_of document (get "environment" expected)) evidence_identity_mismatch
  accepted (evidence_of document)

-- `sha256:` and sixty-four hexadecimal digits, the archive's own.
unfoldable pub valid_archive_digest : Platform → List ℕ → Value → Bool
valid_archive_digest platform archive digest =
    text_where (λ s. prefixed_run (codes "sha256:") is_hex 64 64 (codes s)) digest
    && is_text (str_append "sha256:" (platform.sha256_bytes archive)) digest

unfoldable pub only_member : List Member → Outcome Member
only_member (m ∷ []) =
    if same_codes m.entry.name (codes "billing-acceptance.json")
    then accepted m
    else rejected (unreadable Bytes.artifact_member_not_allowlisted)
only_member _ = rejected (unreadable Bytes.artifact_member_not_allowlisted)

-- `none` is an archive that is no `Buffer`.
unfoldable pub parse_evidence_archive :
    Platform → Option (List ℕ) → Value → Value → Outcome Evidence
parse_evidence_archive platform none digest expected =
    rejected (unreadable Bytes.artifact_zip_invalid)
parse_evidence_archive platform (some archive) digest expected = do
  require (leb (length archive) archive_bytes) (unreadable Bytes.artifact_too_large)
  require (valid_archive_digest platform archive digest) (unreadable Bytes.artifact_digest_mismatch)
  members ← lift (parse_directory archive)
  member ← only_member members
  contents ← lift (decode_entry platform.inflate archive member)
  parse_document platform contents expected
