-- ===== src/Authorization/Fixtures.antt =====
-- A manifest of a collection and a challenge that presents it.
use billing_validation_contr.Common.{
  Bool, true, false, String, str_eq, [], ◌∷◌, some, ◌≡◌, if◌then◌else◌, nat_eq,
}
use billing_validation_contr.Js.{
  Value, null, text, number, boolean, array, object, nil, cons, Props, plain, end, field,
}
use billing_validation_contr.Authorization.Manifest.{Platform}
use billing_validation_contr.Authorization.Emitter.{Emission}
use billing_validation_contr.Authorization.Challenge.{Challenge, Answer, granted, denied, usable}

abbrev sha : String
sha = "aaaaaaaaaaaaaaaaaaaaaaaaaaaaaaaaaaaaaaaa"

abbrev digest : String
digest = "cccccccccccccccccccccccccccccccccccccccccccccccccccccccccccccccc"

abbrev execution : String
execution = "dddddddddddddddddddddddddddddddd"

abbrev issued : String
issued = "2026-01-01T00:00:00.000Z"

abbrev expires : String
expires = "2026-01-01T00:10:00.000Z"

abbrev tag : String → String → Props → Props
tag name value rest = field name true (text value) rest

abbrev job : String → String → Value
job key id = object plain (tag "key" key (tag "jobId" id (tag "conclusion" "success" end)))

abbrev candidate : Value
candidate = object plain (
    tag "repository" "lawxcompany-stack/Plataforma-LawX" (
      tag "repositoryId" "1234079266"
        (tag "pullNumber" "7" (tag "sha" sha (tag "treeSha" sha (tag "baseSha" sha end))))))

abbrev jobs : Value
jobs = array (cons (job "quality" "1") (cons (job "regression" "2") (cons (job "build" "3") nil)))

abbrev prerequisites : Value
prerequisites = object plain (
    tag "workflowId" "290018021" (
      tag "workflowPath" ".github/workflows/ci.yml"
        (tag "runId" "11" (tag "runAttempt" "1" (field "jobs" true jobs end)))))

abbrev control : Value
control = object plain (
    tag "repository" "lawx-ai/billing-validation-control" (
      tag "repositoryId" "1384018279" (
        tag "ref" "refs/heads/main" (
          tag "workflowPath" ".github/workflows/authorize-local-collector.yml" (
            tag "sha" sha
              (tag "runId" "12" (tag "runAttempt" "1" (tag "event" "workflow_dispatch" end))))))))

abbrev release : Value
release = object plain (
    tag "image"
      "ghcr.io/lawxcompany-stack/billing-validation-control@sha256:cccccccccccccccccccccccccccccccccccccccccccccccccccccccccccccccc"
      (tag "configDigest" "sha256:cccccccccccccccccccccccccccccccccccccccccccccccccccccccccccccccc"
        (tag "sourceSha" sha (tag "sourceTreeSha" sha (tag "policyDigest" digest end)))))

abbrev policy : Value
policy = object plain (
    tag "environmentDigest" digest
      (tag "contractsDigest" digest (tag "egressDigest" digest (tag "limitsDigest" digest end))))

abbrev pub manifest : Value
manifest = object plain (
    field "schemaVersion" true (number 2) (
      tag "kind" "billing-collector-authorization" (
        tag "executionMode" "isolated-local" (
          tag "operation" "collect" (
            tag "executionId" execution (
              tag "activationCommitment" digest (
                field "candidate" true candidate (
                  field "prerequisites" true prerequisites (
                    field "control" true control
                      (field "collectorRelease" true release rest))))))))))
  where
    rest : Props
    rest = field "policy" true policy (
        tag "suite" "billing-43" (
          tag "issuedAt" issued
            (tag "expiresAt" expires (field "sourceExecutionId" true null end))))

abbrev pub platform : Platform
platform = record {
  parse_date = λ s. if str_eq s issued then some 1_000_000 else some 1_600_000;
  iso_text = λ t. if nat_eq t 1_000_000 then issued else expires;
  json_bytes = λ v. 0x7b ∷ [];
  parse_json = λ s. some manifest;
  sha256 = λ s. digest;
}

abbrev dispatch_value : Value
dispatch_value = object plain (
    tag "candidate_sha" sha (
      tag "execution_id" execution
        (tag "activation_commitment" digest (tag "suite" "billing-43" end))))

abbrev context_value : Value
context_value = object plain (
    tag "repository" "lawx-ai/billing-validation-control" (
      tag "repositoryId" "1384018279" (
        tag "ref" "refs/heads/main" (
          tag "defaultBranch" "main" (
            field "refProtected" true (boolean true) (
              tag "eventName" "workflow_dispatch" (
                tag "workflowRef"
                  "lawx-ai/billing-validation-control/.github/workflows/authorize-local-collector.yml@refs/heads/main"
                  (tag "workflowSha" sha
                    (tag "sha" sha (tag "runId" "12" (tag "runAttempt" "1" end)))))))))))

abbrev receipt_value : Value
receipt_value = object plain (
    tag "scope" "candidate-prerequisites" (
      tag "repository" "lawxcompany-stack/Plataforma-LawX" (
        field "repositoryId" true (number 1_234_079_266) (
          tag "candidateSha" sha (
            tag "treeSha" sha (
              tag "baseSha" sha (
                field "pullNumber" true (number 7) (
                  field "workflowId" true (number 290_018_021) (
                    tag "workflowPath" ".github/workflows/ci.yml" (
                      tag "runId" "11"
                        (field "attempt" true (number 1) (field "jobs" true jobs end))))))))))))

abbrev release_policy_value : Value
release_policy_value = object plain (
    field "schemaVersion" true (number 1) (
      field "releases" true
        (array (
          cons
            (object plain (
              field "collectorRelease" true release (
                field "policy" true policy
                  (field "suites" true (array (cons (text "billing-43") nil)) end))))
            nil))
        end))

abbrev pub emission : Emission
emission = record {
  dispatch = dispatch_value;
  receipt = receipt_value;
  context = context_value;
  release_policy = release_policy_value;
  now = some 1_000_000;
}

abbrev pub challenge : Challenge
challenge = record {
  presentation = record {
    execution_id = execution;
    activation_commitment = digest;
    candidate_sha = sha;
    suite = "billing-43";
  };
  created_at = 5_000;
  nonce = 1 ∷ 2 ∷ 3 ∷ [];
  status = usable;
}

abbrev pub is_granted : Answer → Bool
is_granted (granted c) = true
is_granted (denied r c) = false

abbrev pub granted_of : (a : Answer) → is_granted a ≡ true → Challenge
granted_of (granted c) h = c
granted_of (denied r c) h = absurd cc
