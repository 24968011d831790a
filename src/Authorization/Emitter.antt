-- ===== src/Authorization/Emitter.antt =====
-- `validateLocalAuthorizationReceipt` and `emitLocalAuthorization` of src/authorization/emitter.mjs;
-- which code they refuse with is left out.
use billing_validation_contr.Common.{
  ℕ, zero, suc, ◌+◌, ◌/◌, ◌%◌, Bool, true, false, ◌&&◌, String, str_eq, str_append, List, [], ◌∷◌,
  Option, none, some, leb, ltb, nat_eq, if◌then◌else◌,
}
use billing_validation_contr.Checks.{◌>>=◌, ◌>>◌, check}
use billing_validation_contr.Js.{
  Value, null, text, number, object, Props, plain, end, field, is_hex_run, max_safe_integer,
  data_value,
}
use billing_validation_contr.Authorization.Schema.{conform, jobs_of, is_decimal_text}
use billing_validation_contr.Authorization.Manifest.{Platform, job, create_manifest, max_window_ms}
use billing_validation_contr.Authorization.Inputs.{
  snapshot_record, read, read_text, is_exactly, Context, authorization_context, Inputs,
  parse_inputs,
}
use billing_validation_contr.Authorization.Release.{Release, Selected, selected, select_release}

-- `String(n)`; a safe integer has sixteen digits at most.
abbrev digit_text : ℕ → String
digit_text n = at n ("0" ∷ "1" ∷ "2" ∷ "3" ∷ "4" ∷ "5" ∷ "6" ∷ "7" ∷ "8" ∷ "9" ∷ [])
  where
    at : ℕ → List String → String
    at n [] = ""
    at zero (s ∷ ss) = s
    at (suc n) (s ∷ ss) = at n ss

abbrev pub digits_text : ℕ → ℕ → String
digits_text zero n = ""
digits_text (suc fuel) n =
    let rest = digits_text fuel (n / 10) in
    if ltb n 10 then digit_text n else str_append rest (digit_text (n % 10))

abbrev pub decimal_text : ℕ → String
decimal_text n = digits_text 16 n

-- What of a receipt is not the same in each.
pub record Receipt : Type 0 where
  pub candidate_sha : String
  pub tree_sha : String
  pub base_sha : String
  pub pull_number : ℕ
  pub run_id : String
  pub attempt : ℕ
  pub jobs : Value

abbrev is_number : ℕ → Value → Bool
is_number n (number m) = nat_eq m n
is_number n _ = false

-- `numeric`.
abbrev numeric : Value → Option ℕ
numeric (number n) = check (leb 1 n && leb n max_safe_integer) >> some n
numeric _ = none

abbrev candidate_repository : String
candidate_repository = "lawxcompany-stack/Plataforma-LawX"

abbrev workflow_path : String
workflow_path = ".github/workflows/ci.yml"

unfoldable pub receipt_of : Value → Option Receipt
receipt_of value = do
  ps ←
      snapshot_record
        ("scope" ∷ "repository" ∷ "repositoryId" ∷ "candidateSha" ∷ "treeSha" ∷ "baseSha"
          ∷ "pullNumber" ∷ "workflowId" ∷ "workflowPath" ∷ "runId" ∷ "attempt" ∷ "jobs" ∷ [])
        value
  scope ← read "scope" (is_exactly "candidate-prerequisites") ps
  repository ← read "repository" (is_exactly candidate_repository) ps
  repository_id ← read "repositoryId" (is_number 1_234_079_266) ps
  candidate_sha ← read_text "candidateSha" (is_hex_run 40) ps
  tree_sha ← read_text "treeSha" (is_hex_run 40) ps
  base_sha ← read_text "baseSha" (is_hex_run 40) ps
  pull_number ← data_value "pullNumber" ps >>= numeric
  workflow_id ← read "workflowId" (is_number 290_018_021) ps
  workflow ← read "workflowPath" (is_exactly workflow_path) ps
  run_id ← read_text "runId" is_decimal_text ps
  attempt ← data_value "attempt" ps >>= numeric
  given_jobs ← data_value "jobs" ps
  jobs ← conform (jobs_of (job "quality") (job "regression") (job "build")) given_jobs
  some (record {
    candidate_sha = candidate_sha;
    tree_sha = tree_sha;
    base_sha = base_sha;
    pull_number = pull_number;
    run_id = run_id;
    attempt = attempt;
    jobs = jobs;
  })

unfoldable pub valid_receipt : Value → String → Option Receipt
valid_receipt value candidate_sha =
    receipt_of value >>= λ r. check (str_eq r.candidate_sha candidate_sha) >> some r

abbrev pub released : Selected → Option Release
released (selected r) = some r
released _ = none

-- The arguments; `now` is the time of a `Date` in milliseconds from the start of year 0, `none` of any
-- other value or an invalid date. An earlier time has an ISO text that no manifest takes.
pub record Emission : Type 0 where
  pub dispatch : Value
  pub receipt : Value
  pub context : Value
  pub release_policy : Value
  pub now : Option ℕ

-- The last time that a `Date` may hold.
abbrev last_date : ℕ
last_date = 8_702_167_219_200_000

abbrev own : String → Value → Props → Props
own key value rest = field key true value rest

abbrev pub candidate_value : Receipt → Value
candidate_value r = object plain (
    own "repository" (text candidate_repository) (
      own "repositoryId" (text (decimal_text 1_234_079_266)) (
        own "pullNumber" (text (decimal_text r.pull_number)) (
          own "sha" (text r.candidate_sha)
            (own "treeSha" (text r.tree_sha) (own "baseSha" (text r.base_sha) end))))))

abbrev prerequisites_value : Receipt → Value
prerequisites_value r = object plain (
    own "workflowId" (text (decimal_text 290_018_021)) (
      own "workflowPath" (text workflow_path) (
        own "runId" (text r.run_id)
          (own "runAttempt" (text (decimal_text r.attempt)) (own "jobs" r.jobs end)))))

abbrev control_value : Context → Value
control_value c = object plain (
    own "repository" (text "lawx-ai/billing-validation-control") (
      own "repositoryId" (text "1384018279") (
        own "ref" (text "refs/heads/main") (
          own "workflowPath" (text ".github/workflows/authorize-local-collector.yml") (
            own "sha" (text c.sha) (
              own "runId" (text c.run_id) (
                own "runAttempt" (text c.run_attempt)
                  (own "event" (text "workflow_dispatch") end))))))))

module _ (platform : Platform) where
  abbrev pub manifest_value : Context → Inputs → Receipt → Release → ℕ → Value
  manifest_value c d r release time = object plain (
      own "schemaVersion" (number 2) (
        own "kind" (text "billing-collector-authorization") (
          own "executionMode" (text "isolated-local") (
            own "operation" (text "collect") (
              own "executionId" (text d.execution_id) (
                own "activationCommitment" (text d.activation_commitment) (
                  own "candidate" (candidate_value r) (
                    own "prerequisites" (prerequisites_value r) (
                      own "control" (control_value c)
                        (own "collectorRelease" release.collector_release rest))))))))))
    where
      rest : Props
      rest = own "policy" release.policy (
          own "suite" (text d.suite) (
            own "issuedAt" (text (platform.iso_text time)) (
              own "expiresAt" (text (platform.iso_text (time + max_window_ms)))
                (own "sourceExecutionId" null end))))

  unfoldable pub emit_authorization : Emission → Option Value
  emit_authorization e = do
    context ← authorization_context e.context
    inputs ← parse_inputs e.dispatch
    release ← released (select_release e.release_policy inputs.suite)
    receipt ← valid_receipt e.receipt inputs.candidate_sha
    time ← e.now
    check (leb (time + max_window_ms) last_date)
    create_manifest platform (manifest_value context inputs receipt release time)
