-- ===== src/Authorization/Inputs.antt =====
-- src/authorization/dispatch.mjs. It refuses with one code, which is `none` here.
use billing_validation_contr.Common.{
  ℕ, ◌+◌, Bool, true, false, ◌&&◌, ◌||◌, not, String, str_eq, List, [], ◌∷◌, ◌++◌, map, Option,
  none, some, leb, ltb, nat_eq, length, every, if◌then◌else◌, codes,
}
use billing_validation_contr.Checks.{◌>>=◌, ◌>>◌, check}
use billing_validation_contr.Js.{
  Value, text, boolean, object, Props, end, field, plain, get_property, own_keys, is_hex_run,
  is_plain, is_key_of, data_value,
}
use billing_validation_contr.Authorization.Schema.{is_decimal_text}

-- The properties of a plain object with exactly the keys; that they are data is seen where they are
-- read, and every one is.
unfoldable pub snapshot_record : List String → Value → Option Props
snapshot_record keys (object proto ps) =
    check (
      is_plain proto
      && nat_eq (length (own_keys ps)) (length keys)
      && every (is_key_of keys) (own_keys ps))
    >> some ps
snapshot_record keys _ = none

-- A property that a test holds for.
unfoldable pub read : String → (Value → Bool) → Props → Option Value
read key test ps = data_value key ps >>= λ v. check (test v) >> some v

abbrev pub is_exactly : String → Value → Bool
is_exactly s (text t) = str_eq t s
is_exactly s _ = false

abbrev is_true : Value → Bool
is_true (boolean b) = b
is_true _ = false

abbrev pub text_of : Value → Option String
text_of (text s) = some s
text_of _ = none

abbrev pub read_text : String → (String → Bool) → Props → Option String
read_text key test ps = data_value key ps >>= text_of >>= λ s. check (test s) >> some s

-- What varies in the context: the commit, the run and its attempt.
pub record Context : Type 0 where
  pub sha : String
  pub run_id : String
  pub run_attempt : String

unfoldable pub authorization_context : Value → Option Context
authorization_context value = do
  ps ←
      snapshot_record
        ("repository" ∷ "repositoryId" ∷ "ref" ∷ "defaultBranch" ∷ "refProtected" ∷ "eventName"
          ∷ "workflowRef" ∷ "workflowSha" ∷ "sha" ∷ "runId" ∷ "runAttempt" ∷ [])
        value
  repository ← read "repository" (is_exactly "lawx-ai/billing-validation-control") ps
  id ← read "repositoryId" (is_exactly "1384018279") ps
  ref ← read "ref" (is_exactly "refs/heads/main") ps
  branch ← read "defaultBranch" (is_exactly "main") ps
  protected ← read "refProtected" is_true ps
  event ← read "eventName" (is_exactly "workflow_dispatch") ps
  workflow ←
      read "workflowRef"
        (is_exactly
          "lawx-ai/billing-validation-control/.github/workflows/authorize-local-collector.yml@refs/heads/main")
        ps
  sha ← read_text "sha" (is_hex_run 40) ps
  workflow_sha ← read "workflowSha" (is_exactly sha) ps
  run_id ← read_text "runId" is_decimal_text ps
  run_attempt ← read_text "runAttempt" is_decimal_text ps
  some (record { sha = sha; run_id = run_id; run_attempt = run_attempt })

pub record Inputs : Type 0 where
  pub candidate_sha : String
  pub execution_id : String
  pub activation_commitment : String
  pub suite : String

abbrev pub is_suite : String → Bool
is_suite s = str_eq s "billing-43" || str_eq s "billing-3ds-15"

-- Behind the check of the context.
unfoldable pub parse_inputs : Value → Option Inputs
parse_inputs inputs = do
  ps ←
      snapshot_record ("candidate_sha" ∷ "execution_id" ∷ "activation_commitment" ∷ "suite" ∷ [])
        inputs
  candidate_sha ← read_text "candidate_sha" (is_hex_run 40) ps
  execution_id ← read_text "execution_id" (is_hex_run 32) ps
  commitment ← read_text "activation_commitment" (is_hex_run 64) ps
  suite ← read_text "suite" is_suite ps
  some (record {
    candidate_sha = candidate_sha;
    execution_id = execution_id;
    activation_commitment = commitment;
    suite = suite;
  })

abbrev context_env : List (String × String)
context_env =
    ("repository", "CONTROL_REPOSITORY")
    ∷ ("repositoryId", "CONTROL_REPOSITORY_ID")
    ∷ ("ref", "CONTROL_REF")
    ∷ ("defaultBranch", "CONTROL_DEFAULT_BRANCH")
    ∷ ("refProtected", "CONTROL_REF_PROTECTED")
    ∷ ("eventName", "CONTROL_EVENT_NAME")
    ∷ ("workflowRef", "CONTROL_WORKFLOW_REF")
    ∷ ("workflowSha", "CONTROL_WORKFLOW_SHA")
    ∷ ("sha", "CONTROL_SHA")
    ∷ ("runId", "CONTROL_RUN_ID")
    ∷ ("runAttempt", "CONTROL_RUN_ATTEMPT")
    ∷ []

abbrev texts_of : List String → Props → Option Props
texts_of [] ps = some end
texts_of (k ∷ ks) ps = read_text k (λ s. not (str_eq s "")) ps >>= λ s.
    texts_of ks ps >>= λ qs. some (field k true (text s) qs)

unfoldable pub snapshot_authorization_environment : Value → List String → Option Props
snapshot_authorization_environment (object proto ps) fields =
    texts_of (map (λ e. e.1) context_env ++ ("DISPATCH_INPUTS" ∷ fields)) ps
snapshot_authorization_environment _ fields = none

abbrev context_props : List (String × String) → Props → Props
context_props [] snapshot = end
context_props ((key, name) ∷ entries) snapshot =
    let given = get_property name snapshot in
    let value = if str_eq key "refProtected" then boolean (is_exactly "true" given) else given in
    field key true value (context_props entries snapshot)

unfoldable pub context_from_environment : Value → Option Context
context_from_environment env = snapshot_authorization_environment env [] >>= λ snapshot.
    authorization_context (object plain (context_props context_env snapshot))

-- `Buffer.byteLength`.
abbrev byte_length : List ℕ → ℕ
byte_length [] = 0
byte_length (c ∷ cs) =
    let rest = byte_length cs in
    let width =
      if ltb c 0x80 then 1 else if ltb c 0x800 then 2 else if ltb c 0x1_0000 then 3 else 4 in
    width + rest

unfoldable pub parse_authorization_json : (List ℕ → Option Value) → Value → Option Value
parse_authorization_json parse_json (text s) =
    check (leb (byte_length (codes s)) 16_384) >> parse_json (codes s)
parse_authorization_json parse_json _ = none
