-- ===== src/Dispatch/Parse.antt =====
-- `assertProtectedDefaultRef` and `parseDispatch` of src/contracts/dispatch.mjs, and
-- `matchesControlRepository` of src/contracts/control-identity.mjs.
use billing_validation_contr.Common.{
  ℕ, ◌+◌, ◌*◌, ◌-◌, Bool, true, false, ◌&&◌, not, String, str_eq, List, [], ◌∷◌, map, Option, none,
  some, nat_eq, if◌then◌else◌, every, some_of, codes, includes, is_digit, is_hex, run_of,
  prefixed_run, to_lower,
}
use billing_validation_contr.Js.{
  Value, undefined, hostile, text, number, object, boolean, Props, end, own_keys, enumerable_keys,
  get_property, is_hex_run,
}

pub data Refusal : Type 0 where
  malformed_control_context control_repository_not_allowed default_branch_unavailable : Refusal
  protected_ref_required malformed_dispatch candidate_ref_forbidden : Refusal
  unsupported_dispatch_input unsupported_operation candidate_repository_not_allowed : Refusal
  full_candidate_sha_required source_run_not_allowed_for_collect : Refusal
  activation_commitment_required malformed_activation_commitment : Refusal
  per_attempt_runner_label_required activation_commitment_not_allowed_for_recheck : Refusal
  runner_label_not_allowed_for_recheck malformed_source_run_id malformed_source_run_attempt :
      Refusal
  read_failed : Refusal

pub data Parsed (A : Type 0) : Type 0 where
  accepted : A → Parsed A
  rejected : Refusal → Parsed A

infixl 5 ◌>>=◌ ◌>>◌
abbrev pub ◌>>=◌ : {A B : Type 0} → Parsed A → (A → Parsed B) → Parsed B
accepted a >>= f = f a
rejected c >>= f = rejected c

abbrev pub ◌>>◌ : {B : Type 0} → Parsed (Unit {0}) → Parsed B → Parsed B
m >> k = m >>= λ _. k

abbrev pub require : Bool → Refusal → Parsed (Unit {0})
require true c = accepted tt
require false c = rejected c

-- `value === s`.
abbrev pub is_text : String → Value → Bool
is_text s (text t) = str_eq t s
is_text s _ = false

abbrev control_repository_id : ℕ
control_repository_id = 1384018279

-- A number's decimal text is the identifier's if the numbers are equal.
unfoldable pub matches_control_repository : Value → Value → Bool
matches_control_repository repository (text id) =
    is_text "lawx-ai/billing-validation-control" repository && str_eq id "1384018279"
matches_control_repository repository (number n) =
    is_text "lawx-ai/billing-validation-control" repository && nat_eq n control_repository_id
matches_control_repository repository _ = false

-- The properties of a record that is no array, `{}` for an argument that is left off.
abbrev pub record_of : Refusal → Value → Parsed Props
record_of c (object proto ps) = accepted ps
record_of c hostile = rejected read_failed
record_of c _ = rejected c

abbrev pub context_of : Value → Parsed Props
context_of undefined = accepted end
context_of value = record_of malformed_control_context value

abbrev pub is_true : Value → Bool
is_true (boolean b) = b
is_true _ = false

unfoldable pub assert_protected_default_ref : Value → Parsed (Unit {0})
assert_protected_default_ref context = do
  ps ← context_of context
  require
      (matches_control_repository (get_property "repository" ps) (get_property "repositoryId" ps))
      control_repository_not_allowed
  require (is_text "main" (get_property "defaultBranch" ps)) default_branch_unavailable
  require
      (is_text "refs/heads/main" (get_property "ref" ps)
        && is_true (get_property "refProtected" ps))
      protected_ref_required

pub data Operation : Type 0 where
  collect recheck : Operation

pub record Dispatch : Type 0 where
  pub operation : Operation
  pub candidate_sha : List ℕ
  pub source_run_id : Option String
  pub source_run_attempt : Option ℕ
  pub runner_label : Option String
  pub activation_commitment : Option String

abbrev pub input_keys : List String
input_keys =
    "operation" ∷ "candidate_repository" ∷ "candidate_sha" ∷ "source_run_id" ∷ "source_run_attempt"
    ∷ "runner_label" ∷ "supervisor_activation" ∷ []

abbrev pub is_candidate_ref : Option String → Bool
is_candidate_ref none = false
is_candidate_ref (some k) = str_eq k "candidate_ref"

abbrev pub parse_operation : Value → Parsed Operation
parse_operation (text s) =
    if str_eq s "collect"
    then accepted collect
    else if str_eq s "recheck"
    then accepted recheck
    else rejected unsupported_operation
parse_operation _ = rejected unsupported_operation

-- /^[0-9a-f]{40}$/i
abbrev pub full_sha : Value → Parsed (List ℕ)
full_sha (text s) =
    if run_of is_hex 40 40 (map to_lower (codes s))
    then accepted (map to_lower (codes s))
    else rejected full_candidate_sha_required
full_sha _ = rejected full_candidate_sha_required

-- /^[1-9][0-9]{0,k}$/
abbrev pub is_positive_decimal : ℕ → String → Bool
is_positive_decimal k s = elim (codes s) [
  | [] ↦ false
  | c ∷ cs ↦ is_digit c && not (nat_eq c b'0') && run_of is_digit 0 k cs
]

-- `Number(s)` of decimal digits.
abbrev pub decimal : ℕ → List ℕ → ℕ
decimal n [] = n
decimal n (c ∷ cs) = decimal (n * 10 + (c - b'0')) cs

abbrev pub text_that : (String → Bool) → Refusal → Value → Parsed String
text_that p c (text s) = if p s then accepted s else rejected c
text_that p c _ = rejected c

abbrev pub is_commitment : String → Bool
is_commitment s = is_hex_run 64 s

abbrev pub is_label : String → Bool
is_label s = prefixed_run (codes "billing-validation-") is_hex 32 32 (codes s)

abbrev pub is_given : String → Bool
is_given s = not (str_eq s "")

unfoldable pub no_source_run : Props → Parsed (Unit {0})
no_source_run ps =
    require
      (is_text "" (get_property "source_run_id" ps)
        && is_text "" (get_property "source_run_attempt" ps))
      source_run_not_allowed_for_collect

unfoldable pub commitment_of : Props → Parsed String
commitment_of ps = do
  given ←
      text_that is_given activation_commitment_required (get_property "supervisor_activation" ps)
  text_that is_commitment malformed_activation_commitment (text given)

unfoldable pub label_of : Props → Parsed String
label_of ps = text_that is_label per_attempt_runner_label_required (get_property "runner_label" ps)

unfoldable pub parse_collect : List ℕ → Props → Parsed Dispatch
parse_collect sha ps = do
  no_source_run ps
  given ← commitment_of ps
  label ← label_of ps
  accepted (record {
    operation = collect;
    candidate_sha = sha;
    source_run_id = none;
    source_run_attempt = none;
    runner_label = some label;
    activation_commitment = some given;
  })

unfoldable pub no_runner : Props → Parsed (Unit {0})
no_runner ps = do
  require (is_text "" (get_property "supervisor_activation" ps))
      activation_commitment_not_allowed_for_recheck
  require (is_text "" (get_property "runner_label" ps)) runner_label_not_allowed_for_recheck

unfoldable pub source_run_of : Props → Parsed String
source_run_of ps =
    text_that (is_positive_decimal 19) malformed_source_run_id (get_property "source_run_id" ps)

unfoldable pub source_attempt_of : Props → Parsed String
source_attempt_of ps =
    text_that (is_positive_decimal 8) malformed_source_run_attempt
      (get_property "source_run_attempt" ps)

unfoldable pub parse_recheck : List ℕ → Props → Parsed Dispatch
parse_recheck sha ps = do
  no_runner ps
  run ← source_run_of ps
  attempt ← source_attempt_of ps
  accepted (record {
    operation = recheck;
    candidate_sha = sha;
    source_run_id = some run;
    source_run_attempt = some (decimal 0 (codes attempt));
    runner_label = none;
    activation_commitment = none;
  })

abbrev pub parse_by : Operation → List ℕ → Props → Parsed Dispatch
parse_by collect sha ps = parse_collect sha ps
parse_by recheck sha ps = parse_recheck sha ps

-- The record, with no key but those of `INPUT_KEYS`.
unfoldable pub dispatch_input : Value → Parsed Props
dispatch_input input = do
  ps ← record_of malformed_dispatch input
  require (not (some_of is_candidate_ref (own_keys ps))) candidate_ref_forbidden
  require (every (includes input_keys) (enumerable_keys ps)) unsupported_dispatch_input
  accepted ps

unfoldable pub operation_of : Props → Parsed Operation
operation_of ps = do
  operation ← parse_operation (get_property "operation" ps)
  require (is_text "lawxcompany-stack/Plataforma-LawX" (get_property "candidate_repository" ps))
      candidate_repository_not_allowed
  accepted operation

unfoldable pub sha_of : Props → Parsed (List ℕ)
sha_of ps = full_sha (get_property "candidate_sha" ps)

unfoldable pub parse_dispatch : Value → Value → Parsed Dispatch
parse_dispatch input context = do
  assert_protected_default_ref context
  ps ← dispatch_input input
  operation ← operation_of ps
  sha ← sha_of ps
  parse_by operation sha ps
