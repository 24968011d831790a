-- ===== src/Billing/Contracts.antt =====
-- src/contracts/billing-43.mjs: the registry of the 43 case contracts and the scenario runner. A
-- reflection on a revoked proxy that the code does not catch is `read_failed`.
use billing_validation_contr.Common.{
  ℕ, Bool, true, false, ◌&&◌, ◌||◌, not, String, str_eq, List, [], ◌∷◌, Option, none, some, nat_eq,
  if◌then◌else◌, length, every, some_of, includes, codes, find, same_codes,
}
use billing_validation_contr.Js.{
  Value, undefined, hostile, function, fraction, text, number, array, object, Prototype, Props,
  own_keys, dense_array, is_plain, is_key_of, data_value,
}
use billing_validation_contr.Billing.Cases.{
  billing_43_ids, task5_ids, task6_ids, evidence_kinds, allowed_operations,
}

pub data Code : Type 0 where
  billing_contracts_incomplete billing_contract_invalid billing_scenario_blocked : Code
  read_failed : Code

pub data Reply (A : Type 0) : Type 0 where
  ok : A → Reply A
  refused : Code → Reply A

infixl 5 ◌>>=◌ ◌>>◌
abbrev pub ◌>>=◌ : {A B : Type 0} → Reply A → (A → Reply B) → Reply B
ok a >>= f = f a
refused c >>= f = refused c

abbrev pub ◌>>◌ : {B : Type 0} → Reply (Unit {0}) → Reply B → Reply B
m >> k = m >>= λ _. k

unfoldable pub require : Bool → Code → Reply (Unit {0})
require true c = ok tt
require false c = refused c

unfoldable pub require_some : {A : Type 0} → Option A → Code → Reply A
require_some none c = refused c
require_some (some a) c = ok a

-- `CONTRACT_KEYS`.
abbrev contract_keys : List String
contract_keys =
    "id" ∷ "domain" ∷ "maxWrites" ∷ "allowedOperations" ∷ "requiredEvidence" ∷ "run" ∷ []

pub record Contract : Type 0 where
  pub id : Value
  pub domain : Value
  pub max_writes : Value
  pub operations : List Value
  pub evidence : List Value
  pub run : Value

-- What `snapshotContract` returns where it is not null.
pub record Captured : Type 0 where
  pub id : Value
  pub contract : Option Contract

abbrev pub or_undefined : Option Value → Value
or_undefined none = undefined
or_undefined (some v) = v

infixl 5 ◌and_then◌
abbrev ◌and_then◌ : {A B : Type 0} → Option A → (A → Option B) → Option B
none and_then f = none
some a and_then f = f a

unfoldable pub contract_of : Props → Option Contract
contract_of ps = data_value "id" ps and_then λ id. data_value "domain" ps and_then λ domain.
    data_value "maxWrites" ps and_then λ max_writes.
    data_value "allowedOperations" ps and_then λ allowed.
    data_value "requiredEvidence" ps and_then λ required. data_value "run" ps and_then λ run.
    dense_array allowed and_then λ operations. dense_array required and_then λ evidence.
    some (record {
      id = id;
      domain = domain;
      max_writes = max_writes;
      operations = operations;
      evidence = evidence;
      run = run;
    })

abbrev has_contract_keys : Props → Bool
has_contract_keys ps =
    nat_eq (length (own_keys ps)) (length contract_keys)
    && every (is_key_of contract_keys) (own_keys ps)

unfoldable pub snapshot_contract : Value → Option Captured
snapshot_contract (object proto ps) =
    if is_plain proto
    then some (record {
      id = or_undefined (data_value "id" ps);
      contract = if has_contract_keys ps then contract_of ps else none;
    })
    else none
snapshot_contract _ = none

-- The code units before the first dot.
abbrev before_dot : List ℕ → List ℕ
before_dot [] = []
before_dot (c ∷ cs) = if nat_eq c b'.' then [] else c ∷ before_dot cs

abbrev is_domain_of : String → Value → Bool
is_domain_of id (text s) = same_codes (codes s) (before_dot (codes id))
is_domain_of id _ = false

-- `Number.isFinite(value) && value >= 0`.
abbrev is_bound : Value → Bool
is_bound (number n) = true
is_bound fraction = true
is_bound _ = false

abbrev is_function : Value → Bool
is_function function = true
is_function _ = false

abbrev is_text_in : List String → Value → Bool
is_text_in names (text s) = includes names s
is_text_in names _ = false

abbrev is_same_text : Value → Value → Bool
is_same_text (text s) (text t) = str_eq s t
is_same_text _ _ = false

-- No text comes twice; where a value is no text, the code refuses by another test.
abbrev pub no_repeats : List Value → Bool
no_repeats [] = true
no_repeats (v ∷ vs) = not (some_of (is_same_text v) vs) && no_repeats vs

abbrev is_empty : List Value → Bool
is_empty [] = true
is_empty (v ∷ vs) = false

unfoldable pub valid_contract : String → Contract → Bool
valid_contract id c =
    is_domain_of id c.domain
    && is_bound c.max_writes
    && is_function c.run
    && not (is_empty c.evidence)
    && no_repeats c.operations
    && every (is_text_in allowed_operations) c.operations
    && no_repeats c.evidence
    && every (is_text_in evidence_kinds) c.evidence

-- `byId`, newest first.
pub record Registered : Type 0 where
  pub id : String
  pub contract : Contract

abbrev pub is_registered : List Registered → String → Bool
is_registered by_id id = some_of (λ (r : Registered). str_eq r.id id) by_id

unfoldable pub known_id : Value → Option String
known_id (text id) = if includes billing_43_ids id then some id else none
known_id _ = none

unfoldable pub register : List Registered → Value → Reply (List Registered)
register by_id candidate = do
  captured ← require_some (snapshot_contract candidate) billing_contracts_incomplete
  id ← require_some (known_id captured.id) billing_contracts_incomplete
  require (not (is_registered by_id id)) billing_contracts_incomplete
  contract ← require_some captured.contract billing_contract_invalid
  require (valid_contract id contract) billing_contract_invalid
  ok (record { id = id; contract = contract } ∷ by_id)

unfoldable pub register_all : List Registered → List Value → Reply (List Registered)
register_all by_id [] = ok by_id
register_all by_id (v ∷ vs) = register by_id v >>= λ next. register_all next vs

unfoldable pub is_complete : List Registered → Bool
is_complete by_id =
    nat_eq (length by_id) (length billing_43_ids) && every (is_registered by_id) billing_43_ids

abbrev pub has_id : String → Registered → Bool
has_id id r = str_eq r.id id

-- The entries in the order of the identifiers.
unfoldable pub in_order : List String → List Registered → List Registered
in_order [] by_id = []
in_order (id ∷ ids) by_id = elim (find (has_id id) by_id) [
  | none ↦ in_order ids by_id
  | some r ↦ r ∷ in_order ids by_id
]

-- `assertBilling43ContractsComplete` of the elements of a dense array.
unfoldable pub assert_complete : List Value → Reply (List Registered)
assert_complete contracts = do
  by_id ← register_all [] contracts
  require (is_complete by_id) billing_contracts_incomplete
  ok (in_order billing_43_ids by_id)

unfoldable pub ordered_contracts : List String → Props → Option (List Value)
ordered_contracts [] ps = some []
ordered_contracts (id ∷ ids) ps =
    data_value id ps and_then λ v. ordered_contracts ids ps and_then λ vs. some (v ∷ vs)

unfoldable pub has_case_keys : Prototype → Props → Bool
has_case_keys proto ps =
    is_plain proto
    && nat_eq (length (own_keys ps)) (length billing_43_ids)
    && every (is_key_of billing_43_ids) (own_keys ps)

-- `assertCompleteBilling43Contracts`. Its last test asks whether each entry of the registry has the
-- identifier that it is registered under, which `byId.set(captured.id, …)` makes true.
unfoldable pub assert_complete_contracts : Value → Reply (List Registered)
assert_complete_contracts hostile = refused read_failed
assert_complete_contracts (array vs) = do
  contracts ← require_some (dense_array (array vs)) billing_contracts_incomplete
  assert_complete contracts
assert_complete_contracts (object proto ps) = do
  require (has_case_keys proto ps) billing_contracts_incomplete
  contracts ← require_some (ordered_contracts billing_43_ids ps) billing_contracts_incomplete
  assert_complete contracts
assert_complete_contracts _ = refused billing_contracts_incomplete

-- `runBilling43Scenario`, up to the call of `createFixture`: the contract that would be run.
unfoldable pub run_scenario : Value → Value → Value → Reply Registered
run_scenario id contracts create_fixture = do
  registry ← assert_complete_contracts contracts
  case_id ← require_some (known_id id) billing_contract_invalid
  require (is_function create_fixture) billing_contract_invalid
  require (not (includes task5_ids case_id || includes task6_ids case_id)) billing_scenario_blocked
  require_some (find (has_id case_id) registry) billing_contract_invalid

-- `withCompleteBilling43Contracts`; `work` is a function of the registry if it is one at all.
unfoldable pub with_complete_contracts :
    {A : Type 0} → Value → Option (List Registered → A) → Reply A
with_complete_contracts contracts work = do
  registry ← assert_complete_contracts contracts
  run ← require_some work billing_contract_invalid
  ok (run registry)
