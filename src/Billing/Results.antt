-- ===== src/Billing/Results.antt =====
-- `validateBilling43Results` of src/contracts/evidence.mjs. It refuses with one code only,
-- `billing_result_invalid`, which is `none` here.
use billing_validation_contr.Common.{
  ℕ, zero, suc, Bool, true, false, ◌&&◌, ◌||◌, not, String, str_eq, List, [], ◌∷◌, map, Option,
  none, some, nat_eq, if◌then◌else◌, length, every, some_of, includes, codes, is_alnum, is_upper,
  is_lower, to_lower, run_of,
}
use billing_validation_contr.Checks.{◌>>=◌, ◌>>◌, check}
use billing_validation_contr.Js.{
  Value, undefined, null, text, object, own_keys, dense_array, is_key_of, data_value,
}
use billing_validation_contr.Billing.Cases.{billing_43_ids, evidence_requirements}

-- `snapshotExactDataRecord` with the keys of `BILLING_43_RESULT_KEYS`.
abbrev result_keys : List String
result_keys = "id" ∷ "status" ∷ "evidence" ∷ "resourceIds" ∷ []

pub record Fields : Type 0 where
  pub id : Value
  pub status : Value
  pub evidence : Value
  pub resource_ids : Value

unfoldable pub result_fields : Value → Option Fields
result_fields (object proto ps) = do
  check (nat_eq (length (own_keys ps)) 4 && every (is_key_of result_keys) (own_keys ps))
  id ← data_value "id" ps
  status ← data_value "status" ps
  evidence ← data_value "evidence" ps
  resource_ids ← data_value "resourceIds" ps
  some (record { id = id; status = status; evidence = evidence; resource_ids = resource_ids })
result_fields _ = none

-- /^[A-Za-z][A-Za-z0-9]{0,15}_[A-Za-z0-9][A-Za-z0-9._:-]{1,111}$/
abbrev is_letter : ℕ → Bool
is_letter c = is_upper c || is_lower c

abbrev is_tail_char : ℕ → Bool
is_tail_char c = is_alnum c || nat_eq c b'.' || nat_eq c b'_' || nat_eq c b':' || nat_eq c b'-'

abbrev is_tail : List ℕ → Bool
is_tail [] = false
is_tail (c ∷ cs) = is_alnum c && run_of is_tail_char 1 111 cs

-- At most `n` letters and digits, an underscore, and the rest: the first underscore ends the prefix.
abbrev is_prefixed : ℕ → List ℕ → Bool
is_prefixed n [] = false
is_prefixed zero (c ∷ cs) = nat_eq c b'_' && is_tail cs
is_prefixed (suc n) (c ∷ cs) = if nat_eq c b'_' then is_tail cs else is_alnum c && is_prefixed n cs

abbrev is_opaque : List ℕ → Bool
is_opaque [] = false
is_opaque (c ∷ cs) = is_letter c && is_prefixed 15 cs

abbrev starts_with : List ℕ → List ℕ → Bool
starts_with [] s = true
starts_with (p ∷ ps) [] = false
starts_with (p ∷ ps) (c ∷ cs) = nat_eq p c && starts_with ps cs

abbrev contains : List ℕ → List ℕ → Bool
contains p [] = starts_with p []
contains p (c ∷ cs) = starts_with p (c ∷ cs) || contains p cs

-- `SENSITIVE_ID_FRAGMENT`; the other pattern lets only ASCII through, where the flag `i` is `to_lower`.
abbrev sensitive_fragments : List String
sensitive_fragments =
    "email" ∷ "phone" ∷ "cookie" ∷ "secret" ∷ "token" ∷ "session" ∷ "payload" ∷ "password" ∷ []

abbrev is_sensitive : List ℕ → Bool
is_sensitive s = some_of (λ f. contains (codes f) (map to_lower s)) sensitive_fragments

unfoldable pub is_opaque_id : String → Bool
is_opaque_id s = is_opaque (codes s) && not (is_sensitive (codes s))

unfoldable pub opaque_text : Value → Option String
opaque_text (text s) = if is_opaque_id s then some s else none
opaque_text _ = none

-- The loop over `ownedResourceIds`: each once.
unfoldable pub owned_ids : List String → List Value → Option (List String)
owned_ids seen [] = some seen
owned_ids seen (v ∷ vs) = do
  id ← opaque_text v
  check (not (includes seen id))
  owned_ids (id ∷ seen) vs

-- `validBilling43ResourceIds`: owned, and each once.
unfoldable pub resource_texts : List String → List String → List Value → Option (List String)
resource_texts owned seen [] = some []
resource_texts owned seen (v ∷ vs) = do
  id ← opaque_text v
  check (includes owned id && not (includes seen id))
  rest ← resource_texts owned (id ∷ seen) vs
  some (id ∷ rest)

abbrev is_text : String → Value → Bool
is_text s (text t) = str_eq t s
is_text s _ = false

-- `validBilling43Evidence`.
unfoldable pub valid_evidence : List Value → List String → Bool
valid_evidence [] [] = true
valid_evidence (v ∷ vs) (k ∷ ks) = is_text k v && valid_evidence vs ks
valid_evidence _ _ = false

-- A result as it is given back, with the evidence that was captured; its status is `passed`.
pub record Result : Type 0 where
  pub id : String
  pub evidence : List Value
  pub resource_ids : List String

unfoldable pub normalize : List String → String → Value → Option Result
normalize owned id value = do
  r ← result_fields value
  evidence ← dense_array r.evidence
  resource_ids ← dense_array r.resource_ids
  check (is_text id r.id && is_text "passed" r.status)
  check (valid_evidence evidence (evidence_requirements id))
  ids ← resource_texts owned [] resource_ids
  some (record { id = id; evidence = evidence; resource_ids = ids })

unfoldable pub normalize_all : List String → List String → List Value → Option (List Result)
normalize_all owned [] [] = some []
normalize_all owned (id ∷ ids) (v ∷ vs) = do
  r ← normalize owned id v
  rs ← normalize_all owned ids vs
  some (r ∷ rs)
normalize_all owned _ _ = none

-- `ownedResourceIds ?? []` of options that hold no other key; no options are `{}`.
unfoldable pub owned_values : Value → Option (List Value)
owned_values undefined = some []
owned_values (object proto ps) = do
  check (every (is_key_of ("ownedResourceIds" ∷ [])) (own_keys ps))
  of_option (own_keys ps) (data_value "ownedResourceIds" ps)
  where
    of_value : Value → Option (List Value)
    of_value undefined = some []
    of_value null = some []
    of_value v = dense_array v

    of_option : List (Option String) → Option Value → Option (List Value)
    of_option [] o = some []
    of_option (k ∷ ks) none = none
    of_option (k ∷ ks) (some v) = of_value v
owned_values _ = none

unfoldable pub validate_results : Value → Value → Option (List Result)
validate_results results options = do
  values ← dense_array results
  check (nat_eq (length values) (length billing_43_ids))
  owned_list ← owned_values options
  owned ← owned_ids [] owned_list
  normalize_all owned billing_43_ids values
