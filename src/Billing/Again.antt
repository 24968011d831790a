-- ===== src/Billing/Again.antt =====
-- The results that `validateBilling43Results` of src/contracts/evidence.mjs gives back, validated
-- again.
use billing_validation_contr.Common.{
  true, String, eq_refl, List, [], ◌∷◌, map, Option, none, some, ◌≡◌, refl, ap, subst, arith,
  nat_eq_iff, length,
}
use billing_validation_contr.Checks.{check, >>=-then, check-then, some-eq}
use billing_validation_contr.Js.{
  Value, text, array, object, Values, nil, cons, plain, end, field, dense_array,
}
use billing_validation_contr.Billing.Cases.{billing_43_ids, evidence_requirements}
use billing_validation_contr.Billing.Results.{
  result_fields, Fields, opaque_text, owned_ids, resource_texts, valid_evidence, Result, normalize,
  normalize_all, owned_values, validate_results,
}
use billing_validation_contr.Billing.Validated.{
  resource_texts-cons, AreComplete, normalize_all-AreComplete,
}

abbrev values_of : List Value → Values
values_of [] = nil
values_of (v ∷ vs) = cons v (values_of vs)

dense_array-values_of : (vs : List Value) → dense_array (array (values_of vs)) ≡ some vs
unfolding dense_array
dense_array-values_of [] = refl
dense_array-values_of (v ∷ vs) = ap (λ o. with_value o) (dense_array-values_of vs)
  where
    with_value : Option (List Value) → Option (List Value)
    with_value none = none
    with_value (some ws) = some (v ∷ ws)

-- The frozen objects that the code gives back.
abbrev result_value : Result → Value
result_value r = object plain (
    field "id" true (text r.id) (
      field "status" true (text "passed") (
        field "evidence" true (array (values_of r.evidence))
          (field "resourceIds" true (array (values_of (map text r.resource_ids))) end))))

abbrev pub results_value : List Result → Value
results_value rs = array (values_of (map result_value rs))

opaque_text-text : (v : Value) {id : String} → opaque_text v ≡ some id → v ≡ text id
unfolding opaque_text
opaque_text-text (text s) h = ground arith
opaque_text-text _ h = cc

resource_texts-again :
    (owned seen : List String) (vs : List Value) {ids : List String}
    → resource_texts owned seen vs ≡ some ids
    → resource_texts owned seen (map text ids) ≡ some ids
unfolding resource_texts
resource_texts-again owned seen [] {ids = ids} h =
    let none_left : [] ≡ ids = cc in
    subst (λ x. resource_texts owned seen (map text x) ≡ some x) none_left refl
resource_texts-again owned seen (v ∷ vs) {ids = ids} h = >>=-then (opaque_text v) _ h λ id is h1.
    check-then _ _ h1 λ fresh h2.
      >>=-then (resource_texts owned (id ∷ seen) vs) _ h2 λ rest more last.
        let all : id ∷ rest ≡ ids = cc in
        let again = subst (λ w. opaque_text w ≡ some id) (opaque_text-text v is) is in
        subst (λ x. resource_texts owned seen (map text x) ≡ some x) all
          (resource_texts-cons owned seen (text id) _ again fresh
            (resource_texts-again owned (id ∷ seen) vs more))

fields_of : Result → Fields
fields_of r = record {
  id = text r.id;
  status = text "passed";
  evidence = array (values_of r.evidence);
  resource_ids = array (values_of (map text r.resource_ids));
}

result_fields-result_value : (r : Result) → result_fields (result_value r) ≡ some (fields_of r)
unfolding result_fields check fields_of
result_fields-result_value r = refl

normalize-result_value :
    (owned : List String) (id : String) (evidence : List Value) (ids : List String)
    → valid_evidence evidence (evidence_requirements id) ≡ true
    → resource_texts owned [] (map text ids) ≡ some ids
    → let r : Result = record { id = id; evidence = evidence; resource_ids = ids } in
      normalize owned id (result_value r) ≡ some r
unfolding normalize check fields_of
normalize-result_value owned id evidence ids valid texts =
    rw
      (
        result_fields-result_value (record { id = id; evidence = evidence; resource_ids = ids }),
        dense_array-values_of evidence,
        dense_array-values_of (map text ids),
        eq_refl id,
        valid,
        texts,
      )
      refl

normalize-again :
    (owned : List String) (id : String) (v : Value) {r : Result}
    → normalize owned id v ≡ some r
    → normalize owned id (result_value r) ≡ some r
unfolding normalize
normalize-again owned id v {r = r} h = >>=-then (result_fields v) _ h λ fields _ h1.
    >>=-then (dense_array fields.evidence) _ h1 λ evidence _ h2.
      >>=-then (dense_array fields.resource_ids) _ h2 λ resources _ h3. check-then _ _ h3 λ _ h4.
        check-then _ _ h4 λ valid h5.
          >>=-then (resource_texts owned [] resources) _ h5 λ ids texts last.
            let fresh : Result = record { id = id; evidence = evidence; resource_ids = ids } in
            let is : fresh ≡ r = some-eq last in
            subst (λ x. normalize owned id (result_value x) ≡ some x) is
              (normalize-result_value owned id evidence ids valid
                (resource_texts-again owned [] resources texts))

normalize_all-again :
    (owned ids : List String) (vs : List Value) {rs : List Result}
    → normalize_all owned ids vs ≡ some rs
    → normalize_all owned ids (map result_value rs) ≡ some rs
unfolding normalize_all
normalize_all-again owned [] [] h =
    subst (λ x. normalize_all owned [] (map result_value x) ≡ some x) (some-eq h) refl
normalize_all-again owned [] (v ∷ vs) h = cc
normalize_all-again owned (id ∷ ids) [] h = cc
normalize_all-again owned (id ∷ ids) (v ∷ vs) h = >>=-then (normalize owned id v) _ h λ r one h1.
    >>=-then (normalize_all owned ids vs) _ h1 λ rs others last.
      subst (λ x. normalize_all owned (id ∷ ids) (map result_value x) ≡ some x) (some-eq last)
        (rw (normalize-again owned id v one, normalize_all-again owned ids vs others) refl)

AreComplete-length :
    (owned ids : List String) (rs : List Result)
    → AreComplete owned ids rs
    → length (map result_value rs) ≡ length ids
AreComplete-length owned [] [] h = refl
AreComplete-length owned [] (r ∷ rs) h = absurd h
AreComplete-length owned (id ∷ ids) [] h = absurd h
AreComplete-length owned (id ∷ ids) (r ∷ rs) h =
    omega (arith, AreComplete-length owned ids rs (h.3))

validate_results-values :
    (options : Value) (list vs : List Value) (owned : List String) {rs : List Result}
    → length vs ≡ length billing_43_ids
    → owned_values options ≡ some list
    → owned_ids [] list ≡ some owned
    → normalize_all owned billing_43_ids vs ≡ some rs
    → validate_results (array (values_of vs)) options ≡ some rs
unfolding validate_results check
validate_results-values options list vs owned many given mine all =
    rw (dense_array-values_of vs, (nat_eq_iff _ _).1 many, given, mine, all) refl

-- What is given back is accepted again, under the same options, with the same result.
pub validate_results-again :
    (results options : Value) {rs : List Result}
    → validate_results results options ≡ some rs
    → validate_results (results_value rs) options ≡ some rs
unfolding validate_results
validate_results-again results options {rs = rs} h =
    >>=-then (dense_array results) _ h λ values _ h1. check-then _ _ h1 λ _ h2.
      >>=-then (owned_values options) _ h2 λ list given h3.
        >>=-then (owned_ids [] list) _ h3 λ owned mine last.
          validate_results-values options list (map result_value rs) owned
            (AreComplete-length owned billing_43_ids rs
              (normalize_all-AreComplete owned billing_43_ids values last))
            given mine (normalize_all-again owned billing_43_ids values last)
