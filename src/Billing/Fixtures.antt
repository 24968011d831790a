-- ===== src/Billing/Fixtures.antt =====
-- Contracts and results of the 43 cases.
use billing_validation_contr.Common.{
  Bool, true, false, String, List, [], ◌∷◌, ◌++◌, map, Option, none, some, ◌≡◌,
}
use billing_validation_contr.Js.{
  Value, function, text, number, array, object, Values, nil, cons, plain, end, field,
}
use billing_validation_contr.Billing.Cases.{
  billing_43_ids, task5_ids, task6_ids, evidence_requirements,
}
use billing_validation_contr.Billing.Contracts.{Reply, ok, refused}

abbrev pub is_ok : {A : Type 0} → Reply A → Bool
is_ok (ok a) = true
is_ok (refused c) = false

abbrev pub ok_of : {A : Type 0} (r : Reply A) → is_ok r ≡ true → A
ok_of (ok a) h = a
ok_of (refused c) h = absurd cc

abbrev pub is_given : {A : Type 0} → Option A → Bool
is_given none = false
is_given (some a) = true

abbrev pub value_of : {A : Type 0} (o : Option A) → is_given o ≡ true → A
value_of none h = absurd cc
value_of (some a) h = a

abbrev array_of : List Value → Values
array_of [] = nil
array_of (v ∷ vs) = cons v (array_of vs)

abbrev pub contract : String → String → Value
contract domain id = object plain (
    field "id" true (text id) (
      field "domain" true (text domain) (
        field "maxWrites" true (number 1) (
          field "allowedOperations" true (array (cons (text "checkout.replay") nil)) (
            field "requiredEvidence" true (array (cons (text "http") nil))
              (field "run" true function end))))))

abbrev domains : List (String × List String)
domains =
    (
      "signup",
      "signup.native" ∷ "signup.join" ∷ "signup.expired-intent" ∷ "signup.tampered-intent"
          ∷ "signup.replay" ∷ [],
    )
    ∷ (
      "pricing",
      "pricing.base-agents" ∷ "pricing.progressive" ∷ "pricing.combo" ∷ "pricing.coupon-allowed"
          ∷ "pricing.coupon-rejected" ∷ "pricing.zero-total" ∷ [],
    )
    ∷ (
      "payment",
      "payment.approved" ∷ "payment.declined" ∷ "payment.abandoned" ∷ "payment.timeout"
          ∷ "payment.refresh" ∷ "payment.two-tabs" ∷ [],
    )
    ∷ ("zero", "zero.authorized" ∷ "zero.replay" ∷ [])
    ∷ (
      "subscription",
      "subscription.add-area" ∷ "subscription.upgrade" ∷ "subscription.downgrade"
          ∷ "subscription.proration" ∷ "subscription.renewal" ∷ "subscription.cancellation" ∷ [],
    )
    ∷ (
      "finance",
      "finance.delinquency" ∷ "finance.recovery" ∷ "finance.partial-refund"
          ∷ "finance.partial-credit" ∷ "finance.concurrent-adjustment" ∷ [],
    )
    ∷ (
      "access",
      "access.contracted" ∷ "access.uncontracted" ∷ "access.other-team"
          ∷ "access.extras-preprocedural" ∷ "access.hub-blocked" ∷ "access.custom-blocked" ∷ [],
    )
    ∷ (
      "webhook",
      "webhook.invalid-signature" ∷ "webhook.wrong-account" ∷ "webhook.wrong-mode"
          ∷ "webhook.replay" ∷ "webhook.reverse-order" ∷ "webhook.retry" ∷ "webhook.takeover" ∷ [],
    )
    ∷ []

abbrev contracts_of : List (String × List String) → List Value
contracts_of [] = []
contracts_of (d ∷ ds) = map (contract d.0) d.1 ++ contracts_of ds

abbrev pub contracts : Value
contracts = array (array_of (contracts_of domains))

abbrev pub result : String → Value
unfolding evidence_requirements
result id = object plain (
    field "id" true (text id) (
      field "status" true (text "passed") (
        field "evidence" true (array (array_of (map text (evidence_requirements id))))
          (field "resourceIds" true (array (cons (text "cus_42ab") nil)) end))))

abbrev pub results : Value
unfolding billing_43_ids task5_ids task6_ids
results = array (array_of (map result billing_43_ids))

abbrev pub options : Value
options =
    object plain (
      field "ownedResourceIds" true (array (cons (text "cus_42ab") (cons (text "sub_99z") nil)))
        end)
