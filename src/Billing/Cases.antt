-- ===== src/Billing/Cases.antt =====
-- `BILLING_43_IDS`, `BILLING_43_TASK5_IDS`, `BILLING_43_EVIDENCE_KINDS` and
-- `BILLING_43_ALLOWED_OPERATIONS` of src/contracts/billing-43.mjs, and
-- `FINANCIAL_EVIDENCE_REQUIREMENTS` of src/billing/fixtures.mjs.
use billing_validation_contr.Common.{
  ℕ, zero, suc, length, String, List, [], ◌∷◌, ◌++◌, if◌then◌else◌, includes,
}

unfoldable pub billing_43_ids : List String
billing_43_ids =
    "signup.native" ∷ "signup.join" ∷ "signup.expired-intent" ∷ "signup.tampered-intent"
    ∷ "signup.replay" ∷ "pricing.base-agents" ∷ "pricing.progressive" ∷ "pricing.combo"
    ∷ "pricing.coupon-allowed" ∷ "pricing.coupon-rejected" ∷ "pricing.zero-total"
    ∷ "payment.approved" ∷ "payment.declined" ∷ "payment.abandoned" ∷ "payment.timeout"
    ∷ "payment.refresh" ∷ "payment.two-tabs" ∷ "zero.authorized" ∷ "zero.replay"
    ∷ "subscription.add-area" ∷ "subscription.upgrade" ∷ "subscription.downgrade"
    ∷ "subscription.proration" ∷ "subscription.renewal" ∷ "subscription.cancellation"
    ∷ "finance.delinquency" ∷ "finance.recovery" ∷ "finance.partial-refund"
    ∷ "finance.partial-credit" ∷ "finance.concurrent-adjustment" ∷ "access.contracted"
    ∷ "access.uncontracted" ∷ "access.other-team" ∷ "access.extras-preprocedural"
    ∷ "access.hub-blocked" ∷ "access.custom-blocked" ∷ "webhook.invalid-signature"
    ∷ "webhook.wrong-account" ∷ "webhook.wrong-mode" ∷ "webhook.replay" ∷ "webhook.reverse-order"
    ∷ "webhook.retry" ∷ "webhook.takeover" ∷ []

unfoldable pub task5_ids : List String
task5_ids =
    "signup.native" ∷ "signup.join" ∷ "signup.expired-intent" ∷ "signup.tampered-intent"
    ∷ "signup.replay" ∷ "pricing.base-agents" ∷ "pricing.progressive" ∷ "pricing.combo"
    ∷ "pricing.coupon-allowed" ∷ "pricing.coupon-rejected" ∷ "pricing.zero-total"
    ∷ "payment.approved" ∷ "payment.declined" ∷ "payment.abandoned" ∷ "payment.timeout"
    ∷ "payment.refresh" ∷ "payment.two-tabs" ∷ "zero.authorized" ∷ "zero.replay" ∷ []

abbrev slice_from : ℕ → List String → List String
slice_from zero ids = ids
slice_from (suc n) [] = []
slice_from (suc n) (id ∷ ids) = slice_from n ids

-- `TASK6_BLOCKED_ID_SET`: `BILLING_43_IDS.slice(BILLING_43_TASK5_IDS.length)`.
unfoldable pub task6_ids : List String
unfolding billing_43_ids task5_ids
task6_ids = slice_from (length task5_ids) billing_43_ids

abbrev pub evidence_kinds : List String
evidence_kinds = "http" ∷ "database" ∷ "stripe" ∷ "webhook" ∷ "worker" ∷ "browser" ∷ []

abbrev pub allowed_operations : List String
allowed_operations =
    "checkout.replay" ∷ "checkout_session.expire" ∷ "subscription.cancel" ∷ "fixtures.cleanup" ∷ []

abbrev read : List String
read = "http" ∷ "database" ∷ []

abbrev payment : List String
payment = read ++ ("stripe" ∷ "webhook" ∷ "worker" ∷ "browser" ∷ [])

abbrev rejected_payment : List String
rejected_payment = read ++ ("stripe" ∷ "browser" ∷ [])

abbrev settlement : List String
settlement = read ++ ("stripe" ∷ "webhook" ∷ "worker" ∷ [])

abbrev negative_webhook : List String
negative_webhook = read ++ ("webhook" ∷ [])

abbrev payment_ids : List String
payment_ids = "payment.approved" ∷ "payment.refresh" ∷ "payment.two-tabs" ∷ []

abbrev rejected_ids : List String
rejected_ids = "payment.declined" ∷ "payment.abandoned" ∷ "payment.timeout" ∷ []

abbrev settlement_ids : List String
settlement_ids =
    "subscription.add-area" ∷ "subscription.upgrade" ∷ "subscription.downgrade"
    ∷ "subscription.proration" ∷ "subscription.renewal" ∷ "subscription.cancellation"
    ∷ "finance.delinquency" ∷ "finance.recovery" ∷ "finance.partial-refund"
    ∷ "finance.partial-credit" ∷ "finance.concurrent-adjustment" ∷ "webhook.replay"
    ∷ "webhook.reverse-order" ∷ "webhook.retry" ∷ "webhook.takeover" ∷ []

abbrev negative_ids : List String
negative_ids = "webhook.invalid-signature" ∷ "webhook.wrong-account" ∷ "webhook.wrong-mode" ∷ []

-- `FINANCIAL_EVIDENCE_REQUIREMENTS[id]` of one of the 43.
unfoldable pub evidence_requirements : String → List String
evidence_requirements id =
    if includes payment_ids id
    then payment
    else if includes rejected_ids id
    then rejected_payment
    else if includes settlement_ids id
    then settlement
    else if includes negative_ids id
    then negative_webhook
    else read
