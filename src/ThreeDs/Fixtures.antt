-- ===== src/ThreeDs/Fixtures.antt =====
-- A paid case of one contract with one area.
use billing_validation_contr.Common.{Bool, true, false, [], ◌∷◌, none, some, ◌≡◌}
use billing_validation_contr.Js.{Value, text, array, object, nil, cons, plain, end, field}
use billing_validation_contr.ThreeDs.Access.{Grant, Settlement, Access}
use billing_validation_contr.ThreeDs.Verdict.{Evidence, Observed, Identity}
use billing_validation_contr.ThreeDs.Run.{Answer, judged, refused, Verdict}

abbrev pub grant : Grant
grant = record { id = "grant_1"; contract_id = "contract_1"; area = "civil"; status = "active" }

abbrev settlement : Settlement
settlement = record {
  contract_id = "contract_1";
  invoice_id = "in_1";
  subscription_id = "sub_1";
  customer_id = "cus_1";
  amount = some 9_900;
  currency = "BRL";
}

abbrev evidence : Evidence
evidence = record {
  observed_at = some 10;
  payment = record {
    invoice_id = "in_1";
    subscription_id = some "sub_1";
    amount_paid = some 9_900;
  };
  stripe_paid = true;
  intent_status = some "succeeded";
  invoice_status = some "paid";
  charge_id = some "ch_1";
  decline_code = none;
  authentication_flow = some "challenge";
  authentication_result = some "authenticated";
  authentication_result_reason = none;
  no_funds_collected = false;
  event_id = some "evt_1";
  processed = true;
  pending_webhooks = some 0;
  current_digest = "digest";
  unchanged = false;
  context_count = 1;
  revision_count = 1;
  usage_count = 1;
  settlements = settlement ∷ [];
  grants = grant ∷ [];
  baseline_grants = [];
  current_grants = grant ∷ [];
}

abbrev pub observed : Observed
observed = record {
  first = evidence;
  witness = true;
  delayed = none;
  second = none;
  session = none;
  now = 10;
  decision = none;
  is_replayed = false;
}

abbrev pub identity : Identity
identity = record { customer_id = "cus_1"; team_id = "team_1"; checkout_session_id = "cs_1" }

abbrev pub access : Access
access = record { contract_id = "contract_1"; areas = "civil" ∷ [] }

abbrev pub access_value : Value
access_value = object plain (
    field "contractId" true (text "contract_1")
      (field "areas" true (array (cons (text "civil") nil)) end))

abbrev is_judged : Answer → Bool
is_judged (judged v) = true
is_judged (refused c) = false

abbrev pub verdict_of : (a : Answer) → is_judged a ≡ true → Verdict
verdict_of (judged v) h = v
verdict_of (refused c) h = absurd cc
