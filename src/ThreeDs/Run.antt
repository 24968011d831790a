-- ===== src/ThreeDs/Run.antt =====
-- The failures that `runThreeDsCase` of src/billing/three-ds.mjs finds, and its answer.
use billing_validation_contr.Common.{
  ℕ, Bool, true, false, ◌&&◌, ◌||◌, not, String, str_eq, List, [], ◌∷◌, ◌++◌, Option, none, some,
  nat_eq, leb, if◌then◌else◌, codes, length, includes, is_none, is_some,
}
use billing_validation_contr.Js.{Value}
use billing_validation_contr.ThreeDs.Scenarios.{Scenario, three_ds_scenario}
use billing_validation_contr.ThreeDs.Access.{Access, valid_expected_access}
use billing_validation_contr.ThreeDs.Verdict.{
  Evidence, Delayed, Observed, Identity, no_new_access, is_code, paid_state, is_expired_checkout,
  foreign_actor_denial,
}

-- `if (test) failures.push(code)`.
unfoldable pub note : Bool → String → List String
note true code = code ∷ []
note false code = []

abbrev is_not_before : Option ℕ → Option ℕ → Bool
is_not_before (some a) (some b) = leb b a
is_not_before none after = false
is_not_before (some a) none = true

abbrev is_zero : Option ℕ → Bool
is_zero none = false
is_zero (some n) = nat_eq n 0

unfoldable pub is_reconciled : Delayed → Evidence → Option Access → Identity → Bool
is_reconciled d e x identity =
    str_eq e.current_digest d.post_digest
    && is_not_before e.observed_at d.after_observed_at
    && is_code d.event_id e.event_id
    && is_zero e.pending_webhooks
    && e.processed
    && paid_state e x identity

abbrev after_delay :
    Evidence → Option Delayed → Option Evidence → Option Access → Identity → Evidence × List String
after_delay first (some d) (some e) x identity =
    (e, note (not (is_reconciled d e x identity)) "webhook_delay_post_reconciliation_unverified")
after_delay first _ _ x identity = (first, "webhook_delay_unverified" ∷ [])

-- The evidence that is judged, which is the second observation behind a delayed delivery, and the
-- failures of the delivery.
unfoldable pub delay_step : Scenario → Observed → Option Access → Identity → Evidence × List String
delay_step s o x identity =
    if s.webhook_delayed then after_delay o.first o.delayed o.second x identity else (o.first, [])

abbrev is_nonempty : Option String → Bool
is_nonempty none = false
is_nonempty (some t) = not (nat_eq (length (codes t)) 0)

abbrev is_one_of : List String → Option String → Bool
is_one_of names none = false
is_one_of names (some t) = includes names t

abbrev is_denied : Option Bool → Bool
is_denied none = false
is_denied (some b) = b

-- The observation of the session and of the access decision.
unfoldable pub case_failures : Scenario → Observed → Identity → List String
case_failures s o identity =
    note
      (is_code "expired_checkout" s.negative_case
        && not (is_expired_checkout identity o.session o.now))
      "checkout_session_expiry_unverified"
    ++ note
        (is_code "foreign_actor" s.negative_case
          && is_none (foreign_actor_denial identity o.decision))
        "foreign_actor_denial_unverified"
    ++ note (s.webhook_replay && not o.is_replayed) "webhook_replay_unverified"

-- What the case's own kind of failure looks like.
unfoldable pub is_negative : String → Evidence → Observed → Identity → Bool
is_negative negative e o identity =
    if str_eq negative "cancel"
    then is_code "canceled" e.intent_status
      && is_nonempty e.charge_id
      && is_code "challenge" e.authentication_flow
      && is_code "canceled" e.authentication_result_reason
    else if str_eq negative "failure"
    then is_code "requires_payment_method" e.intent_status
      && is_code "failed" e.authentication_result
    else if str_eq negative "authenticated_decline"
    then is_code "requires_payment_method" e.intent_status
      && is_code "authenticated" e.authentication_result
      && is_nonempty e.decline_code
    else if str_eq negative "incomplete"
    then is_code "requires_action" e.intent_status
      && is_one_of ("open" ∷ "draft" ∷ []) e.invoice_status
    else if str_eq negative "expired_checkout"
    then is_expired_checkout identity o.session o.now
      && not (is_code "succeeded" e.intent_status)
      && is_one_of ("open" ∷ "draft" ∷ "void" ∷ []) e.invoice_status
    else if str_eq negative "foreign_actor"
    then is_denied (foreign_actor_denial identity o.decision)
    else true

abbrev negative_code : String → String
negative_code negative =
    if str_eq negative "cancel"
    then "cancellation_not_verified"
    else if str_eq negative "failure"
    then "challenge_failure_not_verified"
    else if str_eq negative "authenticated_decline"
    then "authenticated_decline_not_verified"
    else if str_eq negative "incomplete"
    then "challenge_incomplete_not_verified"
    else if str_eq negative "expired_checkout"
    then "checkout_session_expiry_unverified"
    else "foreign_actor_denial_unverified"

abbrev pub is_unpaid_outcome : Scenario → Bool
is_unpaid_outcome s =
    str_eq s.expected_outcome "no_new_access" || str_eq s.expected_outcome "incomplete"

abbrev negative_failures : Option String → Evidence → Observed → Identity → List String
negative_failures none e o identity = []
negative_failures (some negative) e o identity =
    note (not (is_negative negative e o identity)) (negative_code negative)

unfoldable pub unpaid_failures : Scenario → Evidence → Observed → Identity → List String
unpaid_failures s e o identity =
    note (not (no_new_access e)) "unexpected_access"
    ++ note (not e.no_funds_collected) "unexpected_payment"
    ++ negative_failures s.negative_case e o identity

unfoldable pub paid_failures : Scenario → Evidence → Option Access → Identity → List String
paid_failures s e x identity =
    note (not (paid_state e x identity)) "payment_reconciliation_incomplete"
    ++ note (s.single_effect && not (paid_state e x identity)) "single_effect_not_unique"
    ++ note
        (str_eq s.expected_outcome "paid_challenge"
          && not (is_none e.authentication_flow || is_code "challenge" e.authentication_flow))
        "authentication_flow_not_challenge"
    ++ note
        (str_eq s.expected_outcome "paid_frictionless"
          && not (is_code "frictionless" e.authentication_flow))
        "authentication_flow_not_frictionless"

unfoldable pub outcome_failures :
    Scenario → Evidence → Observed → Option Access → Identity → List String
outcome_failures s e o x identity =
    if is_unpaid_outcome s then unpaid_failures s e o identity else paid_failures s e x identity

unfoldable pub failures : Scenario → Observed → Option Access → Identity → List String
failures s o x identity =
    let (e, delay) = delay_step s o x identity in
    note (s.challenge && not o.witness) "challenge_witness_unverified"
    ++ delay
    ++ case_failures s o identity
    ++ outcome_failures s e o x identity

-- `[...new Set(codes)]`, the first of each.
unfoldable pub unique : List String → List String → List String
unique seen [] = []
unique seen (c ∷ cs) = if includes seen c then unique seen cs else c ∷ unique (c ∷ seen) cs

pub record Verdict : Type 0 where
  pub outcome : String
  pub passed : Bool
  pub failures : List String
  pub single_effect_verified : Bool
  pub evidence : Evidence

pub data Answer : Type 0 where
  judged : Verdict → Answer
  refused : String → Answer

abbrev is_empty : List String → Bool
is_empty [] = true
is_empty (c ∷ cs) = false

unfoldable pub verdict : Scenario → Evidence → List String → Verdict
verdict s e codes = record {
  outcome = if is_empty codes then s.expected_outcome else "failed";
  passed = is_empty codes;
  failures = unique [] codes;
  single_effect_verified = s.single_effect && is_empty codes;
  evidence = e;
}

abbrev needs_access : Scenario → Bool
needs_access s =
    str_eq s.expected_outcome "paid_challenge" || str_eq s.expected_outcome "paid_frictionless"

abbrev judge : Scenario → Option Access → Identity → Observed → Answer
judge s x identity o =
    if not s.supported
    then refused "three_ds_scenario_unsupported"
    else if needs_access s && not (is_some x)
    then refused "three_ds_expected_access_invalid"
    else judged (verdict s (delay_step s o x identity).0 (failures s o x identity))

unfoldable pub run_three_ds_case : String → Value → Identity → Observed → Answer
run_three_ds_case id access identity o = elim (three_ds_scenario id) [
  | none ↦ refused "three_ds_scenario_invalid"
  | some s ↦ judge s (valid_expected_access access) identity o
]
