-- ===== src/ThreeDs/Verdict.antt =====
-- `runThreeDsCase` of src/billing/three-ds.mjs, over what it observes.
--
-- The observations (`observeFinancialEvidence`, the witness of the challenge, the delayed and the
-- replayed delivery) are data, in the order in which they are made; `none` is a call that throws.
use billing_validation_contr.Common.{
  ℕ, Bool, true, false, ◌&&◌, ◌||◌, not, String, str_eq, List, Option, none, some, nat_eq, leb,
  if◌then◌else◌, length, codes, is_alnum, is_lower, run_of, is_some, prefixed_run,
}
use billing_validation_contr.Js.{Value, text, boolean, safe_count}
use billing_validation_contr.Evidence.Shapes.{get, is_text, is_number}
use billing_validation_contr.ThreeDs.Access.{
  Grant, Settlement, Access, Payment, is_safe_token, expected_grant_count,
  matching_settlement_count,
}

-- The evidence of an observation: what Stripe, the webhook and the database show; the fields of
-- `provider` are `none` of null. `INTERNAL_EVIDENCE` holds the grants, the settlements and
-- `no_funds_collected`.
pub record Evidence : Type 0 where
  pub observed_at : Option ℕ
  pub payment : Payment
  pub stripe_paid : Bool
  pub intent_status : Option String
  pub invoice_status : Option String
  pub charge_id : Option String
  pub decline_code : Option String
  pub authentication_flow : Option String
  pub authentication_result : Option String
  pub authentication_result_reason : Option String
  pub no_funds_collected : Bool
  pub event_id : Option String
  pub processed : Bool
  pub pending_webhooks : Option ℕ
  pub current_digest : String
  pub unchanged : Bool
  pub context_count : ℕ
  pub revision_count : ℕ
  pub usage_count : ℕ
  pub settlements : List Settlement
  pub grants : List Grant
  pub baseline_grants : List Grant
  pub current_grants : List Grant

-- What `verifyDelayedWebhookDelivery` returns.
pub record Delayed : Type 0 where
  pub event_id : String
  pub post_digest : String
  pub after_observed_at : Option ℕ

pub record Observed : Type 0 where
  pub first : Evidence
  pub witness : Bool
  pub delayed : Option Delayed
  pub second : Option Evidence
  pub session : Option Value
  pub now : ℕ
  pub decision : Option Value
  pub is_replayed : Bool

pub record Identity : Type 0 where
  pub customer_id : String
  pub team_id : String
  pub checkout_session_id : String

unfoldable pub no_new_access : Evidence → Bool
no_new_access e =
    nat_eq (length e.settlements) 0
    && nat_eq (length e.grants) 0
    && nat_eq e.revision_count 0
    && nat_eq e.usage_count 0
    && e.unchanged

abbrev pub is_code : String → Option String → Bool
is_code s none = false
is_code s (some t) = str_eq t s

abbrev matches_once : Evidence → Identity → Access → Bool
matches_once e identity x =
    nat_eq (matching_settlement_count e.settlements e.payment identity.customer_id x.contract_id) 1

-- Without a valid access, no grant count equals that of the areas.
unfoldable pub paid_state : Evidence → Option Access → Identity → Bool
paid_state e none identity = false
paid_state e (some x) identity =
    e.stripe_paid
    && is_code "authenticated" e.authentication_result
    && e.processed
    && nat_eq e.context_count 1
    && nat_eq (length e.settlements) 1
    && matches_once e identity x
    && nat_eq (expected_grant_count e.baseline_grants e.current_grants e.grants x) (length x.areas)

abbrev is_session_char : ℕ → Bool
is_session_char c = is_alnum c || nat_eq c b'_'

abbrev is_session : Identity → Value → ℕ → Bool
is_session identity s now =
    is_text identity.checkout_session_id (get "id" s)
    && is_false (get "livemode" s)
    && is_text "expired" (get "status" s)
    && is_text "unpaid" (get "payment_status" s)
    && is_past (safe_count 0 (get "expires_at" s))
  where
    is_false : Value → Bool
    is_false (boolean b) = not b
    is_false _ = false

    is_past : Option ℕ → Bool
    is_past none = false
    is_past (some t) = leb t now

-- `observeExpiredCheckoutSession`, where it is not null; `session` is what Stripe answers, `now` is in
-- seconds. An expiry before 1970 is not accepted here.
unfoldable pub is_expired_checkout : Identity → Option Value → ℕ → Bool
is_expired_checkout identity none now = false
is_expired_checkout identity (some s) now =
    prefixed_run (codes "cs_") is_session_char 1 (length (codes identity.checkout_session_id))
      (codes identity.checkout_session_id)
    && is_session identity s now

abbrev is_token : Value → Bool
is_token (text s) = is_safe_token s
is_token _ = false

abbrev is_reason : Value → Bool
is_reason (text s) = run_of (λ c. is_lower c || nat_eq c b'_') 1 64 (codes s)
is_reason _ = false

abbrev is_decision : Value → Bool
is_decision d =
    is_token (get "actorTeamId" d)
    && is_token (get "resourceTeamId" d)
    && is_boolean (get "allowed" d)
    && is_some (safe_count 0 (get "statusCode" d))
    && is_reason (get "reason" d)
  where
    is_boolean : Value → Bool
    is_boolean (boolean b) = true
    is_boolean _ = false

abbrev is_denied : Identity → Value → Bool
is_denied identity d =
    not (is_text identity.team_id (get "actorTeamId" d))
    && is_text identity.team_id (get "resourceTeamId" d)
    && is_refused (get "allowed" d)
    && is_number 403 (get "statusCode" d)
    && is_text "team_mismatch" (get "reason" d)
  where
    is_refused : Value → Bool
    is_refused (boolean b) = not b
    is_refused _ = false

-- `observeForeignActorDenial`: `denied` of the decision, where it is a decision.
unfoldable pub foreign_actor_denial : Identity → Option Value → Option Bool
foreign_actor_denial identity none = none
foreign_actor_denial identity (some d) = if is_decision d then some (is_denied identity d) else none
