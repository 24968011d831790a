-- ===== src/Attempts/Postgres/Intents.antt =====
-- The Stripe intents of src/attempts/postgres-store.mjs: `hasInFlightStripeIntent`,
-- `getStripeIntent`, `getStripeIntentByOperation`, `listPendingStripeIntents`,
-- `insertStripeIntent`, `getStripeReceipt` and `putStripeReceipt`.
use Prim.Native.Nat.{Ordering}
use Prim.Native.String.{compare}
use billing_validation_contr.Common.{
  Bool, true, false, ◌&&◌, ◌||◌, not, String, str_eq, List, [], ◌∷◌, map, Option, none, some, ltb,
  nat_eq, if◌then◌else◌, find, keep, some_of,
}
use billing_validation_contr.Attempts.Data.{database_rejected, StripeIntent, StripeReceipt}
use billing_validation_contr.Attempts.Session.{
  Tables, Host, Action, business_lock, done, refused, ◌>>◌,
}
use billing_validation_contr.Attempts.Postgres.Basic.{lock}
use billing_validation_contr.Attempts.Postgres.Ledger.{environment_from_db}

-- `NOT EXISTS (SELECT 1 FROM stripe_receipts ...)`.
unfoldable pub is_open : List StripeReceipt → StripeIntent → Bool
is_open receipts i = not (some_of (λ x. str_eq x.intent_id i.intent_id) receipts)

unfoldable pub is_pending : String → Tables → StripeIntent → Bool
unfolding is_open
is_pending attempt_id t i = str_eq i.attempt_id attempt_id && is_open t.stripe_receipts i

unfoldable pub has_in_flight_stripe_intent : String → Action Bool
unfolding is_pending
has_in_flight_stripe_intent attempt_id s =
    done (some_of (is_pending attempt_id s.tables) s.intents) s

abbrev pub intent_from_db : Host → StripeIntent → StripeIntent
intent_from_db host i = record i { environment = environment_from_db host i.environment }

abbrev maybe_intent : Host → Option StripeIntent → Option StripeIntent
maybe_intent host none = none
maybe_intent host (some i) = some (intent_from_db host i)

abbrev pub is_operation : String → String → StripeIntent → Bool
is_operation attempt_id operation i = str_eq i.attempt_id attempt_id && str_eq i.operation operation

unfoldable pub get_stripe_intent_by_operation :
    Host → String → String → Action (Option StripeIntent)
unfolding lock
get_stripe_intent_by_operation host attempt_id operation = do
  lock (business_lock "stripe-intent-operation" (attempt_id ∷ operation ∷ []))
  λ s. done (maybe_intent host (find (is_operation attempt_id operation) s.intents)) s

unfoldable pub get_stripe_intent : Host → String → Action (Option StripeIntent)
unfolding lock
get_stripe_intent host id = do
  lock (business_lock "stripe-intent" (id ∷ []))
  λ s. done (maybe_intent host (find (λ i. str_eq i.intent_id id) s.intents)) s

-- `ORDER BY created_at, intent_id`.
is_before : StripeIntent → StripeIntent → Bool
is_before a b =
    ltb a.created_at b.created_at
    || (nat_eq a.created_at b.created_at
        && elim (compare a.intent_id b.intent_id) [ Ordering.lt ↦ true | _ ↦ false ])

insert_ordered : StripeIntent → List StripeIntent → List StripeIntent
unfolding is_before
insert_ordered i [] = i ∷ []
insert_ordered i (j ∷ js) = if is_before i j then i ∷ j ∷ js else j ∷ insert_ordered i js

unfoldable pub ordered : List StripeIntent → List StripeIntent
unfolding insert_ordered
ordered [] = []
ordered (i ∷ is) = insert_ordered i (ordered is)

unfoldable pub list_pending_stripe_intents : Host → String → Action (List StripeIntent)
unfolding lock is_pending ordered
list_pending_stripe_intents host attempt_id = do
  lock (business_lock "stripe-intent-attempt" (attempt_id ∷ []))
  λ s.
      done (map (intent_from_db host) (ordered (keep (is_pending attempt_id s.tables) s.intents))) s

-- The primary key, `UNIQUE (attempt_id, operation)` and `UNIQUE (account_id, idempotency_key)`.
abbrev clashes_with : StripeIntent → StripeIntent → Bool
clashes_with i x =
    str_eq x.intent_id i.intent_id
    || is_operation i.attempt_id i.operation x
    || (str_eq x.account_id i.account_id && str_eq x.idempotency_key i.idempotency_key)

abbrev with_intent : StripeIntent → Tables → Tables
with_intent i t = record t { intents = i ∷ t.intents }

unfoldable pub insert_stripe_intent : StripeIntent → Action (Unit {0})
unfolding lock
insert_stripe_intent i = do
  lock (business_lock "stripe-intent-operation" (i.attempt_id ∷ i.operation ∷ []))
  lock (business_lock "stripe-intent-attempt" (i.attempt_id ∷ []))
  lock (business_lock "stripe-intent-idempotency" (i.account_id ∷ i.idempotency_key ∷ []))
  λ s.
      if some_of (clashes_with i) s.intents
      then refused database_rejected s
      else done tt (record s { tables = with_intent i s.tables })

unfoldable pub get_stripe_receipt : String → Action (Option StripeReceipt)
unfolding lock
get_stripe_receipt intent_id = do
  lock (business_lock "stripe-receipt" (intent_id ∷ []))
  λ s. done (find (λ x. str_eq x.intent_id intent_id) s.stripe_receipts) s

abbrev with_stripe_receipt : StripeReceipt → Tables → Tables
with_stripe_receipt r t = record t { stripe_receipts = r ∷ t.stripe_receipts }

-- The primary key and `UNIQUE (intent_id)`.
unfoldable pub put_stripe_receipt : StripeReceipt → Action (Unit {0})
unfolding lock
put_stripe_receipt r = do
  lock (business_lock "stripe-receipt" (r.intent_id ∷ []))
  λ s.
      if some_of (λ x. str_eq x.receipt_id r.receipt_id || str_eq x.intent_id r.intent_id)
        s.stripe_receipts
      then refused database_rejected s
      else done tt (record s { tables = with_stripe_receipt r s.tables })
