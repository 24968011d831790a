-- ===== src/Attempts/Observations.antt =====
-- What `reconcileStripeIntent` has done once it returns.
use billing_validation_contr.Common.{
  ℕ, Bool, true, false, not, ◌&&◌, String, List, ◌∷◌, Option, none, some, is_none, ◌≡◌, arith,
  subst, ap, ◌∙◌, find, str_eq, find-true, eq_iff, suc, Option-cases, inl, inr,
}
use billing_validation_contr.Js.{Value, is_safe_id}
use billing_validation_contr.Attempts.Data.{rechecking, StripeIntent, StripeReceipt}
use billing_validation_contr.Attempts.Same.{same_state}
use billing_validation_contr.Attempts.Session.{Observation, Session, Host, done, pure}
use billing_validation_contr.Attempts.Runs.{
  >>=-then, require-then, require_some-then, transaction-then, done-eq,
}
use billing_validation_contr.Attempts.Input.{snapshot_observation}
use billing_validation_contr.Attempts.Postgres.{
  intent_from_db, random_uuid, lock, get_stripe_intent, get_stripe_receipt, put_stripe_receipt,
  is_open,
}
use billing_validation_contr.Attempts.Ownership.{IsFenced, fenced_attempt-done}
use billing_validation_contr.Attempts.Store.Owner.{Fenced, fenced_attempt}
use billing_validation_contr.Attempts.Store.Intents.{
  ask_observation, new_stripe_receipt, assert_intent_observation, reconcile_stripe_intent,
}

-- What `reconcileStripeIntent` has found and written.
pub record Reconciled (host : Host) (attempt_id fence intent_id : String) (s t : Session)
    (receipt : StripeReceipt) : Type 0 where
  pub fenced : Fenced
  pub owner : IsFenced host s attempt_id fence fenced
  pub intent : StripeIntent
  pub found : find (λ i. str_eq i.intent_id intent_id) s.intents ≡ some intent
  pub own : intent.attempt_id ≡ attempt_id
  pub first : find (λ x. str_eq x.intent_id intent_id) s.stripe_receipts ≡ none
  pub added : t.stripe_receipts ≡ receipt ∷ s.stripe_receipts
  pub closed : is_open t.stripe_receipts intent ≡ false

get_stripe_intent-done :
    (host : Host) (id : String) (s : Session) (o : Option StripeIntent) (t : Session)
    {i : StripeIntent}
    → get_stripe_intent host id s ≡ done o t
    → o ≡ some i
    → (stored : StripeIntent) × (find (λ i. str_eq i.intent_id id) s.intents ≡ some stored)
      × (i ≡ intent_from_db host stored)
      × (t.tables ≡ s.tables)
unfolding get_stripe_intent lock
get_stripe_intent-done host id s o t h q =
    elim (Option-cases (find (λ i. str_eq i.intent_id id) s.intents)) [
      | inl absent ↦ absurd (ground (arith, absent))
      | inr (stored, found) ↦ (stored, found, ground (arith, found), ground (arith, found))
    ]

get_stripe_receipt-done :
    (id : String) (s : Session) (o : Option StripeReceipt) (t : Session)
    → get_stripe_receipt id s ≡ done o t
    → (o ≡ find (λ x. str_eq x.intent_id id) s.stripe_receipts) × (t.tables ≡ s.tables)
unfolding get_stripe_receipt lock
get_stripe_receipt-done id s o t h = ground arith

put_stripe_receipt-added :
    (r : StripeReceipt) (s : Session) {x : Unit {0}} {t : Session}
    → put_stripe_receipt r s ≡ done x t
    → t.stripe_receipts ≡ r ∷ s.stripe_receipts
unfolding put_stripe_receipt lock
put_stripe_receipt-added r s h = ground arith

assert_intent_observation-same :
    (i : StripeIntent) (observation : Observation) (time : ℕ) (s : Session) (x : Unit {0})
    (t : Session)
    → assert_intent_observation i observation time s ≡ done x t
    → t ≡ s
unfolding assert_intent_observation
assert_intent_observation-same i observation time s x t h = ground arith

ask_observation-same :
    (host : Host) (i : StripeIntent) (observation : Observation) (s : Session) (b : Bool)
    (t : Session)
    → ask_observation host i observation s ≡ done b t
    → t ≡ s
unfolding ask_observation
ask_observation-same host i observation s b t h = ground arith

stored_id :
    (id : String) (intents : List StripeIntent) {i : StripeIntent}
    → find (λ i. str_eq i.intent_id id) intents ≡ some i
    → i.intent_id ≡ id
stored_id id intents {i} h =
    (eq_iff i.intent_id id).0 (find-true (λ x. str_eq x.intent_id id) intents {x = i} h)

is_open-closed :
    (r : StripeReceipt) (before after : List StripeReceipt) (i : StripeIntent)
    → after ≡ r ∷ before
    → r.intent_id ≡ i.intent_id
    → is_open after i ≡ false
unfolding is_open
is_open-closed r before after i q same = ground (arith, q, eq_iff r.intent_id i.intent_id)

-- A `reconcileStripeIntent` that returns was called by the fenced owner for a stored intent of the
-- attempt that had no receipt; the receipt that it returns was added, and the intent is pending no
-- more.
pub reconcile_stripe_intent-Reconciled :
    (host : Host) (attempt_id fence intent_id : String) (raw : Value) (s : Session)
    {receipt : StripeReceipt} {t : Session}
    → reconcile_stripe_intent host attempt_id fence intent_id raw s ≡ done receipt t
    → Reconciled host attempt_id fence intent_id s t receipt
unfolding reconcile_stripe_intent random_uuid
reconcile_stripe_intent-Reconciled host attempt_id fence intent_id raw s {receipt} {t} h =
    require-then (is_safe_id attempt_id && is_safe_id intent_id) _ _ s h λ _ h1.
      require_some-then (snapshot_observation raw) _ _ s h1 λ observation _ h2.
        transaction-then _ s h2 λ u run last.
          >>=-then (fenced_attempt host attempt_id fence) _ s run λ f s1 e1 h3.
            >>=-then (get_stripe_intent host intent_id) _ s1 h3 λ o s2 e2 h4.
              require_some-then o _ _ s2 h4 λ i e3 h5.
                require-then (str_eq i.attempt_id attempt_id) _ _ s2 h5 λ own h6.
                  require-then (not (same_state f.row.state rechecking && str_eq i.fence fence)) _ _
                    s2 h6
                    λ _ h7. >>=-then (get_stripe_receipt intent_id) _ s2 h7 λ prior s3 e4 h8.
                      require-then (is_none prior) _ _ s3 h8 λ absent h9.
                        >>=-then (assert_intent_observation i observation f.time) _ s3 h9
                          λ _ s4 e5 h10.
                            >>=-then (ask_observation host i observation) _ s4 h10
                              λ verified s5 e6 h11. require-then verified _ _ s5 h11 λ _ h12.
                                let receipt' =
                                  new_stripe_receipt host i observation attempt_id fence intent_id
                                    (host.uuid s5.draws) f.time in
                                >>=-then (put_stripe_receipt receipt') (λ _. pure receipt')
                                  (record s5 { draws = suc s5.draws }) h12
                                  λ _ s6 e7 h13.
                                    let (owner, q, _, _, _) =
                                      fenced_attempt-done host attempt_id fence s e1 in
                                    let (stored, found, read, q2) =
                                      get_stripe_intent-done host intent_id s1 o s2 e2 e3 in
                                    let (looked, q3) =
                                      get_stripe_receipt-done intent_id s2 prior s3 e4 in
                                    let q4 =
                                      assert_intent_observation-same i observation f.time s3 _ s4
                                        e5 in
                                    let q5 =
                                      ask_observation-same host i observation s4 verified s5 e6 in
                                    let (same, q6) = done-eq h13 in
                                    let receipts2 : s2.stripe_receipts ≡ s.stripe_receipts =
                                      ap (λ x. x.stripe_receipts) q2
                                      ∙ ap (λ x. x.stripe_receipts) q in
                                    let receipts5 : s5.stripe_receipts ≡ s.stripe_receipts =
                                      ap (λ x. x.tables.stripe_receipts) (q5 ∙ q4)
                                      ∙ ap (λ x. x.stripe_receipts) q3
                                      ∙ receipts2 in
                                    let added : t.stripe_receipts ≡ receipt ∷ s.stripe_receipts =
                                      ap (λ x. x.tables.stripe_receipts) last
                                      ∙ ap (λ x. x.tables.stripe_receipts) q6
                                      ∙ put_stripe_receipt-added receipt' _ e7
                                      ∙ ground (arith, receipts5, same) in
                                    record {
                                      fenced = f;
                                      owner = owner;
                                      intent = stored;
                                      found =
                                          subst
                                            (λ is.
                                              find (λ i. str_eq i.intent_id intent_id) is
                                              ≡ some stored)
                                            (ap (λ x. x.intents) q) found;
                                      own = (eq_iff stored.attempt_id attempt_id).0 (
                                          subst (λ x. str_eq x.attempt_id attempt_id ≡ true) read
                                            own);
                                      first =
                                          subst
                                            (λ rows.
                                              find (λ x. str_eq x.intent_id intent_id) rows ≡ none)
                                            receipts2 (ground (arith, looked, absent));
                                      added = added;
                                      closed =
                                          is_open-closed receipt s.stripe_receipts t.stripe_receipts
                                            stored added
                                            (ground (
                                              arith,
                                              ap (λ x. x.intent_id) same,
                                              stored_id intent_id s1.intents found,
                                            ));
                                    }
