-- ===== src/Attempts/Intents.antt =====
-- What `beginStripeIntent` has done once it returns.
use billing_validation_contr.Common.{
  true, false, not, ◌||◌, String, ◌∷◌, Option, none, some, is_none, ◌≡◌, ◌≢◌, arith, subst, ap, sym,
  ◌∙◌, find, eq_iff, suc,
}
use billing_validation_contr.Js.{Value}
use billing_validation_contr.Attempts.Data.{rechecking, Attempt, StripeIntent}
use billing_validation_contr.Attempts.Same.{same_state, same_workflow_iff, same_environment_iff}
use billing_validation_contr.Attempts.Session.{Session, Host, done, pure}
use billing_validation_contr.Attempts.Runs.{
  >>=-then, require-then, require_some-then, transaction-then, done-eq,
}
use billing_validation_contr.Attempts.Input.{IntentRequest, stripe_intent_request}
use billing_validation_contr.Attempts.Postgres.{
  is_operation, get_stripe_intent_by_operation, insert_stripe_intent, random_uuid, lock,
}
use billing_validation_contr.Attempts.Ownership.{IsFenced, fenced_attempt-done}
use billing_validation_contr.Attempts.Transitions.{find_attempt-id}
use billing_validation_contr.Attempts.Store.Owner.{Fenced, fenced_attempt}
use billing_validation_contr.Attempts.Store.Intents.{
  new_intent, is_request_for, begin_stripe_intent,
}

-- What `beginStripeIntent` has found and written for a request.
pub record Begun (host : Host) (request : IntentRequest) (s t : Session) (intent : StripeIntent)
    : Type 0 where
  pub fenced : Fenced
  pub owner : IsFenced host s request.attempt_id request.fence fenced
  pub writable : (same_state fenced.row.state rechecking || fenced.lease.recovery_only) ≡ false
  pub candidate : request.candidate_sha ≡ fenced.row.candidate_sha
  pub workflow : request.workflow.workflow ≡ fenced.row.workflow
  pub in_order : request.workflow.in_order ≡ true
  pub environment : request.environment ≡ fenced.row.environment
  pub first : find (is_operation request.attempt_id request.operation) s.intents ≡ none
  pub added : t.intents ≡ intent ∷ s.intents
  pub operation : intent.operation ≡ request.operation
  pub attempt : intent.attempt_id ≡ fenced.row.attempt_id

is_request_for-parts :
    (request : IntentRequest) (row : Attempt)
    → is_request_for request row ≡ true
    → (request.candidate_sha ≡ row.candidate_sha)
      × (request.workflow.workflow ≡ row.workflow)
      × (request.workflow.in_order ≡ true)
      × (request.environment ≡ row.environment)
is_request_for-parts request row h =
    let w = same_workflow_iff request.workflow.workflow row.workflow in
    let e = same_environment_iff request.environment row.environment in
    let c = eq_iff request.candidate_sha row.candidate_sha in
    (ground (arith, h, c), ground (arith, h, w), ground (arith, h), ground (arith, h, e))

get_stripe_intent_by_operation-done :
    (host : Host) (attempt_id operation : String) (s : Session) (o : Option StripeIntent)
    (t : Session)
    → get_stripe_intent_by_operation host attempt_id operation s ≡ done o t
    → (is_none o ≡ true → find (is_operation attempt_id operation) s.intents ≡ none)
      × (t.tables ≡ s.tables)
unfolding get_stripe_intent_by_operation lock
get_stripe_intent_by_operation-done host attempt_id operation s o t h = ground arith

insert_stripe_intent-added :
    (i : StripeIntent) (s : Session) {x : Unit {0}} {t : Session}
    → insert_stripe_intent i s ≡ done x t
    → t.intents ≡ i ∷ s.intents
unfolding insert_stripe_intent lock
insert_stripe_intent-added i s h = ground arith

-- A `beginStripeIntent` that returns had a well-formed request of the fenced owner, for the row's own
-- candidate, workflow and environment, with the workflow's keys in the row's order, while neither the
-- row was in recheck nor the lease for recovery; the attempt had no intent for the operation, and the
-- one that is returned was added.
pub begin_stripe_intent-Begun :
    (host : Host) (input : Value) (s : Session) {intent : StripeIntent} {t : Session}
    → begin_stripe_intent host input s ≡ done intent t
    → (request : IntentRequest) × (stripe_intent_request host input ≡ some request)
      × Begun host request s t intent
unfolding begin_stripe_intent random_uuid
begin_stripe_intent-Begun host input s {intent} {t} h =
    require_some-then (stripe_intent_request host input) _ _ s h λ request given h1.
      transaction-then _ s h1 λ u run last.
        >>=-then (fenced_attempt host request.attempt_id request.fence) _ s run λ f s1 e1 h2.
          require-then (not (same_state f.row.state rechecking || f.lease.recovery_only)) _ _ s1 h2
            λ writable h3. require-then (is_request_for request f.row) _ _ s1 h3 λ same_request h4.
              >>=-then (get_stripe_intent_by_operation host request.attempt_id request.operation) _
                s1 h4
                λ o s2 e2 h5. require-then (is_none o) _ _ s2 h5 λ absent h6.
                  let intent' = new_intent request f.row (host.uuid s2.draws) f.time in
                  >>=-then (insert_stripe_intent intent') (λ _. pure intent')
                    (record s2 { draws = suc s2.draws }) h6
                    λ _ s3 e3 h7.
                      let (owner, q, _, _, _) =
                        fenced_attempt-done host request.attempt_id request.fence s e1 in
                      let (none_before, q2) =
                        get_stripe_intent_by_operation-done host request.attempt_id
                          request.operation s1 o s2 e2 in
                      let of_row = is_request_for-parts request f.row same_request in
                      let added = insert_stripe_intent-added intent' _ e3 in
                      let (same, q3) = done-eq h7 in
                      let before = ap (λ x. x.intents) q in
                      let before2 = ap (λ x. x.intents) q2 in
                      (
                        request,
                        given,
                        record {
                          fenced = f;
                          owner = owner;
                          writable = ground arith;
                          candidate = of_row.0;
                          workflow = of_row.1;
                          in_order = of_row.2;
                          environment = of_row.3;
                          first =
                              subst
                                (λ is.
                                  find (is_operation request.attempt_id request.operation) is
                                  ≡ none)
                                before (none_before absent);
                          added =
                              ap (λ x. x.intents) last
                              ∙ ap (λ x. x.intents) q3
                              ∙ added
                              ∙ ground (arith, before, before2, same);
                          operation = ap (λ i. i.operation) (sym same);
                          attempt = ap (λ i. i.attempt_id) (sym same);
                        },
                      )

-- A second `beginStripeIntent` for the same attempt and operation never returns from the tables
-- that the first one left, whatever else its request says.
pub begin_stripe_intent-once :
    (host : Host) (input again : Value) (s t : Session) {intent : StripeIntent}
    (request request' : IntentRequest)
    → begin_stripe_intent host input s ≡ done intent t
    → stripe_intent_request host input ≡ some request
    → stripe_intent_request host again ≡ some request'
    → request'.attempt_id ≡ request.attempt_id
    → request'.operation ≡ request.operation
    → (intent' : StripeIntent) (u : Session) → begin_stripe_intent host again t ≢ done intent' u
begin_stripe_intent-once host input again s t {intent} request request' h given given' same_attempt
      same_operation intent' u h' =
    let (r, e, a) = begin_stripe_intent-Begun host input s h in
    let (r', e', b) = begin_stripe_intent-Begun host again t h' in
    let id =
      ap (λ x. x.attempt_id) a.owner.row
      ∙ find_attempt-id r.attempt_id s.attempts a.owner.stored a.owner.found in
    ground (
      arith,
      id,
      e,
      e',
      a.added,
      b.first,
      a.operation,
      a.attempt,
      eq_iff intent.attempt_id request'.attempt_id,
      eq_iff intent.operation request'.operation,
    )
