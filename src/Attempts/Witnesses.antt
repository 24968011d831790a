-- ===== src/Attempts/Witnesses.antt =====
-- The theorems about the attempt store at concrete calls that follow one admission.
mod Repeats
use billing_validation_contr.Common.{
  ◌∷◌, ℕ, ◌↔◌, true, refl, ◌≡◌, ◌≢◌, inl, Option, some, none, suc,
}
use billing_validation_contr.Js.{own_data_value}
use billing_validation_contr.Attempts.Data.{
  stripe_mutation_ambiguous, complete, rechecking, retention_already_settled,
  attempt_replay_mismatch, written, reordered, collecting, collected, Artifact, AttemptState,
  Attempt, Receipt, CleanupReceipt, StripeIntent, StripeReceipt, Usage, Capacity,
}
use billing_validation_contr.Attempts.Session.{Answer, thrown, answered, Reply, done, refused}
use billing_validation_contr.Attempts.Postgres.{LedgerUsage}
use billing_validation_contr.Attempts.Input.{
  terminal_request, PrepareInput, IntentRequest, attempt_input, retention_input,
  stripe_intent_request, TerminalRequest,
}
use billing_validation_contr.Attempts.Opened.{runs}
use billing_validation_contr.Attempts.Examples.{
  attempt_a, host, sorting_host, environment, input, empty, fence, admitted, session_of, done_of,
  intent_value, observation_value, projection_value, terminal_value, fixture, value_of, scope,
}
use billing_validation_contr.Attempts.Store.Owner.{Fenced, fenced_attempt}
use billing_validation_contr.Attempts.Store.Fenced.{is_transition, transition, cleanup}
use billing_validation_contr.Attempts.Store.Retention.{
  replay_receipt, total_usage, retention_capacity, reconcile_reservation,
}
use billing_validation_contr.Attempts.Store.Prepare.{Admission, admit, prepare}
use billing_validation_contr.Attempts.Store.Intents.{begin_stripe_intent, reconcile_stripe_intent}
use billing_validation_contr.Attempts.Store.Fixtures.{FixtureTransaction, reserve_rows}
use billing_validation_contr.Attempts.Ownership.{IsFenced, fenced_attempt-done}
use billing_validation_contr.Attempts.Exclusion.{fenced_attempt-exclusive, fenced_attempt-reordered}
use billing_validation_contr.Attempts.Capacity.{Within, retention_capacity-Within}
use billing_validation_contr.Attempts.Admission.{used_usage, admit-Within}
use billing_validation_contr.Attempts.Intents.{
  Begun, begin_stripe_intent-Begun, begin_stripe_intent-once,
}
use billing_validation_contr.Attempts.Observations.{Reconciled, reconcile_stripe_intent-Reconciled}
use billing_validation_contr.Attempts.Rows.{Taken, reserve_rows-Taken}
use billing_validation_contr.Attempts.Release.{Cleaned, cleanup-Cleaned}
use billing_validation_contr.Attempts.Store.Lock.{
  IntentOwner, GivenIntent, begin_request, valid_intent_call, with_stripe_intent,
}
use billing_validation_contr.Attempts.Transitions.{
  Step, is_transition-Step_iff, Moved, transition-Moved,
}
use billing_validation_contr.Attempts.Settlement.{reconcile_reservation-Within}

abbrev fenced : Reply Fenced
fenced = fenced_attempt host attempt_a fence admitted

abbrev fenced_value : Fenced
unfolding runs admitted
fenced_value = done_of fenced refl

fenced_attempt-done_example :
    IsFenced host admitted attempt_a fence fenced_value
    × ((session_of fenced).tables ≡ admitted.tables)
    × ((session_of fenced).sequence ≡ admitted.sequence)
    × ((session_of fenced).draws ≡ admitted.draws)
    × ((session_of fenced).ticks ≡ suc admitted.ticks)
unfolding runs admitted
fenced_attempt-done_example = fenced_attempt-done host attempt_a fence admitted refl

fenced_attempt-exclusive_example : (attempt_a ≡ attempt_a) × (fence ≡ fence)
unfolding runs admitted
fenced_attempt-exclusive_example =
    fenced_attempt-exclusive host attempt_a fence attempt_a fence admitted fenced_value fenced_value
      (session_of fenced) (session_of fenced) refl refl (inl refl)

reordered_is_not_written : reordered ≢ written
reordered_is_not_written h = cc

fenced_attempt-reordered_example :
    fenced_attempt sorting_host attempt_a fence admitted ≢ done fenced_value (session_of fenced)
fenced_attempt-reordered_example =
    fenced_attempt-reordered sorting_host attempt_a fence admitted (λ o. reordered_is_not_written)
      fenced_value (session_of fenced)

abbrev cancelled : Reply Attempt
cancelled = transition host attempt_a fence collecting AttemptState.cancelled none none admitted

abbrev cancelled_row : Attempt
unfolding runs admitted
cancelled_row = done_of cancelled refl

transition-Moved_example :
    Moved attempt_a collecting AttemptState.cancelled admitted (session_of cancelled)
    × (cancelled_row.state ≡ AttemptState.cancelled)
    × (AttemptState.cancelled ≡ collected → ◌≢◌ {A = Option Artifact} none none)
unfolding runs admitted
transition-Moved_example =
    transition-Moved host attempt_a fence collecting AttemptState.cancelled none none admitted refl

abbrev settled : Reply Receipt
settled = reconcile_reservation host terminal_value admitted

reconcile_reservation-Within_example :
    Within (used_usage scope (session_of settled).tables) (used_usage scope admitted.tables)
unfolding runs admitted
reconcile_reservation-Within_example =
    reconcile_reservation-Within host terminal_value scope admitted refl

abbrev given : Option PrepareInput
given = elim (retention_input input) [
  | none ↦ none
  | some r ↦ attempt_input host environment r input
]

abbrev given_input : PrepareInput
unfolding runs
given_input = value_of given refl

abbrev first_admission : Reply Admission
first_admission = admit host given_input 1000 empty

admit-Within_example :
    Within (used_usage scope (session_of first_admission).tables) given_input.retention.quotas
unfolding runs
admit-Within_example = admit-Within host given_input 1000 empty refl

abbrev begun : Reply StripeIntent
begun = begin_stripe_intent host intent_value admitted

abbrev begun_intent : StripeIntent
unfolding runs admitted
begun_intent = done_of begun refl

abbrev request : IntentRequest
unfolding runs
request = value_of (stripe_intent_request host intent_value) refl

begin_stripe_intent-Begun_example :
    (r : IntentRequest) × (stripe_intent_request host intent_value ≡ some r)
    × Begun host r admitted (session_of begun) begun_intent
unfolding runs admitted
begin_stripe_intent-Begun_example = begin_stripe_intent-Begun host intent_value admitted refl

begin_stripe_intent-once_example :
    begin_stripe_intent host intent_value (session_of begun) ≢ done begun_intent (session_of begun)
unfolding runs admitted
begin_stripe_intent-once_example =
    begin_stripe_intent-once host intent_value intent_value admitted (session_of begun) request
      request refl refl refl refl refl begun_intent (session_of begun)

abbrev reconciled : Reply StripeReceipt
reconciled =
    reconcile_stripe_intent host attempt_a fence "id-1" observation_value (session_of begun)

abbrev reconciled_receipt : StripeReceipt
unfolding runs admitted
reconciled_receipt = done_of reconciled refl

reconcile_stripe_intent-Reconciled_example :
    Reconciled host attempt_a fence "id-1"
      (session_of begun)
      (session_of reconciled)
      reconciled_receipt
unfolding runs admitted
reconcile_stripe_intent-Reconciled_example =
    reconcile_stripe_intent-Reconciled host attempt_a fence "id-1" observation_value
      (session_of begun) refl

abbrev rows : Reply FixtureTransaction
rows = reserve_rows host fixture admitted

abbrev rows_grant : FixtureTransaction
unfolding runs admitted
rows_grant = done_of rows refl

reserve_rows-Taken_example : Taken fixture admitted (session_of rows) rows_grant
unfolding runs admitted
reserve_rows-Taken_example = reserve_rows-Taken host fixture admitted refl

abbrev cleanup_run : Reply (Attempt × CleanupReceipt)
cleanup_run = cleanup host attempt_a fence projection_value (session_of cancelled)

abbrev cleanup_row : Attempt
unfolding runs admitted
cleanup_row = (done_of cleanup_run refl).0

abbrev cleanup_receipt : CleanupReceipt
unfolding runs admitted
cleanup_receipt = (done_of cleanup_run refl).1

cleanup-Cleaned_example :
    Cleaned host attempt_a fence projection_value
      (session_of cancelled)
      (session_of cleanup_run)
      cleanup_row
      cleanup_receipt
unfolding runs admitted
cleanup-Cleaned_example =
    cleanup-Cleaned host attempt_a fence projection_value (session_of cancelled) refl
