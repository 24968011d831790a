-- ===== src/Attempts/Opened.antt =====
-- What the tests of the attempt store open at once.
use billing_validation_contr.Common.{ℕ}
use billing_validation_contr.Js.{own_data_value, exact_data_record, data_record, is_uuid_v4}
use billing_validation_contr.Attempts.Same.{
  same_order, same_key, same_workflow, same_environment, same_usage_json, same_scope, same_state,
  same_outcome, same_type, same_resource, same_kind,
}
use billing_validation_contr.Attempts.Session.{transaction}
use billing_validation_contr.Attempts.Postgres.{
  now, random_uuid, lock, lock_attempt, next_fence, fence_text, row_from_db, get_attempt,
  put_attempt, lock_retention, lock_resource_locks, get_resource_locks, put_resource_lock,
  put_resource_locks, delete_resource_lock, delete_resource_locks, get_lease, append_lease_history,
  write_lease, put_lease, remove_lease, delete_lease, is_settled, committed_units, reserved_units,
  pinned_policy, get_retention_usage, get_retention_reservation_by_attempt,
  get_retention_reservation, put_retention_reservation, get_retention_receipt,
  put_retention_receipt, get_cleanup_receipt, put_cleanup_receipt, is_open, is_pending,
  has_in_flight_stripe_intent, get_stripe_intent_by_operation, get_stripe_intent,
  list_pending_stripe_intents, insert_stripe_intent, get_stripe_receipt, put_stripe_receipt,
  insert_rows_event, set_retention_fixture_rows_used, insert_case_claim, is_own_claim,
  check_case_claim, insert_fixture_claim, claim_fixture_case,
}
use billing_validation_contr.Attempts.Input.{
  snapshot_workflow, given_workflow, valid_workflow, snapshot_environment, valid_environment,
  valid_deployment_origin, exact_usage, snapshot_usage, validate_retention_configuration, valid_key,
  attempt_input, retention_input, terminal_request, parse_outcome, fixture_request, parse_kind,
  is_fence, valid_artifact, valid_resource_ids, is_resource_id, snapshot_cleanup_projection,
  stripe_intent_request, parse_action, provider_idempotency_key, snapshot_observation,
  snapshot_stripe_resource_ids,
}
use billing_validation_contr.Attempts.Store.Owner.{
  assert_owner, is_owned, owned_resource, owns_resources, assert_resource_owner,
  assert_fenced_owner, fenced_attempt,
}
use billing_validation_contr.Attempts.Store.Fenced.{
  assert_fence, renew, is_transition, transition, cleanup, ask_cleanup, fixture_mutation,
}
use billing_validation_contr.Attempts.Store.Retention.{
  stored_usage, same_usage, check_policy, check_total, retention_capacity, replay_receipt, settle,
  ask_receipt, reservation_owner, reconcile_reservation,
}
use billing_validation_contr.Attempts.Store.Intents.{
  begin_stripe_intent, assert_intent_observation, ask_observation, reconcile_stripe_intent,
}
use billing_validation_contr.Attempts.Store.Fixtures.{grant_rows, check_rows, reserve_rows}
use billing_validation_contr.Attempts.Store.Prepare.{
  replay, resume_existing, write_admission, admit, prepare_attempt, prepare,
}
use billing_validation_contr.Attempts.Store.Takeover.{
  owner_lease, prior_owner, lock_owners, with_lease_owner, recover_owner, recover_owners,
}

-- To unfold this name is to open all that a call of the store runs through.
unfoldable pub runs : ℕ
unfolding own_data_value exact_data_record data_record is_uuid_v4 same_order same_key same_workflow
    same_environment same_usage_json same_scope same_state same_outcome same_type same_resource
    same_kind transaction now random_uuid lock lock_attempt next_fence fence_text row_from_db
    get_attempt put_attempt lock_retention lock_resource_locks get_resource_locks put_resource_lock
    put_resource_locks delete_resource_lock delete_resource_locks get_lease append_lease_history
    write_lease put_lease remove_lease delete_lease is_settled committed_units reserved_units
    pinned_policy get_retention_usage get_retention_reservation_by_attempt get_retention_reservation
    put_retention_reservation get_retention_receipt put_retention_receipt get_cleanup_receipt
    put_cleanup_receipt is_open is_pending has_in_flight_stripe_intent
    get_stripe_intent_by_operation get_stripe_intent list_pending_stripe_intents
    insert_stripe_intent get_stripe_receipt put_stripe_receipt insert_rows_event
    set_retention_fixture_rows_used insert_case_claim is_own_claim check_case_claim
    insert_fixture_claim claim_fixture_case snapshot_workflow given_workflow valid_workflow
    snapshot_environment valid_environment valid_deployment_origin exact_usage snapshot_usage
    validate_retention_configuration valid_key attempt_input retention_input terminal_request
    parse_outcome fixture_request parse_kind is_fence valid_artifact valid_resource_ids
    is_resource_id snapshot_cleanup_projection assert_owner is_owned owned_resource owns_resources
    assert_resource_owner assert_fenced_owner fenced_attempt assert_fence renew is_transition
    transition cleanup ask_cleanup fixture_mutation stored_usage same_usage check_policy check_total
    retention_capacity replay_receipt settle ask_receipt reservation_owner reconcile_reservation
    replay resume_existing owner_lease prior_owner lock_owners with_lease_owner recover_owner
    recover_owners write_admission admit prepare_attempt prepare begin_stripe_intent
    assert_intent_observation ask_observation reconcile_stripe_intent grant_rows check_rows
    reserve_rows stripe_intent_request parse_action provider_idempotency_key snapshot_observation
    snapshot_stripe_resource_ids
runs = 0
