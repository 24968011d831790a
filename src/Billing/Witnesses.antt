-- ===== src/Billing/Witnesses.antt =====
-- A complete registry, and results of all cases.
use billing_validation_contr.Common.{ℕ, String, List, some, [], ◌∷◌, ◌≡◌, ◌≢◌, refl}
use billing_validation_contr.Checks.{check}
use billing_validation_contr.Js.{text, number, function, dense_array}
use billing_validation_contr.Billing.Cases.{
  billing_43_ids, task5_ids, task6_ids, evidence_requirements,
}
use billing_validation_contr.Billing.Contracts.{
  Registered, require, require_some, contract_of, snapshot_contract, valid_contract, known_id,
  register, register_all, is_complete, in_order, assert_complete, ok, assert_complete_contracts,
  run_scenario,
}
use billing_validation_contr.Billing.Results.{
  Result, result_fields, is_opaque_id, opaque_text, owned_ids, resource_texts, valid_evidence,
  normalize, normalize_all, owned_values, validate_results,
}
use billing_validation_contr.Billing.Registry.{
  Entries, assert_complete_contracts-Entries, run_scenario-blocked,
}
use billing_validation_contr.Billing.Validated.{AreComplete, owned_of, validate_results-AreComplete}
use billing_validation_contr.Billing.Again.{validate_results-again, results_value}
use billing_validation_contr.Billing.Fixtures.{ok_of, value_of, contracts, results, options}

-- To unfold this name is to open all that these calls run through.
unfoldable runs : ℕ
unfolding billing_43_ids task5_ids task6_ids require require_some dense_array contract_of
    snapshot_contract valid_contract known_id register register_all is_complete in_order
    assert_complete assert_complete_contracts evidence_requirements check result_fields is_opaque_id
    opaque_text owned_ids resource_texts valid_evidence normalize normalize_all owned_values
    validate_results
runs = 0

abbrev registry : List Registered
unfolding runs
registry = ok_of (assert_complete_contracts contracts) refl

assert_complete_contracts-Entries_example : Entries billing_43_ids registry
unfolding runs
assert_complete_contracts-Entries_example = assert_complete_contracts-Entries contracts refl

abbrev some_entry : Registered
some_entry = record {
  id = "payment.approved";
  contract = record {
    id = text "payment.approved";
    domain = text "payment";
    max_writes = number 1;
    operations = [];
    evidence = text "http" ∷ [];
    run = function;
  };
}

run_scenario-blocked_example :
    run_scenario (text "payment.approved") contracts function ≢ ok some_entry
run_scenario-blocked_example =
    run_scenario-blocked (text "payment.approved") contracts function some_entry

abbrev normalized : List Result
unfolding runs
normalized = value_of (validate_results results options) refl

validate_results-AreComplete_example :
    (owned : List String) × (owned_of options ≡ some owned)
    × AreComplete owned billing_43_ids normalized
unfolding runs
validate_results-AreComplete_example = validate_results-AreComplete results options refl

validate_results-again_example :
    validate_results (results_value normalized) options ≡ some normalized
unfolding runs
validate_results-again_example = validate_results-again results options refl
