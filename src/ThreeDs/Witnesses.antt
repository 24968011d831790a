-- ===== src/ThreeDs/Witnesses.antt =====
-- A case that passes.
use billing_validation_contr.Common.{ℕ, [], ◌∷◌, ◌≡◌, some, refl, arith, length}
use billing_validation_contr.ThreeDs.Scenarios.{Scenario, three_ds_scenario, case_contracts}
use billing_validation_contr.ThreeDs.Access.{
  filter, set_size, valid_expected_access, is_active_for, are_new, are_exact, expected_grant_count,
  settlement_matches, matching_settlement_count,
}
use billing_validation_contr.ThreeDs.Covered.{IsExact, expected_grant_count-IsExact}
use billing_validation_contr.ThreeDs.Verdict.{
  no_new_access, paid_state, is_expired_checkout, foreign_actor_denial,
}
use billing_validation_contr.ThreeDs.Run.{
  note, is_reconciled, delay_step, case_failures, is_negative, unpaid_failures, paid_failures,
  outcome_failures, failures, unique, verdict, Verdict, run_three_ds_case,
}
use billing_validation_contr.ThreeDs.Passed.{WasSupported, HasPassed, run_three_ds_case-passed}
use billing_validation_contr.ThreeDs.Fixtures.{
  grant, observed, identity, access, access_value, verdict_of,
}

-- To unfold this name is to open all that these calls run through.
unfoldable runs : ℕ
unfolding filter set_size valid_expected_access are_new are_exact expected_grant_count
    settlement_matches matching_settlement_count three_ds_scenario case_contracts no_new_access
    paid_state is_expired_checkout foreign_actor_denial note is_reconciled delay_step case_failures
    is_negative unpaid_failures paid_failures outcome_failures failures unique verdict
    run_three_ds_case
runs = 0

expected_grant_count-IsExact_example :
    IsExact access (grant ∷ []) × (length (filter (is_active_for access) []) ≡ 0)
unfolding filter set_size are_new are_exact expected_grant_count
expected_grant_count-IsExact_example =
    expected_grant_count-IsExact [] (grant ∷ []) (grant ∷ []) access (omega arith) refl

abbrev passed : Verdict
unfolding runs
passed =
    verdict_of (run_three_ds_case "initial.challenge.success" access_value identity observed) refl

run_three_ds_case-passed_example :
    (s : Scenario) × (three_ds_scenario "initial.challenge.success" ≡ some s)
    × WasSupported s observed passed
    × HasPassed s access_value identity passed
unfolding runs
run_three_ds_case-passed_example =
    run_three_ds_case-passed "initial.challenge.success" access_value identity observed {v = passed}
      refl refl
