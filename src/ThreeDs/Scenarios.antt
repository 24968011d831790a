-- ===== src/ThreeDs/Scenarios.antt =====
-- `THREE_DS_CASE_CONTRACTS` and `threeDsScenario` of src/billing/fixtures.mjs.
use billing_validation_contr.Common.{
  Bool, true, false, String, str_eq, List, [], ◌∷◌, Option, none, some, if◌then◌else◌,
}

-- A property that the contract lacks is `false`, or `none` of `negativeCase`.
pub record Scenario : Type 0 where
  pub expected_outcome : String
  pub challenge : Bool
  pub single_effect : Bool
  pub negative_case : Option String
  pub webhook_delayed : Bool
  pub webhook_replay : Bool
  pub supported : Bool

abbrev paid : Scenario
paid = record {
  expected_outcome = "paid_challenge";
  challenge = true;
  single_effect = true;
  negative_case = none;
  webhook_delayed = false;
  webhook_replay = false;
  supported = true;
}

abbrev refused_case : Bool → String → Scenario
refused_case challenge negative = record {
  expected_outcome = "no_new_access";
  challenge = challenge;
  single_effect = false;
  negative_case = some negative;
  webhook_delayed = false;
  webhook_replay = false;
  supported = true;
}

unfoldable pub case_contracts : List (String × Scenario)
case_contracts =
    ("initial.challenge.success", paid)
    ∷ ("initial.challenge.cancel", refused_case true "cancel")
    ∷ ("initial.challenge.failure", refused_case true "failure")
    ∷ ("initial.authenticated.declined", refused_case true "authenticated_decline")
    ∷ ("initial.refresh", paid)
    ∷ ("initial.two_tabs", paid)
    ∷ ("initial.expired", refused_case false "expired_checkout")
    ∷ ("initial.webhook_delayed", record paid { webhook_delayed = true })
    ∷ ("initial.webhook_replay", record paid { webhook_replay = true })
    ∷ ("change.upgrade.challenge", record paid { supported = false })
    ∷ ("change.add_area.challenge", record paid { supported = false })
    ∷ ("renewal.off_session.challenge", record paid { supported = false })
    ∷ ("access.foreign_actor", refused_case false "foreign_actor")
    ∷ (
      "initial.frictionless",
      record paid { expected_outcome = "paid_frictionless"; challenge = false },
    )
    ∷ ("initial.challenge.success.repeat", paid)
    ∷ (
      "initial.challenge.incomplete",
      record (refused_case true "incomplete") { expected_outcome = "incomplete" },
    )
    ∷ []

abbrev pub find_case : String → List (String × Scenario) → Option Scenario
find_case id [] = none
find_case id ((name, s) ∷ rest) = if str_eq name id then some s else find_case id rest

-- `none` of an identifier outside `ALL_THREE_DS_SCENARIOS`, which are the keys of the contracts.
unfoldable pub three_ds_scenario : String → Option Scenario
three_ds_scenario id = find_case id case_contracts
