-- ===== src/Attempts/Same.antt =====
-- `equal(a, b)` of src/attempts/store.mjs, for each kind of object that the store compares.
-- `JSON.stringify` agrees on two objects exactly if their fields and the order of their keys do.
use billing_validation_contr.Common.{
  ◌≡◌, ◌↔◌, Bool, true, false, ◌&&◌, str_eq, eq_iff, arith, nat_eq,
}
use billing_validation_contr.Attempts.Data.{
  KeyOrder, written, reordered, Key, Workflow, Environment, Usage, Scope, AttemptState, collecting,
  collected, rechecking, complete, Outcome, completed, failed, ResourceType, stripe_account,
  supabase_project, Resource, FixtureKind, catalog, billing_identity,
}

unfoldable pub same_order : KeyOrder → KeyOrder → Bool
same_order written written = true
same_order reordered reordered = true
same_order _ _ = false

unfoldable pub same_key : Key → Key → Bool
same_key a b =
    str_eq a.project_ref b.project_ref
    && str_eq a.suite b.suite
    && str_eq a.fixture_key b.fixture_key

unfoldable pub same_workflow : Workflow → Workflow → Bool
same_workflow a b =
    str_eq a.repository b.repository
    && str_eq a.ref b.ref
    && str_eq a.run_id b.run_id
    && nat_eq a.run_attempt b.run_attempt
    && str_eq a.runner_label b.runner_label

unfoldable pub same_environment : Environment → Environment → Bool
unfolding same_order
same_environment a b =
    str_eq a.project_ref b.project_ref
    && str_eq a.deployment_id b.deployment_id
    && str_eq a.deployment_origin b.deployment_origin
    && str_eq a.account_id b.account_id
    && same_order a.order b.order

unfoldable pub same_usage_json : Usage → Usage → Bool
unfolding same_order
same_usage_json a b =
    nat_eq a.attempts b.attempts
    && nat_eq a.database_rows b.database_rows
    && nat_eq a.auth_users b.auth_users
    && nat_eq a.stripe_objects b.stripe_objects
    && same_order a.order b.order

unfoldable pub same_scope : Scope → Scope → Bool
same_scope a b = str_eq a.project_ref b.project_ref && str_eq a.account_id b.account_id

pub same_key_iff : (a b : Key) → (same_key a b ≡ true) ↔ (a ≡ b)
unfolding same_key
same_key_iff a b = ground (
  arith,
  eq_iff a.project_ref b.project_ref,
  eq_iff a.suite b.suite,
  eq_iff a.fixture_key b.fixture_key,
)

pub same_workflow_iff : (a b : Workflow) → (same_workflow a b ≡ true) ↔ (a ≡ b)
unfolding same_workflow
same_workflow_iff a b = ground (
  arith,
  eq_iff a.repository b.repository,
  eq_iff a.ref b.ref,
  eq_iff a.run_id b.run_id,
  eq_iff a.runner_label b.runner_label,
)

pub same_environment_iff : (a b : Environment) → (same_environment a b ≡ true) ↔ (a ≡ b)
unfolding same_environment
same_environment_iff a b = ground (
  arith,
  eq_iff a.project_ref b.project_ref,
  eq_iff a.deployment_id b.deployment_id,
  eq_iff a.deployment_origin b.deployment_origin,
  eq_iff a.account_id b.account_id,
)

pub same_usage_json_iff : (a b : Usage) → (same_usage_json a b ≡ true) ↔ (a ≡ b)
unfolding same_usage_json
same_usage_json_iff a b = ground arith

pub same_scope_iff : (a b : Scope) → (same_scope a b ≡ true) ↔ (a ≡ b)
unfolding same_scope
same_scope_iff a b =
    ground (arith, eq_iff a.project_ref b.project_ref, eq_iff a.account_id b.account_id)

unfoldable pub same_state : AttemptState → AttemptState → Bool
same_state collecting collecting = true
same_state collected collected = true
same_state rechecking rechecking = true
same_state complete complete = true
same_state AttemptState.cancelled AttemptState.cancelled = true
same_state AttemptState.timed_out AttemptState.timed_out = true
same_state _ _ = false

pub same_state_iff : (a b : AttemptState) → (same_state a b ≡ true) ↔ (a ≡ b)
unfolding same_state
same_state_iff a b = ground arith

unfoldable pub same_outcome : Outcome → Outcome → Bool
same_outcome completed completed = true
same_outcome failed failed = true
same_outcome Outcome.cancelled Outcome.cancelled = true
same_outcome Outcome.timed_out Outcome.timed_out = true
same_outcome _ _ = false

pub same_outcome_iff : (a b : Outcome) → (same_outcome a b ≡ true) ↔ (a ≡ b)
unfolding same_outcome
same_outcome_iff a b = ground arith

unfoldable pub same_type : ResourceType → ResourceType → Bool
same_type stripe_account stripe_account = true
same_type supabase_project supabase_project = true
same_type _ _ = false

unfoldable pub same_resource : Resource → Resource → Bool
unfolding same_type
same_resource a b = same_type a.type b.type && str_eq a.id b.id

pub same_resource_iff : (a b : Resource) → (same_resource a b ≡ true) ↔ (a ≡ b)
unfolding same_resource
same_resource_iff a b = ground (arith, eq_iff a.id b.id)

unfoldable pub same_kind : FixtureKind → FixtureKind → Bool
same_kind catalog catalog = true
same_kind billing_identity billing_identity = true
same_kind _ _ = false
