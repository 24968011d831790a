-- ===== src/Attempts/Witnesses/Repeats.antt =====
-- The table of transitions and what the ledger has room for, at concrete inputs.
use billing_validation_contr.Common.{ℕ, ◌↔◌, true, refl, ◌≡◌, none}
use billing_validation_contr.Attempts.Data.{complete, rechecking, written, Usage, Capacity}
use billing_validation_contr.Attempts.Session.{Reply}
use billing_validation_contr.Attempts.Postgres.{LedgerUsage}
use billing_validation_contr.Attempts.Opened.{runs}
use billing_validation_contr.Attempts.Examples.{empty, session_of, done_of}
use billing_validation_contr.Attempts.Store.Fenced.{is_transition}
use billing_validation_contr.Attempts.Store.Retention.{total_usage, retention_capacity}
use billing_validation_contr.Attempts.Capacity.{Within, retention_capacity-Within}
use billing_validation_contr.Attempts.Transitions.{Step, is_transition-Step_iff}

is_transition-Step_iff_example :
    (is_transition rechecking complete ≡ true) ↔ Step rechecking complete
is_transition-Step_iff_example = is_transition-Step_iff rechecking complete

abbrev counts : ℕ → Usage
counts n = record {
  attempts = n;
  database_rows = n;
  auth_users = n;
  stripe_objects = n;
  order = written;
}

abbrev ledger : LedgerUsage
ledger = record { committed = counts 3; reserved = counts 2; policy_limits = none }

abbrev capacity : Reply Capacity
capacity = retention_capacity ledger (counts 10) (counts 5) empty

abbrev capacity_value : Capacity
unfolding runs
capacity_value = done_of capacity refl

retention_capacity-Within_example :
    Within (total_usage (counts 3) (counts 2) (counts 5)) (counts 10)
    × (capacity_value.projected ≡ total_usage (counts 3) (counts 2) (counts 5))
    × (session_of capacity ≡ empty)
unfolding runs
retention_capacity-Within_example =
    retention_capacity-Within ledger (counts 10) (counts 5) empty refl
