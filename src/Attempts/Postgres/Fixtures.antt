-- ===== src/Attempts/Postgres/Fixtures.antt =====
-- `setRetentionFixtureRowsUsed` and `claimFixtureCase` of src/attempts/postgres-store.mjs.
use billing_validation_contr.Common.{
  ℕ, Bool, ◌&&◌, String, str_eq, [], ◌∷◌, none, some, ltb, leb, nat_eq, if◌then◌else◌, find,
  some_of,
}
use billing_validation_contr.Js.{max_safe_integer}
use billing_validation_contr.Attempts.Data.{
  database_rejected, fixture_case_duplicate, fixture_reservation_insufficient, CaseClaim,
  FixtureClaim, FixtureKind, RowsEvent,
}
use billing_validation_contr.Attempts.Same.{same_kind}
use billing_validation_contr.Attempts.Session.{
  Tables, Action, business_lock, done, refused, require, ◌>>◌,
}
use billing_validation_contr.Attempts.Postgres.Basic.{lock}
use billing_validation_contr.Attempts.Postgres.Ledger.{rows_used, find_reservation}

abbrev with_rows_event : RowsEvent → Tables → Tables
with_rows_event e t = record t { rows_events = e ∷ t.rows_events }

abbrev is_same_event : RowsEvent → RowsEvent → Bool
is_same_event e x = str_eq x.reservation_id e.reservation_id && nat_eq x.current_rows e.current_rows

-- The insert of the event; `UNIQUE (reservation_id, current_rows)` may refuse it.
unfoldable pub insert_rows_event : RowsEvent → Action (Unit {0})
insert_rows_event e s =
    if some_of (is_same_event e) s.rows_events
    then refused database_rejected s
    else done tt (record s { tables = with_rows_event e s.tables })

unfoldable pub set_retention_fixture_rows_used : String → String → ℕ → ℕ → Action (Unit {0})
unfolding lock insert_rows_event
set_retention_fixture_rows_used reservation_id attempt_id expected used = do
  require (leb expected max_safe_integer && leb used max_safe_integer && ltb expected used)
      fixture_reservation_insufficient
  lock (business_lock "fixture-reservation-claim" (reservation_id ∷ []))
  λ s. elim (find_reservation reservation_id s.reservations) [
    | none ↦ refused fixture_reservation_insufficient s
    | some r ↦
        if str_eq r.attempt_id attempt_id
          && leb (rows_used reservation_id s.rows_events) max_safe_integer
          && nat_eq (rows_used reservation_id s.rows_events) expected
        then insert_rows_event
            (record {
              reservation_id = reservation_id;
              attempt_id = attempt_id;
              previous_rows = expected;
              current_rows = used;
            })
            s
        else refused fixture_reservation_insufficient s
  ]

abbrev is_case : CaseClaim → CaseClaim → Bool
is_case c x = str_eq x.attempt_id c.attempt_id && str_eq x.case_id c.case_id

abbrev with_case_claim : CaseClaim → Tables → Tables
with_case_claim c t = record t { case_claims = c ∷ t.case_claims }

-- `ON CONFLICT (attempt_id, case_id) DO NOTHING`.
unfoldable pub insert_case_claim : CaseClaim → Action (Unit {0})
insert_case_claim c s =
    if some_of (is_case c) s.case_claims
    then done tt s
    else done tt (record s { tables = with_case_claim c s.tables })

-- The row that stands for the case is the caller's own claim.
unfoldable pub is_own_claim : CaseClaim → CaseClaim → Bool
is_own_claim c prior =
    str_eq prior.reservation_id c.reservation_id
    && str_eq prior.fence c.fence
    && str_eq prior.candidate_sha c.candidate_sha
    && str_eq prior.namespace_id c.namespace_id
    && str_eq prior.environment.project_ref c.environment.project_ref
    && str_eq prior.environment.deployment_id c.environment.deployment_id
    && str_eq prior.environment.deployment_origin c.environment.deployment_origin
    && str_eq prior.environment.account_id c.environment.account_id

unfoldable pub check_case_claim : CaseClaim → Action (Unit {0})
unfolding is_own_claim
check_case_claim c s = elim (find (is_case c) s.case_claims) [
  | none ↦ refused fixture_case_duplicate s
  | some prior ↦ require (is_own_claim c prior) fixture_case_duplicate s
]

abbrev with_fixture_claim : FixtureClaim → Tables → Tables
with_fixture_claim f t = record t { fixture_claims = f ∷ t.fixture_claims }

-- `ON CONFLICT (attempt_id, case_id, kind) DO NOTHING` inserts no row, which is refused; so is a
-- fixture under `UNIQUE (fixture_id)`.
unfoldable pub insert_fixture_claim : FixtureClaim → Action (Unit {0})
unfolding same_kind
insert_fixture_claim f s =
    if some_of
      (λ x.
        str_eq x.attempt_id f.attempt_id && str_eq x.case_id f.case_id && same_kind x.kind f.kind)
      s.fixture_claims
    then refused fixture_case_duplicate s
    else if some_of (λ x. str_eq x.fixture_id f.fixture_id) s.fixture_claims
    then refused database_rejected s
    else done tt (record s { tables = with_fixture_claim f s.tables })

-- The two lock keys are sorted texts, and "fixture-case-claim" sorts before
-- "fixture-resource-claim".
unfoldable pub claim_fixture_case : CaseClaim → String → FixtureKind → Action (Unit {0})
claim_fixture_case c fixture_id kind = do
  lock (business_lock "fixture-case-claim" (c.attempt_id ∷ c.case_id ∷ []))
  lock (business_lock "fixture-resource-claim" (fixture_id ∷ []))
  insert_case_claim c
  check_case_claim c
  insert_fixture_claim (record {
    attempt_id = c.attempt_id;
    case_id = c.case_id;
    kind = kind;
    fixture_id = fixture_id;
  })
