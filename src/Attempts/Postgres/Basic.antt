-- ===== src/Attempts/Postgres/Basic.antt =====
-- `now`, `nextFence`, `randomUUID`, `getAttempt` and `putAttempt` of
-- src/attempts/postgres-store.mjs, and the `INSERT` of a row under its unique constraints.
use billing_validation_contr.Common.{
  ℕ, zero, suc, ◌/◌, ◌%◌, ◌-◌, ◌^◌, String, str_eq, str_append, List, [], ◌∷◌, Option, none, some,
  leb, if◌then◌else◌, find, update_where,
}
use billing_validation_contr.Attempts.Data.{
  attempt_conflict, attempt_identity_invalid, lease_fence_store_unavailable, written, Attempt,
  Artifact, Environment,
}
use billing_validation_contr.Attempts.Same.{same_key}
use billing_validation_contr.Attempts.Session.{
  Session, Tables, Host, Action, LockKey, attempt_lock, done, refused, pure, refuse, ◌>>=◌,
}

-- `clock_timestamp()`.
unfoldable pub now : Host → Action ℕ
now host s = done (host.clock s.ticks) (record s { ticks = suc s.ticks })

unfoldable pub random_uuid : Host → Action String
random_uuid host s = done (host.uuid s.draws) (record s { draws = suc s.draws })

-- `pg_advisory_xact_lock`.
unfoldable pub lock : LockKey → Action (Unit {0})
lock k s = done tt (record s { held = k ∷ s.held })

unfoldable pub lock_attempt : String → Action (Unit {0})
unfolding lock
lock_attempt attempt_id = lock (attempt_lock attempt_id)

abbrev pub max_fence_sequence : ℕ
max_fence_sequence = 2 ^ 48 - 1

abbrev hex_digits : List String
hex_digits =
    "0" ∷ "1" ∷ "2" ∷ "3" ∷ "4" ∷ "5" ∷ "6" ∷ "7" ∷ "8" ∷ "9" ∷ "a" ∷ "b" ∷ "c" ∷ "d" ∷ "e" ∷ "f"
    ∷ []

abbrev nth_text : List String → ℕ → String
nth_text [] i = ""
nth_text (t ∷ ts) zero = t
nth_text (t ∷ ts) (suc i) = nth_text ts i

unfoldable pub hex_digit : ℕ → String
hex_digit d = nth_text hex_digits d

-- `value.toString(16).padStart(k, '0')`, for a value of at most `k` digits.
unfoldable pub hex_text : ℕ → ℕ → String
unfolding hex_digit
hex_text zero n = ""
hex_text (suc k) n = str_append (hex_text k (n / 16)) (hex_digit (n % 16))

unfoldable pub fence_text : ℕ → String
unfolding hex_text
fence_text n = str_append "00000000-0000-4000-8000-" (hex_text 12 n)

-- The sequence is advanced by the query, also where the value is refused.
unfoldable pub next_fence : Action String
next_fence s =
    let value = suc s.sequence in
    let s' : Session = record s { sequence = value } in
    if leb value max_fence_sequence
    then done (fence_text value) s'
    else refused lease_fence_store_unavailable s'

abbrev restored_artifact : Option Artifact → Option Artifact
restored_artifact none = none
restored_artifact (some a) = some (record a { retention_days = some 2 })

abbrev written_environment : Environment → Environment
written_environment e = record e { order = written }

abbrev pub restored_row : Attempt → Attempt
restored_row row = record row {
  environment = written_environment row.environment;
  artifact = restored_artifact row.artifact;
}

-- `rowFromDb`: the objects are written anew; the artifact's retention is the policy's.
unfoldable pub row_from_db : Attempt → Action Attempt
row_from_db row =
    if str_eq row.key.project_ref row.environment.project_ref
    then pure (restored_row row)
    else refuse attempt_identity_invalid

abbrev pub find_attempt : String → List Attempt → Option Attempt
find_attempt attempt_id = find (λ row. str_eq row.attempt_id attempt_id)

unfoldable pub get_attempt : String → Action (Option Attempt)
unfolding row_from_db
get_attempt attempt_id s = elim (find_attempt attempt_id s.attempts) [
  | none ↦ done none s
  | some row ↦ (row_from_db row >>= λ r. pure (some r)) s
]

-- The columns that `ON CONFLICT (attempt_id) DO UPDATE` sets.
abbrev pub updated_row : Attempt → Attempt → Attempt
updated_row new old = record old {
  state = new.state;
  cleanup_status = new.cleanup_status;
  artifact = new.artifact;
  resource_ids = new.resource_ids;
  updated_at = new.updated_at;
}

abbrev pub set_attempts : List Attempt → Session → Session
set_attempts rows s = record s { tables = record t { attempts = rows } }
  where
    t : Tables
    t = s.tables

unfoldable pub put_attempt : Attempt → Action (Unit {0})
unfolding same_key
put_attempt row s = elim (find_attempt row.attempt_id s.attempts) [
  | none ↦ done tt (set_attempts (row ∷ s.attempts) s)
  | some old ↦
      if same_key old.key row.key
      then done tt (
          set_attempts
            (update_where (λ r. str_eq r.attempt_id row.attempt_id) (updated_row row) s.attempts) s)
      else refused attempt_conflict s
]
