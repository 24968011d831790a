-- ===== src/Attempts/Postgres/Leases.antt =====
-- `getLease`, `appendLeaseHistory`, `putLease` and `deleteLease` of
-- src/attempts/postgres-store.mjs. An event is one of `LeaseEvent` and an owner's run is typed, so
-- the checks at the head of `appendLeaseHistory` pass.
use billing_validation_contr.Common.{
  Bool, false, ◌&&◌, String, str_eq, List, ◌∷◌, Option, none, some, ltb, if◌then◌else◌, find,
  update_where, delete_where, some_of,
}
use billing_validation_contr.Attempts.Data.{
  lease_fence_lost, Key, Lease, LeaseEvent, released, LeaseHistory,
}
use billing_validation_contr.Attempts.Same.{same_key}
use billing_validation_contr.Attempts.Session.{
  Session, Tables, Host, Action, lease_lock, done, refused, ◌>>=◌, ◌>>◌,
}
use billing_validation_contr.Attempts.Postgres.Basic.{lock, now}

abbrev pub find_lease : Key → List Lease → Option Lease
find_lease key = find (λ l. same_key l.key key)

unfoldable pub get_lease : Key → Action (Option Lease)
unfolding lock same_key
get_lease key = do lock (lease_lock key); λ s. done (find_lease key s.leases) s

unfoldable pub append_lease_history : Lease → LeaseEvent → Action (Unit {0})
append_lease_history l event s =
    done tt (record s { tables = record t { history = row ∷ t.history } })
  where
    t : Tables
    t = s.tables

    row : LeaseHistory
    row = record {
      key = l.key;
      attempt_id = l.attempt_id;
      fence = l.fence;
      run_id = l.owner_run_id;
      run_attempt = l.owner_run_attempt;
      event = event;
      expires_at = l.expires_at;
    }

abbrev set_leases : List Lease → Session → Session
set_leases rows s = record s { tables = record t { leases = rows } }
  where
    t : Tables
    t = s.tables

-- `fence IS NOT DISTINCT FROM expected`, on a column that is never null.
abbrev has_expected_fence : Option String → Lease → Bool
has_expected_fence none l = false
has_expected_fence (some fence) l = str_eq l.fence fence

-- The insert, which becomes an update where the key has a row, if that row has the expected fence.
unfoldable pub write_lease : Lease → Option String → Action (Unit {0})
unfolding same_key
write_lease l expected s = elim (find_lease l.key s.leases) [
  | none ↦ done tt (set_leases (l ∷ s.leases) s)
  | some old ↦
      if has_expected_fence expected old
      then done tt (set_leases (update_where (λ r. same_key r.key l.key) (λ r. l) s.leases) s)
      else refused lease_fence_lost s
]

unfoldable pub put_lease : Lease → Option String → LeaseEvent → Action (Unit {0})
unfolding write_lease append_lease_history
put_lease l expected event = do write_lease l expected; append_lease_history l event

abbrev pub is_lease_of : Key → String → String → Lease → Bool
is_lease_of key attempt_id fence l =
    same_key l.key key && str_eq l.attempt_id attempt_id && str_eq l.fence fence

unfoldable pub remove_lease : Host → Key → String → String → Action (Unit {0})
unfolding now same_key
remove_lease host key attempt_id fence = do
  time ← now host
  λ s.
      if some_of (λ l. is_lease_of key attempt_id fence l && ltb time l.expires_at) s.leases
      then done tt (
          set_leases
            (delete_where (λ l. is_lease_of key attempt_id fence l && ltb time l.expires_at)
              s.leases)
            s)
      else refused lease_fence_lost s

unfoldable pub delete_lease : Host → Key → String → String → Action (Unit {0})
unfolding same_key
delete_lease host key attempt_id fence s = elim (find (is_lease_of key attempt_id fence) s.leases) [
  | none ↦ refused lease_fence_lost s
  | some l ↦ (append_lease_history l released >>= λ _. remove_lease host key attempt_id fence) s
]
