-- ===== src/Leases/Refined.antt =====
-- The table of leases as src/attempts/postgres-store.mjs reads and writes it, and the map that it is.
use std.Path.{fun_ext}
use billing_validation_contr.Common.{
  ℕ, Bool, true, ◌&&◌, String, str_eq, List, Option, none, some, ◌≡◌, refl, sym, ◌∙◌, ap, arith,
  ltb, find, some_of, is_some, delete_where, Bool-cases, inl, inr, Option-cases,
}
use billing_validation_contr.Attempts.Data.{Key, Lease, LeaseEvent}
use billing_validation_contr.Attempts.Same.{same_key, same_key_iff}
use billing_validation_contr.Attempts.Session.{
  Session, Host, Reply, done, refused, Action, pure, ◌>>◌,
}
use billing_validation_contr.Attempts.Postgres.{
  find_lease, get_lease, write_lease, put_lease, append_lease_history, remove_lease, delete_lease,
  now, lock,
}
use billing_validation_contr.Leases.Spec.{
  Owners, update, Call, get, put, delete, is_current, meaning,
}
use billing_validation_contr.Leases.Table.{
  IsTable, rewrite_row, rewrite-IsTable, delete-IsTable, find-update_other, find-update_self,
  find-only, only, some_of-find, find-delete_other, find-delete_self,
}

abbrev pub perform : Host → Call → Action (Option Lease)
perform host (get key) = get_lease key
perform host (put l expected event) = put_lease l expected event >> pure none
perform host (delete key attempt_id fence) = delete_lease host key attempt_id fence >> pure none

abbrev pub owners_of : List Lease → Owners
owners_of rows key = find_lease key rows

abbrev pub view : Reply (Option Lease) → Option (Option Lease × Owners)
view (done o t) = some (o, owners_of t.leases)
view (refused c t) = none

-- Whether the call returns or not, no key comes twice behind it.
abbrev pub IsKept : Reply (Option Lease) → Type 0
IsKept (done o t) = IsTable t.leases
IsKept (refused c t) = IsTable t.leases

owners_of-rewrite :
    (l : Lease) (rows : List Lease) {old : Lease}
    → find_lease l.key rows ≡ some old
    → owners_of (rewrite_row l rows) ≡ update (owners_of rows) l.key (some l)
owners_of-rewrite l rows {old = old} h = fun_ext λ q. elim (Bool-cases (same_key l.key q)) [
  | inl same ↦
      rw (same, sym ((same_key_iff l.key q).0 same)) (find-update_self l rows {old = old} h)
  | inr other ↦ rw other (find-update_other l q rows other)
]

module _ (l : Lease) (event : LeaseEvent) (s : Session) where
  put-refines :
      (expected : Option String) (time : ℕ)
      → view ((put_lease l expected event >> pure none) s)
        ≡ meaning time (put l expected event) (owners_of s.leases)
  unfolding put_lease write_lease append_lease_history
  put-refines none time = elim (Option-cases (find_lease l.key s.leases)) [
    | inl absent ↦ rw (view, meaning, absent) refl
    | inr (old, found) ↦ rw (view, meaning, found) refl
  ]
  put-refines (some fence) time = elim (Option-cases (find_lease l.key s.leases)) [
    | inl absent ↦ rw (view, meaning, absent) refl
    | inr (old, found) ↦ elim (Bool-cases (str_eq old.fence fence)) [
      | inl fits ↦
          rw (view, meaning, found, fits)
            (ap (λ o. some (none, o)) (owners_of-rewrite l s.leases {old = old} found))
      | inr differs ↦ rw (view, meaning, found, differs) refl
    ]
  ]

  put-IsKept :
      (expected : Option String)
      → IsTable s.leases
      → IsKept ((put_lease l expected event >> pure none) s)
  unfolding put_lease write_lease append_lease_history
  put-IsKept none t = elim (Option-cases (find_lease l.key s.leases)) [
    | inl absent ↦ rw (IsKept, absent) (absent, t)
    | inr (old, found) ↦ rw (IsKept, found) t
  ]
  put-IsKept (some fence) t = elim (Option-cases (find_lease l.key s.leases)) [
    | inl absent ↦ rw (IsKept, absent) (absent, t)
    | inr (old, found) ↦ elim (Bool-cases (str_eq old.fence fence)) [
      | inl fits ↦ rw (IsKept, found, fits) (rewrite-IsTable l s.leases t)
      | inr differs ↦ rw (IsKept, found, differs) t
    ]
  ]

module _ (host : Host) (key : Key) (attempt_id fence : String) (s : Session)
    (t : IsTable s.leases) where
  abbrev is_owner_row : Lease → Bool
  is_owner_row r = same_key r.key key && str_eq r.attempt_id attempt_id && str_eq r.fence fence

  abbrev is_named : Lease → Bool
  is_named r = str_eq r.attempt_id attempt_id && str_eq r.fence fence

  abbrev time : ℕ
  time = host.clock s.ticks

  abbrev is_removed : Lease → Bool
  is_removed r = is_owner_row r && ltb time r.expires_at

  find-is_owner_row : find is_owner_row s.leases ≡ only is_named (find_lease key s.leases)
  find-is_owner_row = find-only key is_owner_row is_named s.leases (λ r. ground arith) t

  fits : (r : Lease) → is_removed r ≡ (same_key r.key key && is_current attempt_id fence time r)
  fits r = ground arith

  some_of-is_removed :
      some_of is_removed s.leases
      ≡ is_some (only (is_current attempt_id fence time) (find_lease key s.leases))
  some_of-is_removed =
      some_of-find is_removed s.leases
      ∙ ap is_some (find-only key is_removed (is_current attempt_id fence time) s.leases fits t)

  owners_of-delete :
      {l : Lease}
      → find_lease key s.leases ≡ some l
      → is_current attempt_id fence time l ≡ true
      → owners_of (delete_where is_removed s.leases) ≡ update (owners_of s.leases) key none
  owners_of-delete {l = l} found current = fun_ext λ q. elim (Bool-cases (same_key key q)) [
    | inl same ↦
        rw (same, sym ((same_key_iff key q).0 same))
          (find-delete_self key is_removed (is_current attempt_id fence time) fits s.leases {l = l}
            t found current)
    | inr other ↦
        rw other (
          find-delete_other key is_removed (is_current attempt_id fence time) fits q s.leases other)
  ]

  delete-refines :
      view ((delete_lease host key attempt_id fence >> pure none) s)
      ≡ meaning time (delete key attempt_id fence) (owners_of s.leases)
  unfolding delete_lease remove_lease append_lease_history now
  delete-refines = elim (Option-cases (find_lease key s.leases)) [
    | inl absent ↦ rw (view, meaning, find-is_owner_row, absent) refl
    | inr (l, found) ↦ elim (Bool-cases (is_named l)) [
      | inr other ↦ rw (view, meaning, find-is_owner_row, found, other) refl
      | inl named ↦ elim (Bool-cases (ltb time l.expires_at)) [
        | inr late ↦
            rw
              (
                view, meaning, find-is_owner_row, found, named, some_of-is_removed, found, named,
                late,
              )
              refl
        | inl in_time ↦
            rw
              (
                view, meaning, find-is_owner_row, found, named, some_of-is_removed, found, named,
                in_time,
              )
              (ap (λ o. some (none, o)) (owners_of-delete {l = l} found (rw (named, in_time) refl)))
      ]
    ]
  ]

  delete-IsKept : IsKept ((delete_lease host key attempt_id fence >> pure none) s)
  unfolding delete_lease remove_lease append_lease_history now
  delete-IsKept = elim (Option-cases (find is_owner_row s.leases)) [
    | inl absent ↦ rw (IsKept, absent) t
    | inr (l, found) ↦ elim (Bool-cases (some_of is_removed s.leases)) [
      | inr late ↦ rw (IsKept, found, late) t
      | inl in_time ↦
          rw (IsKept, found, in_time)
            (delete-IsTable key is_removed (is_current attempt_id fence time) fits s.leases t)
    ]
  ]

-- On a table in which no key comes twice, a read, a write or a removal of a lease answers and leaves what
-- the map from keys to leases says, or is refused where the map refuses it: a written key is free or
-- holds the expected fence, and a removed lease is the named attempt's and fence's and has not expired
-- at the clock's next reading. Afterwards no key comes twice, also where the call is refused.
pub perform-meaning :
    (host : Host) (call : Call) (s : Session)
    → IsTable s.leases
    → (view (perform host call s) ≡ meaning (host.clock s.ticks) call (owners_of s.leases))
      × IsKept (perform host call s)
unfolding get_lease lock
perform-meaning host (get key) s t = (refl, t)
perform-meaning host (put l expected event) s t =
    (put-refines l event s expected (host.clock s.ticks), put-IsKept l event s expected t)
perform-meaning host (delete key attempt_id fence) s t =
    (delete-refines host key attempt_id fence s t, delete-IsKept host key attempt_id fence s t)
