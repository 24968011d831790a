-- ===== src/Leases/Spec.antt =====
-- What `getLease`, `putLease` and `deleteLease` of src/attempts/postgres-store.mjs promise: a map from
-- keys to leases, written by whoever names the fence that is there.
use billing_validation_contr.Common.{
  ℕ, Bool, false, ◌&&◌, String, str_eq, Option, none, some, ltb, if◌then◌else◌,
}
use billing_validation_contr.Attempts.Data.{Key, Lease, LeaseEvent}
use billing_validation_contr.Attempts.Same.{same_key}

abbrev pub Owners : Type 0
Owners = Key → Option Lease

abbrev pub update : Owners → Key → Option Lease → Owners
update owners key lease q = if same_key key q then lease else owners q

pub data Call : Type 0 where
  get : Key → Call
  put : Lease → Option String → LeaseEvent → Call
  delete : Key → String → String → Call

abbrev pub has_fence : Option String → Lease → Bool
has_fence none l = false
has_fence (some fence) l = str_eq l.fence fence

abbrev pub is_current : String → String → ℕ → Lease → Bool
is_current attempt_id fence time l =
    str_eq l.attempt_id attempt_id && str_eq l.fence fence && ltb time l.expires_at

-- What a call answers and leaves, or that it is refused; `time` is the clock's next reading.
abbrev pub meaning : ℕ → Call → Owners → Option (Option Lease × Owners)
meaning time (get key) owners = some (owners key, owners)
meaning time (put l expected event) owners = elim (owners l.key) [
  | none ↦ some (none, update owners l.key (some l))
  | some old ↦ if has_fence expected old then some (none, update owners l.key (some l)) else none
]
meaning time (delete key attempt_id fence) owners = elim (owners key) [
  | none ↦ none
  | some l ↦
      if is_current attempt_id fence time l then some (none, update owners key none) else none
]
