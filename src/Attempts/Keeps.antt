-- ===== src/Attempts/Keeps.antt =====
-- The actions that leave the retention ledger as it is.
use billing_validation_contr.Common.{
  ℕ, String, List, [], ◌∷◌, Option, some, none, ◌≡◌, arith, ◌∙◌, ap,
}
use billing_validation_contr.Attempts.Data.{
  Environment, Lease, LockOwner, ResourceLock, Resource, Key, Attempt, LeaseEvent,
}
use billing_validation_contr.Attempts.Session.{Session, Host, done, Action, ◌>>=◌}
use billing_validation_contr.Attempts.Runs.{>>=-eq-done}
use billing_validation_contr.Attempts.Postgres.{
  get_attempt, row_from_db, get_lease, lock, get_resource_locks, put_attempt, put_resource_lock,
  put_resource_locks, put_lease, write_lease, append_lease_history, next_fence,
  has_in_flight_stripe_intent, get_retention_reservation_by_attempt, get_retention_receipt,
}
use billing_validation_contr.Attempts.Input.{GivenKey}
use billing_validation_contr.Attempts.Store.Takeover.{
  prior_owner, owner_lease, lock_owners, with_lease_owner, recover_owner, recover_owners,
  PriorOwner,
}

pub record SameLedger (s t : Session) : Type 0 where
  pub same_receipts : t.receipts ≡ s.receipts
  pub same_reservations : t.reservations ≡ s.reservations

pub record Keeps {ℓ} {A : Type ℓ} (m : Action A) : Type ℓ where
  pub keeps : (s : Session) (a : A) (t : Session) → m s ≡ done a t → SameLedger s t

pub SameLedger-of : {s t : Session} → t.tables ≡ s.tables → SameLedger s t
SameLedger-of q = record {
  same_receipts = ap (λ x. x.receipts) q;
  same_reservations = ap (λ x. x.reservations) q;
}

pub SameLedger-trans : {s t u : Session} → SameLedger s t → SameLedger t u → SameLedger s u
SameLedger-trans p q = record {
  same_receipts = q.same_receipts ∙ p.same_receipts;
  same_reservations = q.same_reservations ∙ p.same_reservations;
}

pub Keeps->>= {ℓ κ} :
    {A : Type ℓ} {B : Type κ} (m : Action A) (f : A → Action B)
    → Keeps m
    → ((a : A) → Keeps (f a))
    → Keeps (m >>= f)
Keeps->>= m f k l = record {
  keeps = λ s b t h.
      let (a, u, e, rest) = >>=-eq-done m f s h in
      SameLedger-trans (k.keeps s a u e) ((l a).keeps u b t rest);
}

pub Keeps-get_attempt : (id : String) → Keeps (get_attempt id)
unfolding get_attempt row_from_db
Keeps-get_attempt id = record { keeps = λ s o t h. SameLedger-of (ground arith) }

pub Keeps-get_lease : (key : Key) → Keeps (get_lease key)
unfolding get_lease lock
Keeps-get_lease key = record { keeps = λ s o t h. SameLedger-of (ground arith) }

pub Keeps-get_resource_locks : (host : Host) (e : Environment) → Keeps (get_resource_locks host e)
unfolding get_resource_locks
Keeps-get_resource_locks host e = record { keeps = λ s o t h. SameLedger-of (ground arith) }

pub Keeps-put_attempt : (row : Attempt) → Keeps (put_attempt row)
unfolding put_attempt
Keeps-put_attempt row = record {
  keeps = λ s o t h. record { same_receipts = ground arith; same_reservations = ground arith };
}

Keeps-put_resource_lock :
    (o : LockOwner) (previous : List ResourceLock) (r : Resource)
    → Keeps (put_resource_lock o previous r)
unfolding put_resource_lock
Keeps-put_resource_lock o previous r = record {
  keeps = λ s x t h. record { same_receipts = ground arith; same_reservations = ground arith };
}

pub Keeps-put_resource_locks :
    (o : LockOwner) (previous : List ResourceLock) → Keeps (put_resource_locks o previous)
unfolding put_resource_locks
Keeps-put_resource_locks o previous =
    Keeps->>= (put_resource_lock o previous _) _ (Keeps-put_resource_lock o previous _)
      λ _. Keeps-put_resource_lock o previous _

pub Keeps-put_lease :
    (l : Lease) (expected : Option String) (event : LeaseEvent) → Keeps (put_lease l expected event)
unfolding put_lease write_lease append_lease_history
Keeps-put_lease l expected event = record {
  keeps = λ s x t h. record { same_receipts = ground arith; same_reservations = ground arith };
}

pub Keeps-next_fence : Keeps next_fence
unfolding next_fence
Keeps-next_fence = record { keeps = λ s x t h. SameLedger-of (ground arith) }

Keeps-prior_owner :
    (time : ℕ) (lease : Option Lease) (k : ResourceLock) → Keeps (prior_owner time lease k)
unfolding prior_owner get_attempt row_from_db owner_lease get_lease lock
Keeps-prior_owner time none k = record { keeps = λ s o t h. SameLedger-of (ground arith) }
Keeps-prior_owner time (some l) k = record { keeps = λ s o t h. SameLedger-of (ground arith) }

pub Keeps-lock_owners :
    (time : ℕ) (lease : Option Lease) (ks : List ResourceLock) (owners : List PriorOwner)
    → Keeps (lock_owners time lease ks owners)
unfolding lock_owners
Keeps-lock_owners time lease [] owners = record { keeps = λ s o t h. SameLedger-of (ground arith) }
Keeps-lock_owners time lease (k ∷ ks) owners =
    Keeps->>= (prior_owner time lease k) _ (Keeps-prior_owner time lease k)
      λ o. Keeps-lock_owners time lease ks _

pub Keeps-with_lease_owner :
    (key : GivenKey) (lease : Option Lease) (ks : List ResourceLock) (owners : List PriorOwner)
    → Keeps (with_lease_owner key lease ks owners)
unfolding with_lease_owner get_attempt row_from_db
Keeps-with_lease_owner key none ks owners = record {
  keeps = λ s o t h. SameLedger-of (ground arith);
}
Keeps-with_lease_owner key (some l) ks owners = record {
  keeps = λ s o t h. SameLedger-of (ground arith);
}

Keeps-recover_owner : (host : Host) (time : ℕ) (o : PriorOwner) → Keeps (recover_owner host time o)
unfolding recover_owner has_in_flight_stripe_intent get_retention_reservation_by_attempt
    get_retention_receipt put_attempt lock
Keeps-recover_owner host time o = record {
  keeps = λ s x t h. record { same_receipts = ground arith; same_reservations = ground arith };
}

pub Keeps-recover_owners :
    (host : Host) (time : ℕ) (os : List PriorOwner) → Keeps (recover_owners host time os)
unfolding recover_owners
Keeps-recover_owners host time [] = record { keeps = λ s o t h. SameLedger-of (ground arith) }
Keeps-recover_owners host time (o ∷ os) =
    Keeps->>= (recover_owner host time o) _ (Keeps-recover_owner host time o)
      λ _. Keeps-recover_owners host time os
