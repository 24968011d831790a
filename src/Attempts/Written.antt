-- ===== src/Attempts/Written.antt =====
-- What the writes of `cleanup` of src/attempts/store.mjs leave in the tables.
use billing_validation_contr.Common.{
  ℕ, Bool, false, ◌&&◌, ltb, String, List, [], ◌∷◌, some, ◌≡◌, refl, arith, ap, subst, sym, ◌∙◌,
  some_of, delete_where, Bool-cases, inl, inr,
}
use billing_validation_contr.Attempts.Data.{
  Attempt, CleanupReceipt, Key, Environment, Resource, Lease, ResourceLock,
}
use billing_validation_contr.Attempts.Session.{Session, Host, done}
use billing_validation_contr.Attempts.Runs.{>>=-then}
use billing_validation_contr.Attempts.Postgres.{
  stripe_resource, supabase_resource, lock, now, put_cleanup_receipt, put_attempt, find_attempt,
  updated_row, delete_lease, remove_lease, append_lease_history, is_lease_of, delete_resource_locks,
  delete_resource_lock, is_held_by,
}
use billing_validation_contr.Attempts.Transitions.{put_attempt-done}

module _ {A : Type 0} (p : A → Bool) where
  some_of-delete_where : (xs : List A) → some_of p (delete_where p xs) ≡ false
  some_of-delete_where [] = refl
  some_of-delete_where (x ∷ xs) = ground (arith, some_of-delete_where xs)

  some_of-delete_other :
      (q : A → Bool) (xs : List A) → some_of p xs ≡ false → some_of p (delete_where q xs) ≡ false
  some_of-delete_other q [] h = refl
  some_of-delete_other q (x ∷ xs) h =
      let rest = some_of-delete_other q xs (ground (arith, h)) in
      elim (Bool-cases (q x)) [
        | inl gone ↦ rw gone rest
        | inr kept ↦ rw kept (ground (arith, h, rest))
      ]

-- None of the rows is the owner's and unexpired at the reading.
abbrev pub is_live_lease : Key → String → String → ℕ → Lease → Bool
is_live_lease key id fence time l = is_lease_of key id fence l && ltb time l.expires_at

abbrev pub is_live_lock : Resource → String → String → ℕ → ResourceLock → Bool
is_live_lock r id fence time l = is_held_by r id fence l && ltb time l.expires_at

module _ (host : Host) where
  delete_lease-removed :
      (key : Key) (id fence : String) (s : Session) {x : Unit {0}} {t : Session}
      → delete_lease host key id fence s ≡ done x t
      → (some_of (is_live_lease key id fence (host.clock s.ticks)) t.leases ≡ false)
        × (t.attempts ≡ s.attempts)
        × (t.cleanup_receipts ≡ s.cleanup_receipts)
  unfolding delete_lease append_lease_history remove_lease now
  delete_lease-removed key id fence s h =
      let gone = some_of-delete_where (is_live_lease key id fence (host.clock s.ticks)) s.leases in
      (ground (arith, h, gone), ground (arith, h), ground (arith, h))

  delete_resource_lock-removed :
      (id fence : String) (r : Resource) (s : Session) {x : Unit {0}} {t : Session}
      → delete_resource_lock host id fence r s ≡ done x t
      → (t.locks ≡ delete_where (is_live_lock r id fence (host.clock s.ticks)) s.locks)
        × (t.attempts ≡ s.attempts)
        × (t.cleanup_receipts ≡ s.cleanup_receipts)
        × (t.leases ≡ s.leases)
  unfolding delete_resource_lock now
  delete_resource_lock-removed id fence r s h =
      (ground (arith, h), ground (arith, h), ground (arith, h), ground (arith, h))

  -- The receipt is added, the row updated, and the lease and both locks are gone, as far as they had
  -- not expired at the clock's readings.
  pub record Written (key : Key) (id fence : String) (e : Environment) (changed old : Attempt)
      (receipt : CleanupReceipt) (s t : Session) : Type 0 where
    pub added : t.cleanup_receipts ≡ receipt ∷ s.cleanup_receipts
    pub stored : find_attempt changed.attempt_id t.attempts ≡ some (updated_row changed old)
    pub lease_reading : ℕ
    pub lease_gone :
        some_of (is_live_lease key id fence (host.clock lease_reading)) t.leases ≡ false
    pub stripe_reading : ℕ
    pub stripe_gone :
        some_of (is_live_lock (stripe_resource e) id fence (host.clock stripe_reading)) t.locks
        ≡ false
    pub supabase_reading : ℕ
    pub supabase_gone :
        some_of (is_live_lock (supabase_resource e) id fence (host.clock supabase_reading)) t.locks
        ≡ false

  put_cleanup_receipt-added :
      (r : CleanupReceipt) (s : Session) {x : Unit {0}} {t : Session}
      → put_cleanup_receipt r s ≡ done x t
      → (t.cleanup_receipts ≡ r ∷ s.cleanup_receipts) × (t.attempts ≡ s.attempts)
  unfolding put_cleanup_receipt lock
  put_cleanup_receipt-added r s h = (ground (arith, h), ground (arith, h))

  delete_both-removed :
      (id fence : String) (e : Environment) (s : Session) {x : Unit {0}} {t : Session}
      → delete_resource_locks host id fence e s ≡ done x t
      → (n : ℕ) × (m : ℕ) × (some_of
            (is_live_lock (stripe_resource e) id fence (host.clock n))
            t.locks
          ≡ false)
        × (some_of (is_live_lock (supabase_resource e) id fence (host.clock m)) t.locks ≡ false)
        × (t.attempts ≡ s.attempts)
        × (t.cleanup_receipts ≡ s.cleanup_receipts)
        × (t.leases ≡ s.leases)
  unfolding delete_resource_locks
  delete_both-removed id fence e s {t = t} h =
      >>=-then (delete_resource_lock host id fence (stripe_resource e)) _ s h λ _ u first second.
        let (a1, b1, c1, d1) = delete_resource_lock-removed id fence (stripe_resource e) s first in
        let (a2, b2, c2, d2) =
          delete_resource_lock-removed id fence (supabase_resource e) u second in
        let p = is_live_lock (stripe_resource e) id fence (host.clock s.ticks) in
        let q = is_live_lock (supabase_resource e) id fence (host.clock u.ticks) in
        let gone : some_of p u.locks ≡ false =
          subst (λ ls. some_of p ls ≡ false) (sym a1) (some_of-delete_where p s.locks) in
        (
          s.ticks,
          u.ticks,
          subst (λ ls. some_of p ls ≡ false) (sym a2) (some_of-delete_other p q u.locks gone),
          subst (λ ls. some_of q ls ≡ false) (sym a2) (some_of-delete_where q u.locks),
          b2 ∙ b1,
          c2 ∙ c1,
          d2 ∙ d1,
        )

  pub writes-Written :
      (key : Key) (id fence : String) (e : Environment) (changed old : Attempt)
      (receipt : CleanupReceipt) (s s1 s2 s3 : Session) {x1 x2 x3 x4 : Unit {0}} {t : Session}
      → find_attempt changed.attempt_id s.attempts ≡ some old
      → put_cleanup_receipt receipt s ≡ done x1 s1
      → put_attempt changed s1 ≡ done x2 s2
      → delete_lease host key id fence s2 ≡ done x3 s3
      → delete_resource_locks host id fence e s3 ≡ done x4 t
      → Written key id fence e changed old receipt s t
  writes-Written key id fence e changed old receipt s s1 s2 s3 {t = t} found e1 e2 e3 e4 =
      let (added, kept) = put_cleanup_receipt-added receipt s e1 in
      let there =
        subst (λ rows. find_attempt changed.attempt_id rows ≡ some old) (sym kept) found in
      let (stored, only) = put_attempt-done changed s1 {old = old} there e2 in
      let (gone, kept3, same3) = delete_lease-removed key id fence s2 e3 in
      let (n, m, stripe, supabase, kept4, same4, leases4) = delete_both-removed id fence e s3 e4 in
      let reading = s2.ticks in
      record {
        added = same4 ∙ same3 ∙ ap (λ x. x.tables.cleanup_receipts) only ∙ added;
        stored =
            subst (λ rows. find_attempt changed.attempt_id rows ≡ some (updated_row changed old))
              (sym (kept4 ∙ kept3)) stored;
        lease_reading = reading;
        lease_gone =
            subst (λ ls. some_of (is_live_lease key id fence (host.clock reading)) ls ≡ false)
              (sym leases4) gone;
        stripe_reading = n;
        stripe_gone = stripe;
        supabase_reading = m;
        supabase_gone = supabase;
      }
