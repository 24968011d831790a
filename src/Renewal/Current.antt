-- ===== src/Renewal/Current.antt =====
-- While its deadline has not come, the supervisor of src/attempts/lock.mjs holds a lease that has not
-- expired on the clock of the database.
use billing_validation_contr.Common.{
  ℕ, ◌+◌, ◌≤◌, ◌<◌, some, ◌≡◌, inl, inr, arith, Option-cases, Bool-cases,
}
use billing_validation_contr.Attempts.Session.{Answer}
use billing_validation_contr.Attempts.Store.Fenced.{microseconds}
use billing_validation_contr.Renewal.Supervisor.{
  Confirmed, Reason, Renewal, waiting, asking, Supervisor, Event, deadline_fires, renewal_fires,
  renewed, renewal_refused, wait_fires, work_settles, next_deadline, is_over, fail, confirm,
  answered, expired, ask_renewal, confirm_renewal, give_up, finish, step, running, start,
}

-- The database's clock is `ahead` of the supervisor's, and is read after the call that asks for it.
module _ (ahead : ℕ) where
  abbrev pub IsReadAfter : ℕ → Confirmed → Type 0
  IsReadAfter requested lease = requested + ahead ≤ lease.server_now

  abbrev pub IsAnswer : Renewal → Confirmed → Type 0
  IsAnswer waiting lease = Unit
  IsAnswer (asking requested) lease = IsReadAfter requested lease

  -- An event that the database's clock allows.
  abbrev pub IsHonest : {A : Type 0} → Supervisor A → Event A → Type 0
  IsHonest s (renewed lease now) = IsAnswer s.renewal lease
  IsHonest s e = Unit

  pub data Reach {A : Type 0} (ttl : ℕ) (s : Supervisor A) : Supervisor A → Type 0 where
    here : Reach ttl s s
    next :
        {t : Supervisor A} (e : Event A) → Reach ttl s t → IsHonest t e → Reach ttl s (step ttl e t)

  -- The deadline is not behind the expiry of the lease, which is not far behind its reading.
  abbrev pub IsCovered : {A : Type 0} → ℕ → Supervisor A → Type 0
  IsCovered ttl s =
      (s.deadline + ahead ≤ s.lease.expires_at)
      × (s.lease.expires_at ≤ s.lease.server_now + microseconds ttl + 1_000)

  next_deadline-bound :
      (ttl : ℕ) (lease : Confirmed) (requested now : ℕ) {d : ℕ}
      → next_deadline ttl lease requested now ≡ some d
      → IsReadAfter requested lease
      → (d + ahead ≤ lease.expires_at)
        × (lease.expires_at ≤ lease.server_now + microseconds ttl + 1_000)
  unfolding next_deadline
  next_deadline-bound ttl lease requested now h read = ground (arith, h, read)

  module _ {A : Type 0} (ttl : ℕ) where
    fail-IsCovered :
        (reason : Reason) (s : Supervisor A) → IsCovered ttl s → IsCovered ttl (fail reason s)
    unfolding fail
    fail-IsCovered reason s h = ground (arith, h)

    finish-IsCovered :
        (a : Answer A) (s : Supervisor A) → IsCovered ttl s → IsCovered ttl (finish a s)
    unfolding finish
    finish-IsCovered a s h = ground (arith, h)

    ask_renewal-IsCovered :
        (now : ℕ) (s : Supervisor A) → IsCovered ttl s → IsCovered ttl (ask_renewal now s)
    unfolding ask_renewal fail
    ask_renewal-IsCovered now s h = ground (arith, h)

    confirm-IsCovered :
        (lease : Confirmed) (requested now : ℕ) (s : Supervisor A)
        → IsCovered ttl s
        → IsReadAfter requested lease
        → IsCovered ttl (confirm lease (next_deadline ttl lease requested now) s)
    confirm-IsCovered lease requested now s h read =
        elim (Option-cases (next_deadline ttl lease requested now)) [
          | inl none_left ↦ rw none_left (fail-IsCovered expired s h)
          | inr (d, some_left) ↦
              rw some_left (next_deadline-bound ttl lease requested now some_left read)
        ]

    asked-IsCovered :
        (r : Renewal) (lease : Confirmed) (now : ℕ) (s : Supervisor A)
        → IsCovered ttl s
        → IsAnswer r lease
        → IsCovered ttl (answered ttl r lease now s)
    asked-IsCovered waiting lease now s h read = h
    asked-IsCovered (asking requested) lease now s h read = elim (Bool-cases (is_over s)) [
      | inl over ↦ rw over h
      | inr on ↦ rw on (confirm-IsCovered lease requested now s h read)
    ]

    either-IsCovered :
        (r : Renewal) (s t : Supervisor A)
        → IsCovered ttl s
        → IsCovered ttl t
        → IsCovered ttl (elim r [ waiting ↦ s | asking requested ↦ t ])
    either-IsCovered waiting s t h g = h
    either-IsCovered (asking requested) s t h g = g

    step-IsCovered :
        (e : Event A) (s : Supervisor A)
        → IsCovered ttl s
        → IsHonest s e
        → IsCovered ttl (step ttl e s)
    unfolding step give_up confirm_renewal
    step-IsCovered deadline_fires s h honest = fail-IsCovered _ s h
    step-IsCovered (renewal_fires now) s h honest =
        either-IsCovered s.renewal _ _ (ask_renewal-IsCovered now s h) h
    step-IsCovered (renewed lease now) s h honest = asked-IsCovered s.renewal lease now s h honest
    step-IsCovered (renewal_refused code) s h honest =
        either-IsCovered s.renewal _ _ h (fail-IsCovered _ s h)
    step-IsCovered (wait_fires now) s h honest =
        either-IsCovered s.renewal _ _ h (fail-IsCovered _ s h)
    step-IsCovered (work_settles a) s h honest = finish-IsCovered a s h

    Reach-IsCovered : {s t : Supervisor A} → IsCovered ttl s → Reach ttl s t → IsCovered ttl t
    Reach-IsCovered h here = h
    Reach-IsCovered h (next {t = t} e calls honest) =
        step-IsCovered e t (Reach-IsCovered h calls) honest

    start-IsCovered :
        (interval started now : ℕ) (lease : Confirmed) {s : Supervisor A}
        → start ttl interval lease started now ≡ running s
        → IsReadAfter started lease
        → IsCovered ttl s
    unfolding start
    start-IsCovered interval started now lease h read =
        elim (Option-cases (next_deadline ttl lease started now)) [
          | inl none_left ↦ absurd (ground (arith, h, none_left))
          | inr (d, some_left) ↦
              ground (arith, h, some_left, next_deadline-bound ttl lease started now some_left read)
        ]

-- As long as the deadline of a running supervisor has not come, its lease has not expired on the clock
-- of the database, which may be ahead of the supervisor's and answers after it was asked; and the lease
-- ends no later than its time to live and a millisecond after the database read its clock. So it is
-- after a start that succeeds, whatever events follow, in any order and however late.
pub supervised-IsCurrent :
    {A : Type 0} (ahead ttl interval started now : ℕ) (lease : Confirmed) {s t : Supervisor A}
    (time : ℕ)
    → start ttl interval lease started now ≡ running s
    → IsReadAfter ahead started lease
    → Reach ahead ttl s t
    → time < t.deadline
    → (time + ahead < t.lease.expires_at)
      × (t.lease.expires_at ≤ t.lease.server_now + microseconds ttl + 1_000)
supervised-IsCurrent ahead ttl interval started now lease time begun read calls before =
    let first = start-IsCovered ahead ttl interval started now lease begun read in
    let covered = Reach-IsCovered ahead ttl first calls in
    (ground (arith, covered, before), covered.1)
