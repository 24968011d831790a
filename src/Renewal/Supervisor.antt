-- ===== src/Renewal/Supervisor.antt =====
-- `withRenewingLease` of src/attempts/lock.mjs: a state that its timers, the answers of the store and
-- the work change, one event at a time.
--
-- Times are microseconds, of `performance.now()` for the supervisor and of the database for a lease;
-- the rounding of floating-point numbers is not modelled. An event comes when it comes: a timer may
-- fire late. The leases are those of the store, whose times are finite.
use billing_validation_contr.Common.{
  ℕ, ◌+◌, ◌-◌, ◌*◌, Bool, true, false, ◌&&◌, List, [], ◌∷◌, Option, none, some, leb, ltb,
  if◌then◌else◌,
}
use billing_validation_contr.Attempts.Data.{Code}
use billing_validation_contr.Attempts.Session.{Answer}
use billing_validation_contr.Attempts.Store.Fenced.{Owned, microseconds}

-- `expiresAt` and `serverNow` of what `assertFence` and `renew` return.
pub record Confirmed : Type 0 where
  pub expires_at : ℕ
  pub server_now : ℕ

abbrev pub confirmed_of : Owned → Confirmed
confirmed_of o = record { expires_at = o.expires_at; server_now = o.server_now }

pub data Reason : Type 0 where
  expired timed_out : Reason
  store_refused : Code → Reason

-- How the race between the work and the loss of the lease ends. The signal is aborted where it is
-- `lost`, and the supervisor has stopped where it has ended.
pub data Outcome (A : Type 0) : Type 0 where
  worked : Answer A → Outcome A
  lost : Reason → Outcome A

-- The renewal waits for its timer, or for the store since it asked.
pub data Renewal : Type 0 where
  waiting : Renewal
  asking : ℕ → Renewal

-- The deadline's timer is set for `deadline`; `lease` is what was confirmed last.
pub record Supervisor (A : Type 0) : Type 0 where
  pub deadline : ℕ
  pub lease : Confirmed
  pub renewal : Renewal
  pub outcome : Option (Outcome A)

pub data Event (A : Type 0) : Type 0 where
  deadline_fires : Event A
  renewal_fires : ℕ → Event A
  renewed : Confirmed → ℕ → Event A
  renewal_refused : Code → Event A
  wait_fires : ℕ → Event A
  work_settles : Answer A → Event A

-- `setDeadline`: the deadline that a lease gives which was asked for at `requested` and is read `now`.
unfoldable pub next_deadline : ℕ → Confirmed → ℕ → ℕ → Option ℕ
next_deadline ttl lease requested now =
    let remaining = lease.expires_at - lease.server_now in
    if leb 1 remaining
      && leb remaining (microseconds ttl + 1_000)
      && ltb now (requested + remaining)
    then some (requested + remaining)
    else none

module _ {A : Type 0} where
  abbrev pub is_over : Supervisor A → Bool
  is_over s = elim s.outcome [ none ↦ false | some o ↦ true ]

  -- `fail`.
  unfoldable pub fail : Reason → Supervisor A → Supervisor A
  fail reason s = if is_over s then s else record s { outcome = some (lost reason) }

  abbrev pub confirm : Confirmed → Option ℕ → Supervisor A → Supervisor A
  confirm lease none s = fail expired s
  confirm lease (some d) s = record s { deadline = d; lease = lease; renewal = waiting }

  -- The renewal's timer.
  unfoldable pub ask_renewal : ℕ → Supervisor A → Supervisor A
  ask_renewal now s =
      if is_over s
      then s
      else if leb s.deadline now
      then fail expired s
      else record s { renewal = asking now }

  abbrev pub answered : ℕ → Renewal → Confirmed → ℕ → Supervisor A → Supervisor A
  answered ttl waiting lease now s = s
  answered ttl (asking requested) lease now s =
      if is_over s then s else confirm lease (next_deadline ttl lease requested now) s

  -- The store answers a renewal that is asked for.
  unfoldable pub confirm_renewal : ℕ → Confirmed → ℕ → Supervisor A → Supervisor A
  confirm_renewal ttl lease now s = answered ttl s.renewal lease now s

  -- The timer that limits the wait for the store.
  unfoldable pub give_up : ℕ → Supervisor A → Supervisor A
  give_up now s = fail (if leb s.deadline (now + 1_000) then expired else timed_out) s

  unfoldable pub finish : Answer A → Supervisor A → Supervisor A
  finish a s = if is_over s then s else record s { outcome = some (worked a) }

  -- The answers of the store and the limit of the wait come only while it is asked.
  abbrev while_asking : Supervisor A → Supervisor A → Supervisor A
  while_asking s next = elim s.renewal [ waiting ↦ s | asking requested ↦ next ]

  unfoldable pub step : ℕ → Event A → Supervisor A → Supervisor A
  step ttl deadline_fires s = fail expired s
  step ttl (renewal_fires now) s = elim s.renewal [
    | waiting ↦ ask_renewal now s
    | asking requested ↦ s
  ]
  step ttl (renewed lease now) s = confirm_renewal ttl lease now s
  step ttl (renewal_refused code) s = while_asking s (fail (store_refused code) s)
  step ttl (wait_fires now) s = while_asking s (give_up now s)
  step ttl (work_settles a) s = finish a s

  unfoldable pub run : ℕ → List (Event A) → Supervisor A → Supervisor A
  run ttl [] s = s
  run ttl (e ∷ es) s = run ttl es (step ttl e s)

-- What the call does before the work starts.
pub data Start (A : Type 0) : Type 0 where
  invalid_supervision lease_expired : Start A
  running : Supervisor A → Start A

abbrev first_state : {A : Type 0} → Confirmed → Option ℕ → Start A
first_state lease none = lease_expired
first_state lease (some d) =
    running (record { deadline = d; lease = lease; renewal = waiting; outcome = none })

-- `ttl` in seconds, `interval` in milliseconds; the fence is confirmed by a call at `started`, and its
-- answer is read `now`.
unfoldable pub start : {A : Type 0} → ℕ → ℕ → Confirmed → ℕ → ℕ → Start A
start ttl interval lease started now =
    if leb 1 interval && leb 1 ttl && ltb interval (ttl * 1_000)
    then first_state lease (next_deadline ttl lease started now)
    else invalid_supervision
