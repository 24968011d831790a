-- ===== src/Renewal/Witnesses.antt =====
-- A supervisor with one renewal, and a renewal of the store.
use billing_validation_contr.Common.{ℕ, ◌+◌, ◌≤◌, ◌<◌, none, ◌≡◌, refl, arith}
use billing_validation_contr.Js.{number}
use billing_validation_contr.Attempts.Opened.{runs}
use billing_validation_contr.Attempts.Examples.{
  host, attempt_a, fence, admitted, done_of, session_of,
}
use billing_validation_contr.Attempts.Store.Fenced.{Owned, microseconds, renew}
use billing_validation_contr.Renewal.Supervisor.{
  Confirmed, confirmed_of, Supervisor, waiting, asking, renewal_fires, renewed, next_deadline,
  ask_renewal, confirm_renewal, step, start,
}
use billing_validation_contr.Renewal.Current.{here, next, supervised-IsCurrent}
use billing_validation_contr.Renewal.Extended.{renew-extends}

abbrev first_lease : Confirmed
first_lease = record { expires_at = 61_000_000; server_now = 1_000_000 }

abbrev second_lease : Confirmed
second_lease = record { expires_at = 81_000_000; server_now = 21_000_000 }

abbrev begun : Supervisor ℕ
begun = record { deadline = 60_000_500; lease = first_lease; renewal = waiting; outcome = none }

abbrev extended : Supervisor ℕ
unfolding next_deadline ask_renewal confirm_renewal step
extended = step 60 (renewed second_lease 20_000_900) (step 60 (renewal_fires 20_000_500) begun)

supervised-IsCurrent_example :
    (80_000_000 + 900_000 < extended.lease.expires_at)
    × (extended.lease.expires_at ≤ extended.lease.server_now + microseconds 60 + 1_000)
unfolding next_deadline ask_renewal confirm_renewal step start
supervised-IsCurrent_example =
    supervised-IsCurrent 900_000 60 20_000 500 900 first_lease {s = begun} {t = extended} 80_000_000
      refl (omega arith)
      (next (renewed second_lease 20_000_900) (next (renewal_fires 20_000_500) here tt)
        (omega arith))
      (omega arith)

abbrev granted : Owned
unfolding runs admitted
granted = done_of (renew host attempt_a fence (number 60) admitted) refl

abbrev asked : Supervisor ℕ
asked = record begun { renewal = asking 20_000_500 }

renew-extends_example : step 60 (renewed (confirmed_of granted) 20_000_900) asked ≡ record asked {
  deadline = 20_000_500 + microseconds 60;
  lease = confirmed_of granted;
  renewal = waiting;
}
unfolding runs admitted
renew-extends_example =
    renew-extends host attempt_a fence 60 admitted {o = granted}
      {t = session_of (renew host attempt_a fence (number 60) admitted)} asked 20_000_500 20_000_900
      refl refl refl (omega arith)
