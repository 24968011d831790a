-- ===== src/Leases/Witnesses.antt =====
-- A lease that its owner removes.
use billing_validation_contr.Common.{◌≡◌, refl}
use billing_validation_contr.Attempts.Data.{Key}
use billing_validation_contr.Attempts.Opened.{runs}
use billing_validation_contr.Attempts.Examples.{host, attempt_a, fence, admitted}
use billing_validation_contr.Leases.Spec.{delete, meaning}
use billing_validation_contr.Leases.Refined.{perform, owners_of, view, IsKept, perform-meaning}

abbrev key : Key
key = record { project_ref = "abcdefghijklmnopqrst"; suite = "billing"; fixture_key = "invoice-a" }

perform-meaning_example :
    (view (perform host (delete key attempt_a fence) admitted)
      ≡ meaning
          (host.clock admitted.ticks)
          (delete key attempt_a fence)
          (owners_of admitted.leases))
    × IsKept (perform host (delete key attempt_a fence) admitted)
unfolding runs admitted
perform-meaning_example = perform-meaning host (delete key attempt_a fence) admitted (refl, tt)
