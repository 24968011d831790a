-- ===== src/Github/Witnesses.antt =====
-- The checks of a candidate with one run.
use billing_validation_contr.Common.{none, ltb, if◌then◌else◌, arith, ℕ, List, ◌≡◌, true, refl}
use billing_validation_contr.Js.{Value}
use billing_validation_contr.Github.Runs.{
  Client, require, require_some, call, is_bound, page_of, total_of, add_run, add_runs, list_pages,
  list_runs, Started, done, is_attempt_of, read_attempt, read_attempts, insert, sort, is_usable,
  first_of, latest_attempt,
}
use billing_validation_contr.Github.Checks.{
  is_job_of, add_jobs, job_pages, read_jobs, named, only_job, is_successful, receipt, receipts,
  Checks, candidate_fields, is_unchanged, collect_checks,
}
use billing_validation_contr.Github.Selected.{AreListed, list_runs-AreListed}
use billing_validation_contr.Github.Bounded.{Agree, list_runs-same}
use billing_validation_contr.Github.Latest.{IsLatest, IsOurs, latest_attempt-IsLatest}
use billing_validation_contr.Github.Collected.{AreCollected, collect_checks-AreCollected}
use billing_validation_contr.Github.Fixtures.{client, input, candidate, value_of}

-- To unfold this name is to open all that these calls run through.
unfoldable runs : ℕ
unfolding require require_some call is_bound page_of total_of add_run add_runs list_pages list_runs
    is_attempt_of read_attempt read_attempts insert sort is_usable first_of latest_attempt is_job_of
    add_jobs job_pages read_jobs named only_job is_successful receipt receipts candidate_fields
    is_unchanged collect_checks
runs = 0

abbrev listed : List Value
unfolding runs
listed = value_of (list_runs client candidate 0) refl

list_runs-AreListed_example : AreListed candidate 5 0 1 listed
unfolding runs
list_runs-AreListed_example =
    list_runs-AreListed client candidate {n = 0} {k = 1} {runs = listed} refl

-- The same API, which answers no more after five calls.
abbrev cut : Client
cut = record {
  answer = λ n path. if ltb n 5 then client.answer n path else none;
  parse_date = λ s. none;
}

cut-Agree : Agree client cut candidate 5 0
cut-Agree j e from until = let early : ltb j 5 ≡ true = ground (arith, until) in rw early refl

list_runs-same_example : list_runs client candidate 0 ≡ list_runs cut candidate 0
list_runs-same_example = list_runs-same client cut candidate 0 cut-Agree

abbrev latest : Started
unfolding runs
latest = value_of (latest_attempt client candidate 0) refl

latest_attempt-IsLatest_example :
    (runs : List Value) × (j : ℕ) × (attempts : List Started) × (list_runs client candidate 0
      ≡ done runs j)
    × (read_attempts client candidate runs j ≡ done attempts 2)
    × IsLatest latest attempts
    × IsOurs candidate latest
    × (is_usable latest.attempt ≡ true)
unfolding runs
latest_attempt-IsLatest_example =
    latest_attempt-IsLatest client candidate 0 {k = 2} {a = latest} refl

abbrev collected : Checks
unfolding runs
collected = value_of (collect_checks client input 0) refl

collect_checks-AreCollected_example : AreCollected client input 0 5 collected
unfolding runs
collect_checks-AreCollected_example =
    collect_checks-AreCollected client input 0 {k = 5} {r = collected} refl
