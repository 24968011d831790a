-- ===== src/Github/Collected.antt =====
-- What `collectCandidateChecks` of src/github/candidate-checks.mjs returns.
use billing_validation_contr.Common.{
  ℕ, zero, suc, ◌≤◌, true, String, List, [], ◌∷◌, Option, none, some, ◌≡◌, inl, inr, refl, subst,
  arith, length, nat_eq, Bool-cases,
}
use billing_validation_contr.Js.{Value}
use billing_validation_contr.Evidence.Shapes.{get}
use billing_validation_contr.Github.Runs.{
  Client, Candidate, Started, done, call, id_of, date_of, latest_attempt,
}
use billing_validation_contr.Github.Checks.{
  JobList, is_job_of, add_jobs, job_pages, read_jobs, Receipt, named, only_job, is_successful,
  receipt, receipts, job_names, Checks, candidate_fields, is_unchanged, collect_checks,
}
use billing_validation_contr.Github.Selected.{
  >>=-done, require-done, require_some-done, done-fst, All, All-++,
}

-- A job of the attempt, on the candidate's commit.
abbrev pub IsJob : Candidate → Started → Value → Type 0
IsJob c a job = is_job_of c a job ≡ true

module _ (client : Client) (c : Candidate) (a : Started) where
  add_jobs-AreJobs :
      (l : JobList) (jobs : List Value) (n : ℕ) {k : ℕ} {next : JobList}
      → All (IsJob c a) l.jobs
      → add_jobs c a l jobs n ≡ done next k
      → All (IsJob c a) next.jobs
  unfolding add_jobs
  add_jobs-AreJobs l [] n ps h = done-fst (λ x. All (IsJob c a) x.jobs) h ps
  add_jobs-AreJobs l (job ∷ rest) n ps h = require_some-done _ _ _ h λ i _ h1.
      require-done _ _ _ h1 λ fits h2.
        let ours : IsJob c a job = ground (arith, fits) in
        add_jobs-AreJobs _ rest n (All-++ (IsJob c a) l.jobs _ ps (ours, tt)) h2

  job_pages-AreJobs :
      (left page : ℕ) (total : Option ℕ) (l : JobList) (n : ℕ) {k : ℕ} {jobs : List Value}
      → All (IsJob c a) l.jobs
      → job_pages client c a left page total l n ≡ done jobs k
      → All (IsJob c a) jobs
  unfolding job_pages
  job_pages-AreJobs zero page total l n ps h = cc
  job_pages-AreJobs (suc left) page total l n {k = k} {jobs = jobs} ps h =
      >>=-done (call client _) _ h λ response j _ h1. require_some-done _ _ _ h1 λ items _ h2.
        require_some-done _ _ _ h2 λ count _ h3.
          >>=-done (add_jobs c a l items) _ h3 λ next m added h4.
            let ours = add_jobs-AreJobs l items j ps added in
            elim (Bool-cases (nat_eq (length items) 100)) [
              | inl full ↦
                  job_pages-AreJobs left (suc page) (some count) next m ours (rw full at h4)
              | inr short ↦
                  require-done (nat_eq (length next.jobs) count) _ _ (rw short at h4)
                    λ _ last. done-fst (All (IsJob c a)) last ours
            ]

  read_jobs-AreJobs :
      (n : ℕ) {k : ℕ} {jobs : List Value}
      → read_jobs client c a n ≡ done jobs k
      → All (IsJob c a) jobs
  unfolding read_jobs
  read_jobs-AreJobs n h = job_pages-AreJobs 5 1 none _ n tt h

-- The receipt of the only job of the name, which succeeded and ran within the attempt.
abbrev pub IsReceipt : Client → Started → List Value → String × String → Receipt → Type 0
IsReceipt client a jobs (key, name) r =
    (r.key ≡ key)
    × ((job : Value) × (named name jobs ≡ job ∷ [])
        × (is_successful job ≡ true)
        × (id_of job ≡ some r.job_id)
        × ((start : ℕ) × (finish : ℕ) × (date_of client (get "started_at" job) ≡ some start)
            × (date_of client (get "completed_at" job) ≡ some finish)
            × (a.started_at ≤ start)
            × (start ≤ finish)))

abbrev pub AreReceipts :
    Client → Started → List Value → List (String × String) → List Receipt → Type 0
AreReceipts client a jobs [] [] = Unit
AreReceipts client a jobs (n ∷ ns) (r ∷ rs) =
    IsReceipt client a jobs n r × AreReceipts client a jobs ns rs
AreReceipts client a jobs _ _ = ⊥

only_job-singleton :
    (jobs : List Value) (n : ℕ) {k : ℕ} {job : Value}
    → only_job jobs n ≡ done job k
    → jobs ≡ job ∷ []
unfolding only_job
only_job-singleton [] n h = cc
only_job-singleton (x ∷ []) n h = cc
only_job-singleton (x ∷ y ∷ rest) n h = cc

module _ (client : Client) (a : Started) (jobs : List Value) where
  receipt-IsReceipt :
      (key name : String) (n : ℕ) {k : ℕ} {r : Receipt}
      → receipt client a jobs key name n ≡ done r k
      → IsReceipt client a jobs (key, name) r
  unfolding receipt
  receipt-IsReceipt key name n h = >>=-done (only_job (named name jobs)) _ h λ job j only h1.
      require-done _ _ _ h1 λ success h2. require_some-done _ _ _ h2 λ start started h3.
        require_some-done _ _ _ h3 λ finish finished h4. require-done _ _ _ h4 λ within h5.
          require_some-done _ _ _ h5 λ i is last.
            done-fst (IsReceipt client a jobs (key, name)) last (
              refl,
              (
                job,
                only_job-singleton (named name jobs) n only,
                success,
                is,
                (start, finish, started, finished, ground (arith, within), ground (arith, within)),
              ),
            )

  receipts-AreReceipts :
      (names : List (String × String)) (n : ℕ) {k : ℕ} {rs : List Receipt}
      → receipts client a jobs names n ≡ done rs k
      → AreReceipts client a jobs names rs
  unfolding receipts
  receipts-AreReceipts [] n h = done-fst (AreReceipts client a jobs []) h tt
  receipts-AreReceipts ((key, name) ∷ rest) n h =
      >>=-done (receipt client a jobs key name) _ h λ one j first h1.
        >>=-done (receipts client a jobs rest) _ h1 λ others _ later last.
          done-fst (AreReceipts client a jobs ((key, name) ∷ rest)) last
            (receipt-IsReceipt key name n first, receipts-AreReceipts rest j later)

is_unchanged-same :
    (a b : Started)
    → is_unchanged a b ≡ true
    → (b.id ≡ a.id) × (b.number ≡ a.number) × (b.started_at ≡ a.started_at)
unfolding is_unchanged
is_unchanged-same a b h = ground (arith, h)

-- The checks that are collected from the `n`-th to the `k`-th call.
abbrev pub AreCollected : Client → Value → ℕ → ℕ → Checks → Type 0
AreCollected client input n k r =
    (candidate_fields input ≡ some r.candidate)
    × ((a : Started) × (jobs : List Value) × (i : ℕ) × (j : ℕ) × (latest_attempt client r.candidate
            n
          ≡ done a i)
        × (read_jobs client r.candidate a i ≡ done jobs j)
        × (r.run_id ≡ a.id)
        × (r.attempt ≡ a.number)
        × All (IsJob r.candidate a) jobs
        × AreReceipts client a jobs job_names r.jobs
        × ((b : Started) × (m : ℕ) × (latest_attempt client r.candidate m ≡ done b k)
            × (b.id ≡ a.id)
            × (b.number ≡ a.number)
            × (b.started_at ≡ a.started_at)))

-- Collected checks are of the candidate in the input and of its latest attempt: each of the three jobs
-- is the only one of its name in the attempt, completed with success, and ran within the attempt; and
-- a second look, as the last calls, gives the same run, attempt and start.
pub collect_checks-AreCollected :
    (client : Client) (input : Value) (n : ℕ) {k : ℕ} {r : Checks}
    → collect_checks client input n ≡ done r k
    → AreCollected client input n k r
unfolding collect_checks
collect_checks-AreCollected client input n {k = k} {r = r} h =
    require_some-done _ _ _ h λ c read h1. >>=-done (latest_attempt client c) _ h1 λ a i latest h2.
      >>=-done (read_jobs client c a) _ h2 λ jobs j listed h3.
        >>=-done (receipts client a jobs job_names) _ h3 λ rs m found h4.
          >>=-done (latest_attempt client c) _ h4 λ b l again h5. require-done _ _ _ h5 λ same last.
            let stop : l ≡ k = cc in
            let kept = is_unchanged-same a b same in
            done-fst (AreCollected client input n k) last (
              read,
              (
                a,
                jobs,
                i,
                j,
                latest,
                listed,
                refl,
                refl,
                read_jobs-AreJobs client c a i listed,
                receipts-AreReceipts client a jobs job_names j found,
                (
                  b,
                  m,
                  subst (λ x. latest_attempt client c m ≡ done b x) stop again,
                  kept.0,
                  kept.1,
                  kept.2,
                ),
              ),
            )
