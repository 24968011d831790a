-- ===== src/Github/Checks.antt =====
-- `readJobs`, `snapshotFields` and `collectCandidateChecks` of src/github/candidate-checks.mjs.
use billing_validation_contr.Common.{
  ℕ, zero, suc, Bool, true, false, ◌&&◌, not, String, List, [], ◌∷◌, ◌++◌, Option, none, some, leb,
  nat_eq, if◌then◌else◌, length,
}
use billing_validation_contr.Js.{Value, text, object, is_hex_run, safe_count, is_plain, data_value}
use billing_validation_contr.Evidence.Shapes.{get, is_text, is_number}
use billing_validation_contr.Github.Runs.{
  Client, Candidate, Started, Action, ◌>>=◌, ◌>>◌, pure, refused, input_invalid,
  changed_during_read, job_missing, job_ambiguous, job_not_successful, job_identity_invalid,
  job_list_invalid, job_list_too_large, require, require_some, call, jobs_page, page_of, total_of,
  id_of, is_seen, date_of, repository, repository_id, latest_attempt,
}

-- What the loop keeps: the jobs and their identifiers.
pub record JobList : Type 0 where
  pub jobs : List Value
  pub seen : List ℕ

unfoldable pub is_job_of : Candidate → Started → Value → Bool
is_job_of c a job =
    is_number a.id (get "run_id" job)
    && is_number a.number (get "run_attempt" job)
    && is_text c.candidate_sha (get "head_sha" job)

unfoldable pub add_jobs : Candidate → Started → JobList → List Value → Action JobList
add_jobs c a l [] = pure l
add_jobs c a l (job ∷ rest) = do
  i ← require_some (id_of job) job_identity_invalid
  require (not (is_seen l.seen i) && is_job_of c a job) job_identity_invalid
  add_jobs c a (record { jobs = l.jobs ++ (job ∷ []); seen = i ∷ l.seen }) rest

-- Behind a page: all jobs, or the next page, of `left` pages that are left.
unfoldable pub job_pages :
    Client → Candidate → Started → ℕ → ℕ → Option ℕ → JobList → Action (List Value)
job_pages client c a zero page total l = λ n. refused job_list_too_large
job_pages client c a (suc left) page total l = do
  response ← call client (jobs_page a.id a.number page)
  items ← require_some (page_of (get "jobs" response)) job_list_invalid
  count ← require_some (total_of total response) job_list_invalid
  next ← add_jobs c a l items
  elim (nat_eq (length items) 100) [
    | true ↦ job_pages client c a left (suc page) (some count) next
    | false ↦ require (nat_eq (length next.jobs) count) job_list_invalid >> pure next.jobs
  ]

unfoldable pub read_jobs : Client → Candidate → Started → Action (List Value)
read_jobs client c a = job_pages client c a 5 1 none (record { jobs = []; seen = [] })

-- `job_id` is the number of which the receipt has the decimal text.
pub record Receipt : Type 0 where
  pub key : String
  pub job_id : ℕ

unfoldable pub named : String → List Value → List Value
named name [] = []
named name (job ∷ rest) =
    if is_text name (get "name" job) then job ∷ named name rest else named name rest

unfoldable pub only_job : List Value → Action Value
only_job [] = λ n. refused job_missing
only_job (job ∷ []) = pure job
only_job (job ∷ other ∷ rest) = λ n. refused job_ambiguous

unfoldable pub is_successful : Value → Bool
is_successful job =
    is_text "completed" (get "status" job) && is_text "success" (get "conclusion" job)

unfoldable pub receipt : Client → Started → List Value → String → String → Action Receipt
receipt client a jobs key name = do
  job ← only_job (named name jobs)
  require (is_successful job) job_not_successful
  start ← require_some (date_of client (get "started_at" job)) job_identity_invalid
  finish ← require_some (date_of client (get "completed_at" job)) job_identity_invalid
  require (leb a.started_at start && leb start finish) job_identity_invalid
  i ← require_some (id_of job) job_identity_invalid
  pure (record { key = key; job_id = i })

-- `JOBS`: keys and names.
abbrev pub job_names : List (String × String)
job_names =
    ("quality", "Qualidade (ESLint + TypeScript)")
    ∷ ("regression", "Regressão (unitários, integração e cobertura crítica)")
    ∷ ("build", "Build de produção")
    ∷ []

unfoldable pub receipts :
    Client → Started → List Value → List (String × String) → Action (List Receipt)
receipts client a jobs [] = pure []
receipts client a jobs ((key, name) ∷ rest) = do
  one ← receipt client a jobs key name
  others ← receipts client a jobs rest
  pure (one ∷ others)

pub record Checks : Type 0 where
  pub candidate : Candidate
  pub run_id : ℕ
  pub attempt : ℕ
  pub jobs : List Receipt

abbrev sha_of : Option Value → Option String
sha_of (some (text s)) = if is_hex_run 40 s then some s else none
sha_of _ = none

abbrev is_ours : Option Value → Option Value → Bool
is_ours (some name) (some id) = is_text repository name && is_number repository_id id
is_ours _ _ = false

abbrev pull_of : Option Value → Option ℕ
pull_of none = none
pull_of (some v) = safe_count 1 v

-- The candidate of the input: own data properties of a plain object, others may stand beside them.
unfoldable pub candidate_fields : Value → Option Candidate
candidate_fields (object proto ps) =
    if is_plain proto && is_ours (data_value "repository" ps) (data_value "repositoryId" ps)
    then with_shas (pull_of (data_value "pullNumber" ps)) (sha_of (data_value "candidateSha" ps))
        (sha_of (data_value "baseSha" ps)) (sha_of (data_value "treeSha" ps))
    else none
  where
    with_shas : Option ℕ → Option String → Option String → Option String → Option Candidate
    with_shas (some p) (some s) (some b) (some t) =
        some (record { pull_number = p; candidate_sha = s; base_sha = b; tree_sha = t })
    with_shas _ _ _ _ = none
candidate_fields _ = none

unfoldable pub is_unchanged : Started → Started → Bool
is_unchanged a b = nat_eq b.id a.id && nat_eq b.number a.number && nat_eq b.started_at a.started_at

unfoldable pub collect_checks : Client → Value → Action Checks
collect_checks client input = do
  c ← require_some (candidate_fields input) input_invalid
  attempt ← latest_attempt client c
  jobs ← read_jobs client c attempt
  found ← receipts client attempt jobs job_names
  current ← latest_attempt client c
  require (is_unchanged attempt current) changed_during_read
  pure (record { candidate = c; run_id = attempt.id; attempt = attempt.number; jobs = found })
