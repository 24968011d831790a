-- ===== src/Github/Fixtures.antt =====
-- A candidate with one run of three jobs, as the API answers it.
use billing_validation_contr.Common.{ℕ, Bool, true, false, String, some, ◌≡◌}
use billing_validation_contr.Js.{
  Value, text, number, array, object, nil, cons, Props, plain, end, field,
}
use billing_validation_contr.Github.Runs.{
  Client, Endpoint, runs_page, run_attempt, jobs_page, Candidate, Reply, done, refused,
}

abbrev tag : String → String → Props → Props
tag name value rest = field name true (text value) rest

abbrev tally : String → ℕ → Props → Props
tally name value rest = field name true (number value) rest

abbrev sha : String
sha = "aaaaaaaaaaaaaaaaaaaaaaaaaaaaaaaaaaaaaaaa"

abbrev repository : Value
repository =
    object plain (tally "id" 1234079266 (tag "full_name" "lawxcompany-stack/Plataforma-LawX" end))

abbrev pull : Value
pull = object plain (
    tally "number" 7
      (field "base" true (object plain (tag "ref" "preview" (tag "sha" sha end))) end))

abbrev run : Value
run = object plain (
    tally "id" 11 (
      tally "workflow_id" 290018021 (
        tag "path" ".github/workflows/ci.yml" (
          tag "event" "pull_request" (
            tag "head_sha" sha (
              field "repository" true repository (
                field "head_repository" true repository (
                  field "pull_requests" true (array (cons pull nil)) (
                    tally "run_attempt" 1 (
                      tag "status" "completed"
                        (tag "conclusion" "success" (tag "run_started_at" "start" end))))))))))))

abbrev job : ℕ → String → Value
job id name = object plain (
    tally "id" id (
      tally "run_id" 11 (
        tally "run_attempt" 1 (
          tag "head_sha" sha (
            tag "name" name (
              tag "status" "completed" (
                tag "conclusion" "success"
                  (tag "started_at" "start" (tag "completed_at" "end" end)))))))))

abbrev three_jobs : Value
three_jobs = array (
    cons (job 1 "Qualidade (ESLint + TypeScript)") (
      cons (job 2 "Regressão (unitários, integração e cobertura crítica)")
        (cons (job 3 "Build de produção") nil)))

abbrev answer_of : Endpoint → Value
answer_of (runs_page head page) =
    object plain (tally "total_count" 1 (field "workflow_runs" true (array (cons run nil)) end))
answer_of (run_attempt id n) = run
answer_of (jobs_page id n page) =
    object plain (tally "total_count" 3 (field "jobs" true three_jobs end))

abbrev pub client : Client
client = record { answer = λ n path. some (answer_of path); parse_date = λ s. some 10 }

abbrev pub input : Value
input = object plain (
    tag "repository" "lawxcompany-stack/Plataforma-LawX" (
      tally "repositoryId" 1234079266 (
        tally "pullNumber" 7 (tag "candidateSha" sha (tag "baseSha" sha (tag "treeSha" sha end))))))

abbrev pub candidate : Candidate
candidate = record { pull_number = 7; candidate_sha = sha; base_sha = sha; tree_sha = sha }

abbrev pub is_done : {A : Type 0} → Reply A → Bool
is_done (done a k) = true
is_done (refused c) = false

abbrev pub value_of : {A : Type 0} (r : Reply A) → is_done r ≡ true → A
value_of (done a k) h = a
value_of (refused c) h = absurd cc

abbrev pub calls_of : {A : Type 0} (r : Reply A) → is_done r ≡ true → ℕ
calls_of (done a k) h = k
calls_of (refused c) h = absurd cc
