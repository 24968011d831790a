-- ===== src/Github/Runs.antt =====
-- `bound`, `listRuns` and `latestAttempt` of src/github/candidate-checks.mjs.
--
-- The API answers a path, and may answer it differently each time: an answer depends on how many calls
-- were made before. An answer is a parsed JSON value; `none` is a call that throws.
use billing_validation_contr.Common.{
  ℕ, zero, suc, Bool, true, false, ◌&&◌, ◌||◌, not, String, str_eq, List, [], ◌∷◌, ◌++◌, Option,
  none, some, leb, nat_eq, if◌then◌else◌, length, some_of,
}
use billing_validation_contr.Js.{
  Value, undefined, null, boolean, number, text, array, safe_count, elements,
}
use billing_validation_contr.Evidence.Shapes.{get, is_text, is_number}

pub data Code : Type 0 where
  api_unavailable run_list_invalid run_list_too_large run_not_found attempt_invalid : Code
  run_not_usable run_ambiguous job_list_invalid job_identity_invalid job_list_too_large : Code
  input_invalid job_missing job_ambiguous job_not_successful changed_during_read : Code

-- A call: a page of the runs of a candidate, an attempt of a run, a page of the jobs of an attempt.
pub data Endpoint : Type 0 where
  runs_page : String → ℕ → Endpoint
  run_attempt : ℕ → ℕ → Endpoint
  jobs_page : ℕ → ℕ → ℕ → Endpoint

-- The API, and `Date.parse` in milliseconds from the earliest date of JavaScript (`none` for NaN).
pub record Client : Type 0 where
  pub answer : ℕ → Endpoint → Option Value
  pub parse_date : String → Option ℕ

-- The argument is the number of calls so far.
pub data Reply {ℓ} (A : Type ℓ) : Type ℓ where
  done : A → ℕ → Reply A
  refused : Code → Reply A

abbrev pub Action {ℓ} : Type ℓ → Type ℓ
Action A = ℕ → Reply A

infixl 5 ◌>>=◌ ◌>>◌
abbrev pub ◌>>=◌ {ℓ κ} : {A : Type ℓ} {B : Type κ} → Action A → (A → Action B) → ℕ → Reply B
◌>>=◌ m f n = elim (m n) [ done a k ↦ f a k | refused c ↦ refused c ]

abbrev pub ◌>>◌ {ℓ} : {B : Type ℓ} → Action (Unit {0}) → Action B → Action B
m >> k = m >>= λ _. k

abbrev pub pure {ℓ} : {A : Type ℓ} → A → Action A
pure a n = done a n

unfoldable pub require : Bool → Code → Action (Unit {0})
require true c n = done tt n
require false c n = refused c

unfoldable pub require_some : {A : Type 0} → Option A → Code → Action A
require_some none c n = refused c
require_some (some a) c n = done a n

unfoldable pub call : Client → Endpoint → Action Value
call client path n = elim (client.answer n path) [
  | none ↦ refused api_unavailable
  | some v ↦ done v (suc n)
]

pub record Candidate : Type 0 where
  pub pull_number : ℕ
  pub candidate_sha : String
  pub base_sha : String
  pub tree_sha : String

abbrev pub repository : String
repository = "lawxcompany-stack/Plataforma-LawX"

abbrev pub repository_id : ℕ
repository_id = 1234079266

abbrev is_repository : Value → Bool
is_repository v = is_number repository_id (get "id" v) && is_text repository (get "full_name" v)

abbrev is_pull : Candidate → Value → Bool
is_pull c pull =
    is_number c.pull_number (get "number" pull)
    && is_text "preview" (get "ref" (get "base" pull))
    && is_text c.base_sha (get "sha" (get "base" pull))

abbrev some_pull : Candidate → Value → Bool
some_pull c (array pulls) = some_of (is_pull c) (elements pulls)
some_pull c _ = false

unfoldable pub is_bound : Candidate → Value → Bool
is_bound c run =
    is_number 290018021 (get "workflow_id" run)
    && is_text ".github/workflows/ci.yml" (get "path" run)
    && is_text "pull_request" (get "event" run)
    && is_text c.candidate_sha (get "head_sha" run)
    && is_repository (get "repository" run)
    && is_repository (get "head_repository" run)
    && some_pull c (get "pull_requests" run)

-- The elements of an array of at most a hundred.
unfoldable pub page_of : Value → Option (List Value)
page_of (array vs) = if leb (length (elements vs)) 100 then some (elements vs) else none
page_of _ = none

abbrev fits_total : Option ℕ → ℕ → Bool
fits_total none n = true
fits_total (some m) n = nat_eq m n

-- `total_count`, the same on every page.
unfoldable pub total_of : Option ℕ → Value → Option ℕ
total_of total response = same_total (safe_count 0 (get "total_count" response))
  where
    same_total : Option ℕ → Option ℕ
    same_total none = none
    same_total (some n) = if fits_total total n then some n else none

-- `id(run?.id)`.
abbrev pub id_of : Value → Option ℕ
id_of v = safe_count 1 (get "id" v)

-- What the loop keeps: the runs of the candidate, newest last, and the identifiers seen.
pub record Listing : Type 0 where
  pub runs : List Value
  pub seen : List ℕ

abbrev pub is_seen : List ℕ → ℕ → Bool
is_seen seen i = some_of (nat_eq i) seen

unfoldable pub add_run : Candidate → Listing → ℕ → Value → Listing
add_run c l i run = record {
  runs = if is_bound c run then l.runs ++ (run ∷ []) else l.runs;
  seen = i ∷ l.seen;
}

unfoldable pub add_runs : Candidate → Listing → List Value → Action Listing
add_runs c l [] = pure l
add_runs c l (run ∷ rest) = do
  i ← require_some (id_of run) run_list_invalid
  require (not (is_seen l.seen i)) run_list_invalid
  add_runs c (add_run c l i run) rest

-- Behind a page: all runs, or the next page, of `left` pages that are left.
unfoldable pub list_pages : Client → Candidate → ℕ → ℕ → Option ℕ → Listing → Action (List Value)
list_pages client c zero page total l = λ n. refused run_list_too_large
list_pages client c (suc left) page total l = do
  response ← call client (runs_page c.candidate_sha page)
  items ← require_some (page_of (get "workflow_runs" response)) run_list_invalid
  count ← require_some (total_of total response) run_list_invalid
  require (leb count 500) run_list_too_large
  next ← add_runs c l items
  require (leb (length next.runs) 50) run_list_too_large
  require (leb (length next.seen) count) run_list_invalid
  elim (nat_eq (length next.seen) count) [
    | true ↦ pure next.runs
    | false ↦
        require (nat_eq (length items) 100) run_list_invalid
        >> list_pages client c left (suc page) (some count) next
  ]

unfoldable pub list_runs : Client → Candidate → Action (List Value)
list_runs client c = list_pages client c 5 1 none (record { runs = []; seen = [] })

-- An attempt with its start.
pub record Started : Type 0 where
  pub attempt : Value
  pub id : ℕ
  pub number : ℕ
  pub started_at : ℕ

abbrev pub date_of : Client → Value → Option ℕ
date_of client (text s) = client.parse_date s
date_of client _ = none

-- `a === b` of two parsed answers: objects and arrays of different answers differ.
abbrev is_same : Value → Value → Bool
is_same (text s) (text t) = str_eq s t
is_same null null = true
is_same undefined undefined = true
is_same (number m) (number n) = nat_eq m n
is_same (boolean true) (boolean q) = q
is_same (boolean false) (boolean q) = not q
is_same _ _ = false

unfoldable pub is_attempt_of : Candidate → ℕ → ℕ → Value → Value → Bool
is_attempt_of c id attempt_number run attempt =
    is_bound c attempt
    && is_number id (get "id" attempt)
    && is_number attempt_number (get "run_attempt" attempt)
    && is_same (get "status" attempt) (get "status" run)
    && is_same (get "conclusion" attempt) (get "conclusion" run)

unfoldable pub read_attempt : Client → Candidate → Value → Action Started
read_attempt client c run = do
  id ← require_some (id_of run) attempt_invalid
  attempt_number ← require_some (safe_count 1 (get "run_attempt" run)) attempt_invalid
  require (leb attempt_number 20) attempt_invalid
  require (is_text "completed" (get "status" run) || is_text "in_progress" (get "status" run))
      run_not_usable
  attempt ← call client (run_attempt id attempt_number)
  require (is_attempt_of c id attempt_number run attempt) attempt_invalid
  start ← require_some (date_of client (get "run_started_at" attempt)) attempt_invalid
  pure (record { attempt = attempt; id = id; number = attempt_number; started_at = start })

unfoldable pub read_attempts : Client → Candidate → List Value → Action (List Started)
read_attempts client c [] = pure []
read_attempts client c (run ∷ runs) = do
  one ← read_attempt client c run
  others ← read_attempts client c runs
  pure (one ∷ others)

-- `attempts.sort((a, b) => b.startedAt - a.startedAt)`, latest first and stable.
unfoldable pub insert : Started → List Started → List Started
insert a [] = a ∷ []
insert a (b ∷ bs) = if leb b.started_at a.started_at then a ∷ b ∷ bs else b ∷ insert a bs

unfoldable pub sort : List Started → List Started
sort [] = []
sort (a ∷ rest) = insert a (sort rest)

abbrev is_null : Value → Bool
is_null null = true
is_null _ = false

unfoldable pub is_usable : Value → Bool
is_usable attempt =
    (is_text "in_progress" (get "status" attempt) && is_null (get "conclusion" attempt))
    || (is_text "completed" (get "status" attempt)
        && (is_text "success" (get "conclusion" attempt)
            || is_text "failure" (get "conclusion" attempt)))

unfoldable pub first_of : List Started → Action Started
first_of [] = λ n. refused run_not_found
first_of (a ∷ []) = pure a
first_of (a ∷ b ∷ rest) = require (not (nat_eq a.started_at b.started_at)) run_ambiguous >> pure a

abbrev is_none_left : List Value → Bool
is_none_left [] = true
is_none_left (v ∷ vs) = false

unfoldable pub latest_attempt : Client → Candidate → Action Started
latest_attempt client c = do
  runs ← list_runs client c
  require (not (is_none_left runs)) run_not_found
  attempts ← read_attempts client c runs
  selected ← first_of (sort attempts)
  require (is_usable selected.attempt) run_not_usable
  pure selected
