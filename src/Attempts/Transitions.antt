-- ===== src/Attempts/Transitions.antt =====
-- What `transition` allows.
use billing_validation_contr.Common.{
  String, List, [], ◌∷◌, Option, none, some, true, ◌&&◌, ◌≡◌, ◌≢◌, ◌↔◌, arith, refl, ap, subst, sym,
  ◌∙◌, &&-true, update_where, str_eq, eq_iff, find-true, suc,
}
use billing_validation_contr.Attempts.Data.{
  AttemptState, collecting, collected, rechecking, complete, Attempt, Artifact,
}
use billing_validation_contr.Attempts.Same.{same_state, same_state_iff}
use billing_validation_contr.Attempts.Session.{Session, Host, done, pure}
use billing_validation_contr.Attempts.Runs.{transaction-then, >>=-then, require-then, done-eq}
use billing_validation_contr.Attempts.Postgres.{
  now, put_attempt, find_attempt, set_attempts, updated_row,
}
use billing_validation_contr.Attempts.Ownership.{fenced_attempt-done}
use billing_validation_contr.Attempts.Store.Owner.{fenced_attempt}
use billing_validation_contr.Attempts.Store.Fenced.{
  is_transition, moved_row, valid_change, transition,
}

-- The states that are not terminal.
pub data IsLive : AttemptState → Type 0 where
  collecting_IsLive : IsLive collecting
  collected_IsLive : IsLive collected
  rechecking_IsLive : IsLive rechecking

-- The edges of the state machine.
pub data Step : AttemptState → AttemptState → Type 0 where
  collects : Step collecting collected
  completes : Step rechecking complete
  cancels : {a : AttemptState} → IsLive a → Step a AttemptState.cancelled
  times_out : {a : AttemptState} → IsLive a → Step a AttemptState.timed_out

is_transition-Step : (a b : AttemptState) → is_transition a b ≡ true → Step a b
unfolding is_transition
is_transition-Step collecting collected h = collects
is_transition-Step collecting AttemptState.cancelled h = cancels collecting_IsLive
is_transition-Step collecting AttemptState.timed_out h = times_out collecting_IsLive
is_transition-Step collected AttemptState.cancelled h = cancels collected_IsLive
is_transition-Step collected AttemptState.timed_out h = times_out collected_IsLive
is_transition-Step rechecking complete h = completes
is_transition-Step rechecking AttemptState.cancelled h = cancels rechecking_IsLive
is_transition-Step rechecking AttemptState.timed_out h = times_out rechecking_IsLive
is_transition-Step _ _ h = cc

Step-is_transition : {a b : AttemptState} → Step a b → is_transition a b ≡ true
unfolding is_transition
Step-is_transition collects = refl
Step-is_transition completes = refl
Step-is_transition (cancels collecting_IsLive) = refl
Step-is_transition (cancels collected_IsLive) = refl
Step-is_transition (cancels rechecking_IsLive) = refl
Step-is_transition (times_out collecting_IsLive) = refl
Step-is_transition (times_out collected_IsLive) = refl
Step-is_transition (times_out rechecking_IsLive) = refl

-- The table of transitions allows exactly these: collecting to collected, rechecking to complete,
-- and each state that is not terminal to cancelled and to timed out.
pub is_transition-Step_iff : (a b : AttemptState) → (is_transition a b ≡ true) ↔ Step a b
is_transition-Step_iff a b = (is_transition-Step a b, Step-is_transition)

-- An update of the row that has an id is what a search for the id finds then.
find-update_where :
    (id : String) (f : Attempt → Attempt) (rows : List Attempt) {old : Attempt}
    → ((r : Attempt) → (f r).attempt_id ≡ r.attempt_id)
    → find_attempt id rows ≡ some old
    → find_attempt id (update_where (λ r. str_eq r.attempt_id id) f rows) ≡ some (f old)
find-update_where id f [] keeps h = cc
find-update_where id f (r ∷ rs) {old} keeps h =
    ground (arith, keeps r, find-update_where id f rs {old = old} keeps)

pub find_attempt-id :
    (id : String) (rows : List Attempt) (a : Attempt)
    → find_attempt id rows ≡ some a
    → a.attempt_id ≡ id
find_attempt-id id rows a h =
    (eq_iff a.attempt_id id).0 (find-true (λ r. str_eq r.attempt_id id) rows h)

-- What `putAttempt` makes of a row that is there.
pub put_attempt-done :
    (row : Attempt) (s : Session) {old : Attempt} {x : Unit {0}} {t : Session}
    → find_attempt row.attempt_id s.attempts ≡ some old
    → put_attempt row s ≡ done x t
    → (find_attempt row.attempt_id t.attempts ≡ some (updated_row row old))
      × (t ≡ set_attempts t.attempts s)
unfolding put_attempt
put_attempt-done row s {old} found h =
    let after =
      find-update_where row.attempt_id (updated_row row) s.attempts {old = old} (λ r. refl) found in
    (ground (arith, found, after), ground (arith, found))

-- A stored row moves along an edge.
pub record Moved (attempt_id : String) (from to : AttemptState) (s t : Session) : Type 0 where
  pub before : Attempt
  pub after : Attempt
  pub stored : find_attempt attempt_id s.attempts ≡ some before
  pub changed : find_attempt attempt_id t.attempts ≡ some after
  pub start : before.state ≡ from
  pub end : after.state ≡ to
  pub step : Step from to

-- A `transition` that returns moves the stored row of the attempt from the state that the caller
-- names to the one asked for, along an edge; the row that it returns is in that state, and one that
-- is collected got an artifact.
pub transition-Moved :
    (host : Host) (attempt_id fence : String) (from to : AttemptState) (artifact : Option Artifact)
    (resource_ids : Option (List String)) (s : Session) {row : Attempt} {t : Session}
    → transition host attempt_id fence from to artifact resource_ids s ≡ done row t
    → Moved attempt_id from to s t × (row.state ≡ to) × (to ≡ collected → artifact ≢ none)
unfolding transition now same_state
transition-Moved host attempt_id fence from to artifact resource_ids s h =
    transaction-then _ s h λ u run q.
      >>=-then (fenced_attempt host attempt_id fence) _ s run λ f s1 e1 h1.
        require-then (same_state f.row.state from && is_transition from to) _ _ s1 h1 λ moves h2.
          require-then (valid_change to artifact resource_ids) _ _ s1 h2 λ valid h3.
            let row' = moved_row to (host.clock s1.ticks) artifact resource_ids f.row in
            >>=-then (put_attempt row') (λ _. pure row') (record s1 { ticks = suc s1.ticks }) h3
              λ x s2 e2 h4.
                let (w, same, _, _, _) = fenced_attempt-done host attempt_id fence s e1 in
                let id : f.row.attempt_id ≡ attempt_id =
                  ap (λ r. r.attempt_id) w.row
                  ∙ find_attempt-id attempt_id s.attempts w.stored w.found in
                let found =
                  subst (λ ts. find_attempt attempt_id ts ≡ some w.stored)
                    (ap (λ ts. ts.attempts) (sym same)) w.found in
                let (after, _) =
                  put_attempt-done row' (record s1 { ticks = suc s1.ticks })
                    (subst (λ i. find_attempt i s1.attempts ≡ some w.stored) (sym id) found) e2 in
                let (result, last) = done-eq h4 in
                let tables = ap (λ x. x.tables.attempts) q ∙ ap (λ x. x.tables.attempts) last in
                (
                  record {
                    before = w.stored;
                    after = updated_row row' w.stored;
                    stored = w.found;
                    changed =
                        subst
                          (λ rows. find_attempt attempt_id rows ≡ some (updated_row row' w.stored))
                          (sym tables)
                          (subst
                            (λ i. find_attempt i s2.attempts ≡ some (updated_row row' w.stored)) id
                            after);
                    start =
                        sym (ap (λ r. r.state) w.row)
                        ∙ (same_state_iff f.row.state from).0
                            ((&&-true (same_state f.row.state from) _ moves).0);
                    end = refl;
                    step =
                        is_transition-Step from to
                          ((&&-true (same_state f.row.state from) _ moves).1);
                  },
                  sym (ap (λ r. r.state) result),
                  λ e absent. ground (arith, valid, e, absent),
                )
