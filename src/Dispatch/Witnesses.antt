-- ===== src/Dispatch/Witnesses.antt =====
-- A dispatch of a recheck.
use billing_validation_contr.Common.{ℕ, Bool, false, true, refl, String, ◌≡◌}
use billing_validation_contr.Js.{Value, text, number, boolean, object, plain, Props, end, field}
use billing_validation_contr.Dispatch.Parse.{
  Parsed, accepted, rejected, Dispatch, parse_dispatch, assert_protected_default_ref,
  matches_control_repository, no_runner, source_run_of, source_attempt_of, parse_recheck,
  dispatch_input, operation_of, sha_of,
}
use billing_validation_contr.Dispatch.Accepted.{IsProtected, IsRequest, parse_dispatch-IsRequest}

-- To unfold this name is to open all that these calls run through.
unfoldable runs : ℕ
unfolding parse_dispatch assert_protected_default_ref matches_control_repository no_runner
    source_run_of source_attempt_of parse_recheck dispatch_input operation_of sha_of
runs = 0

abbrev entry : String → String → Props → Props
entry name value rest = field name true (text value) rest

abbrev context : Value
context = object plain (
    entry "ref" "refs/heads/main" (
      entry "defaultBranch" "main" (
        entry "repository" "lawx-ai/billing-validation-control" (
          field "repositoryId" true (number 1384018279)
            (field "refProtected" true (boolean true) end)))))

abbrev input : Value
input = object plain (
    entry "operation" "recheck" (
      entry "candidate_repository" "lawxcompany-stack/Plataforma-LawX" (
        entry "candidate_sha" "AAAAAAAAAAAAAAAAAAAAAAAAAAAAAAAAAAAAAAAA" (
          entry "source_run_id" "1234" (
            entry "source_run_attempt" "2"
              (entry "runner_label" "" (entry "supervisor_activation" "" end)))))))

abbrev run : Parsed Dispatch
run = parse_dispatch input context

abbrev is_accepted : Parsed Dispatch → Bool
is_accepted (accepted d) = true
is_accepted (rejected c) = false

abbrev dispatch_of : (r : Parsed Dispatch) → is_accepted r ≡ true → Dispatch
dispatch_of (accepted d) h = d
dispatch_of (rejected c) h = absurd cc

abbrev parsed : Dispatch
unfolding runs
parsed = dispatch_of run refl

parse_dispatch-IsRequest_example : IsProtected context × IsRequest input parsed
unfolding runs
parse_dispatch-IsRequest_example = parse_dispatch-IsRequest input context refl
