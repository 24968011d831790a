-- ===== src/Dispatch/Accepted.antt =====
-- What `parseDispatch` accepts, property by property of its two arguments.
use billing_validation_contr.Common.{
  ℕ, Bool, true, false, not, &&-true, String, eq_iff, List, map, none, some, ◌≡◌, ◌⊎◌, inl, inr,
  refl, ap, sym, subst, ◌∙◌, arith, every, some_of, includes, run_of, is_hex, codes, to_lower,
  nat_eq_iff,
}
use billing_validation_contr.Js.{
  Value, text, number, boolean, object, undefined, Prototype, Props, get_property, own_keys,
  enumerable_keys,
}
use billing_validation_contr.Dispatch.Parse.{
  Refusal, Parsed, accepted, rejected, ◌>>=◌, ◌>>◌, require, is_text, is_true, text_that, record_of,
  matches_control_repository, assert_protected_default_ref, Dispatch, Operation, collect, recheck,
  input_keys, is_candidate_ref, parse_operation, full_sha, is_positive_decimal, decimal,
  is_commitment, is_label, no_source_run, commitment_of, label_of, parse_collect, no_runner,
  source_run_of, source_attempt_of, parse_recheck, parse_by, dispatch_input, operation_of, sha_of,
  parse_dispatch,
}

-- The run is on the protected default branch of the control repository.
pub record IsProtected (context : Value) : Type 0 where
  pub proto : Prototype
  pub fields : Props
  pub is_object : context ≡ object proto fields
  pub repository : get_property "repository" fields ≡ text "lawx-ai/billing-validation-control"
  pub repository_id :
      (get_property "repositoryId" fields ≡ text "1384018279")
      ⊎ (get_property "repositoryId" fields ≡ number 1384018279)
  pub default_branch : get_property "defaultBranch" fields ≡ text "main"
  pub ref : get_property "ref" fields ≡ text "refs/heads/main"
  pub ref_protected : get_property "refProtected" fields ≡ boolean true

-- What a collection and a recheck name, and what they leave empty.
pub record Collects (ps : Props) (d : Dispatch) : Type 0 where
  pub asked : get_property "operation" ps ≡ text "collect"
  pub operation : d.operation ≡ collect
  pub no_run : get_property "source_run_id" ps ≡ text ""
  pub no_attempt : get_property "source_run_attempt" ps ≡ text ""
  pub label : String
  pub given_label : get_property "runner_label" ps ≡ text label
  pub valid_label : is_label label ≡ true
  pub commitment : String
  pub given_commitment : get_property "supervisor_activation" ps ≡ text commitment
  pub valid_commitment : is_commitment commitment ≡ true
  pub runner_label : d.runner_label ≡ some label
  pub activation_commitment : d.activation_commitment ≡ some commitment
  pub source : (d.source_run_id ≡ none) × (d.source_run_attempt ≡ none)

pub record Rechecks (ps : Props) (d : Dispatch) : Type 0 where
  pub asked : get_property "operation" ps ≡ text "recheck"
  pub operation : d.operation ≡ recheck
  pub no_commitment : get_property "supervisor_activation" ps ≡ text ""
  pub no_label : get_property "runner_label" ps ≡ text ""
  pub run : String
  pub given_run : get_property "source_run_id" ps ≡ text run
  pub valid_run : is_positive_decimal 19 run ≡ true
  pub attempt : String
  pub given_attempt : get_property "source_run_attempt" ps ≡ text attempt
  pub valid_attempt : is_positive_decimal 8 attempt ≡ true
  pub source_run_id : d.source_run_id ≡ some run
  pub source_run_attempt : d.source_run_attempt ≡ some (decimal 0 (codes attempt))
  pub runner : (d.runner_label ≡ none) × (d.activation_commitment ≡ none)

pub record IsRequest (input : Value) (d : Dispatch) : Type 0 where
  pub proto : Prototype
  pub fields : Props
  pub is_object : input ≡ object proto fields
  pub no_ref : some_of is_candidate_ref (own_keys fields) ≡ false
  pub known : every (includes input_keys) (enumerable_keys fields) ≡ true
  pub repository :
      get_property "candidate_repository" fields ≡ text "lawxcompany-stack/Plataforma-LawX"
  pub sha : String
  pub given_sha : get_property "candidate_sha" fields ≡ text sha
  pub candidate_sha : d.candidate_sha ≡ map to_lower (codes sha)
  pub valid_sha : run_of is_hex 40 40 d.candidate_sha ≡ true
  pub asks : Collects fields d ⊎ Rechecks fields d

>>=-then :
    {A B Q : Type 0} (m : Parsed A) (f : A → Parsed B) {b : B}
    → (m >>= f) ≡ accepted b
    → ((a : A) → m ≡ accepted a → f a ≡ accepted b → Q)
    → Q
>>=-then (accepted a) f h k = k a refl h
>>=-then (rejected c) f h k = cc

require-then :
    {B Q : Type 0} (test : Bool) (c : Refusal) (rest : Parsed B) {b : B}
    → (require test c >> rest) ≡ accepted b
    → (test ≡ true → rest ≡ accepted b → Q)
    → Q
require-then true c rest h k = k refl h
require-then false c rest h k = cc

require-true : (test : Bool) (c : Refusal) → require test c ≡ accepted tt → test ≡ true
require-true true c h = refl
require-true false c h = cc

is_text-text : (s : String) (v : Value) → is_text s v ≡ true → v ≡ text s
is_text-text s (text t) h = ap text ((eq_iff t s).0 h)
is_text-text s _ h = cc

is_true-boolean : (v : Value) → is_true v ≡ true → v ≡ boolean true
is_true-boolean (boolean b) h = ap boolean h
is_true-boolean _ h = cc

text_that-text :
    (p : String → Bool) (c : Refusal) (v : Value) {s : String}
    → text_that p c v ≡ accepted s
    → (v ≡ text s) × (p s ≡ true)
text_that-text p c (text t) h = ground arith
text_that-text p c _ h = cc

record_of-object :
    (c : Refusal) (v : Value) {ps : Props}
    → record_of c v ≡ accepted ps
    → (proto : Prototype) × (v ≡ object proto ps)
record_of-object c (object proto qs) h = (proto, cc)
record_of-object c _ h = cc

matches_control_repository-both :
    (repository id : Value)
    → matches_control_repository repository id ≡ true
    → (repository ≡ text "lawx-ai/billing-validation-control")
      × ((id ≡ text "1384018279") ⊎ (id ≡ number 1384018279))
unfolding matches_control_repository
matches_control_repository-both repository (text t) h =
    let (p, q) = &&-true _ _ h in
    (is_text-text _ repository p, inl (ap text ((eq_iff t "1384018279").0 q)))
matches_control_repository-both repository (number n) h =
    let (p, q) = &&-true _ _ h in
    (is_text-text _ repository p, inr (ap number ((nat_eq_iff n 1384018279).0 q)))
matches_control_repository-both repository _ h = cc

default_branch-IsProtected :
    (context : Value) → assert_protected_default_ref context ≡ accepted tt → IsProtected context
unfolding assert_protected_default_ref
default_branch-IsProtected undefined h = require-then _ _ _ h λ control _.
    let (never, _) = matches_control_repository-both undefined undefined control in absurd cc
default_branch-IsProtected (object proto ps) h = require-then _ _ _ h λ control h1.
    require-then _ _ _ h1 λ branch last.
      let (on_ref, protected) = &&-true _ _ (require-true _ _ last) in
      let (repository, id) = matches_control_repository-both _ _ control in
      record {
        proto = proto;
        fields = ps;
        is_object = refl;
        repository = repository;
        repository_id = id;
        default_branch = is_text-text _ _ branch;
        ref = is_text-text _ _ on_ref;
        ref_protected = is_true-boolean _ protected;
      }
default_branch-IsProtected _ h = absurd cc

parse_operation-text :
    (v : Value) {o : Operation}
    → parse_operation v ≡ accepted o
    → ((v ≡ text "collect") × (o ≡ collect)) ⊎ ((v ≡ text "recheck") × (o ≡ recheck))
parse_operation-text (text s) h = ground (arith, h, eq_iff s "collect", eq_iff s "recheck")
parse_operation-text _ h = cc

full_sha-text :
    (v : Value) {sha : List ℕ}
    → full_sha v ≡ accepted sha
    → (s : String) × (v ≡ text s)
      × (sha ≡ map to_lower (codes s))
      × (run_of is_hex 40 40 sha ≡ true)
full_sha-text (text s) h = (s, refl, ground (arith, h), ground (arith, h))
full_sha-text _ h = cc

parse_collect-Collects :
    (sha : List ℕ) (ps : Props) {d : Dispatch}
    → get_property "operation" ps ≡ text "collect"
    → parse_collect sha ps ≡ accepted d
    → Collects ps d × (d.candidate_sha ≡ sha)
unfolding parse_collect no_source_run commitment_of label_of
parse_collect-Collects sha ps {d} asked h = require-then _ _ _ h λ empty h1.
    >>=-then (commitment_of ps) _ h1 λ commitment e1 h2.
      >>=-then (label_of ps) _ h2 λ label e2 last.
        >>=-then (text_that _ _ (get_property "supervisor_activation" ps)) _ e1 λ given e3 e4.
          let (no_run, no_attempt) = &&-true _ _ empty in
          let (is_given, _) = text_that-text _ _ _ e3 in
          let (same, valid) = text_that-text is_commitment _ (text given) e4 in
          let (is_label, fits) = text_that-text _ _ _ e2 in
          (
            record {
              asked = asked;
              operation = ground (arith, last);
              no_run = is_text-text _ _ no_run;
              no_attempt = is_text-text _ _ no_attempt;
              label = label;
              given_label = is_label;
              valid_label = fits;
              commitment = commitment;
              given_commitment = is_given ∙ same;
              valid_commitment = valid;
              runner_label = ground (arith, last);
              activation_commitment = ground (arith, last);
              source = (ground (arith, last), ground (arith, last));
            },
            ground (arith, last),
          )

parse_recheck-Rechecks :
    (sha : List ℕ) (ps : Props) {d : Dispatch}
    → get_property "operation" ps ≡ text "recheck"
    → parse_recheck sha ps ≡ accepted d
    → Rechecks ps d × (d.candidate_sha ≡ sha)
unfolding parse_recheck no_runner source_run_of source_attempt_of
parse_recheck-Rechecks sha ps {d} asked h = >>=-then (no_runner ps) _ h λ _ e0 h1.
    >>=-then (source_run_of ps) _ h1 λ run e1 h2.
      >>=-then (source_attempt_of ps) _ h2 λ attempt e2 last. require-then _ _ _ e0 λ p e3.
        let (is_run, valid) = text_that-text _ _ _ e1 in
        let (is_attempt, fits) = text_that-text _ _ _ e2 in
        (
          record {
            asked = asked;
            operation = ground (arith, last);
            no_commitment = is_text-text _ _ p;
            no_label = is_text-text _ _ (require-true _ _ e3);
            run = run;
            given_run = is_run;
            valid_run = valid;
            attempt = attempt;
            given_attempt = is_attempt;
            valid_attempt = fits;
            source_run_id = ground (arith, last);
            source_run_attempt = ground (arith, last);
            runner = (ground (arith, last), ground (arith, last));
          },
          ground (arith, last),
        )

parse_by-asks :
    (o : Operation) (sha : List ℕ) (ps : Props) {d : Dispatch}
    → ((get_property "operation" ps ≡ text "collect") × (o ≡ collect))
      ⊎ ((get_property "operation" ps ≡ text "recheck") × (o ≡ recheck))
    → parse_by o sha ps ≡ accepted d
    → (Collects ps d ⊎ Rechecks ps d) × (d.candidate_sha ≡ sha)
parse_by-asks o sha ps {d = d} (inl (asked, same)) h =
    let (is, sha_is) =
      parse_collect-Collects sha ps asked (subst (λ x. parse_by x sha ps ≡ accepted d) same h) in
    (inl is, sha_is)
parse_by-asks o sha ps {d = d} (inr (asked, same)) h =
    let (is, sha_is) =
      parse_recheck-Rechecks sha ps asked (subst (λ x. parse_by x sha ps ≡ accepted d) same h) in
    (inr is, sha_is)

abbrev IsInput : Props → Type 0
IsInput ps =
    (some_of is_candidate_ref (own_keys ps) ≡ false)
    × (every (includes input_keys) (enumerable_keys ps) ≡ true)

dispatch_input-IsInput :
    (input : Value) {ps : Props}
    → dispatch_input input ≡ accepted ps
    → (proto : Prototype) × (input ≡ object proto ps) × IsInput ps
unfolding dispatch_input
dispatch_input-IsInput input {ps = ps} h = >>=-then (record_of _ input) _ h λ qs e h1.
    require-then (not (some_of is_candidate_ref (own_keys qs))) _ _ h1 λ no_ref h2.
      require-then _ _ (accepted qs) h2 λ known last.
        let same : qs ≡ ps = cc in
        let (proto, is) = record_of-object _ input e in
        (proto, is ∙ ap (object proto) same, subst IsInput same (ground (arith, no_ref), known))

operation_of-named :
    (ps : Props) {o : Operation}
    → operation_of ps ≡ accepted o
    → (get_property "candidate_repository" ps ≡ text "lawxcompany-stack/Plataforma-LawX")
      × (parse_operation (get_property "operation" ps) ≡ accepted o)
unfolding operation_of
operation_of-named ps h =
    >>=-then (parse_operation (get_property "operation" ps)) _ h
      λ o e h1. require-then _ _ _ h1 λ repository last. (is_text-text _ _ repository, e ∙ last)

-- A dispatch that `parseDispatch` accepts was sent from the protected default branch `main` of the
-- control repository. Its input has no key but the seven that are known, names the candidate's
-- repository, a SHA of forty hexadecimal digits, which is given back in lower case, and one of two
-- operations: a collection with a runner label and a commitment, whose source run and attempt are
-- empty, or a recheck with a source run and attempt, whose label and commitment are empty. What is
-- given back is what the input names, and nothing of what it leaves empty.
pub parse_dispatch-IsRequest :
    (input context : Value) {d : Dispatch}
    → parse_dispatch input context ≡ accepted d
    → IsProtected context × IsRequest input d
unfolding parse_dispatch sha_of
parse_dispatch-IsRequest input context {d} h =
    >>=-then (assert_protected_default_ref context) _ h λ _ e1 h1.
      >>=-then (dispatch_input input) _ h1 λ ps e2 h2.
        >>=-then (operation_of ps) _ h2 λ operation e3 h3. >>=-then (sha_of ps) _ h3 λ sha e4 h4.
          let (proto, is, keys) = dispatch_input-IsInput input e2 in
          let (repository, named) = operation_of-named ps e3 in
          let (s, given, is_sha, valid) = full_sha-text _ e4 in
          let (asks, same) = parse_by-asks operation sha ps (parse_operation-text _ named) h4 in
          (
            default_branch-IsProtected context e1,
            record {
              proto = proto;
              fields = ps;
              is_object = is;
              no_ref = keys.0;
              known = keys.1;
              repository = repository;
              sha = s;
              given_sha = given;
              candidate_sha = same ∙ is_sha;
              valid_sha = subst (λ x. run_of is_hex 40 40 x ≡ true) (sym same) valid;
              asks = asks;
            },
          )
