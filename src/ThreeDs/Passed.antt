-- ===== src/ThreeDs/Passed.antt =====
-- What a case that passes in `runThreeDsCase` of src/billing/three-ds.mjs has shown.
use billing_validation_contr.Common.{
  ◌≤◌, Bool, true, false, ◌&&◌, not, String, List, [], ◌∷◌, ◌++◌, Option, none, some, ◌≡◌, ◌⊎◌, inl,
  inr, refl, sym, subst, arith, length, Bool-cases, Option-cases,
}
use billing_validation_contr.Js.{Value}
use billing_validation_contr.ThreeDs.Scenarios.{Scenario, three_ds_scenario}
use billing_validation_contr.ThreeDs.Access.{
  Access, valid_expected_access, is_active_for, filter, matching_settlement_count,
}
use billing_validation_contr.ThreeDs.Covered.{IsExact, expected_grant_count-IsExact}
use billing_validation_contr.ThreeDs.Verdict.{
  Evidence, Observed, Identity, no_new_access, paid_state, is_code,
}
use billing_validation_contr.ThreeDs.Run.{
  note, delay_step, case_failures, is_unpaid_outcome, unpaid_failures, paid_failures,
  outcome_failures, failures, verdict, Verdict, judged, run_three_ds_case,
}

note-nil : (test : Bool) (code : String) → note test code ≡ [] → test ≡ false
unfolding note
note-nil true code h = cc
note-nil false code h = refl

++-nil : (xs ys : List String) → (xs ++ ys) ≡ [] → (xs ≡ []) × (ys ≡ [])
++-nil [] ys h = (refl, h)
++-nil (x ∷ xs) ys h = cc

not-false : (b : Bool) → not b ≡ false → b ≡ true
not-false true h = refl
not-false false h = cc

abbrev judged_evidence : Scenario → Observed → Option Access → Identity → Evidence
judged_evidence s o x identity = (delay_step s o x identity).0

failures-nil :
    (s : Scenario) (o : Observed) (x : Option Access) (identity : Identity)
    → failures s o x identity ≡ []
    → (s.challenge && not o.witness ≡ false)
      × ((delay_step s o x identity).1 ≡ [])
      × (case_failures s o identity ≡ [])
      × (outcome_failures s (judged_evidence s o x identity) o x identity ≡ [])
unfolding failures
failures-nil s o x identity h =
    let (h1, end) = ++-nil _ _ h in
    let (h2, kind) = ++-nil _ _ h1 in
    let (seen, delay) = ++-nil _ _ h2 in
    (note-nil (s.challenge && not o.witness) _ seen, delay, kind, end)

unpaid_failures-nil :
    (s : Scenario) (e : Evidence) (o : Observed) (identity : Identity)
    → unpaid_failures s e o identity ≡ []
    → (no_new_access e ≡ true) × (e.no_funds_collected ≡ true)
unfolding unpaid_failures
unpaid_failures-nil s e o identity h =
    let (access, funds) = ++-nil _ _ (++-nil _ _ h).0 in
    (not-false _ (note-nil _ _ access), not-false _ (note-nil _ _ funds))

paid_failures-nil :
    (s : Scenario) (e : Evidence) (x : Option Access) (identity : Identity)
    → paid_failures s e x identity ≡ []
    → paid_state e x identity ≡ true
unfolding paid_failures
paid_failures-nil s e x identity h =
    not-false _ (note-nil _ _ (++-nil _ _ (++-nil _ _ (++-nil _ _ h).0).0).0)

-- A case that ends without new access, by the evidence that is judged.
abbrev pub ShowsNothing : Evidence → Type 0
ShowsNothing e =
    (length e.settlements ≡ 0)
    × (length e.grants ≡ 0)
    × (e.revision_count ≡ 0)
    × (e.usage_count ≡ 0)
    × (e.unchanged ≡ true)
    × (e.no_funds_collected ≡ true)

ShowsNothing-no_new_access :
    (e : Evidence) → no_new_access e ≡ true → e.no_funds_collected ≡ true → ShowsNothing e
unfolding no_new_access
ShowsNothing-no_new_access e h funds = (
  ground (arith, h),
  ground (arith, h),
  ground (arith, h),
  ground (arith, h),
  ground (arith, h),
  funds,
)

paid_state-none : (e : Evidence) (identity : Identity) → paid_state e none identity ≡ true → ⊥
unfolding paid_state
paid_state-none e identity h = cc

-- A case that is paid, by the evidence that is judged.
abbrev pub ShowsPayment : Access → Identity → Evidence → Type 0
ShowsPayment x identity e =
    (e.stripe_paid ≡ true)
    × (is_code "authenticated" e.authentication_result ≡ true)
    × (e.processed ≡ true)
    × (length e.settlements ≡ 1)
    × (matching_settlement_count e.settlements e.payment identity.customer_id x.contract_id ≡ 1)
    × IsExact x e.current_grants
    × (length (filter (is_active_for x) e.baseline_grants) ≡ 0)

ShowsPayment-paid_state :
    (x : Access) (identity : Identity) (e : Evidence)
    → 1 ≤ length x.areas
    → paid_state e (some x) identity ≡ true
    → ShowsPayment x identity e
unfolding paid_state
ShowsPayment-paid_state x identity e some_area h =
    let (exact, before) =
      expected_grant_count-IsExact e.baseline_grants e.current_grants e.grants x some_area
        (ground (arith, h)) in
    (
      ground (arith, h),
      ground (arith, h),
      ground (arith, h),
      ground (arith, h),
      ground (arith, h),
      exact,
      before,
    )

valid_expected_access-area :
    (v : Value) {x : Access} → valid_expected_access v ≡ some x → 1 ≤ length x.areas
unfolding valid_expected_access
valid_expected_access-area v h = ground (arith, h)

abbrev pub HasPassed : Scenario → Value → Identity → Verdict → Type 0
HasPassed s access identity v =
    ((is_unpaid_outcome s ≡ true) × ShowsNothing v.evidence)
    ⊎ ((x : Access) × (valid_expected_access access ≡ some x) × ShowsPayment x identity v.evidence)

outcome-HasPassed :
    (s : Scenario) (o : Observed) (access : Value) (identity : Identity)
    → failures s o (valid_expected_access access) identity ≡ []
    → HasPassed s access identity (
        verdict s
          (judged_evidence s o (valid_expected_access access) identity)
          (failures s o (valid_expected_access access) identity))
unfolding outcome_failures verdict
outcome-HasPassed s o access identity h =
    let e = judged_evidence s o (valid_expected_access access) identity in
    let (seen, delay, kind, end) = failures-nil s o (valid_expected_access access) identity h in
    elim (Bool-cases (is_unpaid_outcome s)) [
      | inl unpaid ↦
          let (none_new, funds) = unpaid_failures-nil s e o identity (rw unpaid at end) in
          inl (unpaid, ShowsNothing-no_new_access e none_new funds)
      | inr paid ↦
          let shown =
            paid_failures-nil s e (valid_expected_access access) identity (rw paid at end) in
          elim (Option-cases (valid_expected_access access)) [
            | inl missing ↦ absurd (
                paid_state-none e identity
                  (subst (λ y. paid_state e y identity ≡ true) missing shown))
            | inr (x, valid) ↦ inr (
              x,
              valid,
              ShowsPayment-paid_state x identity e (valid_expected_access-area access valid)
                  (subst (λ y. paid_state e y identity ≡ true) valid shown),
            )
          ]
    ]

passed-nil :
    (s : Scenario) (e : Evidence) (codes : List String)
    → (verdict s e codes).passed ≡ true
    → codes ≡ []
unfolding verdict
passed-nil s e [] h = refl
passed-nil s e (c ∷ cs) h = cc

passed-outcome :
    (s : Scenario) (e : Evidence) (codes : List String)
    → codes ≡ []
    → (verdict s e codes).outcome ≡ s.expected_outcome
unfolding verdict
passed-outcome s e codes h = rw h refl

witness_or : (a b : Bool) → a && not b ≡ false → (a ≡ false) ⊎ (b ≡ true)
witness_or a true h = inr refl
witness_or true false h = cc
witness_or false false h = inl refl

-- What a case was that passed: of a supported scenario, its challenge witnessed if it has one, and its
-- outcome the expected one.
abbrev pub WasSupported : Scenario → Observed → Verdict → Type 0
WasSupported s o v =
    (s.supported ≡ true)
    × ((s.challenge ≡ false) ⊎ (o.witness ≡ true))
    × (v.outcome ≡ s.expected_outcome)

-- A case that passes is of a supported scenario, with its challenge witnessed if it has one. If the
-- scenario ends without new access, the judged evidence shows no settlement, grant, revision or usage,
-- an unchanged database and no funds collected. Otherwise the expected access is valid, and the
-- evidence shows an authenticated payment, a processed webhook, exactly one settlement, which is that of
-- the invoice, and active grants for just the areas of the access, and the
-- contract had none that was active before.
pub run_three_ds_case-passed :
    (id : String) (access : Value) (identity : Identity) (o : Observed) {v : Verdict}
    → run_three_ds_case id access identity o ≡ judged v
    → v.passed ≡ true
    → (s : Scenario) × (three_ds_scenario id ≡ some s)
      × WasSupported s o v
      × HasPassed s access identity v
unfolding run_three_ds_case
run_three_ds_case-passed id access identity o {v = v} h passed =
    elim (Option-cases (three_ds_scenario id)) [
      | inl unknown ↦ absurd (ground (arith, h, unknown))
      | inr (s, known) ↦
          let e = judged_evidence s o (valid_expected_access access) identity in
          let codes = failures s o (valid_expected_access access) identity in
          let supported : s.supported ≡ true = ground (arith, h, known) in
          let same : verdict s e codes ≡ v = ground (arith, h, known) in
          let clean : codes ≡ [] =
            passed-nil s e codes (subst (λ w. w.passed ≡ true) (sym same) passed) in
          let witnessed = (failures-nil s o (valid_expected_access access) identity clean).0 in
          (
            s,
            known,
            (
              supported,
              witness_or s.challenge o.witness witnessed,
              subst (λ w. w.outcome ≡ s.expected_outcome) same (passed-outcome s e codes clean),
            ),
            subst (HasPassed s access identity) same (outcome-HasPassed s o access identity clean),
          )
    ]
