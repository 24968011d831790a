-- ===== src/Authorization/Emitted.antt =====
-- What `emitLocalAuthorization` of src/authorization/emitter.mjs makes, as
-- `assertAuthorizationChallenge` of src/authorization/challenge.mjs looks at it.
use billing_validation_contr.Common.{
  ℕ, ◌+◌, ◌≤◌, ◌<◌, Bool, true, ◌&&◌, String, str_eq, eq_iff, some, ◌≡◌, refl, ap, subst, ◌∙◌,
  arith, if◌then◌else◌,
}
use billing_validation_contr.Checks.{>>=-then, check-then, some-eq}
use billing_validation_contr.Js.{Value, object, plain, Props}
use billing_validation_contr.Authorization.Schema.{text_at, conform, props_of}
use billing_validation_contr.Authorization.Manifest.{
  Platform, schema, candidate, create_manifest, date_at,
}
use billing_validation_contr.Authorization.Challenge.{
  Challenge, Presentation, granted, denied, challenge_mismatch, usable, challenge_ttl, refusal_of,
  assert_usable, is_presented, assert_challenge, is_text_at, candidate_of,
}
use billing_validation_contr.Authorization.Inputs.{
  Context, authorization_context, Inputs, parse_inputs,
}
use billing_validation_contr.Authorization.Release.{Release, select_release}
use billing_validation_contr.Authorization.Emitter.{
  Receipt, receipt_of, valid_receipt, released, Emission, candidate_value, manifest_value,
  emit_authorization,
}
use billing_validation_contr.Authorization.Parsed.{create_manifest-again}
use billing_validation_contr.Authorization.Copied.{conform-scalar, conform-inner}

-- The inputs are those that the challenge presents.
abbrev pub is_asked : Inputs → Presentation → Bool
is_asked i p =
    str_eq i.execution_id p.execution_id
    && str_eq i.activation_commitment p.activation_commitment
    && str_eq i.candidate_sha p.candidate_sha
    && str_eq i.suite p.suite

valid_receipt-sha :
    (value : Value) (sha : String) {r : Receipt}
    → valid_receipt value sha ≡ some r
    → r.candidate_sha ≡ sha
unfolding valid_receipt
valid_receipt-sha value sha h = >>=-then (receipt_of value) _ h λ r _ h1.
    check-then _ _ h1 λ same last.
      subst (λ x. x.candidate_sha ≡ sha) (some-eq last) ((eq_iff r.candidate_sha sha).0 same)

module _ (platform : Platform) where
  create_manifest-conform :
      (value : Value) {m : Value}
      → create_manifest platform value ≡ some m
      → conform (schema platform) value ≡ some m
  unfolding create_manifest
  create_manifest-conform value {m = m} h =
      >>=-then (conform (schema platform) value) _ h λ w copied h1.
        >>=-then (date_at platform "issuedAt" w) _ h1 λ issued _ h2.
          >>=-then (date_at platform "expiresAt" w) _ h2
            λ expires _ h3. check-then _ _ h3 λ _ h4. check-then _ _ h4 λ _ last. copied ∙ last

  module _ (c : Context) (i : Inputs) (r : Receipt) (release : Release) (time : ℕ) where
    abbrev built : Props
    built = props_of (manifest_value platform c i r release time)

    text-sha :
        {m : Value}
        → conform (schema platform) (object plain built) ≡ some m
        → text_at "sha" (candidate_of m) ≡ some r.candidate_sha
    unfolding schema
    text-sha h =
        let inner = props_of (candidate_value r) in
        let (qs, w, made, found, same) =
          conform-inner "candidate" "sha" _ candidate built inner refl refl refl h in
        ap (λ x. text_at "sha" (candidate_of x)) made ∙ rw (candidate_of, found) same

    presented :
        (p : Presentation) {m : Value}
        → r.candidate_sha ≡ i.candidate_sha
        → create_manifest platform (object plain built) ≡ some m
        → (is_text_at "operation" "collect" m ≡ true) × (is_presented p m ≡ is_asked i p)
    unfolding is_presented schema
    presented p same h =
        let copied = create_manifest-conform (object plain built) h in
        (
          rw (is_text_at, conform-scalar "operation" _ built refl copied) refl,
          rw
              (
                is_text_at,
                conform-scalar "executionId" _ built refl copied,
                conform-scalar "activationCommitment" _ built refl copied,
                conform-scalar "suite" _ built refl copied,
                text-sha copied,
                same,
              )
              refl,
        )

  asserted :
      (asked : Bool) (c : Challenge) (at : ℕ) {m : Value}
      → create_manifest platform m ≡ some m
      → (is_text_at "operation" "collect" m ≡ true) × (is_presented c.presentation m ≡ asked)
      → c.status ≡ usable
      → c.created_at ≤ at
      → at < c.created_at + challenge_ttl
      → assert_challenge platform (some at) m c
        ≡ (if asked then granted c else denied challenge_mismatch c)
  unfolding assert_challenge assert_usable refusal_of
  asserted asked c at made (collects, presents) fresh begun within =
      ground (arith, made, collects, presents, fresh, begun, within)

  -- What is emitted is the authorization of the challenge that was asked for, and of no other: a usable
  -- challenge, within its twenty minutes, accepts the emitted manifest if the dispatch's execution,
  -- activation commitment, commit and suite are those that the challenge presents, and refuses it as a
  -- mismatch if one of them is another.
  pub emit_authorization-asserted :
      (e : Emission) (c : Challenge) (at : ℕ) {m : Value}
      → emit_authorization platform e ≡ some m
      → c.status ≡ usable
      → c.created_at ≤ at
      → at < c.created_at + challenge_ttl
      → (i : Inputs) × (parse_inputs e.dispatch ≡ some i)
        × (assert_challenge platform (some at) m c
            ≡ (if is_asked i c.presentation then granted c else denied challenge_mismatch c))
  unfolding emit_authorization
  emit_authorization-asserted e c at h fresh begun within =
      >>=-then (authorization_context e.context) _ h λ k _ h1.
        >>=-then (parse_inputs e.dispatch) _ h1 λ i dispatched h2.
          >>=-then (released (select_release e.release_policy i.suite)) _ h2 λ release _ h3.
            >>=-then (valid_receipt e.receipt i.candidate_sha) _ h3 λ r received h4.
              >>=-then e.now _ h4 λ time _ h5. check-then _ _ h5 λ _ made.
                let same = valid_receipt-sha e.receipt i.candidate_sha received in
                let shown = presented k i r release time c.presentation same made in
                (
                  i,
                  dispatched,
                  asserted (is_asked i c.presentation) c at (create_manifest-again platform _ made)
                      shown fresh begun within,
                )
