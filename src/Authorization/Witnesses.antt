-- ===== src/Authorization/Witnesses.antt =====
-- A manifest that is printed and read, and a challenge that is used.
use billing_validation_contr.Common.{
  ℕ, List, [], ◌∷◌, some, none, ◌≡◌, ◌≤◌, ◌<◌, ◌+◌, true, refl, arith, if◌then◌else◌,
}
use billing_validation_contr.Checks.{check}
use billing_validation_contr.Js.{Value, dense_array}
use billing_validation_contr.Evidence.Utf8.{decode_utf8}
use billing_validation_contr.Authorization.Schema.{sealed, has_exactly, conform, distinct_jobs}
use billing_validation_contr.Authorization.Manifest.{
  schema, valid_source, create_manifest, serialize_manifest, parse_manifest, authorization_digest,
  max_manifest_bytes,
}
use billing_validation_contr.Authorization.Parsed.{
  create_manifest-again, parse_manifest-canonical, parse_manifest-serialize_manifest,
}
use billing_validation_contr.Authorization.Challenge.{
  Challenge, granted, denied, challenge_mismatch, challenge_consumed, challenge_ttl, usable,
  invalidate, refusal_of, assert_usable, consume, destroy, is_presented, assert_challenge,
  is_text_at,
}
use billing_validation_contr.Authorization.Uses.{
  here, next, destroys, left_by, IsIntact, consume-once, Reach-IsIntact, assert_challenge-granted,
}
use billing_validation_contr.Authorization.Inputs.{
  snapshot_record, read, authorization_context, Inputs, parse_inputs,
}
use billing_validation_contr.Authorization.Release.{
  valid_release, valid_release_policy, select_release,
}
use billing_validation_contr.Authorization.Emitter.{receipt_of, valid_receipt, emit_authorization}
use billing_validation_contr.Authorization.Emitted.{is_asked, emit_authorization-asserted}
use billing_validation_contr.Authorization.Fixtures.{
  emission, manifest, platform, challenge, granted_of,
}

-- To unfold this name is to open all that these calls run through.
unfoldable runs : ℕ
unfolding decode_utf8 check sealed has_exactly conform distinct_jobs schema valid_source
    create_manifest serialize_manifest parse_manifest invalidate refusal_of assert_usable consume
    destroy is_presented assert_challenge snapshot_record read authorization_context parse_inputs
    dense_array valid_release valid_release_policy select_release receipt_of valid_receipt
    emit_authorization
runs = 0

create_manifest-again_example : create_manifest platform manifest ≡ some manifest
unfolding runs
create_manifest-again_example = create_manifest-again platform manifest {manifest = manifest} refl

abbrev bytes : List ℕ
bytes = 0x7b ∷ 0xa ∷ []

parse_manifest-canonical_example :
    (serialize_manifest platform manifest ≡ some bytes)
    × (1 ≤ 2)
    × (2 ≤ max_manifest_bytes)
    × (authorization_digest platform (some bytes) ≡ some (platform.sha256 bytes))
unfolding runs
parse_manifest-canonical_example =
    parse_manifest-canonical platform bytes {manifest = manifest} refl

parse_manifest-serialize_manifest_example : parse_manifest platform (some bytes) ≡ some manifest
unfolding runs
parse_manifest-serialize_manifest_example =
    parse_manifest-serialize_manifest platform manifest {manifest = manifest} {bytes = bytes}
      {decoded = bytes} refl refl (omega arith) refl refl

abbrev used : Challenge
unfolding invalidate refusal_of assert_usable consume destroy is_presented assert_challenge
used = granted_of (consume 0 (some 6_000) challenge) refl

abbrev after : Challenge
after = left_by (destroy 0 used)

consume-once_example :
    (after ≡ used)
    × (assert_usable 0 none after ≡ denied challenge_consumed after)
    × (consume 0 none after ≡ denied challenge_consumed after)
unfolding invalidate refusal_of assert_usable consume destroy is_presented assert_challenge
consume-once_example =
    consume-once platform (some 6_000) none challenge {d = used} {e = after} refl
      (next here (destroys 0))

Reach-IsIntact_example : IsIntact challenge (left_by (destroy 0 challenge))
Reach-IsIntact_example = Reach-IsIntact platform challenge (next here (destroys 0))

assert_challenge-granted_example :
    (challenge ≡ challenge)
    × (challenge.status ≡ usable)
    × ((at : ℕ) × (some 6_000 ≡ some at)
        × (challenge.created_at ≤ at)
        × (at < challenge.created_at + challenge_ttl))
    × ((m : Value) × (create_manifest platform manifest ≡ some m)
        × (is_text_at "operation" "collect" m ≡ true)
        × (is_presented challenge.presentation m ≡ true))
unfolding runs
assert_challenge-granted_example =
    assert_challenge-granted platform (some 6_000) manifest challenge {d = challenge} refl

emit_authorization-asserted_example :
    (i : Inputs) × (parse_inputs emission.dispatch ≡ some i)
    × (assert_challenge platform (some 6_000) manifest challenge ≡ (
        if is_asked i challenge.presentation
        then granted challenge
        else denied challenge_mismatch challenge))
unfolding runs
emit_authorization-asserted_example =
    emit_authorization-asserted platform emission challenge 6_000 {m = manifest} refl refl
      (omega arith) (omega arith)
