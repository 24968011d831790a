-- ===== src/Authorization/Challenge.antt =====
-- `createAuthorizationChallenge` and `assertAuthorizationChallenge` of
-- src/authorization/challenge.mjs: a challenge that may be used once, within twenty minutes.
--
-- Times are readings of `performance.now()` in microseconds; `none` is a reading that is not finite.
use billing_validation_contr.Common.{
  ℕ, ◌-◌, Bool, true, false, ◌&&◌, ◌||◌, String, str_eq, List, [], ◌∷◌, Option, none, some, leb,
  ltb, nat_eq, if◌then◌else◌, map,
}
use billing_validation_contr.Js.{
  Value, text, object, own_keys, is_hex_run, is_plain, is_key_of, data_value,
}
use billing_validation_contr.Authorization.Schema.{text_at}
use billing_validation_contr.Authorization.Manifest.{Platform, create_manifest}

pub data Refusal : Type 0 where
  challenge_invalid challenge_expired challenge_consumed challenge_destroyed : Refusal
  challenge_mismatch manifest_invalid operation_unsupported : Refusal

pub data Status : Type 0 where
  usable expired consumed destroyed : Status

pub record Presentation : Type 0 where
  pub execution_id : String
  pub activation_commitment : String
  pub candidate_sha : String
  pub suite : String

pub record Challenge : Type 0 where
  pub presentation : Presentation
  pub created_at : ℕ
  pub nonce : List ℕ
  pub status : Status

-- What a method answers, with the challenge as it leaves it.
pub data Answer : Type 0 where
  granted : Challenge → Answer
  denied : Refusal → Challenge → Answer

abbrev pub challenge_ttl : ℕ
challenge_ttl = 1_200_000_000

-- `nonce.fill(0)` and the status.
unfoldable pub invalidate : Status → Challenge → Challenge
invalidate next c = record c { nonce = map (λ b. 0) c.nonce; status = next }

abbrev is_window : ℕ → Option ℕ → Bool
is_window created none = false
is_window created (some now) = leb created now && ltb (now - created) challenge_ttl

unfoldable pub refusal_of : Status → Option Refusal
refusal_of usable = none
refusal_of expired = some challenge_expired
refusal_of consumed = some challenge_consumed
refusal_of destroyed = some challenge_destroyed

abbrev expire_or_grant : Bool → Challenge → Answer
expire_or_grant true c = granted c
expire_or_grant false c = denied challenge_expired (invalidate expired c)

abbrev if_usable : Option Refusal → Challenge → Answer → Answer
if_usable none c rest = rest
if_usable (some r) c rest = denied r c

-- `assertUsable`; `count` is the number of arguments.
unfoldable pub assert_usable : ℕ → Option ℕ → Challenge → Answer
assert_usable count now c =
    if nat_eq count 0
    then if_usable (refusal_of c.status) c (expire_or_grant (is_window c.created_at now) c)
    else denied challenge_invalid c

abbrev consumed_if : Answer → Answer
consumed_if (granted c) = granted (invalidate consumed c)
consumed_if (denied r c) = denied r c

unfoldable pub consume : ℕ → Option ℕ → Challenge → Answer
consume count now c =
    if nat_eq count 0 then consumed_if (assert_usable 0 now c) else denied challenge_invalid c

abbrev destroyed_if : Option Refusal → Challenge → Challenge
destroyed_if none c = invalidate destroyed c
destroyed_if (some r) c = c

unfoldable pub destroy : ℕ → Challenge → Answer
destroy count c =
    if nat_eq count 0
    then granted (destroyed_if (refusal_of c.status) c)
    else denied challenge_invalid c

abbrev is_suite : String → Bool
is_suite s = str_eq s "billing-43" || str_eq s "billing-3ds-15"

-- `snapshotOptions`: the SHA and the suite.
unfoldable pub snapshot_options : Value → Option (String × String)
snapshot_options (object proto ps) =
    if is_plain proto && has_two (own_keys ps)
    then pair_of (data_value "candidateSha" ps) (data_value "suite" ps)
    else none
  where
    has_two : List (Option String) → Bool
    has_two (k ∷ l ∷ []) =
        is_key_of ("candidateSha" ∷ "suite" ∷ []) k && is_key_of ("candidateSha" ∷ "suite" ∷ []) l
    has_two _ = false

    pair_of : Option Value → Option Value → Option (String × String)
    pair_of (some (text sha)) (some (text suite)) =
        if is_hex_run 40 sha && is_suite suite then some (sha, suite) else none
    pair_of _ _ = none
snapshot_options _ = none

-- What is drawn for a challenge: the identifier and the nonce; `commit` is the SHA-256 of the domain
-- and the nonce.
pub record Draws : Type 0 where
  pub execution_id : String
  pub nonce : List ℕ
  pub commit : List ℕ → String

unfoldable pub create_challenge : Draws → Option ℕ → Value → Option Challenge
create_challenge draws created input = made (snapshot_options input) created
  where
    made : Option (String × String) → Option ℕ → Option Challenge
    made (some (sha, suite)) (some at) = some (record {
      presentation = record {
        execution_id = draws.execution_id;
        activation_commitment = draws.commit draws.nonce;
        candidate_sha = sha;
        suite = suite;
      };
      created_at = at;
      nonce = draws.nonce;
      status = usable;
    })
    made _ _ = none

abbrev pub is_text_at : String → String → Value → Bool
is_text_at key s manifest = elim (text_at key manifest) [ none ↦ false | some t ↦ str_eq t s ]

abbrev pub candidate_of : Value → Value
candidate_of (object proto ps) = elim (data_value "candidate" ps) [ none ↦ text "" | some v ↦ v ]
candidate_of v = text ""

unfoldable pub is_presented : Presentation → Value → Bool
is_presented p manifest =
    is_text_at "executionId" p.execution_id manifest
    && is_text_at "activationCommitment" p.activation_commitment manifest
    && is_text_at "sha" p.candidate_sha (candidate_of manifest)
    && is_text_at "suite" p.suite manifest

abbrev matched : Challenge → Option Value → Answer
matched c none = denied manifest_invalid c
matched c (some manifest) =
    if is_text_at "operation" "collect" manifest
    then if is_presented c.presentation manifest then granted c else denied challenge_mismatch c
    else denied operation_unsupported c

abbrev and_matched : Option Value → Answer → Answer
and_matched manifest (granted c) = matched c manifest
and_matched manifest (denied r c) = denied r c

-- `assertAuthorizationChallenge` of a challenge that the factory made.
unfoldable pub assert_challenge : Platform → Option ℕ → Value → Challenge → Answer
assert_challenge platform now input c =
    and_matched (create_manifest platform input) (assert_usable 0 now c)
