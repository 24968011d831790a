-- ===== src/Authorization/Release.antt =====
-- `validateReleasePolicy`, `selectRelease` and `validateTrustPolicy` of src/authorization/release-policy.mjs.
use billing_validation_contr.Common.{
  ℕ, Bool, true, false, ◌&&◌, not, String, List, [], ◌∷◌, Option, none, some, leb, nat_eq, length,
  if◌then◌else◌, includes,
}
use billing_validation_contr.Checks.{◌>>=◌, ◌>>◌, check}
use billing_validation_contr.Js.{Value, number, is_hex_run, dense_array, data_value}
use billing_validation_contr.Authorization.Schema.{conform, record_of}
use billing_validation_contr.Authorization.Manifest.{collector_release, policy}
use billing_validation_contr.Authorization.Inputs.{snapshot_record, read, text_of, is_suite}

-- The release and its policy as they are copied, and the suites that it is for.
pub record Release : Type 0 where
  pub collector_release : Value
  pub policy : Value
  pub suites : List String

-- `list(input, validate, max)`.
abbrev list_of : {A : Type 0} → ℕ → (Value → Option A) → Value → Option (List A)
list_of {A = A} max validate input =
    dense_array input >>= λ vs. check (leb (length vs) max) >> all_of vs
  where
    all_of : List Value → Option (List A)
    all_of [] = some []
    all_of (v ∷ vs) = validate v >>= λ a. all_of vs >>= λ rest. some (a ∷ rest)

abbrev is_one : Value → Bool
is_one (number n) = nat_eq n 1
is_one _ = false

abbrev valid_suite : Value → Option String
valid_suite v = text_of v >>= λ s. check (is_suite s) >> some s

abbrev has_no_repeats : List String → Bool
has_no_repeats [] = true
has_no_repeats (s ∷ ss) = not (includes ss s) && has_no_repeats ss

unfoldable pub valid_release : Value → Option Release
valid_release value = do
  ps ← snapshot_record ("collectorRelease" ∷ "policy" ∷ "suites" ∷ []) value
  given_release ← data_value "collectorRelease" ps
  release ← conform (record_of collector_release) given_release
  given_policy ← data_value "policy" ps
  pins ← conform (record_of policy) given_policy
  given_suites ← data_value "suites" ps
  suites ← list_of 2 valid_suite given_suites
  check (leb 1 (length suites) && has_no_repeats suites)
  some (record { collector_release = release; policy = pins; suites = suites })

unfoldable pub valid_release_policy : Value → Option (List Release)
valid_release_policy value = do
  ps ← snapshot_record ("schemaVersion" ∷ "releases" ∷ []) value
  version ← read "schemaVersion" is_one ps
  releases ← data_value "releases" ps
  list_of 128 valid_release releases

abbrev pub releases_for : String → List Release → List Release
releases_for suite [] = []
releases_for suite (r ∷ rs) =
    if includes r.suites suite then r ∷ releases_for suite rs else releases_for suite rs

pub data Selected : Type 0 where
  selected : Release → Selected
  release_invalid release_unconfigured release_ambiguous : Selected

abbrev only_release : List Release → Selected
only_release [] = release_unconfigured
only_release (r ∷ []) = selected r
only_release (r ∷ s ∷ rest) = release_ambiguous

unfoldable pub select_release : Value → String → Selected
select_release value suite = elim (valid_release_policy value) [
  | none ↦ release_invalid
  | some rs ↦ if is_suite suite then only_release (releases_for suite rs) else release_invalid
]

abbrev valid_sha : Value → Option String
valid_sha v = text_of v >>= λ s. check (is_hex_run 40 s) >> some s

-- The reviewed commits.
unfoldable pub valid_trust_policy : Value → Option (List String)
valid_trust_policy value = do
  ps ← snapshot_record ("schemaVersion" ∷ "reviewedControlShas" ∷ []) value
  version ← read "schemaVersion" is_one ps
  given ← data_value "reviewedControlShas" ps
  shas ← list_of 128 valid_sha given
  check (has_no_repeats shas)
  some shas
