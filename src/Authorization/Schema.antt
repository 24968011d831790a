-- ===== src/Authorization/Schema.antt =====
-- `record`, `jobs` and the scalar tests of src/authorization/manifest.mjs. They refuse with one code
-- only, `authorization_manifest_invalid`, which is `none` here.
use billing_validation_contr.Common.{
  ℕ, ◌+◌, ◌-◌, ◌*◌, Bool, true, false, ◌&&◌, not, String, str_eq, List, [], ◌∷◌, Option, none, some,
  leb, nat_eq, length, every, codes, is_digit, is_hex, prefixed_run, includes,
}
use billing_validation_contr.Checks.{◌>>=◌, ◌>>◌, check}
use billing_validation_contr.Js.{
  Value, text, number, array, object, nil, cons, Prototype, plain, Props, end, field, own_keys,
  is_hex_run, max_safe_integer, is_plain, is_key_of, data_value,
}

-- A schema is a test, a record of schemas, or the three jobs, each a record.
mutual
  pub data Schema : Type 0 where
    scalar : (Value → Bool) → Schema
    record_of : Fields → Schema
    jobs_of : Fields → Fields → Fields → Schema

  pub data Fields : Type 0 where
    no_fields : Fields
    a_field : String → Schema → Fields → Fields

abbrev pub names : Fields → List String
names no_fields = []
names (a_field k s fs) = k ∷ names fs

abbrev pub text_at : String → Value → Option String
text_at key (object proto ps) = elim (data_value key ps) [
  | none ↦ none
  | some v ↦ elim v [ text s ↦ some s | _ ↦ none ]
]
text_at key _ = none

abbrev differ : Option String → Option String → Bool
differ (some s) (some t) = not (str_eq s t)
differ _ _ = false

-- `new Set(jobIds).size === 3`.
abbrev pub are_distinct : Value → Value → Value → Bool
are_distinct a b c =
    differ (text_at "jobId" a) (text_at "jobId" b)
    && differ (text_at "jobId" a) (text_at "jobId" c)
    && differ (text_at "jobId" b) (text_at "jobId" c)

unfoldable pub has_exactly : Fields → Prototype → Props → Bool
has_exactly fields proto ps =
    is_plain proto
    && nat_eq (length (own_keys ps)) (length (names fields))
    && every (is_key_of (names fields)) (own_keys ps)

abbrev pub props_of : Value → Props
props_of (object proto ps) = ps
props_of _ = end

-- The frozen copy, of a plain object with exactly the keys of the schema.
unfoldable pub sealed : Fields → Value → Option Props → Option Value
sealed fs (object proto ps) copied =
    check (has_exactly fs proto ps) >> (copied >>= λ qs. some (object plain qs))
sealed fs _ copied = none

unfoldable pub distinct_jobs : Value → Value → Value → Option Value
distinct_jobs x y z = check (are_distinct x y z) >> some (array (cons x (cons y (cons z nil))))

unfoldable mutual
  -- The copy, with the keys in the schema's order.
  pub conform : Schema → Value → Option Value
  conform (scalar test) value = check (test value) >> some value
  conform (record_of fields) value = sealed fields value (conform_fields fields (props_of value))
  conform (jobs_of first second third) (array (cons a (cons b (cons c nil)))) =
      sealed first a (conform_fields first (props_of a)) >>= λ x.
      sealed second b (conform_fields second (props_of b)) >>= λ y.
      sealed third c (conform_fields third (props_of c)) >>= λ z. distinct_jobs x y z
  conform (jobs_of first second third) _ = none

  pub conform_fields : Fields → Props → Option Props
  conform_fields no_fields ps = some end
  conform_fields (a_field k s fs) ps = data_value k ps >>= λ v.
      conform s v >>= λ w. conform_fields fs ps >>= λ qs. some (field k true w qs)

abbrev pub literal : String → Schema
literal expected = scalar is_expected
  where
    is_expected : Value → Bool
    is_expected (text s) = str_eq s expected
    is_expected _ = false

abbrev pub one_of : List String → Schema
one_of values = scalar is_one
  where
    is_one : Value → Bool
    is_one (text s) = includes values s
    is_one _ = false

abbrev pub version_two : Schema
version_two = scalar is_two
  where
    is_two : Value → Bool
    is_two (number n) = nat_eq n 2
    is_two _ = false

-- `hex(length)`.
abbrev pub hex : ℕ → Schema
hex n = scalar is_hex_text
  where
    is_hex_text : Value → Bool
    is_hex_text (text s) = is_hex_run n s
    is_hex_text _ = false

-- `prefixedDigest(prefix)`.
abbrev pub prefixed_digest : String → Schema
prefixed_digest prefix = scalar is_prefixed
  where
    is_prefixed : Value → Bool
    is_prefixed (text s) = prefixed_run (codes prefix) is_hex 64 64 (codes s)
    is_prefixed _ = false

abbrev decimal : ℕ → List ℕ → ℕ
decimal n [] = n
decimal n (c ∷ cs) = decimal (n * 10 + (c - b'0')) cs

abbrev is_decimal : List ℕ → Bool
is_decimal [] = false
is_decimal (c ∷ cs) =
    is_digit c
    && not (nat_eq c b'0')
    && every is_digit cs
    && leb (decimal 0 (c ∷ cs)) max_safe_integer

-- A safe integer's decimal text, without leading zeros, is the text of its number.
abbrev pub is_decimal_text : String → Bool
is_decimal_text s = is_decimal (codes s)

abbrev pub decimal_id : Schema
decimal_id = scalar is_decimal_value
  where
    is_decimal_value : Value → Bool
    is_decimal_value (text s) = is_decimal_text s
    is_decimal_value _ = false
