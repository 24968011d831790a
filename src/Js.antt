-- ===== src/Js.antt =====
-- The JavaScript values that the control plane is handed, as far as its validation looks at them:
-- src/attempts/store.mjs (`ownDataValue`, `exactDataRecord`, `safeId`, `validTtl`, `snapshotUsage`).
--
-- A number is `number n` if it is a natural number of any size, `fraction` if it is positive, finite
-- and no integer, else `other_number` (negative or not finite). `hostile` is an object whose
-- reflection throws (a revoked proxy). An accessor carries what its getter returns. An array is dense
-- and has no properties besides its elements, which are data.
-- What an object inherits is not modelled.
use billing_validation_contr.Common.{
  ℕ, zero, suc, ◌-◌, ◌^◌, Bool, true, false, ◌&&◌, ◌||◌, String, str_eq, List, [], ◌∷◌, Option,
  none, some, leb, nat_eq, if◌then◌else◌, length, every, some_of, codes, includes, is_alnum, is_hex,
  run_of, matches_classes,
}

-- `Object.getPrototypeOf(value)`: `Object.prototype`, `null` or another object.
pub data Prototype : Type 0 where
  plain null_prototype other : Prototype

mutual
  pub data Value : Type 0 where
    undefined null function hostile fraction other_number : Value
    boolean : Bool → Value
    number : ℕ → Value
    text : String → Value
    array : Values → Value
    object : Prototype → Props → Value

  pub data Values : Type 0 where
    nil : Values
    cons : Value → Values → Values

  -- Own properties in order: a data property with its `enumerable` flag, an accessor with that flag
  -- and its getter's value, a property whose key is a symbol.
  pub data Props : Type 0 where
    end : Props
    field : String → Bool → Value → Props → Props
    accessor : String → Bool → Value → Props → Props
    symbol : Props → Props

-- `Reflect.ownKeys(value)`; a symbol is `none`.
abbrev pub own_keys : Props → List (Option String)
own_keys end = []
own_keys (field k e v ps) = some k ∷ own_keys ps
own_keys (accessor k e v ps) = some k ∷ own_keys ps
own_keys (symbol ps) = none ∷ own_keys ps

-- `Object.keys(value)`.
abbrev pub enumerable_keys : Props → List String
enumerable_keys end = []
enumerable_keys (field k e v ps) = if e then k ∷ enumerable_keys ps else enumerable_keys ps
enumerable_keys (accessor k e v ps) = if e then k ∷ enumerable_keys ps else enumerable_keys ps
enumerable_keys (symbol ps) = enumerable_keys ps

-- The own data property `key`, with its flag. Own keys differ, so the first hit is the only one.
abbrev pub data_property : String → Props → Option (Bool × Value)
data_property key end = none
data_property key (field k e v ps) = if str_eq k key then some (e, v) else data_property key ps
data_property key (accessor k e v ps) = if str_eq k key then none else data_property key ps
data_property key (symbol ps) = data_property key ps

-- `value[key]` on own properties.
abbrev pub get_property : String → Props → Value
get_property key end = undefined
get_property key (field k e v ps) = if str_eq k key then v else get_property key ps
get_property key (accessor k e v ps) = if str_eq k key then v else get_property key ps
get_property key (symbol ps) = get_property key ps

-- `ownDataValue`. An array has none of the named keys that the code asks for.
unfoldable pub own_data_value : Value → String → Value
own_data_value (object proto ps) key = elim (data_property key ps) [
  | none ↦ undefined
  | some (e, v) ↦ v
]
own_data_value _ key = undefined

-- The enumerable data properties `keys`, in that order.
abbrev enumerable_values : List String → Props → Option (List Value)
enumerable_values [] ps = some []
enumerable_values (k ∷ ks) ps = elim (data_property k ps) [
  | none ↦ none
  | some (e, v) ↦ elim e [
    | false ↦ none
    | true ↦ elim (enumerable_values ks ps) [ none ↦ none | some vs ↦ some (v ∷ vs) ]
  ]
]

abbrev pub is_key_of : List String → Option String → Bool
is_key_of keys none = false
is_key_of keys (some k) = includes keys k

abbrev pub is_plain : Prototype → Bool
is_plain plain = true
is_plain null_prototype = true
is_plain other = false

-- The value of the own data property, if there is one.
abbrev pub data_value : String → Props → Option Value
data_value key ps = elim (data_property key ps) [ none ↦ none | some (e, v) ↦ some v ]

abbrev pub elements : Values → List Value
elements nil = []
elements (cons v vs) = v ∷ elements vs

-- `snapshotDenseArray`.
unfoldable pub dense_array : Value → Option (List Value)
dense_array (array vs) = some (elements vs)
dense_array _ = none

-- `exactDataRecord`: the values of exactly the expected keys, in their order, or `null`.
unfoldable pub exact_data_record : Value → List String → Option (List Value)
exact_data_record (object proto ps) keys =
    if is_plain proto
      && nat_eq (length (own_keys ps)) (length keys)
      && every (is_key_of keys) (own_keys ps)
    then enumerable_values keys ps
    else none
exact_data_record _ keys = none

-- `exactDataRecord` of store.mjs where the prototype is not looked at (`snapshotUsage`,
-- `terminalRequest`).
unfoldable pub data_record : Value → List String → Option (List Value)
data_record (object proto ps) keys =
    if nat_eq (length (own_keys ps)) (length keys) && every (is_key_of keys) (own_keys ps)
    then enumerable_values keys ps
    else none
data_record _ keys = none

-- /^[A-Za-z0-9][A-Za-z0-9._:-]{1,127}$/
abbrev is_id_char : ℕ → Bool
is_id_char c = is_alnum c || includes_code (b'.' ∷ b'_' ∷ b':' ∷ b'-' ∷ [])
  where
    includes_code : List ℕ → Bool
    includes_code cs = some_of (nat_eq c) cs

abbrev is_safe_codes : List ℕ → Bool
is_safe_codes [] = false
is_safe_codes (c ∷ s) = is_alnum c && run_of is_id_char 1 127 s

abbrev pub is_safe_id : String → Bool
is_safe_id s = is_safe_codes (codes s)

-- /^[a-f0-9]{n}$/
abbrev pub is_hex_run : ℕ → String → Bool
is_hex_run n s = run_of is_hex n n (codes s)

-- /^[0-9a-f]{8}-[0-9a-f]{4}-4[0-9a-f]{3}-[89ab][0-9a-f]{3}-[0-9a-f]{12}$/u
abbrev hexes : ℕ → List (ℕ → Bool) → List (ℕ → Bool)
hexes zero ps = ps
hexes (suc n) ps = is_hex ∷ hexes n ps

abbrev dash : List (ℕ → Bool) → List (ℕ → Bool)
dash ps = nat_eq b'-' ∷ ps

abbrev is_variant : ℕ → Bool
is_variant c = nat_eq c b'8' || nat_eq c b'9' || nat_eq c b'a' || nat_eq c b'b'

abbrev uuid_classes : List (ℕ → Bool)
uuid_classes = hexes 8 (
    dash
      (hexes 4 (dash (nat_eq b'4' ∷ hexes 3 (dash (is_variant ∷ hexes 3 (dash (hexes 12 []))))))))

unfoldable pub is_uuid_v4 : String → Bool
is_uuid_v4 s = matches_classes uuid_classes (codes s)

-- `safeId(value) ? value : …`: the text of a safe identifier.
abbrev pub safe_text : Value → Option String
safe_text (text s) = if is_safe_id s then some s else none
safe_text _ = none

abbrev pub as_text : Value → Option String
as_text (text s) = some s
as_text _ = none

-- `Number.isSafeInteger` at most 2^53 - 1.
abbrev pub max_safe_integer : ℕ
max_safe_integer = 2 ^ 53 - 1

-- `Number.isSafeInteger(value) && value >= least`, as the number.
abbrev pub safe_count : ℕ → Value → Option ℕ
safe_count least (number n) = if leb n max_safe_integer && leb least n then some n else none
safe_count least _ = none

-- `validTtl(value) ? value : …`.
abbrev pub valid_ttl : Value → Option ℕ
valid_ttl (number n) = if leb 1 n && leb n 3600 then some n else none
valid_ttl _ = none
