-- ===== src/ThreeDs/Access.antt =====
-- The counts of src/billing/observations.mjs over what an observation found: `isValidExpectedAccess`,
-- `expectedGrantCount` and `matchingSettlementCount`.
use billing_validation_contr.Common.{
  ℕ, suc, Bool, true, false, ◌&&◌, ◌||◌, not, String, str_eq, List, [], ◌∷◌, Option, none, some,
  nat_eq, leb, if◌then◌else◌, length, every, some_of, includes, codes, to_lower, map,
}
use billing_validation_contr.Js.{
  Value, text, array, object, get_property, is_safe_id, as_text, elements,
}

pub record Grant : Type 0 where
  pub id : String
  pub contract_id : String
  pub area : String
  pub status : String

-- `amount` is `none` of null.
pub record Settlement : Type 0 where
  pub contract_id : String
  pub invoice_id : String
  pub subscription_id : String
  pub customer_id : String
  pub amount : Option ℕ
  pub currency : String

pub record Access : Type 0 where
  pub contract_id : String
  pub areas : List String

abbrev starts : List ℕ → List ℕ → Bool
starts [] cs = true
starts (p ∷ ps) [] = false
starts (p ∷ ps) (c ∷ cs) = nat_eq p c && starts ps cs

abbrev holds : List ℕ → List ℕ → Bool
holds word [] = starts word []
holds word (c ∷ cs) = starts word (c ∷ cs) || holds word cs

abbrev has_word : String → String → Bool
has_word s word = holds (codes word) (map to_lower (codes s))

abbrev pub is_safe_token : String → Bool
is_safe_token s =
    is_safe_id s
    && not (some_of (has_word s) ("secret" ∷ "cookie" ∷ "token" ∷ "session_state" ∷ []))

-- `xs.filter(p)`.
unfoldable pub filter {ℓ} : {A : Type ℓ} → (A → Bool) → List A → List A
filter p [] = []
filter p (x ∷ xs) = let rest = filter p xs in if p x then x ∷ rest else rest

-- `new Set(xs).size`.
unfoldable pub set_size : List String → ℕ
set_size [] = 0
set_size (x ∷ xs) = let rest = set_size xs in if includes xs x then rest else suc rest

abbrev texts : List Value → Option (List String)
texts [] = some []
texts (text s ∷ vs) = elim (texts vs) [ none ↦ none | some ss ↦ some (s ∷ ss) ]
texts (_ ∷ vs) = none

abbrev is_valid_access : Access → Bool
is_valid_access a =
    is_safe_token a.contract_id
    && leb 1 (length a.areas)
    && every is_safe_token a.areas
    && nat_eq (set_size a.areas) (length a.areas)

abbrev checked : Access → Option Access
checked a = if is_valid_access a then some a else none

abbrev access_of : Option String → Value → Option Access
access_of (some contract) (array vs) = elim (texts (elements vs)) [
  | none ↦ none
  | some ss ↦ checked (record { contract_id = contract; areas = ss })
]
access_of _ _ = none

-- The access that is expected, if it is valid.
unfoldable pub valid_expected_access : Value → Option Access
valid_expected_access (object proto ps) =
    access_of (as_text (get_property "contractId" ps)) (get_property "areas" ps)
valid_expected_access _ = none

abbrev pub is_active : Grant → Bool
is_active g = str_eq g.status "active"

abbrev pub is_active_for : Access → Grant → Bool
is_active_for x g = str_eq g.contract_id x.contract_id && is_active g

abbrev pub area_of : Grant → String
area_of g = g.area

abbrev id_of : Grant → String
id_of g = g.id

-- `baselineActiveForContract.length` is 0, and the new grants of the contract are one for each area.
unfoldable pub are_new : List Grant → List Grant → Access → Bool
are_new baseline delta x =
    let added = filter (λ g. is_active_for x g && not (includes (map id_of baseline) g.id)) delta in
    nat_eq (length (filter (is_active_for x) baseline)) 0
    && nat_eq (length added) (length x.areas)
    && every (λ g. includes x.areas g.area) added
    && nat_eq (set_size (map area_of added)) (length x.areas)

-- The active grants are one for each area, all of the contract.
unfoldable pub are_exact : List Grant → Access → Bool
are_exact current x =
    let active = filter is_active current in
    nat_eq (set_size (map area_of active)) (length active)
    && nat_eq (length active) (length x.areas)
    && every (λ g. str_eq g.contract_id x.contract_id && includes x.areas g.area) active
    && every (λ area. some_of (λ g. str_eq g.area area) active) x.areas

unfoldable pub expected_grant_count : List Grant → List Grant → List Grant → Access → ℕ
expected_grant_count baseline current delta x =
    if are_new baseline delta x && are_exact current x then length x.areas else 0

abbrev same_text : Option String → String → Bool
same_text none s = false
same_text (some t) s = str_eq s t

abbrev same_amount : Option ℕ → Option ℕ → Bool
same_amount (some m) (some n) = nat_eq m n
same_amount none none = true
same_amount _ _ = false

-- `amount_paid` is `none` of null; the subscription is `none` where there is no text.
pub record Payment : Type 0 where
  pub invoice_id : String
  pub subscription_id : Option String
  pub amount_paid : Option ℕ

-- `settlementMatches`.
unfoldable pub settlement_matches : Payment → String → String → Settlement → Bool
settlement_matches p customer contract row =
    str_eq row.invoice_id p.invoice_id
    && same_text p.subscription_id row.subscription_id
    && str_eq row.customer_id customer
    && str_eq row.contract_id contract
    && same_amount row.amount p.amount_paid
    && str_eq row.currency "BRL"

unfoldable pub matching_settlement_count : List Settlement → Payment → String → String → ℕ
matching_settlement_count delta p customer contract =
    length (filter (settlement_matches p customer contract) delta)
