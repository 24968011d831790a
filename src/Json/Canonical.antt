-- ===== src/Json/Canonical.antt =====
-- `canonicalJson` of src/contracts/evidence.mjs and `canonical` of src/billing/contracts.mjs. A text
-- is the list of its code points.
use billing_validation_contr.Common.{ℕ, List, [], ◌∷◌, ◌++◌, if◌then◌else◌}
use billing_validation_contr.Js.{
  Value, text, array, object, Values, nil, cons, Props, end, field, accessor, symbol,
}
use billing_validation_contr.Json.Order.{Pair, sort}

-- `items.join(',')`.
abbrev join : List (List ℕ) → List ℕ
join [] = []
join (s ∷ []) = s
join (s ∷ t ∷ ts) = s ++ (b',' ∷ join (t ∷ ts))

-- `stringify` is `JSON.stringify` of a value that is no object.
module _ (stringify : Value → List ℕ) where
  abbrev members : List Pair → List (List ℕ)
  members [] = []
  members (p ∷ ps) = (stringify (text p.key) ++ (b':' ∷ p.item)) ∷ members ps

  unfoldable pub canonical_object : List Pair → List ℕ
  canonical_object ps = b'{' ∷ (join (members (sort ps)) ++ (b'}' ∷ []))

  unfoldable mutual
    pub canonical : Value → List ℕ
    canonical (array vs) = b'[' ∷ (join (canonical_items vs) ++ (b']' ∷ []))
    canonical (object proto ps) = canonical_object (canonical_fields ps)
    canonical v = stringify v

    pub canonical_items : Values → List (List ℕ)
    canonical_items nil = []
    canonical_items (cons v vs) = canonical v ∷ canonical_items vs

    pub canonical_fields : Props → List Pair
    canonical_fields end = []
    canonical_fields (field k e v ps) =
        let p : Pair = record { key = k; item = canonical v } in
        let rest = canonical_fields ps in if e then p ∷ rest else rest
    canonical_fields (accessor k e v ps) =
        let p : Pair = record { key = k; item = canonical v } in
        let rest = canonical_fields ps in if e then p ∷ rest else rest
    canonical_fields (symbol ps) = canonical_fields ps
