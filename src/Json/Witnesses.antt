-- ===== src/Json/Witnesses.antt =====
-- A nested object with its keys in two orders.
use billing_validation_contr.Common.{ℕ, true, List, [], ◌∷◌, ◌++◌, ◌≡◌, refl, codes}
use billing_validation_contr.Js.{Value, text, number, object, Props, plain, end, field}
use billing_validation_contr.Json.Canonical.{canonical, canonical_object}
use billing_validation_contr.Json.Order.{insert, sort}
use billing_validation_contr.Json.Laws.{
  Same, same, properties, keep, no_fields, swap, trans, canonical-Same,
}

abbrev inner : Props
inner = field "origin" true (text "o") (field "id" true (text "i") end)

abbrev inner_swapped : Props
inner_swapped = field "id" true (text "i") (field "origin" true (text "o") end)

abbrev left : Value
left =
    object plain (field "stripe" true (number 1) (field "deployment" true (object plain inner) end))

abbrev right : Value
right =
    object plain
      (field "deployment" true (object plain inner_swapped) (field "stripe" true (number 1) end))

left-Same-right : Same left right
left-Same-right =
    properties (trans (keep same (keep (properties (swap (λ e. cc))) no_fields)) (swap (λ e. cc)))

-- `JSON.stringify` of a text without escapes, between quotes.
abbrev stringify : Value → List ℕ
stringify (text s) = b'"' ∷ (codes s ++ (b'"' ∷ []))
stringify _ = codes "1"

canonical-Same_example : canonical stringify left ≡ canonical stringify right
canonical-Same_example = canonical-Same stringify left-Same-right

canonical_runs :
    canonical stringify left ≡ codes "{\"deployment\":{\"id\":\"i\",\"origin\":\"o\"},\"stripe\":1}"
unfolding canonical canonical_object sort insert
canonical_runs = refl
