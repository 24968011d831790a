-- ===== src/Json/Order.antt =====
-- The order of JavaScript on texts, and `Array.prototype.sort` on the keys of an object.
use billing_validation_contr.Common.{
  ℕ, ◌+◌, ◌-◌, ◌/◌, ◌%◌, Bool, true, false, ◌&&◌, ◌||◌, String, List, [], ◌∷◌, ltb, nat_eq,
  if◌then◌else◌, codes,
}

-- The UTF-16 code units of a text given by its code points.
abbrev pub units : List ℕ → List ℕ
units [] = []
units (c ∷ cs) =
    if ltb c 0x1_0000
    then c ∷ units cs
    else (0xd800 + (c - 0x1_0000) / 0x400) ∷ (0xdc00 + (c - 0x1_0000) % 0x400) ∷ units cs

-- `a < b` on code units.
abbrev pub below : List ℕ → List ℕ → Bool
below [] [] = false
below [] (d ∷ ds) = true
below (c ∷ cs) [] = false
below (c ∷ cs) (d ∷ ds) = ltb c d || (nat_eq c d && below cs ds)

abbrev pub is_below : String → String → Bool
is_below a b = below (units (codes a)) (units (codes b))

-- A key with what it is given.
pub record Pair : Type 0 where
  pub key : String
  pub item : List ℕ

unfoldable pub insert : Pair → List Pair → List Pair
insert p [] = p ∷ []
insert p (q ∷ qs) = if is_below q.key p.key then q ∷ insert p qs else p ∷ q ∷ qs

unfoldable pub sort : List Pair → List Pair
sort [] = []
sort (p ∷ ps) = insert p (sort ps)
