-- ===== src/Evidence/Utf8.antt =====
-- `new TextDecoder('utf-8', { fatal: true }).decode(bytes)`, which src/contracts/evidence.mjs uses
-- for names: the code points, or `none` where it throws. A byte order mark at the start is dropped.
use billing_validation_contr.Common.{
  ℕ, zero, suc, ◌+◌, ◌-◌, ◌*◌, true, false, ◌&&◌, List, [], ◌∷◌, Option, none, some, leb, ltb,
  nat_eq, if◌then◌else◌,
}

-- How many bytes follow, the bits so far and the range of the next byte.
record Pending : Type 0 where
  more : ℕ
  bits : ℕ
  lower : ℕ
  upper : ℕ

abbrev ready : Pending
ready = record { more = 0; bits = 0; lower = 0x80; upper = 0xbf }

abbrev lead : ℕ → Option Pending
lead b =
    if leb 0xc2 b && leb b 0xdf
    then some (record ready { more = 1; bits = b - 0xc0 })
    else if leb 0xe0 b && leb b 0xef
    then some (record {
      more = 2;
      bits = b - 0xe0;
      lower = if nat_eq b 0xe0 then 0xa0 else 0x80;
      upper = if nat_eq b 0xed then 0x9f else 0xbf;
    })
    else if leb 0xf0 b && leb b 0xf4
    then some (record {
      more = 3;
      bits = b - 0xf0;
      lower = if nat_eq b 0xf0 then 0x90 else 0x80;
      upper = if nat_eq b 0xf4 then 0x8f else 0xbf;
    })
    else none

abbrev with_point : ℕ → Option (List ℕ) → Option (List ℕ)
with_point c none = none
with_point c (some cs) = some (c ∷ cs)

abbrev decode_from : ℕ → ℕ → ℕ → ℕ → List ℕ → Option (List ℕ)
decode_from zero bits lower upper [] = some []
decode_from (suc n) bits lower upper [] = none
decode_from zero bits lower upper (b ∷ bs) = elim (ltb b 0x80) [
  | true ↦ with_point b (decode_from 0 0 0x80 0xbf bs)
  | false ↦ elim (lead b) [ none ↦ none | some p ↦ decode_from p.more p.bits p.lower p.upper bs ]
]
decode_from (suc n) bits lower upper (b ∷ bs) = elim (leb lower b && leb b upper) [
  | false ↦ none
  | true ↦ elim n [
    | zero ↦ with_point (bits * 64 + (b - 0x80)) (decode_from 0 0 0x80 0xbf bs)
    | suc k ↦ decode_from (suc k) (bits * 64 + (b - 0x80)) 0x80 0xbf bs
  ]
]

abbrev without_mark : List ℕ → List ℕ
without_mark [] = []
without_mark (c ∷ cs) = if nat_eq c 0xfeff then cs else c ∷ cs

unfoldable pub decode_utf8 : List ℕ → Option (List ℕ)
decode_utf8 bytes = elim (decode_from 0 0 0x80 0xbf bytes) [
  | none ↦ none
  | some cs ↦ some (without_mark cs)
]
