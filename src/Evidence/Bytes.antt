-- ===== src/Evidence/Bytes.antt =====
-- Reads from a `Buffer` in src/contracts/evidence.mjs: `assertRange`, `readUInt16LE`, `readUInt32LE`,
-- `subarray`, and the replies of a parser.
--
-- A buffer is the list of its bytes. A read past the end throws a `RangeError`, which is the fault
-- `out_of_range`; the fault `out_of_fuel` is none of the program's, but that of the model's loop.
use billing_validation_contr.Common.{
  ℕ, zero, suc, ◌+◌, ◌*◌, ◌^◌, Bool, true, false, ◌&&◌, List, [], ◌∷◌, leb, if◌then◌else◌, length,
}
use billing_validation_contr.Js.{max_safe_integer}

pub data Refusal : Type 0 where
  artifact_zip_invalid artifact_too_large artifact_path_forbidden : Refusal
  artifact_executable_or_special_file artifact_member_not_allowlisted : Refusal
  artifact_uncompressed_too_large artifact_digest_mismatch : Refusal

pub data Fault : Type 0 where
  out_of_range out_of_fuel : Fault

pub data Reply {ℓ} (A : Type ℓ) : Type ℓ where
  ok : A → Reply A
  refused : Refusal → Reply A
  fault : Fault → Reply A

infixl 5 ◌>>=◌ ◌>>◌
abbrev pub ◌>>=◌ {ℓ κ} : {A : Type ℓ} {B : Type κ} → Reply A → (A → Reply B) → Reply B
ok a >>= f = f a
refused c >>= f = refused c
fault e >>= f = fault e

abbrev pub ◌>>◌ {ℓ} : {B : Type ℓ} → Reply (Unit {0}) → Reply B → Reply B
m >> k = m >>= λ _. k

-- `if (!test) refuse(code)`.
unfoldable pub require : Bool → Refusal → Reply (Unit {0})
require true c = ok tt
require false c = refused c

-- `buffer[i]`, with 0 past the end, where no read of the code gets.
abbrev pub byte_at : List ℕ → ℕ → ℕ
byte_at [] i = 0
byte_at (b ∷ bs) zero = b
byte_at (b ∷ bs) (suc i) = byte_at bs i

unfoldable pub read_u16 : List ℕ → ℕ → Reply ℕ
read_u16 buffer i =
    if leb (i + 2) (length buffer)
    then ok (byte_at buffer i + 256 * byte_at buffer (i + 1))
    else fault out_of_range

unfoldable pub read_u32 : List ℕ → ℕ → Reply ℕ
read_u32 buffer i =
    if leb (i + 4) (length buffer)
    then ok (
        byte_at buffer i
        + 256 * byte_at buffer (i + 1)
        + 2 ^ 16 * byte_at buffer (i + 2)
        + 2 ^ 24 * byte_at buffer (i + 3))
    else fault out_of_range

abbrev pub drop : ℕ → List ℕ → List ℕ
drop zero bs = bs
drop (suc n) [] = []
drop (suc n) (b ∷ bs) = drop n bs

abbrev pub take : ℕ → List ℕ → List ℕ
take zero bs = []
take (suc n) [] = []
take (suc n) (b ∷ bs) = b ∷ take n bs

-- `buffer.subarray(start, start + count)`.
abbrev pub subarray : List ℕ → ℕ → ℕ → List ℕ
subarray buffer start count = take count (drop start buffer)

-- `assertRange`; a natural number is not negative.
unfoldable pub assert_range : ℕ → ℕ → ℕ → Reply (Unit {0})
assert_range offset count limit =
    require
      (leb offset max_safe_integer && leb count max_safe_integer && leb (offset + count) limit)
      artifact_zip_invalid
