-- ===== src/Evidence/Archive/Decode.antt =====
-- `crc32` and `decodeEntry` of src/contracts/evidence.mjs.
use Prim.Native.Nat.{bit_xor}
use billing_validation_contr.Common.{
  ℕ, zero, suc, ◌/◌, ◌%◌, ◌&&◌, List, [], ◌∷◌, Option, none, some, nat_eq, if◌then◌else◌, length,
}
use billing_validation_contr.Evidence.Bytes.{
  Reply, ok, refused, ◌>>=◌, ◌>>◌, require, subarray, artifact_zip_invalid,
}
use billing_validation_contr.Evidence.Archive.Directory.{evidence_json_bytes}
use billing_validation_contr.Evidence.Archive.Locals.{Member}

-- One bit: `(crc & 1) ? (0xedb88320 ^ (crc >>> 1)) : (crc >>> 1)`.
abbrev crc_bit : ℕ → ℕ
crc_bit crc = if nat_eq (crc % 2) 1 then bit_xor 0xedb88320 (crc / 2) else crc / 2

abbrev crc_bits : ℕ → ℕ → ℕ
crc_bits zero crc = crc
crc_bits (suc n) crc = crc_bits n (crc_bit crc)

abbrev crc_bytes : List ℕ → ℕ → ℕ
crc_bytes [] crc = crc
crc_bytes (b ∷ bs) crc = crc_bytes bs (crc_bits 8 (bit_xor crc b))

-- No value leaves the 32 bits, so `>>> 0` changes nothing.
unfoldable pub crc32 : List ℕ → ℕ
crc32 bytes = bit_xor (crc_bytes bytes 0xffffffff) 0xffffffff

-- `inflate` is `inflateRawSync` with its `maxOutputLength`; `none` where it throws.
unfoldable pub contents_of : (ℕ → List ℕ → Option (List ℕ)) → ℕ → List ℕ → Option (List ℕ)
contents_of inflate zero compressed = some compressed
contents_of inflate (suc m) compressed = inflate evidence_json_bytes compressed

abbrev pub inflated : Option (List ℕ) → Reply (List ℕ)
inflated none = refused artifact_zip_invalid
inflated (some contents) = ok contents

unfoldable pub decode_entry : (ℕ → List ℕ → Option (List ℕ)) → List ℕ → Member → Reply (List ℕ)
decode_entry inflate archive m = do
  contents ←
      inflated (
        contents_of inflate m.entry.method (subarray archive m.data_offset m.entry.compressed_size))
  require
      (nat_eq (length contents) m.entry.uncompressed_size
        && nat_eq (crc32 contents) m.entry.checksum)
      artifact_zip_invalid
  ok contents
