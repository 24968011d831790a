-- ===== src/Evidence/Archive/Sound/Headers.antt =====
-- The reads of the headers and names of archive members in src/contracts/evidence.mjs stay inside
-- the buffer.
use billing_validation_contr.Common.{ℕ, ◌+◌, ◌≤◌, List, arith, length, leb, Option, none, some}
use billing_validation_contr.Evidence.Utf8.{decode_utf8}
use billing_validation_contr.Evidence.Ends.{
  Ends, returns, stops, Any, Ends-bind, Ends-require, Ends-elim, Ends-assert_range, Ends-read_u16,
  Ends-read_u32,
}
use billing_validation_contr.Evidence.Archive.Names.{read_name, decoded}
use billing_validation_contr.Evidence.Archive.Entries.{Entry, read_central}
use billing_validation_contr.Evidence.Archive.Locals.{
  read_local, descriptor_at, read_descriptor, record_end_of,
}

decoded-Ends : (o : Option (List ℕ)) → Ends Any (decoded o)
decoded-Ends none = stops
decoded-Ends (some name) = returns tt

pub read_name-Ends : (bytes : List ℕ) → Ends Any (read_name bytes)
unfolding read_name
read_name-Ends bytes =
    Ends-bind _ _ Any (decoded-Ends (decode_utf8 bytes))
      λ name _ _. Ends-require _ _ _ λ _. returns tt

module _ (buffer : List ℕ) where
  pub read_central-Ends :
      (cursor : ℕ) → cursor + 46 ≤ length buffer → Ends Any (read_central buffer cursor)
  unfolding read_central
  read_central-Ends cursor h = Ends-read_u16 buffer (cursor + 4) _ (omega arith) λ _.
      Ends-read_u16 buffer (cursor + 8) _ (omega arith) λ _.
        Ends-read_u16 buffer (cursor + 10) _ (omega arith) λ _.
          Ends-read_u32 buffer (cursor + 16) _ (omega arith) λ _.
            Ends-read_u32 buffer (cursor + 20) _ (omega arith) λ _.
              Ends-read_u32 buffer (cursor + 24) _ (omega arith) λ _.
                Ends-read_u16 buffer (cursor + 28) _ (omega arith) λ _.
                  Ends-read_u16 buffer (cursor + 30) _ (omega arith) λ _.
                    Ends-read_u16 buffer (cursor + 32) _ (omega arith) λ _.
                      Ends-read_u16 buffer (cursor + 34) _ (omega arith) λ _.
                        Ends-read_u32 buffer (cursor + 38) _ (omega arith)
                          λ _. Ends-read_u32 buffer (cursor + 42) _ (omega arith) λ _. returns tt

  pub read_local-Ends :
      (offset : ℕ) → offset + 30 ≤ length buffer → Ends Any (read_local buffer offset)
  unfolding read_local
  read_local-Ends offset h = Ends-read_u16 buffer (offset + 6) _ (omega arith) λ _.
      Ends-read_u16 buffer (offset + 8) _ (omega arith) λ _.
        Ends-read_u32 buffer (offset + 14) _ (omega arith) λ _.
          Ends-read_u32 buffer (offset + 18) _ (omega arith) λ _.
            Ends-read_u32 buffer (offset + 22) _ (omega arith) λ _.
              Ends-read_u16 buffer (offset + 26) _ (omega arith)
                λ _. Ends-read_u16 buffer (offset + 28) _ (omega arith) λ _. returns tt

  descriptor_at-Ends :
      (data_end limit : ℕ)
      → limit ≤ length buffer
      → Ends (λ at. data_end ≤ at) (descriptor_at buffer data_end limit)
  unfolding descriptor_at
  descriptor_at-Ends data_end limit h =
      Ends-elim (leb (data_end + 4) limit) _ _
        (λ fits. Ends-read_u32 buffer data_end _ (ground arith) λ signature. returns (ground arith))
        λ _. returns (omega arith)

  read_descriptor-Ends :
      (entry : Entry) (data_end limit : ℕ)
      → limit ≤ length buffer
      → Ends (λ end. (data_end ≤ end) × (end ≤ limit)) (read_descriptor buffer entry data_end limit)
  unfolding read_descriptor
  read_descriptor-Ends entry data_end limit h =
      Ends-bind _ _ _ (descriptor_at-Ends data_end limit h) λ at _ after.
        Ends-assert_range at 12 limit _ λ inside. Ends-read_u32 buffer at _ (omega arith) λ _.
          Ends-read_u32 buffer (at + 4) _ (omega arith) λ _.
            Ends-read_u32 buffer (at + 8) _ (omega arith)
              λ _. Ends-require _ _ _ λ _. returns {a = at + 12} (omega arith, omega arith)

  pub record_end_of-Ends :
      (entry : Entry) (flags data_end limit : ℕ)
      → limit ≤ length buffer
      → data_end ≤ limit
      → Ends
          (λ end. (data_end ≤ end) × (end ≤ limit))
          (record_end_of buffer entry flags data_end limit)
  unfolding record_end_of
  record_end_of-Ends entry flags data_end limit h inside =
      Ends-elim _ _ _ (λ _. read_descriptor-Ends entry data_end limit h)
        λ _. returns {a = data_end} (omega arith, inside)
