-- ===== src/Evidence/Archive/Directory.antt =====
-- `rejectZip64`, `findEndRecord` and the first loop of `parseDirectory` in src/contracts/evidence.mjs:
-- the central directory of a ZIP archive.
use billing_validation_contr.Common.{
  ℕ, zero, suc, ◌+◌, ◌-◌, ◌*◌, Bool, true, false, ◌&&◌, not, List, leb, ltb, nat_eq, length,
}
use billing_validation_contr.Evidence.Bytes.{
  Reply, ok, refused, fault, out_of_fuel, ◌>>=◌, ◌>>◌, require, read_u16, read_u32, assert_range,
  artifact_zip_invalid,
}

-- `EVIDENCE_ARCHIVE_LIMITS`.
abbrev pub archive_bytes : ℕ
archive_bytes = 8 * 1024 * 1024

abbrev pub total_uncompressed_bytes : ℕ
total_uncompressed_bytes = 4 * 1024 * 1024

abbrev pub evidence_json_bytes : ℕ
evidence_json_bytes = 1024 * 1024

abbrev pub file_count : ℕ
file_count = 32

abbrev pub zip_eocd : ℕ
zip_eocd = 0x06054b50

abbrev pub zip_central : ℕ
zip_central = 0x02014b50

abbrev pub u32_max : ℕ
u32_max = 0xffffffff

-- One round of the loop of `rejectZip64`: where the next field starts.
unfoldable pub extra_field : List ℕ → ℕ → ℕ → Reply ℕ
extra_field extra cursor end = do
  assert_range cursor 4 end
  id ← read_u16 extra cursor
  size ← read_u16 extra (cursor + 2)
  assert_range (cursor + 4) size end
  require (not (nat_eq id 1)) artifact_zip_invalid
  ok (cursor + 4 + size)

unfoldable pub extra_fields : ℕ → List ℕ → ℕ → ℕ → Reply (Unit {0})
extra_fields zero extra cursor end = fault out_of_fuel
extra_fields (suc fuel) extra cursor end = elim (ltb cursor end) [
  | true ↦ extra_field extra cursor end >>= λ next. extra_fields fuel extra next end
  | false ↦ require (nat_eq cursor end) artifact_zip_invalid
]

unfoldable pub reject_zip64 : List ℕ → ℕ → ℕ → Reply (Unit {0})
reject_zip64 extra offset count = extra_fields (suc count) extra offset (offset + count)

-- Whether the end record stands at `offset`.
unfoldable pub is_end_record : List ℕ → ℕ → Reply Bool
is_end_record archive offset = do
  signature ← read_u32 archive offset
  elim (nat_eq signature zip_eocd) [
    | false ↦ ok false
    | true ↦ read_u16 archive (offset + 20) >>= λ comment_length.
        ok (nat_eq (offset + 22 + comment_length) (length archive))
  ]

-- The loop of `findEndRecord` over the offsets from `least + rounds - 1` down to `least`.
unfoldable pub end_record_from : ℕ → ℕ → List ℕ → Reply ℕ
end_record_from zero least archive = refused artifact_zip_invalid
end_record_from (suc rounds) least archive = is_end_record archive (least + rounds) >>= λ found.
    elim found [ true ↦ ok (least + rounds) | false ↦ end_record_from rounds least archive ]

-- `Math.max(0, archive.length - 22 - 0xffff)`: `-` stops at 0.
abbrev pub min_offset : List ℕ → ℕ
min_offset archive = length archive - 22 - 0xffff

unfoldable pub find_end_record : List ℕ → Reply ℕ
find_end_record archive =
    end_record_from (suc (length archive - 22 - min_offset archive)) (min_offset archive) archive

pub record EndRecord : Type 0 where
  pub disk : ℕ
  pub central_disk : ℕ
  pub disk_count : ℕ
  pub entry_count : ℕ
  pub central_size : ℕ
  pub central_offset : ℕ

unfoldable pub read_end_record : List ℕ → ℕ → Reply EndRecord
read_end_record archive eocd = do
  disk ← read_u16 archive (eocd + 4)
  central_disk ← read_u16 archive (eocd + 6)
  disk_count ← read_u16 archive (eocd + 8)
  entry_count ← read_u16 archive (eocd + 10)
  central_size ← read_u32 archive (eocd + 12)
  central_offset ← read_u32 archive (eocd + 16)
  ok (record {
    disk = disk;
    central_disk = central_disk;
    disk_count = disk_count;
    entry_count = entry_count;
    central_size = central_size;
    central_offset = central_offset;
  })

unfoldable pub is_end_valid : ℕ → EndRecord → Bool
is_end_valid eocd r =
    nat_eq r.disk 0
    && nat_eq r.central_disk 0
    && nat_eq r.disk_count r.entry_count
    && not (nat_eq r.entry_count 0)
    && not (nat_eq r.entry_count 0xffff)
    && not (nat_eq r.central_size u32_max)
    && not (nat_eq r.central_offset u32_max)
    && leb r.entry_count file_count
    && nat_eq (r.central_offset + r.central_size) eocd
