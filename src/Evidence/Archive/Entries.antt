-- ===== src/Evidence/Archive/Entries.antt =====
-- The first loop of `parseDirectory` in src/contracts/evidence.mjs: the entries of the central
-- directory.
use Prim.Native.Nat.{bit_and}
use billing_validation_contr.Common.{
  ℕ, zero, suc, ◌+◌, ◌/◌, ◌^◌, Bool, ◌&&◌, ◌||◌, not, List, [], ◌∷◌, leb, nat_eq, if◌then◌else◌,
}
use billing_validation_contr.Evidence.Bytes.{
  Reply, ok, ◌>>=◌, ◌>>◌, require, read_u16, read_u32, assert_range, subarray, artifact_zip_invalid,
  artifact_executable_or_special_file, artifact_member_not_allowlisted,
  artifact_uncompressed_too_large,
}
use billing_validation_contr.Evidence.Archive.Names.{read_name, is_directory, is_executable}
use billing_validation_contr.Evidence.Archive.Directory.{
  reject_zip64, zip_central, u32_max, total_uncompressed_bytes, evidence_json_bytes,
}

-- The fields that the loop reads; `made_by` is the upper byte of its word.
pub record Central : Type 0 where
  pub made_by : ℕ
  pub flags : ℕ
  pub method : ℕ
  pub checksum : ℕ
  pub compressed_size : ℕ
  pub uncompressed_size : ℕ
  pub name_length : ℕ
  pub extra_length : ℕ
  pub comment_length : ℕ
  pub start_disk : ℕ
  pub external_attributes : ℕ
  pub local_offset : ℕ

unfoldable pub read_central : List ℕ → ℕ → Reply Central
read_central archive cursor = do
  version ← read_u16 archive (cursor + 4)
  flags ← read_u16 archive (cursor + 8)
  method ← read_u16 archive (cursor + 10)
  checksum ← read_u32 archive (cursor + 16)
  compressed_size ← read_u32 archive (cursor + 20)
  uncompressed_size ← read_u32 archive (cursor + 24)
  name_length ← read_u16 archive (cursor + 28)
  extra_length ← read_u16 archive (cursor + 30)
  comment_length ← read_u16 archive (cursor + 32)
  start_disk ← read_u16 archive (cursor + 34)
  external_attributes ← read_u32 archive (cursor + 38)
  local_offset ← read_u32 archive (cursor + 42)
  ok (record {
    made_by = version / 2 ^ 8;
    flags = flags;
    method = method;
    checksum = checksum;
    compressed_size = compressed_size;
    uncompressed_size = uncompressed_size;
    name_length = name_length;
    extra_length = extra_length;
    comment_length = comment_length;
    start_disk = start_disk;
    external_attributes = external_attributes;
    local_offset = local_offset;
  })

-- `~(0x0008 | 0x0800)` on 32 bits.
abbrev unknown_flags : ℕ
unknown_flags = 0xfffff7f7

unfoldable pub is_central_valid : Central → Bool
is_central_valid h =
    nat_eq h.start_disk 0
    && not (nat_eq h.compressed_size u32_max)
    && not (nat_eq h.uncompressed_size u32_max)
    && not (nat_eq h.local_offset u32_max)
    && nat_eq (bit_and h.flags unknown_flags) 0
    && nat_eq (bit_and h.flags 1) 0
    && (nat_eq h.method 0 || nat_eq h.method 8)

abbrev unix_mode : Central → ℕ
unix_mode h = if nat_eq h.made_by 3 then bit_and (h.external_attributes / 2 ^ 16) 0xffff else 0

-- A file type that is none or a regular file's (0o100000 of 0o170000), and no bit of 0o111.
unfoldable pub is_regular : Central → Bool
is_regular h = is_type (bit_and (unix_mode h) 0xf000) && nat_eq (bit_and (unix_mode h) 0x49) 0
  where
    is_type : ℕ → Bool
    is_type t = nat_eq t 0 || nat_eq t 0x8000

pub record Entry : Type 0 where
  pub name : List ℕ
  pub flags : ℕ
  pub method : ℕ
  pub checksum : ℕ
  pub compressed_size : ℕ
  pub uncompressed_size : ℕ
  pub local_offset : ℕ

-- `cursor` and `declaredTotal` behind an entry.
pub record Position : Type 0 where
  pub cursor : ℕ
  pub declared : ℕ

abbrev entry_of : Central → List ℕ → Entry
entry_of h name = record {
  name = name;
  flags = h.flags;
  method = h.method;
  checksum = h.checksum;
  compressed_size = h.compressed_size;
  uncompressed_size = h.uncompressed_size;
  local_offset = h.local_offset;
}

abbrev pub variable_length : Central → ℕ
variable_length h = h.name_length + h.extra_length + h.comment_length

unfoldable pub check_sizes : ℕ → Central → Reply (Unit {0})
check_sizes declared h =
    require (leb declared total_uncompressed_bytes && leb h.uncompressed_size evidence_json_bytes)
      artifact_uncompressed_too_large

unfoldable pub read_entry : List ℕ → ℕ → Position → Reply (Entry × Position)
read_entry archive eocd at = do
  assert_range at.cursor 46 eocd
  signature ← read_u32 archive at.cursor
  require (nat_eq signature zip_central) artifact_zip_invalid
  h ← read_central archive at.cursor
  assert_range (at.cursor + 46) (variable_length h) eocd
  require (is_central_valid h) artifact_zip_invalid
  name ← read_name (subarray archive (at.cursor + 46) h.name_length)
  reject_zip64 archive (at.cursor + 46 + h.name_length) h.extra_length
  require (is_regular h && not (is_executable name)) artifact_executable_or_special_file
  require (not (is_directory name)) artifact_member_not_allowlisted
  check_sizes (at.declared + h.uncompressed_size) h
  ok (
    entry_of h name,
    record {
      cursor = at.cursor + 46 + variable_length h;
      declared = at.declared + h.uncompressed_size;
    },
  )

unfoldable pub read_entries : ℕ → List ℕ → ℕ → Position → Reply (List Entry × Position)
read_entries zero archive eocd at = ok ([], at)
read_entries (suc count) archive eocd at = do
  (entry, next) ← read_entry archive eocd at
  (entries, last) ← read_entries count archive eocd next
  ok (entry ∷ entries, last)
