-- ===== src/Evidence/Archive/Locals.antt =====
-- The second loop of `parseDirectory` in src/contracts/evidence.mjs, over the local headers, with
-- the test that no two members overlap, and `parseDirectory` itself.
use Prim.Native.Nat.{bit_and}
use billing_validation_contr.Common.{
  ℕ, ◌+◌, Bool, true, false, ◌&&◌, ◌||◌, not, List, [], ◌∷◌, leb, ltb, nat_eq, if◌then◌else◌,
  length, same_codes,
}
use billing_validation_contr.Evidence.Bytes.{
  Reply, ok, ◌>>=◌, ◌>>◌, require, read_u16, read_u32, assert_range, subarray, artifact_zip_invalid,
  artifact_too_large,
}
use billing_validation_contr.Evidence.Archive.Names.{read_name}
use billing_validation_contr.Evidence.Archive.Directory.{
  reject_zip64, archive_bytes, find_end_record, read_end_record, is_end_valid,
}
use billing_validation_contr.Evidence.Archive.Entries.{Entry, read_entries}

abbrev zip_local : ℕ
zip_local = 0x04034b50

abbrev zip_descriptor : ℕ
zip_descriptor = 0x08074b50

pub record Local : Type 0 where
  pub flags : ℕ
  pub method : ℕ
  pub checksum : ℕ
  pub compressed_size : ℕ
  pub uncompressed_size : ℕ
  pub name_length : ℕ
  pub extra_length : ℕ

unfoldable pub read_local : List ℕ → ℕ → Reply Local
read_local archive offset = do
  flags ← read_u16 archive (offset + 6)
  method ← read_u16 archive (offset + 8)
  checksum ← read_u32 archive (offset + 14)
  compressed_size ← read_u32 archive (offset + 18)
  uncompressed_size ← read_u32 archive (offset + 22)
  name_length ← read_u16 archive (offset + 26)
  extra_length ← read_u16 archive (offset + 28)
  ok (record {
    flags = flags;
    method = method;
    checksum = checksum;
    compressed_size = compressed_size;
    uncompressed_size = uncompressed_size;
    name_length = name_length;
    extra_length = extra_length;
  })

-- `(flags & 0x0008) !== 0`: the sizes follow the data.
abbrev has_descriptor : ℕ → Bool
has_descriptor flags = not (nat_eq (bit_and flags 8) 0)

unfoldable pub is_local_of : Entry → Local → List ℕ → Bool
is_local_of entry h name =
    same_codes name entry.name
    && nat_eq h.flags entry.flags
    && nat_eq h.method entry.method
    && (has_descriptor h.flags
        || (nat_eq h.checksum entry.checksum
            && nat_eq h.compressed_size entry.compressed_size
            && nat_eq h.uncompressed_size entry.uncompressed_size))

-- Where the sizes behind the data start: an optional signature comes before them.
unfoldable pub descriptor_at : List ℕ → ℕ → ℕ → Reply ℕ
descriptor_at archive data_end limit = elim (leb (data_end + 4) limit) [
  | false ↦ ok data_end
  | true ↦ read_u32 archive data_end >>= λ signature.
      ok (if nat_eq signature zip_descriptor then data_end + 4 else data_end)
]

unfoldable pub read_descriptor : List ℕ → Entry → ℕ → ℕ → Reply ℕ
read_descriptor archive entry data_end limit = do
  offset ← descriptor_at archive data_end limit
  assert_range offset 12 limit
  checksum ← read_u32 archive offset
  compressed_size ← read_u32 archive (offset + 4)
  uncompressed_size ← read_u32 archive (offset + 8)
  require
      (nat_eq checksum entry.checksum
        && nat_eq compressed_size entry.compressed_size
        && nat_eq uncompressed_size entry.uncompressed_size)
      artifact_zip_invalid
  ok (offset + 12)

unfoldable pub record_end_of : List ℕ → Entry → ℕ → ℕ → ℕ → Reply ℕ
record_end_of archive entry flags data_end limit = elim (has_descriptor flags) [
  | true ↦ read_descriptor archive entry data_end limit
  | false ↦ ok data_end
]

-- An entry with its `dataOffset`, and the end of its record, which the code keeps in `occupied`.
pub record Member : Type 0 where
  pub entry : Entry
  pub data_offset : ℕ
  pub record_end : ℕ

unfoldable pub locate : List ℕ → ℕ → Entry → Reply Member
locate archive limit entry = do
  assert_range entry.local_offset 30 limit
  signature ← read_u32 archive entry.local_offset
  require (nat_eq signature zip_local) artifact_zip_invalid
  h ← read_local archive entry.local_offset
  assert_range (entry.local_offset + 30) (h.name_length + h.extra_length) limit
  name ← read_name (subarray archive (entry.local_offset + 30) h.name_length)
  reject_zip64 archive (entry.local_offset + 30 + h.name_length) h.extra_length
  require (is_local_of entry h name) artifact_zip_invalid
  let header_end = entry.local_offset + 30 + h.name_length + h.extra_length
  assert_range header_end entry.compressed_size limit
  record_end ← record_end_of archive entry h.flags (header_end + entry.compressed_size) limit
  ok (record { entry = entry; data_offset = header_end; record_end = record_end })

unfoldable pub locate_all : List ℕ → ℕ → List Entry → Reply (List Member)
locate_all archive limit [] = ok []
locate_all archive limit (e ∷ es) = do
  member ← locate archive limit e
  members ← locate_all archive limit es
  ok (member ∷ members)

-- `occupied.sort((left, right) => left[0] - right[0])`, which is stable.
unfoldable pub insert : Member → List Member → List Member
insert m [] = m ∷ []
insert m (n ∷ ns) =
    if leb m.entry.local_offset n.entry.local_offset then m ∷ n ∷ ns else n ∷ insert m ns

unfoldable pub sort : List Member → List Member
sort [] = []
sort (m ∷ ms) = insert m (sort ms)

-- No member starts before the end of its neighbour.
unfoldable pub is_apart : List Member → Bool
is_apart [] = true
is_apart (m ∷ []) = true
is_apart (m ∷ n ∷ ns) = not (ltb n.entry.local_offset m.record_end) && is_apart (n ∷ ns)

unfoldable pub parse_directory : List ℕ → Reply (List Member)
parse_directory archive = do
  require (leb 22 (length archive)) artifact_zip_invalid
  require (leb (length archive) archive_bytes) artifact_too_large
  eocd ← find_end_record archive
  r ← read_end_record archive eocd
  require (is_end_valid eocd r) artifact_zip_invalid
  (entries, last) ←
      read_entries r.entry_count archive eocd (record { cursor = r.central_offset; declared = 0 })
  require (nat_eq last.cursor eocd) artifact_zip_invalid
  members ← locate_all archive r.central_offset entries
  require (is_apart (sort members)) artifact_zip_invalid
  ok members
