-- ===== src/Evidence/Archive/Sound/Members.antt =====
-- What `parseDirectory` of src/contracts/evidence.mjs returns, for every buffer.
use billing_validation_contr.Common.{
  ℕ, ◌+◌, ◌≤◌, ◌≡◌, ◌≢◌, leb, ap, refl, true, List, [], ◌∷◌, map, arith, length,
}
use billing_validation_contr.Evidence.Bytes.{ok, fault, Fault}
use billing_validation_contr.Evidence.Ends.{
  Ends, returns, Ends-ne_fault, Ends-ok, Ends-bind, Ends-require, Ends-assert_range, Ends-read_u32,
}
use billing_validation_contr.Evidence.Archive.Directory.{
  total_uncompressed_bytes, is_end_valid, EndRecord, file_count,
}
use billing_validation_contr.Evidence.Archive.Entries.{Entry}
use billing_validation_contr.Evidence.Archive.Locals.{Member, locate, locate_all, parse_directory}
use billing_validation_contr.Evidence.Archive.Sound.Reads.{
  reject_zip64-Ends, find_end_record-Ends, read_end_record-Ends,
}
use billing_validation_contr.Evidence.Archive.Sound.Headers.{
  read_local-Ends, read_name-Ends, record_end_of-Ends,
}
use billing_validation_contr.Evidence.Archive.Sound.Entries.{sizes, AreSmall, read_entries-Ends}
use billing_validation_contr.Evidence.Archive.Sound.Apart.{
  start, All, Disjoint, IsForward, is_apart-sort,
}

-- The data stand inside the record, and the record before `limit`.
abbrev pub IsPlaced : ℕ → Member → Type 0
IsPlaced limit m =
    (start m + 30 ≤ m.data_offset)
    × (m.data_offset + m.entry.compressed_size ≤ m.record_end)
    × (m.record_end ≤ limit)

abbrev pub entries_of : List Member → List Entry
entries_of = map (λ m. m.entry)

module _ (buffer : List ℕ) (limit : ℕ) (inside : limit ≤ length buffer) where
  locate-Ends : (e : Entry) → Ends (λ m. (m.entry ≡ e) × IsPlaced limit m) (locate buffer limit e)
  unfolding locate
  locate-Ends e = Ends-assert_range e.local_offset 30 limit _ λ fixed.
      Ends-read_u32 buffer e.local_offset _ (omega arith) λ _. Ends-require _ _ _ λ _.
        Ends-bind _ _ _ (read_local-Ends buffer e.local_offset (omega arith)) λ h _ _.
          Ends-assert_range (e.local_offset + 30) (h.name_length + h.extra_length) limit _ λ v.
            Ends-bind _ _ _ (read_name-Ends _) λ name _ _.
              Ends-bind _ _ _ (reject_zip64-Ends buffer _ _ (omega arith)) λ _ _ _.
                Ends-require _ _ _ λ _. Ends-assert_range _ e.compressed_size limit _ λ content.
                  Ends-bind _ _ _ (record_end_of-Ends buffer e h.flags _ limit inside content)
                    λ end _ q. returns (refl, (omega arith, q.0, q.1))

  locate_all-Ends :
      (es : List Entry)
      → Ends (λ ms. (entries_of ms ≡ es) × All (IsPlaced limit) ms) (locate_all buffer limit es)
  unfolding locate_all
  locate_all-Ends [] = returns (refl, tt)
  locate_all-Ends (e ∷ es) =
      Ends-bind _ _ _ (locate-Ends e)
        λ m _ p. Ends-bind _ _ _ (locate_all-Ends es) λ ms _ ps. returns (cc, (p.1, ps.1))

IsForward-placed : (limit : ℕ) (ms : List Member) → All (IsPlaced limit) ms → All IsForward ms
IsForward-placed limit [] h = tt
IsForward-placed limit (m ∷ ms) h = (omega (arith, h.0), IsForward-placed limit ms h.1)

-- A directory that the code lets through.
pub record IsDirectory (buffer : List ℕ) (ms : List Member) : Type 0 where
  some_entry : 1 ≤ length ms
  few : length ms ≤ file_count
  bounded : sizes (entries_of ms) ≤ total_uncompressed_bytes
  small : AreSmall (entries_of ms)
  inside : (limit : ℕ) × (limit + 22 ≤ length buffer) × All (IsPlaced limit) ms
  disjoint : Disjoint ms

length-entries_of : (ms : List Member) → length (entries_of ms) ≡ length ms
length-entries_of [] = refl
length-entries_of (m ∷ ms) = omega (arith, length-entries_of ms)

is_end_valid-lem :
    (eocd : ℕ) (r : EndRecord)
    → is_end_valid eocd r ≡ true
    → (1 ≤ r.entry_count) × (r.entry_count ≤ file_count) × (r.central_offset ≤ eocd)
unfolding is_end_valid
is_end_valid-lem eocd r h = (ground arith, ground arith, ground arith)

parse_directory-Ends : (buffer : List ℕ) → Ends (IsDirectory buffer) (parse_directory buffer)
unfolding parse_directory
parse_directory-Ends buffer = Ends-require (leb 22 (length buffer)) _ _ λ long.
    Ends-require _ _ _ λ _.
      Ends-bind _ _ _ (find_end_record-Ends buffer (ground arith)) λ eocd _ within.
        Ends-bind _ _ _ (read_end_record-Ends buffer eocd within) λ r _ _.
          Ends-require _ _ _ λ valid.
            let v = is_end_valid-lem eocd r valid in
            Ends-bind _ _ _
              (read_entries-Ends buffer eocd (omega arith) r.entry_count _ (omega arith))
              λ (es, last) _ e. Ends-require _ _ _ λ _.
                Ends-bind _ _ _ (locate_all-Ends buffer r.central_offset (omega (arith, v.2)) es)
                  λ ms _ q. Ends-require _ _ _ λ apart. returns (record {
                    some_entry = omega (arith, v.0, e.0, ap length q.0, length-entries_of ms);
                    few = omega (arith, v.1, e.0, ap length q.0, length-entries_of ms);
                    bounded = rw q.0 (omega (arith, e.1));
                    small = rw q.0 e.2;
                    inside = (r.central_offset, omega (arith, v.2), q.1);
                    disjoint = is_apart-sort ms apart (IsForward-placed r.central_offset ms q.1);
                  })

-- For every buffer, `parseDirectory` returns or refuses: no read leaves the buffer, and the loop of
-- `rejectZip64` ends by its own test.
pub parse_directory-ne_fault : (buffer : List ℕ) (e : Fault) → parse_directory buffer ≢ fault e
parse_directory-ne_fault buffer e = Ends-ne_fault e (parse_directory-Ends buffer)

-- A directory that `parseDirectory` returns has from one to thirty-two entries, each of at most one
-- MiB when it is unpacked and of at most four MiB together. The data of each member stand behind its
-- header, inside its record, and the records inside the buffer before the end record; the records
-- of two members have no byte in common, in whatever order the directory lists them.
pub parse_directory-IsDirectory :
    (buffer : List ℕ) {ms : List Member} → parse_directory buffer ≡ ok ms → IsDirectory buffer ms
parse_directory-IsDirectory buffer h =
    Ends-ok (parse_directory buffer) (parse_directory-Ends buffer) h
