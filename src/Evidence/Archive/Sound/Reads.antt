-- ===== src/Evidence/Archive/Sound/Reads.antt =====
-- `rejectZip64`, `findEndRecord` and the reads of headers in src/contracts/evidence.mjs stay inside
-- the buffer.
use billing_validation_contr.Common.{ℕ, zero, suc, ◌+◌, ◌≤◌, ◌<◌, List, arith, nat_eq, ltb, length}
use billing_validation_contr.Evidence.Ends.{
  Ends, returns, stops, Any, Ends-bind, Ends-require, Ends-require_only, Ends-elim,
  Ends-assert_range, Ends-read_u16, Ends-read_u32,
}
use billing_validation_contr.Evidence.Archive.Directory.{
  extra_field, extra_fields, reject_zip64, is_end_record, end_record_from, find_end_record,
  read_end_record, min_offset, zip_eocd,
}

module _ (buffer : List ℕ) where
  extra_field-Ends :
      (cursor end : ℕ)
      → end ≤ length buffer
      → Ends (λ next. (cursor + 4 ≤ next) × (next ≤ end)) (extra_field buffer cursor end)
  unfolding extra_field
  extra_field-Ends cursor end h = Ends-assert_range cursor 4 end _ λ inside.
      Ends-read_u16 buffer cursor _ (omega arith) λ id.
        Ends-read_u16 buffer (cursor + 2) _ (omega arith) λ size.
          Ends-assert_range (cursor + 4) size end _ λ fits.
            Ends-require _ _ _ λ _. returns {a = cursor + 4 + size} (omega arith, omega arith)

  extra_fields-Ends :
      (fuel cursor end : ℕ)
      → end ≤ length buffer
      → end < cursor + fuel
      → cursor ≤ end
      → Ends Any (extra_fields fuel buffer cursor end)
  unfolding extra_fields
  extra_fields-Ends zero cursor end h enough before = absurd (omega arith)
  extra_fields-Ends (suc fuel) cursor end h enough before =
      Ends-elim (ltb cursor end) _ _
        (λ more.
          Ends-bind _ _ _ (extra_field-Ends cursor end h)
            λ next _ q. extra_fields-Ends fuel next end h (omega (arith, q)) (omega (arith, q)))
        λ last. Ends-require_only _ _ _ λ _. tt

  pub reject_zip64-Ends :
      (offset count : ℕ)
      → offset + count ≤ length buffer
      → Ends Any (reject_zip64 buffer offset count)
  unfolding reject_zip64
  reject_zip64-Ends offset count h =
      extra_fields-Ends (suc count) offset (offset + count) h (omega arith) (omega arith)

  is_end_record-Ends :
      (offset : ℕ) → offset + 22 ≤ length buffer → Ends Any (is_end_record buffer offset)
  unfolding is_end_record
  is_end_record-Ends offset h = Ends-read_u32 buffer offset _ (omega arith) λ signature.
      Ends-elim (nat_eq signature zip_eocd) _ _
        (λ _. Ends-read_u16 buffer (offset + 20) _ (omega arith) λ n. returns tt) λ _. returns tt

  end_record_from-Ends :
      (rounds least : ℕ)
      → least + rounds + 21 ≤ length buffer
      → Ends (λ eocd. eocd + 22 ≤ length buffer) (end_record_from rounds least buffer)
  unfolding end_record_from
  end_record_from-Ends zero least h = stops
  end_record_from-Ends (suc rounds) least h =
      Ends-bind _ _ _ (is_end_record-Ends (least + rounds) (omega arith)) λ found _ _.
        Ends-elim found _ _ (λ _. returns {a = least + rounds} (omega arith))
          λ _. end_record_from-Ends rounds least (omega arith)

  pub find_end_record-Ends :
      22 ≤ length buffer → Ends (λ eocd. eocd + 22 ≤ length buffer) (find_end_record buffer)
  unfolding find_end_record
  find_end_record-Ends h = end_record_from-Ends _ (min_offset buffer) (omega arith)

  pub read_end_record-Ends :
      (eocd : ℕ) → eocd + 22 ≤ length buffer → Ends Any (read_end_record buffer eocd)
  unfolding read_end_record
  read_end_record-Ends eocd h = Ends-read_u16 buffer (eocd + 4) _ (omega arith) λ _.
      Ends-read_u16 buffer (eocd + 6) _ (omega arith) λ _.
        Ends-read_u16 buffer (eocd + 8) _ (omega arith) λ _.
          Ends-read_u16 buffer (eocd + 10) _ (omega arith) λ _.
            Ends-read_u32 buffer (eocd + 12) _ (omega arith)
              λ _. Ends-read_u32 buffer (eocd + 16) _ (omega arith) λ _. returns tt
