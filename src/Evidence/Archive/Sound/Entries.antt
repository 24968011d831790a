-- ===== src/Evidence/Archive/Sound/Entries.antt =====
-- The entries of the central directory that `parseDirectory` of src/contracts/evidence.mjs reads.
use billing_validation_contr.Common.{
  ℕ, zero, suc, ◌+◌, ◌≤◌, ◌≡◌, refl, List, [], ◌∷◌, arith, length, sum_of,
}
use billing_validation_contr.Evidence.Ends.{
  Ends, returns, Ends-bind, Ends-require, Ends-require_only, Ends-assert_range, Ends-read_u32,
}
use billing_validation_contr.Evidence.Archive.Directory.{
  total_uncompressed_bytes, evidence_json_bytes,
}
use billing_validation_contr.Evidence.Archive.Entries.{
  Entry, Position, Central, variable_length, check_sizes, read_entry, read_entries,
}
use billing_validation_contr.Evidence.Archive.Sound.Reads.{reject_zip64-Ends}
use billing_validation_contr.Evidence.Archive.Sound.Headers.{read_central-Ends, read_name-Ends}

-- The member sizes that the directory declares.
abbrev pub sizes : List Entry → ℕ
sizes = sum_of (λ e. e.uncompressed_size)

abbrev pub AreSmall : List Entry → Type 0
AreSmall [] = Unit
AreSmall (e ∷ es) = (e.uncompressed_size ≤ evidence_json_bytes) × AreSmall es

check_sizes-Ends :
    (declared : ℕ) (h : Central)
    → Ends
        (λ _. (declared ≤ total_uncompressed_bytes) × (h.uncompressed_size ≤ evidence_json_bytes))
        (check_sizes declared h)
unfolding check_sizes
check_sizes-Ends declared h = Ends-require_only _ _ _ λ fits. ground arith

module _ (buffer : List ℕ) (eocd : ℕ) (inside : eocd ≤ length buffer) where
  read_entry-Ends :
      (at : Position)
      → Ends
          (λ r.
            (r.0.uncompressed_size ≤ evidence_json_bytes)
            × (r.1.declared ≡ at.declared + r.0.uncompressed_size)
            × (r.1.declared ≤ total_uncompressed_bytes))
          (read_entry buffer eocd at)
  unfolding read_entry
  read_entry-Ends at = Ends-assert_range at.cursor 46 eocd _ λ fixed.
      Ends-read_u32 buffer at.cursor _ (omega arith) λ _. Ends-require _ _ _ λ _.
        Ends-bind _ _ _ (read_central-Ends buffer at.cursor (omega arith)) λ h _ _.
          Ends-assert_range (at.cursor + 46) (variable_length h) eocd _ λ variable.
            Ends-require _ _ _ λ _. Ends-bind _ _ _ (read_name-Ends _) λ name _ _.
              Ends-bind _ _ _ (reject_zip64-Ends buffer _ _ (omega arith)) λ _ _ _.
                Ends-require _ _ _ λ _. Ends-require _ _ _ λ _.
                  Ends-bind _ _ _ (check_sizes-Ends _ h)
                    λ _ _ small. returns (small.1, refl, small.0)

  pub read_entries-Ends :
      (count : ℕ) (at : Position)
      → at.declared ≤ total_uncompressed_bytes
      → Ends
          (λ r.
            (length r.0 ≡ count)
            × (at.declared + sizes r.0 ≤ total_uncompressed_bytes)
            × AreSmall r.0)
          (read_entries count buffer eocd at)
  unfolding read_entries
  read_entries-Ends zero at h = returns (refl, omega arith, tt)
  read_entries-Ends (suc count) at h = Ends-bind _ _ _ (read_entry-Ends at) λ (entry, next) _ e.
      Ends-bind _ _ _ (read_entries-Ends count next (e.2))
        λ (entries, last) _ es. returns (omega (arith, es.0), omega (arith, e.1, es.1), (e.0, es.2))
