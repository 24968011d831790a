-- ===== src/Leases/Table.antt =====
-- The rows of the table of leases: `UPDATE`, `DELETE` and the lookup by a key.
use billing_validation_contr.Common.{
  Bool, true, false, ◌&&◌, List, [], ◌∷◌, Option, none, some, ◌≡◌, refl, sym, subst, ◌∙◌, ap, arith,
  if◌then◌else◌, find, update_where, delete_where, some_of, is_some, Bool-cases, inl, inr,
}
use billing_validation_contr.Attempts.Data.{Key, Lease}
use billing_validation_contr.Attempts.Same.{same_key, same_key_iff}
use billing_validation_contr.Attempts.Postgres.{find_lease}

-- No key comes twice: the table's primary key.
abbrev pub IsTable : List Lease → Type 0
IsTable [] = Unit
IsTable (r ∷ rs) = (find_lease r.key rs ≡ none) × IsTable rs

same_key_refl : (k : Key) → same_key k k ≡ true
same_key_refl k = (same_key_iff k k).1 refl

-- A key that is the same as another is found as the other is.
same_key-left : (a b q : Key) → same_key a b ≡ true → same_key a q ≡ same_key b q
same_key-left a b q h = ap (λ k. same_key k q) ((same_key_iff a b).0 h)

abbrev pub rewrite_row : Lease → List Lease → List Lease
rewrite_row l = update_where (λ r. same_key r.key l.key) (λ r. l)

pub find-update_other :
    (l : Lease) (q : Key) (rows : List Lease)
    → same_key l.key q ≡ false
    → find_lease q (rewrite_row l rows) ≡ find_lease q rows
find-update_other l q [] h = refl
find-update_other l q (r ∷ rs) h = elim (Bool-cases (same_key r.key l.key)) [
  | inl same ↦ rw (same, h, same_key-left r.key l.key q same, h) (find-update_other l q rs h)
  | inr other ↦ rw other (ground (arith, find-update_other l q rs h))
]

pub find-update_self :
    (l : Lease) (rows : List Lease) {old : Lease}
    → find_lease l.key rows ≡ some old
    → find_lease l.key (rewrite_row l rows) ≡ some l
find-update_self l [] h = cc
find-update_self l (r ∷ rs) {old = old} h = elim (Bool-cases (same_key r.key l.key)) [
  | inl same ↦ rw (same, same_key_refl l.key) refl
  | inr other ↦ rw (other, other) (find-update_self l rs {old = old} (rw other at h))
]

-- Rows of the key that fit a test: in a table, the one row, if it fits.
abbrev pub only : (Lease → Bool) → Option Lease → Option Lease
only c none = none
only c (some l) = if c l then some l else none

pub find-only :
    (key : Key) (p c : Lease → Bool) (rows : List Lease)
    → ((r : Lease) → p r ≡ (same_key r.key key && c r))
    → IsTable rows
    → find p rows ≡ only c (find_lease key rows)
find-only key p c [] fits t = refl
find-only key p c (r ∷ rs) fits t = elim (Bool-cases (same_key r.key key)) [
  | inl same ↦
      let absent : find_lease key rs ≡ none =
        subst (λ k. find_lease k rs ≡ none) ((same_key_iff r.key key).0 same) t.0 in
      let rest = find-only key p c rs fits t.1 ∙ ap (only c) absent in
      rw (fits r, same) (ap (λ o. if c r then some r else o) rest)
  | inr other ↦ rw (fits r, other) (find-only key p c rs fits t.1)
]

pub some_of-find : (p : Lease → Bool) (rows : List Lease) → some_of p rows ≡ is_some (find p rows)
some_of-find p [] = refl
some_of-find p (r ∷ rs) = ground (arith, some_of-find p rs)

pub find-delete_none :
    (q : Key) (p : Lease → Bool) (rows : List Lease)
    → find_lease q rows ≡ none
    → find_lease q (delete_where p rows) ≡ none
find-delete_none q p [] h = refl
find-delete_none q p (r ∷ rs) h = elim (Bool-cases (same_key r.key q)) [
  | inl same ↦ absurd (ground (arith, h, same))
  | inr other ↦
      let rest = find-delete_none q p rs (rw other at h) in
      elim (Bool-cases (p r)) [ inl gone ↦ rw gone rest | inr stays ↦ rw (stays, other) rest ]
]

module _ (key : Key) (p c : Lease → Bool)
    (fits : (r : Lease) → p r ≡ (same_key r.key key && c r)) where
  pub find-delete_other :
      (q : Key) (rows : List Lease)
      → same_key key q ≡ false
      → find_lease q (delete_where p rows) ≡ find_lease q rows
  find-delete_other q [] h = refl
  find-delete_other q (r ∷ rs) h = elim (Bool-cases (p r)) [
    | inl gone ↦
        let same : same_key r.key key ≡ true = ground (arith, gone, fits r) in
        rw (gone, same_key-left r.key key q same, h) (find-delete_other q rs h)
    | inr stays ↦ rw stays (ground (arith, find-delete_other q rs h))
  ]

  pub find-delete_self :
      (rows : List Lease) {l : Lease}
      → IsTable rows
      → find_lease key rows ≡ some l
      → c l ≡ true
      → find_lease key (delete_where p rows) ≡ none
  find-delete_self [] t h m = cc
  find-delete_self (r ∷ rs) {l = l} t h m = elim (Bool-cases (same_key r.key key)) [
    | inl same ↦
        let first : r ≡ l = ground (arith, h, same) in
        let gone : p r ≡ true = fits r ∙ rw (same, first) m in
        let absent : find_lease key rs ≡ none =
          subst (λ k. find_lease k rs ≡ none) ((same_key_iff r.key key).0 same) t.0 in
        rw gone (find-delete_none key p rs absent)
    | inr other ↦
        let stays : p r ≡ false = fits r ∙ rw other refl in
        rw (stays, other) (find-delete_self rs {l = l} t.1 (rw other at h) m)
  ]

  pub delete-IsTable : (rows : List Lease) → IsTable rows → IsTable (delete_where p rows)
  delete-IsTable [] t = tt
  delete-IsTable (r ∷ rs) t = elim (Bool-cases (p r)) [
    | inl gone ↦ rw gone (delete-IsTable rs t.1)
    | inr stays ↦ rw stays (find-delete_none r.key p rs t.0, delete-IsTable rs t.1)
  ]

find-rewrite_none :
    (l : Lease) (q : Key) (rows : List Lease)
    → find_lease q rows ≡ none
    → find_lease q (rewrite_row l rows) ≡ none
find-rewrite_none l q [] h = refl
find-rewrite_none l q (r ∷ rs) h = elim (Bool-cases (same_key r.key q)) [
  | inl same ↦ absurd (ground (arith, h, same))
  | inr other ↦
      let rest = find-rewrite_none l q rs (rw other at h) in
      elim (Bool-cases (same_key r.key l.key)) [
        | inl key ↦ rw (key, sym (same_key-left r.key l.key q key) ∙ other) rest
        | inr differ ↦ rw (differ, other) rest
      ]
]

pub rewrite-IsTable : (l : Lease) (rows : List Lease) → IsTable rows → IsTable (rewrite_row l rows)
rewrite-IsTable l [] t = tt
rewrite-IsTable l (r ∷ rs) t = elim (Bool-cases (same_key r.key l.key)) [
  | inl same ↦
      let absent : find_lease l.key rs ≡ none =
        subst (λ k. find_lease k rs ≡ none) ((same_key_iff r.key l.key).0 same) t.0 in
      rw same (find-rewrite_none l l.key rs absent, rewrite-IsTable l rs t.1)
  | inr other ↦ rw other (find-rewrite_none l r.key rs t.0, rewrite-IsTable l rs t.1)
]
