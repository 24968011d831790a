-- ===== src/Evidence/Archive/Sound/Apart.antt =====
-- The test of `parseDirectory` of src/contracts/evidence.mjs that no two members overlap: what the
-- test on neighbours says of a sorted list holds for every two members of the list as it was.
use billing_validation_contr.Common.{
  ℕ, ◌≤◌, ◌≡◌, true, List, [], ◌∷◌, ◌⊎◌, inl, inr, arith, leb, Bool-cases,
}
use billing_validation_contr.Evidence.Archive.Locals.{Member, insert, sort, is_apart}

abbrev pub start : Member → ℕ
start m = m.entry.local_offset

-- No byte belongs to both records.
abbrev pub Apart : Member → Member → Type 0
Apart m n = (m.record_end ≤ start n) ⊎ (n.record_end ≤ start m)

abbrev pub All : (Member → Type 0) → List Member → Type 0
All P [] = Unit
All P (m ∷ ms) = P m × All P ms

abbrev pub Disjoint : List Member → Type 0
Disjoint [] = Unit
Disjoint (m ∷ ms) = All (Apart m) ms × Disjoint ms

Apart-sym : (m n : Member) → Apart m n → Apart n m
Apart-sym m n (inl h) = inr h
Apart-sym m n (inr h) = inl h

module _ (P : Member → Type 0) where
  All-insert : (m : Member) (ms : List Member) → P m → All P ms → All P (insert m ms)
  unfolding insert
  All-insert m [] p ps = (p, tt)
  All-insert m (n ∷ ns) p ps = elim (Bool-cases (leb (start m) (start n))) [
    | inl first ↦ rw first (p, ps)
    | inr later ↦ rw later (ps.0, All-insert m ns p ps.1)
  ]

  All-sort : (ms : List Member) → All P ms → All P (sort ms)
  unfolding sort
  All-sort [] ps = tt
  All-sort (m ∷ ms) ps = All-insert m (sort ms) ps.0 (All-sort ms ps.1)

  All-of_insert : (m : Member) (ms : List Member) → All P (insert m ms) → P m × All P ms
  unfolding insert
  All-of_insert m [] ps = ps
  All-of_insert m (n ∷ ns) ps = elim (Bool-cases (leb (start m) (start n))) [
    | inl first ↦ rw first at ps
    | inr later ↦
        let qs = rw later at ps in let (p, rest) = All-of_insert m ns qs.1 in (p, (qs.0, rest))
  ]

  All-of_sort : (ms : List Member) → All P (sort ms) → All P ms
  unfolding sort
  All-of_sort [] ps = tt
  All-of_sort (m ∷ ms) ps = let (p, rest) = All-of_insert m (sort ms) ps in (p, All-of_sort ms rest)

Disjoint-of_insert :
    (m : Member) (ms : List Member) → Disjoint (insert m ms) → All (Apart m) ms × Disjoint ms
unfolding insert
Disjoint-of_insert m [] d = d
Disjoint-of_insert m (n ∷ ns) d = elim (Bool-cases (leb (start m) (start n))) [
  | inl first ↦ rw first at d
  | inr later ↦
      let e = rw later at d in
      let (p, rest) = All-of_insert (Apart n) m ns e.0 in
      let (apart, others) = Disjoint-of_insert m ns e.1 in
      ((Apart-sym n m p, apart), (rest, others))
]

Disjoint-of_sort : (ms : List Member) → Disjoint (sort ms) → Disjoint ms
unfolding sort
Disjoint-of_sort [] d = tt
Disjoint-of_sort (m ∷ ms) d =
    let (apart, rest) = Disjoint-of_insert m (sort ms) d in
    (All-of_sort (Apart m) ms apart, Disjoint-of_sort ms rest)

-- A record ends behind its start.
abbrev pub IsForward : Member → Type 0
IsForward m = start m ≤ m.record_end

All-behind :
    (end : ℕ) (m : Member) (ms : List Member)
    → end ≤ start m
    → is_apart (m ∷ ms) ≡ true
    → All IsForward (m ∷ ms)
    → All (λ n. end ≤ start n) (m ∷ ms)
unfolding is_apart
All-behind end m [] h apart f = (h, tt)
All-behind end m (n ∷ ns) h apart f = (h, All-behind end n ns (ground arith) (ground arith) f.1)

All-Apart :
    (m : Member) (ms : List Member) → All (λ n. m.record_end ≤ start n) ms → All (Apart m) ms
All-Apart m [] h = tt
All-Apart m (n ∷ ns) h = (inl h.0, All-Apart m ns h.1)

is_apart-Disjoint : (ms : List Member) → is_apart ms ≡ true → All IsForward ms → Disjoint ms
unfolding is_apart
is_apart-Disjoint [] h f = tt
is_apart-Disjoint (m ∷ []) h f = (tt, tt)
is_apart-Disjoint (m ∷ n ∷ ns) h f = (
  All-Apart m (n ∷ ns) (All-behind m.record_end n ns (ground arith) (ground arith) f.1),
  is_apart-Disjoint (n ∷ ns) (ground arith) f.1,
)

pub is_apart-sort : (ms : List Member) → is_apart (sort ms) ≡ true → All IsForward ms → Disjoint ms
is_apart-sort ms h f = Disjoint-of_sort ms (is_apart-Disjoint (sort ms) h (All-sort IsForward ms f))
