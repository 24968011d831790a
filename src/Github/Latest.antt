-- ===== src/Github/Latest.antt =====
-- The attempt that `latestAttempt` of src/github/candidate-checks.mjs returns.
use billing_validation_contr.Common.{
  ℕ, ◌≤◌, ◌<◌, true, List, [], ◌∷◌, ◌≡◌, ◌⊎◌, inl, inr, refl, sym, subst, ◌∙◌, arith, leb,
  Bool-cases,
}
use billing_validation_contr.Js.{Value}
use billing_validation_contr.Github.Runs.{
  Client, Candidate, Started, done, is_bound, list_runs, read_attempt, read_attempts, insert, sort,
  first_of, is_usable, latest_attempt, is_attempt_of, call,
}
use billing_validation_contr.Github.Selected.{
  >>=-done, require-done, require_some-done, All, All-map, done-fst,
}

abbrev pub In : Started → List Started → Type 0
In a [] = ⊥
In a (b ∷ rest) = (b ≡ a) ⊎ In a rest

In-insert-old : (a b : Started) (xs : List Started) → In a (insert b xs) → (b ≡ a) ⊎ In a xs
unfolding insert
In-insert-old a b [] h = h
In-insert-old a b (x ∷ xs) h = elim (Bool-cases (leb x.started_at b.started_at)) [
  | inl first ↦ rw first at h
  | inr later ↦ elim (rw later at h) [
    | inl e ↦ inr (inl e)
    | inr g ↦ elim (In-insert-old a b xs g) [ inl e ↦ inl e | inr i ↦ inr (inr i) ]
  ]
]

In-of_sort : (a : Started) (xs : List Started) → In a (sort xs) → In a xs
unfolding sort
In-of_sort a [] h = h
In-of_sort a (x ∷ xs) h = elim (In-insert-old a x (sort xs) h) [
  | inl e ↦ inl e
  | inr g ↦ inr (In-of_sort a xs g)
]

module _ (P : Started → Type 0) where
  All-insert : (a : Started) (xs : List Started) → P a → All P xs → All P (insert a xs)
  unfolding insert
  All-insert a [] p ps = (p, tt)
  All-insert a (x ∷ xs) p ps = elim (Bool-cases (leb x.started_at a.started_at)) [
    | inl first ↦ rw first (p, ps)
    | inr later ↦ rw later (ps.0, All-insert a xs p ps.1)
  ]

  All-of_insert : (a : Started) (xs : List Started) → All P (insert a xs) → P a × All P xs
  unfolding insert
  All-of_insert a [] ps = ps
  All-of_insert a (x ∷ xs) ps = elim (Bool-cases (leb x.started_at a.started_at)) [
    | inl first ↦ rw first at ps
    | inr later ↦
        let qs = rw later at ps in let (p, rest) = All-of_insert a xs qs.1 in (p, (qs.0, rest))
  ]

  All-of_sort : (xs : List Started) → All P (sort xs) → All P xs
  unfolding sort
  All-of_sort [] ps = tt
  All-of_sort (x ∷ xs) ps = let (p, rest) = All-of_insert x (sort xs) ps in (p, All-of_sort xs rest)

abbrev NotAfter : Started → Started → Type 0
NotAfter a b = b.started_at ≤ a.started_at

abbrev IsDescending : List Started → Type 0
IsDescending [] = Unit
IsDescending (x ∷ xs) = All (NotAfter x) xs × IsDescending xs

insert-IsDescending :
    (a : Started) (xs : List Started) → IsDescending xs → IsDescending (insert a xs)
unfolding insert
insert-IsDescending a [] d = (tt, tt)
insert-IsDescending a (x ∷ xs) d = elim (Bool-cases (leb x.started_at a.started_at)) [
  | inl first ↦ rw first (
    (
      ground (arith, first),
      All-map (NotAfter x) (NotAfter a) xs (λ b h. ground (arith, first, h)) d.0,
    ),
    d,
  )
  | inr later ↦
      rw later
        (All-insert (NotAfter x) a xs (ground (arith, later)) d.0, insert-IsDescending a xs d.1)
]

sort-IsDescending : (xs : List Started) → IsDescending (sort xs)
unfolding sort
sort-IsDescending [] = tt
sort-IsDescending (x ∷ xs) = insert-IsDescending x (sort xs) (sort-IsDescending xs)

-- Another attempt that started earlier, or the attempt itself.
abbrev pub IsEarlier : Started → Started → Type 0
IsEarlier a b = (b ≡ a) ⊎ (b.started_at < a.started_at)

-- The only attempt of the list that started last.
abbrev pub IsLatest : Started → List Started → Type 0
IsLatest a xs = In a xs × All (IsEarlier a) xs

first_of-IsLatest :
    (xs : List Started) {n k : ℕ} {a : Started}
    → IsDescending xs
    → first_of xs n ≡ done a k
    → IsLatest a xs × (k ≡ n)
unfolding first_of
first_of-IsLatest [] d h = cc
first_of-IsLatest (x ∷ []) {a = a} d h = let same : x ≡ a = cc in ((inl same, (inl same, tt)), cc)
first_of-IsLatest (x ∷ y ∷ rest) {a = a} d h = require-done _ _ _ h λ differ last.
    let same : x ≡ a = cc in
    let later =
      All-map (NotAfter y) (IsEarlier x) rest (λ b before. inr (ground (arith, before, differ, d)))
        d.1.0 in
    (
      subst (λ z. IsLatest z (x ∷ y ∷ rest)) same
          (inl refl, (inl refl, (inr (ground (arith, differ, d)), later))),
      cc,
    )

-- An attempt that the API gives for a run of the candidate, of the candidate too.
abbrev pub IsOurs : Candidate → Started → Type 0
IsOurs c a = is_bound c a.attempt ≡ true

is_attempt_of-IsBound :
    (c : Candidate) (id number : ℕ) (run attempt : Value)
    → is_attempt_of c id number run attempt ≡ true
    → is_bound c attempt ≡ true
unfolding is_attempt_of
is_attempt_of-IsBound c id number run attempt h = ground (arith, h)

module _ (client : Client) (c : Candidate) where
  read_attempt-IsOurs :
      (run : Value) (n : ℕ) {k : ℕ} {a : Started}
      → read_attempt client c run n ≡ done a k
      → IsOurs c a
  unfolding read_attempt
  read_attempt-IsOurs run n h = require_some-done _ _ _ h λ id _ h1.
      require_some-done _ _ _ h1 λ attempt_number _ h2. require-done _ _ _ h2 λ _ h3.
        require-done _ _ _ h3 λ _ h4. >>=-done (call client _) _ h4 λ attempt _ _ h5.
          require-done _ _ _ h5 λ same h6. require_some-done _ _ _ h6 λ start _ last.
            done-fst (IsOurs c) last (is_attempt_of-IsBound c id attempt_number run attempt same)

  read_attempts-AreOurs :
      (runs : List Value) (n : ℕ) {k : ℕ} {xs : List Started}
      → read_attempts client c runs n ≡ done xs k
      → All (IsOurs c) xs
  unfolding read_attempts
  read_attempts-AreOurs [] n h = done-fst (All (IsOurs c)) h tt
  read_attempts-AreOurs (run ∷ runs) n h =
      >>=-done (read_attempt client c run) _ h λ one j first h1.
        >>=-done (read_attempts client c runs) _ h1 λ others _ rest last.
          done-fst (All (IsOurs c)) last
            (read_attempt-IsOurs run n first, read_attempts-AreOurs runs j rest)

All-In : (P : Started → Type 0) (a : Started) (xs : List Started) → In a xs → All P xs → P a
All-In P a [] i ps = elim i [ ]
All-In P a (x ∷ xs) (inl e) ps = subst P e ps.0
All-In P a (x ∷ xs) (inr i) ps = All-In P a xs i ps.1

-- The attempt that is selected is the only one that started last, of the attempts that the API gives for
-- the candidate's runs, is itself bound to
-- the candidate, and is in progress, or completed with success or failure.
pub latest_attempt-IsLatest :
    (client : Client) (c : Candidate) (n : ℕ) {k : ℕ} {a : Started}
    → latest_attempt client c n ≡ done a k
    → (runs : List Value) × (j : ℕ) × (attempts : List Started) × (list_runs client c n
        ≡ done runs j)
      × (read_attempts client c runs j ≡ done attempts k)
      × IsLatest a attempts
      × IsOurs c a
      × (is_usable a.attempt ≡ true)
unfolding latest_attempt
latest_attempt-IsLatest client c n {k = k} {a = a} h =
    >>=-done (list_runs client c) _ h λ runs j listed h1. require-done _ _ _ h1 λ _ h2.
      >>=-done (read_attempts client c runs) _ h2 λ attempts m read h3.
        >>=-done (first_of (sort attempts)) _ h3 λ selected l first h4.
          require-done _ _ _ h4 λ usable last.
            let same : selected ≡ a = cc in
            let stop : l ≡ k = cc in
            let ((found, rest), unread) =
              first_of-IsLatest (sort attempts) (sort-IsDescending attempts) first in
            let ours = read_attempts-AreOurs client c runs j read in
            (
              runs,
              j,
              attempts,
              listed,
              subst (λ x. read_attempts client c runs j ≡ done attempts x) (sym unread ∙ stop) read,
              subst (λ x. IsLatest x attempts) same
                  (
                    In-of_sort selected attempts found,
                    All-of_sort (IsEarlier selected) attempts rest,
                  ),
              subst (IsOurs c) same
                  (All-In (IsOurs c) selected attempts (In-of_sort selected attempts found) ours),
              subst (λ x. is_usable x.attempt ≡ true) same usable,
            )
