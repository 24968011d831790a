-- ===== src/Github/Selected.antt =====
-- The runs and the attempt that `listRuns` and `latestAttempt` of src/github/candidate-checks.mjs
-- return.
use billing_validation_contr.Common.{
  ℕ, zero, suc, ◌+◌, ◌≤◌, ◌<◌, Bool, true, false, List, [], ◌∷◌, ◌++◌, Option, none, some, ◌≡◌, inl,
  inr, refl, subst, arith, length, nat_eq, Bool-cases,
}
use billing_validation_contr.Js.{Value}
use billing_validation_contr.Github.Runs.{
  Client, Endpoint, Candidate, Action, Reply, done, refused, Code, ◌>>=◌, ◌>>◌, pure, require,
  require_some, call, is_bound, Listing, add_run, add_runs, list_pages, list_runs,
}

module _ {ℓ κ λ'} {A : Type ℓ} {B : Type κ} {P : Type λ'} where
  pub >>=-done :
      (m : Action A) (f : A → Action B) {n k : ℕ} {b : B}
      → (m >>= f) n ≡ done b k
      → ((a : A) (j : ℕ) → m n ≡ done a j → f a j ≡ done b k → P)
      → P
  >>=-done m f {n = n} {k = k} {b = b} h rest = split (m n) refl h
    where
      split :
          (r : Reply A)
          → m n ≡ r
          → elim r [ done a j ↦ f a j | refused c ↦ refused c ] ≡ done b k
          → P
      split (done a j) e g = rest a j e g
      split (refused c) e g = cc

module _ {ℓ κ} {B : Type ℓ} {P : Type κ} where
  pub require-done :
      (test : Bool) (c : Code) (rest : Action B) {n k : ℕ} {b : B}
      → (require test c >> rest) n ≡ done b k
      → (test ≡ true → rest n ≡ done b k → P)
      → P
  unfolding require
  require-done true c rest h f = f refl h
  require-done false c rest h f = cc

  pub require_some-done :
      {A : Type 0} (o : Option A) (c : Code) (rest : A → Action B) {n k : ℕ} {b : B}
      → (require_some o c >>= rest) n ≡ done b k
      → ((a : A) → o ≡ some a → rest a n ≡ done b k → P)
      → P
  unfolding require_some
  require_some-done none c rest h f = cc
  require_some-done (some a) c rest h f = f a refl h

pub done-fst : {A : Type 0} (P : A → Type 0) {a b : A} {n k : ℕ} → pure a n ≡ done b k → P a → P b
done-fst P {a = a} {b = b} h p = let same : a ≡ b = cc in subst P same p

abbrev pub All {ℓ} : {A : Type ℓ} → (A → Type 0) → List A → Type 0
All P [] = Unit
All P (x ∷ xs) = P x × All P xs

pub All-++ : {A : Type 0} (P : A → Type 0) (xs ys : List A) → All P xs → All P ys → All P (xs ++ ys)
All-++ P [] ys ps qs = qs
All-++ P (x ∷ xs) ys ps qs = (ps.0, All-++ P xs ys ps.1 qs)

pub All-map :
    {A : Type 0} (P Q : A → Type 0) (xs : List A) → ((a : A) → P a → Q a) → All P xs → All Q xs
All-map P Q [] f ps = tt
All-map P Q (x ∷ xs) f ps = (f x ps.0, All-map P Q xs f ps.1)

-- A run of the candidate's workflow, on the candidate's pull request.
abbrev pub IsBound : Candidate → Value → Type 0
IsBound c run = is_bound c run ≡ true

call-count :
    (client : Client) (path : Endpoint) (n : ℕ) {v : Value} {k : ℕ}
    → call client path n ≡ done v k
    → k ≡ suc n
unfolding call
call-count client path n h = ground (arith, h)

module _ (c : Candidate) where
  add_run-IsBound :
      (l : Listing) (i : ℕ) (run : Value)
      → All (IsBound c) l.runs
      → All (IsBound c) (add_run c l i run).runs
  unfolding add_run
  add_run-IsBound l i run ps = elim (Bool-cases (is_bound c run)) [
    | inl bound ↦ rw bound (All-++ (IsBound c) l.runs _ ps (bound, tt))
    | inr other ↦ rw other ps
  ]

  add_runs-IsBound :
      (l : Listing) (runs : List Value) {n k : ℕ} {next : Listing}
      → All (IsBound c) l.runs
      → add_runs c l runs n ≡ done next k
      → All (IsBound c) next.runs × (k ≡ n)
  unfolding add_runs
  add_runs-IsBound l [] {next = next} ps h =
      let same : l ≡ next = cc in (subst (λ x. All (IsBound c) x.runs) same ps, cc)
  add_runs-IsBound l (run ∷ rest) ps h = require_some-done _ _ _ h λ i _ h1.
      require-done _ _ _ h1
        λ _ h2. add_runs-IsBound (add_run c l i run) rest (add_run-IsBound l i run ps) h2

  -- What a list of runs is, after calls of which `left` at most were made since `n`.
  abbrev pub AreListed : ℕ → ℕ → ℕ → List Value → Type 0
  AreListed left n k runs = All (IsBound c) runs × (length runs ≤ 50) × (n < k) × (k ≤ n + left)

  list_pages-AreListed :
      (client : Client) (left page : ℕ) (total : Option ℕ) (l : Listing) {n k : ℕ}
      {runs : List Value}
      → All (IsBound c) l.runs
      → list_pages client c left page total l n ≡ done runs k
      → AreListed left n k runs
  unfolding list_pages
  list_pages-AreListed client zero page total l ps h = cc
  list_pages-AreListed client (suc left) page total l {n = n} {k = k} {runs = runs} ps h =
      >>=-done (call client _) _ h λ response j called h1. require_some-done _ _ _ h1 λ items _ h2.
        require_some-done _ _ _ h2 λ count _ h3. require-done _ _ _ h3 λ _ h4.
          >>=-done (add_runs c l items) _ h4 λ next m added h5. require-done _ _ _ h5 λ few h6.
            require-done _ _ _ h6 λ _ h7.
              let (bound, uncounted) = add_runs-IsBound l items ps added in
              let counted = call-count client _ n called in
              elim (Bool-cases (nat_eq (length next.seen) count)) [
                | inl all ↦
                    let end : done next.runs m ≡ done runs k = rw all at h7 in
                    let same : next.runs ≡ runs = cc in
                    let stop : m ≡ k = cc in
                    (
                      subst (All (IsBound c)) same bound,
                      subst (λ x. length x ≤ 50) same (ground (arith, few)),
                      ground arith,
                      ground arith,
                    )
                | inr more ↦ require-done (nat_eq (length items) 100) _ _ (rw more at h7) λ _ h8.
                    let rest =
                      list_pages-AreListed client left (suc page) (some count) next bound h8 in
                    (rest.0, rest.1, ground arith, ground arith)
              ]

-- The runs of a listing that returns are the candidate's, at most fifty, and it has made one to five
-- calls of the API.
pub list_runs-AreListed :
    (client : Client) (c : Candidate) {n k : ℕ} {runs : List Value}
    → list_runs client c n ≡ done runs k
    → AreListed c 5 n k runs
unfolding list_runs
list_runs-AreListed client c h = list_pages-AreListed c client 5 1 none _ tt h
