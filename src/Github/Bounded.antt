-- ===== src/Github/Bounded.antt =====
-- `listRuns` of src/github/candidate-checks.mjs looks at five answers of the API at most.
use billing_validation_contr.Common.{
  ℕ, zero, suc, ◌+◌, ◌≤◌, ◌<◌, Bool, true, false, List, [], ◌∷◌, Option, none, some, ◌≡◌, inl, inr,
  refl, ap, ◌∙◌, arith, length, nat_eq, Bool-cases,
}
use billing_validation_contr.Js.{Value}
use billing_validation_contr.Github.Runs.{
  Client, Endpoint, Candidate, Action, Reply, done, refused, Code, ◌>>=◌, ◌>>◌, require,
  require_some, api_unavailable, call, Listing, add_run, add_runs, list_pages, list_runs,
}
use billing_validation_contr.Github.Selected.{require-done, require_some-done}

abbrev after : {A B : Type 0} → (A → Action B) → Reply A → Reply B
after h r = elim r [ done a k ↦ h a k | refused c ↦ refused c ]

>>=-same :
    {A B : Type 0} (m : Action A) (f g : A → Action B) (n : ℕ)
    → ((a : A) (k : ℕ) → m n ≡ done a k → f a k ≡ g a k)
    → (m >>= f) n ≡ (m >>= g) n
>>=-same {A = A} {B = B} m f g n same = split (m n) refl
  where
    split : (r : Reply A) → m n ≡ r → after f r ≡ after g r
    split (done a k) e = same a k e
    split (refused c) e = refl

require-same :
    {B : Type 0} (test : Bool) (c : Code) (f g : Action B) (n : ℕ)
    → f n ≡ g n
    → (require test c >> f) n ≡ (require test c >> g) n
unfolding require
require-same true c f g n same = same
require-same false c f g n same = refl

require_some-same :
    {A B : Type 0} (o : Option A) (c : Code) (f g : A → Action B) (n : ℕ)
    → ((a : A) → f a n ≡ g a n)
    → (require_some o c >>= f) n ≡ (require_some o c >>= g) n
unfolding require_some
require_some-same none c f g n same = refl
require_some-same (some a) c f g n same = same a

-- Adding runs is no call.
add_runs-count :
    (c : Candidate) (l : Listing) (runs : List Value) {n k : ℕ} {next : Listing}
    → add_runs c l runs n ≡ done next k
    → k ≡ n
unfolding add_runs
add_runs-count c l [] h = cc
add_runs-count c l (run ∷ rest) h =
    require_some-done _ _ _ h
      λ i _ h1. require-done _ _ _ h1 λ _ h2. add_runs-count c (add_run c l i run) rest h2

module _ (client other : Client) (c : Candidate) where
  -- The two answer alike to `left` calls from the `n`-th on.
  abbrev pub Agree : ℕ → ℕ → Type 0
  Agree left n =
      (j : ℕ) (e : Endpoint) → n ≤ j → j < n + left → client.answer j e ≡ other.answer j e

  abbrev replied : ℕ → Option Value → Reply Value
  replied n none = refused api_unavailable
  replied n (some v) = done v (suc n)

  call-same :
      {B : Type 0} (path : Endpoint) (f g : Value → Action B) (n : ℕ)
      → client.answer n path ≡ other.answer n path
      → ((v : Value) → f v (suc n) ≡ g v (suc n))
      → (call client path >>= f) n ≡ (call other path >>= g) n
  unfolding call
  call-same path f g n same rest =
      ap (λ o. after f (replied n o)) same ∙ answered (other.answer n path)
    where
      answered : (o : Option Value) → after f (replied n o) ≡ after g (replied n o)
      answered none = refl
      answered (some v) = rest v

  list_pages-same :
      (left page : ℕ) (total : Option ℕ) (l : Listing) (n : ℕ)
      → Agree left n
      → list_pages client c left page total l n ≡ list_pages other c left page total l n
  unfolding list_pages
  list_pages-same zero page total l n agree = refl
  list_pages-same (suc left) page total l n agree =
      call-same _ _ _ n (agree n _ (omega arith) (omega arith)) λ response.
        require_some-same _ _ _ _ (suc n) λ items. require_some-same _ _ _ _ (suc n) λ count.
          require-same _ _ _ _ (suc n) (
            >>=-same (add_runs c l items) _ _ (suc n) λ next k added.
              let uncounted = add_runs-count c l items added in
              require-same _ _ _ _ k (
                require-same _ _ _ _ k (elim (Bool-cases (nat_eq (length next.seen) count)) [
                  | inl all ↦ rw all refl
                  | inr more ↦ rw more (
                      require-same _ _ _ _ k (
                        list_pages-same left (suc page) (some count) next k
                          λ j e from until. agree j e (omega arith) (omega arith)))
                ])))

  -- Paging ends: whatever totals and pages the API answers, and whether the listing returns or is
  -- refused, it is the same for another API that answers alike to five calls from its first one on.
  pub list_runs-same : (n : ℕ) → Agree 5 n → list_runs client c n ≡ list_runs other c n
  unfolding list_runs
  list_runs-same n agree = list_pages-same 5 1 none _ n agree
