-- ===== src/Checks.antt =====
-- Code that refuses with one code only: `none` is the refusal.
use billing_validation_contr.Common.{sym, subst, Bool, true, false, Option, none, some, ◌≡◌, refl}

infixl 5 ◌>>=◌ ◌>>◌
abbrev pub ◌>>=◌ : {A B : Type 0} → Option A → (A → Option B) → Option B
none >>= f = none
some a >>= f = f a

abbrev pub ◌>>◌ : {B : Type 0} → Option (Unit {0}) → Option B → Option B
m >> k = m >>= λ _. k

unfoldable pub check : Bool → Option (Unit {0})
check true = some tt
check false = none

module _ {A B Q : Type 0} {b : B} where
  pub >>=-then :
      (o : Option A) (f : A → Option B)
      → (o >>= f) ≡ some b
      → ((a : A) → o ≡ some a → f a ≡ some b → Q)
      → Q
  >>=-then none f h k = cc
  >>=-then (some a) f h k = k a refl h

pub check-then :
    {B Q : Type 0} {b : B} (test : Bool) (rest : Option B)
    → (check test >> rest) ≡ some b
    → (test ≡ true → rest ≡ some b → Q)
    → Q
unfolding check
check-then true rest h k = k refl h
check-then false rest h k = cc

pub some-eq : {A : Type 0} {a b : A} → some a ≡ some b → a ≡ b
some-eq h = cc

-- The other way round.
pub bind-some :
    {A B : Type 0} (o : Option A) (f : A → Option B) {a : A} {b : B}
    → o ≡ some a
    → f a ≡ some b
    → (o >>= f) ≡ some b
bind-some o f {b = b} is rest = subst (λ x. (x >>= f) ≡ some b) (sym is) rest

pub check-some :
    {B : Type 0} (test : Bool) (rest : Option B) {b : B}
    → test ≡ true
    → rest ≡ some b
    → (check test >> rest) ≡ some b
unfolding check
check-some test rest p h = rw p h
