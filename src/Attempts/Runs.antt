-- ===== src/Attempts/Runs.antt =====
-- How a run of an action is taken apart: what a run that is done says of its parts.
use billing_validation_contr.Common.{Bool, true, false, Option, none, some, [], ◌≡◌, refl, subst}
use billing_validation_contr.Attempts.Data.{Code}
use billing_validation_contr.Attempts.Session.{
  Session, Reply, done, refused, Action, require, require_some, ◌>>=◌, ◌>>◌, transaction,
}

pub >>=-eq-done {ℓ κ} :
    {A : Type ℓ} {B : Type κ} (m : Action A) (f : A → Action B) (s : Session) {b : B} {t : Session}
    → (m >>= f) s ≡ done b t
    → (a : A) × (u : Session) × (m s ≡ done a u) × (f a u ≡ done b t)
>>=-eq-done {A = A} {B = B} m f s {b} {t} h = run (m s) h
  where
    run :
        (r : Reply A)
        → elim r [ done a u ↦ f a u | refused c u ↦ refused c u ] ≡ done b t
        → (a : A) × (u : Session) × (r ≡ done a u) × (f a u ≡ done b t)
    run (done a u) e = (a, u, refl, e)
    run (refused c u) e = cc

-- The same where the rest of a proof takes the parts as variables.
module _ {ℓ κ μ} {A : Type ℓ} {B : Type κ} {Q : Type μ} {b : B} {t : Session} where
  pub >>=-then :
      (m : Action A) (f : A → Action B) (s : Session)
      → (m >>= f) s ≡ done b t
      → ((a : A) (u : Session) → m s ≡ done a u → f a u ≡ done b t → Q)
      → Q
  >>=-then m f s h k = let (a, u, first, rest) = >>=-eq-done m f s h in k a u first rest

  -- The same for an action that leaves the session as it is.
  pub >>=-then_same :
      (m : Action A) (f : A → Action B) (s : Session)
      → ((a : A) (u : Session) → m s ≡ done a u → u ≡ s)
      → (m >>= f) s ≡ done b t
      → ((a : A) → m s ≡ done a s → f a s ≡ done b t → Q)
      → Q
  >>=-then_same m f s same h k = >>=-then m f s h λ a u first rest.
      let q = same a u first in
      k a (subst (λ x. m s ≡ done a x) q first) (subst (λ x. f a x ≡ done b t) q rest)

  pub require_some-then :
      (o : Option A) (c : Code) (f : A → Action B) (s : Session)
      → (require_some o c >>= f) s ≡ done b t
      → ((a : A) → o ≡ some a → f a s ≡ done b t → Q)
      → Q
  require_some-then none c f s h k = cc
  require_some-then (some a) c f s h k = k a refl h

pub require-then {ℓ κ} :
    {B : Type ℓ} {Q : Type κ} (test : Bool) (c : Code) (rest : Action B) (s : Session) {b : B}
    {t : Session}
    → (require test c >> rest) s ≡ done b t
    → (test ≡ true → rest s ≡ done b t → Q)
    → Q
require-then true c rest s h k = k refl h
require-then false c rest s h k = cc

pub transaction-eq-done {ℓ} :
    {A : Type ℓ} (m : Action A) (s : Session) {a : A} {t : Session}
    → transaction m s ≡ done a t
    → (u : Session) × (m s ≡ done a u) × (t ≡ record u { held = [] })
unfolding transaction
transaction-eq-done {A = A} m s {a} {t} h = run (m s) h
  where
    run :
        (r : Reply A)
        → elim r [
          | done b u ↦ done b (record u { held = [] })
          | refused c u ↦ refused c (record u { tables = s.tables; held = [] })
        ]
          ≡ done a t
        → (u : Session) × (r ≡ done a u) × (t ≡ record u { held = [] })
    run (done b u) e = (u, cc, cc)
    run (refused c u) e = cc

pub done-eq {ℓ} : {A : Type ℓ} {a b : A} {s t : Session} → done a s ≡ done b t → (a ≡ b) × (t ≡ s)
done-eq h = (cc, cc)

pub transaction-then {ℓ κ} :
    {A : Type ℓ} {Q : Type κ} (m : Action A) (s : Session) {a : A} {t : Session}
    → transaction m s ≡ done a t
    → ((u : Session) → m s ≡ done a u → t ≡ record u { held = [] } → Q)
    → Q
transaction-then m s h k = let (u, run, q) = transaction-eq-done m s h in k u run q
