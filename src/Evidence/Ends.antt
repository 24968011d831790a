-- ===== src/Evidence/Ends.antt =====
-- How a parser of src/contracts/evidence.mjs ends: with no fault, and with a result for which `Q`
-- holds if it returns one.
use billing_validation_contr.Common.{
  ℕ, ◌+◌, ◌≤◌, Bool, true, false, List, ◌≡◌, refl, ◌≢◌, subst, arith, length, leb,
}
use billing_validation_contr.Evidence.Bytes.{
  Reply, ok, refused, fault, Fault, Refusal, ◌>>=◌, ◌>>◌, require, read_u16, read_u32, assert_range,
}

pub data Ends {ℓ} {A : Type ℓ} (Q : A → Type 0) : Reply A → Type ℓ where
  returns : {a : A} → Q a → Ends Q (ok a)
  stops : {c : Refusal} → Ends Q (refused c)

abbrev pub Any {ℓ} : {A : Type ℓ} → A → Type 0
Any a = Unit

module _ {ℓ κ} {A : Type ℓ} {B : Type κ} {R : B → Type 0} where
  pub Ends-bind :
      (m : Reply A) (f : A → Reply B) (Q : A → Type 0)
      → Ends Q m
      → ((a : A) → m ≡ ok a → Q a → Ends R (f a))
      → Ends R (m >>= f)
  Ends-bind (ok a) f Q (returns h) k = k a refl h
  Ends-bind (refused c) f Q stops k = stops
  Ends-bind (fault e) f Q h k = elim h [ ]

reads_u16 : (buffer : List ℕ) (i : ℕ) → i + 2 ≤ length buffer → Ends Any (read_u16 buffer i)
unfolding read_u16
reads_u16 buffer i h =
    let fits : leb (i + 2) (length buffer) ≡ true = ground arith in rw fits (returns tt)

reads_u32 : (buffer : List ℕ) (i : ℕ) → i + 4 ≤ length buffer → Ends Any (read_u32 buffer i)
unfolding read_u32
reads_u32 buffer i h =
    let fits : leb (i + 4) (length buffer) ≡ true = ground arith in rw fits (returns tt)

module _ {ℓ} {B : Type ℓ} {R : B → Type 0} where
  pub Ends-require :
      (test : Bool) (c : Refusal) (rest : Reply B)
      → (test ≡ true → Ends R rest)
      → Ends R (require test c >> rest)
  unfolding require
  Ends-require true c rest k = k refl
  Ends-require false c rest k = stops

  pub Ends-elim :
      (test : Bool) (x y : Reply B)
      → (test ≡ true → Ends R x)
      → (test ≡ false → Ends R y)
      → Ends R (elim test [ true ↦ x | false ↦ y ])
  Ends-elim true x y k l = k refl
  Ends-elim false x y k l = l refl

  pub Ends-assert_range :
      (offset count limit : ℕ) (rest : Reply B)
      → (offset + count ≤ limit → Ends R rest)
      → Ends R (assert_range offset count limit >> rest)
  unfolding assert_range
  Ends-assert_range offset count limit rest k = Ends-require _ _ rest λ ok. k (ground arith)

  pub Ends-read_u16 :
      (buffer : List ℕ) (i : ℕ) (f : ℕ → Reply B)
      → i + 2 ≤ length buffer
      → ((n : ℕ) → Ends R (f n))
      → Ends R (read_u16 buffer i >>= f)
  Ends-read_u16 buffer i f h k =
      Ends-bind (read_u16 buffer i) f Any (reads_u16 buffer i h) λ n _ _. k n

  pub Ends-read_u32 :
      (buffer : List ℕ) (i : ℕ) (f : ℕ → Reply B)
      → i + 4 ≤ length buffer
      → ((n : ℕ) → Ends R (f n))
      → Ends R (read_u32 buffer i >>= f)
  Ends-read_u32 buffer i f h k =
      Ends-bind (read_u32 buffer i) f Any (reads_u32 buffer i h) λ n _ _. k n

pub Ends-require_only :
    (Q : Unit {0} → Type 0) (test : Bool) (c : Refusal)
    → (test ≡ true → Q tt)
    → Ends Q (require test c)
unfolding require
Ends-require_only Q true c k = returns (k refl)
Ends-require_only Q false c k = stops

module _ {A : Type 0} {Q : A → Type 0} where
  pub Ends-ne_fault : {r : Reply A} (e : Fault) → Ends Q r → r ≢ fault e
  Ends-ne_fault e (returns q) h = cc
  Ends-ne_fault e stops h = cc

  pub Ends-ok : (r : Reply A) {a : A} → Ends Q r → r ≡ ok a → Q a
  Ends-ok (ok b) {a = a} (returns q) h = let same : b ≡ a = cc in subst Q same q
  Ends-ok (refused c) stops h = cc
  Ends-ok (fault e) q h = elim q [ ]
