-- ===== src/Authorization/Uses.antt =====
-- The life of a challenge of src/authorization/challenge.mjs, over any sequence of calls.
use billing_validation_contr.Common.{
  ℕ, ◌+◌, ◌≤◌, ◌<◌, true, List, [], ◌∷◌, map, Option, none, some, ◌≡◌, ◌≢◌, ◌⊎◌, inl, inr, refl,
  sym, subst, ◌∙◌, arith, Option-cases,
}
use billing_validation_contr.Js.{Value}
use billing_validation_contr.Authorization.Manifest.{Platform, create_manifest}
use billing_validation_contr.Authorization.Challenge.{
  Refusal, challenge_consumed, challenge_destroyed, challenge_expired, Status, usable, expired,
  consumed, destroyed, Challenge, Answer, granted, denied, challenge_ttl, invalidate, refusal_of,
  assert_usable, consume, destroy, assert_challenge, is_presented, is_text_at,
}

abbrev pub left_by : Answer → Challenge
left_by (granted c) = c
left_by (denied r c) = c

-- One call of a method, or of `assertAuthorizationChallenge`, at whatever time and with whatever
-- arguments.
pub data Step (platform : Platform) (c : Challenge) : Challenge → Type 0 where
  asserts : (count : ℕ) (now : Option ℕ) → Step platform c (left_by (assert_usable count now c))
  consumes : (count : ℕ) (now : Option ℕ) → Step platform c (left_by (consume count now c))
  destroys : (count : ℕ) → Step platform c (left_by (destroy count c))
  verifies :
      (now : Option ℕ) (input : Value)
      → Step platform c (left_by (assert_challenge platform now input c))

pub data Reach (platform : Platform) (c : Challenge) : Challenge → Type 0 where
  here : Reach platform c c
  next : {d e : Challenge} → Reach platform c d → Step platform d e → Reach platform c e

assert_usable-settled :
    (count : ℕ) (now : Option ℕ) (c : Challenge) {r : Refusal}
    → refusal_of c.status ≡ some r
    → left_by (assert_usable count now c) ≡ c
unfolding assert_usable
assert_usable-settled count now c h = ground (arith, h)

consume-settled :
    (count : ℕ) (now : Option ℕ) (c : Challenge) {r : Refusal}
    → refusal_of c.status ≡ some r
    → left_by (consume count now c) ≡ c
unfolding consume assert_usable
consume-settled count now c h = ground (arith, h)

destroy-settled :
    (count : ℕ) (c : Challenge) {r : Refusal}
    → refusal_of c.status ≡ some r
    → left_by (destroy count c) ≡ c
unfolding destroy
destroy-settled count c h = ground (arith, h)

verify-settled :
    (platform : Platform) (now : Option ℕ) (input : Value) (c : Challenge) {r : Refusal}
    → refusal_of c.status ≡ some r
    → left_by (assert_challenge platform now input c) ≡ c
unfolding assert_challenge assert_usable
verify-settled platform now input c h = ground (arith, h)

denied_again :
    (now : Option ℕ) (c : Challenge) {r : Refusal}
    → refusal_of c.status ≡ some r
    → (assert_usable 0 now c ≡ denied r c) × (consume 0 now c ≡ denied r c)
unfolding consume assert_usable
denied_again now c h = ground (arith, h)

Step-settled :
    (platform : Platform) (c : Challenge) {r : Refusal} {d : Challenge}
    → refusal_of c.status ≡ some r
    → Step platform c d
    → d ≡ c
Step-settled platform c h (asserts count now) = assert_usable-settled count now c h
Step-settled platform c h (consumes count now) = consume-settled count now c h
Step-settled platform c h (destroys count) = destroy-settled count c h
Step-settled platform c h (verifies now input) = verify-settled platform now input c h

Reach-settled :
    (platform : Platform) (c : Challenge) {r : Refusal} {d : Challenge}
    → refusal_of c.status ≡ some r
    → Reach platform c d
    → d ≡ c
Reach-settled platform c h here = refl
Reach-settled platform c {r = r} h (next {d = d} rest step) =
    let same = Reach-settled platform c h rest in
    Step-settled platform d (subst (λ x. refusal_of x.status ≡ some r) (sym same) h) step ∙ same

consume-granted :
    (now : Option ℕ) (c : Challenge) {d : Challenge}
    → consume 0 now c ≡ granted d
    → (d ≡ invalidate consumed c) × (refusal_of d.status ≡ some challenge_consumed)
unfolding consume assert_usable invalidate refusal_of
consume-granted now c h = ground (arith, h)

-- A challenge is consumed once: after a `consume` that returns, whatever calls follow, with whatever
-- arguments and at whatever times, the challenge stays as it is, and every further `assertUsable` and
-- `consume` is refused as consumed.
pub consume-once :
    (platform : Platform) (now later : Option ℕ) (c : Challenge) {d e : Challenge}
    → consume 0 now c ≡ granted d
    → Reach platform d e
    → (e ≡ d)
      × (assert_usable 0 later e ≡ denied challenge_consumed e)
      × (consume 0 later e ≡ denied challenge_consumed e)
consume-once platform now later c {d = d} h calls =
    let settled = (consume-granted now c h).1 in
    let same = Reach-settled platform d settled calls in
    let again =
      denied_again later _
        (subst (λ x. refusal_of x.status ≡ some challenge_consumed) (sym same) settled) in
    (same, again.0, again.1)

abbrev AreZero : List ℕ → Type 0
AreZero [] = Unit
AreZero (b ∷ bs) = (b ≡ 0) × AreZero bs

AreZero-wiped : (bs : List ℕ) → AreZero (map (λ b. 0) bs)
AreZero-wiped [] = tt
AreZero-wiped (b ∷ bs) = (refl, AreZero-wiped bs)

-- What a reachable challenge is: usable and as it was made, or with its nonce wiped.
abbrev pub IsIntact : Challenge → Challenge → Type 0
IsIntact c d = (d ≡ c) ⊎ ((d.status ≢ usable) × AreZero d.nonce × (d.presentation ≡ c.presentation))

IsIntact-invalidate : (s : Status) (c : Challenge) → s ≢ usable → IsIntact c (invalidate s c)
unfolding invalidate
IsIntact-invalidate s c h = inr (h, AreZero-wiped c.nonce, refl)

IsIntact-eq : (s : Status) (c d : Challenge) → s ≢ usable → d ≡ invalidate s c → IsIntact c d
IsIntact-eq s c d h e = subst (IsIntact c) (sym e) (IsIntact-invalidate s c h)

-- Each call leaves the challenge as it is, or invalidates it.
module _ (c : Challenge) where
  abbrev AfterAssert : Challenge → Type 0
  AfterAssert d = (d ≡ c) ⊎ (d ≡ invalidate expired c)

  assert_usable-after :
      (count : ℕ) (now : Option ℕ) → AfterAssert (left_by (assert_usable count now c))
  unfolding assert_usable
  assert_usable-after count now = ground arith

  verify-after :
      (platform : Platform) (now : Option ℕ) (input : Value)
      → AfterAssert (left_by (assert_challenge platform now input c))
  unfolding assert_challenge assert_usable
  verify-after platform now input = ground arith

  consume-after :
      (count : ℕ) (now : Option ℕ)
      → AfterAssert (left_by (consume count now c))
        ⊎ (left_by (consume count now c) ≡ invalidate consumed c)
  unfolding consume assert_usable
  consume-after count now = ground arith

  destroy-after :
      (count : ℕ)
      → (left_by (destroy count c) ≡ c) ⊎ (left_by (destroy count c) ≡ invalidate destroyed c)
  unfolding destroy
  destroy-after count = ground arith

  IsIntact-AfterAssert : (d : Challenge) → AfterAssert d → IsIntact c d
  IsIntact-AfterAssert d (inl e) = inl e
  IsIntact-AfterAssert d (inr e) = IsIntact-eq expired c d (λ q. cc) e

  IsIntact-Step : (platform : Platform) {d : Challenge} → Step platform c d → IsIntact c d
  IsIntact-Step platform (asserts count now) =
      IsIntact-AfterAssert _ (assert_usable-after count now)
  IsIntact-Step platform (verifies now input) =
      IsIntact-AfterAssert _ (verify-after platform now input)
  IsIntact-Step platform (consumes count now) = elim (consume-after count now) [
    | inl e ↦ IsIntact-AfterAssert _ e
    | inr e ↦ IsIntact-eq consumed c _ (λ q. cc) e
  ]
  IsIntact-Step platform (destroys count) = elim (destroy-after count) [
    | inl e ↦ inl e
    | inr e ↦ IsIntact-eq destroyed c _ (λ q. cc) e
  ]

refusal_of-some : (s : Status) → s ≢ usable → (r : Refusal) × (refusal_of s ≡ some r)
unfolding refusal_of
refusal_of-some usable h = absurd (h refl)
refusal_of-some expired h = (challenge_expired, refl)
refusal_of-some consumed h = (challenge_consumed, refl)
refusal_of-some destroyed h = (challenge_destroyed, refl)

-- A challenge that calls lead to from another is that one, or it is no longer usable, its nonce is
-- wiped to zeros, and it presents what the other presents.
pub Reach-IsIntact :
    (platform : Platform) (c : Challenge) {d : Challenge} → Reach platform c d → IsIntact c d
Reach-IsIntact platform c here = inl refl
Reach-IsIntact platform c (next {d = d} {e = e} rest step) = elim (Reach-IsIntact platform c rest) [
  | inl same ↦ subst (λ x. IsIntact x e) same (IsIntact-Step d platform step)
  | inr wiped ↦
      let (r, settled) = refusal_of-some d.status wiped.0 in
      let stays = Step-settled platform d settled step in
      inr (
        subst (λ x. (x.status ≢ usable) × AreZero x.nonce × (x.presentation ≡ c.presentation))
          (sym stays) wiped)
]

-- A challenge is accepted for a manifest only while it is usable, at a reading from its making on and
-- less than twenty minutes later, for a manifest of a collection that presents what it presents; it
-- is left as it is.
pub assert_challenge-granted :
    (platform : Platform) (now : Option ℕ) (input : Value) (c : Challenge) {d : Challenge}
    → assert_challenge platform now input c ≡ granted d
    → (d ≡ c)
      × (c.status ≡ usable)
      × ((at : ℕ) × (now ≡ some at) × (c.created_at ≤ at) × (at < c.created_at + challenge_ttl))
      × ((m : Value) × (create_manifest platform input ≡ some m)
          × (is_text_at "operation" "collect" m ≡ true)
          × (is_presented c.presentation m ≡ true))
unfolding assert_challenge assert_usable refusal_of
assert_challenge-granted platform none input c h = absurd (ground (arith, h))
assert_challenge-granted platform (some at) input c h =
    elim (Option-cases (create_manifest platform input)) [
      | inl bad ↦ absurd (ground (arith, h, bad))
      | inr (m, made) ↦ (
        ground (arith, h, made),
        ground (arith, h),
        (at, refl, ground (arith, h), ground (arith, h)),
        (m, made, ground (arith, h, made), ground (arith, h, made)),
      )
    ]
