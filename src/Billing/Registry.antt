-- ===== src/Billing/Registry.antt =====
-- What `assertCompleteBilling43Contracts` and `runBilling43Scenario` of src/contracts/billing-43.mjs
-- ensure.
use billing_validation_contr.Common.{
  Bool, true, false, ◌||◌, &&-true, String, str_eq, eq_iff, List, [], ◌∷◌, Option, none, some, ◌≡◌,
  ◌≢◌, refl, sym, subst, arith, every, includes, find, Bool-cases, inl, inr,
}
use billing_validation_contr.Js.{Value, text, array, object, dense_array}
use billing_validation_contr.Billing.Cases.{billing_43_ids, task5_ids, task6_ids}
use billing_validation_contr.Billing.Contracts.{
  Reply, ok, refused, Code, ◌>>=◌, ◌>>◌, require, require_some, snapshot_contract, valid_contract,
  Registered, is_registered, register, register_all, is_complete, has_id, in_order, assert_complete,
  ordered_contracts, assert_complete_contracts, run_scenario, known_id,
}

module _ {A B Q : Type 0} {b : B} where
  >>=-then :
      (m : Reply A) (f : A → Reply B) → (m >>= f) ≡ ok b → ((a : A) → m ≡ ok a → f a ≡ ok b → Q) → Q
  >>=-then (ok a) f h k = k a refl h
  >>=-then (refused c) f h k = cc

require-then :
    {B Q : Type 0} {b : B} (test : Bool) (c : Code) (rest : Reply B)
    → (require test c >> rest) ≡ ok b
    → (test ≡ true → rest ≡ ok b → Q)
    → Q
unfolding require
require-then true c rest h k = k refl h
require-then false c rest h k = cc

require_some-ok :
    {A : Type 0} {a : A} (o : Option A) (c : Code) → require_some o c ≡ ok a → o ≡ some a
unfolding require_some
require_some-ok none c h = cc
require_some-ok (some b) c h = cc

ok-eq : {A : Type 0} {a b : A} → ok a ≡ ok b → a ≡ b
ok-eq h = cc

abbrev All : (Registered → Type 0) → List Registered → Type 0
All P [] = Unit
All P (r ∷ rs) = P r × All P rs

-- An entry's contract is valid for the identifier.
abbrev IsValid : Registered → Type 0
IsValid r = valid_contract r.id r.contract ≡ true

All-find :
    (P : Registered → Type 0) (p : Registered → Bool) (rs : List Registered) {r : Registered}
    → All P rs
    → find p rs ≡ some r
    → P r
All-find P p [] ps h = cc
All-find P p (q ∷ qs) {r = r} ps h = elim (Bool-cases (p q)) [
  | inl fits ↦
      let hit : some q ≡ some r = rw fits at h in let same : q ≡ r = cc in subst P same ps.0
  | inr other ↦ All-find P p qs ps.1 (rw other at h)
]

register-IsValid :
    (by_id : List Registered) (v : Value) {next : List Registered}
    → All IsValid by_id
    → register by_id v ≡ ok next
    → All IsValid next
unfolding register
register-IsValid by_id v valid h =
    >>=-then (require_some (snapshot_contract v) _) _ h λ captured _ h1.
      >>=-then (require_some (known_id captured.id) _) _ h1 λ id _ h2. require-then _ _ _ h2 λ _ h3.
        >>=-then (require_some captured.contract _) _ h3 λ contract _ h4.
          require-then _ _ _ h4 λ good last. subst (All IsValid) (ok-eq last) (good, valid)

register_all-IsValid :
    (by_id : List Registered) (vs : List Value) {last : List Registered}
    → All IsValid by_id
    → register_all by_id vs ≡ ok last
    → All IsValid last
unfolding register_all
register_all-IsValid by_id [] valid h = subst (All IsValid) (ok-eq h) valid
register_all-IsValid by_id (v ∷ vs) valid h =
    >>=-then (register by_id v) _ h
      λ next first rest. register_all-IsValid next vs (register-IsValid by_id v valid first) rest

-- One valid entry for each identifier, in order.
abbrev pub Entries : List String → List Registered → Type 0
Entries [] [] = Unit
Entries [] (r ∷ rs) = ⊥
Entries (id ∷ ids) [] = ⊥
Entries (id ∷ ids) (r ∷ rs) = (r.id ≡ id) × IsValid r × Entries ids rs

is_registered-find :
    (id : String) (rs : List Registered)
    → is_registered rs id ≡ true
    → (r : Registered) × (find (has_id id) rs ≡ some r) × (r.id ≡ id)
is_registered-find id [] h = cc
is_registered-find id (q ∷ qs) h = elim (Bool-cases (str_eq q.id id)) [
  | inl fits ↦ (q, rw fits refl, (eq_iff q.id id).0 fits)
  | inr other ↦
      let (r, hit, same) = is_registered-find id qs (rw other at h) in (r, rw other hit, same)
]

in_order-cons :
    (id : String) (ids : List String) (by_id : List Registered) {r : Registered}
    → find (has_id id) by_id ≡ some r
    → in_order (id ∷ ids) by_id ≡ r ∷ in_order ids by_id
unfolding in_order
in_order-cons id ids by_id {r = r} hit =
    subst
      (λ o.
        elim o [ none ↦ in_order ids by_id | some q ↦ q ∷ in_order ids by_id ]
        ≡ r ∷ in_order ids by_id)
      (sym hit) refl

in_order-Entries :
    (ids : List String) (by_id : List Registered)
    → every (is_registered by_id) ids ≡ true
    → All IsValid by_id
    → Entries ids (in_order ids by_id)
unfolding in_order
in_order-Entries [] by_id h valid = tt
in_order-Entries (id ∷ ids) by_id h valid =
    let (here, rest) = &&-true _ _ h in
    let (r, hit, same) = is_registered-find id by_id here in
    subst (Entries (id ∷ ids)) (sym (in_order-cons id ids by_id hit))
      (same, All-find IsValid (has_id id) by_id valid hit, in_order-Entries ids by_id rest valid)

is_complete-every :
    (by_id : List Registered)
    → is_complete by_id ≡ true
    → every (is_registered by_id) billing_43_ids ≡ true
unfolding is_complete
is_complete-every by_id h = (&&-true _ _ h).1

assert_complete-Entries :
    (vs : List Value) {rs : List Registered}
    → assert_complete vs ≡ ok rs
    → Entries billing_43_ids rs
unfolding assert_complete
assert_complete-Entries vs h = >>=-then (register_all [] vs) _ h λ by_id all h1.
    require-then _ _ _ h1 λ complete last. subst (Entries billing_43_ids) (ok-eq last) (
      in_order-Entries billing_43_ids by_id (is_complete-every by_id complete)
        (register_all-IsValid [] vs tt all))

-- A registry that is accepted, as an array or as a record, has one entry for each of the 43 cases, in
-- their order, and each entry's contract is valid for its case.
pub assert_complete_contracts-Entries :
    (contracts : Value) {rs : List Registered}
    → assert_complete_contracts contracts ≡ ok rs
    → Entries billing_43_ids rs
unfolding assert_complete_contracts
assert_complete_contracts-Entries (array vs) h =
    >>=-then (require_some (dense_array (array vs)) _) _ h
      λ values _ last. assert_complete-Entries values last
assert_complete_contracts-Entries (object proto ps) h = require-then _ _ _ h λ _ h1.
    >>=-then (require_some (ordered_contracts billing_43_ids ps) _) _ h1
      λ values _ last. assert_complete-Entries values last
assert_complete_contracts-Entries _ h = cc

known_id-includes :
    (v : Value) {id : String} → known_id v ≡ some id → includes billing_43_ids id ≡ true
unfolding known_id
known_id-includes (text s) {id = id} h = elim (Bool-cases (includes billing_43_ids s)) [
  | inl known ↦
      let hit : some s ≡ some id = rw known at h in
      let same : s ≡ id = cc in subst (λ x. includes billing_43_ids x ≡ true) same known
  | inr unknown ↦ let none_left : none ≡ some id = rw unknown at h in cc
]
known_id-includes _ h = cc

-- What each element of a list passes, a text that the list includes passes.
every-includes :
    (ids : List String) (test : String → Bool)
    → every test ids ≡ true
    → (id : String) → includes ids id ≡ true
    → test id ≡ true
every-includes [] test h id hit = cc
every-includes (x ∷ ids) test h id hit =
    let (first, others) = &&-true _ _ h in
    elim (Bool-cases (str_eq x id)) [
      | inl same ↦ subst (λ s. test s ≡ true) ((eq_iff x id).0 same) first
      | inr other ↦ every-includes ids test others id (ground (arith, hit, other))
    ]

abbrev is_blocked : String → Bool
is_blocked id = includes task5_ids id || includes task6_ids id

blocked_halves : every is_blocked billing_43_ids ≡ true
unfolding billing_43_ids task5_ids task6_ids
blocked_halves = refl

-- `runBilling43Scenario` never gets to the call of `createFixture`, for any case, any registry and any
-- fixture function: every case is one of the two blocked halves.
pub run_scenario-blocked :
    (id contracts create_fixture : Value) (r : Registered)
    → run_scenario id contracts create_fixture ≢ ok r
unfolding run_scenario
run_scenario-blocked id contracts create_fixture r h =
    >>=-then (assert_complete_contracts contracts) _ h λ registry _ h1.
      >>=-then (require_some (known_id id) _) _ h1 λ case_id known h2. require-then _ _ _ h2 λ _ h3.
        require-then _ _ _ h3 λ open_case _.
          let blocked =
            every-includes billing_43_ids is_blocked blocked_halves case_id
              (known_id-includes id (require_some-ok _ _ known)) in
          let never : false ≡ true = rw blocked at open_case in cc
