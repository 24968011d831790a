-- ===== src/Billing/Validated.antt =====
-- What `validateBilling43Results` of src/contracts/evidence.mjs gives back.
use billing_validation_contr.Common.{
  true, false, ◌&&◌, &&-true, not, String, List, [], ◌∷◌, Option, none, some, ◌≡◌, refl, Bool-cases,
  inl, inr, subst, arith, includes, map, eq_iff,
}
use billing_validation_contr.Checks.{◌>>=◌, check, >>=-then, check-then, some-eq}
use billing_validation_contr.Js.{Value, text, dense_array}
use billing_validation_contr.Billing.Cases.{billing_43_ids, evidence_requirements}
use billing_validation_contr.Billing.Results.{
  result_fields, opaque_text, is_opaque_id, owned_ids, resource_texts, valid_evidence, Result,
  normalize, normalize_all, owned_values, validate_results,
}

pub resource_texts-cons :
    (owned seen : List String) (v : Value) (vs : List Value) {id : String} {rest : List String}
    → opaque_text v ≡ some id
    → (includes owned id && not (includes seen id)) ≡ true
    → resource_texts owned (id ∷ seen) vs ≡ some rest
    → resource_texts owned seen (v ∷ vs) ≡ some (id ∷ rest)
unfolding resource_texts check
resource_texts-cons owned seen v vs is fresh more = rw (is, fresh, more) refl

-- Every identifier is the run's own, well-formed, and none of those seen before.
abbrev OwnedOnce : List String → List String → List String → Type 0
OwnedOnce owned seen [] = Unit
OwnedOnce owned seen (id ∷ ids) =
    (is_opaque_id id ≡ true)
    × (includes owned id ≡ true)
    × (includes seen id ≡ false)
    × OwnedOnce owned (id ∷ seen) ids

opaque_text-opaque : (v : Value) {id : String} → opaque_text v ≡ some id → is_opaque_id id ≡ true
unfolding opaque_text
opaque_text-opaque (text s) {id = id} h = elim (Bool-cases (is_opaque_id s)) [
  | inl good ↦ subst (λ x. is_opaque_id x ≡ true) (some-eq (rw good at h)) good
  | inr bad ↦ let never : none ≡ some id = rw bad at h in cc
]
opaque_text-opaque _ h = cc

resource_texts-OwnedOnce :
    (owned seen : List String) (vs : List Value) {ids : List String}
    → resource_texts owned seen vs ≡ some ids
    → OwnedOnce owned seen ids
unfolding resource_texts
resource_texts-OwnedOnce owned seen [] h = subst (OwnedOnce owned seen) (some-eq h) tt
resource_texts-OwnedOnce owned seen (v ∷ vs) h = >>=-then (opaque_text v) _ h λ id is h1.
    check-then _ _ h1 λ fresh h2.
      >>=-then (resource_texts owned (id ∷ seen) vs) _ h2 λ rest more last.
        let (mine, new) = &&-true _ _ fresh in
        subst (OwnedOnce owned seen) (some-eq last) (
          opaque_text-opaque v is,
          mine,
          ground (arith, new),
          resource_texts-OwnedOnce owned (id ∷ seen) vs more,
        )

-- One result for each identifier, in order.
abbrev pub AreComplete : List String → List String → List Result → Type 0
AreComplete owned [] [] = Unit
AreComplete owned [] (r ∷ rs) = ⊥
AreComplete owned (id ∷ ids) [] = ⊥
AreComplete owned (id ∷ ids) (r ∷ rs) =
    (r.id ≡ id)
    × (r.evidence ≡ map text (evidence_requirements id))
    × OwnedOnce owned [] r.resource_ids
    × AreComplete owned ids rs

valid_evidence-required :
    (vs : List Value) (ks : List String) → valid_evidence vs ks ≡ true → vs ≡ map text ks
unfolding valid_evidence
valid_evidence-required [] [] h = refl
valid_evidence-required [] (k ∷ ks) h = cc
valid_evidence-required (v ∷ vs) [] h = cc
valid_evidence-required (text t ∷ vs) (k ∷ ks) h =
    let (first, others) = &&-true _ _ h in
    let same : t ≡ k = (eq_iff t k).0 first in let rest = valid_evidence-required vs ks others in cc
valid_evidence-required (v ∷ vs) (k ∷ ks) h = cc

abbrev IsResult : List String → String → Result → Type 0
IsResult owned id r =
    (r.id ≡ id)
    × (r.evidence ≡ map text (evidence_requirements id))
    × OwnedOnce owned [] r.resource_ids

normalize-IsResult :
    (owned : List String) (id : String) (v : Value) {r : Result}
    → normalize owned id v ≡ some r
    → IsResult owned id r
unfolding normalize
normalize-IsResult owned id v h = >>=-then (result_fields v) _ h λ fields _ h1.
    >>=-then (dense_array fields.evidence) _ h1 λ evidence _ h2.
      >>=-then (dense_array fields.resource_ids) _ h2 λ resources _ h3. check-then _ _ h3 λ _ h4.
        check-then _ _ h4 λ valid h5.
          >>=-then (resource_texts owned [] resources) _ h5 λ ids texts last.
            subst (IsResult owned id) (some-eq last) (
              refl,
              valid_evidence-required evidence (evidence_requirements id) valid,
              resource_texts-OwnedOnce owned [] resources texts,
            )

pub normalize_all-AreComplete :
    (owned ids : List String) (vs : List Value) {rs : List Result}
    → normalize_all owned ids vs ≡ some rs
    → AreComplete owned ids rs
unfolding normalize_all
normalize_all-AreComplete owned [] [] h = subst (AreComplete owned []) (some-eq h) tt
normalize_all-AreComplete owned [] (v ∷ vs) h = cc
normalize_all-AreComplete owned (id ∷ ids) [] h = cc
normalize_all-AreComplete owned (id ∷ ids) (v ∷ vs) h =
    >>=-then (normalize owned id v) _ h λ r one h1.
      >>=-then (normalize_all owned ids vs) _ h1 λ rs others last.
        let (p, q, o) = normalize-IsResult owned id v one in
        subst (AreComplete owned (id ∷ ids)) (some-eq last)
          (p, q, o, normalize_all-AreComplete owned ids vs others)

-- The identifiers that the options hand over.
unfoldable pub owned_of : Value → Option (List String)
owned_of options = owned_values options >>= owned_ids []

-- Results that are accepted are one for each of the 43 cases, in their order, each with the evidence
-- that its case requires and with resource identifiers that are well-formed, are among those that the
-- options own, and come once in the result.
pub validate_results-AreComplete :
    (results options : Value) {rs : List Result}
    → validate_results results options ≡ some rs
    → (owned : List String) × (owned_of options ≡ some owned) × AreComplete owned billing_43_ids rs
unfolding validate_results owned_of
validate_results-AreComplete results options h = >>=-then (dense_array results) _ h λ values _ h1.
    check-then _ _ h1 λ _ h2. >>=-then (owned_values options) _ h2 λ list given h3.
      >>=-then (owned_ids [] list) _ h3 λ owned mine last.
        (owned, rw given mine, normalize_all-AreComplete owned billing_43_ids values last)
