-- ===== src/Json/Laws.antt =====
-- `canonicalJson` of src/contracts/evidence.mjs does not see the order of keys.
use billing_validation_contr.Common.{
  ℕ, Bool, true, false, String, List, [], ◌∷◌, ◌≡◌, ◌≢◌, ◌⊎◌, inl, inr, refl, sym, ◌∙◌, arith,
  codes, nat_eq, Bool-cases,
}
use billing_validation_contr.Js.{
  Value, array, object, Values, nil, cons, Props, end, field, Prototype,
}
use billing_validation_contr.Json.Order.{units, below, is_below, Pair, insert, sort}
use billing_validation_contr.Json.Canonical.{
  canonical, canonical_items, canonical_fields, canonical_object,
}

below_trans : (a b c : List ℕ) → below a b ≡ true → below b c ≡ true → below a c ≡ true
below_trans [] [] [] p q = cc
below_trans [] (y ∷ b) [] p q = cc
below_trans [] b (z ∷ c) p q = refl
below_trans (x ∷ a) [] c p q = cc
below_trans (x ∷ a) (y ∷ b) [] p q = cc
below_trans (x ∷ a) (y ∷ b) (z ∷ c) p q = ground (arith, below_trans a b c)

below_irrefl : (a : List ℕ) → below a a ≡ false
below_irrefl [] = refl
below_irrefl (x ∷ a) = ground (arith, below_irrefl a)

below_total : (a b : List ℕ) → a ≢ b → (below a b ≡ true) ⊎ (below b a ≡ true)
below_total [] [] ne = absurd (ne refl)
below_total [] (y ∷ b) ne = inl refl
below_total (x ∷ a) [] ne = inr refl
below_total (x ∷ a) (y ∷ b) ne = elim (Bool-cases (nat_eq x y)) [
  | inl same ↦
      let tails : a ≢ b = (λ e. ne (let heads : x ≡ y = ground arith in cc)) in
      ground (arith, below_total a b tails)
  | inr other ↦ ground arith
]

below_asym : (a b : List ℕ) → below a b ≡ true → below b a ≡ false
below_asym a b p = ground (arith, below_trans a b a, below_irrefl a)

-- Two keys are two texts of JavaScript: they differ in their code units.
abbrev pub Differ : String → String → Type 0
Differ k l = units (codes k) ≢ units (codes l)

insert-below :
    (p q : Pair) (l : List Pair)
    → is_below p.key q.key ≡ true
    → insert p (insert q l) ≡ insert q (insert p l)
unfolding insert
insert-below p q [] h = rw (below_asym _ _ h, h) refl
insert-below p q (x ∷ l) h = ground (
  arith,
  h,
  below_asym (units (codes p.key)) (units (codes q.key)) h,
  below_trans (units (codes x.key)) (units (codes p.key)) (units (codes q.key)),
  insert-below p q l h,
)

insert-swap :
    (p q : Pair) (l : List Pair)
    → Differ p.key q.key
    → insert p (insert q l) ≡ insert q (insert p l)
insert-swap p q l d = elim (below_total _ _ d) [
  | inl h ↦ insert-below p q l h
  | inr h ↦ sym (insert-below q p l h)
]

-- Two JSON values that differ in the order of the keys of objects, at any depth.
mutual
  pub data Same : Value → Value → Type 0 where
    same : {v : Value} → Same v v
    elements : {vs ws : Values} → SameItems vs ws → Same (array vs) (array ws)
    properties :
        {p q : Prototype} {ps qs : Props} → SameFields ps qs → Same (object p ps) (object q qs)

  pub data SameItems : Values → Values → Type 0 where
    no_items : SameItems nil nil
    one_more :
        {v w : Value} {vs ws : Values}
        → Same v w
        → SameItems vs ws
        → SameItems (cons v vs) (cons w ws)

  pub data SameFields : Props → Props → Type 0 where
    no_fields : SameFields end end
    keep :
        {k : String} {e : Bool} {v w : Value} {ps qs : Props}
        → Same v w
        → SameFields ps qs
        → SameFields (field k e v ps) (field k e w qs)
    swap :
        {k l : String} {e f : Bool} {v w : Value} {ps : Props}
        → Differ k l
        → SameFields (field k e v (field l f w ps)) (field l f w (field k e v ps))
    trans : {ps qs rs : Props} → SameFields ps qs → SameFields qs rs → SameFields ps rs

module _ (stringify : Value → List ℕ) where
  abbrev sorted : Props → List Pair
  sorted ps = sort (canonical_fields stringify ps)

  sorted-swap :
      (k l : String) (e f : Bool) (v w : Value) (ps : Props)
      → Differ k l
      → sorted (field k e v (field l f w ps)) ≡ sorted (field l f w (field k e v ps))
  unfolding canonical_fields sort
  sorted-swap k l true true v w ps d = insert-swap _ _ (sorted ps) d
  sorted-swap k l true false v w ps d = refl
  sorted-swap k l false true v w ps d = refl
  sorted-swap k l false false v w ps d = refl

  mutual
    unfolding canonical canonical_items canonical_fields canonical_object sort

    values-Same : {v w : Value} → Same v w → canonical stringify v ≡ canonical stringify w
    values-Same same = refl
    values-Same (elements h) = rw (items-SameItems h) refl
    values-Same (properties h) = rw (sorted-SameFields h) refl

    items-SameItems :
        {vs ws : Values}
        → SameItems vs ws
        → canonical_items stringify vs ≡ canonical_items stringify ws
    items-SameItems no_items = refl
    items-SameItems (one_more h t) = rw (values-Same h, items-SameItems t) refl

    sorted-SameFields : {ps qs : Props} → SameFields ps qs → sorted ps ≡ sorted qs
    sorted-SameFields no_fields = refl
    sorted-SameFields (keep {e = true} h t) = rw (values-Same h, sorted-SameFields t) refl
    sorted-SameFields (keep {e = false} h t) = sorted-SameFields t
    sorted-SameFields (swap {k = k} {l = l} {e = e} {f = f} {v = v} {w = w} {ps = ps} d) =
        sorted-swap k l e f v w ps d
    sorted-SameFields (trans h t) = sorted-SameFields h ∙ sorted-SameFields t

  -- Two JSON values that differ only in the order of the keys of objects, at any depth, have the same
  -- canonical text, whatever the platform prints for keys and for values that are no objects. The keys
  -- that change places differ in their code units.
  pub canonical-Same : {v w : Value} → Same v w → canonical stringify v ≡ canonical stringify w
  canonical-Same h = values-Same h
