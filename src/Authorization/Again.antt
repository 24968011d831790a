-- ===== src/Authorization/Again.antt =====
-- The copy that `record` of src/authorization/manifest.mjs makes of a value fits the schema again and
-- is its own copy, where no key comes twice in a record of the schema.
use billing_validation_contr.Common.{
  Bool, true, false, ◌&&◌, &&-true, not, String, str_eq, eq_iff, eq_refl, List, [], ◌∷◌, map,
  Option, some, ◌≡◌, refl, ap, sym, subst, ◌∙◌, arith, nat_eq_iff, length, every, includes,
}
use billing_validation_contr.Checks.{check, >>=-then, check-then, some-eq}
use billing_validation_contr.Js.{
  Value, array, object, nil, cons, plain, Props, field, own_keys, is_key_of, data_value,
}
use billing_validation_contr.Authorization.Schema.{
  Schema, scalar, record_of, jobs_of, Fields, no_fields, a_field, names, has_exactly, sealed,
  props_of, conform, conform_fields, distinct_jobs,
}

-- No key comes twice.
unfoldable mutual
  pub distinct : Schema → Bool
  distinct (scalar test) = true
  distinct (record_of fs) = distinct_fields fs
  distinct (jobs_of fs gs hs) = distinct_fields fs && distinct_fields gs && distinct_fields hs

  pub distinct_fields : Fields → Bool
  distinct_fields no_fields = true
  distinct_fields (a_field k s fs) = not (includes (names fs) k) && distinct s && distinct_fields fs

-- The two objects give the fields the same values.
abbrev Agree : Fields → Props → Props → Type 0
Agree no_fields ps qs = Unit
Agree (a_field k s fs) ps qs = (data_value k ps ≡ data_value k qs) × Agree fs ps qs

Agree-refl : (fs : Fields) (ps : Props) → Agree fs ps ps
Agree-refl no_fields ps = tt
Agree-refl (a_field k s fs) ps = (refl, Agree-refl fs ps)

pub data_value-skip :
    (k l : String) (w : Value) (qs : Props)
    → str_eq k l ≡ false
    → data_value l (field k true w qs) ≡ data_value l qs
data_value-skip k l w qs h = rw (data_value, h) refl

pub data_value-first :
    (k : String) (w : Value) (qs : Props) → data_value k (field k true w qs) ≡ some w
data_value-first k w qs = rw (data_value, eq_refl k) refl

-- A field in front that none of the others is.
Agree-tail :
    (fs : Fields) (k : String) (w : Value) (ps qs : Props)
    → includes (names fs) k ≡ false
    → Agree fs ps (field k true w qs)
    → Agree fs ps qs
Agree-tail no_fields k w ps qs fresh h = tt
Agree-tail (a_field l s fs) k w ps qs fresh h =
    let other : str_eq k l ≡ false = ground (arith, eq_iff k l, eq_iff l k, fresh) in
    let later : includes (names fs) k ≡ false = ground (arith, fresh) in
    (h.0 ∙ data_value-skip k l w qs other, Agree-tail fs k w ps qs later h.1)

own_keys-length :
    (fs : Fields) (ps : Props) {qs : Props}
    → conform_fields fs ps ≡ some qs
    → own_keys qs ≡ map some (names fs)
unfolding conform_fields
own_keys-length no_fields ps h = ap own_keys (sym (some-eq h))
own_keys-length (a_field k s fs) ps h = >>=-then (data_value k ps) _ h λ v _ h1.
    >>=-then (conform s v) _ h1 λ w _ h2. >>=-then (conform_fields fs ps) _ h2 λ rest more last.
      ap own_keys (sym (some-eq last)) ∙ ap (λ ks. some k ∷ ks) (own_keys-length fs ps more)

length-map-some : (ks : List String) → length (map some ks) ≡ length ks
length-map-some [] = refl
length-map-some (k ∷ ks) = omega (arith, length-map-some ks)

every-map-some :
    (all ks : List String)
    → ((k : String) → includes ks k ≡ true → includes all k ≡ true)
    → every (is_key_of all) (map some ks) ≡ true
every-map-some all [] h = refl
every-map-some all (k ∷ ks) h =
    rw (h k (rw (eq_refl k) refl), every-map-some all ks λ l m. h l (ground (arith, m))) refl

has_exactly-own :
    (fs : Fields) (qs : Props) → own_keys qs ≡ map some (names fs) → has_exactly fs plain qs ≡ true
unfolding has_exactly
has_exactly-own fs qs e =
    rw
      (
        e,
        (nat_eq_iff _ _).1 (length-map-some (names fs)),
        every-map-some (names fs) (names fs) λ k m. m,
      )
      refl

pub sealed-eq :
    (fs : Fields) (v : Value) (o : Option Props) {w : Value}
    → sealed fs v o ≡ some w
    → (qs : Props) × (o ≡ some qs) × (w ≡ object plain qs)
unfolding sealed
sealed-eq fs (object proto ps) o h =
    check-then _ _ h λ _ h1. >>=-then o _ h1 λ qs is last. (qs, is, sym (some-eq last))
sealed-eq fs _ o h = cc

sealed-object :
    (fs : Fields) (qs : Props)
    → own_keys qs ≡ map some (names fs)
    → sealed fs (object plain qs) (some qs) ≡ some (object plain qs)
unfolding sealed check
sealed-object fs qs e = rw (has_exactly-own fs qs e) refl

distinct_jobs-again :
    (x y z : Value) {w : Value}
    → distinct_jobs x y z ≡ some w
    → w ≡ array (cons x (cons y (cons z nil)))
unfolding distinct_jobs
distinct_jobs-again x y z h = check-then _ _ h λ _ last. sym (some-eq last)

-- One record, whose copied fields are known to be their own copy.
sealed-again :
    (fs : Fields) (v : Value) {w : Value}
    → sealed fs v (conform_fields fs (props_of v)) ≡ some w
    → ((qs : Props) → conform_fields fs (props_of v) ≡ some qs → conform_fields fs qs ≡ some qs)
    → sealed fs w (conform_fields fs (props_of w)) ≡ some w
sealed-again fs v h again =
    let (qs, copied, is) = sealed-eq fs v (conform_fields fs (props_of v)) h in
    let own = own_keys-length fs (props_of v) copied in
    subst (λ x. sealed fs x (conform_fields fs (props_of x)) ≡ some x) (sym is)
      (ap (sealed fs (object plain qs)) (again qs copied) ∙ sealed-object fs qs own)

jobs-again :
    (fs gs hs : Fields) (a b c : Value) {w : Value}
    → conform (jobs_of fs gs hs) (array (cons a (cons b (cons c nil)))) ≡ some w
    → ((qs : Props) → conform_fields fs (props_of a) ≡ some qs → conform_fields fs qs ≡ some qs)
    → ((qs : Props) → conform_fields gs (props_of b) ≡ some qs → conform_fields gs qs ≡ some qs)
    → ((qs : Props) → conform_fields hs (props_of c) ≡ some qs → conform_fields hs qs ≡ some qs)
    → conform (jobs_of fs gs hs) w ≡ some w
unfolding conform
jobs-again fs gs hs a b c h on_a on_b on_c =
    >>=-then (sealed fs a (conform_fields fs (props_of a))) _ h λ x one h1.
      >>=-then (sealed gs b (conform_fields gs (props_of b))) _ h1 λ y two h2.
        >>=-then (sealed hs c (conform_fields hs (props_of c))) _ h2 λ z three last.
          subst (λ v. conform (jobs_of fs gs hs) v ≡ some v) (sym (distinct_jobs-again x y z last))
            (rw
              (sealed-again fs a one on_a, sealed-again gs b two on_b, sealed-again hs c three on_c)
              (last ∙ ap some (distinct_jobs-again x y z last)))

field-again :
    (k : String) (s : Schema) (fs : Fields) (rs : Props) {w : Value} {rest : Props}
    → data_value k rs ≡ some w
    → conform s w ≡ some w
    → conform_fields fs rs ≡ some rest
    → conform_fields (a_field k s fs) rs ≡ some (field k true w rest)
unfolding conform_fields
field-again k s fs rs value first more = rw (value, first, more) refl

scalar-again :
    (test : Value → Bool) (v : Value) {w : Value}
    → conform (scalar test) v ≡ some w
    → conform (scalar test) w ≡ some w
unfolding conform
scalar-again test v h =
    check-then _ _ h
      λ passed last. subst (λ x. conform (scalar test) x ≡ some x) (some-eq last) (h ∙ sym last)

mutual
  unfolding conform conform_fields distinct distinct_fields

  pub conform-again :
      (s : Schema) (v : Value) {w : Value}
      → distinct s ≡ true
      → conform s v ≡ some w
      → conform s w ≡ some w
  conform-again (scalar test) v d h = scalar-again test v h
  conform-again (record_of fs) v d h =
      sealed-again fs v h λ qs copied. fields-again fs (props_of v) qs d copied (Agree-refl fs qs)
  conform-again (jobs_of fs gs hs) (array (cons a (cons b (cons c nil)))) d h =
      jobs-again fs gs hs a b c h
        (λ qs is.
          fields-again fs (props_of a) qs ((&&-true _ _ ((&&-true _ _ d).0)).0) is
            (Agree-refl fs qs))
        (λ qs is.
          fields-again gs (props_of b) qs ((&&-true _ _ ((&&-true _ _ d).0)).1) is
            (Agree-refl gs qs))
        (λ qs is. fields-again hs (props_of c) qs ((&&-true _ _ d).1) is (Agree-refl hs qs))
  conform-again (jobs_of fs gs hs) _ d h = cc

  fields-again :
      (fs : Fields) (ps rs : Props) {qs : Props}
      → distinct_fields fs ≡ true
      → conform_fields fs ps ≡ some qs
      → Agree fs rs qs
      → conform_fields fs rs ≡ some qs
  fields-again no_fields ps rs d h agree = h
  fields-again (a_field k s fs) ps rs d h agree =
      let (d1, d_rest) = &&-true _ _ d in
      let (fresh, d_s) = &&-true (not (includes (names fs) k)) (distinct s) d1 in
      >>=-then (data_value k ps) _ h λ v _ h1. >>=-then (conform s v) _ h1 λ w first h2.
        >>=-then (conform_fields fs ps) _ h2 λ rest more last.
          let whole = subst (λ x. data_value k rs ≡ data_value k x) (sym (some-eq last)) agree.0 in
          let tail =
            Agree-tail fs k w rs rest (ground (arith, fresh))
              (subst (Agree fs rs) (sym (some-eq last)) agree.1) in
          field-again k s fs rs (whole ∙ data_value-first k w rest) (conform-again s v d_s first)
            (fields-again fs ps rs d_rest more tail)
          ∙ last
