-- ===== src/Authorization/Copied.antt =====
-- What the copy that `record` of src/authorization/manifest.mjs makes of a value holds at a key of the
-- schema.
use billing_validation_contr.Common.{
  Bool, true, false, String, str_eq, eq_iff, Option, none, some, ◌≡◌, inl, inr, refl, ap, sym,
  subst, ◌∙◌, arith, if◌then◌else◌, Bool-cases,
}
use billing_validation_contr.Checks.{>>=-then, check-then, some-eq}
use billing_validation_contr.Js.{Value, object, plain, Props, field, data_value}
use billing_validation_contr.Authorization.Schema.{
  Schema, scalar, record_of, Fields, no_fields, a_field, text_at, conform, conform_fields,
}
use billing_validation_contr.Authorization.Again.{data_value-first, data_value-skip, sealed-eq}

abbrev pub schema_at : String → Fields → Option Schema
schema_at k no_fields = none
schema_at k (a_field l s fs) = if str_eq l k then some s else schema_at k fs

-- The value there is copied as its schema says.
abbrev pub CopiedAt : String → Schema → Props → Props → Type 0
CopiedAt k s ps qs =
    (v : Value) × (w : Value) × (data_value k ps ≡ some v)
    × (conform s v ≡ some w)
    × (data_value k qs ≡ some w)

CopiedAt-first :
    (k l : String) (s s' : Schema) (v w : Value) (ps rest : Props)
    → str_eq l k ≡ true
    → some s' ≡ some s
    → data_value l ps ≡ some v
    → conform s' v ≡ some w
    → CopiedAt k s ps (field l true w rest)
CopiedAt-first k l s s' v w ps rest here same value copied =
    let is : l ≡ k = (eq_iff l k).0 here in
    (
      v,
      w,
      subst (λ x. data_value x ps ≡ some v) is value,
      subst (λ x. conform x v ≡ some w) (some-eq same) copied,
      subst (λ x. data_value x (field l true w rest) ≡ some w) is (data_value-first l w rest),
    )

CopiedAt-skip :
    (k l : String) (s : Schema) (w : Value) (ps rest : Props)
    → str_eq l k ≡ false
    → CopiedAt k s ps rest
    → CopiedAt k s ps (field l true w rest)
CopiedAt-skip k l s w ps rest other (v, x, value, copied, found) =
    (v, x, value, copied, data_value-skip l k w rest other ∙ found)

pub conform_fields-CopiedAt :
    (k : String) (fs : Fields) (ps : Props) {s : Schema} {qs : Props}
    → schema_at k fs ≡ some s
    → conform_fields fs ps ≡ some qs
    → CopiedAt k s ps qs
unfolding conform_fields
conform_fields-CopiedAt k no_fields ps is h = cc
conform_fields-CopiedAt k (a_field l s' fs) ps {s = s} {qs = qs} is h =
    >>=-then (data_value l ps) _ h λ v value h1. >>=-then (conform s' v) _ h1 λ w copied h2.
      >>=-then (conform_fields fs ps) _ h2 λ rest more last.
        subst (CopiedAt k s ps) (some-eq last) (elim (Bool-cases (str_eq l k)) [
          | inl here ↦
              CopiedAt-first k l s s' v w ps rest here (ground (arith, is, here)) value copied
          | inr other ↦
              CopiedAt-skip k l s w ps rest other
                (conform_fields-CopiedAt k fs ps (ground (arith, is, other)) more)
        ])

-- The copy of a record is an object with the copied fields.
pub conform-record :
    (fs : Fields) (ps : Props) {m : Value}
    → conform (record_of fs) (object plain ps) ≡ some m
    → (qs : Props) × (conform_fields fs ps ≡ some qs) × (m ≡ object plain qs)
unfolding conform
conform-record fs ps h = sealed-eq fs (object plain ps) (conform_fields fs ps) h

scalar-same :
    (test : Value → Bool) (v : Value) {w : Value} → conform (scalar test) v ≡ some w → w ≡ v
unfolding conform
scalar-same test v h = check-then _ _ h λ _ last. sym (some-eq last)

-- A scalar is copied as it is.
pub conform-scalar :
    (k : String) (fs : Fields) (ps : Props) {test : Value → Bool} {m : Value}
    → schema_at k fs ≡ some (scalar test)
    → conform (record_of fs) (object plain ps) ≡ some m
    → text_at k m ≡ text_at k (object plain ps)
conform-scalar k fs ps {test = test} is h =
    let (qs, copied, made) = conform-record fs ps h in
    let (v, w, given, same, found) = conform_fields-CopiedAt k fs ps is copied in
    let there = found ∙ ap some (scalar-same test v same) ∙ sym given in
    ap (text_at k) made ∙ rw (text_at, there) refl

-- A scalar within a record within the record.
pub conform-inner :
    (k l : String) (fs gs : Fields) (ps rs : Props) {test : Value → Bool} {m : Value}
    → schema_at k fs ≡ some (record_of gs)
    → schema_at l gs ≡ some (scalar test)
    → data_value k ps ≡ some (object plain rs)
    → conform (record_of fs) (object plain ps) ≡ some m
    → (qs : Props) × (w : Value) × (m ≡ object plain qs)
      × (data_value k qs ≡ some w)
      × (text_at l w ≡ text_at l (object plain rs))
conform-inner k l fs gs ps rs is inner given h =
    let (qs, copied, made) = conform-record fs ps h in
    let (v, w, there, same, found) = conform_fields-CopiedAt k fs ps is copied in
    let value : v ≡ object plain rs = some-eq (sym there ∙ given) in
    let whole : conform (record_of gs) (object plain rs) ≡ some w =
      subst (λ x. conform (record_of gs) x ≡ some w) value same in
    (qs, w, made, found, conform-scalar l gs rs inner whole)
