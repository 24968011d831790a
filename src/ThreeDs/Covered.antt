-- ===== src/ThreeDs/Covered.antt =====
-- What `expectedGrantCount` of src/billing/observations.mjs says of the grants.
use billing_validation_contr.Common.{
  ◌≤◌, true, false, ◌&&◌, String, str_eq, List, [], ◌∷◌, ◌≡◌, ◌⊎◌, inl, inr, arith, length, every,
  some_of, includes, Bool-cases, eq_iff, &&-true,
}
use billing_validation_contr.ThreeDs.Access.{
  Grant, Access, filter, is_active, is_active_for, are_new, are_exact, expected_grant_count,
}

-- Every active grant is of the contract and of one of its areas.
abbrev pub AreOf : Access → List Grant → Type 0
AreOf x [] = Unit
AreOf x (g ∷ gs) =
    ((is_active g ≡ false) ⊎ ((g.contract_id ≡ x.contract_id) × (includes x.areas g.area ≡ true)))
    × AreOf x gs

-- Some active grant is of the area.
abbrev pub HasArea : String → List Grant → Type 0
HasArea area [] = ⊥
HasArea area (g ∷ gs) = ((is_active g ≡ true) × (g.area ≡ area)) ⊎ HasArea area gs

abbrev pub HaveAreas : List String → List Grant → Type 0
HaveAreas [] gs = Unit
HaveAreas (area ∷ areas) gs = HasArea area gs × HaveAreas areas gs

-- The active grants are those of the access: one for each area and no other.
abbrev pub IsExact : Access → List Grant → Type 0
IsExact x gs = AreOf x gs × HaveAreas x.areas gs × (length (filter is_active gs) ≡ length x.areas)

AreOf-every :
    (x : Access) (gs : List Grant)
    → every
        (λ g. str_eq g.contract_id x.contract_id && includes x.areas g.area)
        (filter is_active gs)
      ≡ true
    → AreOf x gs
unfolding filter
AreOf-every x [] h = tt
AreOf-every x (g ∷ gs) h = elim (Bool-cases (is_active g)) [
  | inl active ↦
      let all = &&-true _ _ (rw active at h) in
      let (same, fits) = &&-true _ _ all.0 in
      (inr ((eq_iff _ _).0 same, fits), AreOf-every x gs all.1)
  | inr other ↦ (inl other, AreOf-every x gs (rw other at h))
]

HasArea-some :
    (area : String) (gs : List Grant)
    → some_of (λ g. str_eq g.area area) (filter is_active gs) ≡ true
    → HasArea area gs
unfolding filter
HasArea-some area [] h = cc
HasArea-some area (g ∷ gs) h = elim (Bool-cases (is_active g)) [
  | inl active ↦ elim (Bool-cases (str_eq g.area area)) [
    | inl same ↦ inl (active, (eq_iff _ _).0 same)
    | inr differ ↦
        let h1 : some_of (λ g. str_eq g.area area) (g ∷ filter is_active gs) ≡ true =
          rw active at h in
        inr (HasArea-some area gs (ground (arith, h1, differ)))
  ]
  | inr other ↦ inr (HasArea-some area gs (rw other at h))
]

HaveAreas-every :
    (areas : List String) (gs : List Grant)
    → every (λ area. some_of (λ g. str_eq g.area area) (filter is_active gs)) areas ≡ true
    → HaveAreas areas gs
HaveAreas-every [] gs h = tt
HaveAreas-every (area ∷ areas) gs h =
    let (found, rest) = &&-true _ _ h in (HasArea-some area gs found, HaveAreas-every areas gs rest)

are_exact-IsExact : (gs : List Grant) (x : Access) → are_exact gs x ≡ true → IsExact x gs
unfolding are_exact
are_exact-IsExact gs x h =
    let (others, cover) = &&-true _ _ h in
    let fit = (&&-true _ _ others).1 in
    (AreOf-every x gs fit, HaveAreas-every x.areas gs cover, ground (arith, h))

zero_areas : (x : Access) → 1 ≤ length x.areas → 0 ≡ length x.areas → ⊥
zero_areas x h e = ground (arith, h, e)

-- Where the count of the expected grants is that of the areas, the active grants are one for each
-- area of the access, and no other; there was no active grant of the contract before.
pub expected_grant_count-IsExact :
    (baseline current delta : List Grant) (x : Access)
    → 1 ≤ length x.areas
    → expected_grant_count baseline current delta x ≡ length x.areas
    → IsExact x current × (length (filter (is_active_for x) baseline) ≡ 0)
unfolding expected_grant_count are_new
expected_grant_count-IsExact baseline current delta x some_area h =
    elim (Bool-cases (are_new baseline delta x && are_exact current x)) [
      | inl both ↦
          let (new, exact) = &&-true (are_new baseline delta x) (are_exact current x) both in
          (are_exact-IsExact current x exact, ground (arith, new))
      | inr neither ↦ absurd (zero_areas x some_area (rw neither at h))
    ]
