-- ===== src/Syncer/Whole/Synced.antt =====
-- What the checks of whole objects make of an object.
use cluster_api_provider_nes.Base.{◌≡◌, refl, ap, ◌↔◌, ◌⊎◌, inl, inr, none, some, arith, Bool-cases}
use cluster_api_provider_nes.Syncer.Meta.{settle}
use cluster_api_provider_nes.Syncer.Services.{DeepEqual}
use cluster_api_provider_nes.Syncer.Whole.{
  Whole, CustomResourceDefinition, PersistentVolumeSpec, check_storage_class_equality,
  check_priority_class_equality, check_crd_equality, check_pv_spec_equality, unless_same,
}

unless_same-none :
    {A : Type 0} ⦃D : DeepEqual A⦄ (v copy : A) → (unless_same v copy ≡ none) ↔ (v ≡ copy)
unless_same-none ⦃D⦄ v copy =
    ((λ h. ground (arith, h, D.same_iff v copy)), (λ h. ground (arith, (D.same_iff v copy).1 h)))

unless_same_cases :
    {A : Type 0} ⦃D : DeepEqual A⦄ (v copy : A)
    → ((unless_same v copy ≡ none) × (v ≡ copy)) ⊎ (unless_same v copy ≡ some copy)
unless_same_cases ⦃D⦄ v copy = elim (Bool-cases (D.same v copy)) [
  | inl h ↦ inl (rw h, (D.same_iff v copy).0 h)
  | inr h ↦ inr (rw h)
]

-- The object that the check compares with takes the place of the tenant's.
settle-unless_same :
    {A : Type 0} ⦃D : DeepEqual A⦄ (v copy : A) → settle v (unless_same v copy) ≡ copy
settle-unless_same v copy = elim (unless_same_cases v copy) [
  | inl (h, same) ↦ rw h same
  | inr h ↦ rw h
]

module _ {Meta TypeMeta Content : Type 0} ⦃D : DeepEqual (Whole Meta TypeMeta Content)⦄ where
  -- A storage class of a tenant, once the update that the check gives has been applied to it, is the
  -- super cluster's with the tenant's metadata; the check gives nothing exactly when this is what the
  -- tenant has, and so gives nothing the next time.
  pub check_storage_class_equality_lem :
      (p v : Whole Meta TypeMeta Content)
      → let v' = settle v (check_storage_class_equality p v) in
        (v'.content ≡ p.content)
        × (v'.object_meta ≡ v.object_meta)
        × (v'.type_meta ≡ v.type_meta)
        × ((check_storage_class_equality p v ≡ none) ↔ (v.content ≡ p.content))
        × (check_storage_class_equality p v' ≡ none)
  unfolding check_storage_class_equality
  check_storage_class_equality_lem p v =
      let copy : Whole Meta TypeMeta Content = record p {
        object_meta = v.object_meta;
        type_meta = v.type_meta;
      } in
      let same = settle-unless_same v copy in
      (
        ap (λ w. w.content) same,
        ap (λ w. w.object_meta) same,
        ap (λ w. w.type_meta) same,
        (
          (λ h. ap (λ w. w.content) ((unless_same-none v copy).0 h)),
          (λ h. (unless_same-none v copy).1 (ap (λ c. record v { content = c }) h)),
        ),
        rw same ((unless_same-none copy copy).1 refl),
      )

  -- The same for a priority class.
  pub check_priority_class_equality_lem :
      (p v : Whole Meta TypeMeta Content)
      → let v' = settle v (check_priority_class_equality p v) in
        (v'.content ≡ p.content)
        × (v'.object_meta ≡ v.object_meta)
        × (v'.type_meta ≡ v.type_meta)
        × (check_priority_class_equality p v' ≡ none)
  unfolding check_priority_class_equality
  check_priority_class_equality_lem p v =
      let copy : Whole Meta TypeMeta Content = record p {
        object_meta = v.object_meta;
        type_meta = v.type_meta;
      } in
      let same = settle-unless_same v copy in
      (
        ap (λ w. w.content) same,
        ap (λ w. w.object_meta) same,
        ap (λ w. w.type_meta) same,
        rw same ((unless_same-none copy copy).1 refl),
      )

module _ {Meta TypeMeta Conditions Content : Type 0}
    ⦃D : DeepEqual (CustomResourceDefinition Meta TypeMeta Conditions Content)⦄ where
  -- A custom resource definition of a tenant, once the update has been applied, is the super
  -- cluster's with the tenant's metadata and conditions, and the next check gives nothing.
  pub check_crd_equality_lem :
      (p v : CustomResourceDefinition Meta TypeMeta Conditions Content)
      → let v' = settle v (check_crd_equality p v) in
        (v'.content ≡ p.content)
        × (v'.object_meta ≡ v.object_meta)
        × (v'.conditions ≡ v.conditions)
        × (check_crd_equality p v' ≡ none)
  unfolding check_crd_equality
  check_crd_equality_lem p v =
      let copy : CustomResourceDefinition Meta TypeMeta Conditions Content = record p {
        object_meta = v.object_meta;
        type_meta = v.type_meta;
        conditions = v.conditions;
      } in
      let same = settle-unless_same v copy in
      (
        ap (λ w. w.content) same,
        ap (λ w. w.object_meta) same,
        ap (λ w. w.conditions) same,
        rw same ((unless_same-none copy copy).1 refl),
      )

module _ {ClaimRef Content : Type 0} ⦃D : DeepEqual (PersistentVolumeSpec ClaimRef Content)⦄ where
  -- The specification of a tenant's volume, once the update has been applied, is the super cluster's
  -- with the tenant's claim, and the next check gives nothing.
  pub check_pv_spec_equality_lem :
      (p v : PersistentVolumeSpec ClaimRef Content)
      → let v' = settle v (check_pv_spec_equality p v) in
        (v'.content ≡ p.content)
        × (v'.claim_ref ≡ v.claim_ref)
        × (check_pv_spec_equality p v' ≡ none)
  unfolding check_pv_spec_equality
  check_pv_spec_equality_lem p v =
      let copy : PersistentVolumeSpec ClaimRef Content = record p { claim_ref = v.claim_ref } in
      let same = settle-unless_same v copy in
      (
        ap (λ w. w.content) same,
        ap (λ w. w.claim_ref) same,
        rw same ((unless_same-none copy copy).1 refl),
      )
