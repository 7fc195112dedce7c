-- ===== src/Syncer/Whole.antt =====
-- conversion/equality.go: the objects of the super cluster that tenants are given to read. A check of
-- one compares the whole object, and its result replaces the tenant's.
pub mod Synced
use cluster_api_provider_nes.Base.{
  ◌≡◌, refl, ap, ◌↔◌, ◌⊎◌, Bool, true, false, Option, none, some, arith, if◌then◌else◌, Bool-cases,
}
use cluster_api_provider_nes.Syncer.Meta.{settle}
use cluster_api_provider_nes.Syncer.Services.{DeepEqual}

-- A Kubernetes object: the types of its metadata, of what is compared, and of the conditions in its
-- status, for the one kind that has them, are parameters.
pub record Whole (Meta TypeMeta Content : Type 0) : Type 0 where
  pub type_meta : TypeMeta
  pub object_meta : Meta
  pub content : Content

pub record CustomResourceDefinition (Meta TypeMeta Conditions Content : Type 0) : Type 0 where
  pub type_meta : TypeMeta
  pub object_meta : Meta
  pub conditions : Conditions
  pub content : Content

-- `v1.PersistentVolumeSpec`
pub record PersistentVolumeSpec (ClaimRef Content : Type 0) : Type 0 where
  pub claim_ref : ClaimRef
  pub content : Content

-- `if !DeepEqual(vObj, pObjCopy) { return pObjCopy } else { return nil }`
abbrev pub unless_same : {A : Type 0} ⦃D : DeepEqual A⦄ → A → A → Option A
unless_same ⦃D⦄ v copy = if D.same v copy then none else some copy

module _ {Meta TypeMeta Content : Type 0} ⦃D : DeepEqual (Whole Meta TypeMeta Content)⦄ where
  unfoldable pub check_storage_class_equality :
      Whole Meta TypeMeta Content
      → Whole Meta TypeMeta Content
      → Option (Whole Meta TypeMeta Content)
  check_storage_class_equality p v =
      unless_same v (record p { object_meta = v.object_meta; type_meta = v.type_meta })

  unfoldable pub check_priority_class_equality :
      Whole Meta TypeMeta Content
      → Whole Meta TypeMeta Content
      → Option (Whole Meta TypeMeta Content)
  check_priority_class_equality p v =
      unless_same v (record p { object_meta = v.object_meta; type_meta = v.type_meta })

  unfoldable pub check_ingress_equality :
      Whole Meta TypeMeta Content
      → Whole Meta TypeMeta Content
      → Option (Whole Meta TypeMeta Content)
  check_ingress_equality p v =
      unless_same v (record p { object_meta = v.object_meta; type_meta = v.type_meta })

module _ {Meta TypeMeta Conditions Content : Type 0}
    ⦃D : DeepEqual (CustomResourceDefinition Meta TypeMeta Conditions Content)⦄ where
  unfoldable pub check_crd_equality :
      CustomResourceDefinition Meta TypeMeta Conditions Content
      → CustomResourceDefinition Meta TypeMeta Conditions Content
      → Option (CustomResourceDefinition Meta TypeMeta Conditions Content)
  check_crd_equality p v =
      unless_same v (record p {
        object_meta = v.object_meta;
        type_meta = v.type_meta;
        conditions = v.conditions;
      })

module _ {ClaimRef Content : Type 0} ⦃D : DeepEqual (PersistentVolumeSpec ClaimRef Content)⦄ where
  unfoldable pub check_pv_spec_equality :
      PersistentVolumeSpec ClaimRef Content
      → PersistentVolumeSpec ClaimRef Content
      → Option (PersistentVolumeSpec ClaimRef Content)
  check_pv_spec_equality p v = unless_same v (record p { claim_ref = v.claim_ref })
