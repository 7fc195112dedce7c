-- ===== src/Syncer/Meta.antt =====
-- conversion/equality.go: `CheckDWObjectMetaEquality` and `CheckUWObjectMetaEquality`. A nil map is
-- an empty one, and a deep copy is the value itself.
pub mod Settled
use text.Mathlib.Text.{◌==◌ as str_eq}
use cluster_api_provider_nes.Base.{String, Bool, not, Option, none, some, if◌then◌else◌, Dict}
use cluster_api_provider_nes.Syncer.Keys.{StringSets, VcEquality}
use cluster_api_provider_nes.Syncer.KeyValues.{check_dw_kv_equality, check_uw_kv_equality}

-- `metav1.ObjectMeta`: the fields that the code reads, and the others.
pub record ObjectMeta (Other : Type 0) : Type 0 where
  pub name : String
  pub generate_name : String
  pub labels : Dict String
  pub annotations : Dict String
  pub cluster_name : String
  pub other : Other

-- `if updated == nil { updated = old.DeepCopy() }`, and a write to a field of it, where the test
-- says that the field differs.
abbrev pub change {ℓ} : {A : Type ℓ} → Bool → A → (A → A) → Option A → Option A
change differs old write updated =
    if differs then elim updated [ none ↦ some (write old) | some u ↦ some (write u) ] else updated

-- The same for a part that has been checked by itself: it is written unless its check gave nil.
abbrev pub replace {ℓ} : {A B : Type ℓ} → A → (B → A → A) → Option B → Option A → Option A
replace old write none updated = updated
replace old write (some part) none = some (write part old)
replace old write (some part) (some u) = some (write part u)

-- The object once the result of a check has been applied: the old one if that is nil.
abbrev pub settle {ℓ} : {A : Type ℓ} → A → Option A → A
settle old none = old
settle old (some updated) = updated

module _ {Other : Type 0} ⦃S : StringSets⦄ where
  unfoldable pub check_dw_object_meta_equality :
      VcEquality → ObjectMeta Other → ObjectMeta Other → Option (ObjectMeta Other)
  unfolding check_dw_kv_equality
  check_dw_object_meta_equality e p v =
      let (labels, same_labels) = check_dw_kv_equality e p.labels v.labels in
      let (annotations, same_annotations) = check_dw_kv_equality e p.annotations v.annotations in
      let u1 =
        change (not (str_eq p.generate_name v.generate_name)) p
          (λ u. record u { generate_name = v.generate_name }) none in
      let u2 = change (not same_labels) p (λ u. record u { labels = labels }) u1 in
      let u3 = change (not same_annotations) p (λ u. record u { annotations = annotations }) u2 in
      change (not (str_eq p.cluster_name v.cluster_name)) p
        (λ u. record u { cluster_name = v.cluster_name }) u3

  unfoldable pub check_uw_object_meta_equality :
      VcEquality → ObjectMeta Other → ObjectMeta Other → Option (ObjectMeta Other)
  unfolding check_uw_kv_equality
  check_uw_object_meta_equality e p v =
      let (labels, same_labels) = check_uw_kv_equality e p.labels v.labels in
      let (annotations, same_annotations) = check_uw_kv_equality e p.annotations v.annotations in
      let u1 = change (not same_labels) v (λ u. record u { labels = labels }) none in
      change (not same_annotations) v (λ u. record u { annotations = annotations }) u1
