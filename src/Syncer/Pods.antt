-- ===== src/Syncer/Pods.antt =====
-- conversion/equality.go: `CheckPodEquality` and what it calls.
pub mod Images
pub mod Converges
use text.Mathlib.Text.{◌==◌ as str_eq}
use cluster_api_provider_nes.Base.{
  String, Bool, true, false, not, Option, none, some, List, [], ◌∷◌, ◌==◌, length, if◌then◌else◌,
  Dict, lookup, insert, contains,
}
use cluster_api_provider_nes.Base.Int.{ℤ, pos, negsuc}
use cluster_api_provider_nes.Syncer.Keys.{StringSets, VcEquality}
use cluster_api_provider_nes.Syncer.KeyValues.{check_dw_kv_equality}
use cluster_api_provider_nes.Syncer.Meta.{
  ObjectMeta, change, replace, check_dw_object_meta_equality,
}

-- `==` of two int64
abbrev pub eq_ℤ : ℤ → ℤ → Bool
eq_ℤ (pos m) (pos n) = m == n
eq_ℤ (negsuc m) (negsuc n) = m == n
eq_ℤ _ _ = false

-- `checkInt64Equality`
unfoldable pub check_int64_equality : Option ℤ → Option ℤ → Option ℤ × Bool
check_int64_equality none none = (none, true)
check_int64_equality (some p) (some v) = (some v, eq_ℤ p v)
check_int64_equality (some p) none = (none, false)
check_int64_equality none (some v) = (some v, false)

-- The Kubernetes types: the fields that the code reads, and the others.
pub record Rests : Type 1 where
  pub MetaOther : Type 0
  pub ContainerOther : Type 0
  pub SpecOther : Type 0
  pub ConditionOther : Type 0
  pub StatusOther : Type 0

module _ ⦃R : Rests⦄ where
  open R use {MetaOther, ContainerOther, SpecOther, ConditionOther, StatusOther}

  pub record Container : Type 0 where
    pub name : String
    pub image : String
    pub other : ContainerOther

  pub record PodSpec : Type 0 where
    pub active_deadline_seconds : Option ℤ
    pub containers : List Container
    pub init_containers : List Container
    pub readiness_gates : List String
    pub other : SpecOther

  pub record PodCondition : Type 0 where
    pub type : String
    pub other : ConditionOther

  pub record PodStatus : Type 0 where
    pub conditions : List PodCondition
    pub other : StatusOther

  pub record Pod : Type 0 where
    pub object_meta : ObjectMeta MetaOther
    pub spec : PodSpec
    pub status : PodStatus

  -- the loop that makes `vNameImageMap`
  unfoldable pub images_of : List Container → Dict String → Dict String
  images_of [] images = images
  images_of (c ∷ containers) images = images_of containers (insert c.name c.image images)

  -- the loop that makes `pNameImageMap`, of the names that are in the other map
  unfoldable pub shared_images : Dict String → List Container → Dict String → Dict String
  shared_images known [] images = images
  shared_images known (c ∷ containers) images =
      shared_images known containers
        (if contains c.name known then insert c.name c.image images else images)

  -- one round of the loop that makes `updated`
  unfoldable pub replace_image : Dict String → Container → Container
  replace_image diff c = elim (lookup c.name diff) [
    | none ↦ c
    | some image ↦ if str_eq image c.image then c else record c { image = image }
  ]

  unfoldable pub replace_images : Dict String → List Container → List Container
  unfolding replace_image
  replace_images diff [] = []
  replace_images diff (c ∷ containers) = replace_image diff c ∷ replace_images diff containers

  module _ ⦃S : StringSets⦄ where
    -- A nil slice is the empty one.
    unfoldable pub check_containers_image_equality :
        VcEquality → List Container → List Container → List Container
    unfolding images_of shared_images replace_images
    check_containers_image_equality e p v =
        let known = images_of v [] in
        let (diff, equal) = check_dw_kv_equality e (shared_images known p []) known in
        if equal then [] else replace_images diff p

    unfoldable pub check_pod_spec_equality : VcEquality → PodSpec → PodSpec → Option PodSpec
    unfolding check_int64_equality
    check_pod_spec_equality e p v =
        let (val, equal) =
          check_int64_equality p.active_deadline_seconds v.active_deadline_seconds in
        let containers = check_containers_image_equality e p.containers v.containers in
        let init_containers =
          check_containers_image_equality e p.init_containers v.init_containers in
        let u1 = change (not equal) p (λ u. record u { active_deadline_seconds = val }) none in
        let u2 =
          change (not (length containers == 0)) p (λ u. record u { containers = containers }) u1 in
        change (not (length init_containers == 0)) p
          (λ u. record u { init_containers = init_containers }) u2

    unfoldable pub check_pod_equality : VcEquality → Pod → Pod → Option Pod
    check_pod_equality e p v =
        let meta = check_dw_object_meta_equality e p.object_meta v.object_meta in
        let spec = check_pod_spec_equality e p.spec v.spec in
        let u1 = replace p (λ m u. record u { object_meta = m }) meta none in
        replace p (λ s u. record u { spec = s }) spec u1
