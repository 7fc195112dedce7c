-- ===== src/Syncer/Pods/Converges.antt =====
-- `CheckPodEquality`: what it makes of a pod, and that checking again finds nothing.
use cluster_api_provider_nes.Base.{
  ◌≡◌, ◌↔◌, refl, true, Option, none, some, map, arith, if◌then◌else◌,
}
use cluster_api_provider_nes.Base.Int.{ℤ}
use cluster_api_provider_nes.Syncer.Keys.{StringSets, VcEquality}
use cluster_api_provider_nes.Syncer.Meta.{settle}
use cluster_api_provider_nes.Syncer.Meta.Settled.{
  IsMap, IsMetaBelow, meta_below-IsMetaBelow, meta_below, settle-check_dw_object_meta_equality,
  meta_below_converges,
}
use cluster_api_provider_nes.Syncer.Pods.{
  Rests, PodSpec, Pod, eq_ℤ, check_int64_equality, check_pod_spec_equality, check_pod_equality,
}
use cluster_api_provider_nes.Syncer.Pods.Images.{
  DistinctNames, with_image, check_containers_image_equality_lem, IsCovered, containers_converge,
}

eq_ℤ_iff : (a b : ℤ) → (eq_ℤ a b ≡ true) ↔ (a ≡ b)
eq_ℤ_iff a b = ((λ h. ground (arith, h)), λ h. ground (arith, h))

check_int64_equality_lem :
    (p v : Option ℤ)
    → (if (check_int64_equality p v).1 then p else (check_int64_equality p v).0) ≡ v
unfolding check_int64_equality
check_int64_equality_lem none none = refl
check_int64_equality_lem (some a) (some b) = ground (arith, eq_ℤ_iff a b)
check_int64_equality_lem (some a) none = refl
check_int64_equality_lem none (some b) = refl

check_int64_equality_self : (v : Option ℤ) → (check_int64_equality v v).1 ≡ true
unfolding check_int64_equality
check_int64_equality_self none = refl
check_int64_equality_self (some a) = (eq_ℤ_iff a a).1 refl

module _ ⦃R : Rests⦄ ⦃S : StringSets⦄ where
  abbrev pub spec_below : VcEquality → PodSpec → PodSpec → PodSpec
  spec_below e p v = record p {
    active_deadline_seconds = v.active_deadline_seconds;
    containers = map (with_image e v.containers) p.containers;
    init_containers = map (with_image e v.init_containers) p.init_containers;
  }

  -- Among the containers of the pod no two have the same name, nor among those that initialise it.
  abbrev pub IsNamed : PodSpec → Type 0
  IsNamed s = DistinctNames s.containers × DistinctNames s.init_containers

  settle-check_pod_spec_equality :
      (e : VcEquality) (p v : PodSpec)
      → IsNamed p
      → IsNamed v
      → settle p (check_pod_spec_equality e p v) ≡ spec_below e p v
  unfolding check_pod_spec_equality
  settle-check_pod_spec_equality e p v np nv = ground (
    arith,
    check_int64_equality_lem p.active_deadline_seconds v.active_deadline_seconds,
    check_containers_image_equality_lem e p.containers v.containers np.0 nv.0,
    check_containers_image_equality_lem e p.init_containers v.init_containers np.1 nv.1,
  )

  spec_below_converges :
      (e : VcEquality) (p v : PodSpec)
      → IsNamed p
      → IsNamed v
      → IsCovered v.containers p.containers
      → IsCovered v.init_containers p.init_containers
      → check_pod_spec_equality e (spec_below e p v) v ≡ none
  unfolding check_pod_spec_equality
  spec_below_converges e p v np nv c ci = ground (
    arith,
    check_int64_equality_self v.active_deadline_seconds,
    containers_converge e p.containers v.containers np.0 nv.0 c,
    containers_converge e p.init_containers v.init_containers np.1 nv.1 ci,
  )

  abbrev pub pod_below : VcEquality → Pod → Pod → Pod
  pod_below e p v = record p {
    object_meta = meta_below e p.object_meta v.object_meta;
    spec = spec_below e p.spec v.spec;
  }

  settle-check_pod_equality :
      (e : VcEquality) (p v : Pod)
      → IsNamed p.spec
      → IsNamed v.spec
      → settle p (check_pod_equality e p v) ≡ pod_below e p v
  unfolding check_pod_equality
  settle-check_pod_equality e p v np nv = ground (
    arith,
    settle-check_dw_object_meta_equality e p.object_meta v.object_meta,
    settle-check_pod_spec_equality e p.spec v.spec np nv,
  )

  pub record IsPod (p : Pod) : Type 0 where
    pub meta : IsMap p.object_meta
    pub spec : IsNamed p.spec

  none_again :
      (e : VcEquality) (p v : Pod)
      → IsPod p
      → IsPod v
      → IsCovered v.spec.containers p.spec.containers
      → IsCovered v.spec.init_containers p.spec.init_containers
      → check_pod_equality e (pod_below e p v) v ≡ none
  unfolding check_pod_equality
  none_again e p v vp vv c ci = ground (
    arith,
    meta_below_converges e p.object_meta v.object_meta vp.meta vv.meta,
    spec_below_converges e p.spec v.spec vp.spec vv.spec c ci,
  )

  -- Where no two containers of a pod have one name and the tenant's pod has no container that the super
  -- cluster's lacks: the pod in the super cluster, once the update that the check gives has been
  -- applied, has the deadline, the images, the generated name, the cluster name, and the labels and
  -- annotations of the tenant's pod, but for names and keys that are skipped; it is as before in all
  -- else, and checking it again finds nothing to do.
  pub check_pod_equality_converges :
      (e : VcEquality) (p v : Pod)
      → IsPod p
      → IsPod v
      → IsCovered v.spec.containers p.spec.containers
      → IsCovered v.spec.init_containers p.spec.init_containers
      → let p' = settle p (check_pod_equality e p v) in
        IsMetaBelow e p.object_meta v.object_meta p'.object_meta
        × (p'.spec ≡ spec_below e p.spec v.spec)
        × (p'.status ≡ p.status)
        × (check_pod_equality e p' v ≡ none)
  check_pod_equality_converges e p v vp vv c ci =
      let same = settle-check_pod_equality e p v vp.spec vv.spec in
      (
        rw same (meta_below-IsMetaBelow e p.object_meta v.object_meta vp.meta vv.meta),
        rw same,
        rw same,
        rw same (none_again e p v vp vv c ci),
      )
