-- ===== src/Scheduler/Cache.antt =====
-- cache/cache.go: the scheduler's cache. The lock makes each exported method one step, so a method
-- is a function of the cache; one that fails returns its error beside the cache that it leaves.
-- Times are in nanoseconds; `now` is what the clock gives a call.
pub mod Methods
pub mod Books
pub mod Namespaces
use cluster_api_provider_nes.Base.{
  ℕ, ◌+◌, ◌*◌, ◌^◌, String, ◌≡◌, Bool, true, false, ◌&&◌, Option, none, some, List, [], ◌∷◌, map,
  ltb, ◌==◌, if◌then◌else◌, ite, dec_eq, ℕ_discrete, replicate, Dict, lookup, insert, erase,
  contains, Result, ok, err, Outcome,
}
use cluster_api_provider_nes.Base.Int.{ℤ, pos, pos_part, is_zero_ℤ, ◌+ℤ◌, ◌-ℤ◌}
use cluster_api_provider_nes.Scheduler.Quantity.{Quantities}
use cluster_api_provider_nes.Scheduler.Error.{
  Error, cluster_missing, namespace_exists, namespace_missing, slices_not_scheduled, different_keys,
  pod_failed,
}
use cluster_api_provider_nes.Scheduler.Resource.{ResourceList, least_fit_slice_num}
use cluster_api_provider_nes.Scheduler.Namespace.{
  Placement, Slice, Namespace, Pod, new_slice, copy_namespace, namespace_key, pod_key,
}
use cluster_api_provider_nes.Scheduler.Cluster
use cluster_api_provider_nes.Scheduler.Cluster.{Cluster, new_cluster, copy_cluster, copy_items}

abbrev pub minute : ℕ
minute = 60 * 10 ^ 9

unfoldable pub scheduled_num : List Placement → ℤ
scheduled_num [] = pos 0
scheduled_num (each ∷ schedule) = each.num +ℤ scheduled_num schedule

module _ ⦃Q : Quantities⦄ where
  open Q use {must_parse}

  -- `constants.ShadowClusterCapacity`
  abbrev pub shadow_cluster_capacity : ResourceList
  shadow_cluster_capacity =
      ("cpu", must_parse "2147483647") ∷ ("memory", must_parse "2147483647Gi") ∷ []

  pub record Cache : Type 0 where
    pub tenants : Dict (Unit {0})
    pub clusters : Dict Cluster
    pub pods : Dict Pod
    pub namespaces : Dict Namespace

  -- the names of the shadow clusters that have not been updated for five minutes
  unfoldable pub expired : ℕ → Dict Cluster → List String
  expired now [] = []
  expired now ((k, v) ∷ clusters) =
      let rest = expired now clusters in
      if v.shadow && ltb (v.last_update_time + 5 * minute) now then v.name ∷ rest else rest

  unfoldable pub erase_each {ℓ} : {V : Type ℓ} → List String → Dict V → Dict V
  erase_each [] m = m
  erase_each (k ∷ keys) m = erase_each keys (erase k m)

  unfoldable pub garbage_collection : ℕ → Cache → Cache
  unfolding expired erase_each
  garbage_collection now c = record c { clusters = erase_each (expired now c.clusters) c.clusters }

  unfoldable pub add_tenant : String → Cache → Cache
  add_tenant n c = record c { tenants = insert n tt c.tenants }

  -- `addPod`
  unfoldable pub add_pod_to_cluster : Pod → Cache → Outcome Error Cache
  add_pod_to_cluster pod c = elim (lookup pod.cluster c.clusters) [
    | none ↦ (some (cluster_missing pod.cluster), c)
    | some state ↦
        let (e, state') = Cluster.add_pod pod state in
        (e, record c { clusters = insert pod.cluster state' c.clusters })
  ]

  -- `removePod`
  unfoldable pub remove_pod_from_cluster : Pod → Cache → Outcome Error Cache
  remove_pod_from_cluster pod c = elim (lookup pod.cluster c.clusters) [
    | none ↦ (some (cluster_missing pod.cluster), c)
    | some state ↦
        (none, record c { clusters = insert pod.cluster (Cluster.remove_pod pod state) c.clusters })
  ]

  -- The pod is put under its key, unless the call before it failed.
  abbrev pub index_pod : Pod → Outcome Error Cache → Outcome Error Cache
  index_pod pod (none, c) = (none, record c { pods = insert (pod_key pod) pod c.pods })
  index_pod pod (some e, c) = (some (pod_failed (pod_key pod) e), c)

  -- the case of a pod that is moved from the cluster of `cur`
  unfoldable pub move_pod : Pod → Pod → Cache → Outcome Error Cache
  unfolding add_pod_to_cluster remove_pod_from_cluster
  move_pod cur pod c =
      let (e, c') = remove_pod_from_cluster cur c in
      elim e [
        | some e' ↦ (some (pod_failed (pod_key pod) e'), c')
        | none ↦ index_pod pod (add_pod_to_cluster pod c')
      ]

  unfoldable pub add_pod : Pod → Cache → Outcome Error Cache
  unfolding move_pod add_pod_to_cluster
  add_pod pod c = elim (lookup (pod_key pod) c.pods) [
    | some cur ↦ ite (dec_eq cur.cluster pod.cluster) (index_pod pod (none, c)) (move_pod cur pod c)
    | none ↦ index_pod pod (add_pod_to_cluster pod c)
  ]

  -- `RemovePod`: the pod is taken from the cluster that the argument names, not the cached one.
  unfoldable pub remove_pod : Pod → Cache → Outcome Error Cache
  unfolding remove_pod_from_cluster
  remove_pod pod c = elim (lookup (pod_key pod) c.pods) [
    | none ↦ (none, c)
    | some cur ↦
        let (e, c') = remove_pod_from_cluster pod c in
        elim e [
          | some e' ↦ (some (pod_failed (pod_key pod) e'), c')
          | none ↦ (none, record c' { pods = erase (pod_key pod) c'.pods })
        ]
  ]

  -- `addNamespaceToCluster`; a cluster that is not known is made as a shadow cluster.
  unfoldable pub add_namespace_to_cluster :
      ℕ → String → String → ℤ → ResourceList → Cache → Outcome Error Cache
  unfolding new_cluster
  add_namespace_to_cluster now cluster key num slice c =
      let slices = replicate (pos_part num) (new_slice key slice cluster) in
      if is_zero_ℤ num then (none, c) else (elim (lookup cluster c.clusters) [
        | some state ↦
            let (e, state') = Cluster.add_namespace key slices state in
            (e, record c { clusters = insert cluster state' c.clusters })
        | none ↦
            let fresh = new_cluster now cluster none shadow_cluster_capacity in
            let (e, state') = Cluster.add_namespace key slices (record fresh { shadow = true }) in
            elim e [
              | some e' ↦ (some e', c)
              | none ↦ (none, record c { clusters = insert cluster state' c.clusters })
            ]
      ])

  -- `removeNamespaceFromCluster`
  unfoldable pub remove_namespace_from_cluster : String → String → Cache → Outcome Error Cache
  remove_namespace_from_cluster cluster key c = elim (lookup cluster c.clusters) [
    | none ↦ (some (cluster_missing cluster), c)
    | some state ↦
        let (e, state') = Cluster.remove_namespace key state in
        (e, record c { clusters = insert cluster state' c.clusters })
  ]

  -- The loop over a schedule that allocates its placements. Beside the error and the cache stand
  -- the placements that succeeded, the last one first, which is the order of the rollback.
  unfoldable pub place_each :
      ℕ
      → String
      → ResourceList
      → List Placement
      → List Placement
      → Cache
      → Option Error × List Placement × Cache
  place_each now key slice [] placed c = (none, placed, c)
  place_each now key slice (each ∷ schedule) placed c =
      let (e, c') = add_namespace_to_cluster now each.cluster key each.num slice c in
      elim e [
        | some e' ↦ (some e', placed, c')
        | none ↦ place_each now key slice schedule (each ∷ placed) c'
      ]

  -- the loop that takes them back; errors are dropped
  unfoldable pub unplace_each : String → List Placement → Cache → Cache
  unplace_each key [] c = c
  unplace_each key (each ∷ placed) c =
      unplace_each key placed (remove_namespace_from_cluster each.cluster key c).1

  -- `addNamespaceWithoutLock` after its checks, on the clone
  unfoldable pub place_namespace : ℕ → Namespace → Cache → Outcome Error Cache
  unfolding place_each unplace_each
  place_namespace now clone c =
      let key = namespace_key clone in
      let (e, placed, c') = place_each now key clone.quota_slice clone.schedule [] c in
      elim e [
        | some e' ↦ (some e', unplace_each key placed c')
        | none ↦ (none, record c' { namespaces = insert key clone c'.namespaces })
      ]

  unfoldable pub add_namespace_without_lock : ℕ → Namespace → Cache → Outcome Error Cache
  unfolding place_namespace scheduled_num
  add_namespace_without_lock now namespace c =
      let clone = copy_namespace namespace in
      let key = namespace_key clone in
      let sched = scheduled_num clone.schedule in
      if contains key c.namespaces
      then (some (namespace_exists key), c)
      else elim (least_fit_slice_num clone.quota clone.quota_slice) [
        | err e ↦ (some e, c)
        | ok expect ↦
            if is_zero_ℤ (pos expect -ℤ sched)
            then place_namespace now clone c
            else (some (slices_not_scheduled expect sched), c)
      ]

  -- The loop over a schedule that takes its placements back, the dual of `place_each`.
  unfoldable pub release_each :
      String → List Placement → List Placement → Cache → Option Error × List Placement × Cache
  release_each key [] released c = (none, released, c)
  release_each key (each ∷ schedule) released c =
      let (e, c') = remove_namespace_from_cluster each.cluster key c in
      elim e [
        | some e' ↦ (some e', released, c')
        | none ↦ release_each key schedule (each ∷ released) c'
      ]

  -- its rollback
  unfoldable pub replace_each : ℕ → String → ResourceList → List Placement → Cache → Cache
  replace_each now key slice [] c = c
  replace_each now key slice (each ∷ released) c =
      replace_each now key slice released
        (add_namespace_to_cluster now each.cluster key each.num slice c).1

  unfoldable pub remove_namespace_without_lock : ℕ → Namespace → Cache → Outcome Error Cache
  unfolding release_each replace_each
  remove_namespace_without_lock now namespace c =
      let key = namespace_key namespace in
      let (e, released, c') = release_each key namespace.schedule [] c in
      if contains key c.namespaces
      then elim e [
        | some e' ↦ (some e', replace_each now key namespace.quota_slice released c')
        | none ↦ (none, record c' { namespaces = erase key c'.namespaces })
      ]
      else (some (namespace_missing key), c)

  unfoldable pub update_namespace_without_lock :
      ℕ → Namespace → Namespace → Cache → Outcome Error Cache
  unfolding remove_namespace_without_lock add_namespace_without_lock
  update_namespace_without_lock now old new c =
      let (removed, c1) = remove_namespace_without_lock now old c in
      let (added, c2) = add_namespace_without_lock now new c1 in
      ite (dec_eq (namespace_key old) (namespace_key new))
        (elim removed [
          | some e ↦ (some e, c1)
          | none ↦ elim added [
            | some e ↦ (some e, (add_namespace_without_lock now old c2).1)
            | none ↦ (none, c2)
          ]
        ])
        (some different_keys, c)
