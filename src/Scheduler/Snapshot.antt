-- ===== src/Scheduler/Snapshot.antt =====
-- cache/snapshot.go: what the cache hands to the placement algorithm.
pub mod Amounts
use Prim.Native.String.{◌++◌ as append}
use cluster_api_provider_nes.Base.{
  ℕ, ◌*◌, String, ◌≡◌, Bool, true, false, Option, none, some, List, [], ◌∷◌, ◌++◌, if◌then◌else◌,
  ite, dec_eq, Dict, lookup, insert, contains, Result, ok, err, ◌>>=◌, Outcome, or_err,
}
use cluster_api_provider_nes.Base.Int.{ℤ, pos, times_ℤ}
use cluster_api_provider_nes.Scheduler.Quantity.{Quantities, is_lt}
use cluster_api_provider_nes.Scheduler.Error.{
  Error, slices_without_cluster, negative_removal, inconsistent_cache, namespace_not_found,
  pod_not_indexed, pod_misplaced,
}
use cluster_api_provider_nes.Scheduler.Resource.{ResourceList, get, max_alloc}
use cluster_api_provider_nes.Scheduler.Namespace.{
  Placement, Slice, Namespace, Pod, slash, namespace_key, get_placement_map, pod_namespace_key,
  pod_key,
}
use cluster_api_provider_nes.Scheduler.Cluster.{Cluster, pods_of}
use cluster_api_provider_nes.Scheduler.Cache.{Cache}
use mathlib.Core.Bool.{cond}

module _ ⦃Q : Quantities⦄ where
  open Q use {Quantity, add, sub, cmp, value, set_value}

  pub record ClusterUsage : Type 0 where
    pub capacity : ResourceList
    pub alloc : ResourceList
    pub provision : ResourceList

  -- Both snapshots hold a `map[string]*ClusterUsage` and nothing else.
  abbrev pub UsageMap : Type 0
  UsageMap = Dict ClusterUsage

  unfoldable pub get_max_alloc : ClusterUsage → ResourceList
  get_max_alloc u = max_alloc u.alloc u.provision

  -- the inner loop of `AddSlices`, and that of `AddUsage`
  unfoldable pub add_amounts : ResourceList → ResourceList → ResourceList
  add_amounts [] alloc = alloc
  add_amounts ((k, v) ∷ unit) alloc = add_amounts unit (insert k (add (get k alloc) v) alloc)

  -- Slices before one whose cluster is unknown stay added.
  unfoldable pub add_slices : List Slice → UsageMap → Outcome Error UsageMap
  unfolding add_amounts
  add_slices [] m = (none, m)
  add_slices (s ∷ slices) m = elim (lookup s.cluster m) [
    | none ↦ (some slices_without_cluster, m)
    | some cur ↦
        add_slices slices (insert s.cluster (record cur { alloc = add_amounts s.unit cur.alloc }) m)
  ]

  -- The inner loop of `RemoveSlices`; what was subtracted before an error stays so.
  unfoldable pub remove_amounts : ResourceList → ResourceList → Outcome Error ResourceList
  remove_amounts [] alloc = (none, alloc)
  remove_amounts ((k, v) ∷ unit) alloc =
      let rest = remove_amounts unit (insert k (sub (get k alloc) v) alloc) in
      if is_lt (cmp (get k alloc) v) then (some negative_removal, alloc) else rest

  -- A slice whose cluster is unknown is skipped.
  unfoldable pub remove_slices : List Slice → UsageMap → Outcome Error UsageMap
  unfolding remove_amounts
  remove_slices [] m = (none, m)
  remove_slices (s ∷ slices) m = elim (lookup s.cluster m) [
    | none ↦ remove_slices slices m
    | some cur ↦
        let (e, alloc) = remove_amounts s.unit cur.alloc in
        let m' = insert s.cluster (record cur { alloc = alloc }) m in
        elim e [ some e' ↦ (some e', m') | none ↦ remove_slices slices m' ]
  ]

  -- the usage of every cluster that is no shadow cluster
  unfoldable pub usages : Dict Cluster → UsageMap
  usages [] = []
  usages ((n, cluster) ∷ clusters) =
      let usage : ClusterUsage = record {
        capacity = cluster.capacity;
        alloc = cluster.alloc;
        provision = cluster.provision;
      } in
      let rest = usages clusters in if cluster.shadow then rest else (n, usage) ∷ rest

  -- The loop that collects a namespace's slices from the clusters of the snapshot; `c.clusters` has
  -- all of these, so a lookup there that fails is no case of the source.
  unfoldable pub placed_slices :
      String → Dict ℤ → UsageMap → Dict Cluster → Result Error (List Slice)
  placed_slices key [] m clusters = ok []
  placed_slices key ((cluster, num) ∷ places) m clusters = do
    rest ← placed_slices key places m clusters
    cond (contains cluster m)
        (elim (lookup cluster clusters) [
          | none ↦ err inconsistent_cache
          | some state ↦ elim (lookup key state.alloc_items) [
            | none ↦ err inconsistent_cache
            | some slices ↦ ok (slices ++ rest)
          ]
        ])
        (ok rest)

  -- The loop over the namespaces to remove, of which nil ones and unknown ones are skipped.
  unfoldable pub remove_namespaces :
      List (Option Namespace) → Cache → UsageMap → Result Error UsageMap
  unfolding placed_slices remove_slices
  remove_namespaces [] c m = ok m
  remove_namespaces (none ∷ rest) c m = remove_namespaces rest c m
  remove_namespaces (some each ∷ rest) c m = elim (lookup (namespace_key each) c.namespaces) [
    | none ↦ remove_namespaces rest c m
    | some cur ↦ do
      slices ← placed_slices (namespace_key each) (get_placement_map cur) m c.clusters
      let (e, m') = remove_slices slices m
      elim e [ some e' ↦ err e' | none ↦ remove_namespaces rest c m' ]
  ]

  unfoldable pub snapshot_for_namespace_sched :
      List (Option Namespace) → Cache → Result Error UsageMap
  unfolding usages remove_namespaces
  snapshot_for_namespace_sched to_remove c = remove_namespaces to_remove c (usages c.clusters)

  -- `(*PodSchedSnapshot).AddUsage`
  unfoldable pub add_usage : String → ResourceList → UsageMap → Outcome Error UsageMap
  unfolding add_amounts
  add_usage cluster usage m = elim (lookup cluster m) [
    | none ↦ (some slices_without_cluster, m)
    | some cur ↦ (none, insert cluster (record cur { alloc = add_amounts usage cur.alloc }) m)
  ]

  -- A placement's share: `num` times the slice, of which nothing is used.
  unfoldable pub capability : ℤ → ResourceList → ResourceList
  capability num [] = []
  capability num ((k, v) ∷ slice) = (k, set_value v (times_ℤ (value v) num)) ∷ capability num slice

  unfoldable pub unused : ResourceList → ResourceList
  unused [] = []
  unused ((k, v) ∷ slice) = (k, set_value v (pos 0)) ∷ unused slice

  unfoldable pub shares : ResourceList → List Placement → UsageMap → UsageMap
  unfolding capability unused
  shares slice [] m = m
  shares slice (place ∷ schedule) m =
      let share : ClusterUsage = record {
        capacity = capability place.num slice;
        alloc = unused slice;
        provision = [];
      } in
      shares slice schedule (insert place.cluster share m)

  -- the innermost loop: a resource that the share does not have is not counted
  unfoldable pub count_request : ResourceList → ResourceList → ResourceList
  count_request [] alloc = alloc
  count_request ((k, v) ∷ request) alloc =
      count_request request
        (elim (lookup k alloc) [ none ↦ alloc | some a ↦ insert k (add a v) alloc ])

  -- The loop over the names of a cluster's pods in the namespace, less the pod that is scheduled.
  unfoldable pub count_pods :
      String → String → Dict (Unit {0}) → Dict Pod → UsageMap → Result Error UsageMap
  unfolding count_request
  count_pods ns_key skip [] pods m = ok m
  count_pods ns_key skip ((name, _) ∷ names) pods m =
      let key = slash ns_key name in
      ite (dec_eq key skip) (count_pods ns_key skip names pods m) (do
        pod ← or_err (lookup key pods) (pod_not_indexed key)
        rs ← or_err (lookup pod.cluster m) (pod_misplaced key)
        let rs' = record rs { alloc = count_request pod.request rs.alloc }
        count_pods ns_key skip names pods (insert pod.cluster rs' m))

  unfoldable pub count_clusters :
      String → String → Dict Cluster → Dict Pod → UsageMap → Result Error UsageMap
  unfolding count_pods
  count_clusters ns_key skip [] pods m = ok m
  count_clusters ns_key skip ((_, cluster) ∷ clusters) pods m = do
    m' ← count_pods ns_key skip (pods_of ns_key cluster.pods) pods m
    count_clusters ns_key skip clusters pods m'

  unfoldable pub snapshot_for_pod_sched : Pod → Cache → Result Error UsageMap
  unfolding shares count_clusters
  snapshot_for_pod_sched pod c = do
    let key = pod_namespace_key pod
    ns ← or_err (lookup key c.namespaces) (namespace_not_found key)
    count_clusters key (pod_key pod) c.clusters c.pods (shares ns.quota_slice ns.schedule [])
