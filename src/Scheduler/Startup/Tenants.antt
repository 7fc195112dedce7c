-- ===== src/Scheduler/Startup/Tenants.antt =====
-- `SyncVirtualClusterState` leaves the books of every cluster right.
use cluster_api_provider_nes.Base.{
  ℕ, String, inl, inr, Option-cases, not, ◌&&◌, Option, none, some, List, [], ◌∷◌, dec_eq, Dict,
  lookup, contains, Result, ok, err,
}
use cluster_api_provider_nes.Base.Int.{ℤ, pos, is_zero_ℤ, ◌-ℤ◌}
use cluster_api_provider_nes.Scheduler.Quantity.{Quantities}
use cluster_api_provider_nes.Scheduler.Error.{Error}
use cluster_api_provider_nes.Scheduler.Resource.{ResourceList, get, least_fit_slice_num}
use cluster_api_provider_nes.Scheduler.Namespace.{Namespace, Pod, pod_key, placements_of}
use cluster_api_provider_nes.Scheduler.Cluster
use cluster_api_provider_nes.Scheduler.Cluster.{Cluster, new_cluster, copy_cluster, copy_items}
use cluster_api_provider_nes.Scheduler.Cluster.Accounting.{add_pod-IsAccounted}
use cluster_api_provider_nes.Scheduler.Cache.{
  Cache, add_tenant, add_pod, move_pod, add_pod_to_cluster, remove_pod_from_cluster, index_pod,
  scheduled_num,
}
use cluster_api_provider_nes.Scheduler.Cache.Methods.{add_namespace}
use cluster_api_provider_nes.Scheduler.Cache.Books.{IsSound, insert-IsSound}
use cluster_api_provider_nes.Scheduler.Cache.Namespaces.{namespace_methods-IsSound}
use cluster_api_provider_nes.Scheduler.Demand.{get_max_quota}
use cluster_api_provider_nes.Scheduler.Annotations.{Parsers, get_scheduling_info}
use cluster_api_provider_nes.Scheduler.Startup.{
  ApiPod, ApiNamespace, is_zero, label_scheduled_cluster, SyncError, add_pods, add_scheduled,
  add_namespaces, sync_virtual_cluster_state,
}
use cluster_api_provider_nes.Scheduler.Startup.Cases.{
  if_each, option_each, result_each, ite_each, EndsSound,
}

module _ ⦃Q : Quantities⦄ where
  open Q use {Quantity}

  index_pod-IsSound :
      (pod : Pod) (o : Option Error × Cache) → IsSound o.1 → IsSound (index_pod pod o).1
  index_pod-IsSound pod (none, c) s = s
  index_pod-IsSound pod (some e, c) s = s

  add_pod_to_cluster-IsSound :
      (pod : Pod) (c : Cache) → IsSound c → IsSound (add_pod_to_cluster pod c).1
  unfolding add_pod_to_cluster
  add_pod_to_cluster-IsSound pod c s = elim (Option-cases (lookup pod.cluster c.clusters)) [
    | inl h ↦ rw (h, add_pod_to_cluster) s
    | inr (state, h) ↦
        rw (h, add_pod_to_cluster)
          (insert-IsSound pod.cluster (Cluster.add_pod pod state).1 c
            (add_pod-IsAccounted pod state (s pod.cluster state h)) s)
  ]

  remove_pod_from_cluster-IsSound :
      (pod : Pod) (c : Cache) → IsSound c → IsSound (remove_pod_from_cluster pod c).1
  unfolding remove_pod_from_cluster Cluster.remove_pod
  remove_pod_from_cluster-IsSound pod c s = elim (Option-cases (lookup pod.cluster c.clusters)) [
    | inl h ↦ rw (h, remove_pod_from_cluster) s
    | inr (state, h) ↦
        let a = s pod.cluster state h in
        rw (h, remove_pod_from_cluster)
          (insert-IsSound pod.cluster (Cluster.remove_pod pod state) c
            (record { allocated = a.allocated; provisioned = a.provisioned }) s)
  ]

  move_pod-IsSound : (cur pod : Pod) (c : Cache) → IsSound c → IsSound (move_pod cur pod c).1
  unfolding move_pod
  move_pod-IsSound cur pod c s =
      let c' = (remove_pod_from_cluster cur c).1 in
      let s' = remove_pod_from_cluster-IsSound cur c s in
      elim (Option-cases (remove_pod_from_cluster cur c).0) [
        | inl h ↦ rw (h, move_pod) (index_pod-IsSound pod _ (add_pod_to_cluster-IsSound pod c' s'))
        | inr (e, h) ↦ rw (h, move_pod) s'
      ]

  -- The cache beside an error is sound.
  abbrev LeavesSound : {E : Type 0} → Option E × Cache → Type 0
  LeavesSound o = IsSound o.1

  add_pod-IsSound : (pod : Pod) (c : Cache) → IsSound c → IsSound (add_pod pod c).1
  unfolding add_pod
  add_pod-IsSound pod c s =
      option_each LeavesSound (lookup (pod_key pod) c.pods)
        (index_pod-IsSound pod _ (add_pod_to_cluster-IsSound pod c s))
        (λ cur.
          ite_each LeavesSound (dec_eq cur.cluster pod.cluster) s (move_pod-IsSound cur pod c s))

  module _ ⦃J : Parsers Quantity⦄ where
    add_pods-IsSound :
        (tenant namespace : String) (placements : Dict ℤ) (items : List ApiPod) (c : Cache)
        → IsSound c
        → IsSound (add_pods tenant namespace placements items c).1
    unfolding add_pods
    add_pods-IsSound tenant namespace placements [] c s = s
    add_pods-IsSound tenant namespace placements (pod ∷ items) c s =
        let skip = add_pods-IsSound tenant namespace placements items c s in
        option_each LeavesSound (lookup label_scheduled_cluster pod.annotations) skip (λ cluster.
          let s' = add_pod-IsSound _ c s in
          if_each LeavesSound (contains cluster placements)
            (option_each LeavesSound _ (add_pods-IsSound tenant namespace placements items _ s')
              (λ e. s'))
            skip)

    add_scheduled-IsSound :
        (now : ℕ) (tenant : String) (each : ApiNamespace) (quota quota_slice : ResourceList)
        (placements : Dict ℤ) (c : Cache)
        → IsSound c
        → IsSound (add_scheduled now tenant each quota quota_slice placements c).1
    unfolding add_scheduled
    add_scheduled-IsSound now tenant each quota quota_slice placements c s =
        let namespace : Namespace = record {
          owner = tenant;
          name = each.meta.name;
          labels = each.labels;
          quota = quota;
          quota_slice = quota_slice;
          schedule = placements_of placements;
        } in
        let s' = (namespace_methods-IsSound now namespace namespace c s).0 in
        let total : ℕ = elim (least_fit_slice_num quota quota_slice) [ ok n ↦ n | err e ↦ 0 ] in
        if_each (LeavesSound {E = SyncError})
          (not (is_zero_ℤ (pos total -ℤ scheduled_num (placements_of placements)))) s
          (option_each (LeavesSound {E = SyncError}) (add_namespace now namespace c).0
            (result_each (LeavesSound {E = SyncError}) each.pods (λ e. s')
              (λ pods. add_pods-IsSound tenant each.meta.name placements pods _ s'))
            (λ e. s'))

    add_namespaces-IsSound :
        (now : ℕ) (tenant : String) (items : List ApiNamespace) (default : ResourceList) (c : Cache)
        → IsSound c
        → EndsSound (add_namespaces now tenant items default c)
    unfolding add_namespaces
    add_namespaces-IsSound now tenant [] default c s = s
    add_namespaces-IsSound now tenant (each ∷ items) default c s =
        result_each EndsSound each.quotas (λ e. s)
          (λ quotas.
            let quota = get_max_quota quotas in
            let info = get_scheduling_info each.meta default in
            let go = λ (c' : Cache) (s' : IsSound c').
              add_namespaces-IsSound now tenant items info.0 c' s' in
            result_each EndsSound info.1 (λ e. s)
              (λ placements. option_each EndsSound placements (go c s) (λ placements.
                let s' = add_scheduled-IsSound now tenant each quota info.0 placements c s in
                if_each EndsSound (is_zero (get "cpu" quota) && is_zero (get "memory" quota))
                  (go c s)
                  (option_each EndsSound (add_scheduled now tenant each quota info.0 placements c).0
                    (go _ s') (λ e. s')))))

    add_tenant-IsSound : (n : String) (c : Cache) → IsSound c → IsSound (add_tenant n c)
    unfolding add_tenant
    add_tenant-IsSound n c s = s

    pub sync_virtual_cluster_state-IsSound :
        (now : ℕ) (tenant : String) (nslist : Result String (List ApiNamespace))
        (default : ResourceList) (c : Cache)
        → IsSound c
        → EndsSound (sync_virtual_cluster_state now tenant nslist default c)
    unfolding sync_virtual_cluster_state
    sync_virtual_cluster_state-IsSound now tenant nslist default c s =
        let s' = add_tenant-IsSound tenant c s in
        result_each EndsSound nslist (λ e. s')
          (λ items. add_namespaces-IsSound now tenant items default _ s')
