-- ===== src/Scheduler/Startup.antt =====
-- util/helper.go: `SyncSuperClusterState` and `SyncVirtualClusterState`, which put in the cache what the
-- API servers hold. What the clients return is an argument: a list, or the client's error. The default
-- slice size is a global map, which the functions take and leave (Annotations.antt); a namespace is entered with
-- what the map holds at that moment.
pub mod Cases
pub mod Tenants
pub mod Clusters
pub mod Books
use cluster_api_provider_nes.Base.{
  ℕ, ◌==◌, String, Bool, true, false, not, ◌&&◌, Option, none, some, List, [], ◌∷◌, Dict, lookup,
  contains, if◌then◌else◌, Result, ok, err,
}
use cluster_api_provider_nes.Base.Int.{ℤ, pos, is_zero_ℤ, ◌-ℤ◌}
use cluster_api_provider_nes.Scheduler.Quantity.{Quantities, is_eq}
use cluster_api_provider_nes.Scheduler.Error.{Error}
use cluster_api_provider_nes.Scheduler.Resource.{ResourceList, get, least_fit_slice_num}
use cluster_api_provider_nes.Scheduler.Namespace.{Slice, Namespace, Pod, slash, placements_of}
use cluster_api_provider_nes.Scheduler.Cluster
use cluster_api_provider_nes.Scheduler.Cluster.{Cluster, new_cluster}
use cluster_api_provider_nes.Scheduler.Cache.{Cache, scheduled_num, add_tenant, add_pod}
use cluster_api_provider_nes.Scheduler.Cache.Methods.{add_namespace, add_cluster}
use cluster_api_provider_nes.Scheduler.Demand.{
  Node, ResourceQuota, Container, get_total_node_capacity, get_max_quota, get_pod_requirements,
}
use cluster_api_provider_nes.Scheduler.Annotations.{
  InfoError, Parsers, Annotated, get_scheduling_info, get_provisioned_slices,
}

pub data SyncError : Type 0 where
  client_failed : String → SyncError
  no_info : InfoError → SyncError
  not_provisioned not_added : Error → SyncError
  slices_mismatch : ℕ → ℤ → SyncError

-- `constants.LabelCluster` of the syncer
abbrev pub label_cluster : String
label_cluster = "tenancy.x-k8s.io/cluster"

abbrev pub label_scheduled_cluster : String
label_scheduled_cluster = "scheduler.virtualcluster.io/superCluster"

module _ ⦃Q : Quantities⦄ where
  open Q use {Quantity, nothing, cmp}

  -- `IsZero` of a quantity
  abbrev pub is_zero : Quantity → Bool
  is_zero q = is_eq (cmp q nothing)

  pub record ApiPod : Type 0 where
    pub name : String
    pub annotations : Dict String
    pub containers : List Container

  -- A namespace of a tenant, with what the client returns for it.
  pub record ApiNamespace : Type 0 where
    pub meta : Annotated
    pub labels : Dict String
    pub quotas : Result String (List ResourceQuota)
    pub pods : Result String (List ApiPod)

  module _ ⦃J : Parsers Quantity⦄ where
    -- The loop over the namespaces of a super cluster.
    unfoldable pub provision_each :
        String → List Annotated → ResourceList → Cluster → ResourceList × Option SyncError × Cluster
    provision_each id [] default cluster = (default, none, cluster)
    provision_each id (each ∷ items) default cluster =
        let key = slash id each.name in
        let (global, slices) = get_provisioned_slices each id key default in
        elim (contains label_cluster each.annotations) [
          | false ↦ provision_each id items default cluster
          | true ↦ elim slices [
            | err e ↦ (global, some (no_info e), cluster)
            | ok slices ↦
                let (failed, cluster') = Cluster.add_provision key slices cluster in
                elim failed [
                  | some e ↦ (global, some (not_provisioned e), cluster')
                  | none ↦ provision_each id items global cluster'
                ]
          ]
        ]

    -- The cache is changed only if nothing failed; `AddCluster` does not fail.
    unfoldable pub sync_super_cluster_state :
        ℕ
        → String
        → Option (Dict String)
        → Result String (List Node)
        → Result String (List Annotated)
        → ResourceList
        → Cache
        → ResourceList × Option SyncError × Cache
    unfolding provision_each
    sync_super_cluster_state now id labels nodelist nslist default cache = elim nodelist [
      | err e ↦ (default, some (client_failed e), cache)
      | ok nodes ↦
          let fresh = new_cluster now id labels (get_total_node_capacity nodes) in
          elim nslist [
            | err e ↦ (default, some (client_failed e), cache)
            | ok namespaces ↦
                let (global, failed, cluster) = provision_each id namespaces default fresh in
                elim failed [
                  | some e ↦ (global, some e, cache)
                  | none ↦
                      let (e, cache') = add_cluster now cluster cache in
                      (global, elim e [ none ↦ none | some e ↦ some (not_added e) ], cache')
                ]
          ]
    ]

    -- The loop over the pods of a namespace.
    unfoldable pub add_pods :
        String → String → Dict ℤ → List ApiPod → Cache → Option SyncError × Cache
    add_pods tenant namespace placements [] cache = (none, cache)
    add_pods tenant namespace placements (pod ∷ items) cache =
        let skip = add_pods tenant namespace placements items cache in
        elim (lookup label_scheduled_cluster pod.annotations) [
          | none ↦ skip
          | some cluster ↦
              let added : Pod = record {
                owner = tenant;
                namespace = namespace;
                name = pod.name;
                request = get_pod_requirements pod.containers;
                cluster = cluster;
              } in
              let (failed, cache') = add_pod added cache in
              if contains cluster placements
              then elim failed [
                | some e ↦ (some (not_added e), cache')
                | none ↦ add_pods tenant namespace placements items cache'
              ]
              else skip
        ]

    -- The body of the loop over the namespaces of a tenant, once its placements are known.
    unfoldable pub add_scheduled :
        ℕ
        → String
        → ApiNamespace
        → ResourceList
        → ResourceList
        → Dict ℤ
        → Cache
        → Option SyncError × Cache
    unfolding add_pods
    add_scheduled now tenant each quota quota_slice placements cache =
        let total : ℕ = elim (least_fit_slice_num quota quota_slice) [ ok n ↦ n | err e ↦ 0 ] in
        let schedule = placements_of placements in
        let num_sched = scheduled_num schedule in
        let namespace : Namespace = record {
          owner = tenant;
          name = each.meta.name;
          labels = each.labels;
          quota = quota;
          quota_slice = quota_slice;
          schedule = schedule;
        } in
        let (failed, cache') = add_namespace now namespace cache in
        if not (is_zero_ℤ (pos total -ℤ num_sched))
        then (some (slices_mismatch total num_sched), cache)
        else elim failed [
          | some e ↦ (some (not_added e), cache')
          | none ↦ elim each.pods [
            | err e ↦ (some (client_failed e), cache')
            | ok pods ↦ add_pods tenant each.meta.name placements pods cache'
          ]
        ]

    unfoldable pub add_namespaces :
        ℕ
        → String
        → List ApiNamespace
        → ResourceList
        → Cache
        → ResourceList × Option SyncError × Cache
    unfolding add_scheduled
    add_namespaces now tenant [] default cache = (default, none, cache)
    add_namespaces now tenant (each ∷ items) default cache = elim each.quotas [
      | err e ↦ (default, some (client_failed e), cache)
      | ok quotas ↦
          let quota = get_max_quota quotas in
          let (global, info) = get_scheduling_info each.meta default in
          elim info [
            | err e ↦ (global, some (no_info e), cache)
            | ok none ↦ add_namespaces now tenant items global cache
            | ok (some placements) ↦
                if is_zero (get "cpu" quota) && is_zero (get "memory" quota)
                then add_namespaces now tenant items global cache
                else let (failed, cache') =
                    add_scheduled now tenant each quota global placements cache in
                  elim failed [
                    | some e ↦ (global, some e, cache')
                    | none ↦ add_namespaces now tenant items global cache'
                  ]
          ]
    ]

    unfoldable pub sync_virtual_cluster_state :
        ℕ
        → String
        → Result String (List ApiNamespace)
        → ResourceList
        → Cache
        → ResourceList × Option SyncError × Cache
    unfolding add_namespaces
    sync_virtual_cluster_state now tenant nslist default cache =
        let cache' = add_tenant tenant cache in
        elim nslist [
          | err e ↦ (default, some (client_failed e), cache')
          | ok items ↦ add_namespaces now tenant items default cache'
        ]
