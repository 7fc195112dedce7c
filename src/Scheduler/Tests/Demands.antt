-- ===== src/Scheduler/Tests/Demands.antt =====
-- Tests of util/helper.go.
use text.Mathlib.Text.{◌==◌ as str_eq}
use cluster_api_provider_nes.Base.Int.{pos, ◌+ℤ◌, ◌-ℤ◌}
use cluster_api_provider_nes.Base.{
  ℕ_discrete, ℕ, ◌≤◌, ◌≡◌, ◌⊎◌, arith, refl, none, some, List, [], ◌∷◌, All, lookup, ok,
  if◌then◌else◌, ite, dec_eq,
}
use cluster_api_provider_nes.Scheduler.Resource.{ResourceList}
use cluster_api_provider_nes.Scheduler.Demand.{ResourceQuota, get_max_quota}
use cluster_api_provider_nes.Scheduler.Demand.Bounds.{amount_of, greatest, get_max_quota_bounds}
use cluster_api_provider_nes.Scheduler.Annotations.{
  Parsers, Annotated, label_namespace_slice, label_scheduled_placements, slice_info, parse_slice,
  get_scheduling_info,
}
use cluster_api_provider_nes.Scheduler.Annotations.Shared.{
  or_else, after_reading, last_of, written_cpu, written_memory, leftover_slice,
}
use cluster_api_provider_nes.Scheduler.Demand.{Node}
use cluster_api_provider_nes.Scheduler.Cache.{
  Cache, add_tenant, add_namespace_without_lock, add_namespace_to_cluster, place_each, add_pod,
  scheduled_num,
}
use cluster_api_provider_nes.Scheduler.Cache.Methods.{add_cluster, add_namespace}
use cluster_api_provider_nes.Scheduler.Cluster
use cluster_api_provider_nes.Scheduler.Cluster.{add_item, add_slices, add_unit, new_cluster}
use cluster_api_provider_nes.Scheduler.Namespace.{
  placements_of, copy_namespace, namespace_key, pod_key,
}
use cluster_api_provider_nes.Scheduler.Annotations.{get_provisioned_slices}
use cluster_api_provider_nes.Scheduler.Resource.{least_fit_slice_num, slice_num_loop}
use cluster_api_provider_nes.Scheduler.Demand.{get_pod_requirements, get_total_node_capacity}
use cluster_api_provider_nes.Scheduler.Cache.Books.{IsSound}
use cluster_api_provider_nes.Scheduler.Startup.{
  ApiNamespace, label_cluster, label_scheduled_cluster, sync_super_cluster_state,
  sync_virtual_cluster_state,
}
use cluster_api_provider_nes.Scheduler.Startup.Books.{sync_state-IsSound}
use cluster_api_provider_nes.Scheduler.Tests.{nat_quantities}

abbrev quotas : List ResourceQuota
quotas = record { hard = ("cpu", 4) ∷ [] } ∷ record { hard = ("cpu", 3) ∷ ("memory", 9) ∷ [] } ∷ []

get_max_quota_bounds_example :
    (amount_of "cpu" (get_max_quota quotas) ≡ greatest "cpu" quotas)
    × (amount_of "memory" (get_max_quota quotas) ≡ greatest "memory" quotas)
    × All (λ q. amount_of "cpu" q.hard ≤ amount_of "cpu" (get_max_quota quotas)) quotas
    × All (λ q. amount_of "memory" q.hard ≤ amount_of "memory" (get_max_quota quotas)) quotas
get_max_quota_bounds_example = get_max_quota_bounds refl quotas

-- Two texts that can be read, and two amounts.
instance abbrev simple_parsers : Parsers ℕ
simple_parsers = record {
  unmarshal_counts = λ s. ok (some (("east", pos 2) ∷ []));
  unmarshal_texts = λ s. ok (("cpu", "16") ∷ ("memory", s) ∷ []);
  parse = λ s. if str_eq s "16" then some 16 else (if str_eq s "64Gi" then some 64 else none);
}

-- A namespace with a slice size of its own, and one without.
abbrev large : Annotated
large = record { name = "large"; annotations = (label_namespace_slice, "64Gi") ∷ [] }

abbrev silent : Annotated
silent = record { name = "silent"; annotations = (label_scheduled_placements, "{}") ∷ [] }

abbrev start : ResourceList
start = ("cpu", 2) ∷ ("memory", 4) ∷ []

silent_lookup : lookup label_namespace_slice silent.annotations ≡ none
unfolding dec_eq
silent_lookup = refl

leftover_slice_example :
    lookup "cpu" (get_scheduling_info silent (after_reading (large ∷ []) start)).0
    ≡ ite
        (dec_eq "cpu" "memory")
        (or_else (last_of written_memory (large ∷ [])) (lookup "cpu" start))
        (ite
          (dec_eq "cpu" "cpu")
          (or_else (last_of written_cpu (large ∷ [])) (lookup "cpu" start))
          (lookup "cpu" start))
leftover_slice_example = leftover_slice (large ∷ []) silent "cpu" start silent_lookup

-- The slice of the namespace without a size is that of the other, not the default.
silent_is_large :
    (get_scheduling_info silent (after_reading (large ∷ []) start)).0
    ≡ ("cpu", 16) ∷ ("memory", 64) ∷ []
unfolding get_scheduling_info slice_info parse_slice dec_eq
silent_is_large = refl

-- An empty cache, a super cluster with one node and one namespace of the syncer, and a tenant with a
-- namespace and a pod.
abbrev empty : Cache
empty = record { tenants = []; clusters = []; pods = []; namespaces = [] }

empty-IsSound : IsSound empty
empty-IsSound name state h = absurd (ground (arith, h))

abbrev node : Node
node = record {
  conditions = record { type = "Ready"; status = "True" } ∷ [];
  capacity = ("cpu", 64) ∷ ("memory", 256) ∷ [];
}

abbrev synced : Annotated
synced = record {
  name = "t-ns";
  annotations = (label_cluster, "t") ∷ (label_scheduled_placements, "{}") ∷ [];
}

abbrev tenant_namespace : ApiNamespace
tenant_namespace = record {
  meta = silent;
  labels = [];
  quotas = ok (record { hard = ("cpu", 4) ∷ ("memory", 8) ∷ [] } ∷ []);
  pods = ok (
      record {
        name = "web";
        annotations = (label_scheduled_cluster, "east") ∷ [];
        containers = record { requests = ("cpu", 1) ∷ [] } ∷ [];
      }
      ∷ []);
}

sync_state-IsSound_example :
    let (d1, e1, c1) =
      sync_super_cluster_state 0 "east" none (ok (node ∷ [])) (ok (synced ∷ [])) start empty in
    let (d2, e2, c2) = sync_virtual_cluster_state 0 "t" (ok (tenant_namespace ∷ [])) start empty in
    IsSound c1 × ((e1 ≡ none) ⊎ (c1 ≡ empty)) × IsSound c2
sync_state-IsSound_example =
    sync_state-IsSound 0 "east" "t" none (ok (node ∷ [])) (ok (synced ∷ []))
      (ok (tenant_namespace ∷ [])) start empty empty-IsSound

-- Both runs end without an error.
all_entered :
    ((sync_super_cluster_state 0 "east" none (ok (node ∷ [])) (ok (synced ∷ [])) start empty).1
      ≡ none)
    × ((sync_virtual_cluster_state 0 "t" (ok (tenant_namespace ∷ [])) start empty).1 ≡ none)
unfolding sync_super_cluster_state sync_virtual_cluster_state get_provisioned_slices add_cluster
    Cluster.add_provision add_namespace add_namespace_without_lock add_namespace_to_cluster
    Cluster.add_namespace add_item add_slices add_unit place_each add_pod Cluster.add_pod
    least_fit_slice_num slice_num_loop get_max_quota get_pod_requirements get_total_node_capacity
    placements_of scheduled_num copy_namespace namespace_key pod_key new_cluster add_tenant dec_eq
    ◌+ℤ◌ ◌-ℤ◌ ℕ_discrete
all_entered = (refl, refl)
