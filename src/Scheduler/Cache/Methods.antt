-- ===== src/Scheduler/Cache/Methods.antt =====
-- The other exported methods of cache/cache.go: tenants, namespaces, clusters and provisions.
use cluster_api_provider_nes.Base.{
  ℕ, String, false, Option, none, some, List, [], ◌∷◌, if◌then◌else◌, ite, dec_eq, Dict, lookup,
  insert, erase, contains, Outcome,
}
use cluster_api_provider_nes.Scheduler.Quantity.{Quantities}
use cluster_api_provider_nes.Scheduler.Error.{Error, cluster_missing}
use cluster_api_provider_nes.Scheduler.Resource.{ResourceList}
use cluster_api_provider_nes.Scheduler.Namespace.{Slice, Namespace, namespace_key}
use cluster_api_provider_nes.Scheduler.Cluster
use cluster_api_provider_nes.Scheduler.Cluster.{Cluster, copy_cluster, copy_items}
use cluster_api_provider_nes.Scheduler.Cache.{
  Cache, add_namespace_without_lock, remove_namespace_without_lock, update_namespace_without_lock,
}

module _ ⦃Q : Quantities⦄ where
  -- the namespaces of a tenant, in the order in which the map is visited
  unfoldable pub owned_by : String → Dict Namespace → List Namespace
  owned_by n [] = []
  owned_by n ((k, v) ∷ namespaces) =
      let rest = owned_by n namespaces in ite (dec_eq v.owner n) (v ∷ rest) rest

  -- The loop of `RemoveTenant`: beside the error and the cache, what was removed, the last first.
  unfoldable pub remove_each :
      ℕ → List Namespace → List Namespace → Cache → Option Error × List Namespace × Cache
  remove_each now [] removed c = (none, removed, c)
  remove_each now (each ∷ namespaces) removed c =
      let (e, c') = remove_namespace_without_lock now each c in
      elim e [
        | some e' ↦ (some e', removed, c')
        | none ↦ remove_each now namespaces (each ∷ removed) c'
      ]

  -- its rollback
  unfoldable pub restore_each : ℕ → List Namespace → Cache → Cache
  restore_each now [] c = c
  restore_each now (each ∷ removed) c =
      restore_each now removed (add_namespace_without_lock now each c).1

  unfoldable pub remove_tenant : ℕ → String → Cache → Outcome Error Cache
  unfolding owned_by remove_each restore_each
  remove_tenant now n c =
      let (e, removed, c') = remove_each now (owned_by n c.namespaces) [] c in
      elim e [
        | some e' ↦ (some e', restore_each now removed c')
        | none ↦ (none, record c' { tenants = erase n c'.tenants })
      ]

  -- `AddNamespace`: nothing is done for a tenant that is not known.
  unfoldable pub add_namespace : ℕ → Namespace → Cache → Outcome Error Cache
  add_namespace now namespace c =
      if contains namespace.owner c.tenants
      then elim (lookup (namespace_key namespace) c.namespaces) [
        | some old ↦ update_namespace_without_lock now old namespace c
        | none ↦ add_namespace_without_lock now namespace c
      ]
      else (none, c)

  unfoldable pub remove_namespace : ℕ → Namespace → Cache → Outcome Error Cache
  remove_namespace now namespace c = remove_namespace_without_lock now namespace c

  unfoldable pub update_namespace : ℕ → Namespace → Namespace → Cache → Outcome Error Cache
  update_namespace now old new c =
      if contains old.owner c.tenants
      then update_namespace_without_lock now old new c
      else (none, c)

  -- `updateClusterNonAllocationStates`: all but what is allocated, the pods and the time.
  unfoldable pub update_cluster : Cluster → Cluster → Cluster
  unfolding copy_items
  update_cluster cur new = record cur {
    labels = elim new.labels [ none ↦ cur.labels | some labels ↦ some labels ];
    capacity = new.capacity;
    shadow = false;
    provision_items = copy_items new.provision_items;
    provision = new.provision;
  }

  unfoldable pub add_cluster : ℕ → Cluster → Cache → Outcome Error Cache
  unfolding update_cluster copy_cluster
  add_cluster now cluster c = elim (lookup cluster.name c.clusters) [
    | some state ↦ (
      none,
      record c { clusters = insert cluster.name (update_cluster state cluster) c.clusters },
    )
    | none ↦
        (none, record c { clusters = insert cluster.name (copy_cluster now cluster) c.clusters })
  ]

  unfoldable pub remove_cluster : String → Cache → Outcome Error Cache
  remove_cluster name c =
      if contains name c.clusters
      then (none, record c { clusters = erase name c.clusters })
      else (some (cluster_missing name), c)

  -- `AddProvision` clears what stood under the key first.
  unfoldable pub add_provision : String → String → List Slice → Cache → Outcome Error Cache
  add_provision name key slices c = elim (lookup name c.clusters) [
    | none ↦ (some (cluster_missing name), c)
    | some state ↦
        let (removed, s1) = Cluster.remove_provision key state in
        let (added, s2) = Cluster.add_provision key slices s1 in
        elim removed [
          | some e ↦ (some e, record c { clusters = insert name s1 c.clusters })
          | none ↦ (added, record c { clusters = insert name s2 c.clusters })
        ]
  ]

  unfoldable pub remove_provision : String → String → Cache → Outcome Error Cache
  remove_provision name key c = elim (lookup name c.clusters) [
    | none ↦ (some (cluster_missing name), c)
    | some state ↦
        let (e, s1) = Cluster.remove_provision key state in
        (e, record c { clusters = insert name s1 c.clusters })
  ]

  unfoldable pub update_cluster_capacity : ℕ → String → ResourceList → Cache → Outcome Error Cache
  update_cluster_capacity now name capacity c = elim (lookup name c.clusters) [
    | none ↦ (some (cluster_missing name), c)
    | some state ↦
        let state' = record state { capacity = capacity; last_update_time = now } in
        (none, record c { clusters = insert name state' c.clusters })
  ]
