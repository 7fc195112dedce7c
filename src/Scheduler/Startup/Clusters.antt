-- ===== src/Scheduler/Startup/Clusters.antt =====
-- `SyncSuperClusterState` leaves the books of every cluster right.
use cluster_api_provider_nes.Base.{
  Result, ℕ, String, ◌≡◌, refl, ap, subst, sym, ◌⊎◌, inl, inr, Option-cases, Option, none, List, [],
  ◌∷◌, map, Dict, lookup, contains,
}
use cluster_api_provider_nes.Scheduler.Quantity.{Quantities}
use cluster_api_provider_nes.Scheduler.Error.{Error}
use cluster_api_provider_nes.Scheduler.Resource.{ResourceList}
use cluster_api_provider_nes.Scheduler.Namespace.{Slice, copy_slice, slash}
use cluster_api_provider_nes.Scheduler.Cluster
use cluster_api_provider_nes.Scheduler.Cluster.{Cluster, new_cluster, copy_cluster, copy_items}
use cluster_api_provider_nes.Scheduler.Cluster.Items.{Accounts}
use cluster_api_provider_nes.Scheduler.Cluster.Accounting.{IsAccounted, add_provision-IsAccounted}
use cluster_api_provider_nes.Scheduler.Cache.{Cache}
use cluster_api_provider_nes.Scheduler.Cache.Methods.{add_cluster, update_cluster}
use cluster_api_provider_nes.Scheduler.Cache.Books.{zero_all_lem, IsSound, insert-IsSound}
use cluster_api_provider_nes.Scheduler.Demand.{Node, get_total_node_capacity}
use cluster_api_provider_nes.Scheduler.Annotations.{Parsers, Annotated, get_provisioned_slices}
use cluster_api_provider_nes.Scheduler.Startup.{
  label_cluster, provision_each, sync_super_cluster_state, SyncError,
}
use cluster_api_provider_nes.Scheduler.Startup.Cases.{
  bool_each, option_each, result_each, EndsSound,
}

module _ ⦃Q : Quantities⦄ where
  open Q use {Quantity}

  copy_slices_same : (slices : List Slice) → map copy_slice slices ≡ slices
  unfolding copy_slice
  copy_slices_same [] = refl
  copy_slices_same (x ∷ slices) = ap (λ rest. x ∷ rest) (copy_slices_same slices)

  copy_items_same : (items : Dict (List Slice)) → copy_items items ≡ items
  unfolding copy_items
  copy_items_same [] = refl
  copy_items_same ((k, v) ∷ items) =
      rw (copy_slices_same v) (ap (λ rest. (k, v) ∷ rest) (copy_items_same items))

  new_cluster-IsAccounted :
      (now : ℕ) (name : String) (labels : Option (Dict String)) (capacity : ResourceList)
      → IsAccounted (new_cluster now name labels capacity)
  unfolding new_cluster
  new_cluster-IsAccounted now name labels capacity = record {
    allocated = record { distinct = tt; sums = λ k. zero_all_lem k capacity };
    provisioned = record { distinct = tt; sums = λ k. zero_all_lem k capacity };
  }

  update_cluster-IsAccounted :
      (cur new : Cluster) → IsAccounted cur → IsAccounted new → IsAccounted (update_cluster cur new)
  unfolding update_cluster
  update_cluster-IsAccounted cur new a b = record {
    allocated = a.allocated;
    provisioned =
        subst (λ items. Accounts items new.provision) (sym (copy_items_same new.provision_items))
          b.provisioned;
  }

  copy_cluster-IsAccounted :
      (now : ℕ) (cluster : Cluster) → IsAccounted cluster → IsAccounted (copy_cluster now cluster)
  unfolding copy_cluster
  copy_cluster-IsAccounted now cluster a = record {
    allocated =
        subst (λ items. Accounts items cluster.alloc) (sym (copy_items_same cluster.alloc_items))
          a.allocated;
    provisioned =
        subst (λ items. Accounts items cluster.provision)
          (sym (copy_items_same cluster.provision_items)) a.provisioned;
  }

  add_cluster-IsSound :
      (now : ℕ) (cluster : Cluster) (c : Cache)
      → IsAccounted cluster
      → IsSound c
      → IsSound (add_cluster now cluster c).1
  unfolding add_cluster
  add_cluster-IsSound now cluster c a s = elim (Option-cases (lookup cluster.name c.clusters)) [
    | inl h ↦
        rw (h, add_cluster)
          (insert-IsSound cluster.name (copy_cluster now cluster) c
            (copy_cluster-IsAccounted now cluster a) s)
    | inr (state, h) ↦
        rw (h, add_cluster)
          (insert-IsSound cluster.name (update_cluster state cluster) c
            (update_cluster-IsAccounted state cluster (s cluster.name state h) a) s)
  ]

  abbrev EndsAccounted : ResourceList × Option SyncError × Cluster → Type 0
  EndsAccounted (default, e, cluster) = IsAccounted cluster

  module _ ⦃J : Parsers Quantity⦄ where
    provision_each-IsAccounted :
        (id : String) (items : List Annotated) (default : ResourceList) (cluster : Cluster)
        → IsAccounted cluster
        → EndsAccounted (provision_each id items default cluster)
    unfolding provision_each
    provision_each-IsAccounted id [] default cluster a = a
    provision_each-IsAccounted id (each ∷ items) default cluster a =
        let key = slash id each.name in
        let info = get_provisioned_slices each id key default in
        bool_each EndsAccounted (contains label_cluster each.annotations)
          (provision_each-IsAccounted id items default cluster a)
          (result_each EndsAccounted info.1 (λ e. a)
            (λ slices.
              let a' = add_provision-IsAccounted key slices cluster a in
              option_each EndsAccounted (Cluster.add_provision key slices cluster).0
                (provision_each-IsAccounted id items info.0 _ a') (λ e. a')))

    pub sync_super_cluster_state-IsSound :
        (now : ℕ) (id : String) (labels : Option (Dict String))
        (nodelist : Result String (List Node)) (nslist : Result String (List Annotated))
        (default : ResourceList) (c : Cache)
        → IsSound c
        → EndsSound (sync_super_cluster_state now id labels nodelist nslist default c)
    unfolding sync_super_cluster_state
    sync_super_cluster_state-IsSound now id labels nodelist nslist default c s =
        result_each EndsSound nodelist (λ e. s)
          (λ nodes.
            let fresh = new_cluster now id labels (get_total_node_capacity nodes) in
            let a = new_cluster-IsAccounted now id labels (get_total_node_capacity nodes) in
            result_each EndsSound nslist (λ e. s)
              (λ namespaces.
                let r = provision_each id namespaces default fresh in
                option_each EndsSound r.1
                  (add_cluster-IsSound now _ c
                    (provision_each-IsAccounted id namespaces default fresh a) s)
                  (λ e. s)))

    add_cluster-none :
        (now : ℕ) (cluster : Cluster) (c : Cache) → (add_cluster now cluster c).0 ≡ none
    unfolding add_cluster
    add_cluster-none now cluster c =
        option_each {C = Option Error × Cache} (λ o. o.0 ≡ none) (lookup cluster.name c.clusters)
          refl (λ state. refl)

    -- An error leaves the cache as it was.
    abbrev pub IsAllOrNothing : Cache → ResourceList × Option SyncError × Cache → Type 0
    IsAllOrNothing c (default, e, c') = (e ≡ none) ⊎ (c' ≡ c)

    pub sync_super_cluster_state-IsAllOrNothing :
        (now : ℕ) (id : String) (labels : Option (Dict String))
        (nodelist : Result String (List Node)) (nslist : Result String (List Annotated))
        (default : ResourceList) (c : Cache)
        → IsAllOrNothing c (sync_super_cluster_state now id labels nodelist nslist default c)
    unfolding sync_super_cluster_state
    sync_super_cluster_state-IsAllOrNothing now id labels nodelist nslist default c =
        result_each (IsAllOrNothing c) nodelist (λ e. inr refl)
          (λ nodes.
            result_each (IsAllOrNothing c) nslist (λ e. inr refl)
              (λ namespaces.
                let r =
                  provision_each id namespaces default
                    (new_cluster now id labels (get_total_node_capacity nodes)) in
                option_each (IsAllOrNothing c) r.1 (inl (rw (add_cluster-none now r.2 c) refl))
                  (λ e. inr refl)))
