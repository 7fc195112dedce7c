-- ===== src/Scheduler/Cache/Books.antt =====
-- The methods of the cache keep the books of every cluster that it holds.
use cluster_api_provider_nes.Base.{
  Bool-cases, ℕ, String, ◌≡◌, subst, true, ◌⊎◌, inl, inr, none, some, List, [], ◌∷◌, arith,
  Option-cases, replicate, dec_eq, lookup, insert, lookup-insert,
}
use cluster_api_provider_nes.Base.Int.{ℤ, pos_part, is_zero_ℤ}
use cluster_api_provider_nes.Scheduler.Quantity.{Quantities}
use cluster_api_provider_nes.Scheduler.Resource.{ResourceList}
use cluster_api_provider_nes.Scheduler.Resource.Sums.{amount_at}
use cluster_api_provider_nes.Scheduler.Namespace.{Placement, Namespace, new_slice, namespace_key}
use cluster_api_provider_nes.Scheduler.Cluster
use cluster_api_provider_nes.Scheduler.Cluster.{Cluster, zero_all, new_cluster}
use cluster_api_provider_nes.Scheduler.Cluster.Accounting.{
  IsAccounted, add_namespace-IsAccounted, remove_namespace-IsAccounted,
}
use cluster_api_provider_nes.Scheduler.Cache.{
  Cache, shadow_cluster_capacity, add_namespace_to_cluster, remove_namespace_from_cluster,
  place_each, unplace_each, place_namespace,
}

module _ ⦃Q : Quantities⦄ where
  open Q use {amount, amount_nothing, amount_set}

  -- The books of every cluster are right.
  abbrev pub IsSound : Cache → Type 0
  IsSound c =
      (name : String) (state : Cluster) → lookup name c.clusters ≡ some state → IsAccounted state

  pub zero_all_lem : (k : String) (list : ResourceList) → amount_at k (zero_all list) ≡ 0
  unfolding zero_all
  zero_all_lem k [] = ground arith
  zero_all_lem k ((j, v) ∷ list) = ground (arith, zero_all_lem k list, amount_set v 0)

  fresh-IsAccounted :
      (now : ℕ) (name : String) (capacity : ResourceList)
      → IsAccounted (record (new_cluster now name none capacity) { shadow = true })
  unfolding new_cluster
  fresh-IsAccounted now name capacity = record {
    allocated = record { distinct = tt; sums = λ k. zero_all_lem k capacity };
    provisioned = record { distinct = tt; sums = λ k. zero_all_lem k capacity };
  }

  pub insert-IsSound :
      (name : String) (state : Cluster) (c : Cache)
      → IsAccounted state
      → IsSound c
      → IsSound (record c { clusters = insert name state c.clusters })
  insert-IsSound name state c a s j w h = elim (dec_eq j name) [
    | yes e ↦
        subst IsAccounted
          (let q : state ≡ w = ground (arith, lookup-insert j name state c.clusters) in q) a
    | no n ↦ s j w (ground (arith, lookup-insert j name state c.clusters))
  ]

  -- Adding to a cluster leaves the cache as it is, or puts a cluster whose books are right.
  add_namespace_to_cluster_cases :
      (now : ℕ) (cluster key : String) (num : ℤ) (slice : ResourceList) (c : Cache)
      → IsSound c
      → ((add_namespace_to_cluster now cluster key num slice c).1 ≡ c)
        ⊎ ((state : Cluster) × IsAccounted state
            × ((add_namespace_to_cluster now cluster key num slice c).1
                ≡ record c { clusters = insert cluster state c.clusters }))
  unfolding add_namespace_to_cluster
  add_namespace_to_cluster_cases now cluster key num slice c s =
      let slices = replicate (pos_part num) (new_slice key slice cluster) in
      let fresh = record (new_cluster now cluster none shadow_cluster_capacity) { shadow = true } in
      let fresh' = fresh-IsAccounted now cluster shadow_cluster_capacity in
      elim (Bool-cases (is_zero_ℤ num)) [
        | inl z ↦ inl (ground arith)
        | inr nz ↦ elim (Option-cases (lookup cluster c.clusters)) [
          | inl e ↦ elim (Option-cases (Cluster.add_namespace key slices fresh).0) [
            | inl ok ↦ inr (
              (Cluster.add_namespace key slices fresh).1,
              add_namespace-IsAccounted key slices fresh fresh',
              ground arith,
            )
            | inr (x, failed) ↦ inl (ground arith)
          ]
          | inr (state, e) ↦ inr (
            (Cluster.add_namespace key slices state).1,
            add_namespace-IsAccounted key slices state (s cluster state e),
            ground arith,
          )
        ]
      ]

  pub add_namespace_to_cluster-IsSound :
      (now : ℕ) (cluster key : String) (num : ℤ) (slice : ResourceList) (c : Cache)
      → IsSound c
      → IsSound (add_namespace_to_cluster now cluster key num slice c).1
  add_namespace_to_cluster-IsSound now cluster key num slice c s =
      elim (add_namespace_to_cluster_cases now cluster key num slice c s) [
        | inl e ↦ rw e s
        | inr (state, a, e) ↦ rw e (insert-IsSound cluster state c a s)
      ]

  pub remove_namespace_from_cluster-IsSound :
      (cluster key : String) (c : Cache)
      → IsSound c
      → IsSound (remove_namespace_from_cluster cluster key c).1
  unfolding remove_namespace_from_cluster
  remove_namespace_from_cluster-IsSound cluster key c s =
      elim (Option-cases (lookup cluster c.clusters)) [
        | inl e ↦ rw (e, remove_namespace_from_cluster) s
        | inr (state, e) ↦
            rw (e, remove_namespace_from_cluster)
              (insert-IsSound cluster (Cluster.remove_namespace key state).1 c
                (remove_namespace-IsAccounted key state (s cluster state e)) s)
      ]

  place_each-IsSound :
      (now : ℕ) (key : String) (slice : ResourceList) (schedule placed : List Placement) (c : Cache)
      → IsSound c
      → IsSound (place_each now key slice schedule placed c).2
  unfolding place_each
  place_each-IsSound now key slice [] placed c s = s
  place_each-IsSound now key slice (each ∷ schedule) placed c s =
      let after = add_namespace_to_cluster now each.cluster key each.num slice c in
      let s' = add_namespace_to_cluster-IsSound now each.cluster key each.num slice c s in
      elim (Option-cases after.0) [
        | inl e ↦
            rw (e, place_each)
              (place_each-IsSound now key slice schedule (each ∷ placed) after.1 s')
        | inr (x, e) ↦ rw (e, place_each) s'
      ]

  unplace_each-IsSound :
      (key : String) (placed : List Placement) (c : Cache)
      → IsSound c
      → IsSound (unplace_each key placed c)
  unfolding unplace_each
  unplace_each-IsSound key [] c s = s
  unplace_each-IsSound key (each ∷ placed) c s =
      unplace_each-IsSound key placed (remove_namespace_from_cluster each.cluster key c).1
        (remove_namespace_from_cluster-IsSound each.cluster key c s)

  pub place_namespace-IsSound :
      (now : ℕ) (clone : Namespace) (c : Cache)
      → IsSound c
      → IsSound (place_namespace now clone c).1
  unfolding place_namespace
  place_namespace-IsSound now clone c s =
      let key = namespace_key clone in
      let (e, placed, c') = place_each now key clone.quota_slice clone.schedule [] c in
      let s' = place_each-IsSound now key clone.quota_slice clone.schedule [] c s in
      elim (Option-cases e) [
        | inl h ↦ rw (h, place_namespace) s'
        | inr (x, h) ↦ rw (h, place_namespace) (unplace_each-IsSound key placed c' s')
      ]
