-- ===== src/Scheduler/Cache/Namespaces.antt =====
-- The exported methods on namespaces keep the books of every cluster.
use cluster_api_provider_nes.Base.{
  ℕ, String, ◌≡◌, Bool-cases, ◌⊎◌, inl, inr, List, [], ◌∷◌, arith, Option-cases, dec_eq, lookup,
  contains, Result-cases,
}
use cluster_api_provider_nes.Base.Int.{pos, is_zero_ℤ, ◌-ℤ◌}
use cluster_api_provider_nes.Scheduler.Quantity.{Quantities}
use cluster_api_provider_nes.Scheduler.Resource.{ResourceList, least_fit_slice_num}
use cluster_api_provider_nes.Scheduler.Namespace.{
  Placement, Namespace, copy_namespace, namespace_key,
}
use cluster_api_provider_nes.Scheduler.Cache.{
  Cache, scheduled_num, add_namespace_to_cluster, remove_namespace_from_cluster, place_namespace,
  add_namespace_without_lock, release_each, replace_each, remove_namespace_without_lock,
  update_namespace_without_lock,
}
use cluster_api_provider_nes.Scheduler.Cache.Methods.{add_namespace, update_namespace}
use cluster_api_provider_nes.Scheduler.Cache.Methods
use cluster_api_provider_nes.Scheduler.Cache.Books.{
  IsSound, place_namespace-IsSound, add_namespace_to_cluster-IsSound,
  remove_namespace_from_cluster-IsSound,
}

module _ ⦃Q : Quantities⦄ where
  add_namespace_without_lock-IsSound :
      (now : ℕ) (namespace : Namespace) (c : Cache)
      → IsSound c
      → IsSound (add_namespace_without_lock now namespace c).1
  unfolding add_namespace_without_lock
  add_namespace_without_lock-IsSound now namespace c s =
      let clone = copy_namespace namespace in
      let placed = (place_namespace now clone c).1 in
      let result = (add_namespace_without_lock now namespace c).1 in
      let cases : (result ≡ c) ⊎ (result ≡ placed) =
        elim (Bool-cases (contains (namespace_key clone) c.namespaces)) [
          | inl known ↦ inl (ground arith)
          | inr new ↦ elim (Result-cases (least_fit_slice_num clone.quota clone.quota_slice)) [
            | inl (e, failed) ↦ inl (ground arith)
            | inr (n, fits) ↦
                elim (Bool-cases (is_zero_ℤ (pos n -ℤ scheduled_num clone.schedule))) [
                  | inl same ↦ inr (ground arith)
                  | inr differs ↦ inl (ground arith)
                ]
          ]
        ] in
      elim cases [ inl e ↦ rw e s | inr e ↦ rw e (place_namespace-IsSound now clone c s) ]

  release_each-IsSound :
      (key : String) (schedule released : List Placement) (c : Cache)
      → IsSound c
      → IsSound (release_each key schedule released c).2
  unfolding release_each
  release_each-IsSound key [] released c s = s
  release_each-IsSound key (each ∷ schedule) released c s =
      let after = remove_namespace_from_cluster each.cluster key c in
      let s' = remove_namespace_from_cluster-IsSound each.cluster key c s in
      elim (Option-cases after.0) [
        | inl e ↦
            rw (e, release_each) (release_each-IsSound key schedule (each ∷ released) after.1 s')
        | inr (x, e) ↦ rw (e, release_each) s'
      ]

  replace_each-IsSound :
      (now : ℕ) (key : String) (slice : ResourceList) (released : List Placement) (c : Cache)
      → IsSound c
      → IsSound (replace_each now key slice released c)
  unfolding replace_each
  replace_each-IsSound now key slice [] c s = s
  replace_each-IsSound now key slice (each ∷ released) c s =
      replace_each-IsSound now key slice released
        (add_namespace_to_cluster now each.cluster key each.num slice c).1
        (add_namespace_to_cluster-IsSound now each.cluster key each.num slice c s)

  remove_namespace_without_lock-IsSound :
      (now : ℕ) (namespace : Namespace) (c : Cache)
      → IsSound c
      → IsSound (remove_namespace_without_lock now namespace c).1
  unfolding remove_namespace_without_lock
  remove_namespace_without_lock-IsSound now namespace c s =
      let key = namespace_key namespace in
      let (e, released, c') = release_each key namespace.schedule [] c in
      let s' = release_each-IsSound key namespace.schedule [] c s in
      elim (Bool-cases (contains key c.namespaces)) [
        | inl known ↦ elim (Option-cases e) [
          | inl h ↦ rw (known, h, remove_namespace_without_lock) s'
          | inr (x, h) ↦
              rw (known, h, remove_namespace_without_lock)
                (replace_each-IsSound now key namespace.quota_slice released c' s')
        ]
        | inr unknown ↦ rw (unknown, remove_namespace_without_lock) s
      ]

  update_namespace_without_lock-IsSound :
      (now : ℕ) (old new : Namespace) (c : Cache)
      → IsSound c
      → IsSound (update_namespace_without_lock now old new c).1
  unfolding update_namespace_without_lock
  update_namespace_without_lock-IsSound now old new c s =
      let c1 = (remove_namespace_without_lock now old c).1 in
      let c2 = (add_namespace_without_lock now new c1).1 in
      let c3 = (add_namespace_without_lock now old c2).1 in
      let s1 = remove_namespace_without_lock-IsSound now old c s in
      let s2 = add_namespace_without_lock-IsSound now new c1 s1 in
      let result = (update_namespace_without_lock now old new c).1 in
      let cases : (result ≡ c) ⊎ ((result ≡ c1) ⊎ ((result ≡ c2) ⊎ (result ≡ c3))) =
        elim (dec_eq (namespace_key old) (namespace_key new)) [
          | no differ ↦ inl (ground arith)
          | yes same ↦ elim (Option-cases (remove_namespace_without_lock now old c).0) [
            | inr (x, failed) ↦ inr (inl (ground arith))
            | inl removed ↦ elim (Option-cases (add_namespace_without_lock now new c1).0) [
              | inl added ↦ inr (inr (inl (ground arith)))
              | inr (x, failed) ↦ inr (inr (inr (ground arith)))
            ]
          ]
        ] in
      elim cases [
        | inl e ↦ rw e s
        | inr (inl e) ↦ rw e s1
        | inr (inr (inl e)) ↦ rw e s2
        | inr (inr (inr e)) ↦ rw e (add_namespace_without_lock-IsSound now old c2 s2)
      ]

  add_namespace-IsSound :
      (now : ℕ) (namespace : Namespace) (c : Cache)
      → IsSound c
      → IsSound (add_namespace now namespace c).1
  unfolding add_namespace
  add_namespace-IsSound now namespace c s = elim (Bool-cases (contains namespace.owner c.tenants)) [
    | inr unknown ↦ rw (unknown, add_namespace) s
    | inl known ↦ elim (Option-cases (lookup (namespace_key namespace) c.namespaces)) [
      | inl e ↦ rw (known, e, add_namespace) (add_namespace_without_lock-IsSound now namespace c s)
      | inr (old, e) ↦
          rw (known, e, add_namespace) (update_namespace_without_lock-IsSound now old namespace c s)
    ]
  ]

  update_namespace-IsSound :
      (now : ℕ) (old new : Namespace) (c : Cache)
      → IsSound c
      → IsSound (update_namespace now old new c).1
  unfolding update_namespace
  update_namespace-IsSound now old new c s = elim (Bool-cases (contains old.owner c.tenants)) [
    | inr unknown ↦ rw (unknown, update_namespace) s
    | inl known ↦
        rw (known, update_namespace) (update_namespace_without_lock-IsSound now old new c s)
  ]

  -- Adding, removing and updating a namespace keep the books of every cluster right, also when they
  -- fail and take back what they did.
  pub namespace_methods-IsSound :
      (now : ℕ) (old namespace : Namespace) (c : Cache)
      → IsSound c
      → IsSound (add_namespace now namespace c).1
        × IsSound (Methods.remove_namespace now namespace c).1
        × IsSound (update_namespace now old namespace c).1
  unfolding Methods.remove_namespace
  namespace_methods-IsSound now old namespace c s = (
    add_namespace-IsSound now namespace c s,
    remove_namespace_without_lock-IsSound now namespace c s,
    update_namespace-IsSound now old namespace c s,
  )
