-- ===== src/Scheduler/Engine/Books.antt =====
-- The engine's methods on namespaces keep the books of every cluster in the cache.
use cluster_api_provider_nes.Base.{
  ℕ, String, ◌≡◌, inl, inr, Bool-cases, Option, none, some, List, [], ◌∷◌, Option-cases, Dict,
  lookup, Result-cases,
}
use cluster_api_provider_nes.Base.Int.{ℤ}
use cluster_api_provider_nes.Scheduler.Quantity.{Quantities}
use cluster_api_provider_nes.Scheduler.Namespace.{
  Namespace, copy_namespace, namespace_key, get_placement_map, comparable, set_new_placements,
}
use cluster_api_provider_nes.Scheduler.Cache.{Cache}
use cluster_api_provider_nes.Scheduler.Cache.Books.{IsSound}
use cluster_api_provider_nes.Scheduler.Cache.Namespaces.{namespace_methods-IsSound}
use cluster_api_provider_nes.Scheduler.Snapshot.{snapshot_for_namespace_sched}
use cluster_api_provider_nes.Scheduler.Algorithm.{SliceInfo, schedule_namespace_slices}
use cluster_api_provider_nes.Scheduler.Engine.{
  get_slices_to_schedule, get_new_placement, Visits, Reply, enter_namespace, place_slices,
  schedule_namespace, de_schedule_namespace, ensure_namespace_placements,
}

module _ ⦃Q : Quantities⦄ where
  enter_namespace-IsSound :
      (visits : Visits) (now : ℕ) (namespace : Namespace) (cur : Option Namespace)
      (slices : List SliceInfo) (c : Cache)
      → IsSound c
      → IsSound (enter_namespace visits now namespace cur slices c).2
  unfolding enter_namespace
  enter_namespace-IsSound visits now namespace cur slices c s =
      elim (Result-cases (get_new_placement slices)) [
        | inl (x, e) ↦ rw (e, enter_namespace) s
        | inr (p, e) ↦
            let ret = set_new_placements (visits.result p) (copy_namespace namespace) in
            elim (Option-cases cur) [
              | inl f ↦ rw (e, f, enter_namespace) (namespace_methods-IsSound now ret ret c s).0
              | inr (old, f) ↦
                  rw (e, f, enter_namespace) (namespace_methods-IsSound now old ret c s).2
            ]
      ]

  -- The cache that a call leaves, where it does not panic, keeps its books.
  abbrev Keeps : Option (Reply Namespace) → Type 0
  Keeps none = Unit
  Keeps (some (ret, e, c)) = IsSound c

  place_slices-Keeps :
      (visits : Visits) (now : ℕ) (namespace : Namespace) (cur : Option Namespace) (old : Dict ℤ)
      (c : Cache)
      → IsSound c
      → Keeps (place_slices visits now namespace cur old c)
  unfolding place_slices
  place_slices-Keeps visits now namespace cur old c s =
      let slices = get_slices_to_schedule visits.places visits.hints namespace old in
      elim (Result-cases (snapshot_for_namespace_sched (cur ∷ []) c)) [
        | inl (x, e) ↦ rw (e, place_slices) s
        | inr (snapshot, e) ↦
            elim (Option-cases (schedule_namespace_slices visits.usages slices snapshot)) [
              | inl f ↦ rw (e, f, place_slices) tt
              | inr ((placed, m), f) ↦
                  rw (e, f, place_slices)
                    (enter_namespace-IsSound visits now namespace cur placed c s)
            ]
      ]

  schedule_namespace-Keeps :
      (visits : Visits) (now : ℕ) (namespace : Namespace) (c : Cache)
      → IsSound c
      → Keeps (schedule_namespace visits now namespace c)
  unfolding schedule_namespace
  schedule_namespace-Keeps visits now namespace c s =
      elim (Option-cases (lookup (namespace_key namespace) c.namespaces)) [
        | inl e ↦ rw (e, schedule_namespace) (place_slices-Keeps visits now namespace none [] c s)
        | inr (cur, e) ↦ elim (Bool-cases (comparable namespace cur)) [
          | inl same ↦
              rw (e, same, schedule_namespace)
                (place_slices-Keeps visits now namespace (some cur) (get_placement_map cur) c s)
          | inr other ↦ rw (e, other, schedule_namespace) s
        ]
      ]

  -- Scheduling a namespace, where the algorithm does not panic, leaves a cache in which the books of
  -- every cluster are right, if they were before, whatever error it gives and in whatever orders
  -- maps are visited.
  pub schedule_namespace-IsSound :
      (visits : Visits) (now : ℕ) (namespace : Namespace) (c : Cache) (reply : Reply Namespace)
      → IsSound c
      → schedule_namespace visits now namespace c ≡ some reply
      → IsSound reply.2
  schedule_namespace-IsSound visits now namespace c reply s h =
      rw h at (schedule_namespace-Keeps visits now namespace c s)

  -- Taking a namespace back and ensuring its placements keep the books of every cluster right, also
  -- when they fail.
  pub engine_methods-IsSound :
      (now : ℕ) (namespace : Namespace) (key : String) (c : Cache)
      → IsSound c
      → IsSound (de_schedule_namespace now key c).1
        × IsSound (ensure_namespace_placements now namespace c).1
  unfolding de_schedule_namespace ensure_namespace_placements
  engine_methods-IsSound now namespace key c s = (
    elim (Option-cases (lookup key c.namespaces)) [
      | inl e ↦ rw (e, de_schedule_namespace) s
      | inr (ns, e) ↦ rw (e, de_schedule_namespace) (namespace_methods-IsSound now ns ns c s).1
    ],
    elim (Option-cases (lookup (namespace_key namespace) c.namespaces)) [
      | inl e ↦
          rw (e, ensure_namespace_placements)
            (namespace_methods-IsSound now namespace namespace c s).0
      | inr (ns, e) ↦ elim (Bool-cases (comparable namespace ns)) [
        | inl same ↦
            rw (e, same, ensure_namespace_placements)
              (namespace_methods-IsSound now ns namespace c s).2
        | inr other ↦ rw (e, other, ensure_namespace_placements) s
      ]
    ],
  )
