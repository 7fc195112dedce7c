-- ===== src/Scheduler/Engine.antt =====
-- engine/schedulerengine.go: scheduling against the cache. The engine's lock makes each method one
-- step; the orders in which it visits maps are arguments.
pub mod Slices
pub mod Books
use cluster_api_provider_nes.Base.{
  Order, ℕ, ◌+◌, ◌-◌, String, Option, none, some, List, [], ◌∷◌, ltb, ◌==◌, if◌then◌else◌, Dict,
  lookup, insert, Result, ok, err, Outcome,
}
use cluster_api_provider_nes.Base.Int.{ℤ, pos, ltb_ℤ, is_zero_ℤ, ◌+ℤ◌, ◌-ℤ◌}
use cluster_api_provider_nes.Scheduler.Quantity.{Quantities}
use cluster_api_provider_nes.Scheduler.Error.{Error, slice_size_changed, not_scheduled}
use cluster_api_provider_nes.Scheduler.Resource.{ResourceList}
use cluster_api_provider_nes.Scheduler.Namespace.{
  Namespace, Pod, copy_namespace, namespace_key, get_placement_map, get_total_slices, comparable,
  set_new_placements, set_cluster, pod_namespace_key,
}
use cluster_api_provider_nes.Scheduler.Cache.{Cache, add_pod, remove_pod}
use cluster_api_provider_nes.Scheduler.Cache.Methods.{
  add_namespace, remove_namespace, update_namespace,
}
use cluster_api_provider_nes.Scheduler.Snapshot.{
  ClusterUsage, snapshot_for_namespace_sched, snapshot_for_pod_sched,
}
use cluster_api_provider_nes.Scheduler.Algorithm.{SliceInfo, repeat, schedule_namespace_slices}
use cluster_api_provider_nes.Scheduler.Algorithm

-- `util.Min`
unfoldable pub lesser : ℤ → ℤ → ℤ
lesser a b = if ltb_ℤ a b then a else b

-- `oldPlacements[cluster] = val - used`, for a cluster that the map has
unfoldable pub use_up : String → ℤ → Dict ℤ → Dict ℤ
unfolding lesser
use_up cluster mandatory old = elim (lookup cluster old) [
  | none ↦ old
  | some val ↦ insert cluster (val -ℤ lesser val mandatory) old
]

-- `newPlacement[k]++`
unfoldable pub increment : String → Dict ℤ → Dict ℤ
increment k m = elim (lookup k m) [ none ↦ insert k (pos 1) m | some n ↦ insert k (n +ℤ pos 1) m ]

module _ ⦃Q : Quantities⦄ where
  -- The loop over the mandatory placements: the slices so far, how many remain, and what is left
  -- of the old placements.
  unfoldable pub mandatory_loop :
      String → ResourceList → Dict ℤ → List SliceInfo → ℤ → Dict ℤ → List SliceInfo × ℤ × Dict ℤ
  unfolding lesser use_up
  mandatory_loop key size [] slices remaining old = (slices, remaining, old)
  mandatory_loop key size ((cluster, num) ∷ places) slices remaining old =
      let mandatory = lesser num remaining in
      let rest =
        mandatory_loop key size places (repeat slices mandatory key size cluster "")
          (remaining -ℤ mandatory) (use_up cluster mandatory old) in
      if is_zero_ℤ remaining then (slices, remaining, old) else rest

  -- the loop over the old placements, which serve as hints
  unfoldable pub hint_loop :
      String → ResourceList → Dict ℤ → List SliceInfo → ℤ → List SliceInfo × ℤ
  unfolding lesser
  hint_loop key size [] slices remaining = (slices, remaining)
  hint_loop key size ((cluster, num) ∷ old) slices remaining =
      let hinted = lesser num remaining in
      let rest =
        hint_loop key size old (repeat slices hinted key size "" cluster) (remaining -ℤ hinted) in
      if is_zero_ℤ remaining then (slices, remaining) else rest

  unfoldable pub get_slices_to_schedule : Order ℤ → Order ℤ → Namespace → Dict ℤ → List SliceInfo
  unfolding mandatory_loop hint_loop repeat
  get_slices_to_schedule visit_places visit_old namespace old =
      let key = namespace_key namespace in
      let size = namespace.quota_slice in
      let (slices, remaining, old') =
        mandatory_loop key size (visit_places (get_placement_map namespace)) []
          (pos (get_total_slices namespace)) old in
      let (slices', remaining') = hint_loop key size (visit_old old') slices remaining in
      repeat slices' remaining' key size "" ""

  unfoldable pub new_placement_from : Dict ℤ → List SliceInfo → Result Error (Dict ℤ)
  unfolding increment
  new_placement_from m [] = ok m
  new_placement_from m (each ∷ slices) = elim each.error [
    | some e ↦ err e
    | none ↦ new_placement_from (increment each.result m) slices
  ]

  unfoldable pub get_new_placement : List SliceInfo → Result Error (Dict ℤ)
  unfolding new_placement_from
  get_new_placement slices = new_placement_from [] slices

  -- the orders of the visits of one call of `ScheduleNamespace`
  pub record Visits : Type 0 where
    pub places : Order ℤ
    pub hints : Order ℤ
    pub usages : ℕ → Order ClusterUsage
    pub result : Order ℤ

  -- What a method gives back: the namespace or pod, if not nil, the error, and the cache.
  abbrev pub Reply : Type 0 → Type 0
  Reply A = Option A × Option Error × Cache

  -- `ScheduleNamespace` after the algorithm: the placement is entered in the cache.
  unfoldable pub enter_namespace :
      Visits → ℕ → Namespace → Option Namespace → List SliceInfo → Cache → Reply Namespace
  unfolding get_new_placement
  enter_namespace visits now namespace cur slices c = elim (get_new_placement slices) [
    | err e ↦ (none, some e, c)
    | ok placement ↦
        let ret = set_new_placements (visits.result placement) (copy_namespace namespace) in
        elim cur [
          | some state ↦ let (e, c') = update_namespace now state ret c in (some ret, e, c')
          | none ↦ let (e, c') = add_namespace now ret c in (some ret, e, c')
        ]
  ]

  -- It from the snapshot on. `none` is a panic of the algorithm.
  unfoldable pub place_slices :
      Visits → ℕ → Namespace → Option Namespace → Dict ℤ → Cache → Option (Reply Namespace)
  unfolding get_slices_to_schedule enter_namespace
  place_slices visits now namespace cur old c =
      let slices = get_slices_to_schedule visits.places visits.hints namespace old in
      elim (snapshot_for_namespace_sched (cur ∷ []) c) [
        | err e ↦ some (none, some e, c)
        | ok snapshot ↦ elim (schedule_namespace_slices visits.usages slices snapshot) [
          | none ↦ none
          | some (placed, _) ↦ some (enter_namespace visits now namespace cur placed c)
        ]
      ]

  unfoldable pub schedule_namespace : Visits → ℕ → Namespace → Cache → Option (Reply Namespace)
  unfolding place_slices
  schedule_namespace visits now namespace c = elim (lookup (namespace_key namespace) c.namespaces) [
    | none ↦ place_slices visits now namespace none [] c
    | some cur ↦
        if comparable namespace cur
        then place_slices visits now namespace (some cur) (get_placement_map cur) c
        else some (none, some slice_size_changed, c)
  ]

  unfoldable pub de_schedule_namespace : ℕ → String → Cache → Outcome Error Cache
  de_schedule_namespace now key c = elim (lookup key c.namespaces) [
    | some ns ↦ remove_namespace now ns c
    | none ↦ (none, c)
  ]

  unfoldable pub ensure_namespace_placements : ℕ → Namespace → Cache → Outcome Error Cache
  ensure_namespace_placements now namespace c =
      elim (lookup (namespace_key namespace) c.namespaces) [
        | some ns ↦
            if comparable namespace ns
            then update_namespace now ns namespace c
            else (some slice_size_changed, c)
        | none ↦ add_namespace now namespace c
      ]

  unfoldable pub schedule_pod : Order ClusterUsage → Pod → Cache → Reply Pod
  schedule_pod visit pod c = elim (lookup (pod_namespace_key pod) c.namespaces) [
    | none ↦ (none, some (not_scheduled (pod_namespace_key pod)), c)
    | some ns ↦ elim (snapshot_for_pod_sched pod c) [
      | err e ↦ (none, some e, c)
      | ok snapshot ↦ elim (Algorithm.schedule_pod visit pod snapshot) [
        | err e ↦ (none, some e, c)
        | ok result ↦
            let ret = set_cluster result pod in let (e, c') = add_pod ret c in (some ret, e, c')
      ]
    ]
  ]

  unfoldable pub de_schedule_pod : String → Cache → Outcome Error Cache
  de_schedule_pod key c = elim (lookup key c.pods) [
    | some pod ↦ remove_pod pod c
    | none ↦ (none, c)
  ]
