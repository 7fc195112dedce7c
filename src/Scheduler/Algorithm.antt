-- ===== src/Scheduler/Algorithm.antt =====
-- algorithm/types.go and algorithm/namespacesched.go: first fit of slices and pods to clusters.
pub mod Fit
pub mod Choice
pub mod Placement
use cluster_api_provider_nes.Base.{
  Order, ℕ, zero, suc, String, ◌≡◌, Bool, true, false, Option, none, some, List, [], ◌∷◌, ◌++◌,
  if◌then◌else◌, ite, dec_eq, replicate, Dict, lookup, Result, ok, err,
}
use cluster_api_provider_nes.Base.Int.{ℤ, pos_part}
use cluster_api_provider_nes.Scheduler.Quantity.{Quantities, is_lt}
use cluster_api_provider_nes.Scheduler.Error.{
  Error, resource_unfit, mandatory_missing, mandatory_unfit,
}
use cluster_api_provider_nes.Scheduler.Resource.{ResourceList, get}
use cluster_api_provider_nes.Scheduler.Namespace.{Pod, new_slice}
use cluster_api_provider_nes.Scheduler.Snapshot.{ClusterUsage, UsageMap, get_max_alloc, add_slices}

module _ ⦃Q : Quantities⦄ where
  open Q use {add, cmp}

  pub record SliceInfo : Type 0 where
    pub namespace : String
    pub request : ResourceList
    pub mandatory : String
    pub hint : String
    pub result : String
    pub error : Option Error

  -- `Repeat`
  unfoldable pub repeat :
      List SliceInfo → ℤ → String → ResourceList → String → String → List SliceInfo
  repeat slices n namespace request mandatory hint =
      slices
      ++ replicate (pos_part n) (record {
        namespace = namespace;
        request = request;
        mandatory = mandatory;
        hint = hint;
        result = "";
        error = none;
      })

  -- the loop of `fitSlice` over the capacity
  unfoldable pub fit_each : ResourceList → ResourceList → ResourceList → Option Error
  fit_each used request [] = none
  fit_each used request ((res, avail) ∷ capacity) =
      let rest = fit_each used request capacity in
      if is_lt (cmp avail (add (get res used) (get res request)))
      then some (resource_unfit res)
      else rest

  -- `fitSlice`, of a cluster that is no nil pointer
  unfoldable pub fit_slice : ResourceList → ClusterUsage → Option Error
  unfolding fit_each get_max_alloc
  fit_slice request cluster = fit_each (get_max_alloc cluster) request cluster.capacity

  -- `return "", err` with what `err` is then
  abbrev pub last_error : Option Error → Result Error String
  last_error none = ok ""
  last_error (some e) = err e

  -- The loop of `ScheduleOneSlice` over the entries in the order of the visit.
  unfoldable pub first_fit : ResourceList → UsageMap → Option Error → Result Error String
  first_fit request [] last = last_error last
  first_fit request ((n, cluster) ∷ entries) last = elim (fit_slice request cluster) [
    | none ↦ ok n
    | some e ↦ first_fit request entries (some e)
  ]

  -- `ScheduleOneSlice`; `none` is the panic of `fitSlice` on a nil pointer, which the test of the
  -- hint reaches.
  unfoldable pub schedule_one_slice :
      Order ClusterUsage → SliceInfo → UsageMap → Option (Result Error String)
  unfolding fit_slice first_fit
  schedule_one_slice visit slice m =
      ite (dec_eq slice.mandatory "")
        (ite (dec_eq slice.hint "") (some (first_fit slice.request (visit m) none))
          (elim (lookup slice.hint m) [
            | none ↦ none
            | some cluster ↦ some (first_fit slice.request (visit m) none)
          ]))
        (elim (lookup slice.mandatory m) [
          | none ↦ some (err (mandatory_missing slice.mandatory))
          | some cluster ↦ elim (fit_slice slice.request cluster) [
            | some e ↦ some (err (mandatory_unfit e))
            | none ↦ some (ok slice.mandatory)
          ]
        ])

  -- `ScheduleNamespaceSlices`: the slices with their results or errors, and the snapshot. The
  -- orders are those of the visits, one for each slice; the error of `AddSlices` is dropped.
  unfoldable pub schedule_namespace_slices :
      (ℕ → Order ClusterUsage) → List SliceInfo → UsageMap → Option (List SliceInfo × UsageMap)
  unfolding schedule_one_slice
  schedule_namespace_slices visits [] m = some ([], m)
  schedule_namespace_slices visits (each ∷ slices) m = elim (schedule_one_slice (visits 0) each m) [
    | none ↦ none
    | some (err e) ↦ elim (schedule_namespace_slices (λ i. visits (suc i)) slices m) [
      | none ↦ none
      | some (rest, m') ↦ some (record each { error = some e } ∷ rest, m')
    ]
    | some (ok ret) ↦
        let slice = new_slice each.namespace each.request ret in
        elim (schedule_namespace_slices (λ i. visits (suc i)) slices
          (add_slices (slice ∷ []) m).1) [
            | none ↦ none
            | some (rest, m') ↦ some (record each { result = ret } ∷ rest, m')
          ]
  ]

  -- The loop of `SchedulePod`. The errors that it gets are its own `err`; the one that it returns
  -- after the loop is still nil.
  unfoldable pub first_pod_fit : ResourceList → UsageMap → Result Error String
  first_pod_fit request [] = ok ""
  first_pod_fit request ((name, cluster) ∷ entries) = elim (fit_slice request cluster) [
    | none ↦ ok name
    | some e ↦ first_pod_fit request entries
  ]

  unfoldable pub schedule_pod : Order ClusterUsage → Pod → UsageMap → Result Error String
  unfolding first_pod_fit fit_slice
  schedule_pod visit pod m = first_pod_fit pod.request (visit m)
