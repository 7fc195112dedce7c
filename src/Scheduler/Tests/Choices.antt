-- ===== src/Scheduler/Tests/Choices.antt =====
-- Tests of the choice of clusters for slices and pods.
use cluster_api_provider_nes.Base.{
  Order, IsOrder, Dict, String, ◌+◌, ◌≤◌, ◌≡◌, ◌≢◌, ◌↔◌, refl, ◌⊎◌, none, some, [], ◌∷◌, arith, All,
  Distinct, lookup, dec_eq, Found-self, ok, err, length,
}
use cluster_api_provider_nes.Base.Int.{ℤ, pos, negsuc, ◌-ℤ◌, ◌+ℤ◌}
use cluster_api_provider_nes.Scheduler.Error.{mandatory_missing}
use cluster_api_provider_nes.Scheduler.Resource.{
  max_alloc, raise_all, least_fit_slice_num, slice_num_loop,
}
use cluster_api_provider_nes.Scheduler.Resource.Sums.{amount_at}
use cluster_api_provider_nes.Scheduler.Namespace.{
  Namespace, new_slice, get_total_slices, get_placement_map, placement_map_from,
}
use cluster_api_provider_nes.Scheduler.Snapshot.{
  ClusterUsage, UsageMap, get_max_alloc, add_slices, add_amounts,
}
use cluster_api_provider_nes.Scheduler.Snapshot.Amounts.{used_at, IsUsage, IsWithin}
use cluster_api_provider_nes.Scheduler.Algorithm.{
  SliceInfo, repeat, fit_each, fit_slice, first_fit, schedule_one_slice, schedule_namespace_slices,
  schedule_pod,
}
use cluster_api_provider_nes.Scheduler.Algorithm.Fit.{Fits, fit_slice_iff, fit_slice-le}
use cluster_api_provider_nes.Scheduler.Algorithm.Choice.{
  FitsIn, schedule_one_slice_ok, schedule_one_slice_err, schedule_one_slice_panics,
  schedule_one_slice_hint, schedule_pod_lem,
}
use cluster_api_provider_nes.Scheduler.Algorithm.Placement.{
  placed_at, schedule_namespace_slices_lem,
}
use cluster_api_provider_nes.Scheduler.Engine.{
  lesser, use_up, mandatory_loop, hint_loop, get_slices_to_schedule, get_new_placement,
  new_placement_from, increment,
}
use cluster_api_provider_nes.Scheduler.Engine.Slices.{AreCounts, length-get_slices_to_schedule}
use cluster_api_provider_nes.Scheduler.Tests.{nat_quantities, unit, quota, capacity, pod_one}

-- what the snapshot has of a cluster with two units allocated
abbrev usage : ClusterUsage
usage = record {
  capacity = capacity;
  alloc = ("cpu", 4) ∷ ("memory", 6) ∷ [];
  provision = ("cpu", 2) ∷ ("memory", 8) ∷ [];
}

abbrev snapshot : UsageMap
snapshot = ("east", usage) ∷ []

abbrev east : String
east = "east"

abbrev in_order : {A : Type 0} → Order A
in_order m = m

abbrev slice : SliceInfo
slice = record {
  namespace = "t/ns";
  request = unit;
  mandatory = "";
  hint = "";
  result = "";
  error = none;
}

usage-Distinct : Distinct usage.alloc
unfolding dec_eq
usage-Distinct = (refl, (refl, tt))

fit_slice_iff_example : (fit_slice unit usage ≡ none) ↔ All (Fits usage unit) capacity
fit_slice_iff_example = fit_slice_iff unit usage usage-Distinct

unit_fits : fit_slice unit usage ≡ none
unfolding fit_slice fit_each get_max_alloc max_alloc raise_all dec_eq
unit_fits = refl

fit_slice-le_example : used_at "cpu" usage + amount_at "cpu" unit ≤ amount_at "cpu" usage.capacity
fit_slice-le_example = fit_slice-le "cpu" unit usage unit_fits (ground arith)

visits_each : IsOrder {V = ClusterUsage} in_order
visits_each = record { entries = λ m d. Found-self m d; keeps = λ k m. refl }

snapshot-Distinct : Distinct snapshot
snapshot-Distinct = ground arith

chosen : schedule_one_slice in_order slice snapshot ≡ some (ok "east")
unfolding schedule_one_slice first_fit fit_slice fit_each get_max_alloc max_alloc raise_all dec_eq
chosen = refl

schedule_one_slice_ok_example :
    (FitsIn unit snapshot east × ((slice.mandatory ≡ "") ⊎ (east ≡ slice.mandatory)))
    ⊎ ((snapshot ≡ []) × (east ≡ "") × (slice.mandatory ≡ ""))
schedule_one_slice_ok_example =
    schedule_one_slice_ok in_order slice snapshot visits_each snapshot-Distinct chosen

-- a slice that must go to a cluster that the snapshot does not have
abbrev bound : SliceInfo
bound = record slice { mandatory = "west" }

refused : schedule_one_slice in_order bound snapshot ≡ some (err (mandatory_missing "west"))
unfolding schedule_one_slice dec_eq
refused = refl

schedule_one_slice_err_example :
    ((bound.mandatory ≢ "") × ¬ FitsIn unit snapshot bound.mandatory)
    ⊎ ((bound.mandatory ≡ "") × ((n : String) → ¬ FitsIn unit snapshot n))
schedule_one_slice_err_example = schedule_one_slice_err in_order bound snapshot visits_each refused

-- a slice whose hint is such a cluster
abbrev hinted : SliceInfo
hinted = record slice { hint = "west" }

schedule_one_slice_panics_example :
    (schedule_one_slice in_order hinted snapshot ≡ none)
    ↔ ((hinted.mandatory ≡ "") × (hinted.hint ≢ "") × (lookup hinted.hint snapshot ≡ none))
schedule_one_slice_panics_example = schedule_one_slice_panics in_order hinted snapshot

schedule_one_slice_hint_example :
    (schedule_one_slice in_order (record slice { hint = "east" }) snapshot ≡ none)
    ⊎ (schedule_one_slice in_order (record slice { hint = "east" }) snapshot
        ≡ schedule_one_slice in_order slice snapshot)
schedule_one_slice_hint_example =
    schedule_one_slice_hint in_order (record slice { hint = "east" }) snapshot

schedule_pod_lem_example :
    (n : String) × (schedule_pod in_order pod_one snapshot ≡ ok n)
    × (FitsIn pod_one.request snapshot n
        ⊎ ((n ≡ "") × ((k : String) → ¬ FitsIn pod_one.request snapshot k)))
schedule_pod_lem_example = schedule_pod_lem in_order pod_one snapshot visits_each snapshot-Distinct

-- the slice once it is placed, and the snapshot then
abbrev placed : SliceInfo
placed = record slice { result = "east" }

abbrev filled : UsageMap
filled = ("east", record usage { alloc = ("cpu", 6) ∷ ("memory", 9) ∷ [] }) ∷ []

placed_one :
    schedule_namespace_slices (λ i. in_order) (slice ∷ []) snapshot ≡ some (placed ∷ [], filled)
unfolding schedule_namespace_slices schedule_one_slice first_fit fit_slice fit_each get_max_alloc
    max_alloc raise_all dec_eq add_slices add_amounts new_slice
placed_one = refl

usage-IsUsage : IsUsage usage
unfolding dec_eq
usage-IsUsage = record { distinct = (refl, (refl, tt)); complete = λ k h. ground arith }

schedule_namespace_slices_lem_example :
    (u' : ClusterUsage) × (lookup "east" filled ≡ some u')
    × (u'.capacity ≡ usage.capacity)
    × (u'.provision ≡ usage.provision)
    × ((k : String)
        → amount_at k u'.alloc ≡ amount_at k usage.alloc + placed_at "east" k (placed ∷ []))
    × ((k : String) → IsWithin k usage → IsWithin k u')
unfolding dec_eq
schedule_namespace_slices_lem_example =
    schedule_namespace_slices_lem (λ i. in_order) (slice ∷ []) snapshot "east" usage
      (λ i. visits_each) ((refl, (refl, (refl, tt))), tt) snapshot-Distinct usage-IsUsage
      (ground arith) placed_one

-- a namespace with one slice placed so far
abbrev namespace : Namespace
namespace = record {
  owner = "t";
  name = "ns";
  labels = [];
  quota = quota;
  quota_slice = unit;
  schedule = record { cluster = "east"; num = pos 1 } ∷ [];
}

abbrev one_old : Dict ℤ
one_old = ("west", pos 1) ∷ []

one_placed : get_placement_map namespace ≡ ("east", pos 1) ∷ []
unfolding get_placement_map placement_map_from dec_eq
one_placed = refl

placed-AreCounts : AreCounts (get_placement_map namespace)
placed-AreCounts k n h = ground (arith, h, one_placed)

old-AreCounts : AreCounts one_old
old-AreCounts k n h = ground (arith, h)

visits_counts : IsOrder {V = ℤ} in_order
visits_counts = record { entries = λ m d. Found-self m d; keeps = λ k m. refl }

length-get_slices_to_schedule_example :
    length (get_slices_to_schedule in_order in_order namespace one_old) ≡ get_total_slices namespace
length-get_slices_to_schedule_example =
    length-get_slices_to_schedule in_order in_order namespace one_old visits_counts visits_counts
      (refl, tt) placed-AreCounts old-AreCounts

-- A negative number in the annotation makes one slice more than the quota takes.
abbrev negative : Namespace
negative = record namespace { schedule = record { cluster = "east"; num = negsuc 0 } ∷ [] }

one_too_many : length (get_slices_to_schedule in_order in_order negative []) ≡ 4
unfolding get_slices_to_schedule mandatory_loop hint_loop lesser use_up repeat get_placement_map
    placement_map_from get_total_slices least_fit_slice_num slice_num_loop ◌-ℤ◌ dec_eq
one_too_many = refl

counted : get_new_placement (placed ∷ placed ∷ []) ≡ ok (("east", pos 2) ∷ [])
unfolding get_new_placement new_placement_from increment dec_eq ◌+ℤ◌
counted = refl
