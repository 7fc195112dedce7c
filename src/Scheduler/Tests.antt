-- ===== src/Scheduler/Tests.antt =====
-- Tests of the scheduler, over quantities that are natural numbers.
mod Clusters
mod Choices
mod Caches
mod Demands
use Prim.Native.Nat.{compare}
use text.Mathlib.Text.{◌==◌ as str_eq}
use cluster_api_provider_nes.Base.{
  ℕ, String, ◌+◌, ◌-◌, ◌*◌, ◌/◌, ◌^◌, ◌≤◌, ◌<◌, ◌≡◌, ◌↔◌, refl, ◌⊎◌, inl, inr, Bool, true, false,
  Option, none, some, List, [], ◌∷◌, arith, All, Distinct, Dict, lookup, insert, erase, contains,
  if◌then◌else◌, dec_eq, ℕ_discrete, Result, ok, err, replicate,
}
use cluster_api_provider_nes.Base.Int.{pos_part, pos}
use cluster_api_provider_nes.Scheduler.Quantity.{Quantities}
use cluster_api_provider_nes.Scheduler.Error.{Error}
use cluster_api_provider_nes.Scheduler.Resource.{
  ResourceList, least_fit_slice_num, slice_num_loop, get,
}
use cluster_api_provider_nes.Scheduler.Resource.SliceNum.{Covers, least_fit_slice_num_lem}
use cluster_api_provider_nes.Scheduler.Resource.Sums.{amount_at, sum_at}
use cluster_api_provider_nes.Scheduler.Namespace.{
  Placement, Slice, Namespace, Pod, new_slice, placements_of, get_total_slices,
}
use cluster_api_provider_nes.Scheduler.Cluster.{
  Cluster, new_cluster, zero_all, add_unit, add_slices, add_item, add_namespace, remove_namespace,
  add_provision, remove_provision, add_pod, remove_pod,
}
use cluster_api_provider_nes.Scheduler.Cluster.Items.{Added, Removed, Accounts}
use cluster_api_provider_nes.Scheduler.Cluster.Accounting.{
  IsAccounted, IsWithin, add_namespace_lem, add_namespace-IsWithin, remove_namespace_lem,
  methods-IsAccounted, remove_namespace-add_namespace,
}

nat_value : (q : ℕ) → (q ≤ q * 1) × (q * 1 < q + 1)
nat_value q = ground arith

instance abbrev nat_quantities : Quantities
nat_quantities = record {
  Quantity = ℕ;
  nothing = 0;
  add = λ a b. a + b;
  sub = λ a b. a - b;
  cmp = λ a b. compare a b;
  value = λ q. q;
  set_value = λ q n. pos_part n;
  must_parse = λ s. if str_eq s "0" then 0 else 2147483647;
  ceil_quotient = λ q v. (q + v - 1) / v;
  scale = 1;
  amount = λ q. q;
  scale_pos = omega arith;
  amount_nothing = refl;
  amount_add = λ a b. refl;
  amount_sub = λ a b h. omega (arith, h);
  amount_set = λ q n. omega arith;
  cmp_lem = λ a b. refl;
  value_lem = nat_value;
  ceil_quotient_lem = λ q v h i j. refl;
}

-- what a small slice takes
abbrev unit : ResourceList
unit = ("cpu", 2) ∷ ("memory", 3) ∷ []

abbrev quota : ResourceList
quota = ("cpu", 5) ∷ ("memory", 6) ∷ []

least_fit_3 : least_fit_slice_num quota unit ≡ ok 3
unfolding least_fit_slice_num slice_num_loop dec_eq
least_fit_3 = refl

least_fit_slice_num_lem_example :
    ((m : ℕ) → All (Covers quota m) unit ↔ (3 ≤ m))
    × ((k : String) → contains k quota ≡ contains k unit)
least_fit_slice_num_lem_example =
    least_fit_slice_num_lem quota unit {n = 3} (ground arith) (ground arith) least_fit_3

abbrev capacity : ResourceList
capacity = ("cpu", 8) ∷ ("memory", 16) ∷ []

abbrev zeros : ResourceList
zeros = ("cpu", 0) ∷ ("memory", 0) ∷ []

-- a cluster in which nothing is allocated
abbrev east : Cluster
east = record {
  name = "east";
  labels = none;
  capacity = capacity;
  shadow = false;
  alloc = zeros;
  alloc_items = [];
  pods = [];
  provision = zeros;
  provision_items = [];
  last_update_time = 0;
}

abbrev two_slices : List Slice
two_slices = replicate 2 (new_slice "t/ns" unit "east")

-- it with a namespace of two slices
abbrev busy : Cluster
busy = record east {
  alloc = ("cpu", 4) ∷ ("memory", 6) ∷ [];
  alloc_items = ("t/ns", two_slices) ∷ [];
}

abbrev pod_one : Pod
pod_one = record {
  owner = "t";
  namespace = "ns";
  name = "p";
  request = ("cpu", 1) ∷ [];
  cluster = "east";
}
