-- ===== src/Scheduler/Namespace.antt =====
-- cache/namespace.go and cache/pod.go: placements, slices, namespaces and pods, as the cache keeps
-- them. A deep copy of a value is the value rebuilt field by field.
use Prim.Native.String.{◌++◌}
use cluster_api_provider_nes.Base.{ℕ, String, Bool, List, [], ◌∷◌, Dict, insert, map, ok, err}
use cluster_api_provider_nes.Base.Int.{ℤ}
use cluster_api_provider_nes.Scheduler.Quantity.{Quantities}
use cluster_api_provider_nes.Scheduler.Resource.{ResourceList, equals, least_fit_slice_num}

-- `fmt.Sprintf("%s/%s", a, b)`
unfoldable pub slash : String → String → String
slash a b = a ++ "/" ++ b

pub record Placement : Type 0 where
  pub cluster : String
  pub num : ℤ

unfoldable pub new_placement : String → ℤ → Placement
new_placement cluster num = record { cluster = cluster; num = num }

-- the loop of `GetPlacementMap`
unfoldable pub placement_map_from : Dict ℤ → List Placement → Dict ℤ
placement_map_from m [] = m
placement_map_from m (each ∷ schedule) =
    placement_map_from (insert each.cluster each.num m) schedule

-- The loop of `SetNewPlacements`: `range` visits the entries in the order of the list.
unfoldable pub placements_of : Dict ℤ → List Placement
unfolding new_placement
placements_of [] = []
placements_of ((k, v) ∷ p) = new_placement k v ∷ placements_of p

module _ ⦃Q : Quantities⦄ where
  pub record Slice : Type 0 where
    pub owner : String
    pub unit : ResourceList
    pub cluster : String

  unfoldable pub new_slice : String → ResourceList → String → Slice
  new_slice owner slice_size cluster = record {
    owner = owner;
    unit = slice_size;
    cluster = cluster;
  }

  unfoldable pub copy_slice : Slice → Slice
  unfolding new_slice
  copy_slice s = new_slice s.owner s.unit s.cluster

  pub record Namespace : Type 0 where
    pub owner : String
    pub name : String
    pub labels : Dict String
    pub quota : ResourceList
    pub quota_slice : ResourceList
    pub schedule : List Placement

  -- `(*Namespace).DeepCopy`: a nil map of labels becomes an empty one, which is the same list.
  unfoldable pub copy_namespace : Namespace → Namespace
  unfolding new_placement
  copy_namespace n = record n { schedule = map (λ p. new_placement p.cluster p.num) n.schedule }

  -- `(*Namespace).GetKey`
  unfoldable pub namespace_key : Namespace → String
  unfolding slash
  namespace_key n = slash n.owner n.name

  unfoldable pub get_placement_map : Namespace → Dict ℤ
  unfolding placement_map_from
  get_placement_map n = placement_map_from [] n.schedule

  -- The error of `GetLeastFitSliceNum` is dropped, and the number beside it is 0.
  unfoldable pub get_total_slices : Namespace → ℕ
  get_total_slices n = elim (least_fit_slice_num n.quota n.quota_slice) [ ok t ↦ t | err e ↦ 0 ]

  unfoldable pub comparable : Namespace → Namespace → Bool
  comparable n other = equals n.quota_slice other.quota_slice

  unfoldable pub set_new_placements : Dict ℤ → Namespace → Namespace
  unfolding placements_of
  set_new_placements p n = record n { schedule = placements_of p }

  pub record Pod : Type 0 where
    pub owner : String
    pub namespace : String
    pub name : String
    pub request : ResourceList
    pub cluster : String

  -- `(*Pod).SetCluster`
  unfoldable pub set_cluster : String → Pod → Pod
  set_cluster cluster p = record p { cluster = cluster }

  -- `(*Pod).GetNamespaceKey`
  unfoldable pub pod_namespace_key : Pod → String
  unfolding slash
  pod_namespace_key p = slash p.owner p.namespace

  -- `(*Pod).GetKey`
  unfoldable pub pod_key : Pod → String
  unfolding pod_namespace_key slash
  pod_key p = slash (pod_namespace_key p) p.name
