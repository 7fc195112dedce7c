-- ===== src/Scheduler/Tests/Caches.antt =====
-- Tests of the cache's books.
use cluster_api_provider_nes.Base.Int.{pos, ◌+ℤ◌, ◌-ℤ◌}
use cluster_api_provider_nes.Base.{◌≡◌, [], ◌∷◌, arith, subst}
use cluster_api_provider_nes.Scheduler.Namespace.{Namespace}
use cluster_api_provider_nes.Scheduler.Cluster.Accounting.{IsAccounted}
use cluster_api_provider_nes.Scheduler.Cache.{Cache}
use cluster_api_provider_nes.Scheduler.Cache.Methods.{
  add_namespace, remove_namespace, update_namespace,
}
use cluster_api_provider_nes.Scheduler.Cache.Books.{IsSound}
use cluster_api_provider_nes.Scheduler.Cache.Namespaces.{namespace_methods-IsSound}
use cluster_api_provider_nes.Scheduler.Tests.{nat_quantities, unit, quota, east}
use cluster_api_provider_nes.Base.{some, dec_eq, refl}
use cluster_api_provider_nes.Scheduler.Resource.{
  least_fit_slice_num, slice_num_loop, max_alloc, raise_all,
}
use cluster_api_provider_nes.Scheduler.Namespace.{
  namespace_key, slash, get_placement_map, placement_map_from, get_total_slices, new_slice,
  set_new_placements, placements_of, new_placement, copy_namespace,
}
use cluster_api_provider_nes.Scheduler.Snapshot.{
  snapshot_for_namespace_sched, usages, remove_namespaces, placed_slices, remove_slices,
  remove_amounts, get_max_alloc, add_slices, add_amounts,
}
use cluster_api_provider_nes.Scheduler.Algorithm.{
  repeat, schedule_namespace_slices, schedule_one_slice, first_fit, fit_slice, fit_each,
}
use cluster_api_provider_nes.Scheduler.Engine.{
  Visits, Reply, lesser, use_up, mandatory_loop, hint_loop, get_slices_to_schedule, increment,
  new_placement_from, get_new_placement, enter_namespace, place_slices, schedule_namespace,
  de_schedule_namespace, ensure_namespace_placements,
}
use cluster_api_provider_nes.Scheduler.Engine.Books.{
  schedule_namespace-IsSound, engine_methods-IsSound,
}

abbrev cache : Cache
cache = record {
  tenants = ("t", tt) ∷ [];
  clusters = ("east", east) ∷ [];
  pods = [];
  namespaces = [];
}

-- a namespace with two slices in a cluster and one in a cluster that is not known
abbrev spread : Namespace
spread = record {
  owner = "t";
  name = "ns";
  labels = [];
  quota = quota;
  quota_slice = unit;
  schedule =
      record { cluster = "east"; num = pos 2 } ∷ record { cluster = "west"; num = pos 1 } ∷ [];
}

east-IsAccounted : IsAccounted east
east-IsAccounted = record {
  allocated = record { distinct = tt; sums = λ k. ground arith };
  provisioned = record { distinct = tt; sums = λ k. ground arith };
}

cache-IsSound : IsSound cache
cache-IsSound name state h =
    subst IsAccounted (let e : east ≡ state = ground (arith, h) in e) east-IsAccounted

namespace_methods-IsSound_example :
    IsSound (add_namespace 0 spread cache).1
    × IsSound (remove_namespace 0 spread cache).1
    × IsSound (update_namespace 0 spread spread cache).1
namespace_methods-IsSound_example = namespace_methods-IsSound 0 spread spread cache cache-IsSound

abbrev visits : Visits
visits = record { places = λ m. m; hints = λ m. m; usages = λ i m. m; result = λ m. m }

engine_methods-IsSound_example :
    IsSound (de_schedule_namespace 0 "t/ns" cache).1
    × IsSound (ensure_namespace_placements 0 spread cache).1
engine_methods-IsSound_example = engine_methods-IsSound 0 spread "t/ns" cache cache-IsSound

-- a namespace with no placements yet, and how it comes back
abbrev fresh : Namespace
fresh = record spread { schedule = [] }

abbrev placed : Namespace
placed = record spread { schedule = record { cluster = "east"; num = pos 3 } ∷ [] }

abbrev reply : Reply Namespace
reply = let (e, c) = add_namespace 0 placed cache in (some placed, e, c)

scheduled : schedule_namespace visits 0 fresh cache ≡ some reply
unfolding schedule_namespace place_slices enter_namespace get_slices_to_schedule mandatory_loop
    hint_loop lesser use_up repeat namespace_key slash get_placement_map placement_map_from
    get_total_slices least_fit_slice_num slice_num_loop dec_eq snapshot_for_namespace_sched usages
    remove_namespaces placed_slices remove_slices remove_amounts schedule_namespace_slices
    schedule_one_slice first_fit fit_slice fit_each get_max_alloc max_alloc raise_all add_slices
    add_amounts new_slice get_new_placement new_placement_from increment set_new_placements
    placements_of new_placement copy_namespace ◌+ℤ◌ ◌-ℤ◌
scheduled = refl

schedule_namespace-IsSound_example : IsSound reply.2
schedule_namespace-IsSound_example =
    schedule_namespace-IsSound visits 0 fresh cache reply cache-IsSound scheduled
