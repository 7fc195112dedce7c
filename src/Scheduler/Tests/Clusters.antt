-- ===== src/Scheduler/Tests/Clusters.antt =====
-- Tests of one cluster's books.
use cluster_api_provider_nes.Base.{
  String, ◌≡◌, refl, ◌⊎◌, none, some, List, [], arith, Dict, erase, dec_eq,
}
use cluster_api_provider_nes.Scheduler.Error.{Error}
use cluster_api_provider_nes.Scheduler.Resource.{ResourceList}
use cluster_api_provider_nes.Scheduler.Resource.Sums.{amount_at}
use cluster_api_provider_nes.Scheduler.Namespace.{Slice, new_slice}
use cluster_api_provider_nes.Scheduler.Cluster.{
  add_unit, add_slices, add_item, add_namespace, remove_namespace,
}
use cluster_api_provider_nes.Scheduler.Cluster.Items.{Added, Removed}
use cluster_api_provider_nes.Scheduler.Cluster.Accounting.{
  IsAccounted, IsWithin, add_namespace_lem, add_namespace-IsWithin, remove_namespace_lem,
  methods-IsAccounted, remove_namespace-add_namespace,
}
use cluster_api_provider_nes.Scheduler.Tests.{
  nat_quantities, zeros, east, two_slices, busy, pod_one,
}

add_two : add_namespace "t/ns" two_slices east ≡ (none, busy)
unfolding add_namespace add_item add_slices add_unit new_slice dec_eq
add_two = refl

east-IsAccounted : IsAccounted east
east-IsAccounted = record {
  allocated = record { distinct = tt; sums = λ k. ground arith };
  provisioned = record { distinct = tt; sums = λ k. ground arith };
}

busy-IsAccounted : IsAccounted busy
busy-IsAccounted =
    rw add_two at (methods-IsAccounted "t/ns" two_slices pod_one east east-IsAccounted).0

add_namespace_lem_example :
    ((e : Error) × (add_namespace "t/ns" two_slices east ≡ (some e, east)))
    ⊎ ((alloc : ResourceList) × (items : Dict (List Slice)) × (add_namespace "t/ns" two_slices east
          ≡ (none, record east { alloc = alloc; alloc_items = items }))
        × Added east "t/ns" [] zeros two_slices alloc items)
add_namespace_lem_example = add_namespace_lem "t/ns" two_slices east

east-IsWithin : IsWithin east
east-IsWithin k = ground arith

add_namespace-IsWithin_example : IsWithin (add_namespace "t/ns" two_slices east).1
add_namespace-IsWithin_example = add_namespace-IsWithin "t/ns" two_slices east east-IsWithin

remove_namespace_lem_example :
    (alloc : ResourceList) × (remove_namespace "t/ns" busy
      ≡ (none, record busy { alloc = alloc; alloc_items = erase "t/ns" busy.alloc_items }))
    × Removed "t/ns" busy.alloc_items busy.alloc (erase "t/ns" busy.alloc_items) alloc
remove_namespace_lem_example = remove_namespace_lem "t/ns" busy busy-IsAccounted

remove_namespace-add_namespace_example :
    (alloc : ResourceList) × (remove_namespace "t/ns" busy ≡ (none, record east { alloc = alloc }))
    × ((k : String) → amount_at k alloc ≡ amount_at k east.alloc)
remove_namespace-add_namespace_example =
    remove_namespace-add_namespace "t/ns" two_slices {c = east} {c' = busy} east-IsAccounted add_two
