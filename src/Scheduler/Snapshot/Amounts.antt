-- ===== src/Scheduler/Snapshot/Amounts.antt =====
-- What adding slices to a snapshot does to the usage of one cluster.
use cluster_api_provider_nes.Base.{
  ℕ, ◌+◌, ◌≤◌, max, String, ◌≡◌, refl, true, none, [], ◌∷◌, arith, lookup, insert, contains,
  lookup-insert, Distinct, insert-Distinct,
}
use cluster_api_provider_nes.Scheduler.Quantity.{Quantities}
use cluster_api_provider_nes.Scheduler.Resource.{ResourceList, get}
use cluster_api_provider_nes.Scheduler.Resource.Sums.{amount_at, sum_at, amount_at-max_alloc}
use cluster_api_provider_nes.Scheduler.Snapshot.{ClusterUsage, get_max_alloc, add_amounts}

module _ ⦃Q : Quantities⦄ where
  open Q use {Quantity, add, amount, amount_nothing, amount_add}

  pub add_amounts_lem :
      (k : String) (unit alloc : ResourceList)
      → (amount_at k (add_amounts unit alloc) ≡ amount_at k alloc + sum_at k unit)
        × (contains k alloc ≡ true → contains k (add_amounts unit alloc) ≡ true)
  unfolding add_amounts
  add_amounts_lem k [] alloc = ground arith
  add_amounts_lem k ((j, v) ∷ unit) alloc =
      let sum = add (get j alloc) v in
      ground (
        arith,
        add_amounts_lem k unit (insert j sum alloc),
        amount_add (get j alloc) v,
        lookup-insert k j sum alloc,
      )

  pub add_amounts-Distinct :
      (unit alloc : ResourceList) → Distinct alloc → Distinct (add_amounts unit alloc)
  unfolding add_amounts
  add_amounts-Distinct [] alloc d = d
  add_amounts-Distinct ((j, v) ∷ unit) alloc d =
      let sum = add (get j alloc) v in
      add_amounts-Distinct unit (insert j sum alloc) (insert-Distinct j sum alloc d)

  sum_at-absent : (k : String) (list : ResourceList) → lookup k list ≡ none → sum_at k list ≡ 0
  sum_at-absent k [] h = refl
  sum_at-absent k ((j, q) ∷ list) h = ground (arith, sum_at-absent k list)

  -- In a list that names no resource twice there is nothing to add up.
  pub sum_at_lem :
      (k : String) (list : ResourceList) → Distinct list → sum_at k list ≡ amount_at k list
  sum_at_lem k [] d = ground (arith, amount_nothing)
  sum_at_lem k ((j, q) ∷ list) d = ground (arith, sum_at_lem k list d.1, sum_at-absent k list)

  -- what the algorithm takes to be used of a resource
  abbrev pub used_at : String → ClusterUsage → ℕ
  used_at k u = amount_at k (get_max_alloc u)

  -- A usage as a snapshot of a cluster gives it: the sums name no resource twice, and each one
  -- that the cluster has.
  pub record IsUsage (u : ClusterUsage) : Type 0 where
    pub distinct : Distinct u.alloc
    pub complete : (k : String) → contains k u.capacity ≡ true → contains k u.alloc ≡ true

  -- No more is used of the resource than the cluster has of it.
  abbrev pub IsWithin : String → ClusterUsage → Type 0
  IsWithin k u = contains k u.capacity ≡ true → used_at k u ≤ amount_at k u.capacity

  -- the usage with a slice added
  abbrev pub with_slice : ResourceList → ClusterUsage → ClusterUsage
  with_slice request u = record u { alloc = add_amounts request u.alloc }

  pub used_at_lem :
      (k : String) (u : ClusterUsage)
      → Distinct u.alloc
      → contains k u.alloc ≡ true
      → used_at k u ≡ max (amount_at k u.alloc) (amount_at k u.provision)
  unfolding get_max_alloc
  used_at_lem k u d c = ground (arith, amount_at-max_alloc k u.alloc u.provision d)

  -- Adding a request takes at most that much more.
  pub used_at-with_slice :
      (k : String) (request : ResourceList) (u : ClusterUsage)
      → IsUsage u
      → Distinct request
      → contains k u.capacity ≡ true
      → used_at k (with_slice request u) ≤ used_at k u + amount_at k request
  used_at-with_slice k request u iu d c = ground (
    arith,
    used_at_lem k u iu.distinct,
    used_at_lem k (with_slice request u) (add_amounts-Distinct request u.alloc iu.distinct),
    add_amounts_lem k request u.alloc,
    sum_at_lem k request d,
    iu.complete k c,
  )

  pub with_slice-IsUsage :
      (request : ResourceList) (u : ClusterUsage) → IsUsage u → IsUsage (with_slice request u)
  with_slice-IsUsage request u iu = record {
    distinct = add_amounts-Distinct request u.alloc iu.distinct;
    complete = λ k c. (add_amounts_lem k request u.alloc).1 (iu.complete k c);
  }
