-- ===== src/Scheduler/Cluster/Accounting.antt =====
-- The methods of a cluster keep its books: what is allocated and what is provisioned.
use mathlib.Core.Path.{subst₂}
use cluster_api_provider_nes.Base.{
  ◌≤◌, String, ◌≡◌, sym, ◌⊎◌, inl, inr, none, some, List, arith, Dict, erase, lookup-insert, ok,
  Result-cases, erase-insert_absent,
}
use cluster_api_provider_nes.Scheduler.Quantity.{Quantities}
use cluster_api_provider_nes.Scheduler.Error.{Error}
use cluster_api_provider_nes.Scheduler.Resource.{ResourceList}
use cluster_api_provider_nes.Scheduler.Resource.Sums.{amount_at}
use cluster_api_provider_nes.Scheduler.Namespace.{Slice, Pod}
use cluster_api_provider_nes.Scheduler.Cluster.{
  Cluster, add_item, add_namespace, remove_namespace, add_provision, remove_provision, add_pod,
  remove_pod,
}
use cluster_api_provider_nes.Scheduler.Cluster.Items.{
  Added, add_item-Added, Accounts, add_item-Accounts, Removed, remove_item-Removed,
}

module _ ⦃Q : Quantities⦄ where
  -- Both books of a cluster are right: every sum is that of the items.
  pub record IsAccounted (c : Cluster) : Type 0 where
    pub allocated : Accounts c.alloc_items c.alloc
    pub provisioned : Accounts c.provision_items c.provision

  -- No more is allocated of any resource than there is.
  abbrev pub IsWithin : Cluster → Type 0
  IsWithin c = (k : String) → amount_at k c.alloc ≤ amount_at k c.capacity

  pub add_namespace_cases :
      (key : String) (slices : List Slice) (c : Cluster)
      → ((e : Error) × (add_namespace key slices c ≡ (some e, c)))
        ⊎ ((alloc : ResourceList) × (items : Dict (List Slice)) × (add_item c key c.alloc_items
                c.alloc slices
              ≡ ok (alloc, items))
            × (add_namespace key slices c
                ≡ (none, record c { alloc = alloc; alloc_items = items })))
  unfolding add_namespace
  add_namespace_cases key slices c =
      elim (Result-cases (add_item c key c.alloc_items c.alloc slices)) [
        | inl (e, h) ↦ inl (e, ground arith)
        | inr ((alloc, items), h) ↦ inr (alloc, items, h, ground arith)
      ]

  -- Adding a namespace fails and changes nothing, or its key was new and stands for the slices now,
  -- all of which are placed in this cluster, each resource's sum has grown by the amount of it in
  -- the slices, and is within the capacity or the list's entry for it is as before.
  pub add_namespace_lem :
      (key : String) (slices : List Slice) (c : Cluster)
      → ((e : Error) × (add_namespace key slices c ≡ (some e, c)))
        ⊎ ((alloc : ResourceList) × (items : Dict (List Slice)) × (add_namespace key slices c
              ≡ (none, record c { alloc = alloc; alloc_items = items }))
            × Added c key c.alloc_items c.alloc slices alloc items)
  add_namespace_lem key slices c = elim (add_namespace_cases key slices c) [
    | inl failed ↦ inl failed
    | inr (alloc, items, h, e) ↦
        inr (alloc, items, e, add_item-Added c key c.alloc_items c.alloc slices h)
  ]

  -- However it ends, adding a namespace allocates no more than the capacity if no more was.
  pub add_namespace-IsWithin :
      (key : String) (slices : List Slice) (c : Cluster)
      → IsWithin c
      → IsWithin (add_namespace key slices c).1
  add_namespace-IsWithin key slices c w k = elim (add_namespace_lem key slices c) [
    | inl (e, h) ↦ rw h (w k)
    | inr (alloc, items, h, added) ↦ rw h (ground (arith, added.fits k, w k))
  ]

  -- On a cluster whose books are right, removing a namespace never fails; the key is gone and no
  -- other, and each resource's sum has shrunk by the amount that stood under the key.
  pub remove_namespace_lem :
      (key : String) (c : Cluster)
      → IsAccounted c
      → (alloc : ResourceList) × (remove_namespace key c
          ≡ (none, record c { alloc = alloc; alloc_items = erase key c.alloc_items }))
        × Removed key c.alloc_items c.alloc (erase key c.alloc_items) alloc
  unfolding remove_namespace
  remove_namespace_lem key c a =
      let (alloc, h, removed) = remove_item-Removed key c.alloc_items c.alloc a.allocated in
      (alloc, ground (arith, h), removed)

  pub add_namespace-IsAccounted :
      (key : String) (slices : List Slice) (c : Cluster)
      → IsAccounted c
      → IsAccounted (add_namespace key slices c).1
  add_namespace-IsAccounted key slices c a = elim (add_namespace_cases key slices c) [
    | inl (e, h) ↦ rw h a
    | inr (alloc, items, h, e) ↦ rw e (record {
      allocated = add_item-Accounts c key c.alloc_items c.alloc slices a.allocated h;
      provisioned = a.provisioned;
    })
  ]

  pub remove_namespace-IsAccounted :
      (key : String) (c : Cluster) → IsAccounted c → IsAccounted (remove_namespace key c).1
  remove_namespace-IsAccounted key c a =
      let (alloc, h, removed) = remove_namespace_lem key c a in
      rw h (record { allocated = removed.accounts; provisioned = a.provisioned })

  pub add_provision-IsAccounted :
      (key : String) (slices : List Slice) (c : Cluster)
      → IsAccounted c
      → IsAccounted (add_provision key slices c).1
  unfolding add_provision
  add_provision-IsAccounted key slices c a =
      elim (Result-cases (add_item c key c.provision_items c.provision slices)) [
        | inl (e, h) ↦ rw (h, add_provision) a
        | inr ((provision, items), h) ↦
            rw (h, add_provision)
              (record {
                allocated = a.allocated;
                provisioned =
                    add_item-Accounts c key c.provision_items c.provision slices a.provisioned h;
              })
      ]

  remove_provision-IsAccounted :
      (key : String) (c : Cluster) → IsAccounted c → IsAccounted (remove_provision key c).1
  unfolding remove_provision
  remove_provision-IsAccounted key c a =
      let (provision, h, removed) =
        remove_item-Removed key c.provision_items c.provision a.provisioned in
      rw (h, remove_provision) (record { allocated = a.allocated; provisioned = removed.accounts })

  pub add_pod-IsAccounted :
      (pod : Pod) (c : Cluster) → IsAccounted c → IsAccounted (add_pod pod c).1
  unfolding add_pod
  add_pod-IsAccounted pod c a =
      let items : (add_pod pod c).1.alloc_items ≡ c.alloc_items = ground arith in
      let alloc : (add_pod pod c).1.alloc ≡ c.alloc = ground arith in
      let items' : (add_pod pod c).1.provision_items ≡ c.provision_items = ground arith in
      let provision : (add_pod pod c).1.provision ≡ c.provision = ground arith in
      record {
        allocated = subst₂ Accounts (sym items) (sym alloc) a.allocated;
        provisioned = subst₂ Accounts (sym items') (sym provision) a.provisioned;
      }

  -- Every method that changes a cluster keeps its books right, also when it fails.
  pub methods-IsAccounted :
      (key : String) (slices : List Slice) (pod : Pod) (c : Cluster)
      → IsAccounted c
      → IsAccounted (add_namespace key slices c).1
        × IsAccounted (remove_namespace key c).1
        × IsAccounted (add_provision key slices c).1
        × IsAccounted (remove_provision key c).1
        × IsAccounted (add_pod pod c).1
        × IsAccounted (remove_pod pod c)
  unfolding add_pod remove_pod
  methods-IsAccounted key slices pod c a = (
    add_namespace-IsAccounted key slices c a,
    remove_namespace-IsAccounted key c a,
    add_provision-IsAccounted key slices c a,
    remove_provision-IsAccounted key c a,
    add_pod-IsAccounted pod c a,
    record { allocated = a.allocated; provisioned = a.provisioned },
  )

  -- Removing a namespace that has just been added restores the items, and the sum of each resource.
  pub remove_namespace-add_namespace :
      (key : String) (slices : List Slice) {c c' : Cluster}
      → IsAccounted c
      → add_namespace key slices c ≡ (none, c')
      → (alloc : ResourceList) × (remove_namespace key c' ≡ (none, record c { alloc = alloc }))
        × ((k : String) → amount_at k alloc ≡ amount_at k c.alloc)
  remove_namespace-add_namespace key slices {c} {c'} a h = elim (add_namespace_cases key slices c) [
    | inl (e, failed) ↦ absurd (ground (arith, h, failed))
    | inr (alloc, items, i, e) ↦
        let added = add_item-Added c key c.alloc_items c.alloc slices i in
        let c1 = record c { alloc = alloc; alloc_items = items } in
        let same : c1 ≡ c' = ground (arith, h, e) in
        let a1 : IsAccounted c1 = rw e at (add_namespace-IsAccounted key slices c a) in
        let (alloc', removes, removed) = remove_namespace_lem key c1 a1 in
        let back = erase-insert_absent key slices c.alloc_items added.fresh in
        (
          alloc',
          ground (arith, same, removes, added.entered, back),
          λ k. ground (
            arith,
            added.grown k,
            removed.shrunk k slices,
            added.entered,
            lookup-insert key key slices c.alloc_items,
          ),
        )
  ]
