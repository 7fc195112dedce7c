-- ===== src/Scheduler/Cluster/Items.antt =====
-- `addItem` and `removeItem` of cache/cluster.go: what they do to the sum of each resource.
use cluster_api_provider_nes.Base.{
  ℕ, ◌+◌, ◌≤◌, String, ◌≡◌, refl, ◌⊎◌, inl, inr, false, none, some, List, [], ◌∷◌, arith,
  Option-cases, All, Dict, lookup, insert, erase, lookup-insert, ok, Result-cases, Distinct,
  insert-Distinct, erase-Distinct, erase_absent, sum_by, sum_by-insert, sum_by-erase,
}
use cluster_api_provider_nes.Scheduler.Quantity.{Quantities, is_lt}
use cluster_api_provider_nes.Scheduler.Resource.{ResourceList, get}
use cluster_api_provider_nes.Scheduler.Resource.Sums.{amount_at, sum_at, amount_at-insert}
use cluster_api_provider_nes.Scheduler.Namespace.{Slice}
use cluster_api_provider_nes.Scheduler.Cluster.{
  Cluster, add_unit, add_slices, add_item, remove_unit, subtract_slices, remove_item,
}

module _ ⦃Q : Quantities⦄ where
  open Q use {Quantity, add, sub, cmp, amount, amount_nothing, amount_add, amount_sub, cmp_lem}

  -- the amount of a resource in a list of slices
  abbrev pub slices_at : String → List Slice → ℕ
  slices_at k [] = 0
  slices_at k (s ∷ slices) = sum_at k s.unit + slices_at k slices

  -- Untouched, or within the capacity.
  abbrev pub Fits : String → ResourceList → ResourceList → ResourceList → Type 0
  Fits k capacity alloc alloc' =
      (lookup k alloc' ≡ lookup k alloc) ⊎ (amount_at k alloc' ≤ amount_at k capacity)

  add_unit-adds :
      (k : String) (capacity unit alloc : ResourceList) {alloc' : ResourceList}
      → add_unit capacity unit alloc ≡ ok alloc'
      → (amount_at k alloc' ≡ amount_at k alloc + sum_at k unit) × Fits k capacity alloc alloc'
  unfolding add_unit
  add_unit-adds k capacity [] alloc h = ground arith
  add_unit-adds k capacity ((j, v) ∷ unit) alloc {alloc'} h = elim (Option-cases (lookup j alloc)) [
    | inl e ↦ ground arith
    | inr (each, e) ↦ elim (Option-cases (lookup j capacity)) [
      | inl f ↦ ground arith
      | inr (upper, f) ↦ ground (
        arith,
        add_unit-adds k capacity unit (insert j (add each v) alloc) {alloc' = alloc'},
        lookup-insert k j (add each v) alloc,
        amount_add each v,
        cmp_lem upper (add each v),
      )
    ]
  ]

  add_slices-adds :
      (k : String) (c : Cluster) (slices : List Slice) (alloc : ResourceList)
      {alloc' : ResourceList}
      → add_slices c slices alloc ≡ ok alloc'
      → (amount_at k alloc' ≡ amount_at k alloc + slices_at k slices)
        × Fits k c.capacity alloc alloc'
        × All (λ s. s.cluster ≡ c.name) slices
  unfolding add_slices
  add_slices-adds k c [] alloc h = ground arith
  add_slices-adds k c (s ∷ slices) alloc {alloc'} h =
      elim (Result-cases (add_unit c.capacity s.unit alloc)) [
        | inl (e, failed) ↦ ground arith
        | inr (mid, added) ↦ ground (
          arith,
          add_unit-adds k c.capacity s.unit alloc added,
          add_slices-adds k c slices mid {alloc' = alloc'},
        )
      ]

  -- What a successful `addItem` has done: the key was new and stands for the slices now, all of
  -- them are placed here, and every resource's sum has grown by the slices' amount of it, within
  -- the capacity where it has changed.
  pub record Added (c : Cluster) (key : String) (items : Dict (List Slice)) (alloc : ResourceList)
      (slices : List Slice) (alloc' : ResourceList) (items' : Dict (List Slice)) : Type 0 where
    pub fresh : lookup key items ≡ none
    pub entered : items' ≡ insert key slices items
    pub placed : All (λ s. s.cluster ≡ c.name) slices
    pub grown : (k : String) → amount_at k alloc' ≡ amount_at k alloc + slices_at k slices
    pub fits : (k : String) → Fits k c.capacity alloc alloc'

  pub add_item-Added :
      (c : Cluster) (key : String) (items : Dict (List Slice)) (alloc : ResourceList)
      (slices : List Slice) {alloc' : ResourceList} {items' : Dict (List Slice)}
      → add_item c key items alloc slices ≡ ok (alloc', items')
      → Added c key items alloc slices alloc' items'
  unfolding add_item
  add_item-Added c key items alloc slices {alloc'} {items'} h =
      elim (Result-cases (add_slices c slices alloc)) [
        | inl (e, failed) ↦ absurd (ground arith)
        | inr (mid, added) ↦ record {
          fresh = ground arith;
          entered = ground arith;
          placed = ground (arith, add_slices-adds key c slices alloc added);
          grown = λ k. ground (arith, add_slices-adds k c slices alloc added);
          fits = λ k. ground (arith, add_slices-adds k c slices alloc added);
        }
      ]

  remove_unit-removes :
      (k : String) (unit alloc : ResourceList) {alloc' : ResourceList}
      → remove_unit unit alloc ≡ ok alloc'
      → amount_at k alloc' + sum_at k unit ≡ amount_at k alloc
  unfolding remove_unit
  remove_unit-removes k [] alloc h = ground arith
  remove_unit-removes k ((j, v) ∷ unit) alloc {alloc'} h =
      let each = sub (get j alloc) v in
      ground (
        arith,
        remove_unit-removes k unit (insert j each alloc) {alloc' = alloc'},
        amount_at-insert k j each alloc,
        amount_sub (get j alloc) v,
        cmp_lem (get j alloc) v,
      )

  -- It succeeds when there is enough of every resource.
  remove_unit_total :
      (unit alloc : ResourceList)
      → ((k : String) → sum_at k unit ≤ amount_at k alloc)
      → (alloc' : ResourceList) × (remove_unit unit alloc ≡ ok alloc')
  unfolding remove_unit
  remove_unit_total [] alloc h = (alloc, refl)
  remove_unit_total ((j, v) ∷ unit) alloc h =
      let each = sub (get j alloc) v in
      let enough : is_lt (cmp (get j alloc) v) ≡ false =
        ground (arith, cmp_lem (get j alloc) v, h j) in
      rw enough (
        remove_unit_total unit (insert j each alloc) (λ k.
          ground (arith, h k, h j, amount_at-insert k j each alloc, amount_sub (get j alloc) v)))

  subtract_slices-removes :
      (k : String) (slices : List Slice) (alloc : ResourceList) {alloc' : ResourceList}
      → subtract_slices slices alloc ≡ ok alloc'
      → amount_at k alloc' + slices_at k slices ≡ amount_at k alloc
  unfolding subtract_slices
  subtract_slices-removes k [] alloc h = ground arith
  subtract_slices-removes k (s ∷ slices) alloc {alloc'} h =
      elim (Result-cases (remove_unit s.unit alloc)) [
        | inl (e, failed) ↦ ground arith
        | inr (mid, removed) ↦ ground (
          arith,
          remove_unit-removes k s.unit alloc removed,
          subtract_slices-removes k slices mid {alloc' = alloc'},
        )
      ]

  subtract_slices_total :
      (slices : List Slice) (alloc : ResourceList)
      → ((k : String) → slices_at k slices ≤ amount_at k alloc)
      → (alloc' : ResourceList) × (subtract_slices slices alloc ≡ ok alloc')
  unfolding subtract_slices
  subtract_slices_total [] alloc h = (alloc, refl)
  subtract_slices_total (s ∷ slices) alloc h =
      let (mid, removed) = remove_unit_total s.unit alloc (λ k. omega (arith, h k)) in
      let (alloc', rest) =
        subtract_slices_total slices mid
          (λ k. omega (arith, h k, remove_unit-removes k s.unit alloc removed)) in
      (alloc', rw removed rest)

  -- A map of items and the sums kept of it: each resource's sum is that over all of the items.
  pub record Accounts (items : Dict (List Slice)) (alloc : ResourceList) : Type 0 where
    pub distinct : Distinct items
    pub sums : (k : String) → amount_at k alloc ≡ sum_by (slices_at k) items

  pub add_item-Accounts :
      (c : Cluster) (key : String) (items : Dict (List Slice)) (alloc : ResourceList)
      (slices : List Slice) {alloc' : ResourceList} {items' : Dict (List Slice)}
      → Accounts items alloc
      → add_item c key items alloc slices ≡ ok (alloc', items')
      → Accounts items' alloc'
  add_item-Accounts c key items alloc slices {alloc'} {items'} a h =
      let added = add_item-Added c key items alloc slices h in
      record {
        distinct = rw added.entered (insert-Distinct key slices items a.distinct);
        sums = λ k. rw added.entered (
            omega (
              arith,
              added.grown k,
              a.sums k,
              sum_by-insert (slices_at k) key slices items added.fresh,
            ));
      }

  -- What `removeItem` does to a map with its sums: it never fails, the key is gone and no other,
  -- and each resource's sum has shrunk by the amount that stood under the key.
  pub record Removed (key : String) (items : Dict (List Slice)) (alloc : ResourceList)
      (items' : Dict (List Slice)) (alloc' : ResourceList) : Type 0 where
    pub erased : items' ≡ erase key items
    pub shrunk :
        (k : String) (slices : List Slice)
        → lookup key items ≡ some slices
        → amount_at k alloc' + slices_at k slices ≡ amount_at k alloc
    pub accounts : Accounts items' alloc'

  remove_item_present :
      (key : String) (items : Dict (List Slice)) (alloc : ResourceList) (slices : List Slice)
      → Accounts items alloc
      → lookup key items ≡ some slices
      → (alloc' : ResourceList) × (remove_item key items alloc ≡ ok (alloc', erase key items))
        × Removed key items alloc (erase key items) alloc'
  unfolding remove_item
  remove_item_present key items alloc slices a e =
      let (alloc', removed) =
        subtract_slices_total slices alloc (λ k.
          omega (arith, a.sums k, sum_by-erase (slices_at k) key slices items a.distinct e)) in
      let shrunk : (k : String) → amount_at k alloc' + slices_at k slices ≡ amount_at k alloc =
        λ k. subtract_slices-removes k slices alloc removed in
      (
        alloc',
        ground (arith, removed),
        record {
          erased = refl;
          shrunk = λ k slices' e'. ground (arith, shrunk k);
          accounts = record {
            distinct = erase-Distinct key items a.distinct;
            sums = λ k. omega (
              arith,
              a.sums k,
              shrunk k,
              sum_by-erase (slices_at k) key slices items a.distinct e,
            );
          };
        },
      )

  pub remove_item-Removed :
      (key : String) (items : Dict (List Slice)) (alloc : ResourceList)
      → Accounts items alloc
      → (alloc' : ResourceList) × (remove_item key items alloc ≡ ok (alloc', erase key items))
        × Removed key items alloc (erase key items) alloc'
  unfolding remove_item
  remove_item-Removed key items alloc a = elim (Option-cases (lookup key items)) [
    | inl e ↦ (
      alloc,
      ground (arith, erase_absent key items e),
      record {
        erased = refl;
        shrunk = λ k slices e'. absurd (ground arith);
        accounts = rw (erase_absent key items e) a;
      },
    )
    | inr (slices, e) ↦ remove_item_present key items alloc slices a e
  ]
