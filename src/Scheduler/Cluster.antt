-- ===== src/Scheduler/Cluster.antt =====
-- cache/cluster.go: a super cluster as the cache keeps it, with what is allocated to namespaces
-- in it and what has been observed there. A method that fails returns its error beside the state.
pub mod Items
pub mod Accounting
use cluster_api_provider_nes.Base.{
  ℕ, String, ◌≡◌, Bool, true, false, Option, none, some, List, [], ◌∷◌, map, if◌then◌else◌, ite,
  length, ◌==◌, dec_eq, Dict, lookup, insert, erase, contains, Result, ok, err, ◌>>=◌, ◌>>◌,
  fail_if, or_err, Outcome,
}
use cluster_api_provider_nes.Base.Int.{pos}
use cluster_api_provider_nes.Scheduler.Quantity.{Quantities, is_lt}
use cluster_api_provider_nes.Scheduler.Error.{
  Error, key_exists, not_allocatable, no_capacity, over_capacity, negative_alloc, wrong_cluster,
  misplaced,
}
use cluster_api_provider_nes.Scheduler.Resource.{ResourceList, get}
use cluster_api_provider_nes.Scheduler.Namespace.{Slice, Pod, copy_slice, pod_namespace_key}

module _ ⦃Q : Quantities⦄ where
  open Q use {Quantity, add, sub, cmp, set_value}

  -- The sets of pod names are maps to `tt`; times are counted from some origin.
  pub record Cluster : Type 0 where
    pub name : String
    pub labels : Option (Dict String)
    pub capacity : ResourceList
    pub shadow : Bool
    pub alloc : ResourceList
    pub alloc_items : Dict (List Slice)
    pub pods : Dict (Dict (Unit {0}))
    pub provision : ResourceList
    pub provision_items : Dict (List Slice)
    pub last_update_time : ℕ

  unfoldable pub zero_all : ResourceList → ResourceList
  zero_all [] = []
  zero_all ((k, v) ∷ list) = (k, set_value v (pos 0)) ∷ zero_all list

  unfoldable pub new_cluster : ℕ → String → Option (Dict String) → ResourceList → Cluster
  unfolding zero_all
  new_cluster now name labels capacity = record {
    name = name;
    labels = labels;
    capacity = capacity;
    shadow = false;
    alloc = zero_all capacity;
    alloc_items = [];
    pods = [];
    provision = zero_all capacity;
    provision_items = [];
    last_update_time = now;
  }

  unfoldable pub copy_items : Dict (List Slice) → Dict (List Slice)
  unfolding copy_slice
  copy_items [] = []
  copy_items ((k, v) ∷ items) = (k, map copy_slice v) ∷ copy_items items

  -- `(*Cluster).DeepCopy`: the copy is no shadow cluster, and is new at `now`.
  unfoldable pub copy_cluster : ℕ → Cluster → Cluster
  unfolding new_cluster copy_items
  copy_cluster now c =
      let out = new_cluster now c.name c.labels c.capacity in
      record out {
        alloc_items = copy_items c.alloc_items;
        alloc = c.alloc;
        pods = c.pods;
        provision = c.provision;
        provision_items = copy_items c.provision_items;
      }

  -- The inner loop of `addItem`, over the resources of one slice, on the copy of `alloc`.
  unfoldable pub add_unit : ResourceList → ResourceList → ResourceList → Result Error ResourceList
  add_unit capacity [] alloc = ok alloc
  add_unit capacity ((k, v) ∷ unit) alloc = do
    each ← or_err (lookup k alloc) (not_allocatable k)
    upper ← or_err (lookup k capacity) (no_capacity k)
    fail_if (is_lt (cmp upper (add each v))) (over_capacity k)
    add_unit capacity unit (insert k (add each v) alloc)

  -- its outer loop, over the slices
  unfoldable pub add_slices : Cluster → List Slice → ResourceList → Result Error ResourceList
  unfolding add_unit
  add_slices c [] alloc = ok alloc
  add_slices c (s ∷ slices) alloc = do
    ite (dec_eq s.cluster c.name) (ok tt) (err (misplaced s.cluster c.name))
    alloc' ← add_unit c.capacity s.unit alloc
    add_slices c slices alloc'

  -- The new sums, and the items with the slices entered: on an error the items are unchanged.
  unfoldable pub add_item :
      Cluster
      → String
      → Dict (List Slice)
      → ResourceList
      → List Slice
      → Result Error (ResourceList × Dict (List Slice))
  unfolding add_slices
  add_item c key items alloc slices = do
    fail_if (contains key items) (key_exists key)
    alloc' ← add_slices c slices alloc
    ok (alloc', insert key slices items)

  -- the inner loop of `removeItem`
  unfoldable pub remove_unit : ResourceList → ResourceList → Result Error ResourceList
  remove_unit [] alloc = ok alloc
  remove_unit ((k, v) ∷ unit) alloc = do
    fail_if (is_lt (cmp (get k alloc) v)) (negative_alloc k)
    remove_unit unit (insert k (sub (get k alloc) v) alloc)

  -- its outer loop
  unfoldable pub subtract_slices : List Slice → ResourceList → Result Error ResourceList
  unfolding remove_unit
  subtract_slices [] alloc = ok alloc
  subtract_slices (s ∷ slices) alloc = do
    alloc' ← remove_unit s.unit alloc
    subtract_slices slices alloc'

  unfoldable pub remove_item :
      String → Dict (List Slice) → ResourceList → Result Error (ResourceList × Dict (List Slice))
  unfolding subtract_slices
  remove_item key items alloc = elim (lookup key items) [
    | none ↦ ok (alloc, items)
    | some slices ↦ do alloc' ← subtract_slices slices alloc; ok (alloc', erase key items)
  ]

  unfoldable pub add_namespace : String → List Slice → Cluster → Outcome Error Cluster
  unfolding add_item
  add_namespace key slices c = elim (add_item c key c.alloc_items c.alloc slices) [
    | ok (alloc, items) ↦ (none, record c { alloc = alloc; alloc_items = items })
    | err e ↦ (some e, c)
  ]

  unfoldable pub remove_namespace : String → Cluster → Outcome Error Cluster
  unfolding remove_item
  remove_namespace key c = elim (remove_item key c.alloc_items c.alloc) [
    | ok (alloc, items) ↦ (none, record c { alloc = alloc; alloc_items = items })
    | err e ↦ (some e, c)
  ]

  unfoldable pub add_provision : String → List Slice → Cluster → Outcome Error Cluster
  unfolding add_item
  add_provision key slices c = elim (add_item c key c.provision_items c.provision slices) [
    | ok (provision, items) ↦ (none, record c { provision = provision; provision_items = items })
    | err e ↦ (some e, c)
  ]

  unfoldable pub remove_provision : String → Cluster → Outcome Error Cluster
  unfolding remove_item
  remove_provision key c = elim (remove_item key c.provision_items c.provision) [
    | ok (provision, items) ↦ (none, record c { provision = provision; provision_items = items })
    | err e ↦ (some e, c)
  ]

  -- `c.pods[key]`, which is the empty map for a key that is not there
  abbrev pub pods_of : String → Dict (Dict (Unit {0})) → Dict (Unit {0})
  pods_of key pods = elim (lookup key pods) [ none ↦ [] | some names ↦ names ]

  unfoldable pub add_pod : Pod → Cluster → Outcome Error Cluster
  unfolding pod_namespace_key
  add_pod pod c =
      let key = pod_namespace_key pod in
      ite (dec_eq pod.cluster c.name)
        (none, record c { pods = insert key (insert pod.name tt (pods_of key c.pods)) c.pods })
        (some (wrong_cluster pod.cluster), c)

  unfoldable pub remove_pod : Pod → Cluster → Cluster
  unfolding pod_namespace_key
  remove_pod pod c =
      let key = pod_namespace_key pod in
      let names = erase pod.name (pods_of key c.pods) in
      record c { pods = if length names == 0 then erase key c.pods else insert key names c.pods }
