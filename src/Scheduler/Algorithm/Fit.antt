-- ===== src/Scheduler/Algorithm/Fit.antt =====
-- `fitSlice`: the test of a request against a cluster.
use cluster_api_provider_nes.Base.{
  ℕ, max, ◌+◌, ◌≤◌, if◌then◌else◌, Distinct, String, ◌≡◌, ◌↔◌, true, none, [], ◌∷◌, arith, All,
  All-lookup, Option-cases, Bool-cases, ◌∙◌, inl, inr, contains, lookup,
}
use cluster_api_provider_nes.Scheduler.Quantity.{Quantities}
use cluster_api_provider_nes.Scheduler.Resource.{ResourceList, get}
use cluster_api_provider_nes.Scheduler.Resource.Sums.{amount_at, amount_at-max_alloc}
use cluster_api_provider_nes.Scheduler.Snapshot.{ClusterUsage, get_max_alloc}
use cluster_api_provider_nes.Scheduler.Snapshot.Amounts.{used_at, used_at_lem}
use cluster_api_provider_nes.Scheduler.Algorithm.{fit_each, fit_slice}

module _ ⦃Q : Quantities⦄ where
  open Q use {Quantity, add, cmp, amount, amount_add, cmp_lem}

  -- A resource has room for its part of a request.
  abbrev pub HasRoom : ResourceList → ResourceList → String × Quantity → Type 0
  HasRoom used request (res, avail) = amount_at res used + amount_at res request ≤ amount avail

  fit_each_iff :
      (used request capacity : ResourceList)
      → (fit_each used request capacity ≡ none) ↔ All (HasRoom used request) capacity
  unfolding fit_each
  fit_each_iff used request [] = ground arith
  fit_each_iff used request ((res, avail) ∷ capacity) =
      let after = add (get res used) (get res request) in
      ground (
        arith,
        fit_each_iff used request capacity,
        cmp_lem avail after,
        amount_add (get res used) (get res request),
      )

  fit_slice-HasRoom :
      (request : ResourceList) (u : ClusterUsage)
      → (fit_slice request u ≡ none) ↔ All (HasRoom (get_max_alloc u) request) u.capacity
  unfolding fit_slice
  fit_slice-HasRoom request u = fit_each_iff (get_max_alloc u) request u.capacity

  -- What counts as used of a resource: the larger of what is allocated and what is provisioned of
  -- it, and nothing of a resource that no allocation lists.
  abbrev pub counted : ClusterUsage → String → ℕ
  counted u res =
      if contains res u.alloc then max (amount_at res u.alloc) (amount_at res u.provision) else 0

  -- A resource of a cluster has room for its part of a request beside what counts as used.
  abbrev pub Fits : ClusterUsage → ResourceList → String × Quantity → Type 0
  Fits u request (res, avail) = counted u res + amount_at res request ≤ amount avail

  used_at-counted : (k : String) (u : ClusterUsage) → Distinct u.alloc → used_at k u ≡ counted u k
  unfolding get_max_alloc
  used_at-counted k u d = elim (Bool-cases (contains k u.alloc)) [
    | inl c ↦ used_at_lem k u d c ∙ ground (arith, c)
    | inr c ↦ ground (arith, c, amount_at-max_alloc k u.alloc u.provision d)
  ]

  HasRoom-Fits :
      (request : ResourceList) (u : ClusterUsage)
      → Distinct u.alloc
      → (capacity : ResourceList)
      → All (HasRoom (get_max_alloc u) request) capacity ↔ All (Fits u request) capacity
  HasRoom-Fits request u d [] = ground arith
  HasRoom-Fits request u d ((res, avail) ∷ capacity) =
      ground (arith, HasRoom-Fits request u d capacity, used_at-counted res u d)

  -- A request fits a cluster whose allocation lists no resource twice exactly when every resource
  -- of the cluster's capacity has room for it beside the larger of what is allocated and what is
  -- provisioned of it; a resource that the allocation does not list counts as unused, whatever is
  -- provisioned of it.
  pub fit_slice_iff :
      (request : ResourceList) (u : ClusterUsage)
      → Distinct u.alloc
      → (fit_slice request u ≡ none) ↔ All (Fits u request) u.capacity
  fit_slice_iff request u d =
      ground (arith, fit_slice-HasRoom request u, HasRoom-Fits request u d u.capacity)

  -- It then fits each resource that the cluster has.
  pub fit_slice-le :
      (k : String) (request : ResourceList) (u : ClusterUsage)
      → fit_slice request u ≡ none
      → contains k u.capacity ≡ true
      → used_at k u + amount_at k request ≤ amount_at k u.capacity
  fit_slice-le k request u h c = elim (Option-cases (lookup k u.capacity)) [
    | inl e ↦ ground arith
    | inr (avail, e) ↦ ground (
      arith,
      All-lookup (HasRoom (get_max_alloc u) request) k avail u.capacity
          ((fit_slice-HasRoom request u).0 h) e,
    )
  ]
