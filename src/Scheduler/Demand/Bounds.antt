-- ===== src/Scheduler/Demand/Bounds.antt =====
-- The amounts that `GetMaxQuota` comes to.
use cluster_api_provider_nes.Base.{
  ℕ, String, ◌≤◌, ◌≡◌, Option, none, some, List, [], ◌∷◌, arith, lookup, insert, lookup-insert, ite,
  dec_eq, All, max,
}
use cluster_api_provider_nes.Scheduler.Quantity.{Quantities}
use cluster_api_provider_nes.Scheduler.Resource.{ResourceList, get}
use cluster_api_provider_nes.Scheduler.Demand.{
  ResourceQuota, zero_resources, raise_to, raise_quotas, get_max_quota,
}

module _ ⦃Q : Quantities⦄ where
  open Q use {Quantity, nothing, add, cmp, must_parse, amount, amount_nothing, amount_add, cmp_lem}

  -- The amount that a list has of a resource: none if the resource is not listed.
  abbrev pub amount_of : String → ResourceList → ℕ
  amount_of k list = amount (get k list)

  pub amount_of-insert :
      (j k : String) (q : Quantity) (list : ResourceList)
      → amount_of j (insert k q list) ≡ ite (dec_eq j k) (amount q) (amount_of j list)
  amount_of-insert j k q list = ground (arith, lookup-insert j k q list)

  pub amount_of-insert_same :
      (k : String) (q : Quantity) (list : ResourceList) → amount_of k (insert k q list) ≡ amount q
  amount_of-insert_same k q list = ground (arith, lookup-insert k k q list)

  -- the greatest amount of a resource among the quotas
  abbrev pub greatest : String → List ResourceQuota → ℕ
  greatest k [] = 0
  greatest k (each ∷ items) = max (amount_of k each.hard) (greatest k items)

  amount_of-raise_to :
      (k : String) (o : Option Quantity) (quota : ResourceList)
      → amount_of k (raise_to k o quota)
        ≡ max (elim o [ none ↦ 0 | some q ↦ amount q ]) (amount_of k quota)
  amount_of-raise_to k none quota = ground arith
  amount_of-raise_to k (some q) quota =
      ground (arith, cmp_lem (get k quota) q, amount_of-insert_same k q quota)

  amount_of-raise_to_other :
      (j k : String) (o : Option Quantity) (quota : ResourceList)
      → amount_of j (raise_to k o quota)
        ≡ ite (dec_eq j k) (amount_of j (raise_to k o quota)) (amount_of j quota)
  amount_of-raise_to_other j k none quota = ground arith
  amount_of-raise_to_other j k (some q) quota = ground (arith, amount_of-insert j k q quota)

  pub listed :
      (k : String) (list : ResourceList)
      → elim (lookup k list) [ none ↦ 0 | some q ↦ amount q ] ≡ amount_of k list
  listed k list = ground (arith, amount_nothing)

  raise_quotas_lem :
      (items : List ResourceQuota) (quota : ResourceList)
      → (amount_of "cpu" (raise_quotas items quota)
          ≡ max (greatest "cpu" items) (amount_of "cpu" quota))
        × (amount_of "memory" (raise_quotas items quota)
            ≡ max (greatest "memory" items) (amount_of "memory" quota))
  unfolding raise_quotas
  raise_quotas_lem [] quota = ground arith
  raise_quotas_lem (each ∷ items) quota =
      let c = lookup "cpu" each.hard in
      let m = lookup "memory" each.hard in
      let raised = raise_to "cpu" c quota in
      let rest = raise_quotas_lem items (raise_to "memory" m raised) in
      ground (
        arith,
        rest.0,
        rest.1,
        listed "cpu" each.hard,
        listed "memory" each.hard,
        amount_of-raise_to "cpu" c quota,
        amount_of-raise_to_other "memory" "cpu" c quota,
        amount_of-raise_to "memory" m raised,
        amount_of-raise_to_other "cpu" "memory" m raised,
      )

  All-weaken :
      {P R : ResourceQuota → Type 0}
      → ((q : ResourceQuota) → P q → R q)
      → (items : List ResourceQuota) → All P items
      → All R items
  All-weaken f [] h = tt
  All-weaken f (each ∷ items) h = (f each h.0, All-weaken f items h.1)

  greatest_bound :
      (k : String) (items : List ResourceQuota)
      → All (λ q. amount_of k q.hard ≤ greatest k items) items
  greatest_bound k [] = tt
  greatest_bound k (each ∷ items) =
      (ground arith, All-weaken (λ q h. ground arith) items (greatest_bound k items))

  module _ (zero_amount : amount (must_parse "0") ≡ 0) where
    pub zero_cpu : amount_of "cpu" zero_resources ≡ 0
    unfolding dec_eq
    zero_cpu = zero_amount

    pub zero_memory : amount_of "memory" zero_resources ≡ 0
    unfolding dec_eq
    zero_memory = zero_amount

    -- If `"0"` is parsed as no amount, the largest quota of CPU, and that of memory, is the greatest
    -- amount that one of the quota objects allows, and none of them allows more.
    pub get_max_quota_bounds :
        (items : List ResourceQuota)
        → (amount_of "cpu" (get_max_quota items) ≡ greatest "cpu" items)
          × (amount_of "memory" (get_max_quota items) ≡ greatest "memory" items)
          × All (λ q. amount_of "cpu" q.hard ≤ amount_of "cpu" (get_max_quota items)) items
          × All (λ q. amount_of "memory" q.hard ≤ amount_of "memory" (get_max_quota items)) items
    unfolding get_max_quota
    get_max_quota_bounds items =
        let l = raise_quotas_lem items zero_resources in
        let cpu : amount_of "cpu" (get_max_quota items) ≡ greatest "cpu" items =
          ground (arith, l.0) in
        let memory : amount_of "memory" (get_max_quota items) ≡ greatest "memory" items =
          ground (arith, l.1) in
        (
          cpu,
          memory,
          rw cpu (greatest_bound "cpu" items),
          rw memory (greatest_bound "memory" items),
        )
