-- ===== src/Scheduler/Demand/Sums.antt =====
-- The amounts that `GetPodRequirements` and `getTotalNodeCapacity` come to.
use cluster_api_provider_nes.Base.{
  ℕ, String, ◌+◌, ◌≡◌, ◌∙◌, ap, inl, inr, Bool-cases, Option, none, some, List, [], ◌∷◌, arith,
  if◌then◌else◌, lookup, ite, dec_eq,
}
use cluster_api_provider_nes.Scheduler.Quantity.{Quantities}
use cluster_api_provider_nes.Scheduler.Resource.{ResourceList, get}
use cluster_api_provider_nes.Scheduler.Demand.{
  Node, Container, zero_resources, is_ready, add_to, add_nodes, get_total_node_capacity,
  add_request, add_containers, get_pod_requirements,
}
use cluster_api_provider_nes.Scheduler.Demand.Bounds.{
  amount_of, amount_of-insert, amount_of-insert_same, listed, zero_cpu, zero_memory,
}

module _ ⦃Q : Quantities⦄ where
  open Q use {Quantity, nothing, add, cmp, must_parse, amount, amount_nothing, amount_add, cmp_lem}

  -- the sum of the amounts of a resource that the containers ask for
  abbrev pub requested : String → List Container → ℕ
  requested k [] = 0
  requested k (each ∷ containers) = amount_of k each.requests + requested k containers

  amount_of-add_to :
      (k : String) (q : Quantity) (list : ResourceList)
      → amount_of k (add_to k q list) ≡ amount_of k list + amount q
  amount_of-add_to k q list =
      amount_of-insert_same k (add (get k list) q) list ∙ amount_add (get k list) q

  amount_of-add_to_other :
      (j k : String) (q : Quantity) (list : ResourceList)
      → amount_of j (add_to k q list)
        ≡ ite (dec_eq j k) (amount (add (get k list) q)) (amount_of j list)
  amount_of-add_to_other j k q list = amount_of-insert j k (add (get k list) q) list

  amount_of-add_request :
      (k : String) (o : Option Quantity) (list : ResourceList)
      → amount_of k (add_request k o list)
        ≡ amount_of k list + elim o [ none ↦ 0 | some q ↦ amount q ]
  amount_of-add_request k none list = ground arith
  amount_of-add_request k (some q) list = amount_of-add_to k q list

  amount_of-add_request_other :
      (j k : String) (o : Option Quantity) (list : ResourceList)
      → amount_of j (add_request k o list)
        ≡ ite (dec_eq j k) (amount_of j (add_request k o list)) (amount_of j list)
  amount_of-add_request_other j k none list = ground arith
  amount_of-add_request_other j k (some q) list = ground (arith, amount_of-add_to_other j k q list)

  add_containers_lem :
      (containers : List Container) (list : ResourceList)
      → (amount_of "cpu" (add_containers containers list)
          ≡ amount_of "cpu" list + requested "cpu" containers)
        × (amount_of "memory" (add_containers containers list)
            ≡ amount_of "memory" list + requested "memory" containers)
  unfolding add_containers dec_eq
  add_containers_lem [] list = ground arith
  add_containers_lem (each ∷ containers) list =
      let c = lookup "cpu" each.requests in
      let m = lookup "memory" each.requests in
      let l1 = add_request "cpu" c list in
      let rest = add_containers_lem containers (add_request "memory" m l1) in
      let cpu1 : amount_of "cpu" l1 ≡ amount_of "cpu" list + amount_of "cpu" each.requests =
        amount_of-add_request "cpu" c list
        ∙ ap (λ n. amount_of "cpu" list + n) (listed "cpu" each.requests) in
      let cpu2 : amount_of "cpu" (add_request "memory" m l1) ≡ amount_of "cpu" l1 =
        amount_of-add_request_other "cpu" "memory" m l1 in
      let memory1 : amount_of "memory" l1 ≡ amount_of "memory" list =
        amount_of-add_request_other "memory" "cpu" c list in
      let memory2 : amount_of "memory" (add_request "memory" m l1)
          ≡ amount_of "memory" l1 + amount_of "memory" each.requests =
        amount_of-add_request "memory" m l1
        ∙ ap (λ n. amount_of "memory" l1 + n) (listed "memory" each.requests) in
      (rest.0 ∙ rw cpu2 (rw cpu1 (omega arith)), rest.1 ∙ rw memory2 (rw memory1 (omega arith)))

  -- what the nodes that are ready have of a resource
  abbrev pub ready_capacity : String → List Node → ℕ
  ready_capacity k [] = 0
  ready_capacity k (each ∷ items) =
      (if is_ready each then amount_of k each.capacity else 0) + ready_capacity k items

  amount_of-add_both :
      (c m : Quantity) (list : ResourceList)
      → (amount_of "cpu" (add_to "memory" m (add_to "cpu" c list))
          ≡ amount_of "cpu" list + amount c)
        × (amount_of "memory" (add_to "memory" m (add_to "cpu" c list))
            ≡ amount_of "memory" list + amount m)
  unfolding dec_eq
  amount_of-add_both c m list = (
    amount_of-add_to_other "cpu" "memory" m (add_to "cpu" c list) ∙ amount_of-add_to "cpu" c list,
    amount_of-add_to "memory" m (add_to "cpu" c list)
        ∙ ap (λ n. n + amount m) (amount_of-add_to_other "memory" "cpu" c list),
  )

  add_nodes_lem :
      (items : List Node) (list : ResourceList)
      → (amount_of "cpu" (add_nodes items list) ≡ amount_of "cpu" list + ready_capacity "cpu" items)
        × (amount_of "memory" (add_nodes items list)
            ≡ amount_of "memory" list + ready_capacity "memory" items)
  unfolding add_nodes
  add_nodes_lem [] list = ground arith
  add_nodes_lem (each ∷ items) list =
      let both = amount_of-add_both (get "cpu" each.capacity) (get "memory" each.capacity) list in
      let grown =
        add_to "memory" (get "memory" each.capacity)
          (add_to "cpu" (get "cpu" each.capacity) list) in
      elim (Bool-cases (is_ready each)) [
        | inl h ↦ rw h (
          (add_nodes_lem items grown).0 ∙ rw both.0 (omega arith),
          (add_nodes_lem items grown).1 ∙ rw both.1 (omega arith),
        )
        | inr h ↦
            rw h (
              (add_nodes_lem items list).0 ∙ omega arith,
              (add_nodes_lem items list).1 ∙ omega arith,
            )
      ]

  module _ (zero_amount : amount (must_parse "0") ≡ 0) where
    -- If `"0"` is parsed as no amount, the requirements of a pod are the sums of what its containers
    -- ask for.
    pub get_pod_requirements_lem :
        (containers : List Container)
        → (amount_of "cpu" (get_pod_requirements containers) ≡ requested "cpu" containers)
          × (amount_of "memory" (get_pod_requirements containers) ≡ requested "memory" containers)
    unfolding get_pod_requirements
    get_pod_requirements_lem containers =
        let l = add_containers_lem containers zero_resources in
        (
          l.0 ∙ rw (zero_cpu zero_amount) (omega arith),
          l.1 ∙ rw (zero_memory zero_amount) (omega arith),
        )

    -- If `"0"` is parsed as no amount, the capacity of a super cluster is what the nodes whose
    -- condition `Ready` is `True` have in sum.
    pub get_total_node_capacity_lem :
        (items : List Node)
        → (amount_of "cpu" (get_total_node_capacity items) ≡ ready_capacity "cpu" items)
          × (amount_of "memory" (get_total_node_capacity items) ≡ ready_capacity "memory" items)
    unfolding get_total_node_capacity
    get_total_node_capacity_lem items =
        let l = add_nodes_lem items zero_resources in
        (
          l.0 ∙ rw (zero_cpu zero_amount) (omega arith),
          l.1 ∙ rw (zero_memory zero_amount) (omega arith),
        )
