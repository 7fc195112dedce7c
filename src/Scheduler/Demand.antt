-- ===== src/Scheduler/Demand.antt =====
-- util/helper.go: the capacity of a super cluster, the quota of a namespace and the requests of a pod,
-- from the lists that the API servers return.
pub mod Bounds
pub mod Sums
use text.Mathlib.Text.{◌==◌ as str_eq}
use cluster_api_provider_nes.Base.{
  String, Bool, true, false, not, ◌||◌, Option, none, some, List, [], ◌∷◌, if◌then◌else◌, lookup,
  insert,
}
use cluster_api_provider_nes.Scheduler.Quantity.{Quantities, is_lt}
use cluster_api_provider_nes.Scheduler.Resource.{ResourceList, get}

-- `corev1.NodeCondition`
pub record NodeCondition : Type 0 where
  pub type : String
  pub status : String

-- What `GetNodeCondition` points to; the index is not used.
unfoldable pub get_node_condition : String → List NodeCondition → Option NodeCondition
get_node_condition condition_type [] = none
get_node_condition condition_type (c ∷ conditions) =
    if str_eq c.type condition_type then some c else get_node_condition condition_type conditions

module _ ⦃Q : Quantities⦄ where
  open Q use {Quantity, nothing, add, cmp, must_parse}

  pub record Node : Type 0 where
    pub conditions : List NodeCondition
    pub capacity : ResourceList

  -- the spec of a `corev1.ResourceQuota`
  pub record ResourceQuota : Type 0 where
    pub hard : ResourceList

  -- the part of a `corev1.Container` that is read; nil requests are empty ones
  pub record Container : Type 0 where
    pub requests : ResourceList

  abbrev pub zero_resources : ResourceList
  zero_resources = ("cpu", must_parse "0") ∷ ("memory", must_parse "0") ∷ []

  -- `condition == nil || condition.Status != corev1.ConditionTrue`, negated
  unfoldable pub is_ready : Node → Bool
  unfolding get_node_condition
  is_ready n = elim (get_node_condition "Ready" n.conditions) [
    | none ↦ false
    | some c ↦ str_eq c.status "True"
  ]

  -- `cur := total[k]; cur.Add(q); total[k] = cur`
  abbrev pub add_to : String → Quantity → ResourceList → ResourceList
  add_to k q total = insert k (add (get k total) q) total

  -- The loop of `getTotalNodeCapacity`.
  unfoldable pub add_nodes : List Node → ResourceList → ResourceList
  unfolding is_ready
  add_nodes [] total = total
  add_nodes (each ∷ items) total = add_nodes items (
      if is_ready each
      then add_to "memory" (get "memory" each.capacity)
          (add_to "cpu" (get "cpu" each.capacity) total)
      else total)

  unfoldable pub get_total_node_capacity : List Node → ResourceList
  unfolding add_nodes
  get_total_node_capacity nodelist = add_nodes nodelist zero_resources

  -- `if ok { cur := quota[k]; if cur.Cmp(q) == -1 { quota[k] = q } }`
  abbrev pub raise_to : String → Option Quantity → ResourceList → ResourceList
  raise_to k none quota = quota
  raise_to k (some q) quota = if is_lt (cmp (get k quota) q) then insert k q quota else quota

  -- The loop of `GetMaxQuota`.
  unfoldable pub raise_quotas : List ResourceQuota → ResourceList → ResourceList
  raise_quotas [] quota = quota
  raise_quotas (each ∷ items) quota = raise_quotas items (
      raise_to "memory" (lookup "memory" each.hard) (raise_to "cpu" (lookup "cpu" each.hard) quota))

  unfoldable pub get_max_quota : List ResourceQuota → ResourceList
  unfolding raise_quotas
  get_max_quota quotalist = raise_quotas quotalist zero_resources

  -- `if ok { cur := request[k]; cur.Add(q); request[k] = cur }`
  abbrev pub add_request : String → Option Quantity → ResourceList → ResourceList
  add_request k none request = request
  add_request k (some q) request = add_to k q request

  -- The loop of `GetPodRequirements`.
  unfoldable pub add_containers : List Container → ResourceList → ResourceList
  add_containers [] request = request
  add_containers (each ∷ containers) request = add_containers containers (
      add_request "memory" (lookup "memory" each.requests)
        (add_request "cpu" (lookup "cpu" each.requests) request))

  unfoldable pub get_pod_requirements : List Container → ResourceList
  unfolding add_containers
  get_pod_requirements containers = add_containers containers zero_resources
