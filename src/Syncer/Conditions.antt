-- ===== src/Syncer/Conditions.antt =====
-- conversion/equality.go: `CheckDWPodConditionEquality` and `CheckUWPodStatusEquality`. The orders
-- in which the maps are visited are arguments, and `same` is `equality.Semantic.DeepEqual`.
pub mod Lists
pub mod Synced
use cluster_api_provider_nes.Base.{
  String, Bool, true, false, not, ◌&&◌, Option, none, some, List, [], ◌∷◌, ◌++◌, if◌then◌else◌,
  Dict, lookup, insert, erase, Order,
}
use cluster_api_provider_nes.Syncer.Keys.{StringSets}
use cluster_api_provider_nes.Syncer.Pods.{Rests, PodCondition, PodStatus, Pod}

module _ ⦃R : Rests⦄ where
  -- the loop that makes `vConditionMap`
  unfoldable pub gated : (String → Bool) → List PodCondition → Dict PodCondition → Dict PodCondition
  gated is_gate [] m = m
  gated is_gate (c ∷ conditions) m =
      gated is_gate conditions (if is_gate c.type then insert c.type c m else m)

  -- The loop of `CheckDWPodConditionEquality` over the conditions: what they are then, and what is
  -- left in the map.
  unfoldable pub replace_each :
      (String → Bool)
      → List PodCondition
      → Dict PodCondition
      → List PodCondition × Dict PodCondition
  replace_each is_gate [] m = ([], m)
  replace_each is_gate (c ∷ conditions) m =
      let m' = if is_gate c.type then erase c.type m else m in
      let (rest, left) = replace_each is_gate conditions m' in
      let now : PodCondition =
        (if is_gate c.type then elim (lookup c.type m) [ none ↦ c | some vc ↦ vc ] else c) in
      (now ∷ rest, left)

  -- The loop of `CheckUWPodStatusEquality`, which drops the conditions that only the super cluster
  -- has a gate for.
  unfoldable pub keep_each :
      (String → Bool)
      → (String → Bool)
      → List PodCondition
      → Dict PodCondition
      → List PodCondition × Dict PodCondition
  keep_each p_gate v_gate [] m = ([], m)
  keep_each p_gate v_gate (c ∷ conditions) m =
      let m' = if v_gate c.type then erase c.type m else m in
      let (rest, left) = keep_each p_gate v_gate conditions m' in
      let now : PodCondition =
        (if v_gate c.type then elim (lookup c.type m) [ none ↦ c | some pc ↦ pc ] else c) in
      (if p_gate c.type && not (v_gate c.type) then rest else now ∷ rest, left)

  -- the loop that appends what is left in the map
  abbrev pub values : Dict PodCondition → List PodCondition
  values [] = []
  values ((k, c) ∷ m) = c ∷ values m

  module _ ⦃S : StringSets⦄ where
    open S use {has}

    -- `newPStatus.Conditions`
    unfoldable pub conditions_below : Order PodCondition → Pod → Pod → List PodCondition
    unfolding gated replace_each
    conditions_below visit p v =
        let is_gate = has v.spec.readiness_gates in
        let (conditions, left) =
          replace_each is_gate p.status.conditions (gated is_gate v.status.conditions []) in
        conditions ++ values (visit left)

    unfoldable pub check_dw_pod_condition_equality :
        (PodStatus → PodStatus → Bool) → Order PodCondition → Pod → Pod → Option PodStatus
    unfolding conditions_below
    check_dw_pod_condition_equality same visit p v =
        let new : PodStatus = record p.status { conditions = conditions_below visit p v } in
        if same p.status new then none else some new

    -- `newVStatus.Conditions`
    unfoldable pub conditions_above : Order PodCondition → Pod → Pod → List PodCondition
    unfolding gated keep_each
    conditions_above visit p v =
        let p_gate = has p.spec.readiness_gates in
        let v_gate = has v.spec.readiness_gates in
        let (conditions, left) =
          keep_each p_gate v_gate p.status.conditions (gated v_gate v.status.conditions []) in
        conditions ++ values (visit left)

    unfoldable pub check_uw_pod_status_equality :
        (PodStatus → PodStatus → Bool) → Order PodCondition → Pod → Pod → Option PodStatus
    unfolding conditions_above
    check_uw_pod_status_equality same visit p v =
        let new : PodStatus = record p.status { conditions = conditions_above visit p v } in
        if same v.status new then none else some new
