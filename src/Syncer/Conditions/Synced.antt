-- ===== src/Syncer/Conditions/Synced.antt =====
-- Which condition of each type a pod's status has after the checks.
use cluster_api_provider_nes.Base.{
  String, ◌≡◌, ◌↔◌, refl, inl, inr, Option-cases, Bool-cases, Bool, true, false, Option, none, some,
  List, [], ◌∷◌, arith, dec_eq, if◌then◌else◌, Dict, lookup, erase, lookup-erase, Distinct,
  erase-Distinct, Order, IsOrder,
}
use cluster_api_provider_nes.Syncer.Keys.{StringSets}
use cluster_api_provider_nes.Syncer.Meta.{settle}
use cluster_api_provider_nes.Syncer.Pods.{Rests, PodCondition, PodStatus, Pod}
use cluster_api_provider_nes.Syncer.Conditions.{
  gated, replace_each, keep_each, values, conditions_below, conditions_above,
  check_dw_pod_condition_equality, check_uw_pod_status_equality,
}
use cluster_api_provider_nes.Syncer.Conditions.Lists.{
  condition_of, DistinctTypes, IsTyped, lookup-gated, gated-Distinct, gated-IsTyped,
  condition_of-append, condition_of-visit, erase-IsTyped,
}

-- the first, or else the second
abbrev pub first_of {ℓ} : {A : Type ℓ} → Option A → Option A → Option A
first_of none b = b
first_of (some a) b = some a

-- A value that is given unless it is the same as the old one is there in the end.
settle_unless :
    {A : Type 0} (same : A → A → Bool)
    → ((a b : A) → (same a b ≡ true) ↔ (a ≡ b))
    → (old new : A) → settle old (if same old new then none else some new) ≡ new
settle_unless same same_iff old new = elim (Bool-cases (same old new)) [
  | inl h ↦ rw h ((same_iff old new).0 h)
  | inr h ↦ rw h
]

module _ ⦃R : Rests⦄ where
  -- The map after one condition has been looked at.
  after-IsTyped :
      (b : Bool) (j : String) (m : Dict PodCondition)
      → IsTyped m
      → IsTyped (if b then erase j m else m)
  after-IsTyped true j m t = erase-IsTyped j m t
  after-IsTyped false j m t = t

  after-Distinct :
      (b : Bool) (j : String) (m : Dict PodCondition)
      → Distinct m
      → Distinct (if b then erase j m else m)
  after-Distinct true j m d = erase-Distinct j m d
  after-Distinct false j m d = d

  replace_each_lem :
      (k : String) (is_gate : String → Bool) (conditions : List PodCondition)
      (m : Dict PodCondition)
      → DistinctTypes conditions
      → IsTyped m
      → let (out, left) = replace_each is_gate conditions m in
        (condition_of k out ≡ (elim (condition_of k conditions) [
          | none ↦ none
          | some c ↦ if is_gate k then first_of (lookup k m) (some c) else some c
        ]))
        × (lookup k left ≡ (elim (condition_of k conditions) [
          | none ↦ lookup k m
          | some c ↦ if is_gate k then none else lookup k m
        ]))
  unfolding replace_each
  replace_each_lem k is_gate [] m d t = (refl, refl)
  replace_each_lem k is_gate (c ∷ conditions) m d t =
      let m' = if is_gate c.type then erase c.type m else m in
      let rest =
        replace_each_lem k is_gate conditions m' d.1 (after-IsTyped (is_gate c.type) c.type m t) in
      elim (Option-cases (lookup c.type m)) [
        | inl n ↦ ground (arith, n, rest, d.0, lookup-erase k c.type m)
        | inr (vc, s) ↦ ground (arith, s, t c.type vc s, rest, d.0, lookup-erase k c.type m)
      ]

  replace_each-Distinct :
      (is_gate : String → Bool) (conditions : List PodCondition) (m : Dict PodCondition)
      → Distinct m
      → IsTyped m
      → Distinct (replace_each is_gate conditions m).1
        × IsTyped (replace_each is_gate conditions m).1
  unfolding replace_each
  replace_each-Distinct is_gate [] m d t = (d, t)
  replace_each-Distinct is_gate (c ∷ conditions) m d t =
      replace_each-Distinct is_gate conditions (if is_gate c.type then erase c.type m else m)
        (after-Distinct (is_gate c.type) c.type m d) (after-IsTyped (is_gate c.type) c.type m t)

  lookup-keep_each :
      (k : String) (p_gate v_gate : String → Bool) (conditions : List PodCondition)
      (m : Dict PodCondition)
      → lookup k (keep_each p_gate v_gate conditions m).1 ≡ (elim (condition_of k conditions) [
        | none ↦ lookup k m
        | some c ↦ if v_gate k then none else lookup k m
      ])
  unfolding keep_each
  lookup-keep_each k p_gate v_gate [] m = refl
  lookup-keep_each k p_gate v_gate (c ∷ conditions) m =
      let m' = if v_gate c.type then erase c.type m else m in
      ground (arith, lookup-keep_each k p_gate v_gate conditions m', lookup-erase k c.type m)

  -- what a condition that is not dropped becomes
  abbrev replaced : Bool → PodCondition → Dict PodCondition → PodCondition
  replaced b c m = if b then elim (lookup c.type m) [ none ↦ c | some pc ↦ pc ] else c

  type-replaced :
      (b : Bool) (c : PodCondition) (m : Dict PodCondition)
      → IsTyped m
      → (replaced b c m).type ≡ c.type
  type-replaced true c m t = elim (Option-cases (lookup c.type m)) [
    | inl n ↦ ground (arith, n)
    | inr (pc, s) ↦ ground (arith, s, t c.type pc s)
  ]
  type-replaced false c m t = refl

  condition_of-keep_each :
      (k : String) (p_gate v_gate : String → Bool) (conditions : List PodCondition)
      (m : Dict PodCondition)
      → DistinctTypes conditions
      → IsTyped m
      → condition_of k (keep_each p_gate v_gate conditions m).0
        ≡ (elim (condition_of k conditions) [
          | none ↦ none
          | some c ↦
              if v_gate k then first_of (lookup k m) (some c) else if p_gate k then none else some c
        ])
  unfolding keep_each
  condition_of-keep_each k p_gate v_gate [] m d t = refl
  condition_of-keep_each k p_gate v_gate (c ∷ conditions) m d t =
      let m' = if v_gate c.type then erase c.type m else m in
      let t' = after-IsTyped (v_gate c.type) c.type m t in
      let rest = condition_of-keep_each k p_gate v_gate conditions m' d.1 t' in
      let same_type = type-replaced (v_gate c.type) c m t in
      elim (dec_eq k c.type) [
        | yes e ↦ elim (Bool-cases (v_gate c.type)) [
          | inl g ↦ ground (arith, g, e, same_type, rest, d.0)
          | inr g ↦ ground (arith, g, e, rest, d.0)
        ]
        | no n ↦ ground (arith, n, same_type, rest, lookup-erase k c.type m)
      ]

  keep_each-Distinct :
      (p_gate v_gate : String → Bool) (conditions : List PodCondition) (m : Dict PodCondition)
      → Distinct m
      → IsTyped m
      → Distinct (keep_each p_gate v_gate conditions m).1
        × IsTyped (keep_each p_gate v_gate conditions m).1
  unfolding keep_each
  keep_each-Distinct p_gate v_gate [] m d t = (d, t)
  keep_each-Distinct p_gate v_gate (c ∷ conditions) m d t =
      let m' = if v_gate c.type then erase c.type m else m in
      keep_each-Distinct p_gate v_gate conditions m' (after-Distinct (v_gate c.type) c.type m d)
        (after-IsTyped (v_gate c.type) c.type m t)

  module _ ⦃S : StringSets⦄ where
    open S use {has}

    -- a readiness gate of a pod
    abbrev pub is_gate_of : Pod → String → Bool
    is_gate_of p k = has p.spec.readiness_gates k

    condition_of-conditions_below :
        (k : String) (visit : Order PodCondition) (p v : Pod)
        → IsOrder visit
        → DistinctTypes p.status.conditions
        → DistinctTypes v.status.conditions
        → condition_of k (conditions_below visit p v) ≡ (
            if is_gate_of v k
            then first_of (condition_of k v.status.conditions) (condition_of k p.status.conditions)
            else condition_of k p.status.conditions)
    unfolding conditions_below
    condition_of-conditions_below k visit p v o dp dv =
        let gate = has v.spec.readiness_gates in
        let m = gated gate v.status.conditions [] in
        let t = gated-IsTyped gate v.status.conditions dv in
        let (out, left) = replace_each gate p.status.conditions m in
        let (dl, tl) =
          replace_each-Distinct gate p.status.conditions m
            (gated-Distinct gate v.status.conditions [] tt) t in
        ground (
          arith,
          condition_of-append k out (values (visit left)),
          condition_of-visit k visit left o dl tl,
          replace_each_lem k gate p.status.conditions m dp t,
          lookup-gated k gate v.status.conditions [] dv,
        )

    condition_of-conditions_above :
        (k : String) (visit : Order PodCondition) (p v : Pod)
        → IsOrder visit
        → DistinctTypes p.status.conditions
        → DistinctTypes v.status.conditions
        → condition_of k (conditions_above visit p v) ≡ (
            if is_gate_of v k
            then first_of (condition_of k v.status.conditions) (condition_of k p.status.conditions)
            else if is_gate_of p k
            then none
            else condition_of k p.status.conditions)
    unfolding conditions_above
    condition_of-conditions_above k visit p v o dp dv =
        let p_gate = has p.spec.readiness_gates in
        let v_gate = has v.spec.readiness_gates in
        let m = gated v_gate v.status.conditions [] in
        let t = gated-IsTyped v_gate v.status.conditions dv in
        let (out, left) = keep_each p_gate v_gate p.status.conditions m in
        let (dl, tl) =
          keep_each-Distinct p_gate v_gate p.status.conditions m
            (gated-Distinct v_gate v.status.conditions [] tt) t in
        ground (
          arith,
          condition_of-append k out (values (visit left)),
          condition_of-visit k visit left o dl tl,
          condition_of-keep_each k p_gate v_gate p.status.conditions m dp t,
          lookup-keep_each k p_gate v_gate p.status.conditions m,
          lookup-gated k v_gate v.status.conditions [] dv,
        )

    -- Where the comparison of statuses tells them apart and no status has two conditions of one type:
    -- once the update of the downward check has been applied, the pod in the super cluster has, for
    -- each type that is a readiness gate of the tenant's pod, the tenant's condition if there is one,
    -- and for every other type its own; once that of the upward check has been applied, the tenant's
    -- pod has the same, but for a type that is a gate of the super cluster's pod only, of which it has
    -- none. The rest of both statuses is the super cluster's.
    pub pod_conditions_lem :
        (same : PodStatus → PodStatus → Bool)
        (same_iff : (a b : PodStatus) → (same a b ≡ true) ↔ (a ≡ b)) (visit : Order PodCondition)
        (p v : Pod) (k : String)
        → IsOrder visit
        → DistinctTypes p.status.conditions
        → DistinctTypes v.status.conditions
        → let below = settle p.status (check_dw_pod_condition_equality same visit p v) in
          let above = settle v.status (check_uw_pod_status_equality same visit p v) in
          (condition_of k below.conditions ≡ (
            if is_gate_of v k
            then first_of (condition_of k v.status.conditions) (condition_of k p.status.conditions)
            else condition_of k p.status.conditions))
          × (condition_of k above.conditions ≡ (
              if is_gate_of v k
              then first_of
                  (condition_of k v.status.conditions)
                  (condition_of k p.status.conditions)
              else if is_gate_of p k
              then none
              else condition_of k p.status.conditions))
          × (below.other ≡ p.status.other)
          × (above.other ≡ p.status.other)
    unfolding check_dw_pod_condition_equality check_uw_pod_status_equality
    pod_conditions_lem same same_iff visit p v k o dp dv =
        let below' : PodStatus = record p.status { conditions = conditions_below visit p v } in
        let above' : PodStatus = record p.status { conditions = conditions_above visit p v } in
        let b = settle_unless same same_iff p.status below' in
        let a = settle_unless same same_iff v.status above' in
        (
          rw b (condition_of-conditions_below k visit p v o dp dv),
          rw a (condition_of-conditions_above k visit p v o dp dv),
          rw b,
          rw a,
        )
