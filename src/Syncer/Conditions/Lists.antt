-- ===== src/Syncer/Conditions/Lists.antt =====
-- What the loops over conditions leave: the condition of each type, in the list and in the map.
use cluster_api_provider_nes.Base.{
  String, ◌≡◌, refl, ◌∙◌, inl, inr, Bool-cases, Bool, Option, none, some, List, [], ◌∷◌, ◌++◌,
  arith, ite, dec_eq, if◌then◌else◌, All, Dict, lookup, insert, erase, lookup-insert, lookup-erase,
  Distinct, insert-Distinct, Order, IsOrder,
}
use cluster_api_provider_nes.Syncer.Pods.{Rests, PodCondition}
use cluster_api_provider_nes.Syncer.Conditions.{gated, values}

module _ ⦃R : Rests⦄ where
  -- the first condition of a type
  abbrev pub condition_of : String → List PodCondition → Option PodCondition
  condition_of k [] = none
  condition_of k (c ∷ conditions) = ite (dec_eq k c.type) (some c) (condition_of k conditions)

  -- No two conditions have the same type.
  abbrev pub DistinctTypes : List PodCondition → Type 0
  DistinctTypes [] = Unit
  DistinctTypes (c ∷ conditions) =
      (condition_of c.type conditions ≡ none) × DistinctTypes conditions

  -- Every condition stands under its own type.
  abbrev pub IsTyped : Dict PodCondition → Type 0
  IsTyped m = (k : String) (c : PodCondition) → lookup k m ≡ some c → c.type ≡ k

  pub lookup-gated :
      (k : String) (is_gate : String → Bool) (conditions : List PodCondition)
      (m : Dict PodCondition)
      → DistinctTypes conditions
      → lookup k (gated is_gate conditions m) ≡ (
          if is_gate k
          then elim (condition_of k conditions) [ none ↦ lookup k m | some c ↦ some c ]
          else lookup k m)
  unfolding gated
  lookup-gated k is_gate [] m d = ground arith
  lookup-gated k is_gate (c ∷ conditions) m d = ground (
    arith,
    lookup-gated k is_gate conditions (if is_gate c.type then insert c.type c m else m) d.1,
    lookup-insert k c.type c m,
    d.0,
  )

  pub gated-Distinct :
      (is_gate : String → Bool) (conditions : List PodCondition) (m : Dict PodCondition)
      → Distinct m
      → Distinct (gated is_gate conditions m)
  unfolding gated
  gated-Distinct is_gate [] m d = d
  gated-Distinct is_gate (c ∷ conditions) m d =
      gated-Distinct is_gate conditions (if is_gate c.type then insert c.type c m else m)
        (elim (Bool-cases (is_gate c.type)) [
          | inl e ↦ rw e (insert-Distinct c.type c m d)
          | inr e ↦ rw e d
        ])

  condition_of-type :
      (k : String) (conditions : List PodCondition) (c : PodCondition)
      → condition_of k conditions ≡ some c
      → c.type ≡ k
  condition_of-type k [] c h = absurd (ground (arith, h))
  condition_of-type k (c0 ∷ conditions) c h = ground (arith, h, condition_of-type k conditions c)

  pub gated-IsTyped :
      (is_gate : String → Bool) (conditions : List PodCondition)
      → DistinctTypes conditions
      → IsTyped (gated is_gate conditions [])
  gated-IsTyped is_gate conditions d k c h =
      condition_of-type k conditions c (ground (arith, h, lookup-gated k is_gate conditions [] d))

  pub condition_of-append :
      (k : String) (a b : List PodCondition)
      → condition_of k (a ++ b)
        ≡ (elim (condition_of k a) [ none ↦ condition_of k b | some c ↦ some c ])
  condition_of-append k [] b = refl
  condition_of-append k (c ∷ a) b = ground (arith, condition_of-append k a b)

  condition_of-values :
      (k : String) (m : Dict PodCondition)
      → All (λ (e : String × PodCondition). e.1.type ≡ e.0) m
      → condition_of k (values m) ≡ lookup k m
  condition_of-values k [] h = refl
  condition_of-values k ((j, c) ∷ m) h = ground (arith, h.0, condition_of-values k m h.1)

  typed :
      (all : Dict PodCondition) (m : Dict PodCondition)
      → IsTyped all
      → All (λ (e : String × PodCondition). lookup e.0 all ≡ some e.1) m
      → All (λ (e : String × PodCondition). e.1.type ≡ e.0) m
  typed all [] t h = tt
  typed all ((j, c) ∷ m) t h = (t j c h.0, typed all m t h.1)

  pub condition_of-visit :
      (k : String) (visit : Order PodCondition) (m : Dict PodCondition)
      → IsOrder visit
      → Distinct m
      → IsTyped m
      → condition_of k (values (visit m)) ≡ lookup k m
  condition_of-visit k visit m o d t =
      condition_of-values k (visit m) (typed m (visit m) t (o.entries m d)) ∙ o.keeps k m

  pub erase-IsTyped : (j : String) (m : Dict PodCondition) → IsTyped m → IsTyped (erase j m)
  erase-IsTyped j m t k c h = t k c (ground (arith, h, lookup-erase k j m))
