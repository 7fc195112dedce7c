-- ===== src/Syncer/Services/NodePorts.antt =====
-- `CheckServiceEquality`: what it makes of a service, and that checking again finds nothing.
use cluster_api_provider_nes.Base.{
  ℕ, zero, suc, ◌≡◌, refl, sym, ap, ◌∙◌, ◌⊎◌, inl, inr, Bool-cases, none, List, [], ◌∷◌, map,
  length, arith, if◌then◌else◌,
}
use cluster_api_provider_nes.Base.Int.{ℤ, pos}
use cluster_api_provider_nes.Syncer.Keys.{StringSets, VcEquality}
use cluster_api_provider_nes.Syncer.Meta.{settle, check_dw_object_meta_equality}
use cluster_api_provider_nes.Syncer.Meta.Settled.{
  IsMap, meta_below, settle-check_dw_object_meta_equality, meta_below_converges,
}
use cluster_api_provider_nes.Syncer.Contents.{FeatureGates}
use cluster_api_provider_nes.Syncer.Services.{
  DeepEqual, Parts, ServicePort, ServiceSpec, Service, filter_node_port, keep_node_ports,
  wanted_spec, check_service_equality,
}

-- The first `n` of the ports, followed by zeros if they are fewer.
unfoldable pub first_ports : ℕ → List ℤ → List ℤ
first_ports zero ports = []
first_ports (suc n) [] = pos 0 ∷ first_ports n []
first_ports (suc n) (port ∷ ports) = port ∷ first_ports n ports

module _ ⦃P : Parts⦄ where
  abbrev pub node_ports : List ServicePort → List ℤ
  node_ports = map (λ port. port.node_port)

  abbrev pub clear : ServicePort → ServicePort
  clear port = record port { node_port = pos 0 }

  node_ports_zero :
      (ports : List ServicePort) → node_ports (map clear ports) ≡ first_ports (length ports) []
  unfolding first_ports
  node_ports_zero [] = refl
  node_ports_zero (port ∷ ports) = ap (λ rest. pos 0 ∷ rest) (node_ports_zero ports)

  node_ports-keep_node_ports :
      (ports old : List ServicePort)
      → node_ports (keep_node_ports (map clear ports) old)
        ≡ first_ports (length ports) (node_ports old)
  unfolding keep_node_ports first_ports
  node_ports-keep_node_ports [] old = refl
  node_ports-keep_node_ports (port ∷ ports) [] = ap (λ rest. pos 0 ∷ rest) (node_ports_zero ports)
  node_ports-keep_node_ports (port ∷ ports) (was ∷ old) =
      ap (λ rest. was.node_port ∷ rest) (node_ports-keep_node_ports ports old)

  clear-keep_node_ports :
      (ports old : List ServicePort) → map clear (keep_node_ports ports old) ≡ map clear ports
  unfolding keep_node_ports
  clear-keep_node_ports [] old = refl
  clear-keep_node_ports (port ∷ ports) [] = refl
  clear-keep_node_ports (port ∷ ports) (was ∷ old) =
      ap (λ rest. clear port ∷ rest) (clear-keep_node_ports ports old)

  clear-clear : (ports : List ServicePort) → map clear (map clear ports) ≡ map clear ports
  clear-clear [] = refl
  clear-clear (port ∷ ports) = ap (λ rest. clear port ∷ rest) (clear-clear ports)

  length-clear :
      (ports old : List ServicePort) → map clear ports ≡ map clear old → length ports ≡ length old
  length-clear [] [] e = refl
  length-clear [] (was ∷ old) e = absurd (ground (arith, e))
  length-clear (port ∷ ports) [] e = absurd (ground (arith, e))
  length-clear (port ∷ ports) (was ∷ old) e = ap suc (length-clear ports old (ground (arith, e)))

  first_ports-length :
      (ports : List ServicePort) → first_ports (length ports) (node_ports ports) ≡ node_ports ports
  unfolding first_ports
  first_ports-length [] = refl
  first_ports-length (port ∷ ports) = ap (λ rest. port.node_port ∷ rest) (first_ports-length ports)

  -- What the service of the super cluster is to have, from its old specification and the tenant's.
  pub record IsSpec (gates : FeatureGates) (p v new : ServiceSpec) : Type 0 where
    pub cluster_ip : new.cluster_ip ≡ p.cluster_ip
    pub cluster_ips : new.cluster_ips ≡ p.cluster_ips
    pub ip_families : new.ip_families ≡ p.ip_families
    pub ip_family_policy : new.ip_family_policy ≡ p.ip_family_policy
    pub external_ips :
        new.external_ips ≡ (if gates.v_service_external_ip then p.external_ips else v.external_ips)
    pub ports : map clear new.ports ≡ map clear v.ports
    pub other : new.other ≡ v.other
    pub node_ports_kept : node_ports new.ports ≡ first_ports (length v.ports) (node_ports p.ports)
    pub health_check_node_port : new.health_check_node_port ≡ p.health_check_node_port

  -- The specification that an update has: the node ports are those of the old one, by place.
  abbrev kept_spec : FeatureGates → Service → Service → ServiceSpec
  kept_spec gates p v =
      let wanted = wanted_spec gates p v in
      record wanted {
        ports = keep_node_ports wanted.ports p.spec.ports;
        health_check_node_port = p.spec.health_check_node_port;
      }

  filter_node_port_spec :
      (s t : Service) → s.spec ≡ t.spec → filter_node_port s ≡ filter_node_port t
  unfolding filter_node_port
  filter_node_port_spec s t h = rw h

  filter_node_port_kept :
      (gates : FeatureGates) (p v s : Service)
      → s.spec ≡ kept_spec gates p v
      → filter_node_port s ≡ wanted_spec gates p v
  unfolding wanted_spec
  filter_node_port_kept gates p v s h =
      let same : map clear (keep_node_ports (map clear v.spec.ports) p.spec.ports)
          ≡ map clear v.spec.ports =
        clear-keep_node_ports (map clear v.spec.ports) p.spec.ports ∙ clear-clear v.spec.ports in
      rw h (ap (λ ports. record (wanted_spec gates p v) { ports = ports }) same)

  wanted_spec_spec :
      (gates : FeatureGates) (s p v : Service)
      → s.spec ≡ p.spec
      → wanted_spec gates s v ≡ wanted_spec gates p v
  unfolding wanted_spec
  wanted_spec_spec gates s p v h = rw h

  wanted_spec_kept :
      (gates : FeatureGates) (p v s : Service)
      → s.spec ≡ kept_spec gates p v
      → wanted_spec gates s v ≡ wanted_spec gates p v
  unfolding wanted_spec
  wanted_spec_kept gates p v s h = rw h (ground arith)

  node_ports_kept :
      (gates : FeatureGates) (p v : Service)
      → node_ports (kept_spec gates p v).ports
        ≡ first_ports (length v.spec.ports) (node_ports p.spec.ports)
  unfolding wanted_spec
  node_ports_kept gates p v = node_ports-keep_node_ports v.spec.ports p.spec.ports

  length_ports :
      (gates : FeatureGates) (p v : Service)
      → wanted_spec gates p v ≡ filter_node_port p
      → length v.spec.ports ≡ length p.spec.ports
  unfolding wanted_spec
  length_ports gates p v h = length-clear v.spec.ports p.spec.ports (ap (λ s. s.ports) h)

  module _ ⦃D : DeepEqual ServiceSpec⦄ ⦃S : StringSets⦄ where
    -- The specification that is left.
    abbrev spec_below : FeatureGates → Service → Service → ServiceSpec
    spec_below gates p v =
        if D.same (wanted_spec gates p v) (filter_node_port p) then p.spec else kept_spec gates p v

    abbrev service_below : FeatureGates → VcEquality → Service → Service → Service
    service_below gates e p v = record p {
      object_meta = meta_below e p.object_meta v.object_meta;
      spec = spec_below gates p v;
    }

    settle-check_service_equality :
        (gates : FeatureGates) (e : VcEquality) (p v : Service)
        → settle p (check_service_equality gates e p v) ≡ service_below gates e p v
    unfolding check_service_equality
    settle-check_service_equality gates e p v =
        ground (arith, settle-check_dw_object_meta_equality e p.object_meta v.object_meta)

    spec_below_cases :
        (gates : FeatureGates) (p v : Service)
        → ((spec_below gates p v ≡ p.spec) × (wanted_spec gates p v ≡ filter_node_port p))
          ⊎ (spec_below gates p v ≡ kept_spec gates p v)
    spec_below_cases gates p v =
        elim (Bool-cases (D.same (wanted_spec gates p v) (filter_node_port p))) [
          | inl h ↦ inl (rw h, (D.same_iff (wanted_spec gates p v) (filter_node_port p)).0 h)
          | inr h ↦ inr (rw h)
        ]

    filter_node_port-service_below :
        (gates : FeatureGates) (e : VcEquality) (p v : Service)
        → filter_node_port (service_below gates e p v) ≡ wanted_spec gates p v
    filter_node_port-service_below gates e p v = elim (spec_below_cases gates p v) [
      | inl (h, same) ↦ filter_node_port_spec _ p h ∙ sym same
      | inr h ↦ filter_node_port_kept gates p v _ h
    ]

    wanted_spec-service_below :
        (gates : FeatureGates) (e : VcEquality) (p v : Service)
        → wanted_spec gates (service_below gates e p v) v ≡ wanted_spec gates p v
    wanted_spec-service_below gates e p v = elim (spec_below_cases gates p v) [
      | inl (h, same) ↦ wanted_spec_spec gates _ p v h
      | inr h ↦ wanted_spec_kept gates p v _ h
    ]

    node_ports-service_below :
        (gates : FeatureGates) (e : VcEquality) (p v : Service)
        → node_ports (spec_below gates p v).ports
          ≡ first_ports (length v.spec.ports) (node_ports p.spec.ports)
    node_ports-service_below gates e p v = elim (spec_below_cases gates p v) [
      | inl (h, same) ↦
          rw h (rw (length_ports gates p v same) (sym (first_ports-length p.spec.ports)))
      | inr h ↦ rw h (node_ports_kept gates p v)
    ]

    service_again :
        (gates : FeatureGates) (e : VcEquality) (p v : Service)
        → (check_dw_object_meta_equality e p.object_meta v.object_meta ≡ none)
        → (wanted_spec gates p v ≡ filter_node_port p)
        → check_service_equality gates e p v ≡ none
    unfolding check_service_equality
    service_again gates e p v m s =
        rw m (rw ((D.same_iff (wanted_spec gates p v) (filter_node_port p)).1 s))

    spec_below-IsSpec :
        (gates : FeatureGates) (e : VcEquality) (p v : Service)
        → IsSpec gates p.spec v.spec (spec_below gates p v)
    unfolding wanted_spec
    spec_below-IsSpec gates e p v =
        let same = filter_node_port-service_below gates e p v in
        record {
          cluster_ip = ap (λ s. s.cluster_ip) same;
          cluster_ips = ap (λ s. s.cluster_ips) same;
          ip_families = ap (λ s. s.ip_families) same;
          ip_family_policy = ap (λ s. s.ip_family_policy) same;
          external_ips = ap (λ s. s.external_ips) same;
          ports = ap (λ s. s.ports) same;
          other = ap (λ s. s.other) same;
          node_ports_kept = node_ports-service_below gates e p v;
          health_check_node_port = ground arith;
        }

    -- A service in the super cluster, once the update that the check gives has been applied, has the
    -- metadata that the check of metadata gives, and the tenant's specification except that it keeps
    -- its own cluster addresses and address families, its own external addresses if the feature gate
    -- is on, and its own node ports: the port in each place has the node port that the port in the
    -- same place had, or zero if there was none. Checking it again finds nothing to do.
    pub check_service_equality_converges :
        (gates : FeatureGates) (e : VcEquality) (p v : Service)
        → IsMap p.object_meta
        → IsMap v.object_meta
        → let p' = settle p (check_service_equality gates e p v) in
          (p'.object_meta
            ≡ settle p.object_meta (check_dw_object_meta_equality e p.object_meta v.object_meta))
          × IsSpec gates p.spec v.spec p'.spec
          × (p'.other ≡ p.other)
          × (check_service_equality gates e p' v ≡ none)
    check_service_equality_converges gates e p v mp mv =
        let same = settle-check_service_equality gates e p v in
        (
          rw same (sym (settle-check_dw_object_meta_equality e p.object_meta v.object_meta)),
          rw same (spec_below-IsSpec gates e p v),
          rw same,
          rw same (
              service_again gates e (service_below gates e p v) v
                (meta_below_converges e p.object_meta v.object_meta mp mv)
                (wanted_spec-service_below gates e p v
                  ∙ sym (filter_node_port-service_below gates e p v))),
        )
