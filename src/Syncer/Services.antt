-- ===== src/Syncer/Services.antt =====
-- conversion/equality.go: services, endpoints and the objects that tenants only read. Where a check
-- writes to its arguments, its result has what they have become. A nil slice is an empty one, and
-- an int32 is an integer, since no arithmetic is done.
pub mod NodePorts
pub mod Targets
use cluster_api_provider_nes.Base.{
  String, ◌≡◌, ◌↔◌, Bool, true, not, Option, none, some, List, [], ◌∷◌, map, if◌then◌else◌,
}
use cluster_api_provider_nes.Base.Int.{ℤ, pos}
use cluster_api_provider_nes.Syncer.Keys.{StringSets, VcEquality}
use cluster_api_provider_nes.Syncer.Meta.{
  ObjectMeta, change, replace, check_dw_object_meta_equality,
}
use cluster_api_provider_nes.Syncer.Contents.{FeatureGates}

-- `equality.Semantic.DeepEqual` of k8s.io/apimachinery at one type, which tells values apart.
pub record DeepEqual (A : Type 0) : Type 0 where
  pub same : A → A → Bool
  pub same_iff : (a b : A) → (same a b ≡ true) ↔ (a ≡ b)

-- The fields of the Kubernetes types that are only copied.
pub record Parts : Type 1 where
  pub MetaOther : Type 0
  pub ReferenceOther : Type 0
  pub AddressOther : Type 0
  pub SubsetOther : Type 0
  pub PortOther : Type 0
  pub SpecOther : Type 0
  pub Other : Type 0

module _ ⦃P : Parts⦄ where
  open P use {MetaOther, ReferenceOther, AddressOther, SubsetOther, PortOther, SpecOther, Other}

  pub record ObjectReference : Type 0 where
    pub namespace : String
    pub resource_version : String
    pub uid : String
    pub other : ReferenceOther

  pub record EndpointAddress : Type 0 where
    pub target_ref : Option ObjectReference
    pub other : AddressOther

  pub record EndpointSubset : Type 0 where
    pub addresses : List EndpointAddress
    pub not_ready_addresses : List EndpointAddress
    pub other : SubsetOther

  pub record Endpoints : Type 0 where
    pub subsets : List EndpointSubset
    pub other : Other

  pub record ServicePort : Type 0 where
    pub node_port : ℤ
    pub other : PortOther

  pub record ServiceSpec : Type 0 where
    pub cluster_ip : String
    pub cluster_ips : List String
    pub ip_families : List String
    pub ip_family_policy : Option String
    pub external_ips : List String
    pub health_check_node_port : ℤ
    pub ports : List ServicePort
    pub other : SpecOther

  pub record Service : Type 0 where
    pub object_meta : ObjectMeta MetaOther
    pub spec : ServiceSpec
    pub other : Other

  -- the body of either loop over addresses
  abbrev pub filter_address : EndpointAddress → EndpointAddress
  filter_address a = elim a.target_ref [
    | none ↦ a
    | some r ↦ record a {
      target_ref = some (record r { namespace = ""; resource_version = ""; uid = "" });
    }
  ]

  abbrev pub filter_subset : EndpointSubset → EndpointSubset
  filter_subset s = record s {
    addresses = map filter_address s.addresses;
    not_ready_addresses = map filter_address s.not_ready_addresses;
  }

  -- What the function makes of its argument. The slice that it returns is the argument's own.
  unfoldable pub filter_sub_set_target_ref : Endpoints → Endpoints
  filter_sub_set_target_ref ep = record ep { subsets = map filter_subset ep.subsets }

  -- the two arguments as they are left, and the update
  unfoldable pub check_endpoints_equality :
      ⦃D : DeepEqual (List EndpointSubset)⦄
      → Endpoints
      → Endpoints
      → Endpoints × Endpoints × Option Endpoints
  unfolding filter_sub_set_target_ref
  check_endpoints_equality ⦃D⦄ p v =
      let p' = filter_sub_set_target_ref p in
      let v' = filter_sub_set_target_ref v in
      (
        p',
        v',
        change (not (D.same p'.subsets v'.subsets)) p' (λ u. record u { subsets = v'.subsets })
            none,
      )

  unfoldable pub filter_node_port : Service → ServiceSpec
  filter_node_port svc =
      let clear : ServicePort → ServicePort = λ port. record port { node_port = pos 0 } in
      record (svc.spec) { health_check_node_port = pos 0; ports = map clear svc.spec.ports }

  -- the loop that keeps the node ports, in the places that both lists have
  unfoldable pub keep_node_ports : List ServicePort → List ServicePort → List ServicePort
  keep_node_ports [] old = []
  keep_node_ports (port ∷ ports) [] = port ∷ ports
  keep_node_ports (port ∷ ports) (was ∷ old) =
      record port { node_port = was.node_port } ∷ keep_node_ports ports old

  -- `vSpec` when it is compared
  unfoldable pub wanted_spec : FeatureGates → Service → Service → ServiceSpec
  unfolding filter_node_port
  wanted_spec gates p v =
      let p_spec = filter_node_port p in
      let v_spec = filter_node_port v in
      record v_spec {
        cluster_ip = p_spec.cluster_ip;
        cluster_ips = p_spec.cluster_ips;
        ip_families = p_spec.ip_families;
        ip_family_policy = p_spec.ip_family_policy;
        external_ips =
            if gates.v_service_external_ip then p_spec.external_ips else v_spec.external_ips;
      }

  unfoldable pub check_service_equality :
      ⦃D : DeepEqual ServiceSpec⦄ ⦃S : StringSets⦄
      → FeatureGates
      → VcEquality
      → Service
      → Service
      → Option Service
  unfolding wanted_spec keep_node_ports
  check_service_equality ⦃D⦄ gates e p v =
      let meta = check_dw_object_meta_equality e p.object_meta v.object_meta in
      let u1 = replace p (λ m u. record u { object_meta = m }) meta none in
      let v_spec = wanted_spec gates p v in
      let p_spec = filter_node_port p in
      change (not (D.same v_spec p_spec)) p
        (λ u. record u {
          spec = record v_spec {
            ports = keep_node_ports v_spec.ports p.spec.ports;
            health_check_node_port = p.spec.health_check_node_port;
          };
        })
        u1
