-- ===== src/Syncer/Contents.antt =====
-- conversion/equality.go: config maps, secrets, claims and namespaces. `GetConfigMapName` is of
-- conversion/helper.go.
pub mod Maps
pub mod ConfigMaps
pub mod Secrets
pub mod Claims
use text.Mathlib.Text.{◌==◌ as str_eq}
use cluster_api_provider_nes.Base.{
  String, ◌≡◌, ◌↔◌, Bool, true, false, not, ◌&&◌, Option, none, some, List, [], ◌∷◌, if◌then◌else◌,
  Dict, lookup, insert,
}
use cluster_api_provider_nes.Syncer.Keys.{StringSets, VcEquality}
use cluster_api_provider_nes.Syncer.KeyValues.{insert_each, check_dw_kv_equality}
use cluster_api_provider_nes.Syncer.Meta.{
  ObjectMeta, change, replace, check_dw_object_meta_equality,
}

-- The feature gates that the checks ask for.
pub record FeatureGates : Type 0 where
  pub root_ca_cert_config_map_support : Bool
  pub v_service_external_ip : Bool
  pub sync_tenant_pvc_status_phase : Bool

-- The Kubernetes types that are only copied, `resource.Quantity` with `!=`, and
-- `equality.Semantic.DeepEqual` on maps, which tells maps by their values.
pub record Kinds : Type 1 where
  pub MetaOther : Type 0
  pub Other : Type 0
  pub Bytes : Type 0
  pub Quantity : Type 0
  pub nothing : Quantity
  pub same_quantity : Quantity → Quantity → Bool
  pub same_quantity_iff : (a b : Quantity) → (same_quantity a b ≡ true) ↔ (a ≡ b)
  pub same_texts : Dict String → Dict String → Bool
  pub same_texts_iff :
      (a b : Dict String) → (same_texts a b ≡ true) ↔ ((k : String) → lookup k a ≡ lookup k b)
  pub same_bytes : Dict Bytes → Dict Bytes → Bool
  pub same_bytes_iff :
      (a b : Dict Bytes) → (same_bytes a b ≡ true) ↔ ((k : String) → lookup k a ≡ lookup k b)

abbrev pub root_ca_cert_config_map_name : String
root_ca_cert_config_map_name = "kube-root-ca.crt"

abbrev pub tenant_root_ca_cert_config_map_name : String
tenant_root_ca_cert_config_map_name = "tenant-kube-root-ca.crt"

-- `GetConfigMapName`: the tenant's name of a config map, and the super cluster's.
unfoldable pub get_config_map_name : FeatureGates → String → String × String
get_config_map_name gates name =
    if gates.root_ca_cert_config_map_support && str_eq name root_ca_cert_config_map_name
    then (name, tenant_root_ca_cert_config_map_name)
    else (name, name)

abbrev pub secret_type_service_account_token : String
secret_type_service_account_token = "kubernetes.io/service-account-token"

abbrev pub claim_bound : String
claim_bound = "Bound"

module _ ⦃K : Kinds⦄ where
  open K use {MetaOther, Other, Bytes, Quantity, nothing, same_quantity, same_texts, same_bytes}

  pub record ConfigMap : Type 0 where
    pub object_meta : ObjectMeta MetaOther
    pub data_texts : Dict String
    pub binary_data : Dict Bytes
    pub other : Other

  pub record Secret : Type 0 where
    pub object_meta : ObjectMeta MetaOther
    pub type : String
    pub string_data : Dict String
    pub data_bytes : Dict Bytes
    pub other : Other

  pub record PersistentVolumeClaim : Type 0 where
    pub object_meta : ObjectMeta MetaOther
    pub requests : Dict Quantity
    pub capacity : Option (Dict Quantity)
    pub phase : String
    pub other : Other

  pub record Namespace : Type 0 where
    pub object_meta : ObjectMeta MetaOther
    pub other : Other

  unfoldable pub check_map_equality : Dict String → Dict String → Dict String × Bool
  unfolding insert_each
  check_map_equality p v = if same_texts p v then ([], true) else (insert_each v [], false)

  unfoldable pub check_binary_data_equality : Dict Bytes → Dict Bytes → Dict Bytes × Bool
  unfolding insert_each
  check_binary_data_equality p v = if same_bytes p v then ([], true) else (insert_each v [], false)

  -- `m["storage"]`
  abbrev pub storage : Dict Quantity → Quantity
  storage m = elim (lookup "storage" m) [ none ↦ nothing | some q ↦ q ]

  -- It also of a nil map.
  abbrev pub storage_of : Option (Dict Quantity) → Quantity
  storage_of none = nothing
  storage_of (some m) = storage m

  -- `CheckUWPVCStatusEquality`; a nil capacity is none.
  unfoldable pub check_uw_pvc_status_equality :
      FeatureGates → PersistentVolumeClaim → PersistentVolumeClaim → Option PersistentVolumeClaim
  check_uw_pvc_status_equality gates p v =
      let grown : Bool = elim p.capacity [
        | none ↦ false
        | some m ↦ not (same_quantity (storage m) (storage_of v.capacity))
      ] in
      let put = λ (u : PersistentVolumeClaim). record u {
        capacity =
            some (
              insert "storage" (storage_of p.capacity)
                (elim u.capacity [ none ↦ [] | some m ↦ m ]));
      } in
      let u1 = change grown v put none in
      change
        (gates.sync_tenant_pvc_status_phase
          && (str_eq v.phase claim_bound && not (str_eq p.phase claim_bound)))
        v (λ u. record u { phase = p.phase }) u1

  module _ ⦃S : StringSets⦄ where
    -- The object of the super cluster, which is given the name, and the update.
    unfoldable pub check_config_map_equality :
        FeatureGates → VcEquality → ConfigMap → ConfigMap → ConfigMap × Option ConfigMap
    unfolding get_config_map_name check_map_equality check_binary_data_equality
    check_config_map_equality gates e p0 v =
        let p : ConfigMap = record p0 {
          object_meta = record (p0.object_meta) {
            name = (get_config_map_name gates v.object_meta.name).1;
          };
        } in
        let meta = check_dw_object_meta_equality e p.object_meta v.object_meta in
        let (texts, same1) = check_map_equality p.data_texts v.data_texts in
        let (binary, same2) = check_binary_data_equality p.binary_data v.binary_data in
        let u1 = replace p (λ m u. record u { object_meta = m }) meta none in
        let u2 = change (not same1) p (λ u. record u { data_texts = texts }) u1 in
        (p, change (not same2) p (λ u. record u { binary_data = binary }) u2)

    -- the case of a service account token
    unfoldable pub check_token_equality : VcEquality → Secret → Secret → Option Secret
    unfolding check_dw_kv_equality
    check_token_equality e p v =
        let (labels, same1) = check_dw_kv_equality e p.object_meta.labels v.object_meta.labels in
        let (annotations, same2) =
          check_dw_kv_equality e p.object_meta.annotations v.object_meta.annotations in
        let u1 =
          change (not same1) p
            (λ u. record u { object_meta = record (u.object_meta) { labels = labels } }) none in
        change (not same2) p
          (λ u. record u { object_meta = record (u.object_meta) { annotations = annotations } }) u1

    unfoldable pub check_secret_equality : VcEquality → Secret → Secret → Option Secret
    unfolding check_token_equality check_map_equality check_binary_data_equality
    check_secret_equality e p v =
        let meta = check_dw_object_meta_equality e p.object_meta v.object_meta in
        let (texts, same1) = check_map_equality p.string_data v.string_data in
        let (binary, same2) = check_binary_data_equality p.data_bytes v.data_bytes in
        let u1 = replace p (λ m u. record u { object_meta = m }) meta none in
        let u2 = change (not same1) p (λ u. record u { string_data = texts }) u1 in
        if str_eq v.type secret_type_service_account_token
        then check_token_equality e p v
        else change (not same2) p (λ u. record u { data_bytes = binary }) u2

    unfoldable pub check_pvc_equality :
        VcEquality → PersistentVolumeClaim → PersistentVolumeClaim → Option PersistentVolumeClaim
    check_pvc_equality e p v =
        let meta = check_dw_object_meta_equality e p.object_meta v.object_meta in
        let u1 = replace p (λ m u. record u { object_meta = m }) meta none in
        change (not (same_quantity (storage p.requests) (storage v.requests))) p
          (λ u. record u { requests = insert "storage" (storage v.requests) u.requests }) u1

    unfoldable pub check_namespace_equality : VcEquality → Namespace → Namespace → Option Namespace
    check_namespace_equality e p v =
        replace p (λ m u. record u { object_meta = m })
          (check_dw_object_meta_equality e p.object_meta v.object_meta) none
