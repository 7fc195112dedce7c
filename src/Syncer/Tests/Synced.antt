-- ===== src/Syncer/Tests/Synced.antt =====
-- The theorems of the syncer's checks at the objects of the tests.
use text.Mathlib.Text.{◌==◌ as str_eq}
use cluster_api_provider_nes.Base.{
  ◌&&◌, ℕ, String, ◌≡◌, ◌↔◌, refl, none, [], ◌∷◌, length, if◌then◌else◌, lookup, Order, IsOrder,
  Found-self,
}
use cluster_api_provider_nes.Base.Int.{pos}
use cluster_api_provider_nes.Syncer.KeyValues.Downward.{wanted_below}
use cluster_api_provider_nes.Syncer.KeyValues.Upward.{wanted_above}
use cluster_api_provider_nes.Syncer.KeyValues.Rounds.{rounds, overlay, last_version, rounds_lem}
use cluster_api_provider_nes.Syncer.Meta.{
  ObjectMeta, settle, check_dw_object_meta_equality, check_uw_object_meta_equality,
}
use cluster_api_provider_nes.Syncer.Meta.Settled.{
  IsSynced, IsMetaBelow, check_dw_object_meta_equality_lem, check_uw_object_meta_equality_lem,
}
use cluster_api_provider_nes.Syncer.Pods.{check_pod_equality, Pod, PodStatus, PodCondition}
use cluster_api_provider_nes.Syncer.Pods.Converges.{spec_below, check_pod_equality_converges}
use cluster_api_provider_nes.Syncer.Conditions.{
  check_dw_pod_condition_equality, check_uw_pod_status_equality,
}
use cluster_api_provider_nes.Syncer.Conditions.Lists.{condition_of}
use cluster_api_provider_nes.Syncer.Conditions.Synced.{pod_conditions_lem, is_gate_of, first_of}
use cluster_api_provider_nes.Syncer.Contents.{
  check_config_map_equality, check_secret_equality, ConfigMap, Secret,
  secret_type_service_account_token,
}
use cluster_api_provider_nes.Syncer.Contents.ConfigMaps.{check_config_map_equality_converges}
use cluster_api_provider_nes.Syncer.Contents.Secrets.{check_secret_equality_converges}
use cluster_api_provider_nes.Syncer.Services.{
  check_service_equality, check_endpoints_equality, Service, Endpoints,
}
use cluster_api_provider_nes.Syncer.Services.NodePorts.{
  IsSpec, first_ports, node_ports, check_service_equality_converges,
}
use cluster_api_provider_nes.Syncer.Services.Targets.{IsCleared, check_endpoints_equality_lem}
use cluster_api_provider_nes.Syncer.Whole.{Whole, check_ingress_equality}
use cluster_api_provider_nes.Syncer.Tests.{listed_sets, numbered_rests, numbered_parts, text_kinds}
use cluster_api_provider_nes.Syncer.Tests.Deep.{
  deep_spec, deep_subsets, deep_whole, same_status, same_status_iff,
}
use cluster_api_provider_nes.Syncer.Tests.Objects.{
  labels_below, labels_above, labels_below-Distinct, labels_above-Distinct, equality, gates, meta_p,
  meta_v, meta_p-IsMap, meta_v-IsMap, texts, texts-Distinct, config_map_p, config_map_v, secret_p,
  secret_v, service_p, service_v, pod_p, pod_v, pod_p-IsPod, pod_v-IsPod, containers-IsCovered,
  conditions_p-DistinctTypes, conditions_v-DistinctTypes, endpoints, address,
}

rounds_lem_example :
    lookup "app" (rounds equality (texts ∷ labels_above ∷ []) labels_below)
    ≡ overlay equality
        (λ j. lookup j labels_below)
        (λ j. lookup j (last_version (texts ∷ labels_above ∷ []) labels_below))
        "app"
rounds_lem_example =
    rounds_lem equality (texts ∷ labels_above ∷ []) labels_below "app" labels_below-Distinct
      (texts-Distinct, (labels_above-Distinct, tt))

abbrev meta_after : ObjectMeta ℕ
meta_after = settle meta_p (check_dw_object_meta_equality equality meta_p meta_v)

check_dw_object_meta_equality_lem_example :
    ((check_dw_object_meta_equality equality meta_p meta_v ≡ none)
      ↔ IsSynced equality meta_p meta_v)
    × IsSynced equality meta_after meta_v
    × ((k : String)
        → lookup k meta_after.labels ≡ wanted_below equality meta_p.labels meta_v.labels k)
    × ((k : String)
        → lookup k meta_after.annotations
          ≡ wanted_below equality meta_p.annotations meta_v.annotations k)
    × (meta_after.name ≡ "web")
    × (meta_after.other ≡ 1)
    × (check_dw_object_meta_equality equality meta_after meta_v ≡ none)
check_dw_object_meta_equality_lem_example =
    check_dw_object_meta_equality_lem equality meta_p meta_v meta_p-IsMap meta_v-IsMap

abbrev meta_back : ObjectMeta ℕ
meta_back = settle meta_v (check_uw_object_meta_equality equality meta_p meta_v)

check_uw_object_meta_equality_lem_example :
    ((k : String) → lookup k meta_back.labels ≡ wanted_above equality meta_p.labels meta_v.labels k)
    × ((k : String)
        → lookup k meta_back.annotations
          ≡ wanted_above equality meta_p.annotations meta_v.annotations k)
    × (meta_back.name ≡ "kube-root-ca.crt")
    × (meta_back.generate_name ≡ "web-")
    × (meta_back.cluster_name ≡ "tenant")
    × (meta_back.other ≡ 2)
    × (check_uw_object_meta_equality equality meta_p meta_back ≡ none)
check_uw_object_meta_equality_lem_example =
    check_uw_object_meta_equality_lem equality meta_p meta_v meta_p-IsMap meta_v-IsMap

abbrev pod_after : Pod
pod_after = settle pod_p (check_pod_equality equality pod_p pod_v)

check_pod_equality_converges_example :
    IsMetaBelow equality meta_p meta_v pod_after.object_meta
    × (pod_after.spec ≡ spec_below equality pod_p.spec pod_v.spec)
    × (pod_after.status ≡ pod_p.status)
    × (check_pod_equality equality pod_after pod_v ≡ none)
check_pod_equality_converges_example =
    check_pod_equality_converges equality pod_p pod_v pod_p-IsPod pod_v-IsPod containers-IsCovered
      (λ k h. refl)

abbrev ingress : ℕ → ℕ → Whole ℕ ℕ ℕ
ingress meta content = record { type_meta = 0; object_meta = meta; content = content }

abbrev ingress_after : Whole ℕ ℕ ℕ
ingress_after = settle (ingress 1 2) (check_ingress_equality (ingress 1 2) (ingress 3 4))

-- An order of visits: that of the list.
abbrev in_order : Order PodCondition
in_order m = m

in_order-IsOrder : IsOrder {V = PodCondition} in_order
in_order-IsOrder = record { entries = λ m d. Found-self m d; keeps = λ k m. refl }

abbrev status_below : PodStatus
status_below =
    settle pod_p.status (check_dw_pod_condition_equality same_status in_order pod_p pod_v)

abbrev status_above : PodStatus
status_above = settle pod_v.status (check_uw_pod_status_equality same_status in_order pod_p pod_v)

pod_conditions_lem_example :
    (condition_of "ready/own" status_below.conditions ≡ (
      if is_gate_of pod_v "ready/own"
      then first_of
          (condition_of "ready/own" pod_v.status.conditions)
          (condition_of "ready/own" pod_p.status.conditions)
      else condition_of "ready/own" pod_p.status.conditions))
    × (condition_of "ready/own" status_above.conditions ≡ (
        if is_gate_of pod_v "ready/own"
        then first_of
            (condition_of "ready/own" pod_v.status.conditions)
            (condition_of "ready/own" pod_p.status.conditions)
        else if is_gate_of pod_p "ready/own"
        then none
        else condition_of "ready/own" pod_p.status.conditions))
    × (status_below.other ≡ 14)
    × (status_above.other ≡ 14)
pod_conditions_lem_example =
    pod_conditions_lem same_status same_status_iff in_order pod_p pod_v "ready/own" in_order-IsOrder
      conditions_p-DistinctTypes conditions_v-DistinctTypes

abbrev config_map_after : ConfigMap
config_map_after =
    let (p, update) = check_config_map_equality gates equality config_map_p config_map_v in
    settle p update

check_config_map_equality_converges_example :
    IsMetaBelow equality
      (record meta_p {
        name =
            if gates.root_ca_cert_config_map_support && str_eq "kube-root-ca.crt" "kube-root-ca.crt"
            then "tenant-kube-root-ca.crt"
            else "kube-root-ca.crt";
      })
      meta_v
      config_map_after.object_meta
    × ((k : String) → lookup k config_map_after.data_texts ≡ lookup k texts)
    × ((k : String) → lookup k config_map_after.binary_data ≡ lookup k texts)
    × (config_map_after.other ≡ 3)
    × (check_config_map_equality gates equality config_map_after config_map_v
        ≡ (config_map_after, none))
check_config_map_equality_converges_example =
    check_config_map_equality_converges gates equality config_map_p config_map_v meta_p-IsMap
      meta_v-IsMap texts-Distinct texts-Distinct

abbrev secret_after : Secret
secret_after = settle secret_p (check_secret_equality equality secret_p secret_v)

check_secret_equality_converges_example :
    let token = str_eq "Opaque" secret_type_service_account_token in
    ((k : String)
      → lookup k secret_after.object_meta.labels
        ≡ wanted_below equality meta_p.labels meta_v.labels k)
    × ((k : String)
        → lookup k secret_after.object_meta.annotations
          ≡ wanted_below equality meta_p.annotations meta_v.annotations k)
    × (secret_after.object_meta.generate_name
        ≡ (if token then meta_p.generate_name else meta_v.generate_name))
    × (secret_after.object_meta.cluster_name
        ≡ (if token then meta_p.cluster_name else meta_v.cluster_name))
    × ((k : String)
        → lookup k secret_after.string_data
          ≡ lookup k (if token then secret_p.string_data else texts))
    × ((k : String)
        → lookup k secret_after.data_bytes
          ≡ lookup k (if token then secret_p.data_bytes else texts))
    × (secret_after.object_meta.name ≡ "web")
    × (secret_after.object_meta.other ≡ 1)
    × (secret_after.type ≡ "Opaque")
    × (secret_after.other ≡ 5)
    × (check_secret_equality equality secret_after secret_v ≡ none)
check_secret_equality_converges_example =
    check_secret_equality_converges equality secret_p secret_v meta_p-IsMap meta_v-IsMap
      texts-Distinct texts-Distinct

abbrev service_after : Service
service_after = settle service_p (check_service_equality gates equality service_p service_v)

check_service_equality_converges_example :
    (service_after.object_meta
      ≡ settle meta_p (check_dw_object_meta_equality equality meta_p meta_v))
    × IsSpec gates service_p.spec service_v.spec service_after.spec
    × (service_after.other ≡ 10)
    × (check_service_equality gates equality service_after service_v ≡ none)
check_service_equality_converges_example =
    check_service_equality_converges gates equality service_p service_v meta_p-IsMap meta_v-IsMap

-- The port 443 had the node port 30443, and is now given that of the port 80 which is gone.
moved_port :
    first_ports (length service_v.spec.ports) (node_ports service_p.spec.ports) ≡ pos 30080 ∷ []
unfolding first_ports
moved_port = refl

abbrev ends_p : Endpoints
ends_p = endpoints "tenant-default" "1" []

abbrev ends_v : Endpoints
ends_v = endpoints "default" "2" (address "default" "3" ∷ [])

check_endpoints_equality_lem_example :
    let (p', v', update) = check_endpoints_equality ends_p ends_v in
    let settled = settle p' update in
    IsCleared ends_p.subsets p'.subsets
    × IsCleared ends_v.subsets v'.subsets
    × (p'.other ≡ 20)
    × (v'.other ≡ 20)
    × ((update ≡ none) ↔ (p'.subsets ≡ v'.subsets))
    × (settled.subsets ≡ v'.subsets)
    × (settled.other ≡ 20)
    × (check_endpoints_equality settled v' ≡ (settled, v', none))
check_endpoints_equality_lem_example = check_endpoints_equality_lem ends_p ends_v
