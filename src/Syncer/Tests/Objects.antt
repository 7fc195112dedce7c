-- ===== src/Syncer/Tests/Objects.antt =====
-- The objects of the tests: what a tenant has and what the super cluster has of the same object.
use cluster_api_provider_nes.Base.{
  ℕ, String, refl, none, some, List, [], ◌∷◌, Dict, Distinct, dec_eq, true, false, arith,
}
use cluster_api_provider_nes.Base.Int.{pos}
use cluster_api_provider_nes.Syncer.Keys.{VcEquality}
use cluster_api_provider_nes.Syncer.Meta.{ObjectMeta}
use cluster_api_provider_nes.Syncer.Meta.Settled.{IsMap}
use cluster_api_provider_nes.Syncer.Pods.{Container, PodCondition, Pod}
use cluster_api_provider_nes.Syncer.Pods.Images.{IsCovered}
use cluster_api_provider_nes.Syncer.Pods.Converges.{IsPod}
use cluster_api_provider_nes.Syncer.Conditions.Lists.{DistinctTypes}
use cluster_api_provider_nes.Syncer.Contents.{
  FeatureGates, ConfigMap, Secret, PersistentVolumeClaim,
}
use cluster_api_provider_nes.Syncer.Services.{ServicePort, Service, EndpointAddress, Endpoints}
use cluster_api_provider_nes.Syncer.Tests.{listed_sets, numbered_rests, numbered_parts, text_kinds}

abbrev pub equality : VcEquality
equality = record {
  config = some (record { default_opaque_meta_domains = "k8s.io" ∷ [] });
  vc =
      some
        (record { transparent_meta_prefixes = "team" ∷ []; opaque_meta_prefixes = "private" ∷ [] });
}

abbrev pub gates : FeatureGates
gates = record {
  root_ca_cert_config_map_support = true;
  v_service_external_ip = false;
  sync_tenant_pvc_status_phase = true;
}

-- The second key is skipped, and the third is not the tenant's.
abbrev pub labels_below : Dict String
labels_below = ("app", "old") ∷ ("tenancy.x-k8s.io/uid", "1") ∷ ("gone", "x") ∷ []

abbrev pub labels_above : Dict String
labels_above = ("app", "new") ∷ ("zone", "b") ∷ []

pub labels_below-Distinct : Distinct labels_below
unfolding dec_eq
labels_below-Distinct = (refl, (refl, (refl, tt)))

pub labels_above-Distinct : Distinct labels_above
unfolding dec_eq
labels_above-Distinct = (refl, (refl, tt))

abbrev pub meta_p : ObjectMeta ℕ
meta_p = record {
  name = "web";
  generate_name = "web-";
  labels = labels_below;
  annotations = labels_below;
  cluster_name = "";
  other = 1;
}

abbrev pub meta_v : ObjectMeta ℕ
meta_v = record {
  name = "kube-root-ca.crt";
  generate_name = "web-";
  labels = labels_above;
  annotations = labels_above;
  cluster_name = "tenant";
  other = 2;
}

pub meta_p-IsMap : IsMap meta_p
meta_p-IsMap = (labels_below-Distinct, labels_below-Distinct)

pub meta_v-IsMap : IsMap meta_v
meta_v-IsMap = (labels_above-Distinct, labels_above-Distinct)

abbrev pub texts : Dict String
texts = ("key", "value") ∷ []

pub texts-Distinct : Distinct texts
texts-Distinct = (refl, tt)

abbrev pub config_map_p : ConfigMap
config_map_p = record { object_meta = meta_p; data_texts = []; binary_data = texts; other = 3 }

abbrev pub config_map_v : ConfigMap
config_map_v = record { object_meta = meta_v; data_texts = texts; binary_data = texts; other = 4 }

abbrev pub secret_p : Secret
secret_p = record {
  object_meta = meta_p;
  type = "Opaque";
  string_data = [];
  data_bytes = [];
  other = 5;
}

abbrev pub secret_v : Secret
secret_v = record {
  object_meta = meta_v;
  type = "Opaque";
  string_data = texts;
  data_bytes = texts;
  other = 6;
}

abbrev pub claim_p : PersistentVolumeClaim
claim_p = record {
  object_meta = meta_p;
  requests = ("storage", 5) ∷ [];
  capacity = some (("storage", 8) ∷ []);
  phase = "Pending";
  other = 7;
}

abbrev pub claim_v : PersistentVolumeClaim
claim_v = record {
  object_meta = meta_v;
  requests = ("storage", 8) ∷ [];
  capacity = none;
  phase = "Bound";
  other = 8;
}

abbrev pub port : ℕ → ℕ → ServicePort
port n other = record { node_port = pos n; other = other }

abbrev pub service_p : Service
service_p = record {
  object_meta = meta_p;
  spec = record {
    cluster_ip = "10.0.0.1";
    cluster_ips = "10.0.0.1" ∷ [];
    ip_families = "IPv4" ∷ [];
    ip_family_policy = none;
    external_ips = [];
    health_check_node_port = pos 30000;
    ports = port 30080 80 ∷ port 30443 443 ∷ [];
    other = 9;
  };
  other = 10;
}

-- The first of the two ports is no longer wanted.
abbrev pub service_v : Service
service_v = record {
  object_meta = meta_v;
  spec = record {
    cluster_ip = "10.9.0.1";
    cluster_ips = "10.9.0.1" ∷ [];
    ip_families = "IPv4" ∷ [];
    ip_family_policy = none;
    external_ips = [];
    health_check_node_port = pos 0;
    ports = port 31000 443 ∷ [];
    other = 9;
  };
  other = 11;
}

abbrev pub container : String → String → Container
container name image = record { name = name; image = image; other = 12 }

abbrev pub condition : String → ℕ → PodCondition
condition type n = record { type = type; other = n }

abbrev pub pod_p : Pod
pod_p = record {
  object_meta = meta_p;
  spec = record {
    active_deadline_seconds = none;
    containers = container "app" "app:1" ∷ container "proxy" "proxy:1" ∷ [];
    init_containers = [];
    readiness_gates = "ready/own" ∷ [];
    other = 13;
  };
  status = record { conditions = condition "Ready" 1 ∷ condition "ready/own" 2 ∷ []; other = 14 };
}

abbrev pub pod_v : Pod
pod_v = record {
  object_meta = meta_v;
  spec = record {
    active_deadline_seconds = some (pos 60);
    containers = container "app" "app:2" ∷ [];
    init_containers = [];
    readiness_gates = "ready/tenant" ∷ [];
    other = 15;
  };
  status = record { conditions = condition "ready/tenant" 3 ∷ []; other = 16 };
}

pub pod_p-IsPod : IsPod pod_p
unfolding dec_eq
pod_p-IsPod = record { meta = meta_p-IsMap; spec = ((refl, (refl, tt)), tt) }

pub pod_v-IsPod : IsPod pod_v
pod_v-IsPod = record { meta = meta_v-IsMap; spec = ((refl, tt), tt) }

pub containers-IsCovered : IsCovered pod_v.spec.containers pod_p.spec.containers
unfolding dec_eq
containers-IsCovered = λ k h. ground (arith, h)

pub conditions_p-DistinctTypes : DistinctTypes pod_p.status.conditions
unfolding dec_eq
conditions_p-DistinctTypes = (refl, (refl, tt))

pub conditions_v-DistinctTypes : DistinctTypes pod_v.status.conditions
conditions_v-DistinctTypes = (refl, tt)

abbrev pub address : String → String → EndpointAddress
address namespace version = record {
  target_ref =
      some
        (record { namespace = namespace; resource_version = version; uid = version; other = 17 });
  other = 18;
}

abbrev pub endpoints : String → String → List EndpointAddress → Endpoints
endpoints namespace version not_ready = record {
  subsets =
      record {
        addresses = address namespace version ∷ [];
        not_ready_addresses = not_ready;
        other = 19;
      }
      ∷ [];
  other = 20;
}
