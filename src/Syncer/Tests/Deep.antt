-- ===== src/Syncer/Tests/Deep.antt =====
-- `DeepEqual` at the types of the tests.
use text.Mathlib.Text.{◌==◌ as str_eq}
use text.Mathlib.TextEquality.{eq_iff}
use cluster_api_provider_nes.Base.{
  ℕ, String, ◌≡◌, ◌↔◌, refl, Bool, true, false, ◌&&◌, ◌==◌, Option, none, some, List, [], ◌∷◌,
  arith,
}
use cluster_api_provider_nes.Syncer.Pods.{eq_ℤ, PodCondition, PodStatus}
use cluster_api_provider_nes.Syncer.Services.{
  DeepEqual, ServicePort, ServiceSpec, EndpointSubset, EndpointAddress, ObjectReference,
}
use cluster_api_provider_nes.Syncer.Whole.{Whole}
use cluster_api_provider_nes.Syncer.Tests.{
  numbered_rests, numbered_parts, same_value, same_value_iff,
}

abbrev pub Decides : {A : Type 0} → (A → A → Bool) → Type 0
Decides {A} same = (a b : A) → (same a b ≡ true) ↔ (a ≡ b)

abbrev pub same_list : {A : Type 0} → (A → A → Bool) → List A → List A → Bool
same_list same [] [] = true
same_list same (x ∷ xs) (y ∷ ys) = same x y && same_list same xs ys
same_list same (x ∷ xs) [] = false
same_list same [] (y ∷ ys) = false

pub same_list_iff : {A : Type 0} (same : A → A → Bool) → Decides same → Decides (same_list same)
same_list_iff same d [] [] = ((λ h. refl), λ h. refl)
same_list_iff same d (x ∷ xs) (y ∷ ys) = (
  (λ h. ground (arith, h, d x y, same_list_iff same d xs ys)),
  (λ h. ground (arith, h, d x y, same_list_iff same d xs ys)),
)
same_list_iff same d (x ∷ xs) [] =
    ((λ h. absurd (ground (arith, h))), λ h. absurd (ground (arith, h)))
same_list_iff same d [] (y ∷ ys) =
    ((λ h. absurd (ground (arith, h))), λ h. absurd (ground (arith, h)))

abbrev pub same_texts : List String → List String → Bool
same_texts = same_list str_eq

pub same_texts_iff : Decides same_texts
same_texts_iff = same_list_iff str_eq eq_iff

pub eq_ℤ_iff : Decides eq_ℤ
eq_ℤ_iff a b = ((λ h. ground (arith, h)), λ h. ground (arith, h))

abbrev pub same_port : ServicePort → ServicePort → Bool
same_port a b = eq_ℤ a.node_port b.node_port && a.other == b.other

pub same_port_iff : Decides same_port
same_port_iff a b = (
  (λ h. ground (arith, h, eq_ℤ_iff a.node_port b.node_port)),
  (λ h. ground (arith, h, eq_ℤ_iff a.node_port b.node_port)),
)

abbrev pub same_spec : ServiceSpec → ServiceSpec → Bool
same_spec a b =
    str_eq a.cluster_ip b.cluster_ip
    && (same_texts a.cluster_ips b.cluster_ips
        && (same_texts a.ip_families b.ip_families
            && (same_value a.ip_family_policy b.ip_family_policy
                && (same_texts a.external_ips b.external_ips
                    && (eq_ℤ a.health_check_node_port b.health_check_node_port
                        && (same_list same_port a.ports b.ports && a.other == b.other))))))

pub same_spec_iff : Decides same_spec
same_spec_iff a b = (
  (λ h. ground (
    arith,
    h,
    eq_iff a.cluster_ip b.cluster_ip,
    same_texts_iff a.cluster_ips b.cluster_ips,
    same_texts_iff a.ip_families b.ip_families,
    same_value_iff a.ip_family_policy b.ip_family_policy,
    same_texts_iff a.external_ips b.external_ips,
    eq_ℤ_iff a.health_check_node_port b.health_check_node_port,
    same_list_iff same_port same_port_iff a.ports b.ports,
  )),
  (λ h. ground (
    arith,
    h,
    eq_iff a.cluster_ip b.cluster_ip,
    same_texts_iff a.cluster_ips b.cluster_ips,
    same_texts_iff a.ip_families b.ip_families,
    same_value_iff a.ip_family_policy b.ip_family_policy,
    same_texts_iff a.external_ips b.external_ips,
    eq_ℤ_iff a.health_check_node_port b.health_check_node_port,
    same_list_iff same_port same_port_iff a.ports b.ports,
  )),
)

instance abbrev pub deep_spec : DeepEqual ServiceSpec
deep_spec = record { same = same_spec; same_iff = same_spec_iff }

abbrev pub same_reference : Option ObjectReference → Option ObjectReference → Bool
same_reference none none = true
same_reference (some a) (some b) =
    str_eq a.namespace b.namespace
    && (str_eq a.resource_version b.resource_version && (str_eq a.uid b.uid && a.other == b.other))
same_reference (some a) none = false
same_reference none (some b) = false

pub same_reference_iff : Decides same_reference
same_reference_iff none none = ((λ h. refl), λ h. refl)
same_reference_iff (some a) (some b) = (
  (λ h. ground (
    arith,
    h,
    eq_iff a.namespace b.namespace,
    eq_iff a.resource_version b.resource_version,
    eq_iff a.uid b.uid,
  )),
  (λ h. ground (
    arith,
    h,
    eq_iff a.namespace b.namespace,
    eq_iff a.resource_version b.resource_version,
    eq_iff a.uid b.uid,
  )),
)
same_reference_iff (some a) none =
    ((λ h. absurd (ground (arith, h))), λ h. absurd (ground (arith, h)))
same_reference_iff none (some b) =
    ((λ h. absurd (ground (arith, h))), λ h. absurd (ground (arith, h)))

abbrev pub same_address : EndpointAddress → EndpointAddress → Bool
same_address a b = same_reference a.target_ref b.target_ref && a.other == b.other

pub same_address_iff : Decides same_address
same_address_iff a b = (
  (λ h. ground (arith, h, same_reference_iff a.target_ref b.target_ref)),
  (λ h. ground (arith, h, same_reference_iff a.target_ref b.target_ref)),
)

abbrev pub same_subset : EndpointSubset → EndpointSubset → Bool
same_subset a b =
    same_list same_address a.addresses b.addresses
    && (same_list same_address a.not_ready_addresses b.not_ready_addresses && a.other == b.other)

pub same_subset_iff : Decides same_subset
same_subset_iff a b = (
  (λ h. ground (
    arith,
    h,
    same_list_iff same_address same_address_iff a.addresses b.addresses,
    same_list_iff same_address same_address_iff a.not_ready_addresses b.not_ready_addresses,
  )),
  (λ h. ground (
    arith,
    h,
    same_list_iff same_address same_address_iff a.addresses b.addresses,
    same_list_iff same_address same_address_iff a.not_ready_addresses b.not_ready_addresses,
  )),
)

instance abbrev pub deep_subsets : DeepEqual (List EndpointSubset)
deep_subsets = record {
  same = same_list same_subset;
  same_iff = same_list_iff same_subset same_subset_iff;
}

abbrev pub same_whole : Whole ℕ ℕ ℕ → Whole ℕ ℕ ℕ → Bool
same_whole a b =
    a.type_meta == b.type_meta && (a.object_meta == b.object_meta && a.content == b.content)

pub same_whole_iff : Decides same_whole
same_whole_iff a b = ((λ h. ground (arith, h)), λ h. ground (arith, h))

instance abbrev pub deep_whole : DeepEqual (Whole ℕ ℕ ℕ)
deep_whole = record { same = same_whole; same_iff = same_whole_iff }

abbrev pub same_condition : PodCondition → PodCondition → Bool
same_condition a b = str_eq a.type b.type && a.other == b.other

pub same_condition_iff : Decides same_condition
same_condition_iff a b =
    ((λ h. ground (arith, h, eq_iff a.type b.type)), (λ h. ground (arith, h, eq_iff a.type b.type)))

abbrev pub same_status : PodStatus → PodStatus → Bool
same_status a b = same_list same_condition a.conditions b.conditions && a.other == b.other

pub same_status_iff : Decides same_status
same_status_iff a b = (
  (λ h.
      ground (arith, h, same_list_iff same_condition same_condition_iff a.conditions b.conditions)),
  (λ h.
      ground (arith, h, same_list_iff same_condition same_condition_iff a.conditions b.conditions)),
)
