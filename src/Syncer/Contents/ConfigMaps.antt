-- ===== src/Syncer/Contents/ConfigMaps.antt =====
-- `CheckConfigMapEquality`: what it makes of a config map, and that checking again finds nothing.
use cluster_api_provider_nes.Base.{
  if◌then◌else◌, ◌&&◌, String, ◌≡◌, refl, sym, ap, true, none, arith, lookup, Distinct,
}
use cluster_api_provider_nes.Syncer.Keys.{StringSets, VcEquality}
use cluster_api_provider_nes.Syncer.KeyValues.Downward.{settled}
use cluster_api_provider_nes.Syncer.Meta.{settle, check_dw_object_meta_equality}
use cluster_api_provider_nes.Syncer.Meta.Settled.{
  IsMap, IsMetaBelow, meta_below-IsMetaBelow, meta_below, settle-check_dw_object_meta_equality,
  meta_below_converges,
}
use cluster_api_provider_nes.Syncer.Contents.{
  str_eq, FeatureGates, Kinds, get_config_map_name, ConfigMap, check_map_equality,
  check_binary_data_equality, check_config_map_equality,
}
use cluster_api_provider_nes.Syncer.Contents.Maps.{
  lookup-check_map_equality, check_map_equality_same, lookup-check_binary_data_equality,
  check_binary_data_equality_same,
}

module _ ⦃K : Kinds⦄ ⦃S : StringSets⦄ where
  -- the object of the super cluster with the name that it is to have
  abbrev renamed : FeatureGates → ConfigMap → ConfigMap → ConfigMap
  renamed gates p v = record p {
    object_meta = record (p.object_meta) {
      name = (get_config_map_name gates v.object_meta.name).1;
    };
  }

  abbrev config_map_below : FeatureGates → VcEquality → ConfigMap → ConfigMap → ConfigMap
  config_map_below gates e p v = record p {
    object_meta = meta_below e (renamed gates p v).object_meta v.object_meta;
    data_texts = settled p.data_texts (check_map_equality p.data_texts v.data_texts);
    binary_data = settled p.binary_data (check_binary_data_equality p.binary_data v.binary_data);
  }

  settle-check_config_map_equality :
      (gates : FeatureGates) (e : VcEquality) (p v : ConfigMap)
      → let r = check_config_map_equality gates e p v in
        settle r.0 r.1 ≡ config_map_below gates e p v
  unfolding check_config_map_equality
  settle-check_config_map_equality gates e p v =
      ground (
        arith,
        settle-check_dw_object_meta_equality e (renamed gates p v).object_meta v.object_meta,
      )

  config_map_again :
      (gates : FeatureGates) (e : VcEquality) (p v : ConfigMap)
      → (p.object_meta.name ≡ (get_config_map_name gates v.object_meta.name).1)
      → (check_dw_object_meta_equality e p.object_meta v.object_meta ≡ none)
      → ((check_map_equality p.data_texts v.data_texts).1 ≡ true)
      → ((check_binary_data_equality p.binary_data v.binary_data).1 ≡ true)
      → check_config_map_equality gates e p v ≡ (p, none)
  unfolding check_config_map_equality
  config_map_again gates e p v n m t b =
      let named : renamed gates p v ≡ p =
        ap (λ n. record p { object_meta = record (p.object_meta) { name = n } }) (sym n) in
      ground (arith, named, m, t, b)

  named-get_config_map_name :
      (gates : FeatureGates) (name : String)
      → (get_config_map_name gates name).1 ≡ (
          if gates.root_ca_cert_config_map_support && str_eq name "kube-root-ca.crt"
          then "tenant-kube-root-ca.crt"
          else name)
  unfolding get_config_map_name
  named-get_config_map_name gates name = ground arith

  -- A config map in the super cluster, once the name and the update that the check gives have been
  -- applied, has the tenant's name, but the one of its own for the certificate of the root if the
  -- feature gate is on. It has the tenant's generated name, cluster name, labels and annotations, but
  -- for keys that are skipped, and under each key of its data and of its binary data what the
  -- tenant's has. It is as before in all else, and checking it again finds nothing to do.
  pub check_config_map_equality_converges :
      (gates : FeatureGates) (e : VcEquality) (p v : ConfigMap)
      → IsMap p.object_meta
      → IsMap v.object_meta
      → Distinct v.data_texts
      → Distinct v.binary_data
      → let r = check_config_map_equality gates e p v in
        let p' = settle r.0 r.1 in
        let name : String =
          (if gates.root_ca_cert_config_map_support && str_eq v.object_meta.name "kube-root-ca.crt"
            then "tenant-kube-root-ca.crt"
            else v.object_meta.name) in
        IsMetaBelow e (record (p.object_meta) { name = name }) v.object_meta p'.object_meta
        × ((k : String) → lookup k p'.data_texts ≡ lookup k v.data_texts)
        × ((k : String) → lookup k p'.binary_data ≡ lookup k v.binary_data)
        × (p'.other ≡ p.other)
        × (check_config_map_equality gates e p' v ≡ (p', none))
  check_config_map_equality_converges gates e p v mp mv dt db =
      let same = settle-check_config_map_equality gates e p v in
      (
        rw same (
            rw (← named-get_config_map_name gates v.object_meta.name)
              (meta_below-IsMetaBelow e (renamed gates p v).object_meta v.object_meta mp mv)),
        (λ k. rw same (lookup-check_map_equality p.data_texts v.data_texts k dt)),
        (λ k. rw same (lookup-check_binary_data_equality p.binary_data v.binary_data k db)),
        rw same,
        rw same (
            config_map_again gates e (config_map_below gates e p v) v refl
              (meta_below_converges e (renamed gates p v).object_meta v.object_meta mp mv)
              (check_map_equality_same _ _
                (λ k. lookup-check_map_equality p.data_texts v.data_texts k dt))
              (check_binary_data_equality_same _ _
                (λ k. lookup-check_binary_data_equality p.binary_data v.binary_data k db))),
      )
