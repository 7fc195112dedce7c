-- ===== src/Syncer/Contents/Secrets.antt =====
-- `CheckSecretEquality`: what it makes of a secret, and that checking again finds nothing.
use text.Mathlib.Text.{◌==◌ as str_eq}
use cluster_api_provider_nes.Base.{
  String, ◌≡◌, ap, ◌∙◌, inl, inr, Bool-cases, Bool, true, false, none, arith, if◌then◌else◌, lookup,
  Distinct,
}
use cluster_api_provider_nes.Syncer.Keys.{StringSets, VcEquality}
use cluster_api_provider_nes.Syncer.KeyValues.{check_dw_kv_equality}
use cluster_api_provider_nes.Syncer.KeyValues.Downward.{
  settled, wanted_below, check_dw_kv_equality_lem, check_dw_kv_equality_converges,
}
use cluster_api_provider_nes.Syncer.Meta.{settle, check_dw_object_meta_equality}
use cluster_api_provider_nes.Syncer.Meta.Settled.{
  IsMap, meta_below, settle-check_dw_object_meta_equality, meta_below_converges,
}
use cluster_api_provider_nes.Syncer.Contents.{
  Kinds, Secret, check_map_equality, check_binary_data_equality, check_token_equality,
  check_secret_equality, secret_type_service_account_token,
}
use cluster_api_provider_nes.Syncer.Contents.Maps.{
  lookup-check_map_equality, check_map_equality_same, lookup-check_binary_data_equality,
  check_binary_data_equality_same,
}

module _ ⦃K : Kinds⦄ ⦃S : StringSets⦄ where
  abbrev is_token : Secret → Bool
  is_token s = str_eq s.type secret_type_service_account_token

  -- A secret that is the token of a service account keeps its data.
  abbrev secret_below : VcEquality → Secret → Secret → Secret
  secret_below e p v =
      let m = p.object_meta in
      if is_token v
      then record p {
        object_meta = record m {
          labels = settled m.labels (check_dw_kv_equality e m.labels v.object_meta.labels);
          annotations =
              settled m.annotations
                (check_dw_kv_equality e m.annotations v.object_meta.annotations);
        };
      }
      else record p {
        object_meta = meta_below e m v.object_meta;
        string_data = settled p.string_data (check_map_equality p.string_data v.string_data);
        data_bytes = settled p.data_bytes (check_binary_data_equality p.data_bytes v.data_bytes);
      }

  settle-check_token_equality :
      (e : VcEquality) (p v : Secret)
      → settle p (check_token_equality e p v) ≡ record p {
        object_meta = record (p.object_meta) {
          labels =
              settled p.object_meta.labels
                (check_dw_kv_equality e p.object_meta.labels v.object_meta.labels);
          annotations =
              settled p.object_meta.annotations
                (check_dw_kv_equality e p.object_meta.annotations v.object_meta.annotations);
        };
      }
  unfolding check_token_equality
  settle-check_token_equality e p v = ground arith

  settle-check_secret_equality :
      (e : VcEquality) (p v : Secret) → settle p (check_secret_equality e p v) ≡ secret_below e p v
  unfolding check_secret_equality
  settle-check_secret_equality e p v = ground (
    arith,
    settle-check_token_equality e p v,
    settle-check_dw_object_meta_equality e p.object_meta v.object_meta,
  )

  token_again :
      (e : VcEquality) (p v : Secret)
      → ((check_dw_kv_equality e p.object_meta.labels v.object_meta.labels).1 ≡ true)
      → ((check_dw_kv_equality e p.object_meta.annotations v.object_meta.annotations).1 ≡ true)
      → check_token_equality e p v ≡ none
  unfolding check_token_equality
  token_again e p v l a = ground arith

  secret_again :
      (e : VcEquality) (p v : Secret)
      → (is_token v ≡ false)
      → (check_dw_object_meta_equality e p.object_meta v.object_meta ≡ none)
      → ((check_map_equality p.string_data v.string_data).1 ≡ true)
      → ((check_binary_data_equality p.data_bytes v.data_bytes).1 ≡ true)
      → check_secret_equality e p v ≡ none
  unfolding check_secret_equality
  secret_again e p v k m t b = ground (arith, k, m, t, b)

  token_secret :
      (e : VcEquality) (p v : Secret)
      → (is_token v ≡ true)
      → check_secret_equality e p v ≡ check_token_equality e p v
  unfolding check_secret_equality
  token_secret e p v k = ground (arith, k)

  secret_below_converges :
      (e : VcEquality) (p v : Secret)
      → IsMap p.object_meta
      → IsMap v.object_meta
      → Distinct v.string_data
      → Distinct v.data_bytes
      → check_secret_equality e (secret_below e p v) v ≡ none
  secret_below_converges e p v mp mv dt db = elim (Bool-cases (is_token v)) [
    | inl h ↦
        token_secret e (secret_below e p v) v h
        ∙ rw h (
            token_again e _ v
              (ap (λ r. r.1)
                (check_dw_kv_equality_converges e p.object_meta.labels v.object_meta.labels mp.0
                  mv.0))
              (ap (λ r. r.1)
                (check_dw_kv_equality_converges e p.object_meta.annotations
                  v.object_meta.annotations mp.1 mv.1)))
    | inr h ↦ rw h (
        secret_again e _ v h (meta_below_converges e p.object_meta v.object_meta mp mv)
          (check_map_equality_same _ _
            (λ k. lookup-check_map_equality p.string_data v.string_data k dt))
          (check_binary_data_equality_same _ _
            (λ k. lookup-check_binary_data_equality p.data_bytes v.data_bytes k db)))
  ]

  -- A secret in the super cluster, once the update that the check gives has been applied, has the
  -- tenant's labels and annotations, but for keys that are skipped. If the tenant's secret is the
  -- token of a service account it is as before in all else; if it is not, it has also the tenant's
  -- generated name and cluster name, and under each key of its data what the tenant's has, and is
  -- as before in all else. Checking it again finds nothing to do.
  pub check_secret_equality_converges :
      (e : VcEquality) (p v : Secret)
      → IsMap p.object_meta
      → IsMap v.object_meta
      → Distinct v.string_data
      → Distinct v.data_bytes
      → let p' = settle p (check_secret_equality e p v) in
        let token = str_eq v.type secret_type_service_account_token in
        ((k : String)
          → lookup k p'.object_meta.labels
            ≡ wanted_below e p.object_meta.labels v.object_meta.labels k)
        × ((k : String)
            → lookup k p'.object_meta.annotations
              ≡ wanted_below e p.object_meta.annotations v.object_meta.annotations k)
        × (p'.object_meta.generate_name
            ≡ (if token then p.object_meta.generate_name else v.object_meta.generate_name))
        × (p'.object_meta.cluster_name
            ≡ (if token then p.object_meta.cluster_name else v.object_meta.cluster_name))
        × ((k : String)
            → lookup k p'.string_data ≡ lookup k (if token then p.string_data else v.string_data))
        × ((k : String)
            → lookup k p'.data_bytes ≡ lookup k (if token then p.data_bytes else v.data_bytes))
        × (p'.object_meta.name ≡ p.object_meta.name)
        × (p'.object_meta.other ≡ p.object_meta.other)
        × (p'.type ≡ p.type)
        × (p'.other ≡ p.other)
        × (check_secret_equality e p' v ≡ none)
  check_secret_equality_converges e p v mp mv dt db =
      let same = settle-check_secret_equality e p v in
      let l = check_dw_kv_equality_lem e p.object_meta.labels v.object_meta.labels mp.0 mv.0 in
      let a =
        check_dw_kv_equality_lem e p.object_meta.annotations v.object_meta.annotations mp.1 mv.1 in
      (
        (λ k. rw same (ground (arith, l.1 k))),
        (λ k. rw same (ground (arith, a.1 k))),
        rw same (ground arith),
        rw same (ground arith),
        (λ k. rw same (ground (arith, lookup-check_map_equality p.string_data v.string_data k dt))),
        (λ k.
            rw same
              (ground (arith, lookup-check_binary_data_equality p.data_bytes v.data_bytes k db))),
        rw same (ground arith),
        rw same (ground arith),
        rw same (ground arith),
        rw same (ground arith),
        rw same (secret_below_converges e p v mp mv dt db),
      )
