-- ===== src/Syncer/Contents/Maps.antt =====
-- `checkMapEquality` and `CheckBinaryDataEquality`: what they leave in a map.
use cluster_api_provider_nes.Base.{
  String, ◌≡◌, inl, inr, Bool-cases, true, [], arith, Dict, lookup, Distinct,
}
use cluster_api_provider_nes.Syncer.KeyValues.Loops.{lookup-insert_each}
use cluster_api_provider_nes.Syncer.KeyValues.Downward.{settled}
use cluster_api_provider_nes.Syncer.Contents.{Kinds, check_map_equality, check_binary_data_equality}

module _ ⦃K : Kinds⦄ where
  open K use {
    MetaOther, Other, Bytes, Quantity, nothing, same_quantity, same_quantity_iff, same_texts,
    same_texts_iff, same_bytes, same_bytes_iff,
  }

  pub lookup-check_map_equality :
      (p v : Dict String) (k : String)
      → Distinct v
      → lookup k (settled p (check_map_equality p v)) ≡ lookup k v
  unfolding check_map_equality
  lookup-check_map_equality p v k d = elim (Bool-cases (same_texts p v)) [
    | inl h ↦ rw h ((same_texts_iff p v).0 h k)
    | inr h ↦ rw h (ground (arith, lookup-insert_each k v [] d))
  ]

  pub check_map_equality_same :
      (p v : Dict String)
      → ((k : String) → lookup k p ≡ lookup k v)
      → (check_map_equality p v).1 ≡ true
  unfolding check_map_equality
  check_map_equality_same p v h = rw ((same_texts_iff p v).1 h)

  pub lookup-check_binary_data_equality :
      (p v : Dict Bytes) (k : String)
      → Distinct v
      → lookup k (settled p (check_binary_data_equality p v)) ≡ lookup k v
  unfolding check_binary_data_equality
  lookup-check_binary_data_equality p v k d = elim (Bool-cases (same_bytes p v)) [
    | inl h ↦ rw h ((same_bytes_iff p v).0 h k)
    | inr h ↦ rw h (ground (arith, lookup-insert_each k v [] d))
  ]

  pub check_binary_data_equality_same :
      (p v : Dict Bytes)
      → ((k : String) → lookup k p ≡ lookup k v)
      → (check_binary_data_equality p v).1 ≡ true
  unfolding check_binary_data_equality
  check_binary_data_equality_same p v h = rw ((same_bytes_iff p v).1 h)
