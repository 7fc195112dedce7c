-- ===== src/Patrol/Differ/Sorting.antt =====
-- The loop of `Difference`: into which sets it sorts each key.
use cluster_api_provider_nes.Base.{
  sum_by-put, ℕ, ◌+◌, String, ◌≡◌, refl, inl, inr, true, not, ◌&&◌, ◌||◌, [], ◌∷◌, arith,
  if◌then◌else◌, ite, dec_eq, Option-cases, Bool-cases, Dict, lookup, contains, Distinct,
  insert-Distinct, sum_by, sum_by-insert, sum_by-erase,
}
use cluster_api_provider_nes.Patrol.Differ.{
  Imports, ClusterObject, Container, group_of, keys_from, get_keys, Keys, enter, sort_key,
  sort_keys,
}

module _ ⦃I : Imports⦄ where
  open I use {
    Set, new_string, insert_key, delete_key, has_key, visit, has-new, has-insert, has-delete,
    times-visit,
  }

  has-keys_from :
      (k : String) (s : Set) (c : Container)
      → has_key k (keys_from s c) ≡ (contains k c || has_key k s)
  unfolding keys_from
  has-keys_from k s [] = refl
  has-keys_from k s ((j, v) ∷ c) =
      ground (arith, has-keys_from k (insert_key j s) c, has-insert k j s)

  pub has-get_keys : (k : String) (c : Container) → has_key k (get_keys c) ≡ contains k c
  unfolding get_keys
  has-get_keys k c = ground (arith, has-keys_from k new_string c, has-new k)

  -- in how many groups a key is
  abbrev pub member : String → Set → ℕ
  member k s = if has_key k s then 1 else 0

  abbrev pub memberships : String → Dict Set → ℕ
  memberships k grouped = sum_by (member k) grouped

  memberships-enter :
      (k j group : String) (grouped : Dict Set)
      → Distinct grouped
      → memberships j grouped ≡ 0
      → memberships k (enter group j grouped) ≡ memberships k grouped + ite (dec_eq k j) 1 0
  unfolding enter
  memberships-enter k j group grouped d z = elim (Option-cases (lookup group grouped)) [
    | inl e ↦ ground (
      arith,
      sum_by-insert (member k) group (insert_key j new_string) grouped e,
      has-insert k j new_string,
      has-new k,
    )
    | inr (s, e) ↦ ground (
      arith,
      sum_by-put (member k) group (insert_key j s) s grouped d e,
      sum_by-erase (member j) group s grouped d e,
      has-insert k j s,
    )
  ]

  enter-Distinct :
      (j group : String) (grouped : Dict Set) → Distinct grouped → Distinct (enter group j grouped)
  unfolding enter
  enter-Distinct j group grouped d = elim (Option-cases (lookup group grouped)) [
    | inl e ↦ rw (e, enter) (insert-Distinct group (insert_key j new_string) grouped d)
    | inr (s, e) ↦ rw (e, enter) (insert-Distinct group (insert_key j s) grouped d)
  ]

  -- What holds while the keys are sorted: no group has a key that is still in the second set.
  pub record IsSorting (keys : Keys) : Type 0 where
    pub distinct : Distinct keys.grouped
    pub apart : (k : String) → has_key k keys.key_set2 ≡ true → memberships k keys.grouped ≡ 0

  -- What sorting the keys of `c` does to a key.
  pub record Sorted (k : String) (c : Container) (keys keys' : Keys) : Type 0 where
    pub first :
        has_key k keys'.key_set1
        ≡ (has_key k keys.key_set1 && not (contains k c && has_key k keys.key_set2))
    pub second : has_key k keys'.key_set2 ≡ (has_key k keys.key_set2 && not (contains k c))
    pub both :
        memberships k keys'.grouped
        ≡ memberships k keys.grouped + (if contains k c && has_key k keys.key_set2 then 1 else 0)

  sort_key-IsSorting :
      (set2 : Container) (j : String) (v : ClusterObject) (keys : Keys)
      → IsSorting keys
      → IsSorting (sort_key set2 j v keys)
  unfolding sort_key
  sort_key-IsSorting set2 j v keys s = elim (Bool-cases (has_key j keys.key_set2)) [
    | inl e ↦
        rw (e, sort_key)
          (record {
            distinct = enter-Distinct j (group_of j v set2) keys.grouped s.distinct;
            apart = λ k h. ground (
              arith,
              h,
              has-delete k j keys.key_set2,
              s.apart k,
              s.apart j e,
              memberships-enter k j (group_of j v set2) keys.grouped s.distinct,
            );
          })
    | inr e ↦ rw (e, sort_key) s
  ]

  pub sort_keys-Sorted :
      (k : String) (set2 c : Container) (keys : Keys)
      → Distinct c
      → IsSorting keys
      → Sorted k c keys (sort_keys set2 c keys)
  unfolding sort_keys sort_key
  sort_keys-Sorted k set2 [] keys d s = record {
    first = ground arith;
    second = ground arith;
    both = ground arith;
  }
  sort_keys-Sorted k set2 ((j, v) ∷ c) keys d s =
      let keys' = sort_key set2 j v keys in
      let rest = sort_keys-Sorted k set2 c keys' d.1 (sort_key-IsSorting set2 j v keys s) in
      record {
        first =
            ground
              (arith, rest.first, d.0, has-delete k j keys.key_set1, has-delete k j keys.key_set2);
        second = ground (arith, rest.second, d.0, has-delete k j keys.key_set2);
        both = ground (
          arith,
          rest.both,
          d.0,
          has-delete k j keys.key_set2,
          s.apart j,
          memberships-enter k j (group_of j v set2) keys.grouped s.distinct,
        );
      }
