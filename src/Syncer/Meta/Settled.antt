-- ===== src/Syncer/Meta/Settled.antt =====
-- What the metadata of an object come to be by the checks.
use text.Mathlib.TextEquality.{eq_iff}
use cluster_api_provider_nes.Base.{String, ◌≡◌, refl, ap, ◌↔◌, true, none, arith, lookup, Distinct}
use cluster_api_provider_nes.Syncer.Keys.{StringSets, VcEquality}
use cluster_api_provider_nes.Syncer.KeyValues.{check_dw_kv_equality, check_uw_kv_equality}
use cluster_api_provider_nes.Syncer.KeyValues.Downward.{
  settled, wanted_below, check_dw_kv_equality_lem, check_dw_kv_equality_converges,
}
use cluster_api_provider_nes.Syncer.KeyValues.Upward.{
  wanted_above, check_uw_kv_equality_lem, check_uw_kv_equality_converges,
}
use cluster_api_provider_nes.Syncer.Meta.{
  ObjectMeta, settle, check_dw_object_meta_equality, check_uw_object_meta_equality,
}

module _ {Other : Type 0} where
  -- No key of the labels or annotations has two entries.
  abbrev pub IsMap : ObjectMeta Other → Type 0
  IsMap m = Distinct m.labels × Distinct m.annotations

module _ {Other : Type 0} ⦃S : StringSets⦄ where
  -- what `CheckDWObjectMetaEquality` makes of the metadata, in one step
  abbrev pub meta_below : VcEquality → ObjectMeta Other → ObjectMeta Other → ObjectMeta Other
  meta_below e p v = record p {
    generate_name = v.generate_name;
    labels = settled p.labels (check_dw_kv_equality e p.labels v.labels);
    annotations = settled p.annotations (check_dw_kv_equality e p.annotations v.annotations);
    cluster_name = v.cluster_name;
  }

  pub settle-check_dw_object_meta_equality :
      (e : VcEquality) (p v : ObjectMeta Other)
      → settle p (check_dw_object_meta_equality e p v) ≡ meta_below e p v
  unfolding check_dw_object_meta_equality
  settle-check_dw_object_meta_equality e p v =
      ground (arith, eq_iff p.generate_name v.generate_name, eq_iff p.cluster_name v.cluster_name)

  -- The check gives nothing exactly when nothing differs.
  pub check_dw_object_meta_equality-none :
      (e : VcEquality) (p v : ObjectMeta Other)
      → (p.generate_name ≡ v.generate_name)
      → (p.cluster_name ≡ v.cluster_name)
      → ((check_dw_kv_equality e p.labels v.labels).1 ≡ true)
      → ((check_dw_kv_equality e p.annotations v.annotations).1 ≡ true)
      → check_dw_object_meta_equality e p v ≡ none
  unfolding check_dw_object_meta_equality
  check_dw_object_meta_equality-none e p v g c l a =
      ground (arith, eq_iff p.generate_name v.generate_name, eq_iff p.cluster_name v.cluster_name)

  pub meta_below_converges :
      (e : VcEquality) (p v : ObjectMeta Other)
      → IsMap p
      → IsMap v
      → check_dw_object_meta_equality e (meta_below e p v) v ≡ none
  meta_below_converges e p v mp mv =
      check_dw_object_meta_equality-none e (meta_below e p v) v (refl) (refl)
        (ap (λ r. r.1) (check_dw_kv_equality_converges e p.labels v.labels mp.0 mv.0))
        (ap (λ r. r.1) (check_dw_kv_equality_converges e p.annotations v.annotations mp.1 mv.1))

  -- `p` has all that the downward check looks at as it is to be.
  pub record IsSynced (e : VcEquality) (p v : ObjectMeta Other) : Type 0 where
    pub generate_name : p.generate_name ≡ v.generate_name
    pub cluster_name : p.cluster_name ≡ v.cluster_name
    pub labels : (k : String) → lookup k p.labels ≡ wanted_below e p.labels v.labels k
    pub annotations :
        (k : String) → lookup k p.annotations ≡ wanted_below e p.annotations v.annotations k

  -- What the metadata `m` are to be, from what the super cluster's were and the tenant's.
  pub record IsMetaBelow (e : VcEquality) (p v m : ObjectMeta Other) : Type 0 where
    pub name : m.name ≡ p.name
    pub generate_name : m.generate_name ≡ v.generate_name
    pub labels : (k : String) → lookup k m.labels ≡ wanted_below e p.labels v.labels k
    pub annotations :
        (k : String) → lookup k m.annotations ≡ wanted_below e p.annotations v.annotations k
    pub cluster_name : m.cluster_name ≡ v.cluster_name
    pub other : m.other ≡ p.other

  pub meta_below-IsMetaBelow :
      (e : VcEquality) (p v : ObjectMeta Other)
      → IsMap p
      → IsMap v
      → IsMetaBelow e p v (meta_below e p v)
  meta_below-IsMetaBelow e p v mp mv = record {
    name = refl;
    generate_name = refl;
    labels = (check_dw_kv_equality_lem e p.labels v.labels mp.0 mv.0).1;
    annotations = (check_dw_kv_equality_lem e p.annotations v.annotations mp.1 mv.1).1;
    cluster_name = refl;
    other = refl;
  }

  IsSynced-none :
      (e : VcEquality) (p v : ObjectMeta Other)
      → IsMap p
      → IsMap v
      → check_dw_object_meta_equality e p v ≡ none
      → IsSynced e p v
  unfolding check_dw_object_meta_equality
  IsSynced-none e p v mp mv h = record {
    generate_name = ground (arith, h, eq_iff p.generate_name v.generate_name);
    cluster_name = ground (arith, h, eq_iff p.cluster_name v.cluster_name);
    labels = (check_dw_kv_equality_lem e p.labels v.labels mp.0 mv.0).0.0 (ground (arith, h));
    annotations =
        (check_dw_kv_equality_lem e p.annotations v.annotations mp.1 mv.1).0.0 (ground (arith, h));
  }

  meta_below-IsSynced :
      (e : VcEquality) (p v : ObjectMeta Other)
      → IsMap p
      → IsMap v
      → IsSynced e (meta_below e p v) v
  meta_below-IsSynced e p v mp mv = record {
    generate_name = refl;
    cluster_name = refl;
    labels = λ k. ground (arith, (check_dw_kv_equality_lem e p.labels v.labels mp.0 mv.0).1 k);
    annotations =
        λ k. ground (arith, (check_dw_kv_equality_lem e p.annotations v.annotations mp.1 mv.1).1 k);
  }

  -- The downward check of metadata gives nothing exactly when the object in the super cluster has
  -- the tenant's generated name, cluster name, labels and annotations, but for the keys that are
  -- skipped. An update that it gives, once applied, brings this about, leaves the keys that are
  -- skipped and everything else as it was, and the next check gives nothing.
  pub check_dw_object_meta_equality_lem :
      (e : VcEquality) (p v : ObjectMeta Other)
      → IsMap p
      → IsMap v
      → let m = settle p (check_dw_object_meta_equality e p v) in
        ((check_dw_object_meta_equality e p v ≡ none) ↔ IsSynced e p v)
        × IsSynced e m v
        × ((k : String) → lookup k m.labels ≡ wanted_below e p.labels v.labels k)
        × ((k : String) → lookup k m.annotations ≡ wanted_below e p.annotations v.annotations k)
        × (m.name ≡ p.name)
        × (m.other ≡ p.other)
        × (check_dw_object_meta_equality e m v ≡ none)
  check_dw_object_meta_equality_lem e p v mp mv =
      let m = meta_below e p v in
      let same : settle p (check_dw_object_meta_equality e p v) ≡ m =
        settle-check_dw_object_meta_equality e p v in
      let l = check_dw_kv_equality_lem e p.labels v.labels mp.0 mv.0 in
      let a = check_dw_kv_equality_lem e p.annotations v.annotations mp.1 mv.1 in
      (
        (
          IsSynced-none e p v mp mv,
          λ s.
              check_dw_object_meta_equality-none e p v s.generate_name s.cluster_name
                (l.0.1 s.labels) (a.0.1 s.annotations),
        ),
        rw same (meta_below-IsSynced e p v mp mv),
        (λ k. rw same (l.1 k)),
        (λ k. rw same (a.1 k)),
        rw same,
        rw same,
        rw same (meta_below_converges e p v mp mv),
      )

  -- what `CheckUWObjectMetaEquality` makes of the metadata, in one step
  abbrev meta_above : VcEquality → ObjectMeta Other → ObjectMeta Other → ObjectMeta Other
  meta_above e p v = record v {
    labels = settled v.labels (check_uw_kv_equality e p.labels v.labels);
    annotations = settled v.annotations (check_uw_kv_equality e p.annotations v.annotations);
  }

  settle-check_uw_object_meta_equality :
      (e : VcEquality) (p v : ObjectMeta Other)
      → settle v (check_uw_object_meta_equality e p v) ≡ meta_above e p v
  unfolding check_uw_object_meta_equality
  settle-check_uw_object_meta_equality e p v = ground arith

  check_uw_object_meta_equality-none :
      (e : VcEquality) (p v : ObjectMeta Other)
      → ((check_uw_kv_equality e p.labels v.labels).1 ≡ true)
      → ((check_uw_kv_equality e p.annotations v.annotations).1 ≡ true)
      → check_uw_object_meta_equality e p v ≡ none
  unfolding check_uw_object_meta_equality
  check_uw_object_meta_equality-none e p v l a = ground arith

  -- The upward check, applied, gives the tenant's object the super cluster's labels and annotations
  -- with a transparent key, leaves every other key and everything else as it was, and the next
  -- check gives nothing.
  pub check_uw_object_meta_equality_lem :
      (e : VcEquality) (p v : ObjectMeta Other)
      → IsMap p
      → IsMap v
      → let m = settle v (check_uw_object_meta_equality e p v) in
        ((k : String) → lookup k m.labels ≡ wanted_above e p.labels v.labels k)
        × ((k : String) → lookup k m.annotations ≡ wanted_above e p.annotations v.annotations k)
        × (m.name ≡ v.name)
        × (m.generate_name ≡ v.generate_name)
        × (m.cluster_name ≡ v.cluster_name)
        × (m.other ≡ v.other)
        × (check_uw_object_meta_equality e p m ≡ none)
  check_uw_object_meta_equality_lem e p v mp mv =
      let m = meta_above e p v in
      let same : settle v (check_uw_object_meta_equality e p v) ≡ m =
        settle-check_uw_object_meta_equality e p v in
      (
        (λ k. rw same ((check_uw_kv_equality_lem e p.labels v.labels mp.0 mv.0).1 k)),
        (λ k. rw same ((check_uw_kv_equality_lem e p.annotations v.annotations mp.1 mv.1).1 k)),
        rw same,
        rw same,
        rw same,
        rw same,
        rw same (
            check_uw_object_meta_equality-none e p m
              (ap (λ r. r.1) (check_uw_kv_equality_converges e p.labels v.labels mp.0 mv.0))
              (ap (λ r. r.1)
                (check_uw_kv_equality_converges e p.annotations v.annotations mp.1 mv.1))),
      )
