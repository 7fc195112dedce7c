-- ===== src/Syncer/Contents/Claims.antt =====
-- `CheckPVCEquality` and `CheckUWPVCStatusEquality`: what they make of a claim, and that checking
-- again finds nothing.
use text.Mathlib.Text.{◌==◌ as str_eq}
use cluster_api_provider_nes.Base.{
  String, ◌≡◌, sym, ◌⊎◌, inl, inr, Option-cases, false, not, ◌&&◌, Option, none, some, [], arith,
  if◌then◌else◌, Dict, lookup, insert, lookup-insert,
}
use cluster_api_provider_nes.Syncer.Keys.{StringSets, VcEquality}
use cluster_api_provider_nes.Syncer.Meta.{settle, check_dw_object_meta_equality}
use cluster_api_provider_nes.Syncer.Meta.Settled.{
  IsMap, meta_below, settle-check_dw_object_meta_equality, meta_below_converges,
}
use cluster_api_provider_nes.Syncer.Contents.{
  FeatureGates, Kinds, PersistentVolumeClaim, storage, storage_of, check_pvc_equality,
  check_uw_pvc_status_equality, claim_bound,
}

module _ ⦃K : Kinds⦄ where
  open K use {MetaOther, Other, Quantity, nothing, same_quantity, same_quantity_iff}

  -- Under any key but `"storage"` one map has what the other has.
  abbrev SameButStorage : Dict Quantity → Dict Quantity → Type 0
  SameButStorage m n = (k : String) → (k ≡ "storage") ⊎ (lookup k m ≡ lookup k n)

  lookup-insert_storage :
      (q : Quantity) (m : Dict Quantity) → SameButStorage (insert "storage" q m) m
  lookup-insert_storage q m k = ground (arith, lookup-insert k "storage" q m)

  -- the entries of a map that may be nil
  abbrev entries : Option (Dict Quantity) → Dict Quantity
  entries none = []
  entries (some m) = m

  -- the tenant's claim with what the super cluster's claim shows of its status
  abbrev claim_above :
      FeatureGates → PersistentVolumeClaim → PersistentVolumeClaim → PersistentVolumeClaim
  claim_above gates p v = record v {
    capacity = elim p.capacity [
      | none ↦ v.capacity
      | some m ↦
          if same_quantity (storage m) (storage_of v.capacity)
          then v.capacity
          else some (insert "storage" (storage m) (entries v.capacity))
    ];
    phase =
        if gates.sync_tenant_pvc_status_phase
          && (str_eq v.phase claim_bound && not (str_eq p.phase claim_bound))
        then p.phase
        else v.phase;
  }

  settle-check_uw_pvc_status_equality :
      (gates : FeatureGates) (p v : PersistentVolumeClaim)
      → settle v (check_uw_pvc_status_equality gates p v) ≡ claim_above gates p v
  unfolding check_uw_pvc_status_equality
  settle-check_uw_pvc_status_equality gates p v = ground arith

  storage_of-insert : (q : Quantity) (m : Dict Quantity) → storage (insert "storage" q m) ≡ q
  storage_of-insert q m = ground (arith, lookup-insert "storage" "storage" q m)

  claim_above_again :
      (gates : FeatureGates) (p v : PersistentVolumeClaim)
      → (elim p.capacity [
        | none ↦ false
        | some m ↦ not (same_quantity (storage m) (storage_of v.capacity))
      ]
          ≡ false)
      → (gates.sync_tenant_pvc_status_phase
            && (str_eq v.phase claim_bound && not (str_eq p.phase claim_bound))
          ≡ false)
      → check_uw_pvc_status_equality gates p v ≡ none
  unfolding check_uw_pvc_status_equality
  claim_above_again gates p v c s = rw s (rw c)

  -- What the storage of a claim comes to be.
  storage-claim_above :
      (gates : FeatureGates) (p v : PersistentVolumeClaim)
      → storage_of (claim_above gates p v).capacity
        ≡ elim p.capacity [ none ↦ storage_of v.capacity | some m ↦ storage m ]
  storage-claim_above gates p v = elim (Option-cases p.capacity) [
    | inl h ↦ rw h
    | inr (m, h) ↦ rw h (
        ground (
          arith,
          same_quantity_iff (storage m) (storage_of v.capacity),
          storage_of-insert (storage m) (entries v.capacity),
        ))
  ]

  claim_above_converges :
      (gates : FeatureGates) (p v : PersistentVolumeClaim)
      → check_uw_pvc_status_equality gates p (claim_above gates p v) ≡ none
  claim_above_converges gates p v =
      claim_above_again gates p (claim_above gates p v)
        (elim (Option-cases p.capacity) [
          | inl h ↦ rw h
          | inr (m, h) ↦ rw h (
              ground (
                arith,
                same_quantity_iff (storage m) (storage m),
                storage_of-insert (storage m) (entries v.capacity),
              ))
        ])
        (ground arith)

  -- What the map of capacities comes to be, under the other keys.
  capacity-claim_above :
      (gates : FeatureGates) (p v : PersistentVolumeClaim)
      → SameButStorage (entries (claim_above gates p v).capacity) (entries v.capacity)
  capacity-claim_above gates p v k =
      ground (arith, lookup-insert_storage (storage_of p.capacity) (entries v.capacity) k)

  -- A claim of a tenant, once the update that the upward check gives has been applied, has the
  -- storage of the super cluster's claim, if that has a map of capacities, and its own if not; it has
  -- the phase of the super cluster's claim if it was bound, that claim is not, and the feature gate
  -- is on, and its own phase otherwise. It is as before in all else, and checking it again finds
  -- nothing to do.
  pub check_uw_pvc_status_equality_converges :
      (gates : FeatureGates) (p v : PersistentVolumeClaim)
      → let v' = settle v (check_uw_pvc_status_equality gates p v) in
        (storage_of v'.capacity
          ≡ elim p.capacity [ none ↦ storage_of v.capacity | some m ↦ storage m ])
        × SameButStorage (entries v'.capacity) (entries v.capacity)
        × (v'.phase ≡ (
            if gates.sync_tenant_pvc_status_phase
              && (str_eq v.phase claim_bound && not (str_eq p.phase claim_bound))
            then p.phase
            else v.phase))
        × (v'.object_meta ≡ v.object_meta)
        × (v'.requests ≡ v.requests)
        × (v'.other ≡ v.other)
        × (check_uw_pvc_status_equality gates p v' ≡ none)
  check_uw_pvc_status_equality_converges gates p v =
      let same = settle-check_uw_pvc_status_equality gates p v in
      (
        rw same (storage-claim_above gates p v),
        rw same (capacity-claim_above gates p v),
        rw same,
        rw same,
        rw same,
        rw same,
        rw same (claim_above_converges gates p v),
      )

  module _ ⦃S : StringSets⦄ where
    abbrev claim_below :
        VcEquality → PersistentVolumeClaim → PersistentVolumeClaim → PersistentVolumeClaim
    claim_below e p v = record p {
      object_meta = meta_below e p.object_meta v.object_meta;
      requests =
          if same_quantity (storage p.requests) (storage v.requests)
          then p.requests
          else insert "storage" (storage v.requests) p.requests;
    }

    settle-check_pvc_equality :
        (e : VcEquality) (p v : PersistentVolumeClaim)
        → settle p (check_pvc_equality e p v) ≡ claim_below e p v
    unfolding check_pvc_equality
    settle-check_pvc_equality e p v =
        ground (arith, settle-check_dw_object_meta_equality e p.object_meta v.object_meta)

    storage-claim_below :
        (e : VcEquality) (p v : PersistentVolumeClaim)
        → storage ((claim_below e p v).requests) ≡ storage v.requests
    storage-claim_below e p v = ground (
      arith,
      same_quantity_iff (storage p.requests) (storage v.requests),
      storage_of-insert (storage v.requests) p.requests,
    )

    claim_again :
        (e : VcEquality) (p v : PersistentVolumeClaim)
        → (check_dw_object_meta_equality e p.object_meta v.object_meta ≡ none)
        → (storage p.requests ≡ storage v.requests)
        → check_pvc_equality e p v ≡ none
    unfolding check_pvc_equality
    claim_again e p v m s =
        ground (arith, m, s, same_quantity_iff (storage p.requests) (storage v.requests))

    -- A claim in the super cluster, once the update that the check gives has been applied, has the
    -- metadata that the check of metadata gives, asks for the storage that the tenant's claim asks
    -- for, is as before in all else, its other requests included, and checking it again finds nothing
    -- to do.
    pub check_pvc_equality_converges :
        (e : VcEquality) (p v : PersistentVolumeClaim)
        → IsMap p.object_meta
        → IsMap v.object_meta
        → let p' = settle p (check_pvc_equality e p v) in
          (p'.object_meta
            ≡ settle p.object_meta (check_dw_object_meta_equality e p.object_meta v.object_meta))
          × (storage p'.requests ≡ storage v.requests)
          × SameButStorage p'.requests p.requests
          × (p'.capacity ≡ p.capacity)
          × (p'.phase ≡ p.phase)
          × (p'.other ≡ p.other)
          × (check_pvc_equality e p' v ≡ none)
    check_pvc_equality_converges e p v mp mv =
        let same = settle-check_pvc_equality e p v in
        (
          rw same (sym (settle-check_dw_object_meta_equality e p.object_meta v.object_meta)),
          rw same (storage-claim_below e p v),
          (λ k. rw same (ground (arith, lookup-insert_storage (storage v.requests) p.requests k))),
          rw same,
          rw same,
          rw same,
          rw same (
              claim_again e (claim_below e p v) v
                (meta_below_converges e p.object_meta v.object_meta mp mv)
                (storage-claim_below e p v)),
        )
