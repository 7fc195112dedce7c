-- ===== src/Syncer/Services/Targets.antt =====
-- `CheckEndpointsEquality`: what it makes of endpoints, and of its arguments.
use cluster_api_provider_nes.Base.{
  Option, ◌≡◌, refl, ◌↔◌, ◌⊎◌, inl, inr, Bool-cases, false, none, some, List, [], ◌∷◌, map, arith,
}
use cluster_api_provider_nes.Syncer.Meta.{settle}
use cluster_api_provider_nes.Syncer.Services.{
  DeepEqual, Parts, ObjectReference, EndpointAddress, EndpointSubset, Endpoints, filter_address,
  filter_subset, check_endpoints_equality,
}

module _ ⦃P : Parts⦄ where
  filter_address_twice :
      (xs : List EndpointAddress)
      → map filter_address (map filter_address xs) ≡ map filter_address xs
  filter_address_twice [] = refl
  filter_address_twice (x ∷ xs) = ground (arith, filter_address_twice xs)

  filter_subset_twice :
      (ss : List EndpointSubset) → map filter_subset (map filter_subset ss) ≡ map filter_subset ss
  filter_subset_twice [] = refl
  filter_subset_twice (s ∷ ss) = ground (
    arith,
    filter_address_twice s.addresses,
    filter_address_twice s.not_ready_addresses,
    filter_subset_twice ss,
  )

  -- `r` is the reference `o` without what ties it to one cluster.
  abbrev pub IsClearedReference : Option ObjectReference → Option ObjectReference → Type 0
  IsClearedReference none none = Unit
  IsClearedReference (some o) (some r) =
      (r.namespace ≡ "") × (r.resource_version ≡ "") × (r.uid ≡ "") × (r.other ≡ o.other)
  IsClearedReference none (some r) = ⊥
  IsClearedReference (some o) none = ⊥

  -- The second list has the first one's addresses, in order, each with its reference cleared.
  abbrev pub AreClearedAddresses : List EndpointAddress → List EndpointAddress → Type 0
  AreClearedAddresses [] [] = Unit
  AreClearedAddresses (x ∷ xs) (y ∷ ys) =
      IsClearedReference x.target_ref y.target_ref × (y.other ≡ x.other) × AreClearedAddresses xs ys
  AreClearedAddresses [] (y ∷ ys) = ⊥
  AreClearedAddresses (x ∷ xs) [] = ⊥

  -- The second list has the first one's subsets, in order, with the references of their addresses
  -- cleared, ready or not.
  abbrev pub IsCleared : List EndpointSubset → List EndpointSubset → Type 0
  IsCleared [] [] = Unit
  IsCleared (s ∷ ss) (t ∷ ts) =
      AreClearedAddresses s.addresses t.addresses
      × AreClearedAddresses s.not_ready_addresses t.not_ready_addresses
      × (t.other ≡ s.other)
      × IsCleared ss ts
  IsCleared [] (t ∷ ts) = ⊥
  IsCleared (s ∷ ss) [] = ⊥

  filter_address-IsClearedReference :
      (o : Option ObjectReference) (other : P.AddressOther)
      → let x : EndpointAddress = record { target_ref = o; other = other } in
        IsClearedReference o (filter_address x).target_ref × ((filter_address x).other ≡ other)
  filter_address-IsClearedReference none other = (tt, refl)
  filter_address-IsClearedReference (some r) other = ((refl, refl, refl, refl), refl)

  map-filter_address-AreClearedAddresses :
      (xs : List EndpointAddress) → AreClearedAddresses xs (map filter_address xs)
  map-filter_address-AreClearedAddresses [] = tt
  map-filter_address-AreClearedAddresses (x ∷ xs) =
      let (cleared, same) = filter_address-IsClearedReference x.target_ref x.other in
      (cleared, same, map-filter_address-AreClearedAddresses xs)

  map-filter_subset-IsCleared : (ss : List EndpointSubset) → IsCleared ss (map filter_subset ss)
  map-filter_subset-IsCleared [] = tt
  map-filter_subset-IsCleared (s ∷ ss) = (
    map-filter_address-AreClearedAddresses s.addresses,
    map-filter_address-AreClearedAddresses s.not_ready_addresses,
    refl,
    map-filter_subset-IsCleared ss,
  )

  module _ ⦃D : DeepEqual (List EndpointSubset)⦄ where
    check_cases :
        (p v : Endpoints)
        → let ps = map filter_subset p.subsets in
          let vs = map filter_subset v.subsets in
          let p' : Endpoints = record p { subsets = ps } in
          let v' : Endpoints = record v { subsets = vs } in
          let p'' : Endpoints = record p { subsets = vs } in
          ((ps ≡ vs) × (check_endpoints_equality p v ≡ (p', v', none)))
          ⊎ ((check_endpoints_equality p v ≡ (p', v', some p'')) × ((D.same ps vs) ≡ false))
    unfolding check_endpoints_equality
    check_cases p v =
        elim (Bool-cases (D.same (map filter_subset p.subsets) (map filter_subset v.subsets))) [
          | inl h ↦ inl ((D.same_iff _ _).0 h, rw h)
          | inr h ↦ inr (rw h, h)
        ]

    endpoints_again :
        (p v : Endpoints)
        → map filter_subset p.subsets ≡ p.subsets
        → map filter_subset v.subsets ≡ v.subsets
        → p.subsets ≡ v.subsets
        → check_endpoints_equality p v ≡ (p, v, none)
    unfolding check_endpoints_equality
    endpoints_again p v fp fv same = rw fp (rw fv (rw ((D.same_iff p.subsets v.subsets).1 same)))

    -- The check of endpoints leaves both of its arguments without the namespaces, the versions and the
    -- identities of the objects that their addresses refer to, and as they were in all else. It gives
    -- nothing exactly when the subsets are then the same; the super cluster's endpoints, once the
    -- update that it gives has been applied, have the subsets that the tenant's are left with, and
    -- checking them again finds nothing to do.
    pub check_endpoints_equality_lem :
        (p v : Endpoints)
        → let (p', v', update) = check_endpoints_equality p v in
          let settled = settle p' update in
          IsCleared p.subsets p'.subsets
          × IsCleared v.subsets v'.subsets
          × (p'.other ≡ p.other)
          × (v'.other ≡ v.other)
          × ((update ≡ none) ↔ (p'.subsets ≡ v'.subsets))
          × (settled.subsets ≡ v'.subsets)
          × (settled.other ≡ p.other)
          × (check_endpoints_equality settled v' ≡ (settled, v', none))
    check_endpoints_equality_lem p v = elim (check_cases p v) [
      | inl (same, h) ↦ rw h (
        map-filter_subset-IsCleared p.subsets,
        map-filter_subset-IsCleared v.subsets,
        refl,
        refl,
        ((λ _. same), (λ _. refl)),
        same,
        refl,
        endpoints_again _ _ (filter_subset_twice p.subsets) (filter_subset_twice v.subsets) same,
      )
      | inr (h, other) ↦ rw h (
        map-filter_subset-IsCleared p.subsets,
        map-filter_subset-IsCleared v.subsets,
        refl,
        refl,
        (
          (λ n. absurd (ground (arith, n))),
          λ same. absurd (
              ground (
                arith,
                other,
                (D.same_iff (map filter_subset p.subsets) (map filter_subset v.subsets)).1 same,
              )),
        ),
        refl,
        refl,
        endpoints_again _ _ (filter_subset_twice v.subsets) (filter_subset_twice v.subsets) refl,
      )
    ]
