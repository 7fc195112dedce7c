-- ===== src/Syncer/Pods/Images.antt =====
-- `checkContainersImageEquality`: which images the containers come to have.
use text.Mathlib.TextEquality.{eq_iff}
use cluster_api_provider_nes.Base.{
  String, ◌≡◌, refl, ◌∙◌, ◌⊎◌, inl, inr, Option-cases, Bool-cases, Option, none, some, List, [],
  ◌∷◌, map, arith, ite, dec_eq, if◌then◌else◌, All, length, ◌==◌, Dict, lookup, insert, contains,
  lookup-insert, Distinct, insert-Distinct,
}
use cluster_api_provider_nes.Syncer.Keys.{StringSets, VcEquality, is_skipped}
use cluster_api_provider_nes.Syncer.KeyValues.Downward.{
  wanted_below, check_dw_cases, check_dw_kv_equality_lem,
}
use cluster_api_provider_nes.Syncer.Pods.{
  Rests, Container, images_of, shared_images, replace_image, replace_images,
  check_containers_image_equality,
}

module _ ⦃R : Rests⦄ where
  -- the first container of a name
  abbrev pub image_in : String → List Container → Option String
  image_in k [] = none
  image_in k (c ∷ containers) = ite (dec_eq k c.name) (some c.image) (image_in k containers)

  -- No two containers have the same name.
  abbrev pub DistinctNames : List Container → Type 0
  DistinctNames [] = Unit
  DistinctNames (c ∷ containers) = (image_in c.name containers ≡ none) × DistinctNames containers

  lookup-images_of :
      (k : String) (containers : List Container) (images : Dict String)
      → DistinctNames containers
      → lookup k (images_of containers images)
        ≡ (elim (image_in k containers) [ none ↦ lookup k images | some i ↦ some i ])
  unfolding images_of
  lookup-images_of k [] images d = refl
  lookup-images_of k (c ∷ containers) images d = ground (
    arith,
    lookup-images_of k containers (insert c.name c.image images) d.1,
    lookup-insert k c.name c.image images,
    d.0,
  )

  images_of-Distinct :
      (containers : List Container) (images : Dict String)
      → Distinct images
      → Distinct (images_of containers images)
  unfolding images_of
  images_of-Distinct [] images d = d
  images_of-Distinct (c ∷ containers) images d =
      images_of-Distinct containers (insert c.name c.image images)
        (insert-Distinct c.name c.image images d)

  lookup-shared_images :
      (k : String) (known : Dict String) (containers : List Container) (images : Dict String)
      → DistinctNames containers
      → lookup k (shared_images known containers images) ≡ (
          if contains k known
          then (elim (image_in k containers) [ none ↦ lookup k images | some i ↦ some i ])
          else lookup k images)
  unfolding shared_images
  lookup-shared_images k known [] images d = ground arith
  lookup-shared_images k known (c ∷ containers) images d = ground (
    arith,
    lookup-shared_images k known containers
        (if contains c.name known then insert c.name c.image images else images) d.1,
    lookup-insert k c.name c.image images,
    d.0,
  )

  shared_images-Distinct :
      (known : Dict String) (containers : List Container) (images : Dict String)
      → Distinct images
      → Distinct (shared_images known containers images)
  unfolding shared_images
  shared_images-Distinct known [] images d = d
  shared_images-Distinct known (c ∷ containers) images d =
      shared_images-Distinct known containers
        (if contains c.name known then insert c.name c.image images else images)
        (elim (Bool-cases (contains c.name known)) [
          | inl e ↦ rw e (insert-Distinct c.name c.image images d)
          | inr e ↦ rw e d
        ])

  -- Each container is found by its name.
  weaken :
      (c0 : Container) (all rest : List Container)
      → image_in c0.name rest ≡ none
      → All (λ (c : Container). image_in c.name all ≡ some c.image) rest
      → All (λ (c : Container). image_in c.name (c0 ∷ all) ≡ some c.image) rest
  weaken c0 all [] n h = tt
  weaken c0 all (c ∷ rest) n h = (ground (arith, h.0), weaken c0 all rest (ground arith) h.1)

  found :
      (p : List Container)
      → DistinctNames p
      → All (λ (c : Container). image_in c.name p ≡ some c.image) p
  found [] d = tt
  found (c ∷ p) d = (ground arith, weaken c p p d.0 (found p d.1))

  replace_images-eq-map :
      (diff : Dict String) (f : Container → Container) (p : List Container)
      → All (λ c. replace_image diff c ≡ f c) p
      → replace_images diff p ≡ map f p
  unfolding replace_images
  replace_images-eq-map diff f [] h = refl
  replace_images-eq-map diff f (c ∷ p) h = cc (h.0, replace_images-eq-map diff f p h.1)

  eq-map : (f : Container → Container) (p : List Container) → All (λ c. c ≡ f c) p → p ≡ map f p
  eq-map f [] h = refl
  eq-map f (c ∷ p) h = cc (h.0, eq-map f p h.1)

  module _ ⦃S : StringSets⦄ where
    -- the container as it is to be: with the image that the tenant's container of that name has, if
    -- there is one and the name is not skipped
    abbrev pub with_image : VcEquality → List Container → Container → Container
    with_image e v c =
        if is_skipped e c.name
        then c
        else elim (image_in c.name v) [ none ↦ c | some i ↦ record c { image = i } ]

    -- The containers once the result of a check has been applied.
    abbrev pub settled_list : List Container → List Container → List Container
    settled_list old updated = if length updated == 0 then old else updated

    module _ (e : VcEquality) (p v : List Container) (dp : DistinctNames p)
        (dv : DistinctNames v) where
      abbrev known : Dict String
      known = images_of v []

      abbrev shared : Dict String
      shared = shared_images known p []

      lookup-known : (k : String) → lookup k known ≡ image_in k v
      lookup-known k = ground (arith, lookup-images_of k v [] dv)

      lookup-shared :
          (k : String)
          → lookup k shared ≡ (elim (image_in k v) [ none ↦ none | some i ↦ image_in k p ])
      lookup-shared k = ground (arith, lookup-known k, lookup-shared_images k known p [] dp)

      kept :
          (rest : List Container)
          → All (λ (c : Container). image_in c.name p ≡ some c.image) rest
          → ((k : String) → lookup k shared ≡ wanted_below e shared known k)
          → All (λ c. c ≡ with_image e v c) rest
      kept [] h same = tt
      kept (c ∷ rest) h same = (
        ground (arith, h.0, same c.name, lookup-known c.name, lookup-shared c.name),
        kept rest h.1 same,
      )

      replaced :
          (rest : List Container) (new : Dict String)
          → All (λ (c : Container). image_in c.name p ≡ some c.image) rest
          → ((k : String) → lookup k new ≡ wanted_below e shared known k)
          → All (λ c. replace_image new c ≡ with_image e v c) rest
      unfolding replace_image
      replaced [] new h now = tt
      replaced (c ∷ rest) new h now =
          let one : replace_image new c ≡ with_image e v c =
            elim (Option-cases (image_in c.name v)) [
              | inl n ↦ ground (
                arith,
                n,
                h.0,
                now c.name,
                lookup-known c.name,
                lookup-shared c.name,
                eq_iff c.image c.image,
              )
              | inr (i, s) ↦ ground (
                arith,
                s,
                h.0,
                now c.name,
                lookup-known c.name,
                lookup-shared c.name,
                eq_iff i c.image,
                eq_iff c.image c.image,
              )
            ] in
          (one, replaced rest new h.1 now)

      pub containers_cases :
          ((check_containers_image_equality e p v ≡ [])
            × ((k : String) → lookup k shared ≡ wanted_below e shared known k))
          ⊎ ((new : Dict String) × (check_containers_image_equality e p v ≡ replace_images new p)
              × ((k : String) → lookup k new ≡ wanted_below e shared known k))
      unfolding check_containers_image_equality
      containers_cases =
          elim (check_dw_cases e shared known (shared_images-Distinct known p [] tt)
            (images_of-Distinct v [] tt)) [
              | inl (r, same) ↦ inl (rw (r, check_containers_image_equality), same)
              | inr (new, r, d, now) ↦ inr (new, rw (r, check_containers_image_equality), now)
            ]

    settled_list-replace_images :
        (new : Dict String) (p : List Container)
        → settled_list p (replace_images new p) ≡ replace_images new p
    unfolding replace_images
    settled_list-replace_images new [] = refl
    settled_list-replace_images new (c ∷ p) = ground arith

    -- The containers, once an update has been applied, are the super cluster's in their order, each
    -- with the image of the tenant's container of the same name, if there is one whose name is not
    -- skipped, and nothing else changed.
    pub check_containers_image_equality_lem :
        (e : VcEquality) (p v : List Container)
        → DistinctNames p
        → DistinctNames v
        → settled_list p (check_containers_image_equality e p v) ≡ map (with_image e v) p
    check_containers_image_equality_lem e p v dp dv = elim (containers_cases e p v dp dv) [
      | inl (r, same) ↦ rw r (eq-map (with_image e v) p (kept e p v dp dv p (found p dp) same))
      | inr (new, r, now) ↦ rw r (
          settled_list-replace_images new p
          ∙ replace_images-eq-map new (with_image e v) p
              (replaced e p v dp dv p new (found p dp) now))
    ]

    -- Every container of the tenant's pod is in the super cluster's.
    abbrev pub IsCovered : List Container → List Container → Type 0
    IsCovered v p = (k : String) → image_in k p ≡ none → image_in k v ≡ none

    image_in-map :
        (k : String) (e : VcEquality) (v p : List Container)
        → image_in k (map (with_image e v) p) ≡ (elim (image_in k p) [
          | none ↦ none
          | some i ↦
              if is_skipped e k
              then some i
              else elim (image_in k v) [ none ↦ some i | some j ↦ some j ]
        ])
    image_in-map k e v [] = refl
    image_in-map k e v (c ∷ p) = elim (Bool-cases (is_skipped e c.name)) [
      | inl s ↦ ground (arith, s, image_in-map k e v p)
      | inr s ↦ elim (Option-cases (image_in c.name v)) [
        | inl n ↦ ground (arith, s, n, image_in-map k e v p)
        | inr (i, n) ↦ ground (arith, s, n, image_in-map k e v p)
      ]
    ]

    pub map-DistinctNames :
        (e : VcEquality) (v p : List Container)
        → DistinctNames p
        → DistinctNames (map (with_image e v) p)
    map-DistinctNames e v [] d = tt
    map-DistinctNames e v (c ∷ p) d =
        let name : (with_image e v c).name ≡ c.name = ground arith in
        (ground (arith, name, d.0, image_in-map c.name e v p), map-DistinctNames e v p d.1)

    pub containers_converge :
        (e : VcEquality) (p v : List Container)
        → DistinctNames p
        → DistinctNames v
        → IsCovered v p
        → check_containers_image_equality e (map (with_image e v) p) v ≡ []
    unfolding check_containers_image_equality
    containers_converge e p v dp dv covered =
        let p' = map (with_image e v) p in
        let d' = map-DistinctNames e v p dp in
        let agree : (k : String)
            → lookup k (shared e p' v d' dv)
              ≡ wanted_below e (shared e p' v d' dv) (known e p' v d' dv) k =
          λ k. ground (
            arith,
            covered k,
            lookup-known e p' v d' dv k,
            lookup-shared e p' v d' dv k,
            image_in-map k e v p,
          ) in
        let equal =
          (check_dw_kv_equality_lem e (shared e p' v d' dv) (known e p' v d' dv)
              (shared_images-Distinct (known e p' v d' dv) p' [] tt)
              (images_of-Distinct v [] tt)).0.1
            agree in
        ground (arith, equal)
