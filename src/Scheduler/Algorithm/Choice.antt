-- ===== src/Scheduler/Algorithm/Choice.antt =====
-- `ScheduleOneSlice` and `SchedulePod`: which cluster is chosen.
use cluster_api_provider_nes.Base.{
  Order, IsOrder, String, ◌≡◌, ◌∙◌, ◌≢◌, ◌↔◌, ◌⊎◌, inl, inr, Option, none, some, [], ◌∷◌, arith,
  dec_eq, Option-cases, All, lookup, Distinct, ok, err, refl,
}
use cluster_api_provider_nes.Scheduler.Quantity.{Quantities}
use cluster_api_provider_nes.Scheduler.Error.{Error}
use cluster_api_provider_nes.Scheduler.Resource.{ResourceList}
use cluster_api_provider_nes.Scheduler.Namespace.{Pod}
use cluster_api_provider_nes.Scheduler.Snapshot.{ClusterUsage, UsageMap}
use cluster_api_provider_nes.Scheduler.Algorithm.{
  SliceInfo, fit_slice, first_fit, schedule_one_slice, first_pod_fit, schedule_pod,
}

module _ ⦃Q : Quantities⦄ where
  -- the request fits the cluster of the name
  abbrev pub FitsIn : ResourceList → UsageMap → String → Type 0
  FitsIn request m n = (u : ClusterUsage) × (lookup n m ≡ some u) × (fit_slice request u ≡ none)

  first_fit-some :
      (request : ResourceList) (entries : UsageMap) (x : Error) {n : String}
      → entries ≡ []
      → first_fit request entries (some x) ≡ ok n
      → ⊥
  unfolding first_fit
  first_fit-some request entries x p q = ground arith

  first_fit_ok :
      (request : ResourceList) (m entries : UsageMap) (last : Option Error) {n : String}
      → All (λ e. lookup e.0 m ≡ some e.1) entries
      → first_fit request entries last ≡ ok n
      → FitsIn request m n ⊎ ((entries ≡ []) × (n ≡ ""))
  unfolding first_fit
  first_fit_ok request m [] none h e = inr (refl, ground arith)
  first_fit_ok request m [] (some x) h e = absurd (ground arith)
  first_fit_ok request m ((n', u) ∷ entries) last {n} h e =
      elim (Option-cases (fit_slice request u)) [
        | inl fits ↦ inl (u, ground (arith, h.0), fits)
        | inr (x, unfit) ↦
            let rest : first_fit request entries (some x) ≡ ok n = ground arith in
            elim (first_fit_ok request m entries (some x) h.1 rest) [
              | inl found ↦ inl found
              | inr (empty, _) ↦ absurd (first_fit-some request entries x empty rest)
            ]
      ]

  -- A visit that ends with an error has found no cluster that fits.
  first_fit_err :
      (request : ResourceList) (entries : UsageMap) (last : Option Error) {x : Error} (n : String)
      {u : ClusterUsage}
      → first_fit request entries last ≡ err x
      → lookup n entries ≡ some u
      → fit_slice request u ≢ none
  unfolding first_fit
  first_fit_err request [] last n h e = absurd (ground arith)
  first_fit_err request ((n', u') ∷ entries) last {x} n {u} h e =
      elim (Option-cases (fit_slice request u')) [
        | inl fits ↦ absurd (ground arith)
        | inr (x', unfit) ↦
            ground (arith, first_fit_err request entries (some x') {x = x} n {u = u})
      ]

  -- Where a slice is placed: the request fits the cluster, which is the mandatory one if there is
  -- one; but when the snapshot has no cluster at all, a slice with no mandatory cluster may be
  -- placed, without an error, in a cluster with the empty name.
  pub schedule_one_slice_ok :
      (visit : Order ClusterUsage) (s : SliceInfo) (m : UsageMap) {n : String}
      → IsOrder visit
      → Distinct m
      → schedule_one_slice visit s m ≡ some (ok n)
      → (FitsIn s.request m n × ((s.mandatory ≡ "") ⊎ (n ≡ s.mandatory)))
        ⊎ ((visit m ≡ []) × (n ≡ "") × (s.mandatory ≡ ""))
  unfolding schedule_one_slice
  schedule_one_slice_ok visit s m {n} o d h = elim (dec_eq s.mandatory "") [
    | yes free ↦
        let f : first_fit s.request (visit m) none ≡ ok n = ground arith in
        elim (first_fit_ok s.request m (visit m) none (o.entries m d) f) [
          | inl found ↦ inl (found, inl free)
          | inr (empty, e) ↦ inr (empty, e, free)
        ]
    | no bound ↦ elim (Option-cases (lookup s.mandatory m)) [
      | inl e ↦ absurd (ground arith)
      | inr (u, e) ↦ inl ((u, ground arith, ground arith), inr (ground arith))
    ]
  ]

  -- Why a slice gets an error: its mandatory cluster is unknown or does not have the room, or it
  -- has no mandatory cluster and no cluster of the snapshot has the room.
  pub schedule_one_slice_err :
      (visit : Order ClusterUsage) (s : SliceInfo) (m : UsageMap) {x : Error}
      → IsOrder visit
      → schedule_one_slice visit s m ≡ some (err x)
      → ((s.mandatory ≢ "") × ¬ FitsIn s.request m s.mandatory)
        ⊎ ((s.mandatory ≡ "") × ((n : String) → ¬ FitsIn s.request m n))
  unfolding schedule_one_slice
  schedule_one_slice_err visit s m {x} o h = elim (dec_eq s.mandatory "") [
    | yes free ↦
        let f : first_fit s.request (visit m) none ≡ err x = ground arith in
        inr (
          free,
          λ n (u, e, fits). first_fit_err s.request (visit m) none n f (o.keeps n m ∙ e) fits,
        )
    | no bound ↦ inl (bound, λ (u, e, fits). ground arith)
  ]

  -- Scheduling a slice panics exactly when it has no mandatory cluster and its hint names a
  -- cluster that the snapshot does not have.
  pub schedule_one_slice_panics :
      (visit : Order ClusterUsage) (s : SliceInfo) (m : UsageMap)
      → (schedule_one_slice visit s m ≡ none)
        ↔ ((s.mandatory ≡ "") × (s.hint ≢ "") × (lookup s.hint m ≡ none))
  unfolding schedule_one_slice
  schedule_one_slice_panics visit s m = ground arith

  -- A hint never changes which cluster is chosen: with it, a call panics or gives what it gives
  -- without.
  pub schedule_one_slice_hint :
      (visit : Order ClusterUsage) (s : SliceInfo) (m : UsageMap)
      → (schedule_one_slice visit s m ≡ none)
        ⊎ (schedule_one_slice visit s m ≡ schedule_one_slice visit (record s { hint = "" }) m)
  unfolding schedule_one_slice
  schedule_one_slice_hint visit s m = elim (Option-cases (schedule_one_slice visit s m)) [
    | inl panics ↦ inl panics
    | inr (r, e) ↦ inr (ground arith)
  ]

  first_pod_fit_lem :
      (request : ResourceList) (m entries : UsageMap)
      → All (λ e. lookup e.0 m ≡ some e.1) entries
      → (n : String) × (first_pod_fit request entries ≡ ok n)
        × (FitsIn request m n
            ⊎ ((n ≡ "")
                × ((k : String) (u : ClusterUsage)
                    → lookup k entries ≡ some u
                    → fit_slice request u ≢ none)))
  unfolding first_pod_fit
  first_pod_fit_lem request m [] h = ("", refl, inr (refl, λ k u e. ground arith))
  first_pod_fit_lem request m ((n', u') ∷ entries) h = elim (Option-cases (fit_slice request u')) [
    | inl fits ↦ (n', ground arith, inl (u', h.0, fits))
    | inr (x, unfit) ↦
        let (n, e, found) = first_pod_fit_lem request m entries h.1 in
        (
          n,
          ground arith,
          elim found [
            | inl f ↦ inl f
            | inr (empty, none_fits) ↦ inr (empty, λ k u e'. ground (arith, none_fits k u))
          ],
        )
  ]

  -- Scheduling a pod never gives an error: it gives a cluster where the pod fits, or, when no
  -- cluster has the room, the empty name.
  pub schedule_pod_lem :
      (visit : Order ClusterUsage) (pod : Pod) (m : UsageMap)
      → IsOrder visit
      → Distinct m
      → (n : String) × (schedule_pod visit pod m ≡ ok n)
        × (FitsIn pod.request m n ⊎ ((n ≡ "") × ((k : String) → ¬ FitsIn pod.request m k)))
  unfolding schedule_pod
  schedule_pod_lem visit pod m o d =
      let (n, e, found) = first_pod_fit_lem pod.request m (visit m) (o.entries m d) in
      (
        n,
        e,
        elim found [
          | inl f ↦ inl f
          | inr (empty, none_fits) ↦
              inr (empty, λ k (u, e', fits). none_fits k u (o.keeps k m ∙ e') fits)
        ],
      )
