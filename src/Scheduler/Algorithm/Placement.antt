-- ===== src/Scheduler/Algorithm/Placement.antt =====
-- `ScheduleNamespaceSlices`: what the placement of all slices leaves of the snapshot.
use cluster_api_provider_nes.Base.{
  Order, IsOrder, ℕ, suc, ◌+◌, String, ◌≡◌, ◌≢◌, ◌∙◌, subst, refl, ◌⊎◌, inl, inr, none, some, List,
  [], ◌∷◌, arith, ite, dec_eq, Option-cases, All, lookup, lookup-insert, Distinct, insert-Distinct,
  ok, err,
}
use cluster_api_provider_nes.Scheduler.Quantity.{Quantities}
use cluster_api_provider_nes.Scheduler.Error.{Error}
use cluster_api_provider_nes.Scheduler.Resource.{ResourceList}
use cluster_api_provider_nes.Scheduler.Resource.Sums.{amount_at, sum_at}
use cluster_api_provider_nes.Scheduler.Namespace.{new_slice}
use cluster_api_provider_nes.Scheduler.Snapshot.{ClusterUsage, UsageMap, add_slices}
use cluster_api_provider_nes.Scheduler.Snapshot.Amounts.{
  IsUsage, IsWithin, with_slice, used_at-with_slice, with_slice-IsUsage, add_amounts_lem,
}
use cluster_api_provider_nes.Scheduler.Algorithm.{
  SliceInfo, fit_slice, schedule_one_slice, schedule_namespace_slices,
}
use cluster_api_provider_nes.Scheduler.Algorithm.Fit.{fit_slice-le}
use cluster_api_provider_nes.Scheduler.Algorithm.Choice.{schedule_one_slice_ok}

module _ ⦃Q : Quantities⦄ where
  -- the amount of a resource in the slices that were placed in a cluster
  abbrev pub placed_at : String → String → List SliceInfo → ℕ
  placed_at n k [] = 0
  placed_at n k (s ∷ slices) = elim s.error [
    | none ↦
        ite (dec_eq n s.result) (sum_at k s.request + placed_at n k slices) (placed_at n k slices)
    | some e ↦ placed_at n k slices
  ]

  -- A slice as `Repeat` makes it: no error yet, and a request that names no resource twice.
  abbrev pub IsFresh : SliceInfo → Type 0
  IsFresh s = (s.error ≡ none) × Distinct s.request

  -- the snapshot after one slice has been placed in the cluster `n`
  abbrev after_slice : SliceInfo → String → UsageMap → UsageMap
  after_slice s n m = (add_slices (new_slice s.namespace s.request n ∷ []) m).1

  -- How one cluster's usage goes on from `u` while the slices are placed.
  record Follows (n : String) (u : ClusterUsage) (slices : List SliceInfo) (m' : UsageMap)
      : Type 0 where
    usage : ClusterUsage
    found : lookup n m' ≡ some usage
    capacity : usage.capacity ≡ u.capacity
    provision : usage.provision ≡ u.provision
    amounts : (k : String) → amount_at k usage.alloc ≡ amount_at k u.alloc + placed_at n k slices
    within : (k : String) → IsWithin k u → IsWithin k usage

  after_slice_self :
      (s : SliceInfo) (n : String) (m : UsageMap) (u : ClusterUsage)
      → lookup n m ≡ some u
      → lookup n (after_slice s n m) ≡ some (with_slice s.request u)
  unfolding add_slices new_slice
  after_slice_self s n m u e = ground (arith, lookup-insert n n (with_slice s.request u) m)

  after_slice_ne :
      (s : SliceInfo) (n n' : String) (m : UsageMap)
      → n ≢ n'
      → lookup n (after_slice s n' m) ≡ lookup n m
  unfolding add_slices new_slice
  after_slice_ne s n n' m ne = elim (Option-cases (lookup n' m)) [
    | inl e ↦ ground arith
    | inr (u, e) ↦ ground (arith, lookup-insert n n' (with_slice s.request u) m)
  ]

  after_slice-Distinct :
      (s : SliceInfo) (n : String) (m : UsageMap) → Distinct m → Distinct (after_slice s n m)
  unfolding add_slices new_slice
  after_slice-Distinct s n m d = elim (Option-cases (lookup n m)) [
    | inl e ↦ ground arith
    | inr (u, e) ↦ ground (arith, insert-Distinct n (with_slice s.request u) m d)
  ]

  -- One round of the loop: the slice got an error and the snapshot is as it was, or it got a
  -- cluster and was added there.
  round_cases :
      (visits : ℕ → Order ClusterUsage) (s : SliceInfo) (slices : List SliceInfo) (m : UsageMap)
      {out : List SliceInfo} {m' : UsageMap}
      → schedule_namespace_slices visits (s ∷ slices) m ≡ some (out, m')
      → ((x : Error) × (rest : List SliceInfo) × (schedule_one_slice (visits 0) s m ≡ some (err x))
          × (schedule_namespace_slices (λ i. visits (suc i)) slices m ≡ some (rest, m'))
          × (out ≡ record s { error = some x } ∷ rest))
        ⊎ ((n : String) × (rest : List SliceInfo) × (schedule_one_slice (visits 0) s m
              ≡ some (ok n))
            × (schedule_namespace_slices (λ i. visits (suc i)) slices (after_slice s n m)
                ≡ some (rest, m'))
            × (out ≡ record s { result = n } ∷ rest))
  unfolding schedule_namespace_slices
  round_cases visits s slices m {out} {m'} h =
      elim (Option-cases (schedule_one_slice (visits 0) s m)) [
        | inl e ↦ absurd (ground arith)
        | inr (err x, e) ↦
            elim (Option-cases (schedule_namespace_slices (λ i. visits (suc i)) slices m)) [
              | inl f ↦ absurd (ground arith)
              | inr ((rest, m''), f) ↦ inl (x, rest, e, ground arith, ground arith)
            ]
        | inr (ok n, e) ↦
            elim (Option-cases
              (schedule_namespace_slices (λ i. visits (suc i)) slices (after_slice s n m))) [
                | inl f ↦ absurd (ground arith)
                | inr ((rest, m''), f) ↦ inr (n, rest, e, ground arith, ground arith)
              ]
      ]

  -- A slice whose request fits keeps the cluster within its capacity.
  with_slice-IsWithin :
      (k : String) (request : ResourceList) (u : ClusterUsage)
      → IsUsage u
      → Distinct request
      → fit_slice request u ≡ none
      → IsWithin k (with_slice request u)
  with_slice-IsWithin k request u iu d fits c =
      omega (arith, fit_slice-le k request u fits c, used_at-with_slice k request u iu d c)

  Follows-err :
      (s : SliceInfo) (x : Error) {n : String} {u : ClusterUsage} {rest : List SliceInfo}
      {m' : UsageMap}
      → Follows n u rest m'
      → Follows n u (record s { error = some x } ∷ rest) m'
  Follows-err s x f = record {
    usage = f.usage;
    found = f.found;
    capacity = f.capacity;
    provision = f.provision;
    amounts = f.amounts;
    within = f.within;
  }

  Follows-elsewhere :
      (s : SliceInfo) {n n' : String} {u : ClusterUsage} {rest : List SliceInfo} {m' : UsageMap}
      → n ≢ n'
      → s.error ≡ none
      → Follows n u rest m'
      → Follows n u (record s { result = n' } ∷ rest) m'
  Follows-elsewhere s ne e f = record {
    usage = f.usage;
    found = f.found;
    capacity = f.capacity;
    provision = f.provision;
    amounts = λ k. ground (arith, f.amounts k);
    within = f.within;
  }

  Follows-here :
      (s : SliceInfo) {n : String} {u : ClusterUsage} {rest : List SliceInfo} {m' : UsageMap}
      → IsUsage u
      → IsFresh s
      → fit_slice s.request u ≡ none
      → Follows n (with_slice s.request u) rest m'
      → Follows n u (record s { result = n } ∷ rest) m'
  Follows-here s {n} {u} iu fresh fits f = record {
    usage = f.usage;
    found = f.found;
    capacity = f.capacity;
    provision = f.provision;
    amounts = λ k. ground (arith, f.amounts k, fresh.0, add_amounts_lem k s.request u.alloc);
    within = λ k w. f.within k (with_slice-IsWithin k s.request u iu fresh.1 fits);
  }

  -- The slice fits the cluster that was chosen for it.
  chosen_fits :
      (visit : Order ClusterUsage) (s : SliceInfo) (m : UsageMap) {n : String} (u : ClusterUsage)
      → IsOrder visit
      → Distinct m
      → lookup n m ≡ some u
      → schedule_one_slice visit s m ≡ some (ok n)
      → fit_slice s.request u ≡ none
  chosen_fits visit s m {n} u o d e h = elim (schedule_one_slice_ok visit s m o d h) [
    | inl ((u', e', fits), _) ↦ ground arith
    | inr (empty, _, _) ↦ absurd (ground (arith, o.keeps n m))
  ]

  follows :
      (visits : ℕ → Order ClusterUsage) (slices : List SliceInfo) (m : UsageMap)
      {out : List SliceInfo} {m' : UsageMap} (n : String) (u : ClusterUsage)
      → ((i : ℕ) → IsOrder (visits i))
      → All IsFresh slices
      → Distinct m
      → IsUsage u
      → lookup n m ≡ some u
      → schedule_namespace_slices visits slices m ≡ some (out, m')
      → Follows n u out m'
  unfolding schedule_namespace_slices
  follows visits [] m {out} {m'} n u o fresh d iu e h = record {
    usage = u;
    found = ground arith;
    capacity = refl;
    provision = refl;
    amounts = λ k. ground arith;
    within = λ k w. w;
  }
  follows visits (s ∷ slices) m {out} {m'} n u o fresh d iu e h =
      elim (round_cases visits s slices m h) [
        | inl (x, rest, one, next, shape) ↦ rw shape (
            Follows-err s x
              (follows (λ i. visits (suc i)) slices m n u (λ i. o (suc i)) fresh.1 d iu e next))
        | inr (n', rest, one, next, shape) ↦ rw shape (elim (dec_eq n n') [
          | yes same ↦
              let next' : schedule_namespace_slices (λ i. visits (suc i)) slices (after_slice s n m)
                  ≡ some (rest, m') =
                rw same next in
              let rest_follows =
                follows (λ i. visits (suc i)) slices (after_slice s n m) n (with_slice s.request u)
                  (λ i. o (suc i)) fresh.1 (after_slice-Distinct s n m d)
                  (with_slice-IsUsage s.request u iu) (after_slice_self s n m u e) next' in
              let fits = chosen_fits (visits 0) s m u (o 0) d e (rw same one) in
              subst (λ z. Follows n u (record s { result = z } ∷ rest) m') same
                (Follows-here s iu fresh.0 fits rest_follows)
          | no other ↦ Follows-elsewhere s other fresh.0.0 (
              follows (λ i. visits (suc i)) slices (after_slice s n' m) n u (λ i. o (suc i)) fresh.1
                (after_slice-Distinct s n' m d) iu (after_slice_ne s n n' m other ∙ e) next)
        ])
      ]

  -- When the slices are placed, however each visit is ordered: every cluster of the snapshot is
  -- there afterwards with the same capacity and provision; what is allocated of each resource has
  -- grown by the amount of it in the slices that were placed there; and no resource that was
  -- within the cluster's capacity has gone past it.
  pub schedule_namespace_slices_lem :
      (visits : ℕ → Order ClusterUsage) (slices : List SliceInfo) (m : UsageMap)
      {out : List SliceInfo} {m' : UsageMap} (n : String) (u : ClusterUsage)
      → ((i : ℕ) → IsOrder (visits i))
      → All IsFresh slices
      → Distinct m
      → IsUsage u
      → lookup n m ≡ some u
      → schedule_namespace_slices visits slices m ≡ some (out, m')
      → (u' : ClusterUsage) × (lookup n m' ≡ some u')
        × (u'.capacity ≡ u.capacity)
        × (u'.provision ≡ u.provision)
        × ((k : String) → amount_at k u'.alloc ≡ amount_at k u.alloc + placed_at n k out)
        × ((k : String) → IsWithin k u → IsWithin k u')
  schedule_namespace_slices_lem visits slices m n u o fresh d iu e h =
      let f = follows visits slices m n u o fresh d iu e h in
      (f.usage, f.found, f.capacity, f.provision, f.amounts, f.within)
