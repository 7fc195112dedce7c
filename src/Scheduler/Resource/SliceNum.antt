-- ===== src/Scheduler/Resource/SliceNum.antt =====
-- `GetLeastFitSliceNum` of cache/namespace.go: how many slices a namespace's quota takes.
use native.Mathlib.Nat.{mod-lt, div-add-mod}
use cluster_api_provider_nes.Base.{
  ℕ, ◌+◌, ◌-◌, ◌*◌, ◌/◌, ◌^◌, ◌≤◌, ◌<◌, String, ◌≡◌, refl, ◌↔◌, inl, inr, true, none, some, [], ◌∷◌,
  arith, if◌then◌else◌, ltb, ◌==◌, Option-cases, lookup, contains, erase, lookup-erase, All,
  All-lookup, >>=-ok, ok, length,
}
use cluster_api_provider_nes.Scheduler.Quantity.{Quantities}
use cluster_api_provider_nes.Scheduler.Resource.{ResourceList, slice_num_loop, least_fit_slice_num}

ceil_covers : (q v m : ℕ) → 0 < v → (q + v - 1) / v ≤ m → q ≤ m * v
ceil_covers q v m p h = grind (arith, mod-lt (q + v - 1) p, div-add-mod (q + v - 1) v)

covers_ceil : (q v m : ℕ) → 0 < v → q ≤ m * v → (q + v - 1) / v ≤ m
covers_ceil q v m p h = grind (arith, mod-lt (q + v - 1) p, div-add-mod (q + v - 1) v)

module _ ⦃Q : Quantities⦄ where
  open Q use {Quantity, value, ceil_quotient, ceil_quotient_lem, cmp}

  -- a value that float64 holds exactly
  abbrev pub IsExact : String × Quantity → Type 0
  IsExact (k, q) = value q < 2 ^ 53

  -- `m` slices give a resource of the slice at least what the quota asks of it, in whole units.
  abbrev pub Covers : ResourceList → ℕ → String × Quantity → Type 0
  Covers quota m (k, v) = elim (lookup k quota) [ none ↦ ⊥ | some q ↦ value q ≤ m * value v ]

  ceil_quotient_iff :
      (q v m : ℕ) → 0 < v → q < 2 ^ 53 → v < 2 ^ 53 → (ceil_quotient q v ≤ m) ↔ (q ≤ m * v)
  ceil_quotient_iff q v m p hq hv = (
    λ h. ceil_covers q v m p (omega (arith, ceil_quotient_lem q v p hq hv)),
    λ h. omega (arith, ceil_quotient_lem q v p hq hv, covers_ceil q v m p h),
  )

  slice_num_loop_iff :
      (quota slice : ResourceList) (num n : ℕ) (more more' : ResourceList) (m : ℕ)
      → All IsExact quota
      → All IsExact slice
      → slice_num_loop quota slice num more ≡ ok (n, more')
      → (All (Covers quota m) slice × (num ≤ m)) ↔ (n ≤ m)
  unfolding slice_num_loop
  slice_num_loop_iff quota [] num n more more' m hq hs h = ground arith
  slice_num_loop_iff quota ((k, v) ∷ slice) num n more more' m hq hs h =
      elim (Option-cases (lookup k quota)) [
        | inl e ↦ ground arith
        | inr (q, e) ↦
            let n' = ceil_quotient (value q) (value v) in
            let next = if ltb num n' then n' else num in
            ground (
              arith,
              slice_num_loop_iff quota slice next n (erase k more) more' m hq hs.1,
              ceil_quotient_iff (value q) (value v) m,
              All-lookup IsExact k q quota hq e,
            )
      ]

  -- What the loop leaves of the quota's resources: those that the slice does not name.
  slice_num_loop_rest :
      (quota slice : ResourceList) (num n : ℕ) (more more' : ResourceList) (k : String)
      → slice_num_loop quota slice num more ≡ ok (n, more')
      → (lookup k more' ≡ (if contains k slice then none else lookup k more))
        × (contains k slice ≡ true → contains k quota ≡ true)
  unfolding slice_num_loop
  slice_num_loop_rest quota [] num n more more' k h = ground arith
  slice_num_loop_rest quota ((j, v) ∷ slice) num n more more' k h =
      elim (Option-cases (lookup j quota)) [
        | inl e ↦ ground arith
        | inr (q, e) ↦
            let n' = ceil_quotient (value q) (value v) in
            let next = if ltb num n' then n' else num in
            ground (
              arith,
              slice_num_loop_rest quota slice next n (erase j more) more' k,
              lookup-erase k j more,
            )
      ]

  lookup_of_empty :
      (k : String) (list : ResourceList) → (length list == 0) ≡ true → lookup k list ≡ none
  lookup_of_empty k [] h = refl
  lookup_of_empty k (e ∷ list) h = ground arith

  -- When a number is returned, it is the least number of slices that covers the quota in every
  -- resource of the slice: `m` slices cover it exactly when `m` is at least that number; and
  -- the quota and the slice name the same resources. All values are below 2 ^ 53, where
  -- float64 is exact.
  pub least_fit_slice_num_lem :
      (quota slice : ResourceList) {n : ℕ}
      → All IsExact quota
      → All IsExact slice
      → least_fit_slice_num quota slice ≡ ok n
      → ((m : ℕ) → All (Covers quota m) slice ↔ (n ≤ m))
        × ((k : String) → contains k quota ≡ contains k slice)
  unfolding least_fit_slice_num
  least_fit_slice_num_lem quota slice {n} hq hs h =
      let ((n', more), looped, rest) = >>=-ok (slice_num_loop quota slice 0 quota) _ h in
      (
        λ m. ground (arith, slice_num_loop_iff quota slice 0 n' quota more m hq hs looped),
        λ k. ground (
          arith,
          slice_num_loop_rest quota slice 0 n' quota more k looped,
          lookup_of_empty k more,
        ),
      )
