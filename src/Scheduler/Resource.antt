-- ===== src/Scheduler/Resource.antt =====
-- Resource lists, and what cache/namespace.go and cache/snapshot.go compute of them.
pub mod Sums
pub mod SliceNum
use cluster_api_provider_nes.Base.{
  ℕ, String, ◌≡◌, Bool, true, false, not, ◌&&◌, Option, none, some, List, [], ◌∷◌, ltb, ◌==◌,
  if◌then◌else◌, length, Dict, lookup, insert, erase, contains, Result, ok, err, ◌>>=◌, ◌>>◌,
  fail_if, or_err,
}
use cluster_api_provider_nes.Scheduler.Quantity.{Quantities, is_lt, is_eq}
use cluster_api_provider_nes.Scheduler.Error.{
  Error, quota_missing, slice_zero, slice_larger, slice_incomplete,
}

module _ ⦃Q : Quantities⦄ where
  open Q use {Quantity, nothing, add, sub, cmp, value, ceil_quotient}

  -- corev1.ResourceList
  abbrev pub ResourceList : Type 0
  ResourceList = Dict Quantity

  -- `list[k]`, which is the zero value for a key that is not there
  abbrev pub get : String → ResourceList → Quantity
  get k list = elim (lookup k list) [ none ↦ nothing | some q ↦ q ]

  -- the loop of `Equals`
  unfoldable pub matches_all : ResourceList → ResourceList → Bool
  matches_all [] b = true
  matches_all ((key, value1) ∷ a) b = elim (lookup key b) [
    | none ↦ false
    | some value2 ↦ if is_eq (cmp value1 value2) then matches_all a b else false
  ]

  unfoldable pub equals : ResourceList → ResourceList → Bool
  equals a b = if length a == length b then matches_all a b else false

  -- The loop of `MaxAlloc`, over the entries of `a`, on the copy `ret`.
  unfoldable pub raise_all : ResourceList → ResourceList → ResourceList → ResourceList
  raise_all [] b ret = ret
  raise_all ((key, value1) ∷ a) b ret =
      let value2 = get key b in
      raise_all a b (if is_lt (cmp value1 value2) then insert key value2 ret else ret)

  unfoldable pub max_alloc : ResourceList → ResourceList → ResourceList
  max_alloc a b = raise_all a b a

  -- The loop of `GetLeastFitSliceNum` over the slice's resources: the number so far, and what is
  -- left of the quota's resources.
  unfoldable pub slice_num_loop :
      ResourceList → ResourceList → ℕ → ResourceList → Result Error (ℕ × ResourceList)
  slice_num_loop quota [] num more = ok (num, more)
  slice_num_loop quota ((k, v) ∷ slice) num more = do
    q ← or_err (lookup k quota) (quota_missing k)
    fail_if (value v == 0) (slice_zero k)
    fail_if (is_lt (cmp q v)) (slice_larger k)
    let n = ceil_quotient (value q) (value v)
    slice_num_loop quota slice (if ltb num n then n else num) (erase k more)

  unfoldable pub least_fit_slice_num : ResourceList → ResourceList → Result Error ℕ
  least_fit_slice_num quota slice = do
    (num, more) ← slice_num_loop quota slice 0 quota
    fail_if (not (length more == 0)) slice_incomplete
    ok num
