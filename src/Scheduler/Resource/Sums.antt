-- ===== src/Scheduler/Resource/Sums.antt =====
-- Amounts of one resource: in a list, and in all the lists of a loop.
use cluster_api_provider_nes.Base.{
  ℕ, ◌+◌, max, String, ◌≡◌, refl, inl, inr, none, some, [], ◌∷◌, arith, ite, if◌then◌else◌, dec_eq,
  Option-cases, lookup, insert, lookup-insert, Distinct,
}
use cluster_api_provider_nes.Scheduler.Quantity.{Quantities, is_lt}
use cluster_api_provider_nes.Scheduler.Resource.{ResourceList, get, raise_all, max_alloc}

module _ ⦃Q : Quantities⦄ where
  open Q use {Quantity, nothing, add, sub, cmp, amount, amount_nothing, amount_add, cmp_lem}

  -- the amount that a list gives a resource
  abbrev pub amount_at : String → ResourceList → ℕ
  amount_at k list = amount (get k list)

  -- the amounts of all of a list's entries for a resource, added up
  abbrev pub sum_at : String → ResourceList → ℕ
  sum_at k [] = 0
  sum_at k ((j, q) ∷ list) = ite (dec_eq k j) (amount q + sum_at k list) (sum_at k list)

  pub amount_at-insert :
      (k j : String) (q : Quantity) (list : ResourceList)
      → amount_at k (insert j q list) ≡ ite (dec_eq k j) (amount q) (amount_at k list)
  amount_at-insert k j q list = ground (arith, lookup-insert k j q list)

  pub amount_at-absent :
      (k : String) (list : ResourceList) → lookup k list ≡ none → amount_at k list ≡ 0
  amount_at-absent k list h = ground (arith, amount_nothing)

  raise_all_absent :
      (k : String) (a b ret : ResourceList)
      → lookup k a ≡ none
      → amount_at k (raise_all a b ret) ≡ amount_at k ret
  unfolding raise_all
  raise_all_absent k [] b ret h = refl
  raise_all_absent k ((j, q) ∷ a) b ret h =
      let value2 = get j b in
      let ret' = if is_lt (cmp q value2) then insert j value2 ret else ret in
      ground (arith, raise_all_absent k a b ret', amount_at-insert k j value2 ret)

  raise_all_present :
      (k : String) (q : Quantity) (a b ret : ResourceList)
      → Distinct a
      → lookup k a ≡ some q
      → amount_at k ret ≡ amount q
      → amount_at k (raise_all a b ret) ≡ max (amount q) (amount_at k b)
  unfolding raise_all
  raise_all_present k q [] b ret d h e = cc
  raise_all_present k q ((j, p) ∷ a) b ret d h e =
      let value2 = get j b in
      let ret' = if is_lt (cmp p value2) then insert j value2 ret else ret in
      ground (
        arith,
        raise_all_present k q a b ret' d.1,
        raise_all_absent k a b ret',
        amount_at-insert k j value2 ret,
        cmp_lem p value2,
      )

  -- `MaxAlloc` gives every resource of its first list the larger of the two amounts, and leaves
  -- every other resource out.
  pub amount_at-max_alloc :
      (k : String) (a b : ResourceList)
      → Distinct a
      → amount_at k (max_alloc a b)
        ≡ elim (lookup k a) [ none ↦ 0 | some q ↦ max (amount q) (amount_at k b) ]
  unfolding max_alloc
  amount_at-max_alloc k a b d = elim (Option-cases (lookup k a)) [
    | inl h ↦ ground (arith, raise_all_absent k a b a, amount_nothing)
    | inr (q, h) ↦ ground (arith, raise_all_present k q a b a d h)
  ]
