-- ===== src/FairQueue/Queue/Counts.antt =====
-- The invariant of the fair queue: which items stand in its queues, and how often.
use cluster_api_provider_nes.Base.{
  sum_by-put, ℕ, suc, ◌+◌, String, ◌≡◌, refl, sym, subst, ◌⊎◌, inl, inr, true, false, not, ◌&&◌,
  none, some, List, [], ◌∷◌, ◌++◌, arith, ite, if◌then◌else◌, dec_eq, Bool-cases, Option-cases,
  length, length-append, Dict, lookup, contains, lookup-insert, Distinct, insert-Distinct, sum_by,
  done,
}
use cluster_api_provider_nes.FairQueue.RoundRobin.Units.{Serves, listed}
use cluster_api_provider_nes.FairQueue.Queue.{
  Items, ItemSet, has, insert_item, delete_item, FifoQueue, FairQueue, fifo_add, add, finish,
}

module _ ⦃I : Items⦄ where
  open I use {Item, dec_item, group_name}

  pub has-insert_item :
      (x y : Item) (s : ItemSet) → has x (insert_item y s) ≡ ite (dec_item x y) true (has x s)
  unfolding has insert_item
  has-insert_item x y [] = refl
  has-insert_item x y (z ∷ s) = ground arith

  pub has-delete_item :
      (x y : Item) (s : ItemSet) → has x (delete_item y s) ≡ ite (dec_item x y) false (has x s)
  unfolding has delete_item
  has-delete_item x y [] = ground arith
  has-delete_item x y (z ∷ s) = ground (arith, has-delete_item x y s)

  -- how often an item stands in a list
  abbrev pub count : Item → List Item → ℕ
  count x [] = 0
  count x (y ∷ l) = let n = count x l in ite (dec_item x y) (suc n) n

  pub count-append_one :
      (x y : Item) (l : List Item) → count x (l ++ y ∷ []) ≡ count x l + ite (dec_item x y) 1 0
  count-append_one x y [] = ground arith
  count-append_one x y (z ∷ l) = ground (arith, count-append_one x y l)

  -- how often it stands in the queue of a group
  abbrev pub count_in : Item → String → Dict FifoQueue → ℕ
  count_in x g groups = elim (lookup g groups) [ none ↦ 0 | some fifo ↦ count x fifo.queue ]

  -- An item is due when it is dirty and not processed: then it is to stand in the queue of its
  -- group, once, and in no other.
  abbrev pub due : Item → String → FairQueue → ℕ
  due x g q =
      ite (dec_eq g (group_name x)) (if has x q.dirty && not (has x q.processing) then 1 else 0) 0

  pub record IsValid (q : FairQueue) (ks : List String) : Type 0 where
    pub distinct : Distinct q.queue_group
    pub total : q.length ≡ sum_by (λ (f : FifoQueue). length f.queue) q.queue_group
    pub counts : (x : Item) (g : String) → count_in x g q.queue_group ≡ due x g q
    pub serves : Serves q.balancer ks
    pub groups : (g : String) → contains g q.queue_group ≡ listed g ks

  finish-balancer :
      (now : ℕ) (x : Item) (q : FairQueue) → (finish now (some x) q).balancer ≡ q.balancer
  unfolding finish
  finish-balancer now x q = ground arith

  finish_known :
      (now : ℕ) (x : Item) (q : FairQueue) (ks : List String) (fifo : FifoQueue)
      → IsValid q ks
      → has x q.processing ≡ true
      → lookup (group_name x) q.queue_group ≡ some fifo
      → has x q.dirty ≡ true
      → IsValid (finish now (some x) q) ks
  unfolding finish
  finish_known now x q ks fifo v p known dirty =
      let k = group_name x in
      let new = fifo_add now x fifo in
      record {
        distinct = ground (arith, insert-Distinct k new q.queue_group v.distinct);
        total = ground (
          arith,
          v.total,
          sum_by-put (λ f. length f.queue) k new fifo q.queue_group v.distinct known,
          length-append fifo.queue (x ∷ []),
        );
        counts = λ y g. ground (
          arith,
          v.counts y g,
          has-delete_item y x q.processing,
          lookup-insert g k new q.queue_group,
          count-append_one y x fifo.queue,
        );
        serves = subst (λ b. Serves b ks) (sym (finish-balancer now x q)) v.serves;
        groups = λ g. ground (arith, v.groups g, lookup-insert g k new q.queue_group);
      }

  finish_clean :
      (now : ℕ) (x : Item) (q : FairQueue) (ks : List String)
      → IsValid q ks
      → has x q.dirty ≡ false
      → IsValid (finish now (some x) q) ks
  unfolding finish
  finish_clean now x q ks v clean = record {
    distinct = ground (arith, v.distinct);
    total = ground (arith, v.total);
    counts = λ y g. ground (arith, v.counts y g, has-delete_item y x q.processing);
    serves = subst (λ b. Serves b ks) (sym (finish-balancer now x q)) v.serves;
    groups = λ g. ground (arith, v.groups g);
  }

  -- `Done` of an item that is processed keeps the invariant, if the item's group is known or the
  -- item is not dirty.
  pub finish-IsValid :
      (now : ℕ) (x : Item) (q : FairQueue) (ks : List String)
      → IsValid q ks
      → has x q.processing ≡ true
      → (contains (group_name x) q.queue_group ≡ true) ⊎ (has x q.dirty ≡ false)
      → IsValid (finish now (some x) q) ks
  finish-IsValid now x q ks v p h = elim (Bool-cases (has x q.dirty)) [
    | inr clean ↦ finish_clean now x q ks v clean
    | inl dirty ↦ elim (Option-cases (lookup (group_name x) q.queue_group)) [
      | inl absent ↦ absurd (ground arith)
      | inr (fifo, known) ↦ finish_known now x q ks fifo v p known dirty
    ]
  ]

  -- An item that is dirty again when its group has been cleaned away is lost by `Done`: it is
  -- dirty and not processed, no queue has it, and while this is so adding it changes nothing.
  pub finish_loses :
      (now later : ℕ) (x : Item) (q : FairQueue) (ks : List String)
      → IsValid q ks
      → has x q.dirty ≡ true
      → lookup (group_name x) q.queue_group ≡ none
      → let q' = finish now (some x) q in
        (has x q'.dirty ≡ true)
        × (has x q'.processing ≡ false)
        × ((g : String) → count_in x g q'.queue_group ≡ 0)
        × (add later (some x) q' ≡ done q')
  unfolding finish add
  finish_loses now later x q ks v dirty absent =
      let deleted = has-delete_item x x q.processing in
      (
        ground arith,
        ground (arith, deleted),
        λ g. ground (
          arith,
          v.counts x g,
          lookup-insert g (group_name x) (record { queue = []; last_active_time = now })
              q.queue_group,
        ),
        ground arith,
      )
