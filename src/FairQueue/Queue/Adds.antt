-- ===== src/FairQueue/Queue/Adds.antt =====
-- `Add` of the fair queue keeps the invariant, and does not panic.
use cluster_api_provider_nes.Base.{
  sum_by-put, ℕ, ◌+◌, String, ◌≡◌, refl, ◌∙◌, ◌⊎◌, inl, inr, true, false, Option, none, some, List,
  [], ◌∷◌, ◌++◌, arith, Bool-cases, Option-cases, length, length-append, lookup, insert,
  lookup-insert, insert-Distinct, sum_by-insert, done,
}
use cluster_api_provider_nes.FairQueue.RoundRobin.Units.{Serves, listed, listed-append}
use cluster_api_provider_nes.FairQueue.RoundRobin.Keys.{add_unit_lem}
use cluster_api_provider_nes.FairQueue.Queue.Counts.{IsValid, has-insert_item, count-append_one}
use cluster_api_provider_nes.FairQueue.Queue.{
  Items, has, insert_item, FifoQueue, FairQueue, fifo_add, enqueue, add,
}

module _ ⦃I : Items⦄ where
  open I use {Item, dec_item, group_name}

  module _ (now : ℕ) (x : Item) (q : FairQueue) (ks : List String) (v : IsValid q ks)
      (fresh : has x q.dirty ≡ false) (idle : has x q.processing ≡ false) where
    -- the queue once the item is marked dirty
    abbrev marked : FairQueue
    marked = record q { dirty = insert_item x q.dirty }

    enqueue_known :
        (fifo : FifoQueue)
        → lookup (group_name x) q.queue_group ≡ some fifo
        → (q' : FairQueue) × (enqueue now x marked ≡ done q') × IsValid q' ks
    unfolding enqueue
    enqueue_known fifo known =
        let k = group_name x in
        let new = fifo_add now x fifo in
        (
          record marked { queue_group = insert k new q.queue_group; length = q.length + 1 },
          ground (arith, known),
          record {
            distinct = insert-Distinct k new q.queue_group v.distinct;
            total = ground (
              arith,
              v.total,
              sum_by-put (λ f. length f.queue) k new fifo q.queue_group v.distinct known,
              length-append fifo.queue (x ∷ []),
            );
            counts = λ y g. ground (
              arith,
              v.counts y g,
              has-insert_item y x q.dirty,
              lookup-insert g k new q.queue_group,
              count-append_one y x fifo.queue,
              known,
            );
            serves = v.serves;
            groups = λ g. ground (arith, v.groups g, lookup-insert g k new q.queue_group, known);
          },
        )

    enqueue_new :
        lookup (group_name x) q.queue_group ≡ none
        → (q' : FairQueue) × (enqueue now x marked ≡ done q') × IsValid q' (ks ++ group_name x ∷ [])
    unfolding enqueue
    enqueue_new absent =
        let k = group_name x in
        let empty : FifoQueue = record { queue = []; last_active_time = now } in
        let new = fifo_add now x empty in
        let unlisted : listed k ks ≡ false = ground (arith, v.groups k) in
        let (b, added, serves) = add_unit_lem k q.balancer ks v.serves in
        let serves' : Serves b (ks ++ k ∷ []) = rw unlisted at serves in
        let groups1 = insert k empty q.queue_group in
        let known1 : lookup k groups1 ≡ some empty =
          ground (arith, lookup-insert k k empty q.queue_group) in
        let distinct1 = insert-Distinct k empty q.queue_group v.distinct in
        (
          record marked { queue_group = insert k new groups1; balancer = b; length = q.length + 1 },
          ground (arith, absent, added),
          record {
            distinct = insert-Distinct k new groups1 distinct1;
            total = ground (
              arith,
              v.total,
              sum_by-put (λ f. length f.queue) k new empty groups1 distinct1 known1,
              sum_by-insert (λ (f : FifoQueue). length f.queue) k empty q.queue_group absent,
            );
            counts = λ y g. ground (
              arith,
              v.counts y g,
              has-insert_item y x q.dirty,
              lookup-insert g k new groups1,
              lookup-insert g k empty q.queue_group,
              absent,
            );
            serves = serves';
            groups = λ g. ground (
              arith,
              v.groups g,
              lookup-insert g k new groups1,
              lookup-insert g k empty q.queue_group,
              listed-append g k ks,
            );
          },
        )

  -- The item is refused, was dirty, or is processed now: no queue changes.
  add_quiet :
      (now : ℕ) (x : Item) (q : FairQueue) (ks : List String)
      → IsValid q ks
      → ((q.shutting_down ≡ true) ⊎ (has x q.dirty ≡ true)) ⊎ (has x q.processing ≡ true)
      → (q' : FairQueue) × (add now (some x) q ≡ done q') × IsValid q' ks
  unfolding add
  add_quiet now x q ks v h = elim (Bool-cases q.shutting_down) [
    | inl down ↦ (q, ground arith, v)
    | inr up ↦ elim (Bool-cases (has x q.dirty)) [
      | inl dirty ↦ (q, ground arith, v)
      | inr fresh ↦ (
        record q { dirty = insert_item x q.dirty },
        ground arith,
        record {
          distinct = v.distinct;
          total = v.total;
          counts = λ y g. ground (arith, v.counts y g, has-insert_item y x q.dirty);
          serves = v.serves;
          groups = v.groups;
        },
      )
    ]
  ]

  add_eq :
      (now : ℕ) (x : Item) (q : FairQueue)
      → q.shutting_down ≡ false
      → has x q.dirty ≡ false
      → has x q.processing ≡ false
      → add now (some x) q ≡ enqueue now x (record q { dirty = insert_item x q.dirty })
  unfolding add
  add_eq now x q up fresh idle = ground arith

  -- `Add` of an item, or of a value that is none, never panics and keeps the invariant, for the keys
  -- that the balancer serves then.
  pub add-IsValid :
      (now : ℕ) (obj : Option Item) (q : FairQueue) (ks : List String)
      → IsValid q ks
      → (q' : FairQueue) × (ks' : List String) × (add now obj q ≡ done q') × IsValid q' ks'
  unfolding add
  add-IsValid now none q ks v = (q, ks, refl, v)
  add-IsValid now (some x) q ks v = elim (Bool-cases q.shutting_down) [
    | inl down ↦ let (q', e, v') = add_quiet now x q ks v (inl (inl down)) in (q', ks, e, v')
    | inr up ↦ elim (Bool-cases (has x q.dirty)) [
      | inl dirty ↦ let (q', e, v') = add_quiet now x q ks v (inl (inr dirty)) in (q', ks, e, v')
      | inr fresh ↦ elim (Bool-cases (has x q.processing)) [
        | inl busy ↦ let (q', e, v') = add_quiet now x q ks v (inr busy) in (q', ks, e, v')
        | inr idle ↦ elim (Option-cases (lookup (group_name x) q.queue_group)) [
          | inl absent ↦
              let (q', e, v') = enqueue_new now x q ks v fresh idle absent in
              (q', ks ++ group_name x ∷ [], add_eq now x q up fresh idle ∙ e, v')
          | inr (fifo, known) ↦
              let (q', e, v') = enqueue_known now x q ks v fresh idle fifo known in
              (q', ks, add_eq now x q up fresh idle ∙ e, v')
        ]
      ]
    ]
  ]
