-- ===== src/FairQueue/Queue/Choose.antt =====
-- `Get`: the loop over the balancer's turns ends at a group that has an item, and the item that is
-- given is the first of its queue.
use cluster_api_provider_nes.Base.{
  sum_by-put, ℕ, zero, suc, ◌+◌, ◌-◌, ◌<◌, String, ◌≡◌, ◌≢◌, refl, ◌∙◌, inl, inr, true, false, some,
  List, [], ◌∷◌, arith, dec_eq, Option-cases, list_cases, length, get_elem?, Dict, lookup, insert,
  contains, lookup-insert, Distinct, insert-Distinct, sum_by, done,
}
use cluster_api_provider_nes.FairQueue.RoundRobin.{Wrr}
use cluster_api_provider_nes.FairQueue.RoundRobin.Turns.{
  after, distance, distance_falls, get_elem?-lt,
}
use cluster_api_provider_nes.FairQueue.RoundRobin.Units.{Serves, listed, turn_of, next_unit}
use cluster_api_provider_nes.FairQueue.Queue.{
  Items, ItemSet, has, insert_item, delete_item, FifoQueue, FairQueue, choose, got, get,
}
use cluster_api_provider_nes.FairQueue.Queue.Counts.{IsValid, has-insert_item, has-delete_item}

-- the index of a key that is listed
listed-index :
    (g : String) (ks : List String) → listed g ks ≡ true → (p : ℕ) × (get_elem? ks p ≡ some g)
listed-index g [] h = absurd (ground arith)
listed-index g (k ∷ ks) h = elim (dec_eq g k) [
  | yes e ↦ (0, ground arith)
  | no ne ↦ let (p, at) = listed-index g ks (ground arith) in (suc p, at)
]

get_elem?-listed :
    (ks : List String) (p : ℕ) (g : String) → get_elem? ks p ≡ some g → listed g ks ≡ true
get_elem?-listed [] p g h = absurd (ground arith)
get_elem?-listed (k ∷ ks) zero g h = ground arith
get_elem?-listed (k ∷ ks) (suc p) g h = ground (arith, get_elem?-listed ks p g h)

module _ ⦃I : Items⦄ where
  open I use {Item, dec_item, group_name}

  -- the group has an item to give
  abbrev pub HasItem : String → Dict FifoQueue → Type 0
  HasItem g groups =
      (x : Item) × (rest : List Item) × (fifo : FifoQueue) × (lookup g groups ≡ some fifo)
      × (fifo.queue ≡ x ∷ rest)

  -- Where the lengths do not add up to 0, some group has an item.
  some_group :
      (groups : Dict FifoQueue)
      → Distinct groups
      → sum_by (λ (f : FifoQueue). length f.queue) groups ≢ 0
      → (g : String) × HasItem g groups
  some_group [] d h = absurd (h refl)
  some_group ((g, fifo) ∷ groups) d h = elim (list_cases fifo.queue) [
    | inl e ↦
        let (g', found) = some_group groups d.1 (λ z. h (ground arith)) in
        let (x, rest, fifo', at, q) = found in (g', (x, rest, fifo', ground (arith, d.0), q))
    | inr (x, rest, e) ↦ (g, (x, rest, fifo, ground arith, e))
  ]

  module _ (groups : Dict FifoQueue) (k : String) (ks : List String)
      (known : (g : String) → contains g groups ≡ listed g (k ∷ ks)) (p : ℕ) (g : String)
      (at : get_elem? (k ∷ ks) p ≡ some g) (ready : HasItem g groups) where
    choose_ends :
        (fuel : ℕ) (w : Wrr)
        → Serves w (k ∷ ks)
        → distance w.i w.n p < fuel
        → (j : String) × (w' : Wrr) × (choose fuel w groups ≡ done (j, w'))
          × Serves w' (k ∷ ks)
          × HasItem j groups
    unfolding choose
    choose_ends zero w s f = absurd (omega arith)
    choose_ends (suc fuel) w s f =
        let (j, w', e, turn, moved, s') = next_unit w.n w k ks s in
        let here : contains j groups ≡ true =
          known j ∙ get_elem?-listed (k ∷ ks) (turn_of w) j turn in
        elim (Option-cases (lookup j groups)) [
          | inl absent ↦ absurd (ground arith)
          | inr (fifo, found) ↦ elim (list_cases fifo.queue) [
            | inr (x, rest, q) ↦ (j, w', ground (arith, e, found, q), s', (x, rest, fifo, found, q))
            | inl empty ↦
                let (x, rest, fifo_g, at_g, q_g) = ready in
                let away : turn_of w ≢ p =
                  λ z. ground (arith, turn, at, found, empty, at_g, q_g, z) in
                let p_lt : p < w.n = omega (arith, s.count, get_elem?-lt (k ∷ ks) p at) in
                elim moved [
                  | inl (one, same) ↦ absurd (away (ground (arith, one, p_lt)))
                  | inr (ne, i, n) ↦
                      let away' : after w.i w.n ≢ p = λ z. away (ground (arith, ne, z)) in
                      let closer : distance w'.i w'.n p < fuel =
                        rw (i, n)
                          (omega (arith, distance_falls w.i w.n p s.in_turn.2 p_lt away')) in
                      let (j', w'', e', s'', has_item) = choose_ends fuel w' s' closer in
                      (j', w'', ground (arith, e, found, empty, e'), s'', has_item)
                ]
          ]
        ]

  -- The queue after an item has been taken from the front of its group's.
  got_IsValid :
      (now : ℕ) (g : String) (x : Item) (rest : List Item) (fifo : FifoQueue) (w : Wrr)
      (q : FairQueue) (ks : List String)
      → IsValid q ks
      → Serves w ks
      → lookup g q.queue_group ≡ some fifo
      → fifo.queue ≡ x ∷ rest
      → IsValid
          (record q {
            balancer = w;
            queue_group = insert g (record { queue = rest; last_active_time = now }) q.queue_group;
            length = q.length - 1;
            processing = insert_item x q.processing;
            dirty = delete_item x q.dirty;
          })
          ks
  got_IsValid now g x rest fifo w q ks v s at e =
      let new : FifoQueue = record { queue = rest; last_active_time = now } in
      record {
        distinct = insert-Distinct g new q.queue_group v.distinct;
        total = ground (
          arith,
          v.total,
          sum_by-put (λ f. length f.queue) g new fifo q.queue_group v.distinct at,
        );
        counts = λ y h. ground (
          arith,
          v.counts y h,
          v.counts x g,
          has-insert_item y x q.processing,
          has-delete_item y x q.dirty,
          lookup-insert h g new q.queue_group,
        );
        serves = s;
        groups = λ h. ground (arith, v.groups h, lookup-insert h g new q.queue_group);
      }

  not_has-delete_item : (x : Item) (s : ItemSet) → has x (delete_item x s) ≡ false
  not_has-delete_item x s = ground (arith, has-delete_item x x s)

  has-insert_item_self : (x : Item) (s : ItemSet) → has x (insert_item x s) ≡ true
  has-insert_item_self x s = ground (arith, has-insert_item x x s)

  item_due :
      (q : FairQueue) (ks : List String) (g : String) (x : Item) (rest : List Item)
      (fifo : FifoQueue)
      → IsValid q ks
      → lookup g q.queue_group ≡ some fifo
      → fifo.queue ≡ x ∷ rest
      → (has x q.dirty ≡ true) × (has x q.processing ≡ false)
  item_due q ks g x rest fifo v at e = ground (arith, v.counts x g)

  get_eq :
      (now : ℕ) (q : FairQueue) (g : String) (w : Wrr) (x : Item) (rest : List Item)
      (fifo : FifoQueue)
      → q.length ≢ 0
      → choose (suc q.balancer.n) q.balancer q.queue_group ≡ done (g, w)
      → lookup g q.queue_group ≡ some fifo
      → fifo.queue ≡ x ∷ rest
      → get now q
        ≡ done (
            got x (record q {
              balancer = w;
              queue_group =
                  insert g (record { queue = rest; last_active_time = now }) q.queue_group;
              length = q.length - 1;
              processing = insert_item x q.processing;
              dirty = delete_item x q.dirty;
            }))
  unfolding get
  get_eq now q g w x rest fifo h e at f = ground (arith, e, at, f)

  -- When there are items, `Get` ends without a panic and gives one that was dirty and not
  -- processed; then it is processed and not dirty, and the invariant holds.
  pub get_item :
      (now : ℕ) (q : FairQueue) (ks : List String)
      → IsValid q ks
      → q.length ≢ 0
      → (x : Item) × (q' : FairQueue) × (get now q ≡ done (got x q'))
        × (has x q.dirty ≡ true)
        × (has x q.processing ≡ false)
        × (has x q'.dirty ≡ false)
        × (has x q'.processing ≡ true)
        × (q'.length + 1 ≡ q.length)
        × IsValid q' ks
  get_item now q [] v h =
      let (g, found) = some_group q.queue_group v.distinct (λ z. h (v.total ∙ z)) in
      let (x, rest, fifo, at, e) = found in absurd (ground (arith, v.groups g))
  get_item now q (k ∷ ks) v h =
      let (g, found) = some_group q.queue_group v.distinct (λ z. h (v.total ∙ z)) in
      let (p, at) = listed-index g (k ∷ ks) (ground (arith, v.groups g)) in
      let p_lt : p < q.balancer.n = omega (arith, v.serves.count, get_elem?-lt (k ∷ ks) p at) in
      let near : distance q.balancer.i q.balancer.n p < suc q.balancer.n = ground arith in
      let (j, w, e, s, ready) =
        choose_ends q.queue_group k ks v.groups p g at found (suc q.balancer.n) q.balancer v.serves
          near in
      let (x, rest, fifo, at_j, e_j) = ready in
      let (dirty, idle) = item_due q (k ∷ ks) j x rest fifo v at_j e_j in
      (
        x,
        record q {
          balancer = w;
          queue_group = insert j (record { queue = rest; last_active_time = now }) q.queue_group;
          length = q.length - 1;
          processing = insert_item x q.processing;
          dirty = delete_item x q.dirty;
        },
        get_eq now q j w x rest fifo h e at_j e_j,
        dirty,
        idle,
        not_has-delete_item x q.dirty,
        has-insert_item_self x q.processing,
        omega arith,
        got_IsValid now j x rest fifo w q (k ∷ ks) v s at_j e_j,
      )
