-- ===== src/FairQueue/Queue.antt =====
-- fair.go and fifo.go: the fair queue. Its lock makes each method one step; `now` is what the clock
-- gives it. The signals of the condition variable are left out: a `Get` that has to wait is one that
-- is called again.
pub mod Counts
pub mod Choose
pub mod Adds
pub mod Cleaning
use cluster_api_provider_nes.Base.{
  ℕ, zero, suc, ◌+◌, ◌-◌, String, ◌≡◌, Bool, true, false, ◌&&◌, Option, none, some, List, [], ◌∷◌,
  ◌++◌, ltb, ◌==◌, if◌then◌else◌, ite, length, Dict, lookup, insert, erase, Run, done, panics,
  running, then_run,
}
use cluster_api_provider_nes.Base.Int.{pos}
use cluster_api_provider_nes.FairQueue.RoundRobin
use cluster_api_provider_nes.FairQueue.RoundRobin.{Wrr, new_weighted_rr}

-- The interface `Item`: values that can be keys of a Go map, each with the name of its group.
pub record Items : Type 1 where
  pub Item : Type 0
  pub dec_item : Discrete Item
  pub group_name : Item → String

module _ ⦃I : Items⦄ where
  open I use {Item, dec_item, group_name}

  -- `set` of fifo.go
  abbrev pub ItemSet : Type 0
  ItemSet = List Item

  unfoldable pub has : Item → ItemSet → Bool
  has x [] = false
  has x (y ∷ s) = ite (dec_item x y) true (has x s)

  unfoldable pub insert_item : Item → ItemSet → ItemSet
  unfolding has
  insert_item x s = if has x s then s else x ∷ s

  unfoldable pub delete_item : Item → ItemSet → ItemSet
  delete_item x [] = []
  delete_item x (y ∷ s) = let rest = delete_item x s in ite (dec_item x y) rest (y ∷ rest)

  pub record FifoQueue : Type 0 where
    pub queue : List Item
    pub last_active_time : ℕ

  abbrev pub new_fifo_queue : ℕ → FifoQueue
  new_fifo_queue now = record { queue = []; last_active_time = now }

  -- `(*FifoQueue).Add`
  abbrev pub fifo_add : ℕ → Item → FifoQueue → FifoQueue
  fifo_add now x f = record { queue = f.queue ++ x ∷ []; last_active_time = now }

  -- `(*FifoQueue).Get`; `none` is what it gives an empty queue.
  abbrev pub fifo_get : ℕ → FifoQueue → Option (Item × FifoQueue)
  fifo_get now f = elim f.queue [
    | [] ↦ none
    | x ∷ rest ↦ some (x, record { queue = rest; last_active_time = now })
  ]

  pub record FairQueue : Type 0 where
    pub queue_expire_duration : ℕ
    pub balancer : Wrr
    pub queue_group : Dict FifoQueue
    pub length : ℕ
    pub dirty : ItemSet
    pub processing : ItemSet
    pub shutting_down : Bool

  -- `NewRateLimitingFairQueue`, with the idle time that its options give
  unfoldable pub new_fair_queue : ℕ → FairQueue
  new_fair_queue expire = record {
    queue_expire_duration = expire;
    balancer = new_weighted_rr;
    queue_group = [];
    length = 0;
    dirty = [];
    processing = [];
    shutting_down = false;
  }

  -- The group's queue, made and entered in the balancer if there is none.
  unfoldable pub fifo_for : ℕ → String → FairQueue → Run (FifoQueue × FairQueue)
  fifo_for now group q = elim (lookup group q.queue_group) [
    | some fifo ↦ done (fifo, q)
    | none ↦ then_run (RoundRobin.add group (pos 1) q.balancer) (λ b.
        let fifo = new_fifo_queue now in
        done (fifo, record q { queue_group = insert group fifo q.queue_group; balancer = b }))
  ]

  unfoldable pub enqueue : ℕ → Item → FairQueue → Run FairQueue
  unfolding fifo_for
  enqueue now x q = then_run (fifo_for now (group_name x) q) (λ r.
      let q' = r.1 in
      done (record q' {
        queue_group = insert (group_name x) (fifo_add now x r.0) q'.queue_group;
        length = q'.length + 1;
      }))

  -- `Add`; `none` is a value that is no `Item`.
  unfoldable pub add : ℕ → Option Item → FairQueue → Run FairQueue
  unfolding enqueue has insert_item
  add now none q = done q
  add now (some x) q =
      let q' = record q { dirty = insert_item x q.dirty } in
      if q.shutting_down
      then done q
      else if has x q.dirty
      then done q
      else if has x q.processing
      then done q'
      else enqueue now x q'

  -- The loop of `Get` that looks for a group with items; a group that is not known is a nil pointer.
  unfoldable pub choose : ℕ → Wrr → Dict FifoQueue → Run (String × Wrr)
  choose zero w groups = running
  choose (suc fuel) w groups = then_run (RoundRobin.next (suc w.n) w) (λ r.
      elim (lookup r.0 groups) [
        | none ↦ panics
        | some fifo ↦ elim (fifo.queue) [ [] ↦ choose fuel r.1 groups | x ∷ rest ↦ done (r.0, r.1) ]
      ])

  -- What a call of `Get` does: it waits for an item, says that the queue is shut down, or gives one.
  pub data Got : Type 0 where
    waits shutdown : Got
    got : Item → FairQueue → Got

  unfoldable pub take_from : ℕ → String → FifoQueue → FairQueue → Run Got
  unfolding insert_item delete_item
  take_from now group fifo q = elim (fifo_get now fifo) [
    | none ↦ panics
    | some (x, fifo') ↦ done (
        got x (record q {
          queue_group = insert group fifo' q.queue_group;
          length = q.length - 1;
          processing = insert_item x q.processing;
          dirty = delete_item x q.dirty;
        }))
  ]

  unfoldable pub get : ℕ → FairQueue → Run Got
  unfolding choose take_from
  get now q =
      let chosen : Run Got = then_run (choose (suc q.balancer.n) q.balancer q.queue_group) (λ r.
        elim (lookup r.0 q.queue_group) [
          | none ↦ panics
          | some fifo ↦ take_from now r.0 fifo (record q { balancer = r.1 })
        ]) in
      if q.length == 0 then (if q.shutting_down then done shutdown else done waits) else chosen

  -- `Done`. Where the item's group is not known any more, a dirty item gets it a new queue, which
  -- stays empty and is not entered in the balancer.
  unfoldable pub finish : ℕ → Option Item → FairQueue → FairQueue
  unfolding has delete_item
  finish now none q = q
  finish now (some x) q =
      let q' = record q { processing = delete_item x q.processing } in
      let group = group_name x in
      elim (lookup group q.queue_group) [
        | none ↦
            if has x q.dirty
            then record q' { queue_group = insert group (new_fifo_queue now) q.queue_group }
            else q'
        | some fifo ↦
            if has x q.dirty
            then record q' {
              queue_group = insert group (fifo_add now x fifo) q.queue_group;
              length = q.length + 1;
            }
            else q'
      ]

  unfoldable pub shut_down : FairQueue → FairQueue
  shut_down q = record q { shutting_down = true }

  -- the test of `checkAndCleanIdleQueue`
  abbrev pub is_idle : ℕ → ℕ → FifoQueue → Bool
  is_idle now expire fifo = ltb (fifo.last_active_time + expire) now && length fifo.queue == 0

  -- its loop, over the entries that the range visits
  unfoldable pub clean_each : ℕ → Dict FifoQueue → FairQueue → Run FairQueue
  clean_each now [] q = done q
  clean_each now ((group, fifo) ∷ groups) q = elim (is_idle now q.queue_expire_duration fifo) [
    | false ↦ clean_each now groups q
    | true ↦ then_run (RoundRobin.remove group q.balancer) (λ b.
        clean_each now groups (record q { balancer = b; queue_group = erase group q.queue_group }))
  ]

  unfoldable pub check_and_clean_idle_queue : ℕ → FairQueue → Run FairQueue
  unfolding clean_each
  check_and_clean_idle_queue now q = clean_each now q.queue_group q
