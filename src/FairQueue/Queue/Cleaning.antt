-- ===== src/FairQueue/Queue/Cleaning.antt =====
-- `checkAndCleanIdleQueue`: groups that have been idle are dropped, and no item is.
use cluster_api_provider_nes.Base.{
  ℕ, String, ◌≡◌, refl, inl, inr, true, some, List, [], ◌∷◌, arith, ◌==◌, Bool-cases, length, Dict,
  lookup, erase, lookup-erase, Distinct, erase-Distinct, sum_by-erase, Found, Found-self,
  Found-erase, done,
}
use cluster_api_provider_nes.FairQueue.RoundRobin.{Wrr}
use cluster_api_provider_nes.FairQueue.RoundRobin.Units.{Serves, listed}
use cluster_api_provider_nes.FairQueue.RoundRobin.Keys.{
  remove_unit_lem, erase_key, listed-erase_key,
}
use cluster_api_provider_nes.FairQueue.Queue.{
  Items, FifoQueue, FairQueue, is_idle, clean_each, check_and_clean_idle_queue,
}
use cluster_api_provider_nes.FairQueue.Queue.Counts.{IsValid}

module _ ⦃I : Items⦄ where
  open I use {Item, dec_item, group_name}

  no_items : (l : List Item) → (length l == 0) ≡ true → l ≡ []
  no_items [] h = refl
  no_items (x ∷ l) h = absurd (ground arith)

  -- an idle group, dropped
  abbrev dropped : String → Wrr → FairQueue → FairQueue
  dropped g w q = record q { balancer = w; queue_group = erase g q.queue_group }

  dropped-IsValid :
      (g : String) (fifo : FifoQueue) (w : Wrr) (q : FairQueue) (ks : List String)
      → IsValid q ks
      → lookup g q.queue_group ≡ some fifo
      → fifo.queue ≡ []
      → Serves w (erase_key g ks)
      → IsValid (dropped g w q) (erase_key g ks)
  dropped-IsValid g fifo w q ks v at empty s = record {
    distinct = erase-Distinct g q.queue_group v.distinct;
    total = ground (
      arith,
      v.total,
      sum_by-erase (λ (f : FifoQueue). length f.queue) g fifo q.queue_group v.distinct at,
    );
    counts = λ x h. ground (arith, v.counts x h, lookup-erase h g q.queue_group, at, empty);
    serves = s;
    groups = λ h. ground (
      arith,
      v.groups h,
      lookup-erase h g q.queue_group,
      listed-erase_key h g ks v.serves.distinct,
    );
  }

  clean_each-IsValid :
      (now : ℕ) (groups : Dict FifoQueue) (q : FairQueue) (ks : List String)
      → IsValid q ks
      → Distinct groups
      → Found q.queue_group groups
      → (q' : FairQueue) × (ks' : List String) × (clean_each now groups q ≡ done q')
        × IsValid q' ks'
        × (q'.dirty ≡ q.dirty)
        × (q'.processing ≡ q.processing)
  unfolding clean_each
  clean_each-IsValid now [] q ks v d f = (q, ks, refl, v, refl, refl)
  clean_each-IsValid now ((g, fifo) ∷ groups) q ks v d f =
      elim (Bool-cases (is_idle now q.queue_expire_duration fifo)) [
        | inr busy ↦
            let (q', ks', e, v', dirty, processing) =
              clean_each-IsValid now groups q ks v d.1 f.1 in
            (q', ks', ground (arith, busy, e), v', dirty, processing)
        | inl idle ↦
            let empty : fifo.queue ≡ [] = no_items fifo.queue (ground (arith, idle)) in
            let known : listed g ks ≡ true = ground (arith, v.groups g, f.0) in
            let (w, removes, serves) = remove_unit_lem g q.balancer ks v.serves in
            let serves' : Serves w (erase_key g ks) = rw known at serves in
            let v1 = dropped-IsValid g fifo w q ks v f.0 empty serves' in
            let (q', ks', e, v', dirty, processing) =
              clean_each-IsValid now groups (dropped g w q) (erase_key g ks) v1 d.1
                (Found-erase g q.queue_group groups d.0 f.1) in
            (q', ks', ground (arith, idle, removes, e), v', dirty, processing)
      ]

  -- Cleaning never panics, keeps the invariant, and leaves which items are dirty or processed as
  -- it is, so that no item is dropped with its group.
  pub check_and_clean_idle_queue-IsValid :
      (now : ℕ) (q : FairQueue) (ks : List String)
      → IsValid q ks
      → (q' : FairQueue) × (ks' : List String) × (check_and_clean_idle_queue now q ≡ done q')
        × IsValid q' ks'
        × (q'.dirty ≡ q.dirty)
        × (q'.processing ≡ q.processing)
  unfolding check_and_clean_idle_queue
  check_and_clean_idle_queue-IsValid now q ks v =
      clean_each-IsValid now q.queue_group q ks v v.distinct (Found-self q.queue_group v.distinct)
