-- ===== src/FairQueue/Tests.antt =====
-- Tests of the round robin and of the fair queue.
use cluster_api_provider_nes.Base.{
  ℕ, ◌+◌, String, ◌≡◌, refl, inl, inr, true, false, some, List, [], ◌∷◌, ◌++◌, arith, if◌then◌else◌,
  get_elem?, dec_eq, ltb, ℕ_discrete, done,
}
use cluster_api_provider_nes.Base.Int.{pos, negsuc, ◌≤ℤ◌}
use cluster_api_provider_nes.FairQueue.RoundRobin
use cluster_api_provider_nes.FairQueue.RoundRobin.{Node, Wrr, new_weighted_rr, next}
use cluster_api_provider_nes.FairQueue.RoundRobin.Turns.{IsReady, next_ends}
use cluster_api_provider_nes.FairQueue.RoundRobin.Units.{
  Serves, listed, turn_of, MovedOn, unit_node, next_unit,
}
use cluster_api_provider_nes.FairQueue.RoundRobin.Keys.{add_unit_lem, erase_key, remove_unit_lem}
use cluster_api_provider_nes.FairQueue.Queue.{
  Items, has, FairQueue, add, get, got, finish, check_and_clean_idle_queue,
}
use cluster_api_provider_nes.FairQueue.Queue.Counts.{
  IsValid, count_in, finish-IsValid, finish_loses,
}
use cluster_api_provider_nes.FairQueue.Queue.Choose.{get_item}
use cluster_api_provider_nes.FairQueue.Queue.Adds.{add-IsValid}
use cluster_api_provider_nes.FairQueue.Queue.Cleaning.{check_and_clean_idle_queue-IsValid}

-- a round robin with weights 4 and 2, before its first turn
abbrev weighted : Wrr
weighted = record {
  nodes = record { key = "a"; weight = pos 4 } ∷ record { key = "b"; weight = pos 2 } ∷ [];
  key_set = ("a", tt) ∷ ("b", tt) ∷ [];
  n = 2;
  gcd = pos 2;
  max_w = pos 4;
  i = negsuc 0;
  cw = pos 0;
}

abbrev heaviest : Node
heaviest = record { key = "a"; weight = pos 4 }

weighted-IsReady : IsReady weighted 0 heaviest
weighted-IsReady = record {
  several = ground arith;
  count = ground arith;
  in_range = ground arith;
  at = ground arith;
  positive = ground arith;
  largest = ground arith;
  gcd_nonneg = ground arith;
  cw_le = ground arith;
}

next_ends_example :
    (w' : Wrr) × (j : ℕ) × (node : Node) × (next 2 weighted ≡ done (node.key, w'))
    × (w'.i ≡ pos j)
    × (get_elem? weighted.nodes j ≡ some node)
    × (w'.cw ≤ℤ node.weight)
    × (w'.nodes ≡ weighted.nodes)
    × IsReady w' 0 heaviest
next_ends_example = next_ends weighted 0 heaviest weighted-IsReady

-- a round robin that serves two keys with weight 1
abbrev pair : Wrr
pair = record {
  nodes = unit_node "a" ∷ unit_node "b" ∷ [];
  key_set = ("a", tt) ∷ ("b", tt) ∷ [];
  n = 2;
  gcd = pos 1;
  max_w = pos 1;
  i = pos 1;
  cw = pos 1;
}

abbrev keys : List String
keys = "a" ∷ "b" ∷ []

pair-Serves : Serves pair keys
unfolding dec_eq
pair-Serves = record {
  nodes = refl;
  count = refl;
  key_set = λ k. ground arith;
  distinct = (refl, (refl, tt));
  in_turn = ground arith;
  cw = inr refl;
}

next_unit_example :
    (j : String) × (w' : Wrr) × (next 1 pair ≡ done (j, w'))
    × (get_elem? keys (turn_of pair) ≡ some j)
    × MovedOn pair w'
    × Serves w' keys
next_unit_example = next_unit 0 pair "a" ("b" ∷ []) pair-Serves

add_unit_lem_example :
    (w' : Wrr) × (RoundRobin.add "c" (pos 1) pair ≡ done w')
    × Serves w' (if listed "c" keys then keys else keys ++ "c" ∷ [])
add_unit_lem_example = add_unit_lem "c" pair keys pair-Serves

remove_unit_lem_example :
    (w' : Wrr) × (RoundRobin.remove "a" pair ≡ done w')
    × Serves w' (if listed "a" keys then erase_key "a" keys else keys)
remove_unit_lem_example = remove_unit_lem "a" pair keys pair-Serves

-- Items are numbers, in two groups.
instance abbrev number_items : Items
number_items = record {
  Item = ℕ;
  dec_item = ℕ_discrete;
  group_name = λ x. if ltb x 10 then "a" else "b";
}

abbrev one_group : Wrr
one_group = record {
  nodes = unit_node "a" ∷ [];
  key_set = ("a", tt) ∷ [];
  n = 1;
  gcd = pos 1;
  max_w = pos 1;
  i = negsuc 0;
  cw = pos 0;
}

one_group-Serves : Serves one_group ("a" ∷ [])
one_group-Serves = record {
  nodes = refl;
  count = refl;
  key_set = λ k. ground arith;
  distinct = (refl, tt);
  in_turn = ground arith;
  cw = inl refl;
}

-- a queue with the item 1, in the group "a"
abbrev queued : FairQueue
queued = record {
  queue_expire_duration = 60;
  balancer = one_group;
  queue_group = ("a", record { queue = 1 ∷ []; last_active_time = 0 }) ∷ [];
  length = 1;
  dirty = 1 ∷ [];
  processing = [];
  shutting_down = false;
}

queued-IsValid : IsValid queued ("a" ∷ [])
unfolding has
queued-IsValid = record {
  distinct = (refl, tt);
  total = refl;
  counts = λ x g. ground arith;
  serves = one_group-Serves;
  groups = λ g. ground arith;
}

add-IsValid_example :
    (q' : FairQueue) × (ks' : List String) × (add 5 (some 12) queued ≡ done q') × IsValid q' ks'
add-IsValid_example = add-IsValid 5 (some 12) queued ("a" ∷ []) queued-IsValid

get_item_example :
    (x : ℕ) × (q' : FairQueue) × (get 5 queued ≡ done (got x q'))
    × (has x queued.dirty ≡ true)
    × (has x queued.processing ≡ false)
    × (has x q'.dirty ≡ false)
    × (has x q'.processing ≡ true)
    × (q'.length + 1 ≡ queued.length)
    × IsValid q' ("a" ∷ [])
get_item_example = get_item 5 queued ("a" ∷ []) queued-IsValid (λ e. ground arith)

-- the item is processed, and was added again meanwhile
abbrev again : FairQueue
again = record queued {
  queue_group = ("a", record { queue = []; last_active_time = 0 }) ∷ [];
  length = 0;
  processing = 1 ∷ [];
}

again-IsValid : IsValid again ("a" ∷ [])
unfolding has
again-IsValid = record {
  distinct = (refl, tt);
  total = refl;
  counts = λ x g. ground arith;
  serves = one_group-Serves;
  groups = λ g. ground arith;
}

processed : has 1 again.processing ≡ true
unfolding has ℕ_discrete
processed = refl

dirty : has 1 again.dirty ≡ true
unfolding has ℕ_discrete
dirty = refl

finish-IsValid_example : IsValid (finish 5 (some 1) again) ("a" ∷ [])
unfolding dec_eq
finish-IsValid_example = finish-IsValid 5 1 again ("a" ∷ []) again-IsValid processed (inl refl)

check_and_clean_idle_queue-IsValid_example :
    (q' : FairQueue) × (ks' : List String) × (check_and_clean_idle_queue 100 again ≡ done q')
    × IsValid q' ks'
    × (q'.dirty ≡ again.dirty)
    × (q'.processing ≡ again.processing)
check_and_clean_idle_queue-IsValid_example =
    check_and_clean_idle_queue-IsValid 100 again ("a" ∷ []) again-IsValid

-- the group was cleaned away meanwhile
abbrev cleaned : FairQueue
cleaned = record again { queue_group = []; balancer = new_weighted_rr }

cleaned-IsValid : IsValid cleaned []
unfolding has
cleaned-IsValid = record {
  distinct = tt;
  total = refl;
  counts = λ x g. ground arith;
  serves = record {
    nodes = refl;
    count = refl;
    key_set = λ k. ground arith;
    distinct = tt;
    in_turn = inl refl;
    cw = inl refl;
  };
  groups = λ g. ground arith;
}

finish_loses_example :
    let q' = finish 5 (some 1) cleaned in
    (has 1 q'.dirty ≡ true)
    × (has 1 q'.processing ≡ false)
    × ((g : String) → count_in 1 g q'.queue_group ≡ 0)
    × (add 9 (some 1) q' ≡ done q')
finish_loses_example = finish_loses 5 9 1 cleaned [] cleaned-IsValid dirty refl
