-- ===== src/FairQueue/RoundRobin.antt =====
-- balancer/weightedroundrobin/scheduler.go: the weighted round robin. Go's `int` is an integer; `n`
-- is a length and never negative. Loops take fuel, and an index out of range or a division by zero
-- is a panic.
pub mod Turns
pub mod Units
pub mod Keys
use cluster_api_provider_nes.Base.{
  ℕ, zero, suc, ◌+◌, String, ◌≡◌, Bool, true, false, ◌&&◌, Option, none, some, List, [], ◌∷◌, ◌++◌,
  ◌==◌, if◌then◌else◌, ite, dec_eq, length, get_elem?, Dict, insert, erase, contains, Run, done,
  panics, running, then_run,
}
use cluster_api_provider_nes.Base.Int.{
  ℤ, pos, negsuc, pos_part, ◌+ℤ◌, ◌-ℤ◌, ◌%ℤ◌, abs, ltb_ℤ, leb_ℤ, is_zero_ℤ,
}

pub record Node : Type 0 where
  pub key : String
  pub weight : ℤ

pub record Wrr : Type 0 where
  pub nodes : List Node
  pub key_set : Dict (Unit {0})
  pub n : ℕ
  pub gcd : ℤ
  pub max_w : ℤ
  pub i : ℤ
  pub cw : ℤ

-- `NewWeightedRR`
abbrev pub new_weighted_rr : Wrr
new_weighted_rr = record {
  nodes = [];
  key_set = [];
  n = 0;
  gcd = pos 0;
  max_w = pos 0;
  i = pos 0;
  cw = pos 0;
}

-- The loop of `gcd`; `x % y` panics for y = 0.
unfoldable pub gcd_loop : ℕ → ℤ → ℤ → Run ℤ
gcd_loop zero x y = running
gcd_loop (suc fuel) x y =
    let t = x %ℤ y in
    let rest = gcd_loop fuel y t in
    if is_zero_ℤ y then panics else if ltb_ℤ (pos 0) t then rest else done y

-- The divisor's absolute value falls from the second round on.
unfoldable pub gcd_int : ℤ → ℤ → Run ℤ
unfolding gcd_loop
gcd_int x y = gcd_loop (abs y + 2) x y

-- the loop of `weightGcd`
unfoldable pub weight_gcd_from : ℤ → List Node → Run ℤ
unfolding gcd_int
weight_gcd_from divisor [] = done divisor
weight_gcd_from divisor (node ∷ nodes) = elim (is_zero_ℤ (divisor +ℤ pos 1)) [
  | true ↦ weight_gcd_from node.weight nodes
  | false ↦ then_run (gcd_int divisor node.weight) (λ d. weight_gcd_from d nodes)
]

unfoldable pub weight_gcd : List Node → Run ℤ
unfolding weight_gcd_from
weight_gcd nodes = weight_gcd_from (negsuc 0) nodes

-- the loop of `weightMax`
unfoldable pub weight_max_from : ℤ → List Node → ℤ
weight_max_from max [] = max
weight_max_from max (node ∷ nodes) =
    weight_max_from (if ltb_ℤ max node.weight then node.weight else max) nodes

unfoldable pub weight_max : List Node → ℤ
unfolding weight_max_from
weight_max nodes = weight_max_from (negsuc 0) nodes

-- The part of a round of `Next` that moves `i` and `cw`.
unfoldable pub turn : Wrr → Wrr
turn w =
    let i = (w.i +ℤ pos 1) %ℤ pos w.n in
    let cw = w.cw -ℤ w.gcd in
    if is_zero_ℤ i
    then record w { i = i; cw = if leb_ℤ cw (pos 0) then w.max_w else cw }
    else record w { i = i }

-- `w.nodes[i]`
unfoldable pub node_at : ℤ → List Node → Option Node
node_at (pos k) nodes = get_elem? nodes k
node_at (negsuc k) nodes = none

-- Its loop. With `i` at 0, `cw` is 0 after the move only where `maxW` was put in, and is 0.
unfoldable pub next_loop : ℕ → Wrr → Run (String × Wrr)
unfolding node_at
next_loop zero w = running
next_loop (suc fuel) w =
    let w' = turn w in
    let rest = next_loop fuel w' in
    let stay : Run (String × Wrr) = elim (node_at w'.i w'.nodes) [
      | none ↦ panics
      | some node ↦ if leb_ℤ w'.cw node.weight then done (node.key, w') else rest
    ] in
    if is_zero_ℤ w'.i && is_zero_ℤ w'.cw then done ("", w') else stay

unfoldable pub next : ℕ → Wrr → Run (String × Wrr)
unfolding next_loop
next fuel w =
    let alone : Run (String × Wrr) = elim (get_elem? w.nodes 0) [
      | none ↦ panics
      | some node ↦ done (node.key, w)
    ] in
    if w.n == 0 then done ("", w) else if w.n == 1 then alone else next_loop fuel w

-- what `Add` does with the weight, before it appends the node
unfoldable pub add_weight : ℤ → Wrr → Run Wrr
unfolding gcd_int
add_weight weight w =
    let later : Run Wrr = then_run (gcd_int w.gcd weight) (λ d.
      done (record w { gcd = d; max_w = if ltb_ℤ w.max_w weight then weight else w.max_w })) in
    if ltb_ℤ (pos 0) weight
    then (if is_zero_ℤ w.gcd
        then done (record w { gcd = weight; max_w = weight; i = negsuc 0; cw = pos 0 })
        else later)
    else done w

unfoldable pub add : String → ℤ → Wrr → Run Wrr
unfolding add_weight
add ref weight w =
    if contains ref w.key_set
    then done w
    else then_run (add_weight weight w) (λ w'. done (record w' {
      nodes = w'.nodes ++ record { key = ref; weight = weight } ∷ [];
      key_set = insert ref tt w'.key_set;
      n = w'.n + 1;
    }))

-- The loop of `Remove`: the nodes without the first one that has the key, and its index.
unfoldable pub remove_node : String → List Node → Option (ℕ × List Node)
remove_node ref [] = none
remove_node ref (node ∷ nodes) =
    ite (dec_eq node.key ref) (some (0, nodes))
      (elim (remove_node ref nodes) [ none ↦ none | some (k, rest) ↦ some (suc k, node ∷ rest) ])

-- the nodes and `i` after it
unfoldable pub drop_node : String → Wrr → Wrr
unfolding remove_node
drop_node ref w = elim (remove_node ref w.nodes) [
  | none ↦ w
  | some (k, nodes) ↦ record w {
    nodes = nodes;
    i = if leb_ℤ (pos k) w.i then w.i -ℤ pos 1 else w.i;
  }
]

unfoldable pub remove : String → Wrr → Run Wrr
remove ref w =
    let w' = drop_node ref w in
    if contains ref w.key_set
    then then_run (weight_gcd w'.nodes) (λ d. done (record w' {
      key_set = erase ref w'.key_set;
      n = length w'.nodes;
      cw = pos 0;
      max_w = weight_max w'.nodes;
      gcd = d;
    }))
    else done w

unfoldable pub clear : Wrr → Wrr
clear w = record {
  nodes = [];
  key_set = [];
  n = 0;
  gcd = pos 0;
  max_w = pos 0;
  i = negsuc 0;
  cw = pos 0;
}
