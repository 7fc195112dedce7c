-- ===== src/FairQueue/RoundRobin/Turns.antt =====
-- `Next` of the weighted round robin: that it ends, and the turns that it gives.
use native.Mathlib.Nat.{mod-eq_of_lt, mod_self}
use cluster_api_provider_nes.Base.{
  ℕ, zero, suc, ◌+◌, ◌-◌, ◌≤◌, ◌<◌, String, ◌≡◌, ◌≢◌, refl, ap, ◌∙◌, ◌⊎◌, inl, inr, some, List, [],
  ◌∷◌, arith, ltb, if◌then◌else◌, Bool-cases, length, get_elem?, get_elem?_total, done,
}
use cluster_api_provider_nes.Base.Int.{
  ℤ, pos, negsuc, ◌+ℤ◌, ◌-ℤ◌, ◌%ℤ◌, ◌≤ℤ◌, leb_ℤ, int_laws, pos-+ℤ-pos, pos-%ℤ-pos,
}
use cluster_api_provider_nes.FairQueue.RoundRobin.{Node, Wrr, turn, next_loop, next}

-- the index of the node whose turn comes after `i`
abbrev pub after : ℤ → ℕ → ℕ
after (pos k) n = if ltb (k + 1) n then k + 1 else 0
after (negsuc k) n = 0

-- `i` is -1 or an index.
abbrev pub InRange : ℤ → ℕ → Type 0
InRange (pos k) n = k < n
InRange (negsuc k) n = k ≡ 0

rem_after : (i : ℤ) (n : ℕ) → 0 < n → InRange i n → (i +ℤ pos 1) %ℤ pos n ≡ pos (after i n)
rem_after (pos k) n h r =
    rw (pos-+ℤ-pos k 1, pos-%ℤ-pos)
      (ap pos (ground (arith, mod-eq_of_lt {n = k + 1} {m = n}, mod_self n)))
rem_after (negsuc k) n h r =
    let e : negsuc k +ℤ pos 1 ≡ pos 0 = omega int_laws in rw (e, pos-%ℤ-pos) (ap pos (omega arith))

pub after-lt : (i : ℤ) (n : ℕ) → 0 < n → after i n < n
after-lt (pos k) n h = ground arith
after-lt (negsuc k) n h = ground arith

-- A turn moves `i` on by one, from the last node to the first, and never raises `cw` above the
-- largest weight.
pub turn_lem :
    (w : Wrr)
    → 0 < w.n
    → InRange w.i w.n
    → ((turn w).i ≡ pos (after w.i w.n))
      × ((turn w).nodes ≡ w.nodes)
      × ((turn w).n ≡ w.n)
      × ((turn w).max_w ≡ w.max_w)
      × ((turn w).gcd ≡ w.gcd)
      × (after w.i w.n ≡ 0 → pos 1 ≤ℤ w.max_w → pos 1 ≤ℤ (turn w).cw)
      × (((turn w).cw ≡ w.cw) ⊎ ((turn w).cw ≡ w.max_w) ⊎ ((turn w).cw ≡ w.cw -ℤ w.gcd))
unfolding turn
turn_lem w h r = ground (arith, rem_after w.i w.n h r)

-- What makes `Next` end: there are nodes, and one of them has the largest weight.
pub record IsReady (w : Wrr) (p : ℕ) (top : Node) : Type 0 where
  pub several : 2 ≤ w.n
  pub count : w.n ≡ length w.nodes
  pub in_range : InRange w.i w.n
  pub at : get_elem? w.nodes p ≡ some top
  pub positive : pos 1 ≤ℤ w.max_w
  pub largest : w.max_w ≤ℤ top.weight
  pub gcd_nonneg : pos 0 ≤ℤ w.gcd
  pub cw_le : w.cw ≤ℤ w.max_w

-- how many turns it takes to come to the node `p`
abbrev pub distance : ℤ → ℕ → ℕ → ℕ
distance i n p = if ltb p (after i n) then p + n - after i n else p - after i n

turn-IsReady : (w : Wrr) (p : ℕ) (top : Node) → IsReady w p top → IsReady (turn w) p top
turn-IsReady w p top r =
    let some_node : 0 < w.n = omega arith in
    let (i, nodes, n, max_w, gcd, _, cw) = turn_lem w some_node r.in_range in
    record {
      several = omega arith;
      count = ground arith;
      in_range = rw (i, n) (after-lt w.i w.n some_node);
      at = ground arith;
      positive = ground arith;
      largest = ground arith;
      gcd_nonneg = ground arith;
      cw_le = rw max_w (elim cw [
        | inl e ↦ rw e r.cw_le
        | inr (inl e) ↦ rw e (omega arith)
        | inr (inr e) ↦ rw e (omega (int_laws, r.cw_le, r.gcd_nonneg))
      ]);
    }

-- A node that is reached: its weight is at least `cw`.
record Reached (w : Wrr) (key : String) (w' : Wrr) : Type 0 where
  index : ℕ
  node : Node
  at_index : w'.i ≡ pos index
  found : get_elem? w'.nodes index ≡ some node
  named : node.key ≡ key
  heavy : w'.cw ≤ℤ node.weight
  kept : w'.nodes ≡ w.nodes

pub next_loop_step :
    (fuel : ℕ) (w : Wrr) (a : ℕ) (node : Node)
    → (turn w).i ≡ pos a
    → get_elem? (turn w).nodes a ≡ some node
    → (a ≡ 0 → pos 1 ≤ℤ (turn w).cw)
    → next_loop (suc fuel) w
      ≡ (if leb_ℤ (turn w).cw node.weight then done (node.key, turn w) else next_loop fuel (turn w))
unfolding next_loop
next_loop_step fuel w a node e f c = ground arith

-- Away from the node `p` a turn comes closer to it.
pub distance_falls :
    (i : ℤ) (n p : ℕ)
    → InRange i n
    → p < n
    → after i n ≢ p
    → distance (pos (after i n)) n p < distance i n p
distance_falls (pos k) n p r h ne = ground arith
distance_falls (negsuc k) n p r h ne = ground arith

pub get_elem?-lt {ℓ} :
    {A : Type ℓ} (xs : List A) (i : ℕ) {x : A} → get_elem? xs i ≡ some x → i < length xs
get_elem?-lt [] i h = absurd (ground arith)
get_elem?-lt (x ∷ xs) zero h = omega arith
get_elem?-lt (x ∷ xs) (suc i) h = omega (arith, get_elem?-lt xs i h)

next_loop_ends :
    (fuel : ℕ) (w : Wrr) (p : ℕ) (top : Node)
    → IsReady w p top
    → distance w.i w.n p < fuel
    → (key : String) × (w' : Wrr) × (next_loop fuel w ≡ done (key, w'))
      × Reached w key w'
      × IsReady w' p top
next_loop_ends zero w p top r f = absurd (omega arith)
next_loop_ends (suc fuel) w p top r f =
    let some_node : 0 < w.n = omega (arith, r.several) in
    let (i, nodes, n, max_w, gcd, wrapped, cw) = turn_lem w some_node r.in_range in
    let r' = turn-IsReady w p top r in
    let a = after w.i w.n in
    let (node, at) =
      get_elem?_total w.nodes a (omega (arith, r.count, after-lt w.i w.n some_node)) in
    let at' : get_elem? (turn w).nodes a ≡ some node = rw nodes at in
    let step = next_loop_step fuel w a node i at' (λ z. wrapped z r.positive) in
    elim (Bool-cases (leb_ℤ (turn w).cw node.weight)) [
      | inl heavy ↦ (
        node.key,
        turn w,
        rw (step, heavy),
        record {
          index = a;
          node = node;
          at_index = i;
          found = at';
          named = refl;
          heavy = ground arith;
          kept = nodes;
        },
        r',
      )
      | inr light ↦
          let away : a ≢ p = λ e. ground (arith, r'.cw_le, r'.largest, r.at, at, light, e) in
          let p_lt : p < w.n = omega (arith, r.count, get_elem?-lt w.nodes p r.at) in
          let closer : distance (turn w).i (turn w).n p < fuel =
            rw (i, n) (omega (arith, distance_falls w.i w.n p r.in_range p_lt away)) in
          let (key, w', ends, reached, r'') = next_loop_ends fuel (turn w) p top r' closer in
          (
            key,
            w',
            ground (arith, step, light, ends),
            record {
              index = reached.index;
              node = reached.node;
              at_index = reached.at_index;
              found = reached.found;
              named = reached.named;
              heavy = reached.heavy;
              kept = reached.kept ∙ nodes;
            },
            r'',
          )
    ]

-- `Next` ends within as many rounds as there are nodes, when there are two nodes or more, the
-- largest weight is positive and some node has it, the step of `cw` is not negative and `cw` is
-- at most the largest weight. It gives the key of the node that `i` stands at then, whose weight is at
-- least the new `cw`; the nodes are as before and all of this holds again.
pub next_ends :
    (w : Wrr) (p : ℕ) (top : Node)
    → IsReady w p top
    → (w' : Wrr) × (j : ℕ) × (node : Node) × (next w.n w ≡ done (node.key, w'))
      × (w'.i ≡ pos j)
      × (get_elem? w.nodes j ≡ some node)
      × (w'.cw ≤ℤ node.weight)
      × (w'.nodes ≡ w.nodes)
      × IsReady w' p top
unfolding next
next_ends w p top r =
    let p_lt : p < w.n = omega (arith, r.count, get_elem?-lt w.nodes p r.at) in
    let near : distance w.i w.n p < w.n =
      ground (arith, after-lt w.i w.n (omega (arith, r.several))) in
    let (key, w', ends, reached, r') = next_loop_ends w.n w p top r near in
    (
      w',
      reached.index,
      reached.node,
      ground (arith, ends, reached.named, r.several),
      reached.at_index,
      ground (arith, reached.found, reached.kept),
      reached.heavy,
      reached.kept,
      r',
    )
