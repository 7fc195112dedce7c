-- ===== src/FairQueue/RoundRobin/Keys.antt =====
-- `Add` and `Remove` of the round robin, with the weight 1: they change the list of keys as the
-- interface of balancer/balancer.go says.
use cluster_api_provider_nes.Base.{
  ℕ, zero, suc, ◌+◌, ◌<◌, String, ◌≡◌, ◌≢◌, refl, ap, ◌∙◌, ◌⊎◌, inl, inr, true, false, some, List,
  [], ◌∷◌, ◌++◌, map, arith, ite, dec_eq, if◌then◌else◌, Bool-cases, length, length-append, insert,
  erase, contains, lookup-insert, lookup-erase, done,
}
use mathlib.Core.List.{map-append}
use cluster_api_provider_nes.Base.Int.{ℤ, pos, negsuc, ◌+ℤ◌, ◌-ℤ◌, leb_ℤ}
use cluster_api_provider_nes.FairQueue.RoundRobin.{
  Node, Wrr, weight_gcd, weight_max, add_weight, add, remove_node, drop_node, remove,
}
use cluster_api_provider_nes.FairQueue.RoundRobin.Turns.{InRange}
use cluster_api_provider_nes.FairQueue.RoundRobin.Units.{
  unit_node, listed, AllDistinct, InTurn, Serves, gcd_unit, weight_gcd-units, weight_max-units,
  listed-append, AllDistinct-append,
}

InRange-suc : (i : ℤ) (n : ℕ) → InRange i n → InRange i (n + 1)
InRange-suc (pos k) n h = omega arith
InRange-suc (negsuc k) n h = h

-- What the first step of `Add` gives, with the node appended.
abbrev Weighed : Wrr → List String → Wrr → Type 0
Weighed w ks w' =
    (w'.nodes ≡ w.nodes)
    × (w'.key_set ≡ w.key_set)
    × (w'.n ≡ w.n)
    × (w'.gcd ≡ pos 1)
    × (w'.max_w ≡ pos 1)
    × InRange w'.i (w.n + 1)
    × ((w'.cw ≡ pos 0) ⊎ (w'.cw ≡ pos 1))

add_weight-Weighed :
    (w : Wrr) (ks : List String)
    → Serves w ks
    → (w' : Wrr) × (add_weight (pos 1) w ≡ done w') × Weighed w ks w'
unfolding add_weight
add_weight-Weighed w [] s = elim s.in_turn [
  | inl z ↦ (
    record w { gcd = pos 1; max_w = pos 1; i = negsuc 0; cw = pos 0 },
    ground arith,
    (refl, refl, refl, refl, refl, refl, inl refl),
  )
  | inr (g, m, i) ↦
      let unit = gcd_unit w.gcd (inr g) in
      (
        record w { gcd = pos 1; max_w = pos 1 },
        ground (arith, unit),
        (refl, refl, refl, refl, refl, rw i refl, s.cw),
      )
]
add_weight-Weighed w (k ∷ ks) s =
    let (g, m, range) = s.in_turn in
    let unit = gcd_unit w.gcd (inl g) in
    (
      record w { gcd = pos 1; max_w = pos 1 },
      ground (arith, unit),
      (refl, refl, refl, refl, refl, InRange-suc w.i w.n range, s.cw),
    )

InTurn-append :
    (w : Wrr) (ks : List String) (j : String)
    → w.gcd ≡ pos 1
    → w.max_w ≡ pos 1
    → InRange w.i w.n
    → InTurn w (ks ++ j ∷ [])
InTurn-append w [] j g m r = (g, m, r)
InTurn-append w (k ∷ ks) j g m r = (g, m, r)

-- Adding a key with weight 1 never panics and puts it behind the keys that are served, unless it
-- is among them: then the keys stay as they are.
pub add_unit_lem :
    (ref : String) (w : Wrr) (ks : List String)
    → Serves w ks
    → (w' : Wrr) × (add ref (pos 1) w ≡ done w')
      × Serves w' (if listed ref ks then ks else ks ++ ref ∷ [])
unfolding add
add_unit_lem ref w ks s = elim (Bool-cases (listed ref ks)) [
  | inl old ↦ (w, ground (arith, s.key_set ref), rw old s)
  | inr new ↦
      let (v, e, weighed) = add_weight-Weighed w ks s in
      let (nodes, key_set, n, gcd, max_w, range, cw) = weighed in
      let w' = record v {
        nodes = v.nodes ++ unit_node ref ∷ [];
        key_set = insert ref tt v.key_set;
        n = v.n + 1;
      } in
      (
        w',
        ground (arith, s.key_set ref, e),
        rw new (record {
          nodes = rw (nodes, s.nodes, map-append);
          count = omega (arith, n, s.count, length-append ks (ref ∷ []));
          key_set = λ k. ground (
            arith,
            key_set,
            s.key_set k,
            lookup-insert k ref tt v.key_set,
            listed-append k ref ks,
          );
          distinct = AllDistinct-append ref ks s.distinct new;
          in_turn = InTurn-append w' ks ref gcd max_w (rw n range);
          cw = cw;
        }),
      )
]

-- the keys without the one, which is there once at most
abbrev pub erase_key : String → List String → List String
erase_key ref [] = []
erase_key ref (k ∷ ks) = ite (dec_eq k ref) ks (k ∷ erase_key ref ks)

remove_node-units :
    (ref : String) (ks : List String)
    → listed ref ks ≡ true
    → (i : ℕ) × (remove_node ref (map unit_node ks) ≡ some (i, map unit_node (erase_key ref ks)))
      × (i < length ks)
      × (length (erase_key ref ks) + 1 ≡ length ks)
unfolding remove_node
remove_node-units ref [] h = absurd (ground arith)
remove_node-units ref (k ∷ ks) h = elim (dec_eq k ref) [
  | yes p ↦ (0, ground arith, omega arith, ground arith)
  | no p ↦
      let (i, e, lt, len) = remove_node-units ref ks (ground arith) in
      (suc i, ground (arith, e), omega arith, ground (arith, len))
]

pub listed-erase_key :
    (k ref : String) (ks : List String)
    → AllDistinct ks
    → listed k (erase_key ref ks) ≡ ite (dec_eq k ref) false (listed k ks)
listed-erase_key k ref [] d = ground arith
listed-erase_key k ref (j ∷ ks) d = ground (arith, listed-erase_key k ref ks d.1)

AllDistinct-erase_key :
    (ref : String) (ks : List String) → AllDistinct ks → AllDistinct (erase_key ref ks)
AllDistinct-erase_key ref [] d = tt
AllDistinct-erase_key ref (j ∷ ks) d =
    ground (arith, AllDistinct-erase_key ref ks d.1, listed-erase_key j ref ks d.1)

-- the sums over the nodes that are left
left_sums :
    (ks : List String)
    → ((ks ≡ [])
        × (weight_gcd (map unit_node ks) ≡ done (negsuc 0))
        × (weight_max (map unit_node ks) ≡ negsuc 0))
      ⊎ ((ks ≢ [])
          × (weight_gcd (map unit_node ks) ≡ done (pos 1))
          × (weight_max (map unit_node ks) ≡ pos 1))
unfolding weight_gcd weight_max ◌+ℤ◌
left_sums [] = inl (refl, refl, refl)
left_sums (k ∷ ks) = inr (λ e. ground arith, weight_gcd-units ks, weight_max-units ks)

-- `i` after the node `j` of `n + 1` has gone
moved : ℕ → ℤ → ℤ
moved j i = if leb_ℤ (pos j) i then i -ℤ pos 1 else i

moved-InRange : (j n : ℕ) (i : ℤ) → InRange i (n + 1) → j < n + 1 → InRange (moved j i) n
unfolding moved ◌-ℤ◌
moved-InRange j n (pos zero) h l = ground arith
moved-InRange j n (pos (suc k)) h l = ground arith
moved-InRange j n (negsuc k) h l = ground arith

length-units : (ks : List String) → length (map unit_node ks) ≡ length ks
length-units [] = refl
length-units (k ∷ ks) = ap suc (length-units ks)

InTurn-InRange : (w : Wrr) (ks : List String) → 0 < length ks → InTurn w ks → InRange w.i w.n
InTurn-InRange w [] h t = absurd (omega arith)
InTurn-InRange w (k ∷ ks) h t = t.2

InRange-zero : (i : ℤ) → InRange i 0 → i ≡ negsuc 0
InRange-zero (pos k) h = absurd (omega arith)
InRange-zero (negsuc k) h = ap negsuc h

drop_node_lem :
    (ref : String) (w : Wrr) (j : ℕ) (left : List Node)
    → remove_node ref w.nodes ≡ some (j, left)
    → drop_node ref w ≡ record w { nodes = left; i = moved j w.i }
unfolding drop_node moved
drop_node_lem ref w j left e = ground (arith, e)

InTurn-of :
    (w : Wrr) (ks : List String)
    → InRange w.i w.n
    → w.n ≡ length ks
    → ((ks ≡ []) × (w.gcd ≡ negsuc 0) × (w.max_w ≡ negsuc 0))
      ⊎ ((ks ≢ []) × (w.gcd ≡ pos 1) × (w.max_w ≡ pos 1))
    → InTurn w ks
InTurn-of w [] r n (inl (e, g, m)) = inr (g, m, InRange-zero w.i (rw n at r))
InTurn-of w [] r n (inr (ne, g, m)) = absurd (ne refl)
InTurn-of w (k ∷ ks) r n (inl (e, g, m)) = absurd (ground arith)
InTurn-of w (k ∷ ks) r n (inr (ne, g, m)) = (g, m, r)

-- the round robin without the key, with given sums
without : String → Wrr → ℕ → List String → ℤ → ℤ → Wrr
without ref w j ks g m = record {
  nodes = map unit_node ks;
  key_set = erase ref w.key_set;
  n = length (map unit_node ks);
  gcd = g;
  max_w = m;
  i = moved j w.i;
  cw = pos 0;
}

remove_eq :
    (ref : String) (w : Wrr) (j : ℕ) (ks : List String) (g : ℤ)
    → contains ref w.key_set ≡ true
    → remove_node ref w.nodes ≡ some (j, map unit_node ks)
    → weight_gcd (map unit_node ks) ≡ done g
    → remove ref w ≡ done (without ref w j ks g (weight_max (map unit_node ks)))
unfolding remove without
remove_eq ref w j ks g c e d = ground (arith, drop_node_lem ref w j (map unit_node ks) e)

without-Serves :
    (ref : String) (w : Wrr) (ks : List String) (j : ℕ) (g m : ℤ)
    → Serves w ks
    → j < length ks
    → length (erase_key ref ks) + 1 ≡ length ks
    → ((erase_key ref ks ≡ []) × (g ≡ negsuc 0) × (m ≡ negsuc 0))
      ⊎ ((erase_key ref ks ≢ []) × (g ≡ pos 1) × (m ≡ pos 1))
    → Serves (without ref w j (erase_key ref ks) g m) (erase_key ref ks)
unfolding without
without-Serves ref w ks j g m s lt len sums =
    let left = erase_key ref ks in
    let count : length (map unit_node left) ≡ length left = length-units left in
    let range : InRange w.i (length left + 1) =
      rw (len, ← s.count) (InTurn-InRange w ks (omega arith) s.in_turn) in
    record {
      nodes = refl;
      count = count;
      key_set = λ k.
          ground (
            arith,
            s.key_set k,
            lookup-erase k ref w.key_set,
            listed-erase_key k ref ks s.distinct,
          );
      distinct = AllDistinct-erase_key ref ks s.distinct;
      in_turn =
          InTurn-of (without ref w j left g m) left
            (rw count (moved-InRange j (length left) w.i range (omega arith))) count sums;
      cw = inl refl;
    }

-- Removing a key that is served never panics and takes it from the keys; removing any other leaves
-- the keys as they are.
pub remove_unit_lem :
    (ref : String) (w : Wrr) (ks : List String)
    → Serves w ks
    → (w' : Wrr) × (remove ref w ≡ done w')
      × Serves w' (if listed ref ks then erase_key ref ks else ks)
unfolding remove
remove_unit_lem ref w ks s = elim (Bool-cases (listed ref ks)) [
  | inr absent ↦ (w, ground (arith, s.key_set ref), rw absent s)
  | inl present ↦
      let left = erase_key ref ks in
      let (j, e, lt, len) = remove_node-units ref ks present in
      let e' : remove_node ref w.nodes ≡ some (j, map unit_node left) = rw s.nodes e in
      let known : contains ref w.key_set ≡ true = s.key_set ref ∙ present in
      elim (left_sums left) [
        | inl (empty, d, m) ↦ (
          _,
          remove_eq ref w j left (negsuc 0) known e' d,
          rw present (without-Serves ref w ks j _ _ s lt len (inl (empty, refl, m))),
        )
        | inr (more, d, m) ↦ (
          _,
          remove_eq ref w j left (pos 1) known e' d,
          rw present (without-Serves ref w ks j _ _ s lt len (inr (more, refl, m))),
        )
      ]
]
