-- ===== src/FairQueue/RoundRobin/Units.antt =====
-- The round robin as the fair queue uses it, with the weight 1 for every key: it is a list of keys
-- that are served in turn.
use cluster_api_provider_nes.Base.{
  ℕ, zero, suc, ◌<◌, String, ◌≡◌, ◌≢◌, refl, ap, ◌∙◌, ◌⊎◌, inl, inr, Bool, true, false, ◌||◌, some,
  List, [], ◌∷◌, ◌++◌, map, arith, ite, dec_eq, ◌==◌, if◌then◌else◌, Bool-cases, length, get_elem?,
  get_elem?_total, contains, done,
}
use cluster_api_provider_nes.Base.Int.{ℤ, pos, negsuc, ◌+ℤ◌, ◌-ℤ◌, ◌%ℤ◌, int_laws}
use cluster_api_provider_nes.FairQueue.RoundRobin.{
  Node, Wrr, gcd_loop, gcd_int, weight_gcd_from, weight_max_from, turn, next,
}
use cluster_api_provider_nes.FairQueue.RoundRobin.Turns.{
  after, InRange, after-lt, turn_lem, next_loop_step,
}

abbrev pub unit_node : String → Node
unit_node k = record { key = k; weight = pos 1 }

-- whether a key is in the list
abbrev pub listed : String → List String → Bool
listed k [] = false
listed k (j ∷ ks) = ite (dec_eq k j) true (listed k ks)

-- no key is in the list twice
abbrev pub AllDistinct : List String → Type 0
AllDistinct [] = Unit
AllDistinct (k ∷ ks) = (listed k ks ≡ false) × AllDistinct ks

-- what the sums and the position are, of a list that is empty or not
abbrev pub InTurn : Wrr → List String → Type 0
InTurn w [] = (w.gcd ≡ pos 0) ⊎ ((w.gcd ≡ negsuc 0) × (w.max_w ≡ negsuc 0) × (w.i ≡ negsuc 0))
InTurn w (k ∷ ks) = (w.gcd ≡ pos 1) × (w.max_w ≡ pos 1) × InRange w.i w.n

-- The round robin serves the keys of the list, each with weight 1.
pub record Serves (w : Wrr) (ks : List String) : Type 0 where
  pub nodes : w.nodes ≡ map unit_node ks
  pub count : w.n ≡ length ks
  pub key_set : (k : String) → contains k w.key_set ≡ listed k ks
  pub distinct : AllDistinct ks
  pub in_turn : InTurn w ks
  pub cw : (w.cw ≡ pos 0) ⊎ (w.cw ≡ pos 1)

pub gcd_unit : (x : ℤ) → (x ≡ pos 1) ⊎ (x ≡ negsuc 0) → gcd_int x (pos 1) ≡ done (pos 1)
unfolding gcd_int gcd_loop ◌%ℤ◌
gcd_unit x (inl e) = rw e refl
gcd_unit x (inr e) = rw e refl

pub weight_gcd-units :
    (ks : List String) → weight_gcd_from (pos 1) (map unit_node ks) ≡ done (pos 1)
unfolding weight_gcd_from ◌+ℤ◌
weight_gcd-units [] = refl
weight_gcd-units (k ∷ ks) = rw (gcd_unit (pos 1) (inl refl)) (weight_gcd-units ks)

pub weight_max-units : (ks : List String) → weight_max_from (pos 1) (map unit_node ks) ≡ pos 1
unfolding weight_max_from
weight_max-units [] = refl
weight_max-units (k ∷ ks) = weight_max-units ks

-- the index that is served next
abbrev pub turn_of : Wrr → ℕ
turn_of w = if w.n == 1 then 0 else after w.i w.n

turn-cw :
    (w : Wrr)
    → w.gcd ≡ pos 1
    → w.max_w ≡ pos 1
    → (w.cw ≡ pos 0) ⊎ (w.cw ≡ pos 1)
    → ((turn w).cw ≡ pos 0) ⊎ ((turn w).cw ≡ pos 1)
unfolding turn
turn-cw w g m (inl e) = let low : pos 0 -ℤ pos 1 ≡ negsuc 0 = omega int_laws in ground (arith, low)
turn-cw w g m (inr e) = let low : pos 1 -ℤ pos 1 ≡ pos 0 = omega int_laws in ground (arith, low)

turn-key_set : (w : Wrr) → (turn w).key_set ≡ w.key_set
unfolding turn
turn-key_set w = ground arith

get_elem?-units :
    (ks : List String) (i : ℕ) {k : String}
    → get_elem? ks i ≡ some k
    → get_elem? (map unit_node ks) i ≡ some (unit_node k)
get_elem?-units [] i h = absurd (ground arith)
get_elem?-units (j ∷ ks) zero h = ground arith
get_elem?-units (j ∷ ks) (suc i) h = get_elem?-units ks i h

-- where `i` is after a call that serves the key at `turn_of`
abbrev pub MovedOn : Wrr → Wrr → Type 0
MovedOn w w' = ((w.n ≡ 1) × (w' ≡ w)) ⊎ ((w.n ≢ 1) × (w'.i ≡ pos (after w.i w.n)) × (w'.n ≡ w.n))

module _ (fuel : ℕ) (w : Wrr) (k : String) (ks : List String) (s : Serves w (k ∷ ks))
    (several : w.n ≢ 1) where
  next_several :
      (j : String) × (w' : Wrr) × (next (suc fuel) w ≡ done (j, w'))
      × (get_elem? (k ∷ ks) (after w.i w.n) ≡ some j)
      × (w'.i ≡ pos (after w.i w.n))
      × (w'.n ≡ w.n)
      × Serves w' (k ∷ ks)
  unfolding next
  next_several =
      let some_node : 0 < w.n = omega (arith, s.count) in
      let (g, m, range) = s.in_turn in
      let (i, nodes, n, max_w, gcd, wrapped, _) = turn_lem w some_node range in
      let a = after w.i w.n in
      let a_lt = after-lt w.i w.n some_node in
      let (j, at) = get_elem?_total (k ∷ ks) a (omega (arith, s.count)) in
      let at' : get_elem? (turn w).nodes a ≡ some (unit_node j) =
        ap (λ l. get_elem? l a) (nodes ∙ s.nodes) ∙ get_elem?-units (k ∷ ks) a at in
      let cw' = turn-cw w g m s.cw in
      let step =
        next_loop_step fuel w a (unit_node j) i at' (λ z. wrapped z (rw m (omega arith))) in
      (
        j,
        turn w,
        ground (arith, step, cw', several, some_node),
        at,
        i,
        n,
        record {
          nodes = nodes ∙ s.nodes;
          count = n ∙ s.count;
          key_set = λ q. rw (turn-key_set w) (s.key_set q);
          distinct = s.distinct;
          in_turn = (gcd ∙ g, max_w ∙ m, rw (i, n) a_lt);
          cw = cw';
        },
      )

-- A call of `Next`, with weight 1 for every key and one key at least, gives the key whose turn it
-- is: the only one, or the one after that of the last call, the first after the last. The same
-- keys are served afterwards.
pub next_unit :
    (fuel : ℕ) (w : Wrr) (k : String) (ks : List String)
    → Serves w (k ∷ ks)
    → (j : String) × (w' : Wrr) × (next (suc fuel) w ≡ done (j, w'))
      × (get_elem? (k ∷ ks) (turn_of w) ≡ some j)
      × MovedOn w w'
      × Serves w' (k ∷ ks)
unfolding next
next_unit fuel w k ks s = elim (Bool-cases (w.n == 1)) [
  | inl one ↦
      let at : get_elem? w.nodes 0 ≡ some (unit_node k) = ap (λ l. get_elem? l 0) s.nodes in
      (k, w, ground (arith, at), ground arith, inl (ground arith, refl), s)
  | inr several ↦
      let ne : w.n ≢ 1 = ground arith in
      let (j, w', e, at, i, n, s') = next_several fuel w k ks s ne in
      (j, w', e, ground (arith, at), inr (ne, i, n), s')
]

pub listed-append :
    (k j : String) (ks : List String)
    → listed k (ks ++ j ∷ []) ≡ (listed k ks || ite (dec_eq k j) true false)
listed-append k j [] = ground arith
listed-append k j (i ∷ ks) = ground (arith, listed-append k j ks)

pub AllDistinct-append :
    (j : String) (ks : List String)
    → AllDistinct ks
    → listed j ks ≡ false
    → AllDistinct (ks ++ j ∷ [])
AllDistinct-append j [] d n = ground arith
AllDistinct-append j (i ∷ ks) d n =
    ground (arith, AllDistinct-append j ks d.1, listed-append i j ks)
