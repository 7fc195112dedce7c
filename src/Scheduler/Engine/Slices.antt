-- ===== src/Scheduler/Engine/Slices.antt =====
-- `GetSlicesToSchedule` and `GetNewPlacement`: no slice is lost between the quota and the placement.
use cluster_api_provider_nes.Base.{
  Order, IsOrder, All, Bool-cases, Distinct, insert-Distinct, lookup-insert, ap, min, ℕ, ◌+◌, ◌-◌,
  String, ◌≡◌, refl, ◌∙◌, inl, inr, none, some, List, [], ◌∷◌, arith, Option-cases, length,
  length-append, replicate, Dict, lookup, insert, ok,
}
use cluster_api_provider_nes.Base.Int.{
  ℤ, pos, negsuc, pos_part, is_zero_ℤ, ◌+ℤ◌, ◌-ℤ◌, ◌≤ℤ◌, int_laws,
}
use cluster_api_provider_nes.Scheduler.Quantity.{Quantities}
use cluster_api_provider_nes.Scheduler.Resource.{ResourceList}
use cluster_api_provider_nes.Scheduler.Namespace.{
  Placement, placement_map_from, Namespace, new_placement, placements_of, get_placement_map,
  get_total_slices, namespace_key,
}
use cluster_api_provider_nes.Scheduler.Cache.{scheduled_num}
use cluster_api_provider_nes.Scheduler.Algorithm.{SliceInfo, repeat}
use cluster_api_provider_nes.Scheduler.Engine.{
  lesser, use_up, mandatory_loop, hint_loop, get_slices_to_schedule, increment, new_placement_from,
  get_new_placement,
}

length-replicate {ℓ} : {A : Type ℓ} (n : ℕ) (a : A) → length (replicate n a) ≡ n
length-replicate ℕ.zero a = refl
length-replicate (ℕ.suc n) a = omega (arith, length-replicate n a)

-- Counts of slices that are not negative.
abbrev pub AreCounts : Dict ℤ → Type 0
AreCounts m = (k : String) (n : ℤ) → lookup k m ≡ some n → pos 0 ≤ℤ n

abbrev IsCount : String × ℤ → Type 0
IsCount (k, n) = pos 0 ≤ℤ n

All-IsCount :
    (m entries : Dict ℤ)
    → AreCounts m
    → All (λ e. lookup e.0 m ≡ some e.1) entries
    → All IsCount entries
All-IsCount m [] c h = tt
All-IsCount m ((k, n) ∷ entries) c h = (c k n h.0, All-IsCount m entries c h.1)

-- Of two counts, the lesser one can be taken from the second.
lesser-pos : (n r : ℕ) → lesser (pos n) (pos r) ≡ pos (min n r)
unfolding lesser
lesser-pos n r = ground arith

pos-min : (n r : ℕ) → pos r -ℤ pos (min n r) ≡ pos (r - min n r)
unfolding ◌-ℤ◌
pos-min n r = ground arith

lesser-le : (a b : ℤ) → pos 0 ≤ℤ a -ℤ lesser a b
unfolding lesser ◌-ℤ◌
lesser-le a b = ground arith

use_up-AreCounts :
    (cluster : String) (n : ℤ) (old : Dict ℤ) → AreCounts old → AreCounts (use_up cluster n old)
unfolding use_up
use_up-AreCounts cluster n old c k m h = elim (Option-cases (lookup cluster old)) [
  | inl e ↦ c k m (ground (arith, e, h))
  | inr (val, e) ↦
      ground
        (arith, e, h, c k m, lesser-le val n, lookup-insert k cluster (val -ℤ lesser val n) old)
]

use_up-Distinct :
    (cluster : String) (n : ℤ) (old : Dict ℤ) → Distinct old → Distinct (use_up cluster n old)
unfolding use_up
use_up-Distinct cluster n old d = elim (Option-cases (lookup cluster old)) [
  | inl e ↦ rw (e, use_up) d
  | inr (val, e) ↦ rw (e, use_up) (insert-Distinct cluster (val -ℤ lesser val n) old d)
]

placement_map_from-Distinct :
    (m : Dict ℤ) (schedule : List Placement) → Distinct m → Distinct (placement_map_from m schedule)
unfolding placement_map_from
placement_map_from-Distinct m [] d = d
placement_map_from-Distinct m (each ∷ schedule) d =
    placement_map_from-Distinct (insert each.cluster each.num m) schedule
      (insert-Distinct each.cluster each.num m d)

-- the numbers of a map of placements, added up
abbrev pub num_total : Dict ℤ → ℤ
num_total [] = pos 0
num_total ((k, n) ∷ m) = n +ℤ num_total m

scheduled_num-placements_of : (m : Dict ℤ) → scheduled_num (placements_of m) ≡ num_total m
unfolding scheduled_num placements_of new_placement
scheduled_num-placements_of [] = refl
scheduled_num-placements_of ((k, n) ∷ m) = ap (λ t. n +ℤ t) (scheduled_num-placements_of m)

num_total-insert :
    (k : String) (n : ℤ) (m : Dict ℤ)
    → lookup k m ≡ none
    → num_total (insert k n m) ≡ num_total m +ℤ n
num_total-insert k n [] h = omega int_laws
num_total-insert k n ((j, i) ∷ m) h = grind (int_laws, num_total-insert k n m)

num_total-insert_suc :
    (k : String) (n : ℤ) (m : Dict ℤ)
    → lookup k m ≡ some n
    → num_total (insert k (n +ℤ pos 1) m) ≡ num_total m +ℤ pos 1
num_total-insert_suc k n [] h = absurd (ground arith)
num_total-insert_suc k n ((j, i) ∷ m) h = grind (int_laws, num_total-insert_suc k n m)

num_total-increment : (k : String) (m : Dict ℤ) → num_total (increment k m) ≡ num_total m +ℤ pos 1
unfolding increment
num_total-increment k m = elim (Option-cases (lookup k m)) [
  | inl e ↦ ground (arith, num_total-insert k (pos 1) m e)
  | inr (n, e) ↦ ground (arith, num_total-insert_suc k n m e)
]

module _ ⦃Q : Quantities⦄ where
  length-repeat :
      (slices : List SliceInfo) (n : ℕ) (ns : String) (request : ResourceList) (m h : String)
      → length (repeat slices (pos n) ns request m h) ≡ length slices + n
  unfolding repeat
  length-repeat slices n ns request m h =
      length-append slices _ ∙ omega (arith, length-replicate {A = SliceInfo} n _)

  -- The slices made and those that remain are as many as before.
  abbrev IsKept : List SliceInfo → ℕ → List SliceInfo → ℤ → Type 0
  IsKept slices r slices' remaining' =
      (pos 0 ≤ℤ remaining') × (length slices' + pos_part remaining' ≡ length slices + r)

  mandatory_loop-IsKept :
      (key : String) (size : ResourceList) (places : Dict ℤ) (slices : List SliceInfo) (r : ℕ)
      (old : Dict ℤ)
      → All IsCount places
      → let (slices', remaining', _) = mandatory_loop key size places slices (pos r) old in
        IsKept slices r slices' remaining'
  unfolding mandatory_loop
  mandatory_loop-IsKept key size [] slices r old h = (ground arith, refl)
  mandatory_loop-IsKept key size ((cluster, negsuc n) ∷ places) slices r old h =
      absurd (ground (arith, h))
  mandatory_loop-IsKept key size ((cluster, pos n) ∷ places) slices r old h =
      let t = min n r in
      let slices' = repeat slices (pos t) key size cluster "" in
      ground (
        arith,
        mandatory_loop-IsKept key size places slices' (r - t) (use_up cluster (pos t) old) h.1,
        length-repeat slices t key size cluster "",
        lesser-pos n r,
        pos-min n r,
      )

  hint_loop-IsKept :
      (key : String) (size : ResourceList) (old : Dict ℤ) (slices : List SliceInfo) (r : ℕ)
      → All IsCount old
      → let (slices', remaining') = hint_loop key size old slices (pos r) in
        IsKept slices r slices' remaining'
  unfolding hint_loop
  hint_loop-IsKept key size [] slices r h = (ground arith, refl)
  hint_loop-IsKept key size ((cluster, negsuc n) ∷ old) slices r h = absurd (ground (arith, h))
  hint_loop-IsKept key size ((cluster, pos n) ∷ old) slices r h =
      let t = min n r in
      let slices' = repeat slices (pos t) key size "" cluster in
      ground (
        arith,
        hint_loop-IsKept key size old slices' (r - t) h.1,
        length-repeat slices t key size "" cluster,
        lesser-pos n r,
        pos-min n r,
      )

  -- what is left of the old placements
  mandatory_loop-AreCounts :
      (key : String) (size : ResourceList) (places : Dict ℤ) (slices : List SliceInfo)
      (remaining : ℤ) (old : Dict ℤ)
      → Distinct old
      → AreCounts old
      → let old' = (mandatory_loop key size places slices remaining old).2 in
        Distinct old' × AreCounts old'
  unfolding mandatory_loop
  mandatory_loop-AreCounts key size [] slices remaining old d c = (d, c)
  mandatory_loop-AreCounts key size ((cluster, num) ∷ places) slices remaining old d c =
      let n = lesser num remaining in
      let rest =
        mandatory_loop-AreCounts key size places (repeat slices n key size cluster "")
          (remaining -ℤ n) (use_up cluster n old) (use_up-Distinct cluster n old d)
          (use_up-AreCounts cluster n old c) in
      elim (Bool-cases (is_zero_ℤ remaining)) [
        | inl z ↦ rw (z, mandatory_loop) (d, c)
        | inr z ↦ rw (z, mandatory_loop) rest
      ]

  length-rest :
      (key : String) (size : ResourceList) (slices : List SliceInfo) (remaining : ℤ) (total : ℕ)
      → pos 0 ≤ℤ remaining
      → length slices + pos_part remaining ≡ total
      → length (repeat slices remaining key size "" "") ≡ total
  length-rest key size slices (negsuc r) total kept made = absurd (ground (arith, kept))
  length-rest key size slices (pos r) total kept made = length-repeat slices r key size "" "" ∙ made

  hinted :
      (key : String) (size : ResourceList) (old : Dict ℤ) (slices : List SliceInfo) (remaining : ℤ)
      (total : ℕ)
      → pos 0 ≤ℤ remaining
      → length slices + pos_part remaining ≡ total
      → All IsCount old
      → let (slices', remaining') = hint_loop key size old slices remaining in
        length (repeat slices' remaining' key size "" "") ≡ total
  hinted key size old slices (negsuc r) total kept made h = absurd (ground (arith, kept))
  hinted key size old slices (pos r) total kept made h =
      let (slices', remaining') = hint_loop key size old slices (pos r) in
      let (kept', made') = hint_loop-IsKept key size old slices r h in
      length-rest key size slices' remaining' total kept' (made' ∙ made)

  -- There are as many slices to schedule as the namespace's quota takes, in whatever order the
  -- placements and the old ones are visited, where no cluster has a negative number of slices in
  -- the one or in the other.
  pub length-get_slices_to_schedule :
      (visit_places visit_old : Order ℤ) (namespace : Namespace) (old : Dict ℤ)
      → IsOrder visit_places
      → IsOrder visit_old
      → Distinct old
      → AreCounts (get_placement_map namespace)
      → AreCounts old
      → length (get_slices_to_schedule visit_places visit_old namespace old)
        ≡ get_total_slices namespace
  unfolding get_slices_to_schedule get_placement_map
  length-get_slices_to_schedule visit_places visit_old namespace old op oo d cp co =
      let key = namespace_key namespace in
      let size = namespace.quota_slice in
      let total = get_total_slices namespace in
      let places = get_placement_map namespace in
      let dp = placement_map_from-Distinct [] namespace.schedule tt in
      let hp = All-IsCount places (visit_places places) cp (op.entries places dp) in
      let (slices, remaining, old') =
        mandatory_loop key size (visit_places places) [] (pos total) old in
      let (kept, made) = mandatory_loop-IsKept key size (visit_places places) [] total old hp in
      let (d', c') =
        mandatory_loop-AreCounts key size (visit_places places) [] (pos total) old d co in
      let ho = All-IsCount old' (visit_old old') c' (oo.entries old' d') in
      hinted key size (visit_old old') slices remaining total kept (made ∙ omega arith) ho

  new_placement_from_total :
      (m : Dict ℤ) (slices : List SliceInfo) {p : Dict ℤ}
      → new_placement_from m slices ≡ ok p
      → num_total p ≡ num_total m +ℤ pos (length slices)
  unfolding new_placement_from
  new_placement_from_total m [] {p} h = grind int_laws
  new_placement_from_total m (each ∷ slices) {p} h = grind (
    int_laws,
    new_placement_from_total (increment each.result m) slices {p = p},
    num_total-increment each.result m,
  )

  -- A new placement, entered in a schedule, has as many slices as were scheduled.
  pub scheduled_num-get_new_placement :
      (slices : List SliceInfo) {p : Dict ℤ}
      → get_new_placement slices ≡ ok p
      → scheduled_num (placements_of p) ≡ pos (length slices)
  unfolding get_new_placement
  scheduled_num-get_new_placement slices {p} h =
      let sum : pos 0 +ℤ pos (length slices) ≡ pos (length slices) = omega int_laws in
      scheduled_num-placements_of p ∙ (new_placement_from_total [] slices h ∙ sum)
