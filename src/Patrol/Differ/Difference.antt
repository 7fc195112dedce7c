-- ===== src/Patrol/Differ/Difference.antt =====
-- `Difference`: each key gets the one call that it asks for, in whatever order the goroutines run.
use cluster_api_provider_nes.Base.{
  ℕ, suc, ◌+◌, String, ◌≡◌, ◌≢◌, refl, sym, ap, ◌∙◌, inl, inr, Bool, true, false, not, ◌&&◌, Option,
  none, some, List, [], ◌∷◌, ◌++◌, map, arith, if◌then◌else◌, ite, dec_eq, Option-cases, Bool-cases,
  replicate, All, Dict, lookup, insert, contains, lookup-insert, Distinct, insert-Distinct,
}
use cluster_api_provider_nes.Patrol.Differ.{
  times, Imports, ClusterObject, Container, get_object, Call, on_add, on_delete, on_update,
  get_keys, Keys, sort_keys, update_threads, single_threads, difference, insert_objects,
  new_diff_set,
}
use cluster_api_provider_nes.Patrol.Differ.Sorting.{
  memberships, has-get_keys, IsSorting, Sorted, sort_keys-Sorted,
}

module _ ⦃I : Imports⦄ where
  open I use {Set, visit, has_key, times-visit, has-new}

  -- every object stands under its own key
  abbrev pub IsKeyed : Container → Type 0
  IsKeyed c = (k : String) (o : ClusterObject) → lookup k c ≡ some o → o.key ≡ k

  -- the key that a call is about
  abbrev pub about : Call → String
  about (on_add o) = o.key
  about (on_delete o) = o.key
  about (on_update o p) = o.key

  -- the calls about a key that one goroutine makes
  abbrev pub calls_in : String → List Call → List Call
  calls_in k [] = []
  calls_in k (call ∷ calls) =
      let rest = calls_in k calls in ite (dec_eq (about call) k) (call ∷ rest) rest

  -- the calls about a key that all goroutines make
  abbrev pub calls_about : String → List (List Call) → List Call
  calls_about k [] = []
  calls_about k (thread ∷ threads) = calls_in k thread ++ calls_about k threads

  -- What is to be called for a key, by what the two sets have of it.
  abbrev pub wanted : Option ClusterObject → Option ClusterObject → List Call
  wanted (some o) none = on_add o ∷ []
  wanted (some o) (some p) = on_update o p ∷ []
  wanted none (some p) = on_delete p ∷ []
  wanted none none = []

  append_nil : (xs : List Call) → xs ++ [] ≡ xs
  append_nil [] = refl
  append_nil (x ∷ xs) = ap (λ ys. x ∷ ys) (append_nil xs)

  append_assoc : (xs ys zs : List Call) → (xs ++ ys) ++ zs ≡ xs ++ (ys ++ zs)
  append_assoc [] ys zs = refl
  append_assoc (x ∷ xs) ys zs = ap (λ l. x ∷ l) (append_assoc xs ys zs)

  calls_about-append :
      (k : String) (a b : List (List Call))
      → calls_about k (a ++ b) ≡ calls_about k a ++ calls_about k b
  calls_about-append k [] b = refl
  calls_about-append k (t ∷ a) b =
      ap (λ l. calls_in k t ++ l) (calls_about-append k a b)
      ∙ sym (append_assoc (calls_in k t) (calls_about k a) (calls_about k b))

  -- The call for `j` is about `j`.
  abbrev Fitting : (String → Call) → String → Type 0
  Fitting f j = about (f j) ≡ j

  All-times :
      (P : String → Type 0) (js : List String) → ((j : String) → times j js ≢ 0 → P j) → All P js
  All-times P [] h = tt
  All-times P (j ∷ js) h =
      (h j (λ e. ground (arith, e)), All-times P js (λ i n. h i (λ e. ground (arith, n, e))))

  replicate-add_one : (n : ℕ) (x : Call) → replicate (1 + n) x ≡ x ∷ replicate n x
  replicate-add_one n x = let e : 1 + n ≡ suc n = omega arith in ap (λ m. replicate m x) e

  calls_in-map :
      (k : String) (f : String → Call) (js : List String)
      → All (Fitting f) js
      → calls_in k (map f js) ≡ replicate (times k js) (f k)
  calls_in-map k f [] h = refl
  calls_in-map k f (j ∷ js) h = ground (arith, h.0, calls_in-map k f js h.1)

  calls_about-single_threads :
      (k : String) (f : String → Call) (js : List String)
      → calls_about k (single_threads f js) ≡ calls_in k (map f js)
  calls_about-single_threads k f [] = refl
  calls_about-single_threads k f (j ∷ js) = ground (arith, calls_about-single_threads k f js)

  -- of one set, visited
  calls_in-visit :
      (k : String) (f : String → Call) (s : Set)
      → ((j : String) → has_key j s ≡ true → Fitting f j)
      → calls_in k (map f (visit s)) ≡ (if has_key k s then f k ∷ [] else [])
  calls_in-visit k f s h =
      let fits =
        All-times (Fitting f) (visit s) (λ j n. h j (ground (arith, n, times-visit j s))) in
      calls_in-map k f (visit s) fits ∙ ground (arith, times-visit k s)

  calls_about-update_threads :
      (k : String) (f : String → Call) (grouped : Dict Set)
      → ((j : String) → memberships j grouped ≢ 0 → Fitting f j)
      → calls_about k (update_threads f grouped) ≡ replicate (memberships k grouped) (f k)
  calls_about-update_threads k f [] h = refl
  calls_about-update_threads k f ((g, s) ∷ grouped) h =
      let head = calls_in-visit k f s (λ j e. h j (λ z. ground (arith, e, z))) in
      let tail = calls_about-update_threads k f grouped (λ j n. h j (λ z. ground (arith, n, z))) in
      let m = memberships k grouped in
      elim (Bool-cases (has_key k s)) [
        | inl e ↦ ground (arith, head, tail, replicate-add_one m (f k))
        | inr e ↦ ground (arith, head, tail)
      ]

  key-get_object :
      (j : String) (c : Container) → IsKeyed c → contains j c ≡ true → (get_object j c).key ≡ j
  key-get_object j c keyed h = elim (Option-cases (lookup j c)) [
    | inl e ↦ absurd (ground (arith, h, e))
    | inr (o, e) ↦ ground (arith, e, keyed j o e)
  ]

  replicate-if :
      (b : Bool) (x : Call) → replicate (if b then 1 else 0) x ≡ (if b then x ∷ [] else [])
  replicate-if true x = refl
  replicate-if false x = refl

  calls_about-difference :
      (c set2 : Container) (k : String)
      → Distinct c
      → IsKeyed c
      → IsKeyed set2
      → calls_about k (difference c set2)
        ≡ (if contains k c && not (contains k set2) then on_add (get_object k c) ∷ [] else [])
          ++ ((if contains k c && contains k set2
                then on_update (get_object k c) (get_object k set2) ∷ []
                else [])
              ++ (if contains k set2 && not (contains k c)
                  then on_delete (get_object k set2) ∷ []
                  else []))
  unfolding difference
  calls_about-difference c set2 k d keyed keyed2 =
      let start : Keys = record { key_set1 = get_keys c; key_set2 = get_keys set2; grouped = [] } in
      let keys = sort_keys set2 c start in
      let sorting : IsSorting start = record { distinct = tt; apart = λ j h. refl } in
      let sorted : (j : String) → Sorted j c start keys =
        λ j. sort_keys-Sorted j set2 c start d sorting in
      let f : String → Call = λ j. on_add (get_object j c) in
      let g : String → Call = λ j. on_update (get_object j c) (get_object j set2) in
      let h : String → Call = λ j. on_delete (get_object j set2) in
      let adds = single_threads f (visit keys.key_set1) in
      let updates = update_threads g keys.grouped in
      let deletes = single_threads h (visit keys.key_set2) in
      let known : (j : String) → has_key j (get_keys c) ≡ contains j c = λ j. has-get_keys j c in
      let known2 : (j : String) → has_key j (get_keys set2) ≡ contains j set2 =
        λ j. has-get_keys j set2 in
      let added =
        calls_about-single_threads k f (visit keys.key_set1)
        ∙ calls_in-visit k f keys.key_set1
            (λ j e. key-get_object j c keyed (ground (arith, e, (sorted j).first, known j))) in
      let updated =
        calls_about-update_threads k g keys.grouped
          (λ j n. key-get_object j c keyed (ground (arith, n, (sorted j).both)))
        ∙ ap (λ n. replicate n (g k))
            (let e : memberships k keys.grouped
                  ≡ (if contains k c && contains k set2 then 1 else 0) =
                ground (arith, (sorted k).both, known2 k) in
              e)
        ∙ replicate-if (contains k c && contains k set2) (g k) in
      let deleted =
        calls_about-single_threads k h (visit keys.key_set2)
        ∙ calls_in-visit k h keys.key_set2 (λ j e.
          key-get_object j set2 keyed2 (ground (arith, e, (sorted j).second, known2 j))) in
      let split =
        calls_about-append k adds (updates ++ deletes)
        ∙ ap (λ l. calls_about k adds ++ l) (calls_about-append k updates deletes) in
      ground (
        arith,
        split,
        added,
        updated,
        deleted,
        (sorted k).first,
        (sorted k).second,
        known k,
        known2 k,
      )

  -- `Difference` of a set with a second one makes for each key exactly the one call that is wanted:
  -- an add if only the first set has the key, an update if both have it, a delete if only the
  -- second has it, and none if neither has. Both sets have every object under its own key. The
  -- goroutines make no other call about the key, so their order does not matter.
  pub difference_lem :
      (c set2 : Container) (k : String)
      → Distinct c
      → IsKeyed c
      → IsKeyed set2
      → calls_about k (difference c set2) ≡ wanted (lookup k c) (lookup k set2)
  difference_lem c set2 k d keyed keyed2 =
      calls_about-difference c set2 k d keyed keyed2 ∙ elim (Option-cases (lookup k c)) [
        | inl e ↦ elim (Option-cases (lookup k set2)) [
          | inl e2 ↦ ground (arith, e, e2)
          | inr (p, e2) ↦ ground (arith, e, e2)
        ]
        | inr (o, e) ↦ elim (Option-cases (lookup k set2)) [
          | inl e2 ↦ ground (arith, e, e2)
          | inr (p, e2) ↦ ground (arith, e, e2)
        ]
      ]

  insert_objects-IsKeyed :
      (objects : List ClusterObject) (c : Container)
      → Distinct c
      → IsKeyed c
      → Distinct (insert_objects objects c) × IsKeyed (insert_objects objects c)
  unfolding insert_objects
  insert_objects-IsKeyed [] c d keyed = (d, keyed)
  insert_objects-IsKeyed (o ∷ objects) c d keyed =
      insert_objects-IsKeyed objects (insert o.key o c) (insert-Distinct o.key o c d)
        (λ k p h. ground (arith, h, keyed k p, lookup-insert k o.key o c))

  -- the last of some objects that has a key
  abbrev pub newest : String → List ClusterObject → Option ClusterObject
  newest k [] = none
  newest k (o ∷ objects) =
      let rest = newest k objects in
      elim rest [ none ↦ ite (dec_eq o.key k) (some o) none | some p ↦ some p ]

  lookup-insert_objects :
      (k : String) (objects : List ClusterObject) (c : Container)
      → lookup k (insert_objects objects c)
        ≡ elim (newest k objects) [ none ↦ lookup k c | some o ↦ some o ]
  unfolding insert_objects
  lookup-insert_objects k [] c = refl
  lookup-insert_objects k (o ∷ objects) c = elim (Option-cases (newest k objects)) [
    | inl e ↦
        ground
          (arith, e, lookup-insert_objects k objects (insert o.key o c), lookup-insert k o.key o c)
    | inr (p, e) ↦ ground (arith, e, lookup-insert_objects k objects (insert o.key o c))
  ]

  -- A set made of objects has under each key the last of the objects with that key, or nothing
  -- where none has it; and the difference of two such sets makes for each key exactly the call
  -- wanted for the last object of each side: an add, an update, a delete or none.
  pub difference-new_diff_set :
      (objects objects2 : List ClusterObject) (k : String)
      → let c = new_diff_set objects in
        let set2 = new_diff_set objects2 in
        (lookup k c ≡ newest k objects)
        × (calls_about k (difference c set2) ≡ wanted (newest k objects) (newest k objects2))
  unfolding new_diff_set
  difference-new_diff_set objects objects2 k =
      let (d, keyed) = insert_objects-IsKeyed objects [] tt (λ j o h. ground (arith, h)) in
      let (d2, keyed2) = insert_objects-IsKeyed objects2 [] tt (λ j o h. ground (arith, h)) in
      let c = insert_objects objects [] in
      let set2 = insert_objects objects2 [] in
      let found : lookup k c ≡ newest k objects =
        ground (arith, lookup-insert_objects k objects []) in
      let found2 : lookup k set2 ≡ newest k objects2 =
        ground (arith, lookup-insert_objects k objects2 []) in
      (
        found,
        difference_lem c set2 k d keyed keyed2
            ∙ (ap (λ o. wanted o (lookup k set2)) found
                ∙ ap (λ o. wanted (newest k objects) o) found2),
      )
