-- ===== src/Patrol/Differ.antt =====
-- differ/differ.go: the set of objects, and the calls of a handler that bring a second set in line
-- with a first.
pub mod Sorting
pub mod Difference
use cluster_api_provider_nes.Base.{
  ℕ, zero, suc, ◌+◌, String, ◌≡◌, Bool, true, false, Option, none, some, List, [], ◌∷◌, ◌++◌, map,
  if◌then◌else◌, ite, dec_eq, length, Dict, lookup, insert, erase, contains,
}

-- how often a text stands in a list
abbrev pub times : String → List String → ℕ
times k [] = 0
times k (j ∷ js) = let n = times k js in ite (dec_eq k j) (suc n) n

-- What the differ takes from outside: `client.Object` of sigs.k8s.io/controller-runtime, and
-- `sets.String` of k8s.io/apimachinery, a set of texts, which a `range` visits, each one once, in
-- some order.
pub record Imports : Type 1 where
  pub Object : Type 0
  pub Set : Type 0
  pub new_string : Set
  pub insert_key : String → Set → Set
  pub delete_key : String → Set → Set
  pub has_key : String → Set → Bool
  pub visit : Set → List String
  pub has-new : (k : String) → has_key k new_string ≡ false
  pub has-insert :
      (k j : String) (s : Set) → has_key k (insert_key j s) ≡ ite (dec_eq k j) true (has_key k s)
  pub has-delete :
      (k j : String) (s : Set) → has_key k (delete_key j s) ≡ ite (dec_eq k j) false (has_key k s)
  pub times-visit : (k : String) (s : Set) → times k (visit s) ≡ (if has_key k s then 1 else 0)

module _ ⦃I : Imports⦄ where
  open I use {Object, Set, new_string, insert_key, delete_key, has_key, visit}

  -- `ClusterObject`; the `client.Object` in it may be nil.
  pub record ClusterObject : Type 0 where
    pub object : Option Object
    pub key : String
    pub owner_cluster : String

  -- `container`
  abbrev pub Container : Type 0
  Container = Dict ClusterObject

  -- `Get`, which gives the zero value for a key that is not there
  abbrev pub get_object : String → Container → ClusterObject
  get_object k c = elim (lookup k c) [
    | none ↦ record { object = none; key = ""; owner_cluster = "" }
    | some o ↦ o
  ]

  abbrev pub len : Container → ℕ
  len c = length c

  unfoldable pub insert_objects : List ClusterObject → Container → Container
  insert_objects [] c = c
  insert_objects (o ∷ objects) c = insert_objects objects (insert o.key o c)

  abbrev pub has_object : ClusterObject → Container → Bool
  has_object o c = contains o.key c

  abbrev pub delete_object : ClusterObject → Container → Container
  delete_object o c = erase o.key c

  abbrev pub clear_objects : Container → Container
  clear_objects c = []

  -- `NewDiffSet`
  unfoldable pub new_diff_set : List ClusterObject → Container
  unfolding insert_objects
  new_diff_set objects = insert_objects objects []

  -- the methods of `Handler`, as the calls that are made of them
  pub data Call : Type 0 where
    on_add on_delete : ClusterObject → Call
    on_update : ClusterObject → ClusterObject → Call

  -- `group` in the loop of `Difference`
  abbrev pub group_of : String → ClusterObject → Container → String
  group_of k v set2 =
      ite (dec_eq v.owner_cluster "") (get_object k set2).owner_cluster v.owner_cluster

  -- the loop of `GetKeys`
  unfoldable pub keys_from : Set → Container → Set
  keys_from s [] = s
  keys_from s ((k, v) ∷ c) = keys_from (insert_key k s) c

  unfoldable pub get_keys : Container → Set
  unfolding keys_from
  get_keys c = keys_from new_string c

  -- `keySet1`, `keySet2` and `groupedIntersectionSet`
  pub record Keys : Type 0 where
    pub key_set1 : Set
    pub key_set2 : Set
    pub grouped : Dict Set

  -- The key is put in the set of its group, which is made if there is none.
  unfoldable pub enter : String → String → Dict Set → Dict Set
  enter group k grouped = elim (lookup group grouped) [
    | none ↦ insert group (insert_key k new_string) grouped
    | some s ↦ insert group (insert_key k s) grouped
  ]

  -- the body of the loop of `Difference`
  unfoldable pub sort_key : Container → String → ClusterObject → Keys → Keys
  unfolding enter
  sort_key set2 k v keys =
      let both : Keys = record {
        key_set1 = delete_key k keys.key_set1;
        key_set2 = delete_key k keys.key_set2;
        grouped = enter (group_of k v set2) k keys.grouped;
      } in
      if has_key k keys.key_set2 then both else keys

  unfoldable pub sort_keys : Container → Container → Keys → Keys
  unfolding sort_key
  sort_keys set2 [] keys = keys
  sort_keys set2 ((k, v) ∷ c) keys = sort_keys set2 c (sort_key set2 k v keys)

  -- The goroutines, one for each group; each makes its calls in the order of its list.
  abbrev pub update_threads : (String → Call) → Dict Set → List (List Call)
  update_threads f [] = []
  update_threads f ((group, s) ∷ grouped) = map f (visit s) ∷ update_threads f grouped

  -- those that make one call
  abbrev pub single_threads : (String → Call) → List String → List (List Call)
  single_threads f [] = []
  single_threads f (k ∷ ks) = (f k ∷ []) ∷ single_threads f ks

  -- `Difference`: all goroutines, which run at the same time.
  unfoldable pub difference : Container → Container → List (List Call)
  unfolding sort_keys get_keys
  difference c set2 =
      let start : Keys = record { key_set1 = get_keys c; key_set2 = get_keys set2; grouped = [] } in
      let keys = sort_keys set2 c start in
      single_threads (λ k. on_add (get_object k c)) (visit keys.key_set1)
      ++ (update_threads (λ k. on_update (get_object k c) (get_object k set2)) keys.grouped
          ++ single_threads (λ k. on_delete (get_object k set2)) (visit keys.key_set2))
