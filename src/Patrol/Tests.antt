-- ===== src/Patrol/Tests.antt =====
-- Tests of the differ.
use cluster_api_provider_nes.Base.{
  ℕ, String, ◌≡◌, refl, subst, Bool, true, false, some, List, [], ◌∷◌, arith, ite, if◌then◌else◌,
  dec_eq, lookup,
}
use cluster_api_provider_nes.Patrol.Differ.{
  times, Imports, ClusterObject, Container, difference, new_diff_set,
}
use cluster_api_provider_nes.Patrol.Differ.Difference.{
  newest, IsKeyed, calls_about, wanted, difference_lem, difference-new_diff_set,
}

-- A set of texts, as a list and a proof that none stands in it twice.
abbrev has_text : String → List String → Bool
has_text k [] = false
has_text k (j ∷ s) = ite (dec_eq k j) true (has_text k s)

abbrev NoDuplicates : List String → Type 0
NoDuplicates [] = Unit
NoDuplicates (k ∷ s) = (has_text k s ≡ false) × NoDuplicates s

abbrev insert_text : String → List String → List String
insert_text k s = if has_text k s then s else k ∷ s

abbrev delete_text : String → List String → List String
delete_text k [] = []
delete_text k (j ∷ s) = ite (dec_eq k j) s (j ∷ delete_text k s)

insert_text-NoDuplicates :
    (k : String) (s : List String) → NoDuplicates s → NoDuplicates (insert_text k s)
insert_text-NoDuplicates k s d = ground (arith, d)

has_text-insert_text :
    (k j : String) (s : List String)
    → has_text k (insert_text j s) ≡ ite (dec_eq k j) true (has_text k s)
has_text-insert_text k j s = elim (dec_eq k j) [
  | yes e ↦
      subst (λ i. has_text k (insert_text i s) ≡ ite (dec_eq k i) true (has_text k s)) e
        (ground arith)
  | no n ↦ ground (arith, n)
]

has_text-delete_text :
    (k j : String) (s : List String)
    → NoDuplicates s
    → has_text k (delete_text j s) ≡ ite (dec_eq k j) false (has_text k s)
has_text-delete_text k j [] d = ground arith
has_text-delete_text k j (i ∷ s) d = ground (arith, has_text-delete_text k j s d.1, d.0)

delete_text-NoDuplicates :
    (k : String) (s : List String) → NoDuplicates s → NoDuplicates (delete_text k s)
delete_text-NoDuplicates k [] d = tt
delete_text-NoDuplicates k (j ∷ s) d =
    ground (arith, delete_text-NoDuplicates k s d.1, has_text-delete_text j k s d.1, d.0)

times_of_text :
    (k : String) (s : List String) → NoDuplicates s → times k s ≡ (if has_text k s then 1 else 0)
times_of_text k [] d = refl
times_of_text k (j ∷ s) d = ground (arith, times_of_text k s d.1, d.0)

abbrev TextSet : Type 0
TextSet = (s : List String) × NoDuplicates s

instance abbrev number_imports : Imports
number_imports = record {
  Object = ℕ;
  Set = TextSet;
  new_string = ([], tt);
  insert_key = λ k s. (insert_text k s.0, insert_text-NoDuplicates k s.0 s.1);
  delete_key = λ k s. (delete_text k s.0, delete_text-NoDuplicates k s.0 s.1);
  has_key = λ k s. has_text k s.0;
  visit = λ s. s.0;
  has-new = λ k. refl;
  has-insert = λ k j s. has_text-insert_text k j s.0;
  has-delete = λ k j s. has_text-delete_text k j s.0 s.1;
  times-visit = λ k s. times_of_text k s.0 s.1;
}

abbrev object_of : String → ℕ → ClusterObject
object_of k n = record { object = some n; key = k; owner_cluster = "west" }

-- the tenants' objects, and those of the super cluster
abbrev tenants : List ClusterObject
tenants = object_of "a" 1 ∷ object_of "b" 2 ∷ []

abbrev super : List ClusterObject
super = object_of "b" 3 ∷ object_of "c" 4 ∷ []

abbrev tenant_set : Container
tenant_set = ("a", object_of "a" 1) ∷ ("b", object_of "b" 2) ∷ []

abbrev super_set : Container
super_set = ("b", object_of "b" 3) ∷ ("c", object_of "c" 4) ∷ []

tenant_set-IsKeyed : IsKeyed tenant_set
tenant_set-IsKeyed k o h = ground (arith, h)

super_set-IsKeyed : IsKeyed super_set
super_set-IsKeyed k o h = ground (arith, h)

difference_lem_example :
    calls_about "b" (difference tenant_set super_set)
    ≡ wanted (lookup "b" tenant_set) (lookup "b" super_set)
unfolding dec_eq
difference_lem_example =
    difference_lem tenant_set super_set "b" (refl, (refl, tt)) tenant_set-IsKeyed super_set-IsKeyed

difference-new_diff_set_example :
    let c = new_diff_set tenants in
    let set2 = new_diff_set super in
    (lookup "a" c ≡ newest "a" tenants)
    × (calls_about "a" (difference c set2) ≡ wanted (newest "a" tenants) (newest "a" super))
difference-new_diff_set_example = difference-new_diff_set tenants super "a"
