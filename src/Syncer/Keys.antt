-- ===== src/Syncer/Keys.antt =====
-- conversion/equality.go: the keys of labels and annotations that belong to one side only.
use Prim.Native.Char.{code}
use Prim.Native.String.{String}
use text.Mathlib.Text.{◌==◌ as str_eq, starts_with}
use cluster_api_provider_nes.Base.{
  ◌≡◌, Bool, false, ◌||◌, Option, none, some, List, [], ◌∷◌, ◌++◌, ◌==◌, if◌then◌else◌,
}

-- `strings.HasSuffix`
unfoldable pub ends_with : String → String → Bool
ends_with String.[] t = str_eq String.[] t
ends_with (String.◌∷◌ c s) t = str_eq (String.◌∷◌ c s) t || ends_with s t

-- the first of `strings.SplitN(key, "/", 2)`
unfoldable pub before_slash : String → String
before_slash String.[] = String.[]
before_slash (String.◌∷◌ c s) = if code c == b'/' then String.[] else String.◌∷◌ c (before_slash s)

-- whether a test holds of one element
abbrev pub any : (String → Bool) → List String → Bool
any p [] = false
any p (x ∷ xs) = p x || any p xs

-- `sets.String` of k8s.io/apimachinery, as far as it is used here: of a set into which the texts
-- `xs` were inserted, `unsorted_list xs` is the `UnsortedList`, which has the same members, and
-- `has xs` is `Has`.
pub record StringSets : Type 0 where
  pub unsorted_list : List String → List String
  pub any-unsorted_list :
      (p : String → Bool) (xs : List String) → any p (unsorted_list xs) ≡ any p xs
  pub has : List String → String → Bool
  pub has_lem : (xs : List String) (k : String) → has xs k ≡ any (str_eq k) xs

-- the part of `config.SyncerConfiguration` that is read
pub record SyncerConfiguration : Type 0 where
  pub default_opaque_meta_domains : List String

-- the part of `VirtualCluster.Spec` that is read
pub record VirtualCluster : Type 0 where
  pub transparent_meta_prefixes : List String
  pub opaque_meta_prefixes : List String

-- `vcEquality`; both pointers may be nil.
pub record VcEquality : Type 0 where
  pub config : Option SyncerConfiguration
  pub vc : Option VirtualCluster

abbrev pub default_opaque_meta_prefix : String
default_opaque_meta_prefix = "tenancy.x-k8s.io"

abbrev pub default_transparent_meta_prefix : String
default_transparent_meta_prefix = "transparency.tenancy.x-k8s.io"

unfoldable pub has_prefix_in_array : String → List String → Bool
has_prefix_in_array key array = any (starts_with key) array

unfoldable pub is_opaqued_key : Option SyncerConfiguration → String → Bool
unfolding ends_with before_slash
is_opaqued_key none key = false
is_opaqued_key (some config) key =
    any (ends_with (before_slash key)) config.default_opaque_meta_domains

module _ ⦃S : StringSets⦄ where
  open S use {unsorted_list}

  -- `exceptionsList` of `checkDWKVEquality`
  unfoldable pub exceptions_list : VcEquality → List String
  exceptions_list e = elim e.vc [
    | none ↦ []
    | some vc ↦ unsorted_list (
        vc.transparent_meta_prefixes
        ++ (vc.opaque_meta_prefixes
            ++ default_opaque_meta_prefix ∷ default_transparent_meta_prefix ∷ []))
  ]

  -- the test, twice, of a key that downward synchronisation leaves alone
  unfoldable pub is_skipped : VcEquality → String → Bool
  unfolding exceptions_list has_prefix_in_array is_opaqued_key
  is_skipped e k = has_prefix_in_array k (exceptions_list e) || is_opaqued_key e.config k

  -- `matchingList` of `checkUWKVEquality`, of a virtual cluster that is not nil
  unfoldable pub matching_list : VirtualCluster → List String
  matching_list vc = unsorted_list (default_transparent_meta_prefix ∷ vc.transparent_meta_prefixes)

  -- the test there of a key that is populated back to the tenant
  unfoldable pub is_transparent : VcEquality → String → Bool
  unfolding matching_list has_prefix_in_array
  is_transparent e k = elim e.vc [
    | none ↦ false
    | some vc ↦ has_prefix_in_array k (matching_list vc)
  ]
