-- ===== src/Syncer/Tests.antt =====
-- Tests of the syncer's checks. The parameters are simple functions: a set of texts is the list of
-- them, and what is only copied is a number.
mod Deep
mod Objects
mod Synced
use text.Mathlib.Text.{◌==◌ as str_eq}
use text.Mathlib.TextEquality.{eq_iff}
use cluster_api_provider_nes.Base.{
  ℕ, String, ◌≡◌, ◌↔◌, refl, Bool, true, false, ◌&&◌, ◌==◌, Option, none, some, List, [], ◌∷◌,
  arith, if◌then◌else◌, Dict, lookup, contains, ◌⊎◌, inl, inr, Option-cases,
}
use cluster_api_provider_nes.Syncer.Keys.{StringSets, VcEquality, any}
use cluster_api_provider_nes.Syncer.Pods.{Rests}
use cluster_api_provider_nes.Syncer.Contents.{Kinds}
use cluster_api_provider_nes.Syncer.Services.{Parts}

instance abbrev pub listed_sets : StringSets
listed_sets = record {
  unsorted_list = λ xs. xs;
  any-unsorted_list = λ p xs. refl;
  has = λ xs k. any (str_eq k) xs;
  has_lem = λ xs k. refl;
}

instance abbrev pub numbered_rests : Rests
numbered_rests = record {
  MetaOther = ℕ;
  ContainerOther = ℕ;
  SpecOther = ℕ;
  ConditionOther = ℕ;
  StatusOther = ℕ;
}

instance abbrev pub numbered_parts : Parts
numbered_parts = record {
  MetaOther = ℕ;
  ReferenceOther = ℕ;
  AddressOther = ℕ;
  SubsetOther = ℕ;
  PortOther = ℕ;
  SpecOther = ℕ;
  Other = ℕ;
}

abbrev pub same_value : Option String → Option String → Bool
same_value none none = true
same_value (some a) (some b) = str_eq a b
same_value (some a) none = false
same_value none (some b) = false

pub same_value_iff : (a b : Option String) → (same_value a b ≡ true) ↔ (a ≡ b)
same_value_iff none none = ((λ h. refl), λ h. refl)
same_value_iff (some a) (some b) =
    ((λ h. ground (arith, h, eq_iff a b)), λ h. ground (arith, h, eq_iff a b))
same_value_iff (some a) none = ((λ h. absurd (ground (arith, h))), λ h. absurd (ground (arith, h)))
same_value_iff none (some b) = ((λ h. absurd (ground (arith, h))), λ h. absurd (ground (arith, h)))

-- Two maps have the same under each key of a third.
abbrev pub agree_on : Dict String → Dict String → Dict String → Bool
agree_on m n [] = true
agree_on m n ((k, x) ∷ rest) = same_value (lookup k m) (lookup k n) && agree_on m n rest

agree_on-contains :
    (m n rest : Dict String) (k : String)
    → agree_on m n rest ≡ true
    → contains k rest ≡ true
    → lookup k m ≡ lookup k n
agree_on-contains m n [] k h c = absurd (ground (arith, c))
agree_on-contains m n ((j, x) ∷ rest) k h c =
    ground (arith, h, c, same_value_iff (lookup j m) (lookup j n), agree_on-contains m n rest k)

agree_on-same :
    (m n rest : Dict String) → ((k : String) → lookup k m ≡ lookup k n) → agree_on m n rest ≡ true
agree_on-same m n [] h = refl
agree_on-same m n ((j, x) ∷ rest) h =
    ground (arith, h j, same_value_iff (lookup j m) (lookup j n), agree_on-same m n rest h)

abbrev pub same_map : Dict String → Dict String → Bool
same_map m n = agree_on m n m && agree_on m n n

pub same_map_iff :
    (m n : Dict String) → (same_map m n ≡ true) ↔ ((k : String) → lookup k m ≡ lookup k n)
same_map_iff m n = (
  (λ h k. ground (arith, h, agree_on-contains m n m k, agree_on-contains m n n k)),
  (λ h. ground (arith, agree_on-same m n m h, agree_on-same m n n h)),
)

pub same_number_iff : (a b : ℕ) → ((a == b) ≡ true) ↔ (a ≡ b)
same_number_iff a b = ((λ h. ground (arith, h)), λ h. ground (arith, h))

instance abbrev pub text_kinds : Kinds
text_kinds = record {
  MetaOther = ℕ;
  Other = ℕ;
  Bytes = String;
  Quantity = ℕ;
  nothing = 0;
  same_quantity = λ a b. a == b;
  same_quantity_iff = same_number_iff;
  same_texts = same_map;
  same_texts_iff = same_map_iff;
  same_bytes = same_map;
  same_bytes_iff = same_map_iff;
}
