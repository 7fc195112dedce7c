-- ===== src/Base/Map.antt =====
-- Go's maps with text keys. A map is the list of its entries in the order in which a `range` loop
-- visits them; a theorem about every list is one about every order.
use Prim.Native.Nat.{ℕ, ◌+◌}
use Prim.Native.String.{String}
use mathlib.Core.Path.{◌≡◌, refl, subst}
use mathlib.Core.Logic.{ite}
use mathlib.Core.Bool.{Bool, true, false}
use mathlib.Core.Option.{Option, none, some}
use mathlib.Core.List.{List, [], ◌∷◌}
use native.Mathlib.Omega.{arith}
use cluster_api_provider_nes.Base.Tests.{dec_eq, All}

abbrev pub Dict {ℓ} : Type ℓ → Type ℓ
Dict V = List (String × V)

module _ {ℓ} {V : Type ℓ} where
  abbrev pub lookup : String → Dict V → Option V
  lookup k [] = none
  lookup k ((j, v) ∷ m) = ite (dec_eq k j) (some v) (lookup k m)

  -- `_, ok := m[k]`
  abbrev pub contains : String → Dict V → Bool
  contains k m = elim (lookup k m) [ none ↦ false | some _ ↦ true ]

  -- `m[k] = v`
  abbrev pub insert : String → V → Dict V → Dict V
  insert k v [] = (k, v) ∷ []
  insert k v ((j, w) ∷ m) = ite (dec_eq k j) ((k, v) ∷ m) ((j, w) ∷ insert k v m)

  -- `delete(m, k)`
  abbrev pub erase : String → Dict V → Dict V
  erase k [] = []
  erase k ((j, w) ∷ m) = ite (dec_eq k j) (erase k m) ((j, w) ∷ erase k m)

  pub lookup-insert :
      (j k : String) (v : V) (m : Dict V)
      → lookup j (insert k v m) ≡ ite (dec_eq j k) (some v) (lookup j m)
  lookup-insert j k v [] = refl
  lookup-insert j k v ((i, w) ∷ m) = ground (arith, lookup-insert j k v m)

  pub lookup-erase :
      (j k : String) (m : Dict V) → lookup j (erase k m) ≡ ite (dec_eq j k) none (lookup j m)
  lookup-erase j k [] = ground arith
  lookup-erase j k ((i, w) ∷ m) = ground (arith, lookup-erase j k m)

  -- No key has two entries: what the representation of a Go map keeps.
  abbrev pub Distinct : Dict V → Type ℓ
  Distinct [] = Unit
  Distinct ((k, v) ∷ m) = (lookup k m ≡ none) × Distinct m

  pub insert-Distinct : (k : String) (v : V) (m : Dict V) → Distinct m → Distinct (insert k v m)
  insert-Distinct k v [] h = (refl, tt)
  insert-Distinct k v ((j, w) ∷ m) h =
      ground (arith, insert-Distinct k v m h.1, lookup-insert j k v m)

  pub erase-Distinct : (k : String) (m : Dict V) → Distinct m → Distinct (erase k m)
  erase-Distinct k [] h = tt
  erase-Distinct k ((j, w) ∷ m) h = ground (arith, erase-Distinct k m h.1, lookup-erase j k m)

  pub erase_absent : (k : String) (m : Dict V) → lookup k m ≡ none → erase k m ≡ m
  erase_absent k [] h = refl
  erase_absent k ((j, w) ∷ m) h = ground (arith, erase_absent k m)

  pub erase-insert_absent :
      (k : String) (v : V) (m : Dict V) → lookup k m ≡ none → erase k (insert k v m) ≡ m
  erase-insert_absent k v [] h = ground arith
  erase-insert_absent k v ((j, w) ∷ m) h =
      ground (arith, erase-insert_absent k v m, erase_absent k m)

  -- The sum of a measure over the entries.
  abbrev pub sum_by : (V → ℕ) → Dict V → ℕ
  sum_by f [] = 0
  sum_by f ((k, v) ∷ m) = f v + sum_by f m

  pub sum_by-insert :
      (f : V → ℕ) (k : String) (v : V) (m : Dict V)
      → lookup k m ≡ none
      → sum_by f (insert k v m) ≡ f v + sum_by f m
  sum_by-insert f k v [] h = refl
  sum_by-insert f k v ((j, w) ∷ m) h = ground (arith, sum_by-insert f k v m)

  pub sum_by-erase :
      (f : V → ℕ) (k : String) (v : V) (m : Dict V)
      → Distinct m
      → lookup k m ≡ some v
      → sum_by f (erase k m) + f v ≡ sum_by f m
  sum_by-erase f k v [] d h = cc
  sum_by-erase f k v ((j, w) ∷ m) d h = ground (arith, sum_by-erase f k v m d.1, erase_absent k m)

  -- Putting another value in the place of one moves the sum by the difference.
  pub sum_by-put :
      (f : V → ℕ) (k : String) (v w : V) (m : Dict V)
      → Distinct m
      → lookup k m ≡ some w
      → sum_by f (insert k v m) + f w ≡ sum_by f m + f v
  sum_by-put f k v w [] d e = absurd (ground arith)
  sum_by-put f k v w ((j, u) ∷ m) d e = ground (arith, sum_by-put f k v w m d.1)

  pub All-lookup {κ} :
      (P : String × V → Type κ) (k : String) (v : V) (m : Dict V)
      → All P m
      → lookup k m ≡ some v
      → P (k, v)
  All-lookup P k v [] h e = cc
  All-lookup P k v ((j, w) ∷ m) h e = elim (dec_eq k j) [
    | yes p ↦ subst P (let q : (j, w) ≡ (k, v) = ground arith in q) h.0
    | no p ↦ All-lookup P k v m h.1 (ground arith)
  ]

  -- The entries are those that the map gives their keys.
  abbrev pub Found : Dict V → Dict V → Type ℓ
  Found m = All (λ e. lookup e.0 m ≡ some e.1)

  Found-cons :
      (k : String) (v : V) (m rest : Dict V)
      → lookup k rest ≡ none
      → Found m rest
      → Found ((k, v) ∷ m) rest
  Found-cons k v m [] n f = tt
  Found-cons k v m ((j, w) ∷ rest) n f =
      (ground (arith, f.0), Found-cons k v m rest (ground arith) f.1)

  pub Found-self : (m : Dict V) → Distinct m → Found m m
  Found-self [] d = tt
  Found-self ((k, v) ∷ m) d = (ground arith, Found-cons k v m m d.0 (Found-self m d.1))

  pub Found-erase :
      (k : String) (m rest : Dict V) → lookup k rest ≡ none → Found m rest → Found (erase k m) rest
  Found-erase k m [] n f = tt
  Found-erase k m ((j, w) ∷ rest) n f =
      (ground (arith, f.0, lookup-erase j k m), Found-erase k m rest (ground arith) f.1)

-- the order in which a `range` statement visits a map: the map's entries, in some order
abbrev pub Order {ℓ} : Type ℓ → Type ℓ
Order V = Dict V → Dict V

-- What Go says of a `range` over a map: it visits the map's entries, and leaves none out.
pub record IsOrder {ℓ} {V : Type ℓ} (visit : Order V) : Type ℓ where
  pub entries : (m : Dict V) → Distinct m → All (λ e. lookup e.0 m ≡ some e.1) (visit m)
  pub keeps : (k : String) (m : Dict V) → lookup k (visit m) ≡ lookup k m
