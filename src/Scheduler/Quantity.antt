-- ===== src/Scheduler/Quantity.antt =====
-- What the scheduler takes from outside the repository: `resource.Quantity` of
-- k8s.io/apimachinery, and the rounded quotient of two float64 numbers.
use cluster_api_provider_nes.Base.{
  ℕ, String, ◌+◌, ◌-◌, ◌*◌, ◌/◌, ◌^◌, ◌≤◌, ◌<◌, ◌≡◌, compare, Ordering, Bool, true, false,
}
use cluster_api_provider_nes.Base.Int.{ℤ, pos}

-- A quantity stands for an amount that is a whole number of the smallest unit; `scale` is how many
-- of these make 1. Amounts are not negative: the API server admits no other request or quota, and
-- the code subtracts only what it has compared before. The share of a placement with a negative
-- number, the one amount below 0 that the code can make, is therefore outside the model.
pub record Quantities : Type 1 where
  pub Quantity : Type 0
  pub nothing : Quantity
  pub add : Quantity → Quantity → Quantity
  pub sub : Quantity → Quantity → Quantity
  pub cmp : Quantity → Quantity → Ordering
  pub value : Quantity → ℕ
  pub set_value : Quantity → ℤ → Quantity
  pub must_parse : String → Quantity
  pub ceil_quotient : ℕ → ℕ → ℕ
  pub scale : ℕ
  pub amount : Quantity → ℕ
  pub scale_pos : 0 < scale
  pub amount_nothing : amount nothing ≡ 0
  pub amount_add : (a b : Quantity) → amount (add a b) ≡ amount a + amount b
  pub amount_sub : (a b : Quantity) → amount b ≤ amount a → amount (sub a b) + amount b ≡ amount a
  pub amount_set : (q : Quantity) (n : ℕ) → amount (set_value q (pos n)) ≡ n * scale
  pub cmp_lem : (a b : Quantity) → cmp a b ≡ compare (amount a) (amount b)
  pub value_lem :
      (q : Quantity) → (amount q ≤ value q * scale) × (value q * scale < amount q + scale)
  pub ceil_quotient_lem :
      (q v : ℕ) → 0 < v → q < 2 ^ 53 → v < 2 ^ 53 → ceil_quotient q v ≡ (q + v - 1) / v

-- `a.Cmp(b) == -1`, which is how the code writes `a < b`.
abbrev pub is_lt : Ordering → Bool
is_lt Ordering.lt = true
is_lt _ = false

-- `a.Cmp(b) == 0`
abbrev pub is_eq : Ordering → Bool
is_eq Ordering.eq = true
is_eq _ = false
