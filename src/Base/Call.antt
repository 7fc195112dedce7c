-- ===== src/Base/Call.antt =====
-- A Go call that may fail. `Result A` is Go's pair of a value and an error, one of which counts;
-- `Outcome E S` is a method's error beside the state that it leaves, which an error may have changed.
use native.Mathlib.Omega.{arith}
use mathlib.Core.Path.{◌≡◌, refl}
use mathlib.Core.Logic.{◌⊎◌, inl, inr}
use mathlib.Core.Bool.{Bool, true, false}
use mathlib.Core.Option.{Option, none, some}

pub data Result {ℓ κ} (E : Type ℓ) (A : Type κ) : Type (ℓ ⊔ κ) where
  ok : A → Result E A
  err : E → Result E A

module _ {ℓ} {E : Type ℓ} where
  infixl 5 ◌>>=◌ ◌>>◌
  abbrev pub ◌>>=◌ {κ μ} : {A : Type κ} {B : Type μ} → Result E A → (A → Result E B) → Result E B
  err failed >>= next = err failed
  ok value >>= next = next value

  abbrev pub ◌>>◌ {κ} : {B : Type κ} → Result E (Unit {0}) → Result E B → Result E B
  check >> rest = check >>= λ _. rest

  -- `if err { return e }`
  abbrev pub fail_if : Bool → E → Result E (Unit {0})
  fail_if true e = err e
  fail_if false e = ok tt

  -- `v, ok := m[k]; if !ok { return e }`
  abbrev pub or_err {κ} : {A : Type κ} → Option A → E → Result E A
  or_err none e = err e
  or_err (some a) e = ok a

  pub Result-cases {κ} :
      {A : Type κ} (r : Result E A) → ((e : E) × (r ≡ err e)) ⊎ ((a : A) × (r ≡ ok a))
  Result-cases (ok a) = inr (a, refl)
  Result-cases (err e) = inl (e, refl)

  -- A chain that succeeds has a first call that did.
  pub >>=-ok {κ μ} :
      {A : Type κ} {B : Type μ} (first : Result E A) (next : A → Result E B) {b : B}
      → (first >>= next) ≡ ok b
      → (a : A) × (first ≡ ok a) × (next a ≡ ok b)
  >>=-ok first next h = elim (Result-cases first) [
    | inl (e, failed) ↦ absurd (ground (arith, h, failed))
    | inr (a, went) ↦ (a, went, ground (arith, h, went))
  ]

abbrev pub Outcome {ℓ κ} : Type ℓ → Type κ → Type (ℓ ⊔ κ)
Outcome E S = Option E × S

-- A loop or a call that may panic, on fuel: `running` says that the fuel was used up.
pub data Run {ℓ} (A : Type ℓ) : Type ℓ where
  done : A → Run A
  panics : Run A
  running : Run A

abbrev pub then_run {ℓ κ} : {A : Type ℓ} {B : Type κ} → Run A → (A → Run B) → Run B
then_run (done a) f = f a
then_run panics f = panics
then_run running f = running
