-- ===== src/Scheduler/Startup/Cases.antt =====
-- Reasoning by cases about what the functions of the startup leave.
use cluster_api_provider_nes.Base.{
  Bool, true, false, Option, none, some, ite, if◌then◌else◌, Result, ok, err,
}
use cluster_api_provider_nes.Scheduler.Quantity.{Quantities}
use cluster_api_provider_nes.Scheduler.Resource.{ResourceList}
use cluster_api_provider_nes.Scheduler.Cache.{Cache}
use cluster_api_provider_nes.Scheduler.Cache.Books.{IsSound}
use cluster_api_provider_nes.Scheduler.Startup.{SyncError}

-- What holds in each case holds of a case distinction.
module _ {C : Type 0} (P : C → Type 0) where
  pub if_each : (b : Bool) {x y : C} → P x → P y → P (if b then x else y)
  if_each true px py = px
  if_each false px py = py

  pub bool_each : (b : Bool) {x y : C} → P x → P y → P (elim b [ false ↦ x | true ↦ y ])
  bool_each true px py = py
  bool_each false px py = px

  pub option_each :
      {A : Type 0} (o : Option A) {n : C} {f : A → C}
      → P n
      → ((a : A) → P (f a))
      → P (elim o [ none ↦ n | some a ↦ f a ])
  option_each none pn pf = pn
  option_each (some a) pn pf = pf a

  pub result_each :
      {A E : Type 0} (r : Result E A) {g : E → C} {f : A → C}
      → ((e : E) → P (g e))
      → ((a : A) → P (f a))
      → P (elim r [ err e ↦ g e | ok a ↦ f a ])
  result_each (err e) pe pa = pe e
  result_each (ok a) pe pa = pa a

  pub ite_each : {X : Type 0} (d : Dec X) {x y : C} → P x → P y → P (ite d x y)
  ite_each (yes e) px py = px
  ite_each (no n) px py = py

module _ ⦃Q : Quantities⦄ where
  -- The cache beside the default slice size and an error is sound.
  abbrev pub EndsSound : ResourceList × Option SyncError × Cache → Type 0
  EndsSound (default, e, c) = IsSound c
