-- ===== src/Syncer/KeyValues/Loops.antt =====
-- What the loops of `checkDWKVEquality` and `checkUWKVEquality` leave in a map.
use cluster_api_provider_nes.Base.{
  String, ◌≡◌, ◌↔◌, refl, inl, inr, Bool-cases, Bool, true, not, ◌&&◌, none, some, [], ◌∷◌, arith,
  ◌==◌, if◌then◌else◌, length, Dict, lookup, insert, contains, lookup-insert, Distinct,
  insert-Distinct,
}
use cluster_api_provider_nes.Syncer.KeyValues.{
  has_value, more_or_diff, less, keep_entries, insert_each,
}

pub lookup-more_or_diff :
    (k : String) (compared : String → Bool) (to from diff : Dict String)
    → Distinct from
    → lookup k (more_or_diff compared to from diff) ≡ elim (lookup k from) [
      | none ↦ lookup k diff
      | some x ↦ if compared k && not (has_value k x to) then some x else lookup k diff
    ]
unfolding more_or_diff
lookup-more_or_diff k compared to [] diff d = refl
lookup-more_or_diff k compared to ((j, x) ∷ from) diff d = ground (
  arith,
  lookup-more_or_diff k compared to from
      (if compared j && not (has_value j x to) then insert j x diff else diff) d.1,
  lookup-insert k j x diff,
  d.0,
)

pub contains-less :
    (k : String) (compared : String → Bool) (to from missing : Dict String)
    → Distinct from
    → contains k (less compared to from missing) ≡ (
        if contains k from && (compared k && not (contains k to)) then true else contains k missing)
unfolding less
contains-less k compared to [] missing d = refl
contains-less k compared to ((j, x) ∷ from) missing d = ground (
  arith,
  contains-less k compared to from
      (if compared j && not (contains j to) then insert j "" missing else missing) d.1,
  lookup-insert k j "" missing,
  d.0,
)

pub lookup-keep_entries :
    (k : String) (missing from updated : Dict String)
    → Distinct from
    → lookup k (keep_entries missing from updated)
      ≡ (if contains k from && not (contains k missing) then lookup k from else lookup k updated)
unfolding keep_entries
lookup-keep_entries k missing [] updated d = refl
lookup-keep_entries k missing ((j, x) ∷ from) updated d = ground (
  arith,
  lookup-keep_entries k missing from (if contains j missing then updated else insert j x updated)
      d.1,
  lookup-insert k j x updated,
  d.0,
)

pub lookup-insert_each {ℓ} :
    {V : Type ℓ} (k : String) (from updated : Dict V)
    → Distinct from
    → lookup k (insert_each from updated)
      ≡ (if contains k from then lookup k from else lookup k updated)
unfolding insert_each
lookup-insert_each k [] updated d = refl
lookup-insert_each k ((j, x) ∷ from) updated d =
    ground
      (arith, lookup-insert_each k from (insert j x updated) d.1, lookup-insert k j x updated, d.0)

-- All four loops leave a map in which no key has two entries.
pub more_or_diff-Distinct :
    (compared : String → Bool) (to from diff : Dict String)
    → Distinct diff
    → Distinct (more_or_diff compared to from diff)
unfolding more_or_diff
more_or_diff-Distinct compared to [] diff d = d
more_or_diff-Distinct compared to ((j, x) ∷ from) diff d =
    more_or_diff-Distinct compared to from
      (if compared j && not (has_value j x to) then insert j x diff else diff)
      (elim (Bool-cases (compared j && not (has_value j x to))) [
        | inl e ↦ rw e (insert-Distinct j x diff d)
        | inr e ↦ rw e d
      ])

pub keep_entries-Distinct :
    (missing from updated : Dict String)
    → Distinct updated
    → Distinct (keep_entries missing from updated)
unfolding keep_entries
keep_entries-Distinct missing [] updated d = d
keep_entries-Distinct missing ((j, x) ∷ from) updated d =
    keep_entries-Distinct missing from (if contains j missing then updated else insert j x updated)
      (elim (Bool-cases (contains j missing)) [
        | inl e ↦ rw e d
        | inr e ↦ rw e (insert-Distinct j x updated d)
      ])

pub insert_each-Distinct {ℓ} :
    {V : Type ℓ} (from updated : Dict V) → Distinct updated → Distinct (insert_each from updated)
unfolding insert_each
insert_each-Distinct [] updated d = d
insert_each-Distinct ((j, x) ∷ from) updated d =
    insert_each-Distinct from (insert j x updated) (insert-Distinct j x updated d)

-- A map with no entries has no value for any key, and the other way round.
pub no_entries {ℓ} :
    {V : Type ℓ} (m : Dict V) → ((length m == 0) ≡ true) ↔ ((k : String) → lookup k m ≡ none)
no_entries [] = ((λ h k. refl), λ h. refl)
no_entries ((k, x) ∷ m) = ((λ h. absurd (ground (arith, h))), λ h. absurd (ground (arith, h k)))
