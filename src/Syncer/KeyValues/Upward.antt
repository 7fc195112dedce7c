-- ===== src/Syncer/KeyValues/Upward.antt =====
-- `checkUWKVEquality`: what the tenant's labels or annotations come to be.
use text.Mathlib.TextEquality.{eq_iff}
use cluster_api_provider_nes.Base.{
  String, ◌≡◌, ◌↔◌, ◌⊎◌, inl, inr, Option-cases, Bool-cases, true, false, ◌&&◌, Option, none, [],
  arith, ◌==◌, if◌then◌else◌, length, Dict, lookup, contains, Distinct,
}
use cluster_api_provider_nes.Syncer.Keys.{StringSets, VcEquality, is_transparent}
use cluster_api_provider_nes.Syncer.KeyValues.{more_or_diff, insert_each, check_uw_kv_equality}
use cluster_api_provider_nes.Syncer.KeyValues.Loops.{
  lookup-more_or_diff, lookup-insert_each, more_or_diff-Distinct, insert_each-Distinct, no_entries,
}
use cluster_api_provider_nes.Syncer.KeyValues.Downward.{settled}

module _ ⦃S : StringSets⦄ where
  -- What the tenant is to have for a key: the super cluster's value, where there is one and the key
  -- is transparent, and its own for any other.
  abbrev pub wanted_above : VcEquality → Dict String → Dict String → String → Option String
  wanted_above e p v k = if is_transparent e k && contains k p then lookup k p else lookup k v

  module _ (e : VcEquality) (p v : Dict String) (dp : Distinct p) (dv : Distinct v) where
    abbrev diff : Dict String
    diff = more_or_diff (is_transparent e) v p []

    agrees : (k : String) → lookup k diff ≡ none → lookup k v ≡ wanted_above e p v k
    agrees k h = elim (Option-cases (lookup k p)) [
      | inl n ↦ ground (arith, h, lookup-more_or_diff k (is_transparent e) v p [] dp)
      | inr (x, s) ↦ elim (Option-cases (lookup k v)) [
        | inl n ↦ ground (arith, h, lookup-more_or_diff k (is_transparent e) v p [] dp)
        | inr (y, t) ↦
            ground (arith, h, eq_iff y x, lookup-more_or_diff k (is_transparent e) v p [] dp)
      ]
    ]

    no_difference : (k : String) → lookup k v ≡ wanted_above e p v k → lookup k diff ≡ none
    no_difference k h = elim (Option-cases (lookup k p)) [
      | inl n ↦ ground (arith, h, lookup-more_or_diff k (is_transparent e) v p [] dp)
      | inr (x, s) ↦ elim (Option-cases (lookup k v)) [
        | inl n ↦ ground (arith, h, lookup-more_or_diff k (is_transparent e) v p [] dp)
        | inr (y, t) ↦
            ground (arith, h, eq_iff y x, lookup-more_or_diff k (is_transparent e) v p [] dp)
      ]
    ]

    no_match : e.vc ≡ none → (k : String) → lookup k diff ≡ none
    unfolding is_transparent
    no_match n k = ground (arith, n, lookup-more_or_diff k (is_transparent e) v p [] dp)

    abbrev updated : Dict String
    updated = insert_each diff (insert_each v [])

    lookup-updated : (k : String) → lookup k updated ≡ wanted_above e p v k
    lookup-updated k =
        let entered =
          lookup-insert_each k diff (insert_each v [])
            (more_or_diff-Distinct (is_transparent e) v p [] tt) in
        let kept = lookup-insert_each k v [] dv in
        let more = lookup-more_or_diff k (is_transparent e) v p [] dp in
        elim (Option-cases (lookup k p)) [
          | inl n ↦ ground (arith, entered, kept, more)
          | inr (x, s) ↦ elim (Option-cases (lookup k v)) [
            | inl n ↦ ground (arith, entered, kept, more)
            | inr (y, t) ↦ ground (arith, eq_iff y x, entered, kept, more)
          ]
        ]

    pub check_uw_cases :
        ((check_uw_kv_equality e p v ≡ ([], true))
          × ((k : String) → lookup k v ≡ wanted_above e p v k))
        ⊎ ((new : Dict String) × (check_uw_kv_equality e p v ≡ (new, false))
            × Distinct new
            × ((k : String) → lookup k new ≡ wanted_above e p v k))
    unfolding check_uw_kv_equality
    check_uw_cases = elim (Option-cases e.vc) [
      | inl n ↦ inl (ground (arith, n), λ k. agrees k (no_match n k))
      | inr (vc, s) ↦ elim (Bool-cases (length diff == 0)) [
        | inl same ↦ inl (ground (arith, s, same), λ k. agrees k ((no_entries diff).0 same k))
        | inr changed ↦ inr (
          updated,
          ground (arith, s, changed),
          insert_each-Distinct diff (insert_each v []) (insert_each-Distinct v [] tt),
          lookup-updated,
        )
      ]
    ]

    -- The result says "equal" exactly when the tenant has what is wanted for every key; and once the
    -- result is applied it has that for every key.
    pub check_uw_kv_equality_lem :
        (((check_uw_kv_equality e p v).1 ≡ true)
          ↔ ((k : String) → lookup k v ≡ wanted_above e p v k))
        × ((k : String) → lookup k (settled v (check_uw_kv_equality e p v)) ≡ wanted_above e p v k)
    unfolding check_uw_kv_equality
    check_uw_kv_equality_lem = (
      (
        (λ h. elim check_uw_cases [
          | inl (r, same) ↦ same
          | inr (new, r, d, now) ↦ absurd (ground (arith, h, r))
        ]),
        λ h.
            let none_more : (length diff == 0) ≡ true =
              (no_entries diff).1 (λ k. no_difference k (h k)) in
            ground (arith, none_more),
      ),
      λ k. elim check_uw_cases [
        | inl (r, same) ↦ rw r (same k)
        | inr (new, r, d, now) ↦ rw r (now k)
      ],
    )

    pub settled_above-Distinct : Distinct (settled v (check_uw_kv_equality e p v))
    settled_above-Distinct = elim check_uw_cases [
      | inl (r, same) ↦ rw r dv
      | inr (new, r, d, now) ↦ rw r d
    ]

  -- Checking once more after an update finds nothing to do.
  pub check_uw_kv_equality_converges :
      (e : VcEquality) (p v : Dict String)
      → Distinct p
      → Distinct v
      → check_uw_kv_equality e p (settled v (check_uw_kv_equality e p v)) ≡ ([], true)
  check_uw_kv_equality_converges e p v dp dv =
      let now = (check_uw_kv_equality_lem e p v dp dv).1 in
      let v' = settled v (check_uw_kv_equality e p v) in
      let d' = settled_above-Distinct e p v dp dv in
      let still : (k : String) → lookup k v' ≡ wanted_above e p v' k = λ k. ground (arith, now k) in
      let equal = (check_uw_kv_equality_lem e p v' dp d').0.1 still in
      elim (check_uw_cases e p v' dp d') [
        | inl (r, same) ↦ r
        | inr (new, r, d, done) ↦ absurd (ground (arith, equal, r))
      ]
