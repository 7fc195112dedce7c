-- ===== src/Syncer/KeyValues/Downward.antt =====
-- `checkDWKVEquality`: what the labels or annotations in the super cluster come to be.
use text.Mathlib.TextEquality.{eq_iff}
use cluster_api_provider_nes.Base.{
  String, ◌≡◌, ◌↔◌, ◌⊎◌, inl, inr, Option-cases, Bool-cases, Bool, true, false, not, ◌&&◌, Option,
  none, [], arith, ◌==◌, if◌then◌else◌, length, Dict, lookup, Distinct,
}
use cluster_api_provider_nes.Syncer.Keys.{StringSets, VcEquality, is_skipped}
use cluster_api_provider_nes.Syncer.KeyValues.{
  more_or_diff, less, keep_entries, insert_each, check_dw_kv_equality,
}
use cluster_api_provider_nes.Syncer.KeyValues.Loops.{
  lookup-more_or_diff, contains-less, lookup-keep_entries, lookup-insert_each,
  more_or_diff-Distinct, keep_entries-Distinct, insert_each-Distinct, no_entries,
}

-- The map once the result of a check has been applied: the old one if it was equal.
abbrev pub settled {ℓ} : {V : Type ℓ} → Dict V → Dict V × Bool → Dict V
settled old (updated, equal) = if equal then old else updated

module _ ⦃S : StringSets⦄ where
  -- What the super cluster is to have for a key: its own value for a key that is skipped, and the
  -- tenant's, or none, for any other.
  abbrev pub wanted_below : VcEquality → Dict String → Dict String → String → Option String
  wanted_below e p v k = if is_skipped e k then lookup k p else lookup k v

  module _ (e : VcEquality) (p v : Dict String) (dp : Distinct p) (dv : Distinct v) where
    abbrev compared : String → Bool
    compared k = not (is_skipped e k)

    abbrev diff : Dict String
    diff = more_or_diff compared p v []

    abbrev missing : Dict String
    missing = less compared v p []

    -- No entry differs exactly when the tenant's entries that count are in the super cluster.
    agrees :
        (k : String)
        → lookup k diff ≡ none
        → lookup k missing ≡ none
        → lookup k p ≡ wanted_below e p v k
    agrees k h m = elim (Option-cases (lookup k v)) [
      | inl n ↦ ground (
        arith,
        h,
        m,
        lookup-more_or_diff k compared p v [] dv,
        contains-less k compared v p [] dp,
      )
      | inr (x, s) ↦ elim (Option-cases (lookup k p)) [
        | inl n ↦ ground (
          arith,
          h,
          m,
          lookup-more_or_diff k compared p v [] dv,
          contains-less k compared v p [] dp,
        )
        | inr (y, t) ↦ ground (
          arith,
          h,
          m,
          eq_iff y x,
          lookup-more_or_diff k compared p v [] dv,
          contains-less k compared v p [] dp,
        )
      ]
    ]

    no_difference :
        (k : String)
        → lookup k p ≡ wanted_below e p v k
        → (lookup k diff ≡ none) × (lookup k missing ≡ none)
    no_difference k h = elim (Option-cases (lookup k v)) [
      | inl n ↦
          ground
            (arith, h, lookup-more_or_diff k compared p v [] dv, contains-less k compared v p [] dp)
      | inr (x, s) ↦ elim (Option-cases (lookup k p)) [
        | inl n ↦
            ground (
              arith,
              h,
              lookup-more_or_diff k compared p v [] dv,
              contains-less k compared v p [] dp,
            )
        | inr (y, t) ↦ ground (
          arith,
          h,
          eq_iff y x,
          lookup-more_or_diff k compared p v [] dv,
          contains-less k compared v p [] dp,
        )
      ]
    ]

    abbrev updated : Dict String
    updated = insert_each diff (keep_entries missing p [])

    updated-Distinct : Distinct updated
    updated-Distinct =
        insert_each-Distinct diff (keep_entries missing p [])
          (keep_entries-Distinct missing p [] tt)

    lookup-updated : (k : String) → lookup k updated ≡ wanted_below e p v k
    lookup-updated k =
        let entered =
          lookup-insert_each k diff (keep_entries missing p [])
            (more_or_diff-Distinct compared p v [] tt) in
        let kept = lookup-keep_entries k missing p [] dp in
        let more = lookup-more_or_diff k compared p v [] dv in
        let gone = contains-less k compared v p [] dp in
        elim (Option-cases (lookup k v)) [
          | inl n ↦ ground (arith, entered, kept, more, gone)
          | inr (x, s) ↦ elim (Option-cases (lookup k p)) [
            | inl n ↦ ground (arith, entered, kept, more, gone)
            | inr (y, t) ↦ ground (arith, eq_iff y x, entered, kept, more, gone)
          ]
        ]

    pub check_dw_cases :
        ((check_dw_kv_equality e p v ≡ ([], true))
          × ((k : String) → lookup k p ≡ wanted_below e p v k))
        ⊎ ((new : Dict String) × (check_dw_kv_equality e p v ≡ (new, false))
            × Distinct new
            × ((k : String) → lookup k new ≡ wanted_below e p v k))
    unfolding check_dw_kv_equality
    check_dw_cases = elim (Bool-cases (length diff == 0 && length missing == 0)) [
      | inl same ↦ inl (
        ground (arith, same),
        λ k.
            agrees k ((no_entries diff).0 (ground (arith, same)) k)
              ((no_entries missing).0 (ground (arith, same)) k),
      )
      | inr changed ↦ inr (updated, ground (arith, changed), updated-Distinct, lookup-updated)
    ]

    -- The result says "equal" exactly when the super cluster has what is wanted for every key; and
    -- once the result is applied it has that for every key.
    pub check_dw_kv_equality_lem :
        (((check_dw_kv_equality e p v).1 ≡ true)
          ↔ ((k : String) → lookup k p ≡ wanted_below e p v k))
        × ((k : String) → lookup k (settled p (check_dw_kv_equality e p v)) ≡ wanted_below e p v k)
    unfolding check_dw_kv_equality
    check_dw_kv_equality_lem = (
      (
        (λ h. elim check_dw_cases [
          | inl (r, same) ↦ same
          | inr (new, r, d, now) ↦ absurd (ground (arith, h, r))
        ]),
        λ h.
            let none_more : (length diff == 0) ≡ true =
              (no_entries diff).1 (λ k. (no_difference k (h k)).0) in
            let none_less : (length missing == 0) ≡ true =
              (no_entries missing).1 (λ k. (no_difference k (h k)).1) in
            ground (arith, none_more, none_less),
      ),
      λ k. elim check_dw_cases [
        | inl (r, same) ↦ rw r (same k)
        | inr (new, r, d, now) ↦ rw r (now k)
      ],
    )

    pub settled-Distinct : Distinct (settled p (check_dw_kv_equality e p v))
    settled-Distinct = elim check_dw_cases [
      | inl (r, same) ↦ rw r dp
      | inr (new, r, d, now) ↦ rw r d
    ]

  -- Checking once more after an update finds nothing to do.
  pub check_dw_kv_equality_converges :
      (e : VcEquality) (p v : Dict String)
      → Distinct p
      → Distinct v
      → check_dw_kv_equality e (settled p (check_dw_kv_equality e p v)) v ≡ ([], true)
  check_dw_kv_equality_converges e p v dp dv =
      let now = (check_dw_kv_equality_lem e p v dp dv).1 in
      let p' = settled p (check_dw_kv_equality e p v) in
      let d' = settled-Distinct e p v dp dv in
      let still : (k : String) → lookup k p' ≡ wanted_below e p' v k = λ k. ground (arith, now k) in
      let equal = (check_dw_kv_equality_lem e p' v d' dv).0.1 still in
      elim (check_dw_cases e p' v d' dv) [
        | inl (r, same) ↦ r
        | inr (new, r, d, done) ↦ absurd (ground (arith, equal, r))
      ]
