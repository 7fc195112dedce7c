-- ===== src/Syncer/KeyValues.antt =====
-- conversion/equality.go: `checkDWKVEquality` and `checkUWKVEquality`.
pub mod Loops
pub mod Downward
pub mod Upward
pub mod Rounds
use text.Mathlib.Text.{◌==◌ as str_eq}
use cluster_api_provider_nes.Base.{
  String, ◌≡◌, Bool, true, false, not, ◌&&◌, Option, none, some, List, [], ◌∷◌, ◌==◌, if◌then◌else◌,
  length, Dict, lookup, insert, contains,
}
use cluster_api_provider_nes.Syncer.Keys.{StringSets, VcEquality, is_skipped, is_transparent}

-- `ok && m[k] == x`
abbrev pub has_value : String → String → Dict String → Bool
has_value k x m = elim (lookup k m) [ none ↦ false | some y ↦ str_eq y x ]

-- The loop over `from` that puts in `moreOrDiff` each entry that is to be compared and that the
-- map `to` lacks or has with another value.
unfoldable pub more_or_diff :
    (String → Bool) → Dict String → Dict String → Dict String → Dict String
more_or_diff compared to [] diff = diff
more_or_diff compared to ((k, x) ∷ from) diff =
    more_or_diff compared to from
      (if compared k && not (has_value k x to) then insert k x diff else diff)

-- The loop that puts in `less` the keys of `from` that are to be compared and that `to` lacks; the
-- value is that of a missing key.
unfoldable pub less : (String → Bool) → Dict String → Dict String → Dict String → Dict String
less compared to [] missing = missing
less compared to ((k, x) ∷ from) missing =
    less compared to from
      (if compared k && not (contains k to) then insert k "" missing else missing)

-- the loop that copies the entries whose key is not in `less`
unfoldable pub keep_entries : Dict String → Dict String → Dict String → Dict String
keep_entries missing [] updated = updated
keep_entries missing ((k, x) ∷ from) updated =
    keep_entries missing from (if contains k missing then updated else insert k x updated)

-- the loop that copies all entries
unfoldable pub insert_each {ℓ} : {V : Type ℓ} → Dict V → Dict V → Dict V
insert_each [] updated = updated
insert_each ((k, x) ∷ from) updated = insert_each from (insert k x updated)

module _ ⦃S : StringSets⦄ where
  unfoldable pub check_dw_kv_equality : VcEquality → Dict String → Dict String → Dict String × Bool
  unfolding more_or_diff less keep_entries insert_each is_skipped
  check_dw_kv_equality e p v =
      let compared = λ (k : String). not (is_skipped e k) in
      let diff = more_or_diff compared p v [] in
      let missing = less compared v p [] in
      if length diff == 0 && length missing == 0
      then ([], true)
      else (insert_each diff (keep_entries missing p []), false)

  unfoldable pub check_uw_kv_equality : VcEquality → Dict String → Dict String → Dict String × Bool
  unfolding more_or_diff insert_each is_transparent
  check_uw_kv_equality e p v = elim e.vc [
    | none ↦ ([], true)
    | some vc ↦
        let diff = more_or_diff (is_transparent e) v p [] in
        if length diff == 0 then ([], true) else (insert_each diff (insert_each v []), false)
  ]
