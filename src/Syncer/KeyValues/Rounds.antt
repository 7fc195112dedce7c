-- ===== src/Syncer/KeyValues/Rounds.antt =====
-- Labels or annotations over many rounds of the downward synchronisation.
use cluster_api_provider_nes.Base.{
  String, ◌≡◌, refl, ◌∙◌, inl, inr, Bool-cases, Option, List, [], ◌∷◌, arith, if◌then◌else◌, Dict,
  lookup, Distinct, All,
}
use cluster_api_provider_nes.Syncer.Keys.{StringSets, VcEquality, is_skipped}
use cluster_api_provider_nes.Syncer.KeyValues.{check_dw_kv_equality}
use cluster_api_provider_nes.Syncer.KeyValues.Downward.{
  settled, check_dw_kv_equality_lem, settled-Distinct,
}

-- What a map is to its readers.
abbrev pub View : Type 0
View = String → Option String

module _ ⦃S : StringSets⦄ where
  -- The super cluster's map after a round for each version of the tenant's map.
  abbrev pub rounds : VcEquality → List (Dict String) → Dict String → Dict String
  rounds e [] p = p
  rounds e (v ∷ vs) p = rounds e vs (settled p (check_dw_kv_equality e p v))

  -- The specification: the last version counts, but for the keys of the super cluster itself.
  abbrev pub overlay : VcEquality → View → View → View
  overlay e own last k = if is_skipped e k then own k else last k

  -- the last of some versions, or the map of the super cluster if there is none
  abbrev pub last_version : List (Dict String) → Dict String → Dict String
  last_version [] p = p
  last_version (v ∷ vs) p = last_version vs v

  -- However many versions the tenant's map has had and whatever was in the super cluster's, after a
  -- round for each of them a reader finds in the super cluster's map what the last version has, and
  -- under a key that is skipped what it had at the start.
  pub rounds_lem :
      (e : VcEquality) (vs : List (Dict String)) (p : Dict String) (k : String)
      → Distinct p
      → All Distinct vs
      → lookup k (rounds e vs p) ≡ overlay e (λ j. lookup j p) (λ j. lookup j (last_version vs p)) k
  rounds_lem e [] p k d dvs = ground arith
  rounds_lem e (v ∷ []) p k d dvs = (check_dw_kv_equality_lem e p v d dvs.0).1 k
  rounds_lem e (v ∷ w ∷ vs) p k d dvs =
      let p' = settled p (check_dw_kv_equality e p v) in
      let now = (check_dw_kv_equality_lem e p v d dvs.0).1 k in
      let rest = rounds_lem e (w ∷ vs) p' k (settled-Distinct e p v d dvs.0) dvs.1 in
      rest ∙ elim (Bool-cases (is_skipped e k)) [
        | inl own ↦ rw own (now ∙ rw own refl)
        | inr other ↦ rw other refl
      ]
