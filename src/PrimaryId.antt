-- ===== src/PrimaryId.antt =====
-- libs/model/src/featurelayer.cpp: the primary id composition of a feature type, the comparison of
-- ids without their optional parts, and the checks that newFeature and setIdPrefix make.
use mapget.Base.{
  ℕ, Bool, true, false, ◌&&◌, List, [], ◌∷◌, Option, none, some, ◌==◌, if◌then◌else◌, length,
}
use mapget.Base.Int.{ℤ}
use mapget.Base.Result.{Result, raised, stuck}
use mapget.Base.Text.{Text, text_eq}
use mapget.IdPart.{
  IdPart, Value, integer, text, KeyValuePairs, FeatureTypeInfo, get_type_info, Outcome, returns,
  throws, runs, matches_composition,
}

-- TileFeatureLayer::getPrimaryIdComposition: `none` is an exception.
unfoldable pub primary_of : Option FeatureTypeInfo → Option (List IdPart)
primary_of none = none
primary_of (some info) = elim info.unique_id_compositions [ [] ↦ none | c ∷ cs ↦ some c ]

unfoldable pub get_primary_id_composition : List FeatureTypeInfo → Text → Option (List IdPart)
unfolding primary_of
get_primary_id_composition types type = primary_of (get_type_info types type)

-- The values of one alternative of the variant are equal.
abbrev pub value_eq : Value → Value → Bool
value_eq (integer (ℤ.pos m)) (integer (ℤ.pos n)) = m == n
value_eq (integer (ℤ.negsuc m)) (integer (ℤ.negsuc n)) = m == n
value_eq (text s) (text t) = text_eq s t
value_eq _ _ = false

-- The comparison of two lists of parts in `find`.
unfoldable pub parts_eq : KeyValuePairs → KeyValuePairs → Bool
unfolding text_eq
parts_eq [] [] = true
parts_eq ((k, v) ∷ ps) ((j, w) ∷ qs) = text_eq k j && value_eq v w && parts_eq ps qs
parts_eq _ _ = false

-- What follows the check of an id, which raises unless the answer is true.
unfoldable pub accept {ℓ} : {A : Type ℓ} → Outcome → Result A → Result A
accept throws r = raised
accept runs r = stuck
accept (returns false) r = raised
accept (returns true) r = r

-- Of the prefix and the primary composition: whether they match, however much of the composition
-- is left.
unfoldable pub prefix_matches : ℕ → KeyValuePairs → List (List IdPart) → Option Bool
prefix_matches fuel prefix [] = some true
prefix_matches fuel prefix (c ∷ cs) = matches_composition fuel c 0 prefix (length prefix) false

-- `some false` is the exception.
unfoldable pub check_prefix : ℕ → List FeatureTypeInfo → KeyValuePairs → Option Bool
unfolding prefix_matches
check_prefix fuel [] prefix = some true
check_prefix fuel (t ∷ ts) prefix =
    let rest = check_prefix fuel ts prefix in
    elim (prefix_matches fuel prefix t.unique_id_compositions) [
      | none ↦ none
      | some matched ↦ if matched then rest else some false
    ]
