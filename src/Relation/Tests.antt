-- ===== src/Relation/Tests.antt =====
-- A relation without validities, beside another one.
use mapget.Base.{ℕ, ◌≡◌, [], ◌∷◌, none, some, refl, get_elem?}
use mapget.Base.Int.{ℤ}
use mapget.Base.Result.{ok}
use mapget.Base.Text.{codes, text_eq}
use mapget.Arena.Concrete.{lists, lists_laws}
use mapget.FeatureId.{Strings}
use mapget.Relation.{
  RelationData, Relations, source_validity, filter_relations, filter_named, relation_name,
  some_unless_empty,
}
use mapget.Relation.Validities.{Asked, source_validity-again}

abbrev strings : Strings
strings = record { emplace = λ t. 1; resolve = λ n. some (codes "next") }

abbrev bare : RelationData
bare = record {
  name = 1;
  target_feature_id = 4;
  source_validity = none;
  target_validity = none;
  source_data = none;
}

abbrev two : Relations (lists ℕ)
two = record { column = bare ∷ bare ∷ []; arrays = (3 ∷ []) ∷ [] }

both_found : filter_relations strings (codes "next") two.column ≡ ok (some (bare ∷ bare ∷ []))
unfolding filter_relations filter_named relation_name some_unless_empty text_eq
both_found = refl

source_validity-again_example :
    (array : ℤ) × (s' : Relations (lists ℕ)) × (source_validity (lists ℕ) 0 two ≡ ok (array, s'))
    × (source_validity (lists ℕ) 0 s' ≡ ok (array, s'))
    × (get_elem? s'.column 1 ≡ some bare)
    × Asked (lists ℕ) (lists_laws ℕ) two 0 bare none array s'
source_validity-again_example =
    source_validity-again (lists ℕ) (lists_laws ℕ) two 0 bare 1 refl (λ e. cc)
