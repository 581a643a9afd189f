-- ===== src/IdPart/Tests.antt =====
-- Runs of the feature id checks.
use mapget.Base.{◌≡◌, ◌↔◌, ◌⊎◌, Bool, true, false, List, [], ◌∷◌, some, none, refl}
use mapget.Base.Int.{pos}
use mapget.Base.Text.{codes, text_eq}
use mapget.IdPart.{
  IdPart, u32, u64, str, integer, text, KeyValuePairs, validate, validate_as, parse_i64, decimal,
  matches_composition, FeatureTypeInfo, get_type_info, returns, valid_feature_id, match_loop,
  finish, end_loop,
}
use mapget.IdPart.Validate.{InRange, validate-InRange}
use mapget.IdPart.Match.{Matches, done, field, matches_composition-required}
use mapget.IdPart.Hang.{matches_composition-hangs}
use mapget.IdPart.FeatureId.{valid_feature_id-AnyMatches}

abbrev area : IdPart
area = record { label = codes "areaId"; datatype = str; is_synthetic = false; is_optional = false }

abbrev way : IdPart
way = record { label = codes "wayId"; datatype = u64; is_synthetic = false; is_optional = false }

abbrev side : IdPart
side = record { label = codes "side"; datatype = u32; is_synthetic = false; is_optional = true }

abbrev parts : KeyValuePairs
parts = (codes "areaId", text (codes "Area")) ∷ (codes "wayId", text (codes "42")) ∷ []

abbrev way_type : FeatureTypeInfo
way_type = record { name = codes "Way"; unique_id_compositions = (area ∷ way ∷ []) ∷ [] }

abbrev types : List FeatureTypeInfo
types = way_type ∷ []

found_way : get_type_info types (codes "Way") ≡ some way_type
unfolding get_type_info text_eq
found_way = refl

way_text : validate way (text (codes "42")) ≡ some (integer (pos 42))
unfolding validate validate_as parse_i64 decimal
way_text = refl

parts-Matches : Matches (area ∷ way ∷ []) parts
unfolding validate validate_as parse_i64 decimal
parts-Matches = field refl (field refl done)

-- The optional part is left out in front of the last one.
matches_run : matches_composition 5 (area ∷ side ∷ way ∷ []) 0 parts 2 true ≡ some true
unfolding matches_composition match_loop finish end_loop validate validate_as parse_i64 decimal
    text_eq
matches_run = refl

validate-InRange_example :
    InRange u64 (integer (pos 42)) × (validate way (integer (pos 42)) ≡ some (integer (pos 42)))
validate-InRange_example = validate-InRange way (text (codes "42")) (integer (pos 42)) way_text

matches_composition-required_example :
    (b : Bool) × (matches_composition 1 (area ∷ way ∷ []) 0 parts 2 true ≡ some b)
    × ((b ≡ true) ↔ Matches (area ∷ way ∷ []) parts)
matches_composition-required_example =
    matches_composition-required 0 (area ∷ way ∷ []) 0 parts (refl, (refl, tt))

matches_composition-hangs_example :
    matches_composition 1000 (area ∷ way ∷ side ∷ []) 0 parts 2 true ≡ none
matches_composition-hangs_example =
    matches_composition-hangs 1000 (area ∷ way ∷ []) side [] parts (refl, (refl, tt)) parts-Matches
      refl

valid_feature_id-AnyMatches_example :
    (b : Bool) × (valid_feature_id 1 types (codes "Way") parts true 0 ≡ returns b)
    × ((b ≡ true) ↔ (Matches (area ∷ way ∷ []) parts ⊎ ⊥))
valid_feature_id-AnyMatches_example =
    valid_feature_id-AnyMatches 0 types (codes "Way") parts true 0 way_type found_way
      ((refl, (refl, tt)), tt)
