-- ===== src/Features/Tests.antt =====
-- Searches by id in a layer of ways.
use mapget.Base.{ℕ, zero, suc, ◌<◌, ◌≡◌, true, [], ◌∷◌, Option, none, some, refl, arith}
use mapget.Base.Int.{pos}
use mapget.Base.Result.{ok}
use mapget.Base.Text.{codes, text_eq}
use mapget.IdPart.{
  valid_feature_id, check_compositions, matches_composition, match_loop, finish, end_loop, validate,
  validate_as, integer, text, KeyValuePairs, get_type_info,
}
use mapget.FeatureId.{type_text, add_fields, key_value_pairs, object_pairs}
use mapget.IdHash.{
  strip_optional_id_parts, find_part, hash_feature_id, hash_parts, hash_value, fnv1a_hash,
  hash_chars, hash_int64, hash_bytes, mix,
}
use mapget.PrimaryId.{primary_of, accept, parts_eq, get_primary_id_composition}
use mapget.Features.{
  FeatureLayer, new_layer, new_feature, new_id, append_with, append_feature, id_matches,
  sort_feature_hash_index, find,
}
use mapget.Features.Built.{Built, empty, with_feature}
use mapget.Features.Find.{find-FirstMatch, FirstMatch}
use mapget.Features.Match.{IsMatch, IsMatch→exact_match}
use mapget.Features.Accept.{new_feature-returns}
use mapget.IdPart.Match.{Matches, done, field}
use mapget.Features.Fresh.{find-new_feature, query}
use mapget.Features.Sample.{road_type, area, way, side, types, dictionary, parts, widen, one_way}

abbrev parts_with_side : KeyValuePairs
parts_with_side =
    (codes "areaId", text (codes "A"))
    ∷ (codes "side", integer (pos 1))
    ∷ (codes "wayId", integer (pos 42))
    ∷ []

abbrev more_parts : KeyValuePairs
more_parts = (codes "areaId", text (codes "A")) ∷ (codes "wayId", integer (pos 43)) ∷ []

abbrev two_ways : FeatureLayer
two_ways = record one_way {
  features = 0 ∷ 1 ∷ [];
  feature_ids =
      new_id dictionary true (codes "Way") parts
      ∷ new_id dictionary true (codes "Way") more_parts
      ∷ [];
  hash_index =
      record { feature = 0; id_hash = 10094034393016739349 }
      ∷ record { feature = 1; id_hash = 860027827329800386 }
      ∷ [];
  roots = 0 ∷ 1 ∷ [];
}

way_primary : get_primary_id_composition types (codes "Way") ≡ some (area ∷ side ∷ way ∷ [])
unfolding get_primary_id_composition primary_of get_type_info text_eq
way_primary = refl

one_way_made : new_feature widen types dictionary 5 (codes "Way") parts new_layer ≡ ok one_way
unfolding new_feature append_with append_feature accept valid_feature_id check_compositions
    matches_composition match_loop finish end_loop get_type_info validate validate_as text_eq
    get_primary_id_composition primary_of strip_optional_id_parts find_part hash_feature_id
    hash_parts hash_value fnv1a_hash hash_chars hash_int64 hash_bytes mix add_fields key_value_pairs
    object_pairs
one_way_made = refl

two_ways_made : new_feature widen types dictionary 5 (codes "Way") more_parts one_way ≡ ok two_ways
unfolding new_feature append_with append_feature accept valid_feature_id check_compositions
    matches_composition match_loop finish end_loop get_type_info validate validate_as text_eq
    get_primary_id_composition primary_of strip_optional_id_parts find_part hash_feature_id
    hash_parts hash_value fnv1a_hash hash_chars hash_int64 hash_bytes mix add_fields key_value_pairs
    object_pairs
two_ways_made = refl

-- The first feature has another way id.
fresh_way :
    (i : ℕ)
    → i < 1
    → ¬ (
        IsMatch dictionary
          (codes "Way")
          (area ∷ side ∷ way ∷ [])
          (query widen types dictionary (codes "Way") more_parts (area ∷ side ∷ way ∷ []) one_way)
          one_way
          i)
unfolding id_matches text_eq parts_eq strip_optional_id_parts find_part key_value_pairs object_pairs
    add_fields type_text
fresh_way zero lt m =
    cc (IsMatch→exact_match dictionary (codes "Way") (area ∷ side ∷ way ∷ []) _ one_way 0 m)
fresh_way (suc i) lt m = absurd (omega arith)

way_spelled : dictionary.resolve (dictionary.emplace (codes "Way")) ≡ some (codes "Way")
unfolding text_eq
way_spelled = refl

one_way-Built : Built widen types dictionary one_way
one_way-Built = with_feature 5 (codes "Way") parts empty way_spelled one_way_made

find-FirstMatch_example :
    (r : Option ℕ) × (find widen types dictionary (codes "Way") parts_with_side one_way
      ≡ ok (r, sort_feature_hash_index one_way))
    × FirstMatch dictionary
        (codes "Way")
        (area ∷ side ∷ way ∷ [])
        (strip_optional_id_parts parts_with_side (area ∷ side ∷ way ∷ []))
        one_way
        r
find-FirstMatch_example =
    find-FirstMatch widen types dictionary (codes "Way") parts_with_side (area ∷ side ∷ way ∷ [])
      one_way-Built way_primary

find-new_feature_example :
    find widen types dictionary
      (codes "Way")
      (key_value_pairs dictionary none (new_id dictionary true (codes "Way") more_parts))
      two_ways
    ≡ ok (some 1, sort_feature_hash_index two_ways)
find-new_feature_example =
    find-new_feature widen types dictionary 5 (codes "Way") more_parts (area ∷ side ∷ way ∷ [])
      one_way-Built way_spelled way_primary two_ways_made fresh_way

road_type_known : get_type_info types (codes "Road") ≡ some road_type
unfolding get_type_info text_eq
road_type_known = refl

road_parts_match : Matches (area ∷ way ∷ []) parts
unfolding validate validate_as
road_parts_match = field refl (field refl done)

new_feature-returns_example :
    new_feature widen types dictionary 1 (codes "Road") parts new_layer
    ≡ ok (append_feature widen types dictionary (codes "Road") parts (area ∷ way ∷ []) new_layer)
new_feature-returns_example =
    new_feature-returns widen types dictionary 0 (codes "Road") (codes "areaId", text (codes "A"))
      ((codes "wayId", integer (pos 42)) ∷ []) new_layer road_type (area ∷ way ∷ []) []
      road_type_known refl ((refl, (refl, tt)), tt) road_parts_match
