-- ===== src/Features/Search/Tests.antt =====
-- Searches by text in a layer of ways.
use mapget.Base.{◌≡◌, ◌≢◌, true, [], ◌∷◌, none, some, refl, arith}
use mapget.Base.Result.{ok}
use mapget.Base.Split.{split_at, attach, Without}
use mapget.Base.Text.{codes, text_eq}
use mapget.IdPart.{validate, validate_as, get_type_info}
use mapget.FeatureId.{FeatureId, type_text, to_string, add_fields, key_value_pairs, object_pairs}
use mapget.Features.{new_id, find}
use mapget.Features.Search.{tokens_of, find_text}
use mapget.Features.Search.Optional.{find_text-optional}
use mapget.Features.Search.Round.{find_text-to_string, Fills}
use mapget.Features.Sample.{
  area, way, side, way_type, road_type, types, dictionary, parts, widen, one_way,
}

abbrev road : FeatureId
road = new_id dictionary true (codes "Road") parts

way_known : get_type_info types (codes "Way") ≡ some way_type
unfolding get_type_info text_eq
way_known = refl

way_tokens : tokens_of (codes "Way.A.1.42") ≡ codes "Way" ∷ codes "A" ∷ codes "1" ∷ codes "42" ∷ []
unfolding tokens_of split_at attach
way_tokens = refl

road_known : get_type_info types (type_text dictionary road) ≡ some road_type
unfolding get_type_info text_eq type_text
road_known = refl

road_named : type_text dictionary road ≢ []
unfolding type_text text_eq
road_named e = cc

road_plain : Without b'.' (type_text dictionary road)
unfolding type_text text_eq
road_plain = (refl, (refl, (refl, (refl, tt))))

road-Fills : Fills (area ∷ way ∷ []) (key_value_pairs dictionary none road)
unfolding key_value_pairs object_pairs add_fields validate validate_as text_eq
road-Fills = ((refl, refl, ((refl, tt), refl), (refl, refl, (omega arith, refl), tt)))

find_text-optional_example :
    find_text widen types dictionary (codes "Way.A.1.42") one_way ≡ ok (none, one_way)
find_text-optional_example =
    find_text-optional widen types dictionary (codes "Way.A.1.42") (codes "Way")
      (codes "A" ∷ codes "1" ∷ codes "42" ∷ []) way_type (area ∷ side ∷ way ∷ []) [] one_way
      way_tokens way_known refl (omega arith)

find_text-to_string_example :
    find_text widen types dictionary (to_string dictionary none road) one_way
    ≡ find widen types dictionary (codes "Road") (key_value_pairs dictionary none road) one_way
find_text-to_string_example =
    find_text-to_string widen types dictionary none road road_type (area ∷ way ∷ []) [] one_way
      road_known refl road_named road_plain road-Fills
