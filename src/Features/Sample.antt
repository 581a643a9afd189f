-- ===== src/Features/Sample.antt =====
-- A feature layer with two feature types and one way, for the tests.
use mapget.Base.{ℕ, suc, true, false, List, [], ◌∷◌, if◌then◌else◌, get_elem?}
use mapget.Base.Int.{pos}
use mapget.Base.Text.{Text, codes, text_eq}
use mapget.IdPart.{IdPart, str, i64, integer, text, KeyValuePairs, FeatureTypeInfo}
use mapget.FeatureId.{Strings}
use mapget.Features.{FeatureLayer, new_layer, new_id}

abbrev pub area : IdPart
area = record { label = codes "areaId"; datatype = str; is_synthetic = false; is_optional = false }

abbrev pub way : IdPart
way = record { label = codes "wayId"; datatype = i64; is_synthetic = false; is_optional = false }

abbrev pub side : IdPart
side = record { label = codes "side"; datatype = i64; is_synthetic = false; is_optional = true }

abbrev pub way_type : FeatureTypeInfo
way_type = record { name = codes "Way"; unique_id_compositions = (area ∷ side ∷ way ∷ []) ∷ [] }

abbrev pub road_type : FeatureTypeInfo
road_type = record { name = codes "Road"; unique_id_compositions = (area ∷ way ∷ []) ∷ [] }

abbrev pub types : List FeatureTypeInfo
types = way_type ∷ road_type ∷ []

abbrev pub names : List Text
names = codes "Way" ∷ codes "areaId" ∷ codes "wayId" ∷ codes "side" ∷ codes "Road" ∷ []

abbrev pub position : List Text → Text → ℕ
position [] t = 0
position (n ∷ ns) t = if text_eq n t then 0 else suc (position ns t)

abbrev pub dictionary : Strings
dictionary = record { emplace = position names; resolve = get_elem? names }

abbrev pub parts : KeyValuePairs
parts = (codes "areaId", text (codes "A")) ∷ (codes "wayId", integer (pos 42)) ∷ []

abbrev pub widen : ℕ → ℕ
widen c = c

abbrev pub one_way : FeatureLayer
one_way = record new_layer {
  features = 0 ∷ [];
  feature_ids = new_id dictionary true (codes "Way") parts ∷ [];
  hash_index = record { feature = 0; id_hash = 10094034393016739349 } ∷ [];
  needs_sorting = true;
  roots = 0 ∷ [];
}
