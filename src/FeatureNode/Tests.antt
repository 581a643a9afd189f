-- ===== src/FeatureNode/Tests.antt =====
-- A feature with a geometry and source data, whose nodes are numbers.
use mapget.Base.{ℕ, ◌≡◌, ◌<◌, [], ◌∷◌, none, some, refl, arith}
use mapget.FeatureNode.{
  Feature, FeatureContext, feature_at, feature_get, feature_key_at, feature_size, geom,
  update_fields, optional_field, source_data_str,
}
use mapget.FeatureNode.Lookup.{DistinctKeys, LacksKey, feature_get-feature_key_at}

abbrev context : FeatureContext ℕ
context = record {
  feature_text = 1;
  type_text = 2;
  map_text = 3;
  layer_text = 4;
  prefix_fields = (100, 5) ∷ [];
  id_fields = (101, 6) ∷ [];
  properties = 7;
}

abbrev fresh : Feature ℕ
fresh = record {
  feature_data = record {
    id = 8;
    geom = none;
    attr_layers = none;
    attrs = none;
    relations = none;
    source_data = some 9;
  };
  fields = [];
}

abbrev with_geometry : Feature ℕ
with_geometry = record fresh {
  feature_data = record fresh.feature_data { geom = some 10 };
  fields = (29, 1) ∷ (10, 8) ∷ (11, 2) ∷ (12, 3) ∷ (13, 4) ∷ (100, 5) ∷ (101, 6) ∷ (25, 10) ∷ [];
}

geometry_made : geom 10 context 10 fresh ≡ (10, with_geometry)
unfolding geom update_fields optional_field
geometry_made = refl

geometry_distinct : DistinctKeys with_geometry.fields
geometry_distinct = ground arith

geometry_lacks : LacksKey (source_data_str 10) with_geometry.fields
geometry_lacks = ground arith

geometry_size : 8 < feature_size with_geometry
unfolding feature_size
geometry_size = omega arith

feature_get-feature_key_at_example :
    feature_get 10 with_geometry (feature_key_at 10 with_geometry 8) ≡ feature_at with_geometry 8
feature_get-feature_key_at_example =
    feature_get-feature_key_at 10 with_geometry 8 geometry_distinct geometry_lacks geometry_size
