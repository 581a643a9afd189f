-- ===== src/Source.antt =====
-- libs/model: DataSourceInfo of include/mapget/model/info.h and src/info.cpp, as far as the service
-- reads it. Of a layer's info the type is kept.
use mapget.Base.{ℕ, Bool, List, [], ◌∷◌, Option, none, some, if◌then◌else◌}
use mapget.Base.Text.{Text, text_eq}
use mapget.Key.{LayerType}

pub record SourceInfo : Type 0 where
  pub node_id : Text
  pub map_id : Text
  pub layers : List (Text × LayerType)
  pub max_parallel_jobs : ℕ
  pub is_add_on : Bool

-- layers_.find(layerId)
unfoldable pub find_layer : List (Text × LayerType) → Text → Option LayerType
find_layer [] id = none
find_layer ((j, type) ∷ ls) id = if text_eq j id then some type else find_layer ls id
