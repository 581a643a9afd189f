-- ===== src/Layer/Tests.antt =====
-- Runs of the layer's stream form. A JSON document is its own text.
use mapget.Base.{◌≡◌, ◌++◌, [], ◌∷◌, Option, some, none, refl, arith, if◌then◌else◌}
use mapget.Base.Int.{pos}
use mapget.Base.Text.{Text, codes, text_eq}
use mapget.Key.{features}
use mapget.Wire.Concrete.{codec, codec_laws}
use mapget.Layer.{LayerInfo, JsonLibrary, TileLayer, write, read}
use mapget.Layer.RoundTrip.{Fits, read-write}

abbrev text_json : JsonLibrary
text_json = record { Json = Text; dump = λ j. j; parse = λ t. some t }

abbrev road_info : LayerInfo
road_info = record {
  layer_id = codes "Road";
  type = features;
  version = record { major = 1; minor = 0; patch = 2 };
}

abbrev road_tile : TileLayer Text
road_tile = record {
  tile_id = record { value = 0x700030002 };
  node_id = codes "n";
  map_id = codes "M";
  layer_info = record road_info { version = record { major = 0; minor = 0; patch = 0 } };
  error = some (codes "late");
  timestamp = pos 1234567890;
  ttl = some 500;
  map_version = record { major = 1; minor = 0; patch = 0 };
  info = codes "{}";
  legal_info = none;
}

road_tile-Fits : Fits text_json road_tile
road_tile-Fits = record {
  map_id = omega arith;
  layer_id = omega arith;
  version = record { major = omega arith; minor = omega arith; patch = omega arith };
  tile_id = omega arith;
  node_id = omega arith;
  timestamp = omega arith;
  ttl = omega arith;
  info = omega arith;
  error = omega arith;
  legal_info = tt;
}

abbrev resolve_road : Text → Text → Option LayerInfo
resolve_road map_id layer_id = if text_eq layer_id (codes "Road") then some road_info else none

road_resolved : resolve_road (codes "M") (codes "Road") ≡ some road_info
unfolding text_eq
road_resolved = refl

read-write_example :
    read codec text_json 1000 resolve_road (write codec text_json 1000 road_tile ++ (9 ∷ []))
    ≡ some (record road_tile { layer_info = road_info; timestamp = pos 1234567000 }, 9 ∷ [])
unfolding mapget.Version.is_compatible mapget.Layer.RoundTrip.truncated
read-write_example =
    read-write codec_laws text_json 999 resolve_road road_tile road_info (9 ∷ []) road_tile-Fits
      refl road_resolved
