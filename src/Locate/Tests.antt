-- ===== src/Locate/Tests.antt =====
-- The document of a response for a road.
use mapget.Base.{◌≡◌, [], ◌∷◌, refl}
use mapget.Base.Int.{pos}
use mapget.Base.Result.{ok, raised}
use mapget.Base.Text.{codes}
use mapget.IdPart.{integer}
use mapget.Key.Tests.{hex, hex-FormatsHex, road, road-IsPlain, json_layer}
use mapget.Locate.{
  LocateResponse, string, number, read_pairs, value_of, read_response, serialize_response,
}
use mapget.Locate.RoundTrip.{read_response-serialize_response}

abbrev response : LocateResponse
response = record {
  request = record {
    map_id = codes "Berlin";
    type_id = codes "Way";
    feature_id = (codes "wayId", integer (pos 42)) ∷ [];
  };
  tile_key = road;
}

-- A key without a value.
odd_pairs : read_pairs (string (codes "a") ∷ number (pos 1) ∷ string (codes "b") ∷ []) ≡ raised
unfolding read_pairs value_of
odd_pairs = refl

read_response-serialize_response_example :
    read_response json_layer (serialize_response hex response)
    ≡ ok (record response { tile_key = record road { layer = json_layer road.map_id } })
read_response-serialize_response_example =
    read_response-serialize_response json_layer response hex-FormatsHex road-IsPlain
