-- ===== src/Locate/RoundTrip.antt =====
-- A request and a response read back from their JSON documents, and where the responses come from.
use mapget.Base.{ℕ, ◌≡◌, [], ◌∷◌, refl}
use mapget.Base.Result.{ok, of_option}
use mapget.Base.Text.{Text}
use mapget.Key.{LayerType}
use mapget.Key.Hex.{FormatsHex}
use mapget.Key.RoundTrip.{IsPlain, parse-to_string}
use mapget.IdPart.{Value, integer, text, KeyValuePairs}
use mapget.Locate.{
  LocateRequest, LocateResponse, value_of, item_of, items_of, read_pairs, read_feature_id,
  read_request, serialize_request, read_key, read_response, serialize_response,
}

value_of-item_of : (v : Value) → value_of (item_of v) ≡ ok v
unfolding value_of item_of
value_of-item_of (integer n) = refl
value_of-item_of (text t) = refl

read_pairs-items_of : (pairs : KeyValuePairs) → read_pairs (items_of pairs) ≡ ok pairs
unfolding read_pairs items_of
read_pairs-items_of [] = refl
read_pairs-items_of ((key, value) ∷ pairs) =
    rw (value_of-item_of value, read_pairs-items_of pairs) refl

read_request-serialize_request : (r : LocateRequest) → read_request (serialize_request r) ≡ ok r
unfolding read_request serialize_request read_feature_id
read_request-serialize_request r = rw (read_pairs-items_of r.feature_id) refl

-- A response whose key has no colon in its ids and a 64-bit tile id is read back from its JSON
-- document, except that the layer type of its key is the one that its map id stands for.
pub read_response-serialize_response :
    {hex : ℕ → Text} (json_layer : Text → LayerType) (r : LocateResponse)
    → FormatsHex hex
    → IsPlain r.tile_key
    → read_response json_layer (serialize_response hex r)
      ≡ ok (record r { tile_key = record r.tile_key { layer = json_layer r.tile_key.map_id } })
unfolding read_response serialize_response read_key read_request serialize_request read_feature_id
read_response-serialize_response json_layer r f plain =
    rw
      (
        read_pairs-items_of r.request.feature_id,
        parse-to_string f json_layer r.tile_key plain,
        of_option,
      )
      refl
