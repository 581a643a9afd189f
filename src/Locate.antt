-- ===== src/Locate.antt =====
-- libs/service: LocateRequest and LocateResponse of include/mapget/service/locate.h and src/locate.cpp,
-- and Service::locate of src/service.cpp. The numbers of a JSON document are integers.
pub mod RoundTrip
pub mod Tests
use mapget.Base.{ℕ, Bool, not, ◌&&◌, List, [], ◌∷◌, ◌++◌, Option, none, some, if◌then◌else◌}
use mapget.Base.Int.{ℤ}
use mapget.Base.Result.{Result, ok, raised, of_option, ◌>>=◌}
use mapget.Base.Text.{Text, text_eq}
use mapget.Key.{LayerType, features, MapTileKey, to_string, parse}
use mapget.IdPart.{Value, integer, text, KeyValuePairs}
use mapget.Source.{SourceInfo}

pub record LocateRequest : Type 0 where
  pub map_id : Text
  pub type_id : Text
  pub feature_id : KeyValuePairs

pub record LocateResponse : Type 0 where
  pub request : LocateRequest
  pub tile_key : MapTileKey

-- An element of a JSON array.
pub data Item : Type 0 where
  number : ℤ → Item
  string : Text → Item
  other_item : Item

-- The members of the JSON object that are read, where they are there.
pub record LocateJson : Type 0 where
  pub map_id : Option Text
  pub type_id : Option Text
  pub feature_id : Option (List Item)
  pub tile_id : Option Text

abbrev text_or_empty : Option Text → Text
text_or_empty none = []
text_or_empty (some t) = t

-- value.is_number(), and get of an int64_t or of a text.
value_of : Item → Result Value
value_of (number n) = ok (integer n)
value_of (string t) = ok (text t)
value_of other_item = raised

-- The loop over the parts of the feature id; a key without a value is out of range.
read_pairs : List Item → Result KeyValuePairs
unfolding value_of
read_pairs [] = ok []
read_pairs (string key ∷ value ∷ items) =
    value_of value >>= λ v. read_pairs items >>= λ pairs. ok ((key, v) ∷ pairs)
read_pairs (string key ∷ []) = raised
read_pairs (number n ∷ items) = raised
read_pairs (other_item ∷ items) = raised

read_feature_id : Option (List Item) → Result KeyValuePairs
unfolding read_pairs
read_feature_id none = ok []
read_feature_id (some items) = read_pairs items

-- LocateRequest(json)
pub read_request : LocateJson → Result LocateRequest
unfolding read_feature_id
read_request j = read_feature_id j.feature_id >>= λ pairs. ok (record {
  map_id = text_or_empty j.map_id;
  type_id = text_or_empty j.type_id;
  feature_id = pairs;
})

item_of : Value → Item
item_of (integer n) = number n
item_of (text t) = string t

items_of : KeyValuePairs → List Item
unfolding item_of
items_of [] = []
items_of ((key, value) ∷ pairs) = string key ∷ (item_of value ∷ items_of pairs)

-- LocateRequest::serialize
pub serialize_request : LocateRequest → LocateJson
unfolding items_of
serialize_request r = record {
  map_id = some r.map_id;
  type_id = some r.type_id;
  feature_id = some (items_of r.feature_id);
  tile_id = none;
}

abbrev default_key : MapTileKey
default_key = record { layer = features; map_id = []; layer_id = []; tile_id = 0 }

-- LocateResponse(LocateRequest)
pub new_response : LocateRequest → LocateResponse
new_response r = record { request = r; tile_key = record default_key { map_id = r.map_id } }

read_key : (Text → LayerType) → Option Text → Result MapTileKey
read_key json_layer none = ok default_key
read_key json_layer (some t) = of_option (parse json_layer t)

-- LocateResponse(json)
pub read_response : (Text → LayerType) → LocateJson → Result LocateResponse
unfolding read_request read_key
read_response json_layer j = read_request j >>= λ r.
    read_key json_layer j.tile_id >>= λ k. ok (record { request = r; tile_key = k })

-- LocateResponse::serialize
pub serialize_response : (ℕ → Text) → LocateResponse → LocateJson
unfolding serialize_request
serialize_response hex r = record (serialize_request r.request) {
  tile_id = some (to_string hex r.tile_key);
}

-- LocateRequest::getIntIdPart and getStrIdPart, for the id of the request.
pub get_int_id_part : Text → KeyValuePairs → Option ℤ
get_int_id_part part [] = none
get_int_id_part part ((key, integer n) ∷ pairs) =
    let rest = get_int_id_part part pairs in if text_eq key part then some n else rest
get_int_id_part part ((key, text t) ∷ pairs) = get_int_id_part part pairs

pub get_str_id_part : Text → KeyValuePairs → Option Text
get_str_id_part part [] = none
get_str_id_part part ((key, integer n) ∷ pairs) = get_str_id_part part pairs
get_str_id_part part ((key, text t) ∷ pairs) =
    let rest = get_str_id_part part pairs in if text_eq key part then some t else rest

-- Service::locate, for the locate method of each data source.
pub locate :
    (ℕ → LocateRequest → List LocateResponse)
    → List (ℕ × SourceInfo)
    → LocateRequest
    → List LocateResponse
locate ask [] r = []
locate ask ((ds, info) ∷ sources) r =
    let rest = locate ask sources r in
    if text_eq info.map_id r.map_id && not info.is_add_on then ask ds r ++ rest else rest
