-- ===== src/Request.antt =====
-- libs/service: LayerTilesRequest of include/mapget/service/service.h and src/service.cpp. A callback
-- is a flag that says whether it is set; what it received is recorded, the latest first.
pub mod Count
use mapget.Base.{
  ℕ, suc, ◌+◌, Bool, true, false, ◌&&◌, List, [], ◌∷◌, ◌==◌, if◌then◌else◌, length, not,
}
use mapget.Base.Text.{Text}
use mapget.Key.{LayerType, features, heightmap, ortho_image, gltf, source_data}

pub data RequestStatus : Type 0 where
  open_ success no_data_source unauthorized aborted : RequestStatus

abbrev pub is_open : RequestStatus → Bool
is_open open_ = true
is_open _ = false

-- `Layer` is the type of tile layers.
pub record Request (Layer : Type 0) : Type 0 where
  pub map_id : Text
  pub layer_id : Text
  pub tiles : List ℕ
  pub on_feature_layer : Bool
  pub on_source_data_layer : Bool
  pub on_done : Bool
  pub next_tile_index : ℕ
  pub result_count : ℕ
  pub status : RequestStatus
  pub delivered : List Layer
  pub done_calls : List RequestStatus

-- The constructor, and the callbacks that are set before the request is handed over.
pub new_request : {Layer : Type 0} → Text → Text → List ℕ → Bool → Bool → Bool → Request Layer
new_request map_id layer_id tiles feature source done = record {
  map_id = map_id;
  layer_id = layer_id;
  tiles = tiles;
  on_feature_layer = feature;
  on_source_data_layer = source;
  on_done = done;
  next_tile_index = 0;
  result_count = 0;
  status = elim tiles [ [] ↦ success | t ∷ ts ↦ open_ ];
  delivered = [];
  done_calls = [];
}

module _ {Layer : Type 0} where
  abbrev pub is_done : Request Layer → Bool
  is_done r = not (is_open r.status)

  -- notifyStatus: what waits on the condition variable is not modelled.
  pub notify_status : Request Layer → Request Layer
  notify_status r =
      if is_done r && r.on_done then record r { done_calls = r.status ∷ r.done_calls } else r

  pub set_status : RequestStatus → Request Layer → Request Layer
  set_status s r = notify_status (record r { status = s })

  -- The callback that fits the layer's type is called with the layer.
  call_back : LayerType → Layer → Request Layer → Request Layer
  call_back features layer r =
      if r.on_feature_layer then record r { delivered = layer ∷ r.delivered } else r
  call_back source_data layer r =
      if r.on_source_data_layer then record r { delivered = layer ∷ r.delivered } else r
  call_back heightmap layer r = r
  call_back ortho_image layer r = r
  call_back gltf layer r = r

  count_result : Request Layer → Request Layer
  count_result r =
      let r' = record r { result_count = r.result_count + 1 } in
      if r'.result_count == length r'.tiles then set_status success r' else r'

  -- notifyResult, for the type of the layer's info.
  pub notify_result : LayerType → Layer → Request Layer → Request Layer
  notify_result type layer r = count_result (call_back type layer r)
