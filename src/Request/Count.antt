-- ===== src/Request/Count.antt =====
-- Results and the status of a request.
use mapget.Base.{◌+◌, ◌≡◌, arith, length, ◌==◌, if◌then◌else◌}
use mapget.Key.{LayerType, features, heightmap, ortho_image, gltf, source_data}
use mapget.Request.{
  RequestStatus, success, Request, notify_status, set_status, call_back, count_result,
  notify_result,
}

module _ {Layer : Type 0} where
  -- What neither results nor a status change touch.
  pub record SameTask (r s : Request Layer) : Type 0 where
    pub map_id : s.map_id ≡ r.map_id
    pub layer_id : s.layer_id ≡ r.layer_id
    pub tiles : s.tiles ≡ r.tiles
    pub next_tile_index : s.next_tile_index ≡ r.next_tile_index

  pub set_status-SameTask :
      (st : RequestStatus) (r : Request Layer)
      → SameTask r (set_status st r)
        × ((set_status st r).result_count ≡ r.result_count)
        × ((set_status st r).status ≡ st)
  unfolding set_status notify_status
  set_status-SameTask st r = ground arith

  pub notify_status-SameTask :
      (r : Request Layer)
      → SameTask r (notify_status r) × ((notify_status r).result_count ≡ r.result_count)
  unfolding notify_status
  notify_status-SameTask r = ground arith

  pub notify_status-status : (r : Request Layer) → (notify_status r).status ≡ r.status
  unfolding notify_status
  notify_status-status r = ground arith

  -- A result of any layer type counts once and leaves the task as it is.
  pub notify_result-SameTask :
      (type : LayerType) (layer : Layer) (r : Request Layer)
      → SameTask r (notify_result type layer r)
        × ((notify_result type layer r).result_count ≡ r.result_count + 1)
  unfolding notify_result call_back count_result set_status notify_status
  notify_result-SameTask features layer r = ground arith
  notify_result-SameTask source_data layer r = ground arith
  notify_result-SameTask heightmap layer r = ground arith
  notify_result-SameTask ortho_image layer r = ground arith
  notify_result-SameTask gltf layer r = ground arith

  -- The last result makes the request a success, whatever its status was before, and one that is not
  -- the last leaves the status.
  notify_result-status :
      (type : LayerType) (layer : Layer) (r : Request Layer)
      → (notify_result type layer r).status
        ≡ (if r.result_count + 1 == length r.tiles then success else r.status)
  unfolding notify_result call_back count_result set_status notify_status
  notify_result-status features layer r = ground arith
  notify_result-status source_data layer r = ground arith
  notify_result-status heightmap layer r = ground arith
  notify_result-status ortho_image layer r = ground arith
  notify_result-status gltf layer r = ground arith
