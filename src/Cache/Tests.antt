-- ===== src/Cache/Tests.antt =====
-- Runs of the cache on a concrete store of blobs.
use mapget.Base.{ℕ, ◌≡◌, [], ◌∷◌, Option, some, none, refl, arith, if◌then◌else◌}
use mapget.Base.Text.{Text, codes, text_eq, text_eq_refl}
use mapget.Key.{MapTileKey, equals, features}
use mapget.Wire.{Bytes}
use mapget.Wire.Concrete.{codec, codec_laws, counting_pools}
use mapget.Writer.{WrittenLayer, pool_bytes, offset}
use mapget.Cache.{BlobStore, Cache, get_string_pool, put_tile_layer}
use mapget.Cache.Restart.{StoreLaws, get_string_pool-put_tile_layer}

-- Tiles and string pools, each a function of the key.
abbrev two_maps : BlobStore
two_maps = record {
  Blobs = (MapTileKey → Option Bytes) × (Text → Option Bytes);
  get_tile_layer_blob = λ blobs k. blobs.0 k;
  put_tile_layer_blob = λ blobs k v. (λ j. if equals j k then some v else blobs.0 j, blobs.1);
  get_string_pool_blob = λ blobs n. blobs.1 n;
  put_string_pool_blob = λ blobs n v. (blobs.0, λ m. if text_eq m n then some v else blobs.1 m);
}

two_maps-StoreLaws : StoreLaws two_maps
two_maps-StoreLaws = record {
  string_pool_put = λ blobs node v. rw (text_eq_refl node) refl;
  string_pool_tile = λ blobs key v node. refl;
}

abbrev road_key : MapTileKey
road_key = record { layer = features; map_id = codes "M"; layer_id = codes "Road"; tile_id = 5 }

abbrev road_layer : WrittenLayer ℕ
road_layer = record { node_id = codes "N"; type = features; strings = some 7; bytes = 1 ∷ 2 ∷ [] }

abbrev empty_cache : Cache ℕ two_maps.Blobs
empty_cache = record { string_pools = []; string_pool_offsets = []; blobs = (λ k. none, λ n. none) }

get_string_pool-put_tile_layer_example :
    get_string_pool codec counting_pools two_maps (codes "N") (record {
      string_pools = [];
      string_pool_offsets = [];
      blobs =
          (put_tile_layer codec counting_pools two_maps road_key road_layer empty_cache).0.blobs;
    })
    ≡ some (
      7,
      record {
        string_pools = (codes "N", 7) ∷ [];
        string_pool_offsets = (codes "N", 7) ∷ [];
        blobs =
            (put_tile_layer codec counting_pools two_maps road_key road_layer empty_cache).0.blobs;
      },
    )
unfolding mapget.Writer.pool_bytes mapget.Writer.offset
get_string_pool-put_tile_layer_example =
    get_string_pool-put_tile_layer codec_laws counting_pools two_maps-StoreLaws road_key road_layer
      7 empty_cache refl (omega arith) (omega arith) (omega arith) refl
