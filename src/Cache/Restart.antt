-- ===== src/Cache/Restart.antt =====
-- What survives in the blobs when a cache object goes and another one is made on the same store.
use mapget.Base.{◌^◌, ◌<◌, ◌≡◌, false, [], ◌∷◌, some, refl, arith, length, ap, ◌∙◌, sym, append-nil}
use mapget.Base.Text.{Text, text_eq_refl}
use mapget.Key.{MapTileKey, LayerType, features, heightmap, ortho_image, gltf, source_data}
use mapget.Wire.{Bytes, Bitsery, BitseryLaws, StringPools}
use mapget.Stream.{
  send_message, string_pool, tile_feature_layer, read_message_header, Result, ok, Pools,
}
use mapget.Stream.Frame.{read_message_header-send_message}
use mapget.Writer.{offset, WrittenLayer, pool_bytes, message_type}
use mapget.Writer.Offsets.{layer_messages, write_layer-sends_strings, pool_bytes-parts}
use mapget.Cache.{
  BlobStore, Cache, load_strings, load_blob, insert_pool, insert_loaded, get_string_pool,
  put_message, put_messages, put_tile_layer, emplace_offset,
}

-- A store that keeps string pools apart from tiles and gives back what was put.
pub record StoreLaws (bs : BlobStore) : Type 0 where
  pub string_pool_put :
      (blobs : bs.Blobs) (node : Text) (v : Bytes)
      → bs.get_string_pool_blob (bs.put_string_pool_blob blobs node v) node ≡ some v
  pub string_pool_tile :
      (blobs : bs.Blobs) (key : MapTileKey) (v : Bytes) (node : Text)
      → bs.get_string_pool_blob (bs.put_tile_layer_blob blobs key v) node
        ≡ bs.get_string_pool_blob blobs node

module _ {b : Bitsery} (laws : BitseryLaws b) (sp : StringPools) {bs : BlobStore}
    (store : StoreLaws bs) where
  load_strings-pool_bytes :
      (node : Text) (pool : sp.Pool)
      → length node < 2 ^ 32
      → sp.read (sp.new_pool node) (sp.write pool 0) ≡ some (pool, [])
      → load_strings b sp bs node 1 (pool_bytes b sp false node pool 0) ≡ some pool
  unfolding load_strings
  load_strings-pool_bytes node pool short back = simp (
    pool_bytes-parts b sp false node pool 0,
    laws.get_text-put_text node (sp.write pool 0) short,
    text_eq_refl node,
    back,
  )

  load_blob-pool_bytes :
      (node : Text) (pool : sp.Pool)
      → length node < 2 ^ 32
      → length (pool_bytes b sp false node pool 0) < 2 ^ 32
      → sp.read (sp.new_pool node) (sp.write pool 0) ≡ some (pool, [])
      → load_blob b sp bs node (send_message b (pool_bytes b sp false node pool 0) string_pool)
        ≡ some pool
  unfolding load_blob
  load_blob-pool_bytes node pool short small back =
      let body = pool_bytes b sp false node pool 0 in
      let header = read_message_header-send_message laws body [] 1 small (omega arith) in
      rw
        (
          ap (read_message_header b) (sym (append-nil (send_message b body 1))) ∙ header,
          load_blob,
          append-nil body,
        )
        (load_strings-pool_bytes node pool short back)

  put_messages-layer :
      (key : MapTileKey) (node : Text) (layer : WrittenLayer sp.Pool) (blobs : bs.Blobs)
      → bs.get_string_pool_blob
          (put_messages b sp bs key node (layer_messages b sp false layer) blobs)
          node
        ≡ bs.get_string_pool_blob blobs node
  unfolding put_messages put_message message_type
  put_messages-layer key node layer blobs = by_type layer.type refl
    where
      by_type :
          (t : LayerType)
          → layer.type ≡ t
          → bs.get_string_pool_blob
              (put_messages b sp bs key node (layer_messages b sp false layer) blobs)
              node
            ≡ bs.get_string_pool_blob blobs node
      by_type features e =
          rw (e, layer_messages)
            (store.string_pool_tile blobs key (send_message b layer.bytes 2) node)
      by_type source_data e =
          rw (e, layer_messages)
            (store.string_pool_tile blobs key (send_message b layer.bytes 3) node)
      by_type heightmap e = rw (e, layer_messages) refl
      by_type ortho_image e = rw (e, layer_messages) refl
      by_type gltf e = rw (e, layer_messages) refl

  stored_message :
      (key : MapTileKey) (layer : WrittenLayer sp.Pool) (pool : sp.Pool)
      (c : Cache sp.Pool bs.Blobs)
      → layer.strings ≡ some pool
      → offset c.string_pool_offsets layer.node_id < sp.highest pool
      → bs.get_string_pool_blob (put_tile_layer b sp bs key layer c).0.blobs layer.node_id
        ≡ some (send_message b (pool_bytes b sp false layer.node_id pool 0) string_pool)
  unfolding put_tile_layer put_messages put_message
  stored_message key layer pool c e new =
      let message = send_message b (pool_bytes b sp false layer.node_id pool 0) string_pool in
      ap
        (λ ms.
          bs.get_string_pool_blob (put_messages b sp bs key layer.node_id ms c.blobs) layer.node_id)
        (write_layer-sends_strings b sp false c.string_pool_offsets layer pool e new)
      ∙ put_messages-layer key layer.node_id layer
          (bs.put_string_pool_blob c.blobs layer.node_id message)
      ∙ store.string_pool_put c.blobs layer.node_id message

  -- A string pool that a put of a layer stored is loaded by a new cache object on the same blobs, with
  -- the pool's highest string as its offset. The pool had strings that the cache had not stored, the
  -- message fits the 32-bit length, and simfil reads a pool back that it wrote from the start.
  pub get_string_pool-put_tile_layer :
      (key : MapTileKey) (layer : WrittenLayer sp.Pool) (pool : sp.Pool)
      (c : Cache sp.Pool bs.Blobs)
      → layer.strings ≡ some pool
      → offset c.string_pool_offsets layer.node_id < sp.highest pool
      → length layer.node_id < 2 ^ 32
      → length (pool_bytes b sp false layer.node_id pool 0) < 2 ^ 32
      → sp.read (sp.new_pool layer.node_id) (sp.write pool 0) ≡ some (pool, [])
      → get_string_pool b sp bs layer.node_id (record {
        string_pools = [];
        string_pool_offsets = [];
        blobs = (put_tile_layer b sp bs key layer c).0.blobs;
      })
        ≡ some (
          pool,
          record {
            string_pools = (layer.node_id, pool) ∷ [];
            string_pool_offsets = (layer.node_id, sp.highest pool) ∷ [];
            blobs = (put_tile_layer b sp bs key layer c).0.blobs;
          },
        )
  unfolding mapget.Stream.find_pool get_string_pool insert_loaded insert_pool emplace_offset
  get_string_pool-put_tile_layer key layer pool c e new short small back =
      let message = send_message b (pool_bytes b sp false layer.node_id pool 0) string_pool in
      let stored : bs.get_string_pool_blob (put_tile_layer b sp bs key layer c).0.blobs
            layer.node_id
          ≡ some message =
        stored_message key layer pool c e new in
      rw (stored, load_blob-pool_bytes layer.node_id pool short small back) refl
