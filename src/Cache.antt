-- ===== src/Cache.antt =====
-- libs/service: Cache of include/mapget/service/cache.h and src/cache.cpp, on top of a store of
-- blobs. A call runs under the mutexes of the cache.
pub mod Restart
pub mod Tests
use mapget.Base.{
  ℕ, Bool, true, false, ◌&&◌, List, [], ◌∷◌, ◌++◌, Option, none, some, ◌==◌, if◌then◌else◌, ◌||◌,
}
use mapget.Base.Text.{Text, text_eq}
use mapget.Key.{MapTileKey}
use mapget.Wire.{Bytes, Bitsery, StringPools}
use mapget.Stream.{
  Pools, find_pool, Result, ok, raised, stuck, read_message_header, string_pool, tile_feature_layer,
  tile_source_data_layer,
}
use mapget.Writer.{Offsets, offset, set_offset, Message, WrittenLayer, write_layer}

-- The four methods that a cache implements.
pub record BlobStore : Type 1 where
  pub Blobs : Type 0
  pub get_tile_layer_blob : Blobs → MapTileKey → Option Bytes
  pub put_tile_layer_blob : Blobs → MapTileKey → Bytes → Blobs
  pub get_string_pool_blob : Blobs → Text → Option Bytes
  pub put_string_pool_blob : Blobs → Text → Bytes → Blobs

pub record Cache (Pool Blobs : Type 0) : Type 0 where
  pub string_pools : Pools Pool
  pub string_pool_offsets : Offsets
  pub blobs : Blobs

-- unordered_map::emplace
pub emplace_offset : Offsets → Text → ℕ → Offsets
emplace_offset [] node n = (node, n) ∷ []
emplace_offset ((k, m) ∷ os) node n =
    let rest = emplace_offset os node n in if text_eq k node then (k, m) ∷ os else (k, m) ∷ rest

module _ (b : Bitsery) (sp : StringPools) (bs : BlobStore) where
  -- Cache::cachedStringPoolOffset: `none` is the exception.
  pub cached_string_pool_offset : Text → Cache sp.Pool bs.Blobs → Option ℕ
  cached_string_pool_offset [] c = none
  cached_string_pool_offset (a ∷ node) c = some (offset c.string_pool_offsets (a ∷ node))

  -- The pool that the stream behind the header holds, where it is the one of the node.
  load_strings : Text → ℕ → Bytes → Option sp.Pool
  load_strings node t s =
      let (stream_node, s1) = b.get_text s in
      if t == string_pool && text_eq stream_node node
      then elim (sp.read (sp.new_pool node) s1) [ none ↦ none | some (pool, rest) ↦ some pool ]
      else none

  -- A blob without a whole header, for which the source reads on with no type, is an error here.
  load_blob : Text → Bytes → Option sp.Pool
  load_blob node blob = elim (read_message_header b blob) [
    | raised ↦ none
    | stuck ↦ none
    | ok header ↦ (elim header [ none ↦ none | some (t, size, s) ↦ load_strings node t s ])
  ]

  insert_pool : Text → sp.Pool → Cache sp.Pool bs.Blobs → Cache sp.Pool bs.Blobs
  insert_pool node pool c = record c { string_pools = (node, pool) ∷ c.string_pools }

  insert_loaded :
      Text → Option sp.Pool → Cache sp.Pool bs.Blobs → Option (sp.Pool × Cache sp.Pool bs.Blobs)
  insert_loaded node none c = none
  insert_loaded node (some pool) c =
      let offsets = emplace_offset c.string_pool_offsets node (sp.highest pool) in
      some (pool, insert_pool node pool (record c { string_pool_offsets = offsets }))

  -- Cache::getStringPool: `none` is an exception.
  pub get_string_pool : Text → Cache sp.Pool bs.Blobs → Option (sp.Pool × Cache sp.Pool bs.Blobs)
  get_string_pool node c = elim (find_pool c.string_pools node) [
    | some pool ↦ some (pool, c)
    | none ↦ (elim (bs.get_string_pool_blob c.blobs node) [
      | none ↦ some (sp.new_pool node, insert_pool node (sp.new_pool node) c)
      | some blob ↦ insert_loaded node (load_blob node blob) c
    ])
  ]

  -- The callback of the writer.
  put_message : MapTileKey → Text → Message → bs.Blobs → bs.Blobs
  put_message key node (bytes, t) blobs =
      if t == tile_feature_layer || t == tile_source_data_layer
      then bs.put_tile_layer_blob blobs key bytes
      else (if t == string_pool then bs.put_string_pool_blob blobs node bytes else blobs)

  put_messages : MapTileKey → Text → List Message → bs.Blobs → bs.Blobs
  put_messages key node [] blobs = blobs
  put_messages key node (m ∷ ms) blobs = put_messages key node ms (put_message key node m blobs)

  -- Cache::putTileLayer, for the key of the layer: the cache, and whether the writer returned.
  pub put_tile_layer :
      MapTileKey → WrittenLayer sp.Pool → Cache sp.Pool bs.Blobs → Cache sp.Pool bs.Blobs × Bool
  put_tile_layer key layer c =
      let (offsets, messages, returned) = write_layer b sp false c.string_pool_offsets layer in
      (
        record c {
          string_pool_offsets = offsets;
          blobs = put_messages key layer.node_id messages c.blobs;
        },
        returned,
      )
