-- ===== src/Writer.antt =====
-- libs/model: TileLayerStream::Writer of include/mapget/model/stream.h and src/stream.cpp, with
-- StringPool::write of src/stringpool.cpp.
pub mod Offsets
use mapget.Base.{
  ℕ, ◌+◌, Bool, true, false, List, [], ◌∷◌, ◌++◌, Option, none, some, ltb, if◌then◌else◌,
}
use mapget.Base.Text.{Text, text_eq}
use mapget.Key.{LayerType, features, heightmap, ortho_image, gltf, source_data}
use mapget.Wire.{Bytes, Bitsery, StringPools}
use mapget.Stream.{string_pool, tile_feature_layer, tile_source_data_layer, send_message}

-- StringPoolOffsetMap
abbrev pub Offsets : Type 0
Offsets = List (Text × ℕ)

-- operator[], for reading: a missing entry is 0.
unfoldable pub offset : Offsets → Text → ℕ
offset [] node = 0
offset ((k, n) ∷ os) node = if text_eq k node then n else offset os node

-- operator[], for writing.
pub set_offset : Offsets → Text → ℕ → Offsets
set_offset [] node n = (node, n) ∷ []
set_offset ((k, m) ∷ os) node n =
    let rest = set_offset os node n in if text_eq k node then (k, n) ∷ os else (k, m) ∷ rest

-- A message as onMessage receives it: its bytes and its type.
abbrev pub Message : Type 0
Message = Bytes × ℕ

-- What the writer reads of a tile layer. `strings` is missing where the layer is no model pool or has
-- no strings, and `bytes` is what its write method writes.
pub record WrittenLayer (Pool : Type 0) : Type 0 where
  pub node_id : Text
  pub type : LayerType
  pub strings : Option Pool
  pub bytes : Bytes

-- The type of the message for a layer type: `none` is the exception.
unfoldable pub message_type : LayerType → Option ℕ
message_type features = some tile_feature_layer
message_type source_data = some tile_source_data_layer
message_type heightmap = none
message_type ortho_image = none
message_type gltf = none

module _ (b : Bitsery) (sp : StringPools) (differential : Bool) where
  -- StringPool::write, of the pool of a node.
  unfoldable pub pool_bytes : Text → sp.Pool → ℕ → Bytes
  pool_bytes node pool from = b.put_text node ++ sp.write pool from

  -- The update of the string pool, where the client does not know its highest string.
  send_strings : Offsets → Text → sp.Pool → Offsets × List Message
  send_strings os node pool =
      let known = offset os node in
      let from = if differential then known + 1 else 0 in
      let os' = set_offset os node known in
      if ltb known (sp.highest pool)
      then (
        set_offset os node (sp.highest pool),
        (send_message b (pool_bytes node pool from) string_pool, string_pool) ∷ [],
      )
      else (os', [])

  update_strings : Offsets → WrittenLayer sp.Pool → Offsets × List Message
  update_strings os layer = elim layer.strings [
    | none ↦ (os, [])
    | some pool ↦ send_strings os layer.node_id pool
  ]

  -- Writer::write: the offsets, the messages in their order, and whether it returned.
  pub write_layer : Offsets → WrittenLayer sp.Pool → Offsets × List Message × Bool
  write_layer os layer =
      let (os', strings) = update_strings os layer in
      elim (message_type layer.type) [
        | none ↦ (os', strings, false)
        | some t ↦ (os', strings ++ ((send_message b layer.bytes t, t) ∷ []), true)
      ]
