-- ===== src/Stream.antt =====
-- libs/model: TileLayerStream of include/mapget/model/stream.h and src/stream.cpp, with the part of
-- src/stringpool.cpp that it calls. Messages are version, type, length and value.
pub mod Frame
pub mod Decode
pub mod Round
pub mod Chunks
pub mod Progress
pub mod Tests
use mapget.Base.{
  ℕ, zero, suc, ◌+◌, ◌%◌, ◌^◌, Bool, true, false, List, [], ◌∷◌, ◌++◌, Option, none, some, ltb,
  ◌==◌, if◌then◌else◌, length,
}
use mapget.Base.Text.{Text, text_eq}
pub use mapget.Base.Result.{Result, ok, raised, stuck}
use mapget.Version.{Version, is_compatible}
use mapget.Wire.{Bytes, Bitsery, StringPools}

-- enum class MessageType : uint8_t. A byte that was read may be none of these.
abbrev pub string_pool : ℕ
string_pool = 1

abbrev pub tile_feature_layer : ℕ
tile_feature_layer = 2

abbrev pub tile_source_data_layer : ℕ
tile_source_data_layer = 3

abbrev pub end_of_stream : ℕ
end_of_stream = 128

abbrev pub current_protocol_version : Version
current_protocol_version = record { major = 0; minor = 1; patch = 1 }

-- Version: 6B, Type: 1B, Size: 4B
abbrev pub header_size : ℕ
header_size = 6 + 1 + 4

module _ (b : Bitsery) where
  pub put_version : Version → Bytes
  put_version v = b.put2 v.major ++ (b.put2 v.minor ++ b.put2 v.patch)

  pub get_version : Bytes → Version × Bytes
  get_version s =
      let (major, s1) = b.get2 s in
      let (minor, s2) = b.get2 s1 in
      let (patch, s3) = b.get2 s2 in (record { major = major; minor = minor; patch = patch }, s3)

  -- Writer::sendMessage: the bytes that onMessage receives.
  pub send_message : Bytes → ℕ → Bytes
  send_message bytes msg_type =
      put_version current_protocol_version
      ++ (b.put1 msg_type ++ (b.put4 (length bytes % 2 ^ 32) ++ bytes))

  -- Writer::sendEndOfStream
  pub send_end_of_stream : Bytes
  send_end_of_stream = send_message [] end_of_stream

  -- What readMessageHeader comes to when it does not throw.
  pub read_message_header : Bytes → Result (Option (ℕ × ℕ × Bytes))
  read_message_header s =
      if ltb (length s) header_size
      then ok none
      else (let (version, s1) = get_version s in
          let (msg_type, s2) = b.get1 s1 in
          let (size, s3) = b.get4 s2 in
          if is_compatible version current_protocol_version
          then ok (some (msg_type, size, s3))
          else raised)

pub data Phase : Type 0 where
  read_header read_value : Phase

-- The string pools by node id: std::map of StringPoolCache.
abbrev pub Pools : Type 0 → Type 0
Pools Pool = List (Text × Pool)

module _ {Pool : Type 0} where
  unfoldable pub find_pool : Pools Pool → Text → Option Pool
  find_pool [] node = none
  find_pool ((k, p) ∷ ps) node = if text_eq k node then some p else find_pool ps node

  -- The pool object that the map points to has a new content.
  pub set_pool : Pools Pool → Text → Pool → Pools Pool
  set_pool [] node p = []
  set_pool ((k, q) ∷ ps) node p =
      if text_eq k node then (k, p) ∷ ps else (k, q) ∷ set_pool ps node p

  -- StringPoolCache::getStringPool: the pool of a node, which is put there if it is new.
  pub get_string_pool : (Text → Pool) → Pools Pool → Text → Pool × Pools Pool
  get_string_pool new_pool ps node = elim (find_pool ps node) [
    | none ↦ (new_pool node, (node, new_pool node) ∷ ps)
    | some p ↦ (p, ps)
  ]

-- The two layer constructors that read from a stream; `none` is an exception. They obtain their
-- string pools from the cache, which may grow.
pub record LayerReader (Pool Layer : Type 0) : Type 0 where
  pub read_feature_layer : Pools Pool → Bytes → Option (Layer × Pools Pool × Bytes)
  pub read_source_data_layer : Pools Pool → Bytes → Option (Layer × Pools Pool × Bytes)

-- What reading changes outside the reader: the string pools, and the layers handed to
-- onParsedLayer, the latest first.
pub record World (Pool Layer : Type 0) : Type 0 where
  pub pools : Pools Pool
  pub parsed : List Layer

pub record Reader (Pool Layer : Type 0) : Type 0 where
  pub phase : Phase
  pub next_type : ℕ
  pub next_size : ℕ
  pub buffer : Bytes
  pub world : World Pool Layer

module _ (b : Bitsery) (sp : StringPools) {Layer : Type 0} (lr : LayerReader sp.Pool Layer) where
  deliver :
      World sp.Pool Layer
      → Option (Layer × Pools sp.Pool × Bytes)
      → Option (World sp.Pool Layer × Bytes)
  deliver w none = none
  deliver w (some (layer, pools, rest)) =
      some (record { pools = pools; parsed = layer ∷ w.parsed }, rest)

  read_strings : World sp.Pool Layer → Bytes → Option (World sp.Pool Layer × Bytes)
  read_strings w s =
      let (node, s1) = b.get_text s in
      let (pool, pools) = get_string_pool sp.new_pool w.pools node in
      elim (sp.read pool s1) [
        | none ↦ none
        | some (pool', rest) ↦ some (record w { pools = set_pool pools node pool' }, rest)
      ]

  -- The value of a message of a given type. A type without a branch consumes nothing.
  pub take_value : ℕ → World sp.Pool Layer → Bytes → Option (World sp.Pool Layer × Bytes)
  take_value t w s =
      if t == tile_feature_layer
      then deliver w (lr.read_feature_layer w.pools s)
      else (if t == tile_source_data_layer
          then deliver w (lr.read_source_data_layer w.pools s)
          else (if t == string_pool then read_strings w s else some (w, s)))

  -- The second half of Reader::continueReading, in the phase ReadValue.
  continue_value : Reader sp.Pool Layer → Result (Reader sp.Pool Layer × Bool)
  continue_value r =
      if ltb (length r.buffer) r.next_size
      then ok (r, false)
      else (elim (take_value r.next_type r.world r.buffer) [
        | none ↦ raised
        | some (w, rest) ↦ ok (record r { phase = read_header; buffer = rest; world = w }, true)
      ])

  continue_header :
      Reader sp.Pool Layer → Result (Option (ℕ × ℕ × Bytes)) → Result (Reader sp.Pool Layer × Bool)
  continue_header r raised = raised
  continue_header r stuck = stuck
  continue_header r (ok none) = ok (r, false)
  continue_header r (ok (some (t, size, rest))) =
      continue_value
        (record r { phase = read_value; next_type = t; next_size = size; buffer = rest })

  continue_phase : Phase → Reader sp.Pool Layer → Result (Reader sp.Pool Layer × Bool)
  continue_phase read_header r = continue_header r (read_message_header b r.buffer)
  continue_phase read_value r = continue_value r

  -- Reader::continueReading
  pub continue_reading : Reader sp.Pool Layer → Result (Reader sp.Pool Layer × Bool)
  continue_reading r = continue_phase r.phase r

  -- while (continueReading());
  pub reading_loop : ℕ → Reader sp.Pool Layer → Result (Reader sp.Pool Layer)
  reading_loop zero r = stuck
  reading_loop (suc fuel) r = elim (continue_reading r) [
    | raised ↦ raised
    | stuck ↦ stuck
    | ok (r', more) ↦ (elim more [ true ↦ reading_loop fuel r' | false ↦ ok r' ])
  ]

  -- Reader::read. Every round but the first and the last takes a header of the buffer away.
  pub read_bytes : Reader sp.Pool Layer → Bytes → Result (Reader sp.Pool Layer)
  read_bytes r bytes =
      let buffer = r.buffer ++ bytes in
      reading_loop (length buffer + 2) (record r { buffer = buffer })

  -- Reader::eos
  pub eos : Reader sp.Pool Layer → Bool
  eos r = length r.buffer == 0

  -- One call of read after another.
  pub read_chunks : Reader sp.Pool Layer → List Bytes → Result (Reader sp.Pool Layer)
  read_chunks r [] = ok r
  read_chunks r (c ∷ cs) = elim (read_bytes r c) [
    | ok r' ↦ read_chunks r' cs
    | raised ↦ raised
    | stuck ↦ stuck
  ]
