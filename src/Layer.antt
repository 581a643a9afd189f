-- ===== src/Layer.antt =====
-- libs/model: TileLayer of include/mapget/model/layer.h and src/layer.cpp, as a stream holds it.
-- The time to live, a signed 64-bit number, stands as its bit pattern.
pub mod RoundTrip
pub mod Tests
use mapget.Base.{
  ℕ, zero, suc, ◌-◌, ◌*◌, ◌/◌, ◌%◌, ◌^◌, ltb, Bool, true, false, ◌++◌, [], Option, none, some, ◌==◌,
  if◌then◌else◌,
}
use mapget.Base.Int.{ℤ, pos, negsuc}
use mapget.Base.Text.{Text}
use mapget.Key.{LayerType, MapTileKey}
use mapget.Tile.{TileId}
use mapget.Version.{Version, is_compatible}
use mapget.Wire.{Bytes, Bitsery}
use mapget.Stream.{put_version, get_version}

-- The fields of LayerInfo that tile layers read.
pub record LayerInfo : Type 0 where
  pub layer_id : Text
  pub type : LayerType
  pub version : Version

-- nlohmann::json documents with dump and parse; `none` is an exception.
pub record JsonLibrary : Type 1 where
  pub Json : Type 0
  pub dump : Json → Text
  pub parse : Text → Option Json

-- The timestamp counts the ticks of std::chrono::system_clock since its epoch.
pub record TileLayer (Json : Type 0) : Type 0 where
  pub tile_id : TileId
  pub node_id : Text
  pub map_id : Text
  pub layer_info : LayerInfo
  pub error : Option Text
  pub timestamp : ℤ
  pub ttl : Option ℕ
  pub map_version : Version
  pub info : Json
  pub legal_info : Option Text

-- MapTileKey(TileLayer), which is TileLayer::id.
pub id : {Json : Type 0} → TileLayer Json → MapTileKey
id l = record {
  layer = l.layer_info.type;
  map_id = l.map_id;
  layer_id = l.layer_info.layer_id;
  tile_id = l.tile_id.value;
}

-- An int64_t as its bit pattern, and back.
pub to_bits : ℤ → ℕ
to_bits (pos n) = n % 2 ^ 64
to_bits (negsuc n) = 2 ^ 64 - 1 - n % 2 ^ 64

pub of_bits : ℕ → ℤ
of_bits n = if ltb n (2 ^ 63) then pos n else negsuc (2 ^ 64 - 1 - n)

-- -n.
pub negated : ℕ → ℤ
negated zero = pos 0
negated (suc n) = negsuc n

-- duration_cast<microseconds>, for a clock with so many ticks in a microsecond: what is finer is cut
-- off towards zero. And the ticks of a number of microseconds; one that does not fit the ticks is
-- left as it is, as C++ leaves it open.
pub to_microseconds : ℕ → ℤ → ℤ
unfolding negated
to_microseconds ticks (pos n) = pos (n / ticks)
to_microseconds ticks (negsuc n) = negated (suc n / ticks)

pub of_microseconds : ℕ → ℤ → ℤ
unfolding negated
of_microseconds ticks (pos n) = pos (n * ticks)
of_microseconds ticks (negsuc n) = negated (suc n * ticks)

module _ (b : Bitsery) where
  -- A flag, and the value where there is one.
  pub put_optional : {A : Type 0} → (A → Bytes) → Option A → Bytes
  put_optional put none = b.put1 0
  put_optional put (some a) = b.put1 1 ++ put a

  pub get_optional : {A : Type 0} → (Bytes → A × Bytes) → Bytes → Option A × Bytes
  get_optional get s =
      let (flag, s1) = b.get1 s in
      let (a, s2) = get s1 in if flag == 0 then (none, s1) else (some a, s2)

  -- `ticks` is how many ticks of the system clock make a microsecond.
  module _ (json : JsonLibrary) (ticks : ℕ) where
    -- TileLayer::write
    pub write : TileLayer json.Json → Bytes
    write l =
        b.put_text l.map_id
        ++ (b.put_text l.layer_info.layer_id
            ++ (put_version b l.map_version
                ++ (b.put8 l.tile_id.value
                    ++ (b.put_text l.node_id
                        ++ (b.put8 (to_bits (to_microseconds ticks l.timestamp))
                            ++ (put_optional b.put8 l.ttl
                                ++ (b.put_text (json.dump l.info)
                                    ++ (put_optional b.put_text l.error
                                        ++ put_optional b.put_text l.legal_info))))))))

    -- What follows the JSON document.
    read_end :
        Option json.Json
        → (json.Json → Option Text → Option Text → TileLayer json.Json)
        → Bytes
        → Option (TileLayer json.Json × Bytes)
    read_end none make s = none
    read_end (some info) make s =
        let (error, s1) = get_optional b.get_text s in
        let (legal_info, s2) = get_optional b.get_text s1 in some (make info error legal_info, s2)

    -- What follows the version.
    read_rest : Text → LayerInfo → Version → Bytes → Option (TileLayer json.Json × Bytes)
    read_rest map_id layer_info version s =
        let (tile_id, s1) = b.get8 s in
        let (node_id, s2) = b.get_text s1 in
        let (timestamp, s3) = b.get8 s2 in
        let (ttl, s4) = get_optional b.get8 s3 in
        let (document, s5) = b.get_text s4 in
        read_end (json.parse document)
          (λ info error legal_info. record {
            tile_id = record { value = tile_id };
            node_id = node_id;
            map_id = map_id;
            layer_info = layer_info;
            error = error;
            timestamp = of_microseconds ticks (of_bits timestamp);
            ttl = ttl;
            map_version = version;
            info = info;
            legal_info = legal_info;
          })
          s5

    read_resolved : Text → Option LayerInfo → Bytes → Option (TileLayer json.Json × Bytes)
    read_resolved map_id none s = none
    read_resolved map_id (some layer_info) s =
        let (version, s1) = get_version b s in
        if is_compatible version layer_info.version
        then read_rest map_id layer_info version s1
        else none

    -- The constructor that reads from a stream, with LayerInfoResolveFun: `none` is an exception.
    pub read : (Text → Text → Option LayerInfo) → Bytes → Option (TileLayer json.Json × Bytes)
    read resolve s =
        let (map_id, s1) = b.get_text s in
        let (layer_name, s2) = b.get_text s1 in read_resolved map_id (resolve map_id layer_name) s2
