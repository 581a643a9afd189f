-- ===== src/Key.antt =====
-- libs/model: MapTileKey of include/mapget/model/layer.h and src/layer.cpp, and enum LayerType.
pub mod Hex
pub mod RoundTrip
pub mod Order
pub mod Tests
use Prim.Native.Nat.{Ordering, compare}
use mapget.Base.{
  ℕ, zero, suc, ◌+◌, ◌*◌, ◌-◌, ◌^◌, ◌≡◌, Bool, true, false, ◌&&◌, ◌||◌, List, [], ◌∷◌, ◌++◌, Option,
  none, some, ltb, leb, ◌==◌, if◌then◌else◌,
}
use mapget.Base.Split.{split_at}
use mapget.Base.Text.{Text, codes, text_eq, text_compare}

pub data LayerType : Type 0 where
  features heightmap ortho_image gltf source_data : LayerType

-- The table of NLOHMANN_JSON_SERIALIZE_ENUM, and the enumerators' values.
unfoldable pub layer_name : LayerType → Text
layer_name features = codes "Features"
layer_name heightmap = codes "Heightmap"
layer_name ortho_image = codes "OrthoImage"
layer_name gltf = codes "GLTF"
layer_name source_data = codes "SourceData"

abbrev layer_rank : LayerType → ℕ
layer_rank features = 0
layer_rank heightmap = 1
layer_rank ortho_image = 2
layer_rank gltf = 3
layer_rank source_data = 4

pub record MapTileKey : Type 0 where
  pub layer : LayerType
  pub map_id : Text
  pub layer_id : Text
  pub tile_id : ℕ

-- The four components joined by colons. `hex` is fmt's rendering of a uint64_t by {:0x}.
pub to_string : (ℕ → Text) → MapTileKey → Text
to_string hex k =
    layer_name k.layer ++ (b':' ∷ (k.map_id ++ (b':' ∷ (k.layer_id ++ (b':' ∷ hex k.tile_id)))))

-- The digits that std::from_chars accepts in base 16.
abbrev pub hex_digit : ℕ → Option ℕ
hex_digit c =
    if leb b'0' c && leb c b'9'
    then some (c - b'0')
    else (if leb b'a' c && leb c b'f'
        then some (c - b'a' + 10)
        else (if leb b'A' c && leb c b'F' then some (c - b'A' + 10) else none))

-- The value of the longest prefix of digits, and how many digits it has.
hex_prefix : ℕ → ℕ → Text → ℕ × ℕ
hex_prefix value count [] = (value, count)
hex_prefix value count (c ∷ cs) = elim (hex_digit c) [
  | none ↦ (value, count)
  | some d ↦ hex_prefix (value * 16 + d) (count + 1) cs
]

-- std::from_chars into a tile id: without a digit, or past 64 bits, `old` stays.
pub from_chars_hex : ℕ → Text → ℕ
unfolding hex_prefix
from_chars_hex old cs =
    let (value, count) = hex_prefix 0 0 cs in
    if count == 0 || leb (2 ^ 64) value then old else value

-- MapTileKey(std::string): `none` is the exception. `json_layer` is nlohmann's reading of a JSON
-- string as a LayerType. The members have their defaults before the assignments.
parse_parts : (Text → LayerType) → List Text → Option MapTileKey
unfolding from_chars_hex
parse_parts json_layer (p0 ∷ p1 ∷ p2 ∷ p3 ∷ rest) =
    some
      (record { layer = json_layer p1; map_id = p1; layer_id = p2; tile_id = from_chars_hex 0 p3 })
parse_parts json_layer _ = none

pub parse : (Text → LayerType) → Text → Option MapTileKey
parse json_layer s = parse_parts json_layer (split_at b':' s)

-- std::tie of layer, map, layer id and tile id, compared in this order.
abbrev pub then_compare : Ordering → Ordering → Ordering
then_compare Ordering.eq o = o
then_compare Ordering.lt o = Ordering.lt
then_compare Ordering.gt o = Ordering.gt

pub key_compare : MapTileKey → MapTileKey → Ordering
key_compare a b = then_compare (compare (layer_rank a.layer) (layer_rank b.layer)) (
    then_compare (text_compare a.map_id b.map_id)
      (then_compare (text_compare a.layer_id b.layer_id) (compare a.tile_id b.tile_id)))

pub less : MapTileKey → MapTileKey → Bool
unfolding key_compare
less a b = elim (key_compare a b) [ Ordering.lt ↦ true | _ ↦ false ]

unfoldable pub equals : MapTileKey → MapTileKey → Bool
equals a b =
    layer_rank a.layer == layer_rank b.layer
    && (text_eq a.map_id b.map_id && (text_eq a.layer_id b.layer_id && a.tile_id == b.tile_id))
