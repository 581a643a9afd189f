-- ===== src/Key/RoundTrip.antt =====
-- What survives MapTileKey::toString and the parsing constructor.
use mapget.Base.{ℕ, ◌^◌, ◌<◌, ◌≡◌, ◌≢◌, [], ◌∷◌, ap, sym, ◌∙◌, some, arith, refl}
use mapget.Base.Text.{Text}
use mapget.Key.{
  LayerType, features, heightmap, ortho_image, gltf, source_data, layer_name, MapTileKey, to_string,
  parse, parse_parts, from_chars_hex,
}
use mapget.Base.Split.{split_at, Without, split_at-whole, split_at-piece}
use mapget.Key.Hex.{FormatsHex, hex-Without, from_chars-hex}

layer_name-Without : (l : LayerType) → Without b':' (layer_name l)
unfolding layer_name
layer_name-Without features = ground arith
layer_name-Without heightmap = ground arith
layer_name-Without ortho_image = ground arith
layer_name-Without gltf = ground arith
layer_name-Without source_data = ground arith

-- Keys that their text can carry: no colon in the two ids, and a 64-bit tile id.
pub record IsPlain (k : MapTileKey) : Type 0 where
  pub map_plain : Without b':' k.map_id
  pub layer_plain : Without b':' k.layer_id
  pub tile_fits : k.tile_id < 2 ^ 64

module _ {hex : ℕ → Text} (f : FormatsHex hex) where
  pub split-to_string :
      (k : MapTileKey)
      → IsPlain k
      → split_at b':' (to_string hex k)
        ≡ layer_name k.layer ∷ k.map_id ∷ k.layer_id ∷ hex k.tile_id ∷ []
  unfolding to_string
  split-to_string k p =
      split_at-piece b':' (layer_name k.layer) _ (layer_name-Without k.layer) refl
      ∙ ap (◌∷◌ (layer_name k.layer)) (
          split_at-piece b':' k.map_id _ p.map_plain refl
          ∙ ap (◌∷◌ k.map_id) (
              split_at-piece b':' k.layer_id _ p.layer_plain refl
              ∙ ap (◌∷◌ k.layer_id) (split_at-whole b':' _ (hex-Without f k.tile_id))))

  -- A printed key is parsed back with its map id, layer id and tile id, while the layer type is the
  -- one that the map id, read as a layer name, stands for.
  pub parse-to_string :
      (json_layer : Text → LayerType) (k : MapTileKey)
      → IsPlain k
      → parse json_layer (to_string hex k) ≡ some (record k { layer = json_layer k.map_id })
  unfolding parse parse_parts
  parse-to_string json_layer k p =
      ap (parse_parts json_layer) (split-to_string k p)
      ∙ ap (λ t. some (record k { layer = json_layer k.map_id; tile_id = t }))
          (from_chars-hex f 0 k.tile_id p.tile_fits)

  -- Where a map id that is no layer name reads as Features, as nlohmann documents of a text that its
  -- table lacks, no key of another layer type is parsed back from its own text.
  parse-to_string_ne :
      (json_layer : Text → LayerType) (k : MapTileKey)
      → IsPlain k
      → json_layer k.map_id ≡ features
      → k.layer ≢ features
      → parse json_layer (to_string hex k) ≢ some k
  parse-to_string_ne json_layer k p unknown other e =
      other (cc (parse-to_string json_layer k p, unknown, e))

layer_name-injective : (a b : LayerType) → layer_name a ≡ layer_name b → a ≡ b
unfolding layer_name
layer_name-injective a b h = ground arith

module _ {hex : ℕ → Text} (f : FormatsHex hex) where
  hex-injective : (m n : ℕ) → m < 2 ^ 64 → n < 2 ^ 64 → hex m ≡ hex n → m ≡ n
  hex-injective m n hm hn e =
      sym (from_chars-hex f 0 m hm) ∙ ap (from_chars_hex 0) e ∙ from_chars-hex f 0 n hn

  -- Two plain keys with the same text are the same key, so a cache may use the text for the key.
  to_string-injective :
      (a b : MapTileKey) → IsPlain a → IsPlain b → to_string hex a ≡ to_string hex b → a ≡ b
  to_string-injective a b pa pb e =
      let parts : layer_name a.layer ∷ a.map_id ∷ a.layer_id ∷ hex a.tile_id ∷ []
          ≡ layer_name b.layer ∷ b.map_id ∷ b.layer_id ∷ hex b.tile_id ∷ [] =
        sym (split-to_string f a pa) ∙ ap (split_at b':') e ∙ split-to_string f b pb in
      ground (
        arith,
        layer_name-injective a.layer b.layer,
        hex-injective a.tile_id b.tile_id pa.tile_fits pb.tile_fits,
      )
