-- ===== src/Layer/RoundTrip.antt =====
-- A tile layer read back from what it wrote.
use mapget.Base.{
  ℕ, zero, suc, ◌-◌, ◌*◌, ◌/◌, ◌%◌, ◌≤◌, refl, ap, ◌∙◌, ◌^◌, ◌<◌, ◌≡◌, ◌++◌, Option, none, some,
  arith, length, append_assoc, if◌then◌else◌,
}
use mapget.Base.Int.{ℤ, pos, negsuc}
use native.Mathlib.Nat.{div-mul-le_self, div-add-mod'}
use mapget.Base.Text.{Text}
use mapget.Version.{is_compatible}
use mapget.Wire.{Bytes, Bitsery, BitseryLaws}
use mapget.Stream.Frame.{IsVersion, get_version-put_version}
use mapget.Layer.{
  LayerInfo, JsonLibrary, TileLayer, put_optional, get_optional, write, read_end, read_rest,
  read_resolved, read, to_bits, of_bits, negated, to_microseconds, of_microseconds,
}

abbrev pub FitsText : Text → Type 0
FitsText t = length t < 2 ^ 32

abbrev pub FitsOption : {A : Type 0} → (A → Type 0) → Option A → Type 0
FitsOption P none = Unit
FitsOption P (some a) = P a

-- The value fits an int64_t.
abbrev pub FitsInt64 : ℤ → Type 0
FitsInt64 (pos n) = n < 2 ^ 63
FitsInt64 (negsuc n) = n < 2 ^ 63

-- The whole microseconds of a timestamp, in ticks.
unfoldable pub truncated : ℕ → ℤ → ℤ
unfolding negated
truncated ticks (pos n) = pos (n - n % ticks)
truncated ticks (negsuc n) = negated (suc n - suc n % ticks)

div_le : (n k : ℕ) → n / suc k ≤ n
div_le n k = omega (arith, div-mul-le_self n (suc k))

of_bits-to_bits : (t : ℤ) → FitsInt64 t → of_bits (to_bits t) ≡ t
unfolding of_bits to_bits
of_bits-to_bits (pos n) h = ground arith
of_bits-to_bits (negsuc n) h = ground arith

to_bits-bound : (t : ℤ) → to_bits t < 2 ^ 64
unfolding to_bits
to_bits-bound (pos n) = omega arith
to_bits-bound (negsuc n) = omega arith

negated-FitsInt64 : (n m : ℕ) → m ≤ suc n → n < 2 ^ 63 → FitsInt64 (negated m)
unfolding negated
negated-FitsInt64 n zero le h = omega arith
negated-FitsInt64 n (suc m) le h = omega arith

to_microseconds-FitsInt64 : (k : ℕ) (t : ℤ) → FitsInt64 t → FitsInt64 (to_microseconds (suc k) t)
unfolding to_microseconds negated
to_microseconds-FitsInt64 k (pos n) h = omega (arith, div_le n k)
to_microseconds-FitsInt64 k (negsuc n) h = negated-FitsInt64 n (suc n / suc k) (div_le (suc n) k) h

of_microseconds-negated : (k m : ℕ) → of_microseconds (suc k) (negated m) ≡ negated (m * suc k)
unfolding of_microseconds negated
of_microseconds-negated k zero = let nothing : 0 * suc k ≡ 0 = omega arith in rw nothing refl
of_microseconds-negated k (suc m) = refl

microseconds-truncated :
    (k : ℕ) (t : ℤ) → of_microseconds (suc k) (to_microseconds (suc k) t) ≡ truncated (suc k) t
unfolding to_microseconds of_microseconds truncated
microseconds-truncated k (pos n) = ap pos (omega (arith, div-add-mod' n (suc k)))
microseconds-truncated k (negsuc n) =
    of_microseconds-negated k (suc n / suc k)
    ∙ ap negated (omega (arith, div-add-mod' (suc n) (suc k)))

timestamp_lem :
    (k : ℕ) (t : ℤ)
    → FitsInt64 t
    → of_microseconds (suc k) (of_bits (to_bits (to_microseconds (suc k) t))) ≡ truncated (suc k) t
timestamp_lem k t h =
    ap (of_microseconds (suc k)) (of_bits-to_bits _ (to_microseconds-FitsInt64 k t h))
    ∙ microseconds-truncated k t

-- A layer whose texts and numbers fit the fields of the stream.
pub record Fits (json : JsonLibrary) (l : TileLayer json.Json) : Type 0 where
  pub map_id : FitsText l.map_id
  pub layer_id : FitsText l.layer_info.layer_id
  pub version : IsVersion l.map_version
  pub tile_id : l.tile_id.value < 2 ^ 64
  pub node_id : FitsText l.node_id
  pub timestamp : FitsInt64 l.timestamp
  pub ttl : FitsOption (λ n. n < 2 ^ 64) l.ttl
  pub info : FitsText (json.dump l.info)
  pub error : FitsOption FitsText l.error
  pub legal_info : FitsOption FitsText l.legal_info

module _ {b : Bitsery} (laws : BitseryLaws b) where
  get_optional-put_optional :
      {A : Type 0} (P : A → Type 0) (put : A → Bytes) (get : Bytes → A × Bytes)
      → ((a : A) (rest : Bytes) → P a → get (put a ++ rest) ≡ (a, rest))
      → (o : Option A) (rest : Bytes) → FitsOption P o
      → get_optional b get (put_optional b put o ++ rest) ≡ (o, rest)
  unfolding get_optional put_optional
  get_optional-put_optional P put get inverts none rest h =
      simp (laws.get1-put1 0 rest (omega arith))
  get_optional-put_optional P put get inverts (some a) rest h =
      simp (append_assoc, laws.get1-put1 1 (put a ++ rest) (omega arith), inverts a rest h)

  module _ (json : JsonLibrary) (k : ℕ) where
    -- Reading what a layer wrote, with a resolver that knows its map and layer, gives the layer with
    -- the resolved info back and stops behind it, where the layer's version is compatible with the
    -- resolved one, and throws where it is not. Of the timestamp, in ticks of which k + 1 make a
    -- microsecond, what is finer than a microsecond is cut off towards zero. The layer's texts are shorter than 2 ^ 32 bytes, its
    -- numbers fit their fields, and its JSON document is parsed back from its dump.
    pub read-write :
        (resolve : Text → Text → Option LayerInfo) (l : TileLayer json.Json)
        (layer_info : LayerInfo) (rest : Bytes)
        → Fits json l
        → json.parse (json.dump l.info) ≡ some l.info
        → resolve l.map_id l.layer_info.layer_id ≡ some layer_info
        → read b json (suc k) resolve (write b json (suc k) l ++ rest) ≡ (
            if is_compatible l.map_version layer_info.version
            then some (
              record l { layer_info = layer_info; timestamp = truncated (suc k) l.timestamp },
              rest,
            )
            else none)
    unfolding read write read_resolved read_rest read_end
    read-write resolve l layer_info rest f parsed resolved = simp (
      append_assoc,
      laws.get_text-put_text l.map_id _ f.map_id,
      laws.get_text-put_text l.layer_info.layer_id _ f.layer_id,
      resolved,
      get_version-put_version laws l.map_version _ f.version,
      laws.get8-put8 l.tile_id.value _ f.tile_id,
      laws.get_text-put_text l.node_id _ f.node_id,
      laws.get8-put8 _ _ (to_bits-bound (to_microseconds (suc k) l.timestamp)),
      timestamp_lem k l.timestamp f.timestamp,
      get_optional-put_optional (λ n. n < 2 ^ 64) b.put8 b.get8 laws.get8-put8 l.ttl _ f.ttl,
      laws.get_text-put_text (json.dump l.info) _ f.info,
      parsed,
      get_optional-put_optional FitsText b.put_text b.get_text laws.get_text-put_text l.error _
          f.error,
      get_optional-put_optional FitsText b.put_text b.get_text laws.get_text-put_text l.legal_info _
          f.legal_info,
    )
