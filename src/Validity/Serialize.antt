-- ===== src/Validity/Serialize.antt =====
-- libs/model/include/mapget/model/validity.h: Validity::Data::serialize, in both directions.
pub mod RoundTrip
use mapget.Base.{
  ℕ, ◌+◌, ◌^◌, ◌<◌, ◌≡◌, ◌≢◌, List, [], ◌++◌, Option, none, some, ◌==◌, if◌then◌else◌, refl, sym,
  ap, ◌∙◌, arith, append_assoc,
}
use mapget.Point.{Reals, Point, Vec, origin, on_axis}
use mapget.Wire.{Bytes, Bitsery, BitseryLaws}
use mapget.Validity.{
  Direction, GeometryDescriptionType, GeometryOffsetType, GeometryDescription, ValidityData, empty,
  positive, negative, both, no_direction, no_geometry, simple_geometry, offset_point_validity,
  offset_range_validity, invalid_offset_type, geo_pos_offset, buffer_offset, relative_length_offset,
  metric_length_offset, monostate, address, range, point,
}

abbrev pub direction_code : Direction → ℕ
direction_code empty = 0
direction_code positive = 1
direction_code negative = 2
direction_code both = 3
direction_code no_direction = 4

abbrev pub description_code : GeometryDescriptionType → ℕ
description_code no_geometry = 0
description_code simple_geometry = 1
description_code offset_point_validity = 2
description_code offset_range_validity = 3

abbrev pub offset_code : GeometryOffsetType → ℕ
offset_code invalid_offset_type = 0
offset_code geo_pos_offset = 1
offset_code buffer_offset = 2
offset_code relative_length_offset = 3
offset_code metric_length_offset = 4

-- The enumerator of a byte. A byte that has none, which the source would keep, is `none`.
abbrev direction_of : ℕ → Option Direction
direction_of n =
    if n == 0
    then some empty
    else (if n == 1
        then some positive
        else (if n == 2
            then some negative
            else (if n == 3 then some both else (if n == 4 then some no_direction else none))))

abbrev description_of : ℕ → Option GeometryDescriptionType
description_of n =
    if n == 0
    then some no_geometry
    else (if n == 1
        then some simple_geometry
        else (if n == 2
            then some offset_point_validity
            else (if n == 3 then some offset_range_validity else none)))

abbrev offset_of : ℕ → Option GeometryOffsetType
offset_of n =
    if n == 0
    then some invalid_offset_type
    else (if n == 1
        then some geo_pos_offset
        else (if n == 2
            then some buffer_offset
            else (if n == 3
                then some relative_length_offset
                else (if n == 4 then some metric_length_offset else none))))

-- bitsery's doubles, and simfil's addresses: of a geometry, and of a feature id or of nothing.
pub record Values (reals : Reals) : Type 0 where
  pub put_real : reals.Real → Bytes
  pub get_real : Bytes → reals.Real × Bytes
  pub put_geometry : ℕ → Bytes
  pub get_geometry : Bytes → ℕ × Bytes
  pub put_feature : Option ℕ → Bytes
  pub get_feature : Bytes → Option ℕ × Bytes

-- Reading inverts writing, for addresses that are addresses of the layer.
pub record ValuesLaws {reals : Reals} (values : Values reals) : Type 0 where
  pub get_real-put_real :
      (x : reals.Real) (rest : Bytes) → values.get_real (values.put_real x ++ rest) ≡ (x, rest)
  pub get_geometry-put_geometry :
      (a : ℕ) (rest : Bytes)
      → a < 2 ^ 24
      → values.get_geometry (values.put_geometry a ++ rest) ≡ (a, rest)
  pub get_feature-put_feature_none :
      (rest : Bytes) → values.get_feature (values.put_feature none ++ rest) ≡ (none, rest)
  pub get_feature-put_feature :
      (a : ℕ) (rest : Bytes)
      → a < 2 ^ 24
      → values.get_feature (values.put_feature (some a) ++ rest) ≡ (some a, rest)

module _ (b : Bitsery) (reals : Reals) (values : Values reals) where
  -- serializeOffsetPoint
  put_offset_point : GeometryOffsetType → Point reals → Bytes
  put_offset_point invalid_offset_type p = []
  put_offset_point geo_pos_offset p =
      values.put_real p.x ++ (values.put_real p.y ++ values.put_real p.z)
  put_offset_point buffer_offset p = values.put_real p.x
  put_offset_point relative_length_offset p = values.put_real p.x
  put_offset_point metric_length_offset p = values.put_real p.x

  -- Data::get_or_default_construct
  abbrev as_point : GeometryDescription (Point reals) → Point reals
  as_point (point p) = p
  as_point other = origin reals

  abbrev as_range : GeometryDescription (Point reals) → Point reals × Point reals
  as_range (range p q) = (p, q)
  as_range other = (origin reals, origin reals)

  abbrev as_address : GeometryDescription (Point reals) → ℕ
  as_address (address geom) = geom
  as_address other = 0

  put_offsets :
      GeometryDescriptionType → GeometryOffsetType → GeometryDescription (Point reals) → Bytes
  unfolding put_offset_point
  put_offsets offset_range_validity t d =
      put_offset_point t (as_range d).0 ++ put_offset_point t (as_range d).1
  put_offsets offset_point_validity t d = put_offset_point t (as_point d)
  put_offsets other t d = []

  -- What follows the three types.
  put_description : GeometryDescriptionType → ValidityData (Point reals) → Bytes
  unfolding put_offsets
  put_description simple_geometry v = values.put_geometry (as_address v.geom_descr)
  put_description k v =
      b.put2 v.referenced_geom_name
      ++ (put_offsets k v.geom_offset_type v.geom_descr ++ values.put_feature v.feature_address)

  -- serialize, with a serializer.
  unfoldable pub write : ValidityData (Point reals) → Bytes
  unfolding put_description
  write v =
      b.put1 (direction_code v.direction)
      ++ (b.put1 (description_code v.geom_descr_type)
          ++ (b.put1 (offset_code v.geom_offset_type) ++ put_description v.geom_descr_type v))

  get_full_point : Bytes → Point reals × Bytes
  get_full_point s =
      let (x, s1) = values.get_real s in
      let (y, s2) = values.get_real s1 in
      let (z, s3) = values.get_real s2 in (record { x = x; y = y; z = z }, s3)

  get_axis_point : Bytes → Point reals × Bytes
  get_axis_point s = let (x, s1) = values.get_real s in (on_axis reals x, s1)

  -- serializeOffsetPoint into a point that was just constructed.
  get_offset_point : GeometryOffsetType → Bytes → Point reals × Bytes
  unfolding get_full_point get_axis_point
  get_offset_point invalid_offset_type s = (origin reals, s)
  get_offset_point geo_pos_offset s = get_full_point s
  get_offset_point buffer_offset s = get_axis_point s
  get_offset_point relative_length_offset s = get_axis_point s
  get_offset_point metric_length_offset s = get_axis_point s

  get_offsets :
      GeometryDescriptionType
      → GeometryOffsetType
      → Bytes
      → GeometryDescription (Point reals) × Bytes
  unfolding get_offset_point
  get_offsets offset_range_validity t s =
      let (p, s1) = get_offset_point t s in let (q, s2) = get_offset_point t s1 in (range p q, s2)
  get_offsets offset_point_validity t s = let (p, s1) = get_offset_point t s in (point p, s1)
  get_offsets other t s = (monostate, s)

  get_rest :
      Direction
      → GeometryDescriptionType
      → GeometryOffsetType
      → Bytes
      → ValidityData (Point reals) × Bytes
  unfolding get_offsets
  get_rest way k t s =
      let (name, s1) = b.get2 s in
      let (d, s2) = get_offsets k t s1 in
      let (feature, s3) = values.get_feature s2 in
      (
        record {
          direction = way;
          geom_descr_type = k;
          geom_offset_type = t;
          geom_descr = d;
          referenced_geom_name = name;
          feature_address = feature;
        },
        s3,
      )

  get_description :
      Direction
      → GeometryDescriptionType
      → GeometryOffsetType
      → Bytes
      → ValidityData (Point reals) × Bytes
  unfolding get_rest
  get_description way simple_geometry t s =
      let (geom, s1) = values.get_geometry s in
      (
        record {
          direction = way;
          geom_descr_type = simple_geometry;
          geom_offset_type = t;
          geom_descr = address geom;
          referenced_geom_name = 0;
          feature_address = none;
        },
        s1,
      )
  get_description way k t s = get_rest way k t s

  get_typed :
      Option Direction
      → Option GeometryDescriptionType
      → Option GeometryOffsetType
      → Bytes
      → Option (ValidityData (Point reals) × Bytes)
  unfolding get_description
  get_typed (some way) (some k) (some t) s = some (get_description way k t s)
  get_typed (some way) (some k) none s = none
  get_typed (some way) none t s = none
  get_typed none k t s = none

  -- serialize, with a deserializer, into data that were just constructed.
  unfoldable pub read : Bytes → Option (ValidityData (Point reals) × Bytes)
  unfolding get_typed
  read s =
      let (direction, s1) = b.get1 s in
      let (k, s2) = b.get1 s1 in
      let (t, s3) = b.get1 s2 in
      get_typed (direction_of direction) (description_of k) (offset_of t) s3
