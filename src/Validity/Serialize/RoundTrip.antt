-- ===== src/Validity/Serialize/RoundTrip.antt =====
-- A validity read back from what it wrote.
use mapget.Base.{
  ℕ, ◌^◌, ◌<◌, ◌≡◌, ◌≢◌, ◌++◌, Option, none, some, refl, sym, ap, subst, arith, append_assoc,
}
use mapget.Point.{Reals, Point, on_axis}
use mapget.FeatureId.{Strings}
use mapget.Wire.{Bytes, Bitsery, BitseryLaws}
use mapget.Validity.{
  Direction, GeometryDescriptionType, GeometryOffsetType, GeometryDescription, ValidityData, empty,
  positive, negative, both, no_direction, no_geometry, simple_geometry, offset_point_validity,
  offset_range_validity, invalid_offset_type, geo_pos_offset, buffer_offset, relative_length_offset,
  metric_length_offset, address,
}
use mapget.Validity.Typed.{Typed, TypedAs, Fits, Reached, Reached-Typed}
use mapget.Validity.Serialize.{
  direction_code, description_code, offset_code, direction_of, description_of, offset_of, Values,
  ValuesLaws, put_offset_point, put_offsets, put_description, write, get_full_point, get_axis_point,
  get_offset_point, get_offsets, get_rest, get_description, get_typed, read,
}

direction_of-code : (d : Direction) → direction_of (direction_code d) ≡ some d
direction_of-code empty = refl
direction_of-code positive = refl
direction_of-code negative = refl
direction_of-code both = refl
direction_of-code no_direction = refl

description_of-code : (k : GeometryDescriptionType) → description_of (description_code k) ≡ some k
description_of-code no_geometry = refl
description_of-code simple_geometry = refl
description_of-code offset_point_validity = refl
description_of-code offset_range_validity = refl

offset_of-code : (t : GeometryOffsetType) → offset_of (offset_code t) ≡ some t
offset_of-code invalid_offset_type = refl
offset_of-code geo_pos_offset = refl
offset_of-code buffer_offset = refl
offset_of-code relative_length_offset = refl
offset_of-code metric_length_offset = refl

direction_code-byte : (d : Direction) → direction_code d < 2 ^ 8
direction_code-byte empty = omega arith
direction_code-byte positive = omega arith
direction_code-byte negative = omega arith
direction_code-byte both = omega arith
direction_code-byte no_direction = omega arith

description_code-byte : (k : GeometryDescriptionType) → description_code k < 2 ^ 8
description_code-byte no_geometry = omega arith
description_code-byte simple_geometry = omega arith
description_code-byte offset_point_validity = omega arith
description_code-byte offset_range_validity = omega arith

offset_code-byte : (t : GeometryOffsetType) → offset_code t < 2 ^ 8
offset_code-byte invalid_offset_type = omega arith
offset_code-byte geo_pos_offset = omega arith
offset_code-byte buffer_offset = omega arith
offset_code-byte relative_length_offset = omega arith
offset_code-byte metric_length_offset = omega arith

abbrev FitsFeature : Option ℕ → Type 0
FitsFeature none = Unit
FitsFeature (some id) = id < 2 ^ 24

abbrev FitsAddress : {P : Type 0} → GeometryDescription P → Type 0
FitsAddress (address geom) = geom < 2 ^ 24
FitsAddress other = Unit

-- The addresses have the 24 bits of an address, and the name has the 16 bits of a string id.
pub record FitsFields {P : Type 0} (v : ValidityData P) : Type 0 where
  pub name : v.referenced_geom_name < 2 ^ 16
  pub feature : FitsFeature v.feature_address
  pub geometry : FitsAddress v.geom_descr

-- What the stream has of a validity: beside a simple geometry, no name and no feature.
abbrev kept_as : {P : Type 0} → GeometryDescriptionType → ValidityData P → ValidityData P
kept_as simple_geometry v = record v { referenced_geom_name = 0; feature_address = none }
kept_as other v = v

abbrev pub kept : {P : Type 0} → ValidityData P → ValidityData P
kept v = kept_as v.geom_descr_type v

module _ {b : Bitsery} (laws : BitseryLaws b) {reals : Reals} {values : Values reals}
    (values_laws : ValuesLaws values) where
  get_axis_point-put :
      (p : Point reals) (rest : Bytes)
      → p ≡ on_axis reals p.x
      → get_axis_point b reals values (values.put_real p.x ++ rest) ≡ (p, rest)
  unfolding get_axis_point
  get_axis_point-put p rest e =
      rw (values_laws.get_real-put_real p.x rest) (ap (λ q. (q, rest)) (sym e))

  get_full_point-put :
      (p : Point reals) (rest : Bytes)
      → get_full_point b reals values
          ((values.put_real p.x ++ (values.put_real p.y ++ values.put_real p.z)) ++ rest)
        ≡ (p, rest)
  unfolding get_full_point
  get_full_point-put p rest = simp (append_assoc, values_laws.get_real-put_real)

  get_offset_point-put :
      (t : GeometryOffsetType) (p : Point reals) (rest : Bytes)
      → Fits reals t p
      → get_offset_point b reals values t (put_offset_point b reals values t p ++ rest) ≡ (p, rest)
  unfolding get_offset_point put_offset_point
  get_offset_point-put invalid_offset_type p rest (ne, axis) = absurd (ne refl)
  get_offset_point-put geo_pos_offset p rest (ne, axis) = get_full_point-put p rest
  get_offset_point-put buffer_offset p rest (ne, axis) = get_axis_point-put p rest (axis (λ e. cc))
  get_offset_point-put relative_length_offset p rest (ne, axis) =
      get_axis_point-put p rest (axis (λ e. cc))
  get_offset_point-put metric_length_offset p rest (ne, axis) =
      get_axis_point-put p rest (axis (λ e. cc))

  get_feature-put :
      (o : Option ℕ) (rest : Bytes)
      → FitsFeature o
      → values.get_feature (values.put_feature o ++ rest) ≡ (o, rest)
  get_feature-put none rest h = values_laws.get_feature-put_feature_none rest
  get_feature-put (some id) rest h = values_laws.get_feature-put_feature id rest h

  -- The offsets, where there are none, a point, or a range.
  get_offsets-put :
      (k : GeometryDescriptionType) (t : GeometryOffsetType) (d : GeometryDescription (Point reals))
      (rest : Bytes)
      → k ≢ simple_geometry
      → TypedAs reals k t d
      → get_offsets b reals values k t (put_offsets b reals values k t d ++ rest) ≡ (d, rest)
  unfolding get_offsets put_offsets
  get_offsets-put no_geometry t d rest ne (e, m) = rw m refl
  get_offsets-put simple_geometry t d rest ne h = absurd (ne refl)
  get_offsets-put offset_point_validity t d rest ne (p, e, h) =
      rw (e, get_offset_point-put t p rest h) refl
  get_offsets-put offset_range_validity t d rest ne (p, q, e, h, h') =
      rw
        (
          e,
          append_assoc,
          get_offset_point-put t p (put_offset_point b reals values t q ++ rest) h,
          get_offset_point-put t q rest h',
        )
        refl

  get_rest-put :
      (v : ValidityData (Point reals)) (rest : Bytes)
      → v.geom_descr_type ≢ simple_geometry
      → Typed reals v
      → FitsFields v
      → get_rest b reals values v.direction v.geom_descr_type v.geom_offset_type (
          (b.put2 v.referenced_geom_name
            ++ (put_offsets b reals values v.geom_descr_type v.geom_offset_type v.geom_descr
                ++ values.put_feature v.feature_address))
          ++ rest)
        ≡ (v, rest)
  unfolding get_rest
  get_rest-put v rest ne h fits =
      let offsets = put_offsets b reals values v.geom_descr_type v.geom_offset_type v.geom_descr in
      let feature = values.put_feature v.feature_address in
      rw
        (
          append_assoc (b.put2 v.referenced_geom_name) (offsets ++ feature) rest,
          append_assoc offsets feature rest,
          laws.get2-put2 v.referenced_geom_name (offsets ++ (feature ++ rest)) fits.name,
          get_offsets-put v.geom_descr_type v.geom_offset_type v.geom_descr (feature ++ rest) ne h,
          get_feature-put v.feature_address rest fits.feature,
        )
        refl

  abbrev with_type :
      ValidityData (Point reals) → GeometryDescriptionType → ValidityData (Point reals)
  with_type v k = record v { geom_descr_type = k }

  get_description-put :
      (v : ValidityData (Point reals)) (k : GeometryDescriptionType) (rest : Bytes)
      → Typed reals (with_type v k)
      → FitsFields (with_type v k)
      → get_description b reals values v.direction k v.geom_offset_type
          (put_description b reals values k (with_type v k) ++ rest)
        ≡ (kept (with_type v k), rest)
  unfolding get_description put_description
  get_description-put v no_geometry rest h fits =
      get_rest-put (with_type v no_geometry) rest (λ e. cc) h fits
  get_description-put v offset_point_validity rest h fits =
      get_rest-put (with_type v offset_point_validity) rest (λ e. cc) h fits
  get_description-put v offset_range_validity rest h fits =
      get_rest-put (with_type v offset_range_validity) rest (λ e. cc) h fits
  get_description-put v simple_geometry rest (e, geom, d) fits =
      let inside : geom < 2 ^ 24 = subst FitsAddress d fits.geometry in
      rw (d, values_laws.get_geometry-put_geometry geom rest inside) refl

  -- Reading what a validity wrote gives it back and stops behind it, where it is one that the setters
  -- lead to and its addresses and its name fit their fields; but a validity with a simple geometry
  -- loses its geometry name and its feature.
  pub read_validity-write :
      (strings : Strings) (v : ValidityData (Point reals)) (rest : Bytes)
      → Reached reals strings v
      → FitsFields v
      → read b reals values (write b reals values v ++ rest) ≡ some (kept v, rest)
  unfolding read write get_typed
  read_validity-write strings v rest h fits =
      let d = direction_code v.direction in
      let k = description_code v.geom_descr_type in
      let t = offset_code v.geom_offset_type in
      let tail = put_description b reals values v.geom_descr_type v in
      rw
        (
          append_assoc (b.put1 d) (b.put1 k ++ (b.put1 t ++ tail)) rest,
          append_assoc (b.put1 k) (b.put1 t ++ tail) rest,
          append_assoc (b.put1 t) tail rest,
          laws.get1-put1 d (b.put1 k ++ (b.put1 t ++ (tail ++ rest)))
              (direction_code-byte v.direction),
          laws.get1-put1 k (b.put1 t ++ (tail ++ rest)) (description_code-byte v.geom_descr_type),
          laws.get1-put1 t (tail ++ rest) (offset_code-byte v.geom_offset_type),
          direction_of-code v.direction,
          description_of-code v.geom_descr_type,
          offset_of-code v.geom_offset_type,
          get_description-put v v.geom_descr_type rest (Reached-Typed reals strings v h) fits,
        )
        refl
