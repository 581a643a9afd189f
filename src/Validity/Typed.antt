-- ===== src/Validity/Typed.antt =====
-- What every validity that is made by its setters satisfies: the alternative of its geometry
-- description is the one that its description type names.
use mapget.Base.{ℕ, ◌≡◌, ◌≢◌, Option, none, some, refl, subst}
use mapget.Base.Result.{ok, ok_injective}
use mapget.Base.Text.{Text}
use mapget.Point.{Reals, Point, on_axis}
use mapget.FeatureId.{Strings}
use mapget.Validity.{
  Direction, GeometryOffsetType, GeometryDescriptionType, GeometryDescription, ValidityData,
  no_geometry, simple_geometry, offset_point_validity, offset_range_validity, invalid_offset_type,
  geo_pos_offset, monostate, address, range, point, new_validity, set_feature_id, set_direction,
  set_geometry_name, set_offset_point, set_offset_range, set_simple_geometry, set_offset_point_1d,
  set_offset_range_1d, offset_point, offset_range, get_simple_geometry, get_point, get_range,
  get_address, optional,
}

-- What a setter for offsets in one dimension asserts.
abbrev pub IsOneDimensional : GeometryOffsetType → Type 0
IsOneDimensional t = (t ≢ invalid_offset_type) × (t ≢ geo_pos_offset)

module _ (reals : Reals) where
  -- A point as it is kept: only the x of an offset in one dimension counts.
  abbrev pub Fits : GeometryOffsetType → Point reals → Type 0
  Fits t p = (t ≢ invalid_offset_type) × (t ≢ geo_pos_offset → p ≡ on_axis reals p.x)

  abbrev pub TypedAs :
      GeometryDescriptionType → GeometryOffsetType → GeometryDescription (Point reals) → Type 0
  TypedAs no_geometry t d = (t ≡ invalid_offset_type) × (d ≡ monostate)
  TypedAs simple_geometry t d = (t ≡ invalid_offset_type) × (geom : ℕ) × (d ≡ address geom)
  TypedAs offset_point_validity t d = (p : Point reals) × (d ≡ point p) × Fits t p
  TypedAs offset_range_validity t d =
      (p : Point reals) × (q : Point reals) × (d ≡ range p q) × Fits t p × Fits t q

  abbrev pub Typed : ValidityData (Point reals) → Type 0
  Typed v = TypedAs v.geom_descr_type v.geom_offset_type v.geom_descr

  -- The validities that calls of the setters lead to, within what these assert.
  pub data Reached (strings : Strings) : ValidityData (Point reals) → Type 0 where
    made : Reached strings new_validity
    with_feature :
        (id : Option ℕ) {v : ValidityData (Point reals)}
        → Reached strings v
        → Reached strings (set_feature_id id v)
    with_direction :
        (d : Direction) {v : ValidityData (Point reals)}
        → Reached strings v
        → Reached strings (set_direction d v)
    with_name :
        (name : Option Text) {v : ValidityData (Point reals)}
        → Reached strings v
        → Reached strings (set_geometry_name strings name v)
    with_point :
        (p : Point reals) {v : ValidityData (Point reals)}
        → Reached strings v
        → Reached strings (set_offset_point p v)
    with_range :
        (p q : Point reals) {v : ValidityData (Point reals)}
        → Reached strings v
        → Reached strings (set_offset_range p q v)
    with_point_1d :
        (t : GeometryOffsetType) (x : reals.Real) {v : ValidityData (Point reals)}
        → IsOneDimensional t
        → Reached strings v
        → Reached strings (set_offset_point_1d reals t x v)
    with_range_1d :
        (t : GeometryOffsetType) (x y : reals.Real) {v : ValidityData (Point reals)}
        → IsOneDimensional t
        → Reached strings v
        → Reached strings (set_offset_range_1d reals t x y v)
    with_geometry :
        (geom : Option ℕ) {v w : ValidityData (Point reals)}
        → Reached strings v
        → set_simple_geometry geom v ≡ ok w
        → Reached strings w

  set_simple_geometry-Typed :
      (geom : Option ℕ) (v w : ValidityData (Point reals))
      → set_simple_geometry geom v ≡ ok w
      → Typed w
  unfolding set_simple_geometry
  set_simple_geometry-Typed none v w e = cc
  set_simple_geometry-Typed (some geom) v w e = subst Typed (ok_injective e) (refl, geom, refl)

  set_geometry_name-Typed :
      (strings : Strings) (name : Option Text) (v : ValidityData (Point reals))
      → Typed v
      → Typed (set_geometry_name strings name v)
  unfolding set_geometry_name
  set_geometry_name-Typed strings none v h = h
  set_geometry_name-Typed strings (some name) v h = h

  -- Every validity that the setters lead to has the alternative that its type names, an offset type
  -- just where it has offsets, and points with nothing but an x where the offsets are in one
  -- dimension.
  pub Reached-Typed :
      (strings : Strings) (v : ValidityData (Point reals)) → Reached strings v → Typed v
  unfolding set_feature_id set_direction set_offset_point set_offset_range set_offset_point_1d
      set_offset_range_1d
  Reached-Typed strings v made = (refl, refl)
  Reached-Typed strings v (with_feature id {v = u} h) = Reached-Typed strings u h
  Reached-Typed strings v (with_direction d {v = u} h) = Reached-Typed strings u h
  Reached-Typed strings v (with_name name {v = u} h) =
      set_geometry_name-Typed strings name u (Reached-Typed strings u h)
  Reached-Typed strings v (with_point p h) = (p, refl, (λ e. cc, λ ne. absurd (ne refl)))
  Reached-Typed strings v (with_range p q h) =
      (p, q, refl, (λ e. cc, λ ne. absurd (ne refl)), (λ e. cc, λ ne. absurd (ne refl)))
  Reached-Typed strings v (with_point_1d t x (ne, ng) h) = (on_axis reals x, refl, (ne, λ _. refl))
  Reached-Typed strings v (with_range_1d t x y (ne, ng) h) =
      (on_axis reals x, on_axis reals y, refl, (ne, λ _. refl), (ne, λ _. refl))
  Reached-Typed strings v (with_geometry geom {v = u} h e) = set_simple_geometry-Typed geom u v e

  abbrev point_of : GeometryDescription (Point reals) → Option (Point reals)
  point_of (point p) = some p
  point_of other = none

  abbrev range_of : GeometryDescription (Point reals) → Option (Point reals × Point reals)
  range_of (range p q) = some (p, q)
  range_of other = none

  abbrev address_of : GeometryDescription (Point reals) → Option ℕ
  address_of (address geom) = some geom
  address_of other = none

  abbrev Agree : ValidityData (Point reals) → Type 0
  Agree v =
      (offset_point v ≡ ok (point_of v.geom_descr))
      × (offset_range v ≡ ok (range_of v.geom_descr))
      × (get_simple_geometry v ≡ ok (address_of v.geom_descr))

  Typed-Agree :
      (v : ValidityData (Point reals)) (k : GeometryDescriptionType)
      → v.geom_descr_type ≡ k
      → TypedAs k v.geom_offset_type v.geom_descr
      → Agree v
  unfolding offset_point offset_range get_simple_geometry get_point get_range get_address optional
  Typed-Agree v no_geometry e (t, d) = rw (e, d) (refl, refl, refl)
  Typed-Agree v simple_geometry e (t, geom, d) = rw (e, d) (refl, refl, refl)
  Typed-Agree v offset_point_validity e (p, d, h) = rw (e, d) (refl, refl, refl)
  Typed-Agree v offset_range_validity e (p, q, d, h, k) = rw (e, d) (refl, refl, refl)

  -- For every validity that the setters lead to, the getters for an offset point, for an offset range
  -- and for a simple geometry do not throw: each returns what the geometry description holds where
  -- that is of its kind, and nothing where it is not.
  pub Reached-Agree :
      (strings : Strings) (v : ValidityData (Point reals)) → Reached strings v → Agree v
  Reached-Agree strings v h = Typed-Agree v v.geom_descr_type refl (Reached-Typed strings v h)
