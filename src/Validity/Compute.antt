-- ===== src/Validity/Compute.antt =====
-- libs/model/src/validity.cpp: Validity::computeGeometry, over the features and the geometries of the
-- layer of the validity.
pub mod Buffer
use mapget.Base.{
  ℕ, zero, suc, ◌+◌, ◌-◌, ◌≤◌, ◌<◌, ◌≡◌, ◌≢◌, Bool, true, false, not, ◌&&◌, List, [], ◌∷◌, ◌++◌,
  Option, none, some, refl, arith, ltb, leb, if◌then◌else◌, length, get_elem?, take, drop,
}
use mapget.Base.Result.{Result, ok, of_option, dereference, ◌>>=◌}
use mapget.Base.Text.{Text, text_eq}
use mapget.Point.{Reals, Point, Vertex}
use mapget.Arena.{Arena}
use mapget.IdPart.{FeatureTypeInfo, KeyValuePairs}
use mapget.FeatureId.{Strings, FeatureId, type_text, key_value_pairs}
use mapget.Features.{FeatureLayer, find}
use mapget.Geometry.{
  GeomType, points, line, Geometries, GeometryData, name, points_of, num_points, geometry_point_at,
}
use mapget.Geometry.Line.{line_length, points_from_position_bound, points_from_length_bound}
use mapget.Validity.{
  GeometryOffsetType, ValidityData, no_geometry, simple_geometry, offset_point_validity,
  offset_range_validity, invalid_offset_type, geo_pos_offset, buffer_offset, relative_length_offset,
  metric_length_offset, geometry_name, offset_point, offset_range, get_simple_geometry,
}

-- The messages, with what is printed in them.
pub data ComputeError : Type 0 where
  no_geometry_for : Text → ComputeError
  invalid_type : ComputeError
  start_out_of_bounds : ℕ → ComputeError
  end_out_of_bounds : ℕ → ComputeError

-- SelfContainedGeometry, and what *error was set to.
pub record Computed (P : Type 0) : Type 0 where
  pub points_ : List P
  pub geom_type : GeomType
  pub error : Option ComputeError

abbrev pub is_line : GeomType → Bool
is_line line = true
is_line other = false

-- std::optional<std::string_view>::operator==
abbrev pub name_eq : Option Text → Option Text → Bool
name_eq none none = true
name_eq (some s) (some t) = text_eq s t
name_eq none (some t) = false
name_eq (some s) none = false

abbrev text_of : Option Text → Text
text_of none = []
text_of (some t) = t

module _ {P : Type 0} where
  abbrev pub no_points : Option ComputeError → Computed P
  no_points error = record { points_ = []; geom_type = points; error = error }

  -- {points, points.size() > 1 ? GeomType::Line : GeomType::Points}
  abbrev pub line_or_points : List P → Computed P
  line_or_points ps = record {
    points_ = ps;
    geom_type = if ltb 1 (length ps) then line else points;
    error = none;
  }

  -- The first line of a collection with that name.
  unfoldable pub find_geometry :
      Strings → Option Text → List (GeometryData P) → List ℕ → Result (Option ℕ)
  find_geometry strings wanted geoms [] = ok none
  find_geometry strings wanted geoms (i ∷ is) =
      let rest = find_geometry strings wanted geoms is in
      of_option (get_elem? geoms i) >>= λ d.
      if name_eq (name strings d) wanted && is_line d.type then ok (some i) else rest

module _ (reals : Reals) (arena : Arena (Vertex reals)) where
  -- The loop of BufferOffset over `count` indices from k on.
  pub buffer_points : Geometries reals arena → ℕ → ℕ → ℕ → Result (List (Point reals))
  buffer_points g i k zero = ok []
  buffer_points g i k (suc count) = geometry_point_at reals arena g i k >>= λ p.
      buffer_points g i (suc k) count >>= λ ps. ok (p ∷ ps)

  -- Once the start is in bounds: the end, the swap, and the loop.
  pub buffer_from : Geometries reals arena → ℕ → ℕ → ℕ → ℕ → Result (Computed (Point reals))
  unfolding buffer_points
  buffer_from g i n start end =
      if leb n end
      then ok (no_points (some (end_out_of_bounds start)))
      else (if ltb end start
          then (buffer_points g i end (suc (start - end)) >>= λ ps. ok (line_or_points ps))
          else (buffer_points g i start (suc (end - start)) >>= λ ps. ok (line_or_points ps)))

  -- BufferOffset, for the indices of the start and of the end.
  unfoldable pub compute_buffer :
      Geometries reals arena → ℕ → ℕ → ℕ → Result (Computed (Point reals))
  unfolding buffer_from
  compute_buffer g i start end = num_points reals arena g i >>= λ n.
      if leb n start
      then ok (no_points (some (start_out_of_bounds start)))
      else buffer_from g i n start end

  abbrev end_index : ℕ → Option (Point reals) → ℕ
  end_index start none = start
  end_index start (some p) = reals.to_uint32 p.x

  abbrev scaled_x : reals.Real → Option (Point reals) → Option reals.Real
  scaled_x l none = none
  scaled_x l (some p) = some (reals.times p.x l)

  abbrev x_of : Option (Point reals) → Option reals.Real
  x_of none = none
  x_of (some p) = some p.x

  -- What follows once the offsets are known. `unset` is what an offset that was not assigned holds.
  unfoldable pub compute_offsets :
      Point reals
      → Geometries reals arena
      → ℕ
      → GeometryOffsetType
      → Point reals
      → Option (Point reals)
      → Result (Computed (Point reals))
  unfolding compute_buffer
  compute_offsets unset g i invalid_offset_type start end = ok (no_points (some invalid_type))
  compute_offsets unset g i geo_pos_offset start end = points_of reals arena g i >>= λ ps.
      points_from_position_bound reals unset ps start end >>= λ qs. ok (line_or_points qs)
  compute_offsets unset g i buffer_offset start end =
      let s = reals.to_uint32 start.x in compute_buffer g i s (end_index s end)
  compute_offsets unset g i relative_length_offset start end = points_of reals arena g i >>= λ ps.
      let l = line_length reals ps in
      points_from_length_bound reals ps (reals.times start.x l) (scaled_x l end) >>= λ qs.
      ok (line_or_points qs)
  compute_offsets unset g i metric_length_offset start end = points_of reals arena g i >>= λ ps.
      points_from_length_bound reals ps start.x (x_of end) >>= λ qs. ok (line_or_points qs)

  -- toSelfContained of a geometry.
  whole : Geometries reals arena → ℕ → Result (Computed (Point reals))
  whole g i = of_option (get_elem? g.geom i) >>= λ d. points_of reals arena g i >>= λ ps.
      ok (record { points_ = ps; geom_type = d.type; error = none })

  -- What follows once a geometry is picked: the offsets are read where there are some.
  compute_on :
      Point reals
      → Geometries reals arena
      → ValidityData (Point reals)
      → ℕ
      → Result (Computed (Point reals))
  unfolding compute_offsets whole
  compute_on unset g v i = elim v.geom_descr_type [
    | no_geometry ↦ whole g i
    | offset_point_validity ↦ elim v.geom_offset_type [
      | invalid_offset_type ↦ ok (no_points (some invalid_type))
      | t ↦ offset_point v >>= dereference >>= λ p. compute_offsets unset g i t p none
    ]
    | other ↦ elim v.geom_offset_type [
      | invalid_offset_type ↦ ok (no_points (some invalid_type))
      | t ↦ offset_range v >>= dereference >>= λ pq. compute_offsets unset g i t pq.0 (some pq.1)
    ]
  ]

  compute_in :
      Strings
      → Point reals
      → Geometries reals arena
      → ValidityData (Point reals)
      → Option (List ℕ)
      → Result (Computed (Point reals))
  unfolding compute_on
  compute_in strings unset g v none = ok (no_points none)
  compute_in strings unset g v (some collection) =
      let wanted = geometry_name strings v in
      find_geometry strings wanted g.geom collection >>= λ found. elim found [
        | none ↦ ok (no_points (some (no_geometry_for (text_of wanted))))
        | some i ↦ compute_on unset g v i
      ]

  abbrev collection_of : (ℕ → Option (List ℕ)) → Option (List ℕ) → Option ℕ → Option (List ℕ)
  collection_of geom_or_null given none = given
  collection_of geom_or_null given (some feature) = geom_or_null feature

  -- The collection of the feature that the validity names, or the one that is given.
  find_collection :
      (ℕ → ℕ)
      → List FeatureTypeInfo
      → Strings
      → (ℕ → Option (List ℕ))
      → FeatureLayer
      → Option ℕ
      → Option (List ℕ)
      → Result (Option (List ℕ))
  find_collection widen types strings geom_or_null l none given = ok given
  find_collection widen types strings geom_or_null l (some id) given =
      of_option (get_elem? l.feature_ids id) >>= λ fid.
      find widen types strings (type_text strings fid)
        (key_value_pairs strings l.feature_id_prefix fid) l
      >>= λ found. ok (collection_of geom_or_null given found.0)

  -- Validity::computeGeometry. `geom_or_null` is the geometry collection of each feature of the
  -- layer; that `find` may sort the index of the layer is left out of the result.
  unfoldable pub compute_geometry :
      (ℕ → ℕ)
      → List FeatureTypeInfo
      → Strings
      → (ℕ → Option (List ℕ))
      → FeatureLayer
      → Point reals
      → Geometries reals arena
      → ValidityData (Point reals)
      → Option (List ℕ)
      → Result (Computed (Point reals))
  unfolding whole find_collection compute_in
  compute_geometry widen types strings geom_or_null l unset g v given = elim v.geom_descr_type [
    | simple_geometry ↦ get_simple_geometry v >>= dereference >>= whole g
    | other ↦
        find_collection widen types strings geom_or_null l v.feature_address given
        >>= compute_in strings unset g v
  ]
