-- ===== src/Geometry/Line/Tests.antt =====
-- Parts of a line of three points, over the integers.
use mapget.Base.{◌≡◌, List, [], ◌∷◌, some, refl, arith, ltb, if◌then◌else◌}
use mapget.Base.Int.{pos}
use mapget.Base.Result.{ok}
use mapget.Point.{Point, geographic_distance_to, point_eq}
use mapget.Point.Sample.{integers, at_xy}
use mapget.Geometry.Line.Nearest.{IsStrict, IsNearest}
use mapget.Geometry.Line.{
  Closest, points_from_position_bound, points_from_length_bound, closest, closest_from,
  update_closest_index, update_when, project_point_on_line, between_closest, at_offset, read_range,
}
use mapget.Geometry.Line.Bounds.{
  place_along, IsPart, points_from_position_bound-IsPart, points_from_length_bound-Unreached,
  Unreached,
}

abbrev a_line : List (Point integers)
a_line = at_xy 0 0 ∷ at_xy 0 4 ∷ at_xy 4 4 ∷ []

-- From a place on the second segment back to one on the first: the middle point is in between.
between :
    points_from_position_bound integers (at_xy 7 7) a_line (at_xy 4 4) (some (at_xy 0 0))
    ≡ ok (at_xy 0 0 ∷ at_xy 0 4 ∷ at_xy 4 4 ∷ [])
unfolding points_from_position_bound closest closest_from update_closest_index update_when
    project_point_on_line between_closest at_offset read_range point_eq
between = refl

far : Unreached integers (pos 100000000000000) (pos 0) (at_xy 0 0) (at_xy 0 4 ∷ at_xy 4 4 ∷ [])
unfolding geographic_distance_to
far = (refl, (refl, tt))

points_from_length_bound-Unreached_example :
    points_from_length_bound integers a_line (pos 1) (some (pos 100000000000000))
    ≡ ok (
        place_along integers (at_xy 0 0) (pos 1) (pos 0) (at_xy 0 0) (at_xy 0 4 ∷ at_xy 4 4 ∷ [])
        ∷ at_xy 0 0
        ∷ [])
points_from_length_bound-Unreached_example =
    points_from_length_bound-Unreached integers (at_xy 0 0) (at_xy 0 4 ∷ at_xy 4 4 ∷ []) (pos 1)
      (pos 100000000000000) refl far

integers-IsStrict : IsStrict integers
integers-IsStrict = record {
  irreflexive = λ a. ground arith;
  transitive = λ a b c h k. ground arith;
}

points_from_position_bound-IsPart_example :
    (s : Closest integers) × (e : Closest integers) × IsNearest integers
      (at_xy 7 7)
      (at_xy 4 4)
      a_line
      s
    × IsNearest integers (at_xy 7 7) (at_xy 0 0) a_line e
    × (if ltb e.index s.index
        then IsPart integers a_line e s
            (points_from_position_bound integers (at_xy 7 7) a_line (at_xy 4 4) (some (at_xy 0 0)))
        else IsPart integers a_line s e
            (points_from_position_bound integers (at_xy 7 7) a_line (at_xy 4 4) (some (at_xy 0 0))))
points_from_position_bound-IsPart_example =
    points_from_position_bound-IsPart integers integers-IsStrict (at_xy 7 7) (at_xy 0 0)
      (at_xy 0 4 ∷ at_xy 4 4 ∷ []) (at_xy 4 4) (at_xy 0 0)
