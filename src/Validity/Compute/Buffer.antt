-- ===== src/Validity/Compute/Buffer.antt =====
-- What computeGeometry makes of two indices into a geometry.
use mapget.Base.{
  ℕ, zero, suc, ◌+◌, ◌-◌, ◌^◌, ◌≤◌, ◌<◌, ◌≡◌, List, some, refl, arith, ltb, leb, if◌then◌else◌,
  length, take, drop, Bool-cases, inl, inr,
}
use mapget.Base.Result.{ok, of_option}
use mapget.Point.{Reals, Point, Vertex}
use mapget.Arena.{Arena, ArenaLaws}
use mapget.Geometry.{Geometries}
use mapget.Geometry.Points.{elem_below, drop-elem}
use mapget.Geometry.Append.{HasPoints, num_points-HasPoints, geometry_point_at-HasPoints}
use mapget.Validity.Compute.{
  no_points, line_or_points, start_out_of_bounds, end_out_of_bounds, buffer_points, buffer_from,
  compute_buffer,
}

abbrev min : ℕ → ℕ → ℕ
min a b = if ltb b a then b else a

abbrev max : ℕ → ℕ → ℕ
max a b = if ltb b a then a else b

module _ (reals : Reals) (arena : Arena (Vertex reals)) (laws : ArenaLaws arena) where
  buffer_points-inside :
      (g : Geometries reals arena) (i : ℕ) (ps : List (Point reals)) (k count : ℕ)
      → HasPoints reals arena laws g i ps
      → length ps < 2 ^ 32
      → k + count ≤ length ps
      → buffer_points reals arena g i k count ≡ ok (take count (drop k ps))
  unfolding buffer_points
  buffer_points-inside g i ps k zero h short le = refl
  buffer_points-inside g i ps k (suc count) h short le =
      let (p, e) = elem_below ps k (omega arith) in
      rw
        (
          geometry_point_at-HasPoints reals arena laws g i ps k h short (omega arith),
          e,
          of_option,
          buffer_points-inside g i ps (suc k) count h short (omega arith),
          drop-elem ps k e,
        )
        refl

  -- Two indices into a geometry that is no view and has less than 2 ^ 32 points come to its points
  -- from the lower index up to the higher one, both included, in the order of the geometry, whichever
  -- of the two is given as the start; a line if these are two or more points. An index that is not
  -- below the number of points comes to no points and a message instead, the start's first; both
  -- messages name the start.
  pub compute_buffer-HasPoints :
      (g : Geometries reals arena) (i : ℕ) (ps : List (Point reals)) (start end : ℕ)
      → HasPoints reals arena laws g i ps
      → length ps < 2 ^ 32
      → compute_buffer reals arena g i start end
        ≡ ok (
            if leb (length ps) start
            then no_points (some (start_out_of_bounds start))
            else (if leb (length ps) end
                then no_points (some (end_out_of_bounds start))
                else line_or_points
                    (take (suc (max start end - min start end)) (drop (min start end) ps))))
  unfolding compute_buffer buffer_from
  compute_buffer-HasPoints g i ps start end h short =
      let n = num_points-HasPoints reals arena laws g i ps h short in
      elim (Bool-cases (leb (length ps) start)) [
        | inl out ↦ rw (n, out) refl
        | inr inside ↦ elim (Bool-cases (leb (length ps) end)) [
          | inl out ↦ rw (n, inside, out) refl
          | inr inside' ↦ elim (Bool-cases (ltb end start)) [
            | inl back ↦
                rw
                  (
                    n,
                    inside,
                    inside',
                    back,
                    buffer_points-inside g i ps end (suc (start - end)) h short (ground arith),
                  )
                  refl
            | inr on ↦
                rw
                  (
                    n,
                    inside,
                    inside',
                    on,
                    buffer_points-inside g i ps start (suc (end - start)) h short (ground arith),
                  )
                  refl
          ]
        ]
      ]
