-- ===== src/Geometry/Tests.antt =====
-- A line of three points with a view of its end, and a square, over the integers.
use mapget.Base.{
  ℕ, zero, suc, ◌≡◌, true, false, List, [], ◌∷◌, ◌++◌, none, refl, sym, ◌∙◌, inl, inr, arith,
}
use mapget.Base.Int.{pos, negsuc}
use mapget.Base.Result.{ok, ◌>>=◌}
use mapget.Point.{Point, Vertex, to_vertex, of_vertex, point_eq}
use mapget.Point.Sample.{integers, at_xy}
use mapget.Arena.{Arena}
use mapget.Arena.Concrete.{lists, lists_laws}
use mapget.Geometry.{
  line, GeometryData, base, view, Geometries, append, points_of, point_buffer, buffer_of,
  resolve_view, check_view, collect, point_at, point_node,
}
use mapget.Geometry.Points.{DetailAt, Earlier, at_base, points_of-view}
use mapget.Geometry.Append.{HasPoints, Separate, append-HasPoints}
use mapget.Geometry.Ring.{linear_ring, is_closed, signed_area, area_loop, iterate, triangle_ring}
use mapget.Geometry.Ring.Order.{shoelace, runs_clockwise, iterate-linear_ring, iterate-clockwise}

abbrev pub Pt : Type 0
Pt = Point integers

abbrev pub vertices : Arena (Vertex integers)
vertices = lists (Vertex integers)

abbrev pub the_line : GeometryData Pt
the_line = record { type = line; geom_name = 0; detail = base (pos 0) (at_xy 1 1) }

abbrev pub the_view : GeometryData Pt
the_view = record { type = line; geom_name = 0; detail = view 1 2 0 }

abbrev pub unset_line : GeometryData Pt
unset_line = record { type = line; geom_name = 0; detail = base (negsuc 3) (at_xy 0 0) }

abbrev pub three : Geometries integers vertices
three = record {
  geom = the_line ∷ the_view ∷ unset_line ∷ [];
  point_buffers = (at_xy 2 0 ∷ at_xy 2 3 ∷ []) ∷ [];
}

line_points : points_of integers vertices three 0 ≡ ok (at_xy 1 1 ∷ at_xy 3 1 ∷ at_xy 3 4 ∷ [])
unfolding points_of point_buffer buffer_of collect point_at point_node of_vertex
line_points = refl

three-Earlier : Earlier three.geom
three-Earlier zero o s t (d, e, dt) = cc
three-Earlier (suc zero) o s t (d, e, dt) = let z : 0 ≡ t = cc in omega (arith, z)
three-Earlier (suc (suc zero)) o s t (d, e, dt) = cc
three-Earlier (suc (suc (suc k))) o s t (d, e, dt) = cc

view_points : points_of integers vertices three 1 ≡ ok (at_xy 3 1 ∷ at_xy 3 4 ∷ [])
unfolding points_of point_buffer buffer_of resolve_view check_view collect point_at point_node
    of_vertex
view_points = refl

points_of-view_example : points_of integers vertices three 1 ≡ ok (at_xy 3 1 ∷ at_xy 3 4 ∷ [])
unfolding of_vertex
points_of-view_example =
    points_of-view integers vertices (lists_laws (Vertex integers)) three 1 1 2 0 0 0 0 (at_xy 1 1)
      (at_xy 2 0 ∷ at_xy 2 3 ∷ []) three-Earlier (the_view, refl, refl)
      (at_base (the_line, refl, refl)) refl (omega arith) (omega arith)

-- The only array is that of the first geometry.
three_arrays : (k a : ℕ) (f : Pt) → DetailAt three.geom k (base (pos a) f) → (k ≡ 0) × (a ≡ 0)
three_arrays zero a f (d, e, dt) = let z : 0 ≡ a = cc in (refl, sym z)
three_arrays (suc zero) a f (d, e, dt) = cc
three_arrays (suc (suc zero)) a f (d, e, dt) = cc
three_arrays (suc (suc (suc k))) a f (d, e, dt) = cc

three-Separate : Separate integers vertices (lists_laws (Vertex integers)) three
three-Separate = record {
  allocated = λ k a f h. omega (arith, (three_arrays k a f h).1);
  distinct = λ j k a f h x y. (three_arrays j a f x).0 ∙ sym (three_arrays k a h y).0;
}

pub three_points :
    HasPoints integers vertices
      (lists_laws (Vertex integers))
      three
      0
      (at_xy 1 1 ∷ at_xy 3 1 ∷ at_xy 3 4 ∷ [])
unfolding of_vertex
three_points = inr (0, at_xy 1 1, at_xy 2 0 ∷ at_xy 2 3 ∷ [], (the_line, refl, refl), refl, refl)

append-HasPoints_example :
    (g' : Geometries integers vertices) × (append integers vertices 0 (at_xy 5 6) three ≡ ok g')
    × HasPoints integers vertices
        (lists_laws (Vertex integers))
        g'
        0
        (at_xy 1 1 ∷ at_xy 3 1 ∷ at_xy 3 4 ∷ at_xy 5 6 ∷ [])
    × HasPoints integers vertices (lists_laws (Vertex integers)) g' 2 []
    × Separate integers vertices (lists_laws (Vertex integers)) g'
unfolding of_vertex to_vertex
append-HasPoints_example =
    append-HasPoints integers vertices (lists_laws (Vertex integers)) three 0
      (at_xy 1 1 ∷ at_xy 3 1 ∷ at_xy 3 4 ∷ []) (at_xy 5 6) 2 [] three-Separate three_points
      (λ e. cc) (inl (3, at_xy 0 0, (unset_line, refl, refl), refl))

-- A square that is given clockwise, once with its first point again at the end.
abbrev open_square : List Pt
open_square = at_xy 0 0 ∷ at_xy 0 4 ∷ at_xy 4 4 ∷ at_xy 4 0 ∷ []

abbrev closed_square : List Pt
closed_square = open_square ++ (at_xy 0 0 ∷ [])

iterate-linear_ring_example :
    (linear_ring integers open_square 0 none >>= iterate integers open_square)
    ≡ ok (at_xy 0 0 ∷ at_xy 4 0 ∷ at_xy 4 4 ∷ at_xy 0 4 ∷ at_xy 0 0 ∷ [])
unfolding shoelace point_eq
iterate-linear_ring_example =
    iterate-linear_ring integers (at_xy 0 0) (at_xy 0 4 ∷ at_xy 4 4 ∷ at_xy 4 0 ∷ []) (omega arith)

again : point_eq integers (at_xy 0 0) (at_xy 0 0) ≡ true
unfolding point_eq
again = refl

closed_square-runs_clockwise :
    runs_clockwise integers (at_xy 0 0) (at_xy 0 4 ∷ at_xy 4 4 ∷ at_xy 4 0 ∷ at_xy 0 0 ∷ []) ≡ true
unfolding shoelace
closed_square-runs_clockwise = refl

iterate-clockwise_example :
    (linear_ring integers closed_square 0 none >>= iterate integers closed_square)
    ≡ ok (at_xy 0 0 ∷ at_xy 0 0 ∷ at_xy 4 0 ∷ at_xy 4 4 ∷ at_xy 0 4 ∷ [])
iterate-clockwise_example =
    iterate-clockwise integers (at_xy 0 0) (at_xy 0 4) (at_xy 0 0) (at_xy 4 4 ∷ at_xy 4 0 ∷ [])
      (omega arith) again closed_square-runs_clockwise

-- The second of two triangles, which runs counter-clockwise, is taken for a clockwise one, since its
-- area is computed with points of the first.
abbrev two_triangles : List Pt
two_triangles = at_xy 9 0 ∷ at_xy 9 9 ∷ at_xy 0 0 ∷ at_xy 0 0 ∷ at_xy 1 0 ∷ at_xy 0 1 ∷ []

second_triangle :
    triangle_ring integers two_triangles 1
    ≡ ok (record { offset = 3; size = 3; closed = false; clockwise = true })
unfolding triangle_ring linear_ring is_closed signed_area area_loop point_eq
second_triangle = refl
