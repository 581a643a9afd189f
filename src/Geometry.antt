-- ===== src/Geometry.antt =====
-- libs/model: Geometry and PointBufferNode of include/mapget/model/geometry.h and src/geometry.cpp,
-- PointNode of src/pointnode.cpp, and the geometries of a TileFeatureLayer.
pub mod Points
pub mod Append
pub mod Line
pub mod Ring
pub mod Tests
use mapget.Base.{
  ℕ, zero, suc, ◌+◌, ◌-◌, ◌%◌, ◌^◌, List, [], ◌∷◌, ◌++◌, Option, none, some, leb, ltb, ◌==◌,
  if◌then◌else◌, length, get_elem?,
}
use mapget.Base.Int.{ℤ, pos, negsuc}
use mapget.Base.Result.{Result, ok, raised, stuck, of_option, ◌>>=◌}
use mapget.Base.Text.{Text}
use mapget.Point.{Reals, Point, Vertex, to_vertex, of_vertex}
use mapget.Arena.{Arena}
use mapget.FeatureId.{Strings}

pub data GeomType : Type 0 where
  points line polygon mesh : GeomType

-- Geometry::Data::GeomDetails, and isView_ as its tag. A base that has no point yet has the negative
-- of its capacity for a vertex array; a view names the geometry that it looks into.
pub data Details (P : Type 0) : Type 0 where
  base : ℤ → P → Details P
  view : ℕ → ℕ → ℕ → Details P

-- Geometry::Data. Addresses of source data references are left out of the state, as nothing here
-- reads them.
pub record GeometryData (P : Type 0) : Type 0 where
  pub type : GeomType
  pub geom_name : ℕ
  pub detail : Details P

-- -(ArrayIndex)capacity, for capacities that the 32 bits of an ArrayIndex hold.
abbrev pub negative : ℕ → ℤ
negative zero = pos 0
negative (suc n) = negsuc n

abbrev max_1 : ℕ → ℕ
max_1 zero = 1
max_1 (suc n) = suc n

module _ {A : Type 0} where
  abbrev pub set_at : List A → ℕ → A → List A
  set_at [] i a = []
  set_at (x ∷ xs) zero a = a ∷ xs
  set_at (x ∷ xs) (suc i) a = x ∷ set_at xs i a

module _ (reals : Reals) (arena : Arena (Vertex reals)) where
  -- The columns of TileFeatureLayer::Impl for geometries. The index of a geometry is its address.
  pub record Geometries : Type 0 where
    pub geom : List (GeometryData (Point reals))
    pub point_buffers : arena.Storage

  -- PointBufferNode: the base geometry with its array and first point, and the range of its points.
  pub record PointBuffer : Type 0 where
    pub base_geom : ℕ
    pub vertex_array : ℤ
    pub first : Point reals
    pub offset : ℕ
    pub size : ℕ

  -- TileFeatureLayer::newGeometry; the new geometry is the last one.
  pub new_geometry : GeomType → ℕ → Point reals → Geometries → Geometries
  new_geometry type capacity unset g = record g {
    geom =
        g.geom
        ++ (record { type = type; geom_name = 0; detail = base (negative (max_1 capacity)) unset }
            ∷ []);
  }

  -- TileFeatureLayer::newGeometryView
  pub new_geometry_view : GeomType → ℕ → ℕ → ℕ → Geometries → Geometries
  new_geometry_view type offset size of g = record g {
    geom = g.geom ++ (record { type = type; geom_name = 0; detail = view offset size of } ∷ []);
  }

  append_vertex : ℕ → Point reals → Point reals → Geometries → Result Geometries
  unfolding to_vertex
  append_vertex array offset p g =
      of_option (arena.emplace_back g.point_buffers (pos array) (to_vertex reals offset p)) >>= λ s.
      ok (record g { point_buffers = s })

  append_to :
      ℕ
      → GeometryData (Point reals)
      → Details (Point reals)
      → Point reals
      → Geometries
      → Result Geometries
  unfolding append_vertex
  append_to i d (view offset size of) p g = raised
  append_to i d (base (negsuc n) unset) p g =
      let (array, s) = arena.new_array g.point_buffers n in
      ok (record { geom = set_at g.geom i (record d { detail = base array p }); point_buffers = s })
  append_to i d (base (pos array) offset) p g = append_vertex array offset p g

  -- Geometry::append, for the geometry with that index.
  pub append : ℕ → Point reals → Geometries → Result Geometries
  unfolding append_to
  append i p g = of_option (get_elem? g.geom i) >>= λ d. append_to i d d.detail p g

  -- The loop that resolves a view, on a fuel. `offset` is what was added up so far.
  pub resolve_view : ℕ → List (GeometryData (Point reals)) → ℕ → ℕ → ℕ → Result PointBuffer
  resolve_view zero geom offset size i = stuck
  resolve_view (suc fuel) geom offset size i = of_option (get_elem? geom i) >>= λ d. elim d.detail [
    | base array first ↦ ok (record {
      base_geom = i;
      vertex_array = array;
      first = first;
      offset = offset;
      size = size;
    })
    | view more _ of ↦ resolve_view fuel geom ((offset + more) % 2 ^ 32) size of
  ]

  check_view : Geometries → PointBuffer → Result PointBuffer
  check_view g b = of_option (arena.size g.point_buffers b.vertex_array) >>= λ n.
      if ltb (1 + n) ((b.offset + b.size) % 2 ^ 32) then raised else ok b

  -- The size of a geometry that is no view.
  base_size : Geometries → ℤ → Result ℕ
  base_size g (negsuc n) = ok 0
  base_size g (pos array) =
      of_option (arena.size g.point_buffers (pos array)) >>= λ n. ok ((1 + n) % 2 ^ 32)

  -- The constructor of PointBufferNode, for the geometry with that index.
  buffer_of : Geometries → ℕ → Details (Point reals) → Result PointBuffer
  unfolding resolve_view check_view base_size
  buffer_of g i (base array first) = base_size g array >>= λ n.
      ok (record { base_geom = i; vertex_array = array; first = first; offset = 0; size = n })
  buffer_of g i (view offset size of) =
      resolve_view (length g.geom) g.geom (offset % 2 ^ 32) size of >>= check_view g

  pub point_buffer : Geometries → ℕ → Result PointBuffer
  unfolding buffer_of
  point_buffer g i = of_option (get_elem? g.geom i) >>= λ d. buffer_of g i d.detail

  -- The constructor of PointNode, for the index of a point of the base geometry.
  pub point_node : Geometries → PointBuffer → ℕ → Result (Point reals)
  unfolding of_vertex
  point_node g b zero = ok b.first
  point_node g b (suc i) =
      of_option (arena.at g.point_buffers b.vertex_array i) >>= λ v. ok (of_vertex reals b.first v)

  -- PointBufferNode::pointAt
  pub point_at : Geometries → PointBuffer → ℕ → Result (Point reals)
  unfolding point_node
  point_at g b i = if leb b.size i then raised else point_node g b (i + b.offset)

  -- Geometry::numPoints and pointAt.
  pub num_points : Geometries → ℕ → Result ℕ
  unfolding point_buffer
  num_points g i = point_buffer g i >>= λ b. ok b.size

  pub geometry_point_at : Geometries → ℕ → ℕ → Result (Point reals)
  unfolding point_buffer point_at
  geometry_point_at g i k = point_buffer g i >>= λ b. point_at g b k

  -- Geometry::forEachPoint, for `count` points from the index k, with a callback that keeps them.
  collect : Geometries → PointBuffer → ℕ → ℕ → Result (List (Point reals))
  unfolding point_at
  collect g b k zero = ok []
  collect g b k (suc count) =
      point_at g b k >>= λ p. collect g b (suc k) count >>= λ ps. ok (p ∷ ps)

  -- Geometry::toSelfContained, as far as the points.
  pub points_of : Geometries → ℕ → Result (List (Point reals))
  unfolding point_buffer collect
  points_of g i = point_buffer g i >>= λ b. collect g b 0 b.size

-- Geometry::name, for the dictionary of the layer, whose id 0 is the empty text.
pub name : {P : Type 0} → Strings → GeometryData P → Option Text
name strings d = if d.geom_name == 0 then none else strings.resolve d.geom_name

pub set_name : {P : Type 0} → Strings → Text → GeometryData P → GeometryData P
set_name strings new_name d = record d { geom_name = strings.emplace new_name }
