-- ===== src/Geometry/Ring.antt =====
-- libs/model/src/geometry.cpp: LinearRingNode, which gives the points of a polygon, or of a triangle
-- of a mesh, as a ring for GeoJSON, and the triangles of MeshNode.
pub mod Order
use mapget.Base.{
  ℕ, zero, suc, ◌+◌, ◌-◌, ◌*◌, ◌/◌, ◌%◌, ◌^◌, Bool, true, false, not, ◌&&◌, List, [], ◌∷◌, Option,
  none, some, ltb, leb, ◌==◌, if◌then◌else◌, length, get_elem?,
}
use mapget.Base.Result.{Result, ok, raised, of_option, ◌>>=◌}
use mapget.Point.{Reals, Point, point_eq}

-- The range of the buffer that the ring takes, whether its last point repeats the first, and
-- whether it runs clockwise.
pub record Ring : Type 0 where
  pub offset : ℕ
  pub size : ℕ
  pub closed : Bool
  pub clockwise : Bool

abbrev value_or : Option ℕ → ℕ → ℕ
value_or none n = n
value_or (some m) n = m

module _ (reals : Reals) (buffer : List (Point reals)) where
  -- PointBufferNode::pointAt, for the points of the buffer.
  abbrev pub buffer_at : ℕ → Result (Point reals)
  buffer_at i = of_option (get_elem? buffer i)

  unfoldable pub is_closed : ℕ → ℕ → Result Bool
  is_closed offset n =
      if ltb n 3
      then ok false
      else buffer_at offset >>= λ a. buffer_at (n - 1 + offset) >>= λ b. ok (point_eq reals a b)

  -- The loop of the shoelace formula, for `count` points from the index i.
  unfoldable pub area_loop : ℕ → ℕ → reals.Real → ℕ → ℕ → reals.Real → Result reals.Real
  area_loop offset n z zero i area = ok (reals.divide area (reals.number 2 0))
  area_loop offset n z (suc count) i area = buffer_at (i + offset) >>= λ a.
      buffer_at ((i + 1 + offset) % n) >>= λ b.
      if reals.eq a.z z
      then area_loop offset n z count (suc i)
          (reals.plus area (reals.minus (reals.times a.x b.y) (reals.times a.y b.x)))
      else ok reals.zero

  unfoldable pub signed_area : ℕ → ℕ → Result reals.Real
  unfolding area_loop
  signed_area offset zero = ok reals.zero
  signed_area offset (suc m) =
      buffer_at offset >>= λ p. area_loop offset (suc m) p.z (suc m) 0 reals.zero

  -- The constructor, for an offset and a length where one is given.
  unfoldable pub linear_ring : ℕ → Option ℕ → Result Ring
  unfolding is_closed signed_area
  linear_ring offset n =
      let size = value_or n ((length buffer + 2 ^ 32 - offset) % 2 ^ 32) in
      is_closed offset size >>= λ closed. signed_area offset size >>= λ area. ok (record {
        offset = offset;
        size = size;
        closed = closed;
        clockwise = reals.less area reals.zero;
      })

  -- LinearRingNode::size and at.
  unfoldable pub ring_size : Ring → ℕ
  ring_size r = if r.closed then r.size else r.size + 1

  unfoldable pub ring_at : Ring → ℕ → Result (Point reals)
  unfolding ring_size
  ring_at r index =
      if leb (ring_size r) index
      then raised
      else (if not r.closed && (index == ring_size r - 1)
          then buffer_at r.offset
          else (if r.clockwise
              then buffer_at ((r.size - index) % r.size + r.offset)
              else buffer_at (index + r.offset)))

  -- The loop of LinearRingNode::iterate over `count` indices from i on, and what it visits.
  unfoldable pub read_nodes : Ring → ℕ → ℕ → Result (List (Point reals))
  unfolding ring_at
  read_nodes r zero i = ok []
  read_nodes r (suc count) i = ring_at r i >>= λ p. read_nodes r count (suc i) >>= λ ps. ok (p ∷ ps)

  unfoldable pub iterate : Ring → Result (List (Point reals))
  unfolding read_nodes ring_size
  iterate r = read_nodes r (ring_size r) 0

  -- The ring of triangle t of a mesh: MeshNode::at, MeshTriangleCollectionNode and
  -- resolveMeshTriangleLinearRing.
  unfoldable pub triangle_ring : ℕ → Result Ring
  unfolding linear_ring
  triangle_ring t = if ltb t (length buffer / 3) then linear_ring (t * 3) (some 3) else raised
