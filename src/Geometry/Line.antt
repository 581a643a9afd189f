-- ===== src/Geometry/Line.antt =====
-- libs/model/src/geometry.cpp: the length of a line, and the parts of it between two positions and
-- between two lengths. The points of the line are those that Geometry::pointAt gives.
pub mod Nearest
pub mod Bounds
pub mod Tests
use mapget.Base.{
  ℕ, zero, suc, ◌+◌, ◌-◌, ◌≤◌, ◌<◌, ◌≡◌, Bool, true, false, not, ◌&&◌, ◌||◌, List, [], ◌∷◌, ◌++◌,
  Option, none, some, refl, arith, ltb, if◌then◌else◌, length, get_elem?, take, drop,
}
use mapget.Base.Result.{Result, ok, raised, of_option, ◌>>=◌}
use mapget.Point.{Reals, Point, plus_all, minus_all, times_all, point_eq, geographic_distance_to}

-- The loop that reads `count` points from the index k on.
unfoldable pub read_range : {A : Type 0} → List A → ℕ → ℕ → Result (List A)
read_range ps k zero = ok []
read_range ps k (suc count) =
    of_option (get_elem? ps k) >>= λ p. read_range ps (suc k) count >>= λ rest. ok (p ∷ rest)

module _ (reals : Reals) where
  length_from : Point reals → List (Point reals) → reals.Real → reals.Real
  length_from p [] sum = sum
  length_from p (q ∷ qs) sum = length_from q qs (reals.plus sum (geographic_distance_to reals p q))

  -- Geometry::length
  unfoldable pub line_length : List (Point reals) → reals.Real
  unfolding length_from
  line_length [] = reals.zero
  line_length (p ∷ ps) = length_from p ps reals.zero

  -- projectPointOnLine: the offset of the projection from the point a.
  pub project_point_on_line : Point reals → Point reals → Point reals → Option (Point reals)
  project_point_on_line p a b =
      let ab = minus_all reals b a in
      let ap = minus_all reals p a in
      let squared = reals.plus (reals.times ab.x ab.x) (reals.times ab.y ab.y) in
      let dot = reals.plus (reals.times ap.x ab.x) (reals.times ap.y ab.y) in
      let factor = reals.divide dot squared in
      if point_eq reals a b
      then none
      else (if reals.eq squared reals.zero
          then none
          else (if reals.less factor reals.zero || reals.less (reals.number 1 0) factor
              then none
              else some (times_all reals factor (minus_all reals b a))))

  -- The segment found so far for a bound: its index, its offset and its distance.
  pub record Closest : Type 0 where
    pub index : ℕ
    pub from_closest : Point reals
    pub distance : reals.Real

  -- updateClosestIndex
  update_when : Bool → ℕ → reals.Real → Option (Point reals) → Closest → Closest
  update_when false i d o c = c
  update_when true i d none c = c
  update_when true i d (some o) c = record { index = i; from_closest = o; distance = d }

  update_closest_index : Point reals → ℕ → Point reals → Point reals → Closest → Closest
  unfolding project_point_on_line update_when
  update_closest_index p i a b c =
      let d = reals.to_double (
        reals.float_distance (reals.to_float a.x) (reals.to_float a.y) (reals.to_float p.x)
          (reals.to_float p.y)) in
      update_when (reals.less d c.distance) i d (project_point_on_line p a b) c

  closest_from : Point reals → ℕ → Point reals → List (Point reals) → Closest → Closest
  unfolding update_closest_index
  closest_from p i a [] c = c
  closest_from p i a (b ∷ bs) c = closest_from p (suc i) b bs (update_closest_index p i a b c)

  -- The loop over the segments for one of the bounds; the two bounds do not affect each other.
  -- `unset` is what the offset holds before it is assigned to.
  pub closest : Point reals → Point reals → Point reals → List (Point reals) → Closest
  unfolding closest_from
  closest unset p a ps =
      closest_from p 0 a ps (record { index = 0; from_closest = unset; distance = reals.max })

  at_offset : List (Point reals) → Closest → Result (Point reals)
  at_offset ps c = of_option (get_elem? ps c.index) >>= λ p. ok (plus_all reals p c.from_closest)

  between_closest : List (Point reals) → Closest → Closest → Result (List (Point reals))
  unfolding at_offset
  between_closest ps s e = at_offset ps s >>= λ first.
      read_range ps (suc s.index) (e.index - s.index) >>= λ inner.
      at_offset ps e >>= λ last. ok (first ∷ (inner ++ (last ∷ [])))

  -- Geometry::pointsFromPositionBound. Without points the first pointAt throws.
  unfoldable pub points_from_position_bound :
      Point reals
      → List (Point reals)
      → Point reals
      → Option (Point reals)
      → Result (List (Point reals))
  unfolding closest between_closest at_offset
  points_from_position_bound unset [] start end = raised
  points_from_position_bound unset (a ∷ ps) start none =
      at_offset (a ∷ ps) (closest unset start a ps) >>= λ p. ok (p ∷ [])
  points_from_position_bound unset (a ∷ ps) start (some end) =
      let s = closest unset start a ps in
      let e = closest unset end a ps in
      if ltb e.index s.index then between_closest (a ∷ ps) e s else between_closest (a ∷ ps) s e

  -- The variables of the loop of pointsFromLengthBound.
  pub record Walk : Type 0 where
    pub covered_length : reals.Real
    pub start_reached : Bool
    pub inner_index_start : ℕ
    pub inner_index_end : ℕ
    pub start_pos : Point reals
    pub end_pos : Point reals

  -- The position on a segment of that length, where the way covered up to its end is known.
  position_on : Point reals → Point reals → reals.Real → reals.Real → reals.Real → Point reals
  position_on p q dist covered bound =
      let lerp = reals.divide (reals.minus dist (reals.minus covered bound)) dist in
      plus_all reals p (times_all reals lerp (minus_all reals q p))

  reach_start : Bool → Point reals → ℕ → Walk → Walk
  reach_start false p i w = w
  reach_start true p i w = record w { start_reached = true; inner_index_start = i; start_pos = p }

  -- The loop, for the segment i from p on: both breaks end it.
  walk : reals.Real → Option reals.Real → ℕ → Point reals → List (Point reals) → Walk → Walk
  unfolding position_on reach_start
  walk start end i p [] w = w
  walk start none i p (q ∷ qs) w =
      let dist = geographic_distance_to reals p q in
      let covered = reals.plus w.covered_length dist in
      let here = not w.start_reached && reals.leq start covered in
      let started =
        reach_start here (position_on p q dist covered start) i
          (record w { covered_length = covered }) in
      let rest = walk start none (suc i) q qs started in if here then started else rest
  walk start (some end) i p (q ∷ qs) w =
      let dist = geographic_distance_to reals p q in
      let covered = reals.plus w.covered_length dist in
      let here = not w.start_reached && reals.leq start covered in
      let started =
        reach_start here (position_on p q dist covered start) i
          (record w { covered_length = covered }) in
      let rest = walk start (some end) (suc i) q qs started in
      if started.start_reached && reals.leq end covered
      then record started { inner_index_end = i; end_pos = position_on p q dist covered end }
      else rest

  abbrev at_first : Point reals → Walk
  at_first p = record {
    covered_length = reals.zero;
    start_reached = false;
    inner_index_start = 0;
    inner_index_end = 0;
    start_pos = p;
    end_pos = p;
  }

  range_of_walk : List (Point reals) → Walk → Result (List (Point reals))
  range_of_walk ps w =
      read_range ps (suc w.inner_index_start) (w.inner_index_end - w.inner_index_start) >>= λ inner.
      ok (w.start_pos ∷ (inner ++ (w.end_pos ∷ [])))

  -- Geometry::pointsFromLengthBound
  unfoldable pub points_from_length_bound :
      List (Point reals) → reals.Real → Option reals.Real → Result (List (Point reals))
  unfolding walk range_of_walk
  points_from_length_bound [] start end = raised
  points_from_length_bound (p ∷ ps) start none =
      ok ((walk start none 0 p ps (at_first p)).start_pos ∷ [])
  points_from_length_bound (p ∷ ps) start (some end) =
      if reals.less end start
      then range_of_walk (p ∷ ps) (walk end (some start) 0 p ps (at_first p))
      else range_of_walk (p ∷ ps) (walk start (some end) 0 p ps (at_first p))
