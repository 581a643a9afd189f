-- ===== src/Point.antt =====
-- libs/model: Point of include/mapget/model/point.h and src/point.cpp, over the operations on
-- floating point numbers that the language and glm give.
pub mod Sample
use mapget.Base.{ℕ, Bool, ◌&&◌}
use mapget.Base.Int.{ℤ}

-- double and float. `number` is the literal with those digits, of which so many are decimals; `max`
-- is std::numeric_limits<double>::max(), and `float_distance` is glm::distance of two vec2.
pub record Reals : Type 1 where
  pub Real : Type 0
  pub Float : Type 0
  pub zero : Real
  pub plus : Real → Real → Real
  pub minus : Real → Real → Real
  pub times : Real → Real → Real
  pub divide : Real → Real → Real
  pub less : Real → Real → Bool
  pub leq : Real → Real → Bool
  pub eq : Real → Real → Bool
  pub to_float : Real → Float
  pub to_double : Float → Real
  pub to_uint32 : Real → ℕ
  pub of_int : ℤ → Real
  pub number : ℕ → ℕ → Real
  pub max : Real
  pub float_distance : Float → Float → Float → Float → Float
  pub radians : Real → Real
  pub sin : Real → Real
  pub cos : Real → Real
  pub sqrt : Real → Real
  pub atan : Real → Real → Real

-- glm::dvec3 and glm::fvec3.
pub record Vec (R : Type 0) : Type 0 where
  pub x : R
  pub y : R
  pub z : R

module _ (reals : Reals) where
  abbrev pub Point : Type 0
  Point = Vec reals.Real

  abbrev pub Vertex : Type 0
  Vertex = Vec reals.Float

  -- The default constructor.
  abbrev pub origin : Point
  origin = record { x = reals.zero; y = reals.zero; z = reals.zero }

  -- The point that has only an x, of the offsets in one dimension.
  abbrev pub on_axis : reals.Real → Point
  on_axis v = record { x = v; y = reals.zero; z = reals.zero }

  -- The vertex that stands for a point, and the point that it stands for.
  unfoldable pub to_vertex : Point → Point → Vertex
  to_vertex offset p = record {
    x = reals.to_float (reals.minus p.x offset.x);
    y = reals.to_float (reals.minus p.y offset.y);
    z = reals.to_float (reals.minus p.z offset.z);
  }

  unfoldable pub of_vertex : Point → Vertex → Point
  of_vertex offset v = record {
    x = reals.plus offset.x (reals.to_double v.x);
    y = reals.plus offset.y (reals.to_double v.y);
    z = reals.plus offset.z (reals.to_double v.z);
  }

  -- Point::operator==
  unfoldable pub point_eq : Point → Point → Bool
  point_eq p q = reals.eq p.x q.x && (reals.eq p.y q.y && reals.eq p.z q.z)

  abbrev pub plus_all : Point → Point → Point
  plus_all p q = record { x = reals.plus p.x q.x; y = reals.plus p.y q.y; z = reals.plus p.z q.z }

  abbrev pub minus_all : Point → Point → Point
  minus_all p q = record {
    x = reals.minus p.x q.x;
    y = reals.minus p.y q.y;
    z = reals.minus p.z q.z;
  }

  abbrev pub times_all : reals.Real → Point → Point
  times_all t p = record { x = reals.times t p.x; y = reals.times t p.y; z = reals.times t p.z }

  -- Point::geographicDistanceTo
  unfoldable pub geographic_distance_to : Point → Point → reals.Real
  geographic_distance_to p other =
      let half = reals.number 5 1 in
      let d_lat = reals.times (reals.radians (reals.minus other.y p.y)) half in
      let d_lon = reals.times (reals.radians (reals.minus other.x p.x)) half in
      let lat = reals.times (reals.sin d_lat) (reals.sin d_lat) in
      let cosines =
        reals.times (reals.cos (reals.radians p.y)) (reals.cos (reals.radians other.y)) in
      let a =
        reals.plus lat (reals.times (reals.times cosines (reals.sin d_lon)) (reals.sin d_lon)) in
      let rest = reals.sqrt (reals.minus (reals.number 1 0) a) in
      let c = reals.times (reals.number 2 0) (reals.atan (reals.sqrt a) rest) in
      reals.times (reals.number 63710008 1) c
