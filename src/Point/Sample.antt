-- ===== src/Point/Sample.antt =====
-- Integers in the place of floating point numbers, for the tests: what is rounded is cut off, and the
-- angles stand for themselves.
use mapget.Base.{ℕ, ◌+◌, ◌*◌, ◌/◌, false, not, if◌then◌else◌}
use mapget.Base.Int.{ℤ, pos, pos_part, neg_part, sub_ℕ, ltb_ℤ}
use mapget.Point.{Reals, Point}

abbrev plus_ℤ : ℤ → ℤ → ℤ
plus_ℤ a b = sub_ℕ (pos_part a + pos_part b) (neg_part a + neg_part b)

abbrev minus_ℤ : ℤ → ℤ → ℤ
minus_ℤ a b = sub_ℕ (pos_part a + neg_part b) (neg_part a + pos_part b)

abbrev times_ℤ : ℤ → ℤ → ℤ
times_ℤ a b =
    sub_ℕ (pos_part a * pos_part b + neg_part a * neg_part b)
      (pos_part a * neg_part b + neg_part a * pos_part b)

abbrev pub integers : Reals
integers = record {
  Real = ℤ;
  Float = ℤ;
  zero = pos 0;
  plus = plus_ℤ;
  minus = minus_ℤ;
  times = times_ℤ;
  divide = λ a b. sub_ℕ (pos_part a / pos_part b) (neg_part a / pos_part b);
  less = ltb_ℤ;
  leq = λ a b. not (ltb_ℤ b a);
  eq = λ a b. if ltb_ℤ a b then false else not (ltb_ℤ b a);
  to_float = λ a. a;
  to_double = λ a. a;
  to_uint32 = pos_part;
  of_int = λ a. a;
  number = λ digits decimals. pos digits;
  max = pos 1000000;
  float_distance = λ ax ay bx by'.
      plus_ℤ (times_ℤ (minus_ℤ ax bx) (minus_ℤ ax bx)) (times_ℤ (minus_ℤ ay by') (minus_ℤ ay by'));
  radians = λ a. a;
  sin = λ a. a;
  cos = λ a. a;
  sqrt = λ a. a;
  atan = λ a b. a;
}

-- A point of the plane.
abbrev pub at_xy : ℕ → ℕ → Point integers
at_xy x y = record { x = pos x; y = pos y; z = pos 0 }
