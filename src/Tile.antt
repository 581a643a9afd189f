-- ===== src/Tile.antt =====
-- libs/model: include/mapget/model/tileid.h and src/tileid.cpp, the integer part.
-- A tile id is one uint64_t. The uint16_t casts are `% 2 ^ 16`, shifts are `*` and `/` by powers.
pub mod Pack
pub mod Neighbor
pub mod Grid
pub mod Tests
use Prim.Native.Nat.{bit_or, bit_and, min}
use mapget.Base.{
  ℕ, ◌+◌, ◌-◌, ◌*◌, ◌/◌, ◌%◌, ◌^◌, Bool, ◌&&◌, ◌||◌, Option, none, some, ltb, ◌==◌, if◌then◌else◌,
  false,
}
use mapget.Base.Int.{ℤ, pos, negsuc, ltb_ℤ}

pub record TileId : Type 0 where
  pub value : ℕ

-- TileId(uint16_t x, uint16_t y, uint16_t z)
pub pack : ℕ → ℕ → ℕ → TileId
pack x y z = record { value = bit_or (bit_or (x * 2 ^ 32) (y * 2 ^ 16)) z }

pub x : TileId → ℕ
x t = t.value / 2 ^ 32 % 2 ^ 16

pub y : TileId → ℕ
y t = t.value / 2 ^ 16 % 2 ^ 16

pub z : TileId → ℕ
z t = t.value % 2 ^ 16

pub equals : TileId → TileId → Bool
equals s t = s.value == t.value

pub less : TileId → TileId → Bool
less s t = ltb s.value t.value

-- An offset is -1, 0 or 1 where the guard lets it pass.
abbrev abs : ℤ → ℕ
abs (pos n) = n
abs (negsuc n) = n + 1

-- uint16_t resultX += offsetX
abbrev add16 : ℕ → ℤ → ℕ
add16 a (pos n) = (a + n) % 2 ^ 16
add16 a (negsuc n) = (a + (2 ^ 32 - n - 1)) % 2 ^ 16

abbrev is_back : ℤ → Bool
is_back (pos n) = false
is_back (negsuc n) = n == 0

abbrev is_forward : ℤ → Bool
is_forward (pos n) = n == 1
is_forward (negsuc n) = false

-- The column step. `max_col` is an int64_t; the assignment to resultX keeps its low 16 bits.
pub step_x : ℕ → ℕ → ℤ → ℕ
step_x max_col col d =
    if is_back d && col == 0
    then max_col % 2 ^ 16
    else (if is_forward d && col == max_col then 0 else add16 col d)

-- The row step: no movement beyond the first and the last row.
pub step_y : ℕ → ℕ → ℤ → ℕ
step_y max_row row d =
    if is_back d && ltb 0 row || is_forward d && ltb row max_row then add16 row d else row

-- TileId::neighbor; `none` is the exception. The shifts are defined in the source for z() <= 62.
pub neighbor : TileId → ℤ → ℤ → Option TileId
neighbor t dx dy =
    if ltb 1 (abs dx) || ltb 1 (abs dy)
    then none
    else some (pack (step_x (2 ^ (z t + 1) - 1) (x t) dx) (step_y (2 ^ z t - 1) (y t) dy) (z t))

-- TileId::fromWgs84 behind its two floating-point quotients, whose integer parts are col and row.
-- The column has passed fmod and the correction by LON_EXTENT, so it is not negative.
pub clamp_zoom : ℕ → ℕ
clamp_zoom zoom = min 62 zoom

-- y %= numRows * 2; y = abs(y): C++ keeps the sign of the dividend, so this is |row| modulo.
pub wrap_row : ℕ → ℤ → ℕ
wrap_row rows row = let r = abs row % (rows * 2) in if ltb r rows then r else rows - (r - rows) - 1

pub from_grid : ℕ → ℤ → ℕ → TileId
from_grid col row zoom =
    let level = clamp_zoom zoom in
    pack (col % 2 ^ (level + 1) % 2 ^ 16) (wrap_row (2 ^ level) row % 2 ^ 16) level
