-- ===== src/Tile/Grid.antt =====
-- From grid coordinates to a tile: the integer end of TileId::fromWgs84.
use native.Mathlib.Nat.{pow-le-pow_right, mod-eq_of_lt, mod-lt, one-le-pow}
use mapget.Base.{ℕ, ◌+◌, ◌*◌, ◌%◌, ◌^◌, ◌≤◌, ◌<◌, ◌≡◌, arith}
use mapget.Base.Int.{ℤ}
use mapget.Tile.{z, abs, clamp_zoom, wrap_row, from_grid}
use mapget.Tile.Pack.{fields-pack}
use mapget.Tile.Neighbor.{IsTile}

wrap_row-lt : (rows : ℕ) (row : ℤ) → 0 < rows → wrap_row rows row < rows
unfolding wrap_row
wrap_row-lt rows row h =
    let small : abs row % (rows * 2) < rows * 2 = mod-lt _ (omega arith) in ground arith

pow-pos : (k : ℕ) → 0 < 2 ^ k
pow-pos k = one-le-pow k 2 (omega arith)

fits : (k : ℕ) → k ≤ 16 → 2 ^ k ≤ 2 ^ 16
fits k h = pow-le-pow_right {n = 2} (omega arith) {j = 16} h

clamp_zoom-eq : (zoom : ℕ) → zoom ≤ 62 → clamp_zoom zoom ≡ zoom
unfolding clamp_zoom
clamp_zoom-eq zoom h = omega arith

-- Every position, beyond the poles and round the earth, lands on a tile of the requested level's
-- grid, for levels up to 15.
from_grid-IsTile :
    (col : ℕ) (row : ℤ) (zoom : ℕ)
    → zoom ≤ 15
    → IsTile (from_grid col row zoom) × (z (from_grid col row zoom) ≡ zoom)
unfolding from_grid
from_grid-IsTile col row zoom h =
    let col' = col % 2 ^ (zoom + 1) in
    let row' = wrap_row (2 ^ zoom) row in
    let col_lt : col' < 2 ^ (zoom + 1) = mod-lt col (pow-pos (zoom + 1)) in
    let row_lt : row' < 2 ^ zoom = wrap_row-lt (2 ^ zoom) row (pow-pos zoom) in
    let col_fits = fits (zoom + 1) (omega arith) in
    let row_fits = fits zoom (omega arith) in
    let col_same : col' % 2 ^ 16 ≡ col' = mod-eq_of_lt (omega arith) in
    let row_same : row' % 2 ^ 16 ≡ row' = mod-eq_of_lt (omega arith) in
    let f = fields-pack col' row' zoom (omega arith) (omega arith) (omega arith) in
    rw (clamp_zoom-eq zoom (omega arith), col_same, row_same)
      (record { level = rw f.2 h; column = rw (f.0, f.2) col_lt; row = rw (f.1, f.2) row_lt }, f.2)
