-- ===== src/Tile/Neighbor.antt =====
-- Neighbours of a tile: which offsets are accepted, and where they lead.
use native.Mathlib.Nat.{pow-le-pow_right, mod-eq_of_lt, mod-lt}
use mathlib.Core.Option
use mapget.Base.{
  ℕ, zero, suc, ◌+◌, ◌-◌, ◌%◌, ◌^◌, ◌≤◌, ◌<◌, ◌≡◌, ◌↔◌, ◌⊎◌, inl, inr, false, refl, ap, ◌∙◌, none,
  some, arith, ltb, ◌==◌, Bool-cases, true,
}
use mapget.Base.Int.{ℤ, pos, negsuc}
use mapget.Tile.{TileId, pack, x, y, z, abs, step_x, step_y, neighbor}
use mapget.Tile.Pack.{fields-pack, pack-fields}

-- A tile of the grid of its zoom level, where the grid fits the 16-bit fields.
pub record IsTile (t : TileId) : Type 0 where
  pub level : z t ≤ 15
  pub column : x t < 2 ^ (z t + 1)
  pub row : y t < 2 ^ z t

pub data Offset : Type 0 where
  back stay forward : Offset

abbrev pub to_ℤ : Offset → ℤ
to_ℤ back = negsuc 0
to_ℤ stay = pos 0
to_ℤ forward = pos 1

-- Columns go round the earth.
abbrev pub turn : ℕ → ℕ → Offset → ℕ
turn cols col back = (col + cols - 1) % cols
turn cols col stay = col
turn cols col forward = (col + 1) % cols

-- Rows end at the poles.
abbrev pub climb : ℕ → ℕ → Offset → ℕ
climb rows row back = row - 1
climb rows row stay = row
climb rows row forward = Prim.Native.Nat.min (row + 1) (rows - 1)

-- A tile with given fields.
pub record At (t : TileId) (col row level : ℕ) : Type 0 where
  pub column : x t ≡ col
  pub row_is : y t ≡ row
  pub level_is : z t ≡ level

mod-add_self : (a n : ℕ) → a < n → (a + n) % n ≡ a
mod-add_self a n h = grind arith

mod-below : (n a : ℕ) → a < n → a % n ≡ a
mod-below n a h = mod-eq_of_lt h

turn-back : (cols col : ℕ) → col < cols → turn cols (col + 1) back ≡ col
turn-back cols col h = rw (regroup cols col) (mod-add_self col cols h)
  where
    regroup : (cols col : ℕ) → col + 1 + cols - 1 ≡ col + cols
    regroup cols col = omega arith

step_x-turn :
    (cols col : ℕ) (d : Offset)
    → cols ≤ 2 ^ 16
    → col < cols
    → step_x (cols - 1) col (to_ℤ d) ≡ turn cols col d
unfolding step_x
step_x-turn cols zero back h lt = ground (arith, mod-below cols (cols - 1))
step_x-turn cols (suc col) back h lt = ground (arith, turn-back cols col)
step_x-turn cols col stay h lt = ground arith
step_x-turn cols col forward h lt = elim (Bool-cases (col == cols - 1)) [
  | inl e ↦ ground (arith, mod-add_self 0 cols)
  | inr e ↦ ground (arith, mod-below cols (col + 1))
]

step_y-climb :
    (rows row : ℕ) (d : Offset)
    → rows ≤ 2 ^ 16
    → row < rows
    → step_y (rows - 1) row (to_ℤ d) ≡ climb rows row d
unfolding step_y
step_y-climb rows row back h lt = ground arith
step_y-climb rows row stay h lt = ground arith
step_y-climb rows row forward h lt = ground arith

columns-le : (level : ℕ) → level ≤ 15 → 2 ^ (level + 1) ≤ 2 ^ 16
columns-le level h = pow-le-pow_right {n = 2} (omega arith) {j = 16} (omega arith)

rows-le : (level : ℕ) → level ≤ 15 → 2 ^ level ≤ 2 ^ 16
rows-le level h = pow-le-pow_right {n = 2} (omega arith) {j = 16} (omega arith)

turn-lt : (cols col : ℕ) (d : Offset) → col < cols → turn cols col d < cols
turn-lt cols col back h = mod-lt _ (omega arith)
turn-lt cols col stay h = h
turn-lt cols col forward h = mod-lt _ (omega arith)

climb-lt : (rows row : ℕ) (d : Offset) → row < rows → climb rows row d < rows
climb-lt rows row back h = omega arith
climb-lt rows row stay h = omega arith
climb-lt rows row forward h = omega arith

abs-le : (d : Offset) → ltb 1 (abs (to_ℤ d)) ≡ false
abs-le back = refl
abs-le stay = refl
abs-le forward = refl

step_x-tile :
    (t : TileId) (d : Offset)
    → IsTile t
    → step_x (2 ^ (z t + 1) - 1) (x t) (to_ℤ d) ≡ turn (2 ^ (z t + 1)) (x t) d
step_x-tile t d v = step_x-turn _ (x t) d (columns-le (z t) v.level) v.column

step_y-tile :
    (t : TileId) (d : Offset)
    → IsTile t
    → step_y (2 ^ z t - 1) (y t) (to_ℤ d) ≡ climb (2 ^ z t) (y t) d
step_y-tile t d v = step_y-climb _ (y t) d (rows-le (z t) v.level) v.row

neighbor-pack :
    (t : TileId) (dx dy : Offset)
    → IsTile t
    → neighbor t (to_ℤ dx) (to_ℤ dy)
      ≡ some (pack (turn (2 ^ (z t + 1)) (x t) dx) (climb (2 ^ z t) (y t) dy) (z t))
unfolding neighbor
neighbor-pack t dx dy v = rw (abs-le dx, abs-le dy, step_x-tile t dx v, step_y-tile t dy v)

-- On the grid of a level up to 15, the neighbour by offsets in -1..1 exists, is again a tile of
-- that level's grid, has the column turned by dx modulo the number of columns, and the row moved
-- by dy and stopped at the first and the last row.
neighbor_lem :
    (t : TileId) (dx dy : Offset)
    → IsTile t
    → (u : TileId) × (neighbor t (to_ℤ dx) (to_ℤ dy) ≡ some u)
      × IsTile u
      × (x u ≡ turn (2 ^ (z t + 1)) (x t) dx)
      × (y u ≡ climb (2 ^ z t) (y t) dy)
      × (z u ≡ z t)
neighbor_lem t dx dy v =
    let col = turn (2 ^ (z t + 1)) (x t) dx in
    let row = climb (2 ^ z t) (y t) dy in
    let col_lt = turn-lt (2 ^ (z t + 1)) (x t) dx v.column in
    let row_lt = climb-lt (2 ^ z t) (y t) dy v.row in
    let cols = columns-le (z t) v.level in
    let rows = rows-le (z t) v.level in
    let f = fields-pack col row (z t) (omega arith) (omega arith) (omega arith) in
    (
      pack col row (z t),
      neighbor-pack t dx dy v,
      record { level = rw f.2 v.level; column = rw (f.0, f.2) col_lt; row = rw (f.1, f.2) row_lt },
      f.0,
      f.1,
      f.2,
    )

abbrev pub IsOffset : ℤ → Type 0
IsOffset d = (d ≡ negsuc 0) ⊎ ((d ≡ pos 0) ⊎ (d ≡ pos 1))

refused→not-IsOffset : (d : ℤ) → ltb 1 (abs d) ≡ true → ¬ IsOffset d
refused→not-IsOffset d h (inl e) = ground arith
refused→not-IsOffset d h (inr (inl e)) = ground arith
refused→not-IsOffset d h (inr (inr e)) = ground arith

accepted→IsOffset : (d : ℤ) → ltb 1 (abs d) ≡ false → IsOffset d
accepted→IsOffset (pos zero) h = inr (inl refl)
accepted→IsOffset (pos (suc zero)) h = inr (inr refl)
accepted→IsOffset (pos (suc (suc n))) h = absurd (ground arith)
accepted→IsOffset (negsuc zero) h = inl refl
accepted→IsOffset (negsuc (suc n)) h = absurd (ground arith)

-- The exception is raised exactly when one of the offsets is not -1, 0 or 1, at every tile id.
neighbor-eq-none :
    (t : TileId) (dx dy : ℤ) → (neighbor t dx dy ≡ none) ↔ ((¬ IsOffset dx) ⊎ (¬ IsOffset dy))
unfolding neighbor
neighbor-eq-none t dx dy = elim (Bool-cases (ltb 1 (abs dx))) [
  | inl e ↦ ground (arith, refused→not-IsOffset dx)
  | inr e ↦ elim (Bool-cases (ltb 1 (abs dy))) [
    | inl k ↦ ground (arith, refused→not-IsOffset dy)
    | inr k ↦ ground (arith, accepted→IsOffset dx, accepted→IsOffset dy)
  ]
]

abbrev pub opposite : Offset → Offset
opposite back = forward
opposite stay = stay
opposite forward = back

turn-back_zero : (cols : ℕ) → 0 < cols → turn cols 0 back ≡ cols - 1
turn-back_zero cols h = ground (arith, mod-below cols (cols - 1))

turn-forward_last : (cols : ℕ) → 0 < cols → turn cols (cols - 1) forward ≡ 0
turn-forward_last cols h = ground (arith, mod-add_self 0 cols)

turn-forward : (cols col : ℕ) → suc col < cols → turn cols col forward ≡ suc col
turn-forward cols col h = ground (arith, mod-below cols (col + 1))

turn-back_suc : (cols col : ℕ) → col < cols → turn cols (suc col) back ≡ col
turn-back_suc cols col h = ground (arith, turn-back cols col)

turn-opposite :
    (cols col : ℕ) (d : Offset) → col < cols → turn cols (turn cols col d) (opposite d) ≡ col
turn-opposite cols zero back h =
    ap (λ c. turn cols c forward) (turn-back_zero cols h) ∙ turn-forward_last cols h
turn-opposite cols (suc col) back h =
    ap (λ c. turn cols c forward) (turn-back_suc cols col (omega arith)) ∙ turn-forward cols col h
turn-opposite cols col stay h = refl
turn-opposite cols col forward h = elim (Bool-cases (col == cols - 1)) [
  | inl e ↦
      let last : col ≡ cols - 1 = ground arith in
      rw last (
        ap (λ c. turn cols c back) (turn-forward_last cols (omega arith))
        ∙ turn-back_zero cols (omega arith))
  | inr e ↦
      ap (λ c. turn cols c back) (turn-forward cols col (ground arith)) ∙ turn-back_suc cols col h
]

-- On the grid of a level up to 15, a step to the east or to the west is undone by the step back.
neighbor-neighbor :
    (t : TileId) (d : Offset)
    → IsTile t
    → t.value < 2 ^ 48
    → Option.bind (neighbor t (to_ℤ d) (pos 0)) (λ u. neighbor u (to_ℤ (opposite d)) (pos 0))
      ≡ some t
unfolding Option.bind
neighbor-neighbor t d v small =
    let (u, there, tile, cx, ry, lv) = neighbor_lem t d stay v in
    let returned = turn-opposite (2 ^ (z t + 1)) (x t) d v.column in
    let same : pack (x t) (y t) (z t) ≡ t = λ i. record { value = pack-fields t small i } in
    rw there (neighbor-pack u (opposite d) stay tile ∙ ap some (rw (lv, cx, ry, returned) same))
