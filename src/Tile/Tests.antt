-- ===== src/Tile/Tests.antt =====
-- Runs of the tile functions.
use mapget.Base.{◌+◌, ◌*◌, ◌^◌, arith}
use mapget.Tile.{TileId, x, y, z}
use mapget.Tile.Neighbor.{IsTile}

-- Column 0 and row 3 of level 2, in the west of the last row.
abbrev west : TileId
west = record { value = 3 * 2 ^ 16 + 2 }

west-IsTile : IsTile west
unfolding x y z
west-IsTile = record { level = omega arith; column = omega arith; row = omega arith }
