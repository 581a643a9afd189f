-- ===== src/Tile/Pack.antt =====
-- The three fields of a tile id and the order of tile ids.
use Prim.Native.Nat.{bit_or}
use mapget.Base.{ℕ, ◌+◌, ◌*◌, ◌/◌, ◌%◌, ◌^◌, ◌<◌, ◌≡◌, ◌↔◌, ◌⊎◌, true, arith}
use mapget.Base.Bits.{bit_or-disjoint}
use mapget.Tile.{TileId, pack, x, y, z, less}

abbrev pub IsU16 : ℕ → Type 0
IsU16 n = n < 2 ^ 16

-- The two upper fields, as the multiple of 2 ^ 16 that the third is or-ed to.
upper : (a b : ℕ) → IsU16 b → bit_or (a * 2 ^ 32) (b * 2 ^ 16) ≡ (a * 2 ^ 16 + b) * 2 ^ 16
upper a b hb = omega (arith, bit_or-disjoint 32 a (b * 2 ^ 16) (omega arith))

pub value-pack : (a b c : ℕ) → IsU16 b → IsU16 c → (pack a b c).value ≡ a * 2 ^ 32 + b * 2 ^ 16 + c
unfolding pack
value-pack a b c hb hc = rw (upper a b hb) (omega (arith, bit_or-disjoint 16 (a * 2 ^ 16 + b) c hc))

-- Packing three uint16_t values loses none of them.
pub fields-pack :
    (a b c : ℕ)
    → IsU16 a
    → IsU16 b
    → IsU16 c
    → (x (pack a b c) ≡ a) × (y (pack a b c) ≡ b) × (z (pack a b c) ≡ c)
unfolding x y z
fields-pack a b c ha hb hc = omega (arith, value-pack a b c hb hc)

-- A value whose upper 16 bits are clear is the pack of its own three fields.
pub pack-fields : (t : TileId) → t.value < 2 ^ 48 → (pack (x t) (y t) (z t)).value ≡ t.value
unfolding x y z
pack-fields t h = omega (
  arith,
  value-pack (t.value / 2 ^ 32 % 2 ^ 16) (t.value / 2 ^ 16 % 2 ^ 16) (t.value % 2 ^ 16)
      (omega arith) (omega arith),
)

abbrev pub LexLess : TileId → TileId → Type 0
LexLess s t = (x s < x t) ⊎ ((x s ≡ x t) × ((y s < y t) ⊎ ((y s ≡ y t) × (z s < z t))))

-- Tile ids below 2 ^ 48 are ordered by column, then by row, then by zoom level.
less-LexLess :
    (s t : TileId) → s.value < 2 ^ 48 → t.value < 2 ^ 48 → (less s t ≡ true) ↔ LexLess s t
unfolding less x y z
less-LexLess s t hs ht = ground arith
