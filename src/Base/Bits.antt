-- ===== src/Base/Bits.antt =====
-- `|` of fields that do not overlap is their sum.
use Prim.Native.Nat.{
  ℕ, zero, suc, ◌+◌, ◌*◌, ◌/◌, ◌%◌, ◌^◌, ◌≤◌, ◌<◌, max, digits, bit_or, bit_or-bitwise,
}
use mathlib.Core.Path.{◌≡◌, refl, ap}
use native.Mathlib.Nat.{pow-suc}
use native.Mathlib.Omega.{arith}

-- The digit recursion that `bit_or` stands for, with its fuel as an argument.
abbrev or_digits : ℕ → ℕ → ℕ → ℕ
or_digits fuel a b = digits (λ y. y) max fuel a b

-- Fuel beyond the left operand changes nothing.
or_digits-fuel : (m n a b : ℕ) → a ≤ m → a ≤ n → or_digits m a b ≡ or_digits n a b
or_digits-fuel zero zero a b h k = refl
or_digits-fuel zero (suc n) zero b h k = refl
or_digits-fuel zero (suc n) (suc a) b h k = absurd (omega arith)
or_digits-fuel (suc m) zero zero b h k = refl
or_digits-fuel (suc m) zero (suc a) b h k = absurd (omega arith)
or_digits-fuel (suc m) (suc n) zero b h k = refl
or_digits-fuel (suc m) (suc n) (suc a) b h k =
    omega (arith, or_digits-fuel m n (suc a / 2) (b / 2) (omega arith) (omega arith))

zero-bit_or : (b : ℕ) → bit_or 0 b ≡ b
zero-bit_or b = bit_or-bitwise 0 b

bit_or-halves : (a b : ℕ) → bit_or a b ≡ bit_or (a / 2) (b / 2) * 2 + max (a % 2) (b % 2)
bit_or-halves zero b = omega (arith, zero-bit_or b, zero-bit_or (b / 2))
bit_or-halves (suc a) b = omega (
  arith,
  bit_or-bitwise (suc a) b,
  bit_or-bitwise (suc a / 2) (b / 2),
  or_digits-fuel a (suc a / 2) (suc a / 2) (b / 2) (omega arith) (omega arith),
)

bit_or-zero_fuel : (n a : ℕ) → a ≤ n → bit_or a 0 ≡ a
bit_or-zero_fuel n zero h = refl
bit_or-zero_fuel zero (suc a) h = absurd (omega arith)
bit_or-zero_fuel (suc n) (suc a) h =
    omega (arith, bit_or-halves (suc a) 0, bit_or-zero_fuel n (suc a / 2) (omega arith))

twice_pow : (k hi : ℕ) → hi * 2 ^ suc k ≡ hi * 2 ^ k * 2
twice_pow k hi = omega (arith, ap (λ (p : ℕ). hi * p) (pow-suc 2 k))

-- (hi << k) | lo, where lo fits k bits.
pub bit_or-disjoint : (k hi lo : ℕ) → lo < 2 ^ k → bit_or (hi * 2 ^ k) lo ≡ hi * 2 ^ k + lo
bit_or-disjoint zero hi zero h = ground (arith, bit_or-zero_fuel hi hi)
bit_or-disjoint zero hi (suc lo) h = absurd (omega arith)
bit_or-disjoint (suc k) hi lo h = ground (
  arith,
  twice_pow k hi,
  pow-suc 2 k,
  bit_or-halves (hi * 2 ^ suc k) lo,
  bit_or-disjoint k hi (lo / 2),
)
