-- ===== src/IdPart/Validate.antt =====
-- Which values an id part accepts, and what it turns them into.
use mapget.Base.{
  ℕ, ◌-◌, ◌^◌, ◌≡◌, Option, none, some, arith, length, ◌==◌, refl, [], ◌∷◌, ◌∙◌, Bool-cases, inl,
  inr,
}
use mapget.Base.Int.{ℤ, pos, negsuc, ◌≤ℤ◌, sub_ℕ}
use mapget.Base.Text.{Text}
use mapget.IdPart.{
  IdPart, IdPartDataType, i32, u32, i64, u64, uuid128, str, Value, integer, text, validate,
  validate_as, parse_i64, int_value, expect_integer, up_to, decimal,
}

-- The values of a data type, as its name promises them.
abbrev pub InRange : IdPartDataType → Value → Type 0
InRange i32 (integer n) = (negsuc (2 ^ 31 - 1) ≤ℤ n) × (n ≤ℤ pos (2 ^ 31 - 1))
InRange u32 (integer n) = (pos 0 ≤ℤ n) × (n ≤ℤ pos (2 ^ 32 - 1))
InRange i64 (integer n) = (negsuc (2 ^ 63 - 1) ≤ℤ n) × (n ≤ℤ pos (2 ^ 63 - 1))
InRange u64 (integer n) = (pos 0 ≤ℤ n) × (n ≤ℤ pos (2 ^ 64 - 1))
InRange uuid128 (text t) = length t ≡ 16
InRange str (text t) = Unit
InRange _ _ = ⊥

expect_integer-bounds :
    (lo hi : ℤ) (o : Option ℤ) (w : Value)
    → expect_integer lo hi o ≡ some w
    → (n : ℤ) × (o ≡ some n) × (w ≡ integer n) × (lo ≤ℤ n) × (n ≤ℤ hi)
expect_integer-bounds lo hi none w h = cc
expect_integer-bounds lo hi (some n) w h = (n, refl, ground arith, ground arith, ground arith)

expect_integer-in :
    (lo hi n : ℤ) → lo ≤ℤ n → n ≤ℤ hi → expect_integer lo hi (some n) ≡ some (integer n)
expect_integer-in lo hi n h k = ground arith

-- The four integer types share this step: `P` is the range, `again` a second validation.
integers :
    (d : IdPartDataType) (lo hi : ℤ) (o : Option ℤ) (w : Value)
    → ((n : ℤ) → lo ≤ℤ n → n ≤ℤ hi → InRange d (integer n))
    → ((n : ℤ) → validate_as d (integer n) ≡ expect_integer lo hi (some n))
    → expect_integer lo hi o ≡ some w
    → InRange d w × (validate_as d w ≡ some w)
integers d lo hi o w range again h =
    let (n, _, is_n, low, high) = expect_integer-bounds lo hi o w h in
    rw is_n (range n low high, again n ∙ expect_integer-in lo hi n low high)

-- What validation turns a value into: integers stay, texts become integers where one is expected.
validate_as-InRange :
    (d : IdPartDataType) (v w : Value)
    → validate_as d v ≡ some w
    → InRange d w × (validate_as d w ≡ some w)
unfolding validate_as
validate_as-InRange i32 v w h =
    integers i32 (negsuc (2 ^ 31 - 1)) (pos (2 ^ 31 - 1)) (int_value v) w
      (λ n low high. (low, high)) (λ n. refl) h
validate_as-InRange u32 v w h =
    integers u32 (pos 0) (pos (2 ^ 32 - 1)) (int_value v) w (λ n low high. (low, high)) (λ n. refl)
      h
validate_as-InRange i64 v w h =
    integers i64 (negsuc (2 ^ 63 - 1)) (pos (2 ^ 63 - 1)) (int_value v) w
      (λ n low high. (low, high)) (λ n. refl) h
validate_as-InRange u64 v w h =
    integers u64 (pos 0) (pos (2 ^ 64 - 1)) (int_value v) w (λ n low high. (low, high)) (λ n. refl)
      h
validate_as-InRange uuid128 (integer n) w h = cc
validate_as-InRange uuid128 (text t) w h = ground arith
validate_as-InRange str (integer n) w h = cc
validate_as-InRange str (text t) w h = ground arith

-- A value that validation accepts is left in the range of the part's data type, and validates again
-- to itself.
pub validate-InRange :
    (part : IdPart) (v w : Value)
    → validate part v ≡ some w
    → InRange part.datatype w × (validate part w ≡ some w)
unfolding validate
validate-InRange part v w h = validate_as-InRange part.datatype v w h

up_to-le : (limit : ℕ) (o : Option ℕ) (n : ℤ) → up_to limit pos o ≡ some n → n ≤ℤ pos limit
up_to-le limit none n h = cc
up_to-le limit (some v) n h = ground arith

up_to-negative : (limit : ℕ) (o : Option ℕ) (n : ℤ) → up_to limit (sub_ℕ 0) o ≡ some n → n ≤ℤ pos 0
up_to-negative limit none n h = cc
up_to-negative limit (some v) n h = ground arith

parse_i64-le : (t : Text) (n : ℤ) → parse_i64 t ≡ some n → n ≤ℤ pos (2 ^ 63 - 1)
unfolding parse_i64
parse_i64-le [] n h = cc
parse_i64-le (c ∷ []) n h = elim (Bool-cases (c == b'-')) [
  | inl e ↦ cc (rw e at h)
  | inr e ↦ up_to-le (2 ^ 63 - 1) (decimal 0 (c ∷ [])) n (rw e at h)
]
parse_i64-le (c ∷ d ∷ ds) n h = elim (Bool-cases (c == b'-')) [
  | inl e ↦ omega (arith, up_to-negative (2 ^ 63) (decimal 0 (d ∷ ds)) n (rw e at h))
  | inr e ↦ up_to-le (2 ^ 63 - 1) (decimal 0 (c ∷ d ∷ ds)) n (rw e at h)
]

-- A part of type U64 refuses every text for a number above the greatest int64_t: what it accepts of
-- a text is at most 2 ^ 63 - 1.
validate-u64_text :
    (part : IdPart) (t : Text) (w : Value)
    → part.datatype ≡ u64
    → validate part (text t) ≡ some w
    → (n : ℤ) × (w ≡ integer n) × (parse_i64 t ≡ some n) × (n ≤ℤ pos (2 ^ 63 - 1))
unfolding validate
validate-u64_text part t w is_u64 h =
    let (n, parsed, is_n, _, _) =
      expect_integer-bounds (pos 0) (pos (2 ^ 64 - 1)) (parse_i64 t) w (rw is_u64 at h) in
    (n, is_n, parsed, parse_i64-le t n parsed)
