-- ===== src/IdPart/Decimal.antt =====
-- Integers that are printed in decimal and parsed again as id parts.
use mapget.Base.{
  ℕ, zero, suc, ◌+◌, ◌-◌, ◌*◌, ◌/◌, ◌%◌, ◌^◌, ◌<◌, ◌≡◌, inl, inr, false, [], ◌∷◌, some, refl, sym,
  ap, ◌∙◌, ltb, ◌==◌, Bool-cases, arith,
}
use mapget.Base.Int.{ℤ, pos, negsuc, sub_ℕ}
use mapget.Base.Text.{Text}
use mapget.Base.Split.{Without}
use mapget.IdPart.{
  IdPart, IdPartDataType, i32, u32, i64, u64, uuid128, str, integer, text, validate, validate_as,
  parse_i64, decimal, decimal_digit, up_to,
}
use mapget.FeatureId.{digits_before, print_integer}

digit_lem : (d : ℕ) → d < 10 → decimal_digit (b'0' + d) ≡ some d
digit_lem d h = ground arith

decimal-digit :
    (v d : ℕ) (rest : Text) → d < 10 → decimal v ((b'0' + d) ∷ rest) ≡ decimal (v * 10 + d) rest
unfolding decimal
decimal-digit v d rest h = rw (decimal, digit_lem d h) refl

decimal-digits_before :
    (fuel n : ℕ) (rest : Text) → n < fuel → decimal 0 (digits_before fuel n rest) ≡ decimal n rest
unfolding digits_before
decimal-digits_before zero n rest h = absurd (omega arith)
decimal-digits_before (suc fuel) n rest h = elim (Bool-cases (ltb n 10)) [
  | inl e ↦
      rw (digits_before, e)
        (decimal-digit 0 (n % 10) rest (omega arith) ∙ ap (λ k. decimal k rest) (ground arith))
  | inr e ↦
      rw (digits_before, e)
        (decimal-digits_before fuel (n / 10) ((b'0' + n % 10) ∷ rest) (ground arith)
          ∙ decimal-digit (n / 10) (n % 10) rest (omega arith)
          ∙ ap (λ k. decimal k rest) (omega arith))
]

-- The first character is no sign.
first_digit :
    (fuel n : ℕ) (rest : Text)
    → n < fuel
    → (c : ℕ) × (cs : Text) × (digits_before fuel n rest ≡ c ∷ cs) × ((c == b'-') ≡ false)
unfolding digits_before
first_digit zero n rest h = absurd (omega arith)
first_digit (suc fuel) n rest h = elim (Bool-cases (ltb n 10)) [
  | inl e ↦ rw (digits_before, e) (b'0' + n % 10, rest, refl, ground arith)
  | inr e ↦
      rw (digits_before, e) (first_digit fuel (n / 10) ((b'0' + n % 10) ∷ rest) (ground arith))
]

parse_i64-unsigned :
    (c : ℕ) (cs : Text)
    → (c == b'-') ≡ false
    → parse_i64 (c ∷ cs) ≡ up_to (2 ^ 63 - 1) pos (decimal 0 (c ∷ cs))
unfolding parse_i64
parse_i64-unsigned c [] h = rw h refl
parse_i64-unsigned c (d ∷ ds) h = rw h refl

parse_i64-signed :
    (c : ℕ) (cs : Text)
    → parse_i64 (b'-' ∷ (c ∷ cs)) ≡ up_to (2 ^ 63) (sub_ℕ 0) (decimal 0 (c ∷ cs))
unfolding parse_i64
parse_i64-signed c cs = refl

-- The values of an int64_t.
abbrev pub IsI64 : ℤ → Type 0
IsI64 (pos n) = n < 2 ^ 63
IsI64 (negsuc n) = n < 2 ^ 63

fits_pos : (n : ℕ) → n < 2 ^ 63 → up_to (2 ^ 63 - 1) pos (some n) ≡ some (pos n)
fits_pos n h = ground arith

fits_negsuc : (n : ℕ) → n < 2 ^ 63 → up_to (2 ^ 63) (sub_ℕ 0) (some (suc n)) ≡ some (negsuc n)
fits_negsuc n h = ground arith

parse_digits :
    (t : Text) (n : ℕ)
    → (c : ℕ) × (cs : Text) × (t ≡ c ∷ cs) × ((c == b'-') ≡ false)
    → decimal 0 t ≡ some n
    → (n < 2 ^ 63 → parse_i64 t ≡ some (pos n))
      × (parse_i64 (b'-' ∷ t) ≡ up_to (2 ^ 63) (sub_ℕ 0) (some n))
parse_digits t n (c, cs, e, f) d =
    let whole = ap (decimal 0) (sym e) ∙ d in
    (
      λ h.
          ap parse_i64 e
          ∙ parse_i64-unsigned c cs f
          ∙ ap (up_to (2 ^ 63 - 1) pos) whole
          ∙ fits_pos n h,
      ap (λ u. parse_i64 (b'-' ∷ u)) e
          ∙ parse_i64-signed c cs
          ∙ ap (up_to (2 ^ 63) (sub_ℕ 0)) whole,
    )

pub parse_i64-print_integer : (z : ℤ) → IsI64 z → parse_i64 (print_integer z) ≡ some z
unfolding print_integer decimal
parse_i64-print_integer (pos n) h =
    (parse_digits _ n (first_digit (suc n) n [] (omega arith))
        (decimal-digits_before (suc n) n [] (omega arith))).0
      h
parse_i64-print_integer (negsuc n) h =
    (parse_digits _ (suc n) (first_digit (suc (suc n)) (suc n) [] (omega arith))
      (decimal-digits_before (suc (suc n)) (suc n) [] (omega arith))).1
    ∙ fits_negsuc n h

-- Digits are other characters than a dot.
digits_before-Without :
    (fuel n : ℕ) (rest : Text) → Without b'.' rest → Without b'.' (digits_before fuel n rest)
unfolding digits_before
digits_before-Without zero n rest h = h
digits_before-Without (suc fuel) n rest h = elim (Bool-cases (ltb n 10)) [
  | inl e ↦ rw (digits_before, e) (ground arith, h)
  | inr e ↦
      rw (digits_before, e)
        (digits_before-Without fuel (n / 10) ((b'0' + n % 10) ∷ rest) (ground arith, h))
]

pub print_integer-Without : (z : ℤ) → Without b'.' (print_integer z)
unfolding print_integer
print_integer-Without (pos n) = digits_before-Without (suc n) n [] tt
print_integer-Without (negsuc n) = (refl, digits_before-Without (suc (suc n)) (suc n) [] tt)

-- A text that parses as an integer is validated as the integer is.
validate_as-parse_i64 :
    (datatype : IdPartDataType) (t : Text) (z : ℤ)
    → parse_i64 t ≡ some z
    → validate_as datatype (integer z) ≡ some (integer z)
    → validate_as datatype (text t) ≡ some (integer z)
unfolding validate_as
validate_as-parse_i64 i32 t z e h = rw e h
validate_as-parse_i64 u32 t z e h = rw e h
validate_as-parse_i64 i64 t z e h = rw e h
validate_as-parse_i64 u64 t z e h = rw e h
validate_as-parse_i64 uuid128 t z e h = cc
validate_as-parse_i64 str t z e h = cc

pub validate-print_integer :
    (part : IdPart) (z : ℤ)
    → IsI64 z
    → validate part (integer z) ≡ some (integer z)
    → validate part (text (print_integer z)) ≡ some (integer z)
unfolding validate
validate-print_integer part z h e =
    validate_as-parse_i64 part.datatype (print_integer z) z (parse_i64-print_integer z h) e
