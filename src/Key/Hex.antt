-- ===== src/Key/Hex.antt =====
-- Reading back a number that was printed in base 16.
use mapget.Base.{
  ℕ, ◌+◌, ◌*◌, ◌^◌, ◌<◌, ◌≡◌, ◌≢◌, true, false, [], ◌∷◌, refl, All, ◌==◌, length, Option, none,
  some, is_some, arith, ◌∙◌,
}
use mapget.Base.Text.{Text}
use mapget.Key.{hex_digit, hex_prefix, from_chars_hex}
use mapget.Base.Split.{Without}

abbrev pub IsHexDigit : ℕ → Type 0
IsHexDigit c = is_some (hex_digit c) ≡ true

abbrev pub digit_or_zero : Option ℕ → ℕ
digit_or_zero none = 0
digit_or_zero (some d) = d

-- The number that a text denotes in base 16.
unfoldable pub hex_value : ℕ → Text → ℕ
hex_value v [] = v
hex_value v (c ∷ cs) = hex_value (v * 16 + digit_or_zero (hex_digit c)) cs

-- What fmt documents of {:0x}: digits only, one at least, that denote the number.
pub record FormatsHex (hex : ℕ → Text) : Type 0 where
  pub nonempty : (n : ℕ) → hex n ≢ []
  pub digits : (n : ℕ) → All IsHexDigit (hex n)
  pub value : (n : ℕ) → n < 2 ^ 64 → hex_value 0 (hex n) ≡ n

digit-ne-colon : (c : ℕ) → IsHexDigit c → (c == b':') ≡ false
digit-ne-colon c h = ground arith

digits-Without : (s : Text) → All IsHexDigit s → Without b':' s
digits-Without [] h = tt
digits-Without (c ∷ cs) h = (digit-ne-colon c h.0, digits-Without cs h.1)

hex_prefix_lem :
    (v k : ℕ) (s : Text) → All IsHexDigit s → hex_prefix v k s ≡ (hex_value v s, k + length s)
unfolding hex_prefix hex_value
hex_prefix_lem v k [] h = ground arith
hex_prefix_lem v k (c ∷ cs) h =
    ground (arith, hex_prefix_lem (v * 16 + digit_or_zero (hex_digit c)) (k + 1) cs)

from_chars-digits :
    (old : ℕ) (s : Text)
    → s ≢ []
    → All IsHexDigit s
    → hex_value 0 s < 2 ^ 64
    → from_chars_hex old s ≡ hex_value 0 s
unfolding from_chars_hex
from_chars-digits old [] ne h lt = absurd (ne refl)
from_chars-digits old (c ∷ cs) ne h lt = rw (hex_prefix_lem 0 0 (c ∷ cs) h) (ground arith)

module _ {hex : ℕ → Text} (f : FormatsHex hex) where
  pub hex-Without : (n : ℕ) → Without b':' (hex n)
  hex-Without n = digits-Without (hex n) (f.digits n)

  pub from_chars-hex : (old n : ℕ) → n < 2 ^ 64 → from_chars_hex old (hex n) ≡ n
  from_chars-hex old n h =
      from_chars-digits old (hex n) (f.nonempty n) (f.digits n) (rw (f.value n h) h) ∙ f.value n h
