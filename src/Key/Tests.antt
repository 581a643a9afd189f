-- ===== src/Key/Tests.antt =====
-- Runs of the key functions, with a rendering of hexadecimal numbers for the one of fmt.
use native.Mathlib.Nat.{pow-suc}
use mapget.Base.{
  ℕ, zero, suc, ◌+◌, ◌-◌, ◌*◌, ◌/◌, ◌%◌, ◌^◌, ◌<◌, ◌≡◌, ◌≢◌, List, [], ◌∷◌, ◌++◌, refl, All, ltb,
  if◌then◌else◌, arith, none, Bool-cases, ◌∙◌, ltb→lt, inl, inr,
}
use mapget.Base.Split.{split_at, attach}
use mapget.Base.Text.{Text, codes, text_eq}
use mapget.Key.{
  LayerType, features, source_data, heightmap, MapTileKey, to_string, parse, hex_digit, layer_name,
  parse_parts,
}
use mapget.Key.Hex.{FormatsHex, IsHexDigit, hex_value, digit_or_zero}
use mapget.Key.RoundTrip.{IsPlain}

digit_char : ℕ → ℕ
digit_char d = if ltb d 10 then b'0' + d else b'a' + d - 10

-- At most `fuel + 1` digits, the least significant one last.
hex_digits : ℕ → ℕ → Text
hex_digits zero n = digit_char (n % 16) ∷ []
hex_digits (suc fuel) n =
    let high = hex_digits fuel (n / 16) in
    if ltb n 16 then digit_char (n % 16) ∷ [] else high ++ (digit_char (n % 16) ∷ [])

pub hex : ℕ → Text
unfolding hex_digits digit_char
hex = hex_digits 15

hex_value-append :
    (v : ℕ) (s : Text) (c : ℕ)
    → hex_value v (s ++ (c ∷ [])) ≡ hex_value v s * 16 + digit_or_zero (hex_digit c)
unfolding hex_value
hex_value-append v [] c = refl
hex_value-append v (d ∷ s) c = hex_value-append (v * 16 + digit_or_zero (hex_digit d)) s c

digit_char-IsHexDigit : (d : ℕ) → d < 16 → IsHexDigit (digit_char d)
unfolding digit_char
digit_char-IsHexDigit d h = ground arith

digit_char-value : (d : ℕ) → d < 16 → digit_or_zero (hex_digit (digit_char d)) ≡ d
unfolding digit_char
digit_char-value d h = ground arith

All-append : {A : Type 0} (P : A → Type 0) (xs ys : List A) → All P xs → All P ys → All P (xs ++ ys)
All-append P [] ys h k = k
All-append P (x ∷ xs) ys h k = (h.0, All-append P xs ys h.1 k)

hex_digits-digits : (fuel n : ℕ) → All IsHexDigit (hex_digits fuel n)
unfolding hex_digits
hex_digits-digits zero n = (digit_char-IsHexDigit (n % 16) (omega arith), tt)
hex_digits-digits (suc fuel) n =
    let last : All IsHexDigit (digit_char (n % 16) ∷ []) =
      (digit_char-IsHexDigit (n % 16) (omega arith), tt) in
    elim (Bool-cases (ltb n 16)) [
      | inl e ↦ rw e last
      | inr e ↦ rw e (All-append IsHexDigit _ _ (hex_digits-digits fuel (n / 16)) last)
    ]

hex_digits-nonempty : (fuel n : ℕ) → hex_digits fuel n ≢ []
unfolding hex_digits
hex_digits-nonempty zero n e = cc
hex_digits-nonempty (suc fuel) n e = elim (Bool-cases (ltb n 16)) [
  | inl small ↦ cc (rw small at e)
  | inr large ↦ append-ne (hex_digits fuel (n / 16)) _ (rw large at e)
]
  where
    append-ne : (s : Text) (c : ℕ) → s ++ (c ∷ []) ≢ []
    append-ne [] c e = cc
    append-ne (d ∷ s) c e = cc

one_digit :
    (n : ℕ) → n < 16 → hex_value 0 [] * 16 + digit_or_zero (hex_digit (digit_char (n % 16))) ≡ n
unfolding hex_value
one_digit n h = omega (arith, digit_char-value (n % 16) (omega arith))

hex_digits-value : (fuel n : ℕ) → n < 16 ^ suc fuel → hex_value 0 (hex_digits fuel n) ≡ n
unfolding hex_digits
hex_digits-value zero n h = hex_value-append 0 [] (digit_char (n % 16)) ∙ one_digit n (omega arith)
hex_digits-value (suc fuel) n h = elim (Bool-cases (ltb n 16)) [
  | inl e ↦ rw e (hex_value-append 0 [] (digit_char (n % 16)) ∙ one_digit n (ltb→lt n 16 e))
  | inr e ↦ rw e (
      hex_value-append 0 (hex_digits fuel (n / 16)) (digit_char (n % 16))
      ∙ omega (
        arith,
        digit_char-value (n % 16) (omega arith),
        hex_digits-value fuel (n / 16) (omega (arith, pow-suc 16 (suc fuel))),
      ))
]

pub hex-FormatsHex : FormatsHex hex
unfolding hex
hex-FormatsHex = record {
  nonempty = hex_digits-nonempty 15;
  digits = hex_digits-digits 15;
  value = hex_digits-value 15;
}

-- As nlohmann documents it: a text that the table lacks reads as the first entry.
pub json_layer : Text → LayerType
json_layer t =
    if text_eq t (layer_name source_data)
    then source_data
    else (if text_eq t (layer_name heightmap) then heightmap else features)

abbrev road_source : MapTileKey
road_source = record {
  layer = source_data;
  map_id = codes "Berlin";
  layer_id = codes "Road";
  tile_id = 0x1a2b;
}

abbrev pub road : MapTileKey
road = record road_source { layer = features }

road_source-IsPlain : IsPlain road_source
road_source-IsPlain = record {
  map_plain = ground arith;
  layer_plain = ground arith;
  tile_fits = omega arith;
}

pub road-IsPlain : IsPlain road
road-IsPlain = record {
  map_plain = ground arith;
  layer_plain = ground arith;
  tile_fits = omega arith;
}

to_string_run : to_string hex road_source ≡ codes "SourceData:Berlin:Road:1a2b"
unfolding to_string hex layer_name
to_string_run = refl

parse_too_short : parse json_layer (codes "Features:Berlin") ≡ none
unfolding parse parse_parts split_at attach
parse_too_short = refl
