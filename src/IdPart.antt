-- ===== src/IdPart.antt =====
-- libs/model: IdPart, FeatureTypeInfo and LayerInfo::validFeatureId of
-- include/mapget/model/info.h and src/info.cpp. The texts that `error` receives are left out.
pub mod Validate
pub mod Match
pub mod Hang
pub mod FeatureId
pub mod Decimal
pub mod Tests
use mapget.Base.{
  ℕ, zero, suc, ◌+◌, ◌*◌, ◌-◌, ◌^◌, Bool, true, false, ◌&&◌, ◌||◌, List, [], ◌∷◌, Option, none,
  some, ltb, leb, ◌==◌, if◌then◌else◌, length, drop, not,
}
use mapget.Base.Int.{ℤ, pos, negsuc, sub_ℕ, ltb_ℤ}
use mapget.Base.Text.{Text, text_eq}

pub data IdPartDataType : Type 0 where
  i32 u32 i64 u64 uuid128 str : IdPartDataType

pub record IdPart : Type 0 where
  pub label : Text
  pub datatype : IdPartDataType
  pub is_synthetic : Bool
  pub is_optional : Bool

-- std::variant<int64_t, std::string_view>
pub data Value : Type 0 where
  integer : ℤ → Value
  text : Text → Value

abbrev pub KeyValuePairs : Type 0
KeyValuePairs = List (Text × Value)

abbrev decimal_digit : ℕ → Option ℕ
decimal_digit c = if leb b'0' c && leb c b'9' then some (c - b'0') else none

decimal : ℕ → Text → Option ℕ
decimal value [] = some value
decimal value (c ∷ cs) = elim (decimal_digit c) [
  | none ↦ none
  | some d ↦ decimal (value * 10 + d) cs
]

abbrev up_to : ℕ → (ℕ → ℤ) → Option ℕ → Option ℤ
up_to limit sign none = none
up_to limit sign (some v) = if leb v limit then some (sign v) else none

-- from_chars<int64_t>: the whole text is a decimal number that fits 64 bits.
pub parse_i64 : Text → Option ℤ
unfolding decimal
parse_i64 [] = none
parse_i64 (c ∷ []) = if c == b'-' then none else up_to (2 ^ 63 - 1) pos (decimal 0 (c ∷ []))
parse_i64 (c ∷ d ∷ ds) =
    if c == b'-'
    then up_to (2 ^ 63) (sub_ℕ 0) (decimal 0 (d ∷ ds))
    else up_to (2 ^ 63 - 1) pos (decimal 0 (c ∷ d ∷ ds))

abbrev int_value : Value → Option ℤ
int_value (integer n) = some n
int_value (text t) = parse_i64 t

-- `some v` is true with `v` for the value as it was updated, `none` is false.
abbrev expect_integer : ℤ → ℤ → Option ℤ → Option Value
expect_integer min_val max_val none = none
expect_integer min_val max_val (some n) =
    if ltb_ℤ n min_val then none else (if ltb_ℤ max_val n then none else some (integer n))

abbrev expect_string : (Text → Bool) → Value → Option Value
expect_string validator (integer n) = none
expect_string validator (text t) = if validator t then some (text t) else none

-- IdPart::validate
unfoldable pub validate_as : IdPartDataType → Value → Option Value
validate_as i32 v = expect_integer (negsuc (2 ^ 31 - 1)) (pos (2 ^ 31 - 1)) (int_value v)
validate_as u32 v = expect_integer (pos 0) (pos (2 ^ 32 - 1)) (int_value v)
validate_as u64 v = expect_integer (pos 0) (pos (2 ^ 64 - 1)) (int_value v)
validate_as i64 v = expect_integer (negsuc (2 ^ 63 - 1)) (pos (2 ^ 63 - 1)) (int_value v)
validate_as uuid128 v = expect_string (λ t. length t == 16) v
validate_as str v = expect_string (λ t. true) v

unfoldable pub validate : IdPart → Value → Option Value
unfolding validate_as parse_i64
validate part v = validate_as part.datatype v

abbrev is_valid : Option Value → Bool
is_valid none = false
is_valid (some v) = true

-- How the first loop of idPartsMatchComposition ends: by `return false`, or with the composition
-- that is left and the number of parts that were still to match.
pub data Ending : Type 0 where
  refused : Ending
  ended : List IdPart → ℕ → Ending

unfoldable pub match_loop : List IdPart → KeyValuePairs → ℕ → Ending
match_loop composition parts zero = ended composition zero
match_loop [] parts (suc n) = ended [] (suc n)
match_loop (c ∷ cs) [] (suc n) = refused
match_loop (c ∷ cs) ((k, v) ∷ ps) (suc n) =
    let skip = match_loop cs ((k, v) ∷ ps) (suc n) in
    let go_on = match_loop cs ps n in
    if text_eq c.label k
    then (if is_valid (validate c v) then go_on else refused)
    else (if c.is_optional then skip else refused)

-- The second loop, whose body never advances the iterator: `none` means that the fuel ran out.
unfoldable pub end_loop : ℕ → List IdPart → Option Bool
end_loop zero composition = none
end_loop (suc fuel) [] = some true
end_loop (suc fuel) (c ∷ cs) =
    let rest = end_loop fuel (c ∷ cs) in if not c.is_optional then some false else rest

unfoldable pub finish : ℕ → Bool → Ending → Option Bool
unfolding end_loop
finish fuel require_end refused = some false
finish fuel false (ended cs n) = some (n == 0)
finish fuel true (ended cs n) = elim (end_loop fuel cs) [
  | none ↦ none
  | some b ↦ some (b && n == 0)
]

-- IdPart::idPartsMatchComposition, for a start index within the composition.
unfoldable pub matches_composition : ℕ → List IdPart → ℕ → KeyValuePairs → ℕ → Bool → Option Bool
unfolding finish match_loop
matches_composition fuel composition start parts match_length require_end =
    finish fuel require_end (match_loop (drop start composition) parts match_length)

pub record FeatureTypeInfo : Type 0 where
  pub name : Text
  pub unique_id_compositions : List (List IdPart)

-- LayerInfo::getTypeInfo: the first type of that name.
unfoldable pub get_type_info : List FeatureTypeInfo → Text → Option FeatureTypeInfo
get_type_info [] name = none
get_type_info (t ∷ ts) name = if text_eq t.name name then some t else get_type_info ts name

-- `throws` is the exception for an unknown feature type, `runs` says that the fuel ran out.
pub data Outcome : Type 0 where
  returns : Bool → Outcome
  throws runs : Outcome

unfoldable pub check_compositions : ℕ → ℕ → KeyValuePairs → Bool → List (List IdPart) → Outcome
check_compositions fuel start parts for_new [] = returns false
check_compositions fuel start parts for_new (c ∷ cs) =
    let rest = check_compositions fuel start parts for_new cs in
    elim (matches_composition fuel c start parts (length parts) true) [
      | none ↦ runs
      | some found ↦ if found then returns true else (if for_new then returns false else rest)
    ]

-- LayerInfo::validFeatureId
unfoldable pub valid_feature_id :
    ℕ → List FeatureTypeInfo → Text → KeyValuePairs → Bool → ℕ → Outcome
unfolding check_compositions
valid_feature_id fuel types type_id parts for_new start = elim (get_type_info types type_id) [
  | none ↦ throws
  | some info ↦ check_compositions fuel start parts for_new info.unique_id_compositions
]
