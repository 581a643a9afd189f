-- ===== src/FeatureId.antt =====
-- libs/model: FeatureId of include/mapget/model/featureid.h and src/featureid.cpp.
use mapget.Base.{
  ℕ, zero, suc, ◌+◌, ◌/◌, ◌%◌, Bool, List, [], ◌∷◌, ◌++◌, Option, none, some, ◌≡◌, refl, ltb,
  if◌then◌else◌,
}
use mapget.Base.Int.{ℤ, pos, negsuc}
use mapget.Base.Text.{Text, codes}
use mapget.IdPart.{Value, integer, text, KeyValuePairs}

-- The dictionary of a layer, simfil::StringPool. It only grows, so one value of it stands for all
-- the texts that it is ever given; the spelling that it returns for a text may differ in case.
pub record Strings : Type 0 where
  pub emplace : Text → ℕ
  pub resolve : ℕ → Option Text

-- The fields of an object of simfil, in the order in which they were added.
abbrev pub Fields : Type 0
Fields = List (ℕ × Value)

-- FeatureId::Data, with the object that its address stands for.
pub record FeatureId : Type 0 where
  pub use_common_tile_prefix : Bool
  pub type_id : ℕ
  pub id_parts : Fields

-- An id that the dictionary does not know, which the source does not test for, is the empty text.
abbrev key_text : Option Text → Text
key_text none = []
key_text (some key) = key

abbrev pub or_empty : Option Fields → Fields
or_empty none = []
or_empty (some fields) = fields

-- The decimal digits of a number, in front of those that are already there.
unfoldable pub digits_before : ℕ → ℕ → Text → Text
digits_before zero n rest = rest
digits_before (suc fuel) n rest =
    let c = b'0' + n % 10 in
    let more = digits_before fuel (n / 10) (c ∷ rest) in if ltb n 10 then c ∷ rest else more

-- operator<< of an int64_t.
unfoldable pub print_integer : ℤ → Text
unfolding digits_before
print_integer (pos n) = digits_before (suc n) n []
print_integer (negsuc n) = b'-' ∷ digits_before (suc (suc n)) (suc n) []

unfoldable pub print_value : Value → Text
unfolding print_integer
print_value (integer n) = print_integer n
print_value (text t) = t

-- result << "." << v for each field.
unfoldable pub print_fields : Fields → Text
unfolding print_value
print_fields [] = []
print_fields ((key, value) ∷ fields) = b'.' ∷ (print_value value ++ print_fields fields)

module _ (strings : Strings) where
  -- Object::addField for each of the parts.
  unfoldable pub add_fields : KeyValuePairs → Fields
  add_fields [] = []
  add_fields ((key, value) ∷ parts) = (strings.emplace key, value) ∷ add_fields parts

  unfoldable pub object_pairs : Fields → KeyValuePairs
  object_pairs [] = []
  object_pairs ((key, value) ∷ fields) =
      (key_text (strings.resolve key), value) ∷ object_pairs fields

  -- FeatureId::typeId
  unfoldable pub type_text : FeatureId → Text
  type_text fid = elim (strings.resolve fid.type_id) [
    | some s ↦ s
    | none ↦ codes "err-unresolved-typename"
  ]

  -- FeatureId::keyValuePairs, for the id prefix of the layer.
  unfoldable pub key_value_pairs : Option Fields → FeatureId → KeyValuePairs
  unfolding object_pairs
  key_value_pairs prefix fid =
      if fid.use_common_tile_prefix
      then object_pairs (or_empty prefix) ++ object_pairs fid.id_parts
      else object_pairs fid.id_parts

  -- FeatureId::toString
  unfoldable pub to_string : Option Fields → FeatureId → Text
  unfolding print_fields type_text
  to_string prefix fid =
      if fid.use_common_tile_prefix
      then type_text fid ++ (print_fields (or_empty prefix) ++ print_fields fid.id_parts)
      else type_text fid ++ print_fields fid.id_parts

-- The type under which an id was made, where the dictionary keeps that spelling.
pub type_text-emplace :
    (strings : Strings) (type : Text) (prefixed : Bool) (fields : Fields)
    → strings.resolve (strings.emplace type) ≡ some type
    → type_text strings (record {
      use_common_tile_prefix = prefixed;
      type_id = strings.emplace type;
      id_parts = fields;
    })
      ≡ type
unfolding type_text
type_text-emplace strings type prefixed fields e = rw (type_text, e) refl
