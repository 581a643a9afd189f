-- ===== src/Features/Search/Round.antt =====
-- The text of an id leads back to its parts.
use mapget.Base.{
  ℕ, ◌≡◌, ◌≢◌, Bool, true, false, List, [], ◌∷◌, ◌++◌, Option, some, refl, sym, ap, ◌∙◌,
  if◌then◌else◌, append_assoc, append-nil,
}
use mapget.Base.Split.{split_at, Without, split_at-whole, split_at-piece}
use mapget.Base.Text.{Text}
use mapget.IdPart.{
  IdPart, Value, integer, text, KeyValuePairs, FeatureTypeInfo, get_type_info, validate,
}
use mapget.IdPart.Decimal.{IsI64, print_integer-Without, validate-print_integer}
use mapget.FeatureId.{
  Strings, Fields, FeatureId, or_empty, print_value, print_fields, object_pairs, key_value_pairs,
  type_text, to_string,
}
use mapget.Features.{FeatureLayer, find}
use mapget.Features.Search.{add_pair, parse_parts, tokens_of, find_text, find_pairs}
use mapget.Features.Search.Optional.{find_text-second_pass}

-- A value that the part accepts as it is, and whose text has no dot.
abbrev pub IsPrintable : IdPart → Value → Type 0
IsPrintable c (integer z) = IsI64 z × (validate c (integer z) ≡ some (integer z))
IsPrintable c (text t) = Without b'.' t × (validate c (text t) ≡ some (text t))

-- Pairs for each part of a composition without optional parts, in its order.
abbrev pub Fills : List IdPart → KeyValuePairs → Type 0
Fills [] [] = Unit
Fills [] (p ∷ ps) = ⊥
Fills (c ∷ cs) [] = ⊥
Fills (c ∷ cs) ((k, v) ∷ ps) =
    (c.is_optional ≡ false) × (c.label ≡ k) × IsPrintable c v × Fills cs ps

validate-print_value :
    (c : IdPart) (v : Value) → IsPrintable c v → validate c (text (print_value v)) ≡ some v
unfolding print_value
validate-print_value c (integer z) (h, e) = validate-print_integer c z h e
validate-print_value c (text t) (h, e) = e

print_value-Without : (c : IdPart) (v : Value) → IsPrintable c v → Without b'.' (print_value v)
unfolding print_value
print_value-Without c (integer z) h = print_integer-Without z
print_value-Without c (text t) (h, e) = h

-- The texts of the values, and of the pairs, each behind a dot.
abbrev texts : KeyValuePairs → List Text
texts [] = []
texts ((k, v) ∷ ps) = print_value v ∷ texts ps

abbrev print_pairs : KeyValuePairs → Text
print_pairs [] = []
print_pairs ((k, v) ∷ ps) = b'.' ∷ (print_value v ++ print_pairs ps)

split_at-print_pairs :
    (name : Text) (cs : List IdPart) (ps : KeyValuePairs)
    → Without b'.' name
    → Fills cs ps
    → split_at b'.' (name ++ print_pairs ps) ≡ name ∷ texts ps
split_at-print_pairs name [] [] w f =
    ap (split_at b'.') (append-nil name) ∙ split_at-whole b'.' name w
split_at-print_pairs name (c ∷ cs) [] w f = elim f [ ]
split_at-print_pairs name [] (p ∷ ps) w f = elim f [ ]
split_at-print_pairs name (c ∷ cs) ((k, v) ∷ ps) w (o, l, h, f) =
    split_at-piece b'.' name _ w refl
    ∙ ap (◌∷◌ name) (split_at-print_pairs (print_value v) cs ps (print_value-Without c v h) f)

parse_parts-texts :
    (cs : List IdPart) (ps : KeyValuePairs)
    → Fills cs ps
    → parse_parts false cs (texts ps) ≡ some ps
unfolding parse_parts add_pair
parse_parts-texts [] [] f = refl
parse_parts-texts (c ∷ cs) [] f = elim f [ ]
parse_parts-texts [] (p ∷ ps) f = elim f [ ]
parse_parts-texts (c ∷ cs) ((k, v) ∷ ps) (o, l, h, f) =
    rw (parse_parts, validate-print_value c v h, parse_parts-texts cs ps f, o)
      (ap (λ label. some ((label, v) ∷ ps)) l)

-- What toString writes behind the type, and the pairs.
print_fields-pairs :
    (strings : Strings) (fields : Fields)
    → print_fields fields ≡ print_pairs (object_pairs strings fields)
unfolding print_fields object_pairs
print_fields-pairs strings [] = refl
print_fields-pairs strings ((k, v) ∷ fields) =
    ap (λ t. b'.' ∷ (print_value v ++ t)) (print_fields-pairs strings fields)

print_pairs-append :
    (ps qs : KeyValuePairs) → print_pairs (ps ++ qs) ≡ print_pairs ps ++ print_pairs qs
print_pairs-append [] qs = refl
print_pairs-append ((k, v) ∷ ps) qs =
    ap (λ t. b'.' ∷ t)
      (ap (λ t. print_value v ++ t) (print_pairs-append ps qs)
        ∙ sym (append_assoc (print_value v) (print_pairs ps) (print_pairs qs)))

module _ (strings : Strings) (t : Text) (prefix own : Fields) where
  to_string-choice :
      (use_prefix : Bool)
      → (if use_prefix
          then t ++ (print_fields prefix ++ print_fields own)
          else t ++ print_fields own)
        ≡ t
          ++ print_pairs (
              if use_prefix
              then object_pairs strings prefix ++ object_pairs strings own
              else object_pairs strings own)
  to_string-choice true =
      ap (λ u. t ++ u)
        (ap (λ u. u ++ print_fields own) (print_fields-pairs strings prefix)
          ∙ ap (λ u. print_pairs (object_pairs strings prefix) ++ u)
              (print_fields-pairs strings own)
          ∙ sym (print_pairs-append (object_pairs strings prefix) (object_pairs strings own)))
  to_string-choice false = ap (λ u. t ++ u) (print_fields-pairs strings own)

pub to_string-pairs :
    (strings : Strings) (prefix : Option Fields) (fid : FeatureId)
    → to_string strings prefix fid
      ≡ type_text strings fid ++ print_pairs (key_value_pairs strings prefix fid)
unfolding to_string key_value_pairs
to_string-pairs strings prefix fid =
    to_string-choice strings (type_text strings fid) (or_empty prefix) fid.id_parts
      fid.use_common_tile_prefix

tokens_of-append :
    (name rest : Text) → name ≢ [] → tokens_of (name ++ rest) ≡ split_at b'.' (name ++ rest)
unfolding tokens_of
tokens_of-append [] rest h = absurd (h refl)
tokens_of-append (c ∷ cs) rest h = refl

module _ (widen : ℕ → ℕ) (types : List FeatureTypeInfo) (strings : Strings) where
  -- For the text of a feature id whose type is known and whose parts, those of the prefix included,
  -- fill the primary composition of the type, all of it required, with values that the validation
  -- of the composition's parts gives back unchanged and texts without dots, and whose type is a text
  -- without dots that is not empty, find does for the text what it does for the type and the parts of
  -- the id. A text of digits for an integer part is not such a value, since the validation parses it.
  pub find_text-to_string :
      (prefix : Option Fields) (fid : FeatureId) (info : FeatureTypeInfo) (c : List IdPart)
      (cs : List (List IdPart)) (l : FeatureLayer)
      → get_type_info types (type_text strings fid) ≡ some info
      → info.unique_id_compositions ≡ c ∷ cs
      → type_text strings fid ≢ []
      → Without b'.' (type_text strings fid)
      → Fills c (key_value_pairs strings prefix fid)
      → find_text widen types strings (to_string strings prefix fid) l
        ≡ find widen types strings info.name (key_value_pairs strings prefix fid) l
  unfolding find_pairs
  find_text-to_string prefix fid info c cs l known primary named plain fills =
      let pairs = key_value_pairs strings prefix fid in
      find_text-second_pass widen types strings _ (type_text strings fid) (texts pairs) info c cs l
        (ap tokens_of (to_string-pairs strings prefix fid)
          ∙ tokens_of-append (type_text strings fid) (print_pairs pairs) named
          ∙ split_at-print_pairs (type_text strings fid) c pairs plain fills)
        known primary
      ∙ ap (λ o. find_pairs widen types strings info.name o l) (parse_parts-texts c pairs fills)
