-- ===== src/Features/Search.antt =====
-- TileFeatureLayer::find for the text of a feature id, as FeatureId::toString writes it.
pub mod Optional
pub mod Round
pub mod Tests
use mapget.Base.{
  ℕ, zero, suc, ◌+◌, ◌<◌, ◌≡◌, inl, inr, Bool, true, false, not, ◌&&◌, List, [], ◌∷◌, ◌++◌, Option,
  none, some, refl, sym, ap, subst, ◌∙◌, length, ◌==◌, if◌then◌else◌, arith, Bool-cases,
  Option-cases,
}
use mapget.Base.Split.{split_at}
use mapget.Base.Result.{Result, ok, raised}
use mapget.Base.Text.{Text}
use mapget.IdPart.{IdPart, text, Value, KeyValuePairs, FeatureTypeInfo, get_type_info, validate}
use mapget.FeatureId.{Strings}
use mapget.Features.{FeatureLayer, find}

-- The pieces of views::split('.'), which has none for the empty text.
unfoldable pub tokens_of : Text → List Text
tokens_of [] = []
tokens_of (c ∷ cs) = split_at b'.' (c ∷ cs)

-- kvPairs.emplace_back, where the part is valid and no error follows.
add_pair : Text → Option Value → Option KeyValuePairs → Option KeyValuePairs
add_pair label none pairs = none
add_pair label (some v) none = none
add_pair label (some v) (some pairs) = some ((label, v) ∷ pairs)

-- One pass of the loop over the parts of the composition; `none` is an error.
pub parse_parts : Bool → List IdPart → List Text → Option KeyValuePairs
unfolding add_pair
parse_parts with_optional [] [] = some []
parse_parts with_optional [] (t ∷ ts) = none
parse_parts with_optional (c ∷ cs) [] =
    let skip = parse_parts with_optional cs [] in
    if c.is_optional && not with_optional then skip else none
parse_parts with_optional (c ∷ cs) (t ∷ ts) =
    let skip = parse_parts with_optional cs (t ∷ ts) in
    let rest = parse_parts with_optional cs ts in
    if c.is_optional && not with_optional then skip else add_pair c.label (validate c (text t)) rest

-- What follows a pass: an error ends the loop in the pass without optional parts alone, and a
-- success does not end it. The next pass clears the pairs.
after_pass :
    Bool → Option KeyValuePairs → (KeyValuePairs → Option KeyValuePairs) → Option KeyValuePairs
after_pass true none next = next []
after_pass false none next = none
after_pass with_optional (some pairs) next = next pairs

-- The loop over the ways to parse, with the pairs that it has.
pub parse_passes : List Bool → List IdPart → List Text → KeyValuePairs → Option KeyValuePairs
unfolding parse_parts after_pass
parse_passes [] composition tokens pairs = some pairs
parse_passes (with_optional ∷ ws) composition tokens pairs =
    after_pass with_optional (parse_parts with_optional composition tokens)
      (parse_passes ws composition tokens)

module _ (widen : ℕ → ℕ) (types : List FeatureTypeInfo) (strings : Strings) where
  pub find_pairs : Text → Option KeyValuePairs → FeatureLayer → Result (Option ℕ × FeatureLayer)
  find_pairs type none l = ok (none, l)
  find_pairs type (some pairs) l = find widen types strings type pairs l

  find_composed :
      Text → List (List IdPart) → List Text → FeatureLayer → Result (Option ℕ × FeatureLayer)
  unfolding find_pairs parse_passes
  find_composed type [] tokens l = ok (none, l)
  find_composed type (c ∷ cs) tokens l =
      find_pairs type (parse_passes (true ∷ false ∷ []) c tokens []) l

  find_typed : Option FeatureTypeInfo → List Text → FeatureLayer → Result (Option ℕ × FeatureLayer)
  unfolding find_composed
  find_typed none tokens l = ok (none, l)
  find_typed (some info) tokens l = find_composed info.name info.unique_id_compositions tokens l

  find_tokens : List Text → FeatureLayer → Result (Option ℕ × FeatureLayer)
  unfolding find_typed
  find_tokens [] l = ok (none, l)
  find_tokens (name ∷ tokens) l = find_typed (get_type_info types name) tokens l

  -- TileFeatureLayer::find for a text.
  pub find_text : Text → FeatureLayer → Result (Option ℕ × FeatureLayer)
  unfolding find_tokens tokens_of
  find_text feature_id l = find_tokens (tokens_of feature_id) l
