-- ===== src/Features/Search/Optional.antt =====
-- Texts of ids with optional parts.
use mapget.Base.{
  ℕ, suc, ◌<◌, ◌≡◌, inl, inr, true, false, List, [], ◌∷◌, Option, none, some, refl, ap, ◌∙◌, length,
  if◌then◌else◌, arith, Bool-cases,
}
use mapget.Base.Result.{ok}
use mapget.Base.Text.{Text}
use mapget.IdPart.{IdPart, Value, KeyValuePairs, FeatureTypeInfo, get_type_info}
use mapget.FeatureId.{Strings}
use mapget.Features.{FeatureLayer}
use mapget.Features.Search.{
  add_pair, after_pass, parse_parts, parse_passes, tokens_of, find_tokens, find_typed,
  find_composed, find_pairs, find_text,
}

-- The parts that the second pass reads.
abbrev pub required : List IdPart → ℕ
required [] = 0
required (c ∷ cs) = let rest = required cs in if c.is_optional then rest else suc rest

last_pass :
    (first second : Option KeyValuePairs)
    → after_pass true first (λ ps. after_pass false second (λ qs. some qs)) ≡ second
unfolding after_pass
last_pass none none = refl
last_pass none (some qs) = refl
last_pass (some ps) none = refl
last_pass (some ps) (some qs) = refl

-- The second pass alone decides.
pub parse_passes-last :
    (c : List IdPart) (tokens : List Text)
    → parse_passes (true ∷ false ∷ []) c tokens [] ≡ parse_parts false c tokens
unfolding parse_passes
parse_passes-last c tokens = last_pass (parse_parts true c tokens) (parse_parts false c tokens)

add_pair-none : (label : Text) (o : Option Value) → add_pair label o none ≡ none
unfolding add_pair
add_pair-none label none = refl
add_pair-none label (some v) = refl

too_many :
    (c : List IdPart) (tokens : List Text)
    → required c < length tokens
    → parse_parts false c tokens ≡ none
unfolding parse_parts
too_many [] [] h = absurd (omega arith)
too_many [] (t ∷ ts) h = refl
too_many (c ∷ cs) [] h = absurd (omega arith)
too_many (c ∷ cs) (t ∷ ts) h = elim (Bool-cases c.is_optional) [
  | inl e ↦ rw (parse_parts, e) (too_many cs (t ∷ ts) (ground arith))
  | inr e ↦ rw (parse_parts, e, too_many cs ts (ground arith)) (add_pair-none c.label _)
]

module _ (widen : ℕ → ℕ) (types : List FeatureTypeInfo) (strings : Strings) where
  -- What find does for a text whose type is known.
  pub find_text-second_pass :
      (s name : Text) (tokens : List Text) (info : FeatureTypeInfo) (c : List IdPart)
      (cs : List (List IdPart)) (l : FeatureLayer)
      → tokens_of s ≡ name ∷ tokens
      → get_type_info types name ≡ some info
      → info.unique_id_compositions ≡ c ∷ cs
      → find_text widen types strings s l
        ≡ find_pairs widen types strings info.name (parse_parts false c tokens) l
  unfolding find_text find_tokens find_typed find_composed
  find_text-second_pass s name tokens info c cs l e f g =
      rw (e, f, g)
        (ap (λ o. find_pairs widen types strings info.name o l) (parse_passes-last c tokens))

  -- A text of a known feature type that has more tokens behind the type than its primary
  -- composition has required parts is never found, whether or not the layer has a feature that
  -- prints like that: the pass of the loop that reads optional parts has no effect.
  pub find_text-optional :
      (s name : Text) (tokens : List Text) (info : FeatureTypeInfo) (c : List IdPart)
      (cs : List (List IdPart)) (l : FeatureLayer)
      → tokens_of s ≡ name ∷ tokens
      → get_type_info types name ≡ some info
      → info.unique_id_compositions ≡ c ∷ cs
      → required c < length tokens
      → find_text widen types strings s l ≡ ok (none, l)
  unfolding find_pairs
  find_text-optional s name tokens info c cs l e f g h =
      find_text-second_pass s name tokens info c cs l e f g
      ∙ ap (λ o. find_pairs widen types strings info.name o l) (too_many c tokens h)
