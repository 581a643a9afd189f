-- ===== src/Features/Fresh.antt =====
-- A new feature is found by its id.
use mapget.Base.{
  ℕ, ◌<◌, ◌≡◌, inl, inr, true, List, [], ◌∷◌, Option, none, some, refl, sym, ap, subst, ◌∙◌, length,
  arith, Bool-cases, ltb, ltb→lt, ltb→ge,
}
use mapget.Base.Result.{ok, ok_injective}
use mapget.Base.Text.{Text}
use mapget.IdPart.{IdPart, KeyValuePairs, FeatureTypeInfo}
use mapget.FeatureId.{Strings, key_value_pairs, type_text-emplace, add_fields}
use mapget.PrimaryId.{get_primary_id_composition}
use mapget.Features.{
  FeatureLayer, id_of, stripped, new_id, sort_feature_hash_index, new_feature, find, append_with,
  append_feature,
}
use mapget.Features.Order.{All-Has}
use mapget.Features.Match.{IsMatch}
use mapget.Features.Indexed.{EntryHash, Indexed, id_at-append, id_at-last}
use mapget.Features.Built.{Built, Built-Indexed, with_feature, accept-ok}
use mapget.Features.Find.{FirstMatch, find-FirstMatch}

module _ (widen : ℕ → ℕ) (types : List FeatureTypeInfo) (strings : Strings) where
  append_with-ok :
      (type : Text) (parts : KeyValuePairs) (o : Option (List IdPart)) (l l' : FeatureLayer)
      → append_with widen types strings type parts o l ≡ ok l'
      → (c : List IdPart) × (o ≡ some c) × (append_feature widen types strings type parts c l ≡ l')
  unfolding append_with
  append_with-ok type parts none l l' e = cc
  append_with-ok type parts (some c) l l' e = (c, refl, ok_injective e)

  -- What newFeature has done where it returns.
  pub new_feature-ok :
      (fuel : ℕ) (type : Text) (parts : KeyValuePairs) (l l' : FeatureLayer)
      → new_feature widen types strings fuel type parts l ≡ ok l'
      → (c : List IdPart) × (get_primary_id_composition types type ≡ some c)
        × (append_feature widen types strings type parts c l ≡ l')
  unfolding new_feature
  new_feature-ok fuel type [] l l' e = cc
  new_feature-ok fuel type (p ∷ ps) l l' e = append_with-ok type (p ∷ ps) _ l l' (accept-ok _ _ e)

  module _ (type : Text) (parts : KeyValuePairs) (c : List IdPart) (l : FeatureLayer) where
    abbrev pub query : KeyValuePairs
    query = stripped strings l c (new_id strings true type parts)

    new_IsMatch :
        strings.resolve (strings.emplace type) ≡ some type
        → IsMatch strings type c query
            (append_feature widen types strings type parts c l)
            (length l.features)
    unfolding append_feature
    new_IsMatch known = (
      new_id strings true type parts,
      id_at-last l.features l.feature_ids (new_id strings true type parts),
      type_text-emplace strings type true (add_fields strings parts) known,
      refl,
    )

    old_IsMatch :
        (i : ℕ)
        → Indexed widen types strings l
        → i < length l.features
        → IsMatch strings type c query (append_feature widen types strings type parts c l) i
        → IsMatch strings type c query l i
    unfolding append_feature
    old_IsMatch i h lt (fid, e, t, m) =
        let (x, same, (fid0, d, e0, p, q)) =
          All-Has (EntryHash widen types strings l) i l.hash_index h.hashed (h.complete i lt) in
        let e1 : id_of l i ≡ some fid0 = subst (λ k. id_of l k ≡ some fid0) same e0 in
        let kept =
          id_at-append l.features (length l.feature_ids ∷ []) l.feature_ids
            (new_id strings true type parts ∷ []) i e1 in
        let found : id_of l i ≡ some fid = cc in (fid, found, t, m)

    first_new :
        (r : Option ℕ)
        → Indexed widen types strings l
        → strings.resolve (strings.emplace type) ≡ some type
        → ((i : ℕ) → i < length l.features → ¬ (IsMatch strings type c query l i))
        → FirstMatch strings type c query (append_feature widen types strings type parts c l) r
        → r ≡ some (length l.features)
    first_new none h known fresh m = absurd (m (length l.features) (new_IsMatch known))
    first_new (some i) h known fresh (m, least) = elim (Bool-cases (ltb i (length l.features))) [
      | inl lt ↦ absurd (fresh i (ltb→lt i _ lt) (old_IsMatch i h (ltb→lt i _ lt) m))
      | inr ge ↦
          ap some (omega (arith, least (length l.features) (new_IsMatch known), ltb→ge i _ ge))
    ]

  -- Where newFeature returns, in a layer that the operations made and whose dictionary keeps the
  -- spelling of the type, and no feature there was has the same id (optional parts left out), find
  -- returns the new feature, the last of the layer, for the key-value pairs of its id.
  pub find-new_feature :
      {l l' : FeatureLayer} (fuel : ℕ) (type : Text) (parts : KeyValuePairs) (c : List IdPart)
      → Built widen types strings l
      → strings.resolve (strings.emplace type) ≡ some type
      → get_primary_id_composition types type ≡ some c
      → new_feature widen types strings fuel type parts l ≡ ok l'
      → ((i : ℕ) → i < length l.features → ¬ (IsMatch strings type c (query type parts c l) l i))
      → find widen types strings type
          (key_value_pairs strings l.feature_id_prefix (new_id strings true type parts))
          l'
        ≡ ok (some (length l.features), sort_feature_hash_index l')
  find-new_feature {l = l} {l' = l'} fuel type parts c b known p e fresh =
      let (d, q, made) = new_feature-ok fuel type parts l l' e in
      let same : d ≡ c = cc in
      let (r, found, first) =
        find-FirstMatch widen types strings type
          (key_value_pairs strings l.feature_id_prefix (new_id strings true type parts)) c
          (with_feature fuel type parts b known e) p in
      let last = first_new type parts c l r (Built-Indexed widen types strings b) known fresh (
        subst (λ k. FirstMatch strings type c (query type parts c l) k r)
          (sym made ∙ ap (λ k. append_feature widen types strings type parts k l) same) first) in
      found ∙ ap (λ o. ok (o, sort_feature_hash_index l')) last
