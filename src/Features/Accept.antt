-- ===== src/Features/Accept.antt =====
-- newFeature returns for the ids that it should take.
use mapget.Base.{ℕ, suc, ◌≡◌, inl, true, List, ◌∷◌, some, refl, sym, subst, drop}
use mapget.Base.Result.{ok}
use mapget.Base.Text.{Text}
use mapget.IdPart.{Value, IdPart, KeyValuePairs, FeatureTypeInfo, get_type_info}
use mapget.IdPart.Match.{Matches}
use mapget.IdPart.FeatureId.{AnyMatches, EachRequired, usable, valid_feature_id-AnyMatches}
use mapget.PrimaryId.{accept, get_primary_id_composition, primary_of}
use mapget.FeatureId.{Strings}
use mapget.Features.{FeatureLayer, append_feature, append_with, new_feature, prefix_length}

module _ (widen : ℕ → ℕ) (types : List FeatureTypeInfo) (strings : Strings) where
  -- With any fuel but none, newFeature returns the layer with the new feature, where the parts match
  -- the primary composition of the type behind the id prefix and no composition has an optional part
  -- behind the prefix.
  pub new_feature-returns :
      (fuel : ℕ) (type : Text) (p : Text × Value) (ps : KeyValuePairs) (l : FeatureLayer)
      (info : FeatureTypeInfo) (c : List IdPart) (cs : List (List IdPart))
      → get_type_info types type ≡ some info
      → info.unique_id_compositions ≡ c ∷ cs
      → EachRequired (prefix_length l.feature_id_prefix) info.unique_id_compositions
      → Matches (drop (prefix_length l.feature_id_prefix) c) (p ∷ ps)
      → new_feature widen types strings (suc fuel) type (p ∷ ps) l
        ≡ ok (append_feature widen types strings type (p ∷ ps) c l)
  unfolding new_feature append_with accept get_primary_id_composition primary_of
  new_feature-returns fuel type p ps l info c cs known primary required matches =
      let (b, answer, iff) =
        valid_feature_id-AnyMatches fuel types type (p ∷ ps) true
          (prefix_length l.feature_id_prefix) info known required in
      let yes : b ≡ true = iff.1 (
        subst (λ xs. AnyMatches (prefix_length l.feature_id_prefix) (p ∷ ps) (usable true xs))
          (sym primary) (inl matches)) in
      rw (answer, yes, known, primary) refl
