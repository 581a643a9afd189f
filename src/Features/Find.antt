-- ===== src/Features/Find.antt =====
-- What `find` returns, against a search of all the features that knows no hashes.
use mapget.Base.{
  All-map, ℕ, ◌<◌, ◌≤◌, ◌≡◌, inl, inr, Bool, true, false, List, Option, none, some, refl, sym, ap,
  subst, ◌∙◌, length, get_elem?, get_elem?-some, Option-cases,
}
use mapget.Base.Result.{ok}
use mapget.Base.Text.{Text}
use mapget.IdPart.{IdPart, KeyValuePairs, FeatureTypeInfo}
use mapget.IdHash.{hash_feature_id, strip_optional_id_parts}
use mapget.FeatureId.{Strings, type_text}
use mapget.PrimaryId.{get_primary_id_composition}
use mapget.Features.{
  FeatureLayer, HashEntry, id_at, stripped, exact_match, sort_feature_hash_index, sort_when,
  lower_bound, scan_entries, find, find_under,
}
use mapget.Features.Order.{Hashed, Least, search-Least, All-Has}
use mapget.Features.Match.{IsMatch, exact_match→IsMatch, IsMatch→exact_match}
use mapget.Features.Indexed.{EntryHash, Indexed, sort-Indexed, sort-Sorted_index}
use mapget.Features.Built.{Built, Built-Indexed}

module _ (strings : Strings) (type : Text) (c : List IdPart) (query : KeyValuePairs) where
  -- The first of the features that match, in the order of the layer.
  abbrev pub FirstMatch : FeatureLayer → Option ℕ → Type 0
  FirstMatch l none = (i : ℕ) → ¬ (IsMatch strings type c query l i)
  FirstMatch l (some i) =
      IsMatch strings type c query l i × ((j : ℕ) → IsMatch strings type c query l j → i ≤ j)

  sort_when-IsMatch :
      (b : Bool) (l : FeatureLayer) (i : ℕ)
      → IsMatch strings type c query (sort_when b l) i ≡ IsMatch strings type c query l i
  unfolding sort_when
  sort_when-IsMatch true l i = refl
  sort_when-IsMatch false l i = refl

  sort_when-FirstMatch :
      (b : Bool) (l : FeatureLayer) (r : Option ℕ) → FirstMatch (sort_when b l) r → FirstMatch l r
  unfolding sort_when
  sort_when-FirstMatch true l none h = h
  sort_when-FirstMatch true l (some i) h = h
  sort_when-FirstMatch false l none h = h
  sort_when-FirstMatch false l (some i) h = h

  is_feature : (l : FeatureLayer) (i : ℕ) → IsMatch strings type c query l i → i < length l.features
  is_feature l i (fid, e, t, m) = elim (Option-cases (get_elem? l.features i)) [
    | inl n ↦ cc (subst (λ o. id_at l.feature_ids o ≡ some fid) n e)
    | inr (k, n) ↦ get_elem?-some l.features i n
  ]

  module _ (widen : ℕ → ℕ) (types : List FeatureTypeInfo) where
    -- A feature that matches stands under the hash of the query.
    EntryHash-Hashed :
        (l : FeatureLayer) (x : HashEntry)
        → get_primary_id_composition types type ≡ some c
        → EntryHash widen types strings l x
        → Hashed (hash_feature_id widen type query) (exact_match strings type c query l) x
    EntryHash-Hashed l x p (fid, d, e, q, h) t =
        let (fid', e', s, m) = exact_match→IsMatch strings type c query l x.feature t in
        let same : fid ≡ fid' = cc in
        let type_same : type_text strings fid ≡ type = ap (type_text strings) same ∙ s in
        let comp_same : d ≡ c = cc in
        h
        ∙ ap (λ t. hash_feature_id widen t (stripped strings l d fid)) type_same
        ∙ ap (hash_feature_id widen type)
            (ap (λ d'. stripped strings l d' fid) comp_same ∙ ap (stripped strings l c) same ∙ m)

    Least-FirstMatch :
        (l : FeatureLayer) (r : Option ℕ)
        → Indexed widen types strings l
        → Least
            (hash_feature_id widen type query)
            (exact_match strings type c query l)
            l.hash_index
            r
        → FirstMatch l r
    Least-FirstMatch l none h least = λ i m.
        let (x, e, f) = All-Has _ i l.hash_index least (h.complete i (is_feature l i m)) in
        cc (IsMatch→exact_match strings type c query l i m)
    Least-FirstMatch l (some i) h (has, t, least) = (
      exact_match→IsMatch strings type c query l i t,
      λ j m.
          let (x, e, f) = All-Has _ j l.hash_index least (h.complete j (is_feature l j m)) in
          subst (λ k. i ≤ k) e
            (f (
              subst (λ k. exact_match strings type c query l k ≡ true) (sym e)
                (IsMatch→exact_match strings type c query l j m))),
    )

    sorted_find :
        (l : FeatureLayer)
        → Indexed widen types strings l
        → get_primary_id_composition types type ≡ some c
        → FirstMatch l (
            scan_entries
              (hash_feature_id widen type query)
              (exact_match strings type c query (sort_feature_hash_index l))
              (lower_bound
                (hash_feature_id widen type query)
                (sort_feature_hash_index l).hash_index))
    sorted_find l h p =
        let sorted = sort-Indexed widen types strings l h in
        sort_when-FirstMatch l.needs_sorting l _ (
          Least-FirstMatch (sort_feature_hash_index l) _ sorted (
            search-Least _ _ (sort_feature_hash_index l).hash_index
              (sort-Sorted_index widen types strings l h)
              (All-map (sort_feature_hash_index l).hash_index
                (λ x k. EntryHash-Hashed (sort_feature_hash_index l) x p k) sorted.hashed)))

module _ (widen : ℕ → ℕ) (types : List FeatureTypeInfo) (strings : Strings) where
  -- In a layer that newFeature, newFeatureId, setIdPrefix, newAttribute, newRelation and find have
  -- made, without setStrings, and where the number that the dictionary gives the type of each new
  -- feature resolves to that type, find for a known type returns the first feature, in the order of
  -- the layer, that has the type asked for and the same id parts, those that are optional in the
  -- primary composition of the type left out; it returns none where there is no such feature. Hash
  -- collisions make no difference, nor does the order in which features and searches alternate.
  pub find-FirstMatch :
      {l : FeatureLayer} (type : Text) (parts : KeyValuePairs) (c : List IdPart)
      → Built widen types strings l
      → get_primary_id_composition types type ≡ some c
      → (r : Option ℕ) × (find widen types strings type parts l ≡ ok (r, sort_feature_hash_index l))
        × FirstMatch strings type c (strip_optional_id_parts parts c) l r
  unfolding find find_under
  find-FirstMatch {l = l} type parts c b p =
      rw p (
        _,
        refl,
        sorted_find strings type c _ widen types l (Built-Indexed widen types strings b) p,
      )
