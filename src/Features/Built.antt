-- ===== src/Features/Built.antt =====
-- The layers that the operations make, and what a search in them finds.
use mapget.Base.{
  ℕ, ◌≡◌, Bool, true, false, List, [], ◌∷◌, Option, none, some, refl, ap, subst, Bool-cases,
  if◌then◌else◌, inl, inr,
}
use mapget.Base.Result.{Result, ok, raised, ok_injective}
use mapget.Base.Text.{Text}
use mapget.IdPart.{IdPart, KeyValuePairs, FeatureTypeInfo, Outcome, returns, throws, runs}
use mapget.FeatureId.{Strings}
use mapget.PrimaryId.{get_primary_id_composition, accept, check_prefix}
use mapget.Features.{
  FeatureLayer, new_layer, sort_feature_hash_index, append_feature, append_with, new_feature,
  new_feature_id, set_id_prefix, set_prefix, no_features, find, find_under, new_attribute,
  new_relation, new_id,
}
use mapget.Features.Indexed.{
  Indexed, new_layer-Indexed, sort-Indexed, append_feature-Indexed, more_ids-Indexed,
  prefix-Indexed,
}

pub accept-ok {ℓ} : {A : Type ℓ} (o : Outcome) (r : Result A) {a : A} → accept o r ≡ ok a → r ≡ ok a
unfolding accept
accept-ok throws r e = cc
accept-ok runs r e = cc
accept-ok (returns true) r e = e
accept-ok (returns false) r e = cc

module _ (widen : ℕ → ℕ) (types : List FeatureTypeInfo) (strings : Strings) where
  -- The layers reachable from an empty one. A type that the dictionary knows in another spelling is
  -- left out: its ids would answer to that spelling.
  pub data Built : FeatureLayer → Type 0 where
    empty : Built new_layer
    with_feature :
        {l l' : FeatureLayer} (fuel : ℕ) (type : Text) (parts : KeyValuePairs)
        → Built l
        → strings.resolve (strings.emplace type) ≡ some type
        → new_feature widen types strings fuel type parts l ≡ ok l'
        → Built l'
    with_feature_id :
        {l l' : FeatureLayer} (fuel : ℕ) (type : Text) (parts : KeyValuePairs)
        → Built l
        → new_feature_id widen types strings fuel type parts l ≡ ok l'
        → Built l'
    with_prefix :
        {l l' : FeatureLayer} (fuel : ℕ) (prefix : KeyValuePairs)
        → Built l
        → set_id_prefix widen types strings fuel prefix l ≡ ok l'
        → Built l'
    searched :
        {l l' : FeatureLayer} (type : Text) (parts : KeyValuePairs) (r : Option ℕ)
        → Built l
        → find widen types strings type parts l ≡ ok (r, l')
        → Built l'
    with_attribute :
        {l : FeatureLayer} (name : Text) → Built l → Built (new_attribute strings name l)
    with_relation : {l : FeatureLayer} (name : Text) → Built l → Built (new_relation strings name l)

  -- The names of attributes and relations are no part of the invariant.
  names-Indexed :
      {l : FeatureLayer} {attributes relations : List ℕ}
      → Indexed widen types strings l
      → Indexed widen types strings
          (record l { attribute_names = attributes; relation_names = relations })
  names-Indexed h = record {
    sorted = h.sorted;
    hashed = h.hashed;
    complete = h.complete;
    roots_length = h.roots_length;
    roots = h.roots;
  }

  append_with-Indexed :
      (type : Text) (parts : KeyValuePairs) (o : Option (List IdPart)) (l l' : FeatureLayer)
      → get_primary_id_composition types type ≡ o
      → strings.resolve (strings.emplace type) ≡ some type
      → append_with widen types strings type parts o l ≡ ok l'
      → Indexed widen types strings l
      → Indexed widen types strings l'
  unfolding append_with append_feature
  append_with-Indexed type parts none l l' p known e h = cc
  append_with-Indexed type parts (some c) l l' p known e h =
      subst (Indexed widen types strings) (ok_injective e)
        (append_feature-Indexed widen types strings type parts c l p known h)

  new_feature-Indexed :
      (fuel : ℕ) (type : Text) (parts : KeyValuePairs) (l l' : FeatureLayer)
      → strings.resolve (strings.emplace type) ≡ some type
      → new_feature widen types strings fuel type parts l ≡ ok l'
      → Indexed widen types strings l
      → Indexed widen types strings l'
  unfolding new_feature
  new_feature-Indexed fuel type [] l l' known e h = cc
  new_feature-Indexed fuel type (p ∷ ps) l l' known e h =
      append_with-Indexed type (p ∷ ps) _ l l' refl known (accept-ok _ _ e) h

  new_feature_id-Indexed :
      (fuel : ℕ) (type : Text) (parts : KeyValuePairs) (l l' : FeatureLayer)
      → new_feature_id widen types strings fuel type parts l ≡ ok l'
      → Indexed widen types strings l
      → Indexed widen types strings l'
  unfolding new_feature_id
  new_feature_id-Indexed fuel type parts l l' e h =
      subst (Indexed widen types strings) (ok_injective (accept-ok _ _ e))
        (more_ids-Indexed widen types strings (new_id strings false type parts ∷ []) l h)

  set_prefix-Indexed :
      (prefix : KeyValuePairs) (o : Option Bool) (l l' : FeatureLayer)
      → no_features l.features ≡ true
      → set_prefix widen types strings prefix o l ≡ ok l'
      → Indexed widen types strings l
      → Indexed widen types strings l'
  unfolding set_prefix
  set_prefix-Indexed prefix none l l' none_yet e h = cc
  set_prefix-Indexed prefix (some false) l l' none_yet e h = cc
  set_prefix-Indexed prefix (some true) l l' none_yet e h =
      subst (Indexed widen types strings) (ok_injective e)
        (prefix-Indexed widen types strings _ l none_yet h)

  set_id_prefix-Indexed :
      (fuel : ℕ) (prefix : KeyValuePairs) (l l' : FeatureLayer)
      → set_id_prefix widen types strings fuel prefix l ≡ ok l'
      → Indexed widen types strings l
      → Indexed widen types strings l'
  unfolding set_id_prefix
  set_id_prefix-Indexed fuel prefix l l' e h = elim (Bool-cases (no_features l.features)) [
    | inl t ↦
        set_prefix-Indexed prefix _ l l' t
          (subst
            (λ b.
              (if b
                then set_prefix widen types strings prefix (check_prefix fuel types prefix) l
                else raised)
              ≡ ok l')
            t e)
          h
    | inr f ↦ cc (
        subst
          (λ b.
            (if b
              then set_prefix widen types strings prefix (check_prefix fuel types prefix) l
              else raised)
            ≡ ok l')
          f e)
  ]

  find_under-sorts :
      (type : Text) (parts : KeyValuePairs) (o : Option (List IdPart)) (l l' : FeatureLayer)
      (r : Option ℕ)
      → find_under widen types strings type parts o l ≡ ok (r, l')
      → sort_feature_hash_index l ≡ l'
  unfolding find_under
  find_under-sorts type parts none l l' r e = cc
  find_under-sorts type parts (some c) l l' r e =
      ap (λ (p : Option ℕ × FeatureLayer). p.1) (ok_injective e)

  find-Indexed :
      (type : Text) (parts : KeyValuePairs) (r : Option ℕ) (l l' : FeatureLayer)
      → find widen types strings type parts l ≡ ok (r, l')
      → Indexed widen types strings l
      → Indexed widen types strings l'
  unfolding find
  find-Indexed type parts r l l' e h =
      subst (Indexed widen types strings) (find_under-sorts type parts _ l l' r e)
        (sort-Indexed widen types strings l h)

  pub Built-Indexed : {l : FeatureLayer} → Built l → Indexed widen types strings l
  unfolding new_attribute new_relation
  Built-Indexed empty = new_layer-Indexed widen types strings
  Built-Indexed (with_feature fuel type parts b known e) =
      new_feature-Indexed fuel type parts _ _ known e (Built-Indexed b)
  Built-Indexed (with_feature_id fuel type parts b e) =
      new_feature_id-Indexed fuel type parts _ _ e (Built-Indexed b)
  Built-Indexed (with_prefix fuel prefix b e) =
      set_id_prefix-Indexed fuel prefix _ _ e (Built-Indexed b)
  Built-Indexed (searched type parts r b e) = find-Indexed type parts r _ _ e (Built-Indexed b)
  Built-Indexed (with_attribute name b) = names-Indexed (Built-Indexed b)
  Built-Indexed (with_relation name b) = names-Indexed (Built-Indexed b)
