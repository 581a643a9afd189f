-- ===== src/Features.antt =====
-- libs/model: TileFeatureLayer of include/mapget/model/featurelayer.h and src/featurelayer.cpp: its
-- feature ids, its features and the index of features by the hash of their ids.
pub mod Order
pub mod Match
pub mod Indexed
pub mod Built
pub mod Find
pub mod Fresh
pub mod Accept
pub mod Search
pub mod Names
pub mod Sample
pub mod Tests
use mapget.Base.{
  ℕ, zero, suc, ◌%◌, ◌^◌, Bool, true, false, ◌&&◌, ◌||◌, List, [], ◌∷◌, ◌++◌, Option, none, some,
  ltb, ◌==◌, if◌then◌else◌, length, get_elem?,
}
use mapget.Base.Int.{ℤ, ltb_ℤ}
use mapget.Base.Result.{Result, ok, raised, stuck}
use mapget.Base.Text.{Text, text_eq}
use mapget.IdPart.{
  IdPart, Value, integer, text, KeyValuePairs, FeatureTypeInfo, get_type_info, Outcome, returns,
  throws, runs, valid_feature_id, matches_composition,
}
use mapget.PrimaryId.{get_primary_id_composition, parts_eq, accept, check_prefix}
use mapget.IdHash.{strip_optional_id_parts, hash_feature_id}
use mapget.FeatureId.{Strings, Fields, FeatureId, add_fields, key_value_pairs, type_text}

-- FeatureAddrWithIdHash: the index of a feature, which orders the addresses of one column.
pub record HashEntry : Type 0 where
  pub feature : ℕ
  pub id_hash : ℕ

-- The columns of TileFeatureLayer::Impl that name features, and ModelPool's roots. A feature is kept
-- as the index of its id; of attributes, validities and relations the string ids are kept.
pub record FeatureLayer : Type 0 where
  pub feature_id_prefix : Option Fields
  pub features : List ℕ
  pub feature_ids : List FeatureId
  pub hash_index : List HashEntry
  pub needs_sorting : Bool
  pub roots : List ℕ
  pub attribute_names : List ℕ
  pub validity_geom_names : List ℕ
  pub relation_names : List ℕ

abbrev pub new_layer : FeatureLayer
new_layer = record {
  feature_id_prefix = none;
  features = [];
  feature_ids = [];
  hash_index = [];
  needs_sorting = false;
  roots = [];
  attribute_names = [];
  validity_geom_names = [];
  relation_names = [];
}

-- FeatureAddrWithIdHash::operator<
abbrev pub entry_less : HashEntry → HashEntry → Bool
entry_less a b = ltb a.id_hash b.id_hash || (a.id_hash == b.id_hash && ltb a.feature b.feature)

pub insert_entry : HashEntry → List HashEntry → List HashEntry
insert_entry x [] = x ∷ []
insert_entry x (y ∷ ys) =
    let rest = insert_entry x ys in if entry_less y x then y ∷ rest else x ∷ (y ∷ ys)

-- std::sort of the index.
pub sort_entries : List HashEntry → List HashEntry
unfolding insert_entry
sort_entries [] = []
sort_entries (x ∷ xs) = insert_entry x (sort_entries xs)

pub sort_when : Bool → FeatureLayer → FeatureLayer
unfolding sort_entries
sort_when true l = record l { needs_sorting = false; hash_index = sort_entries l.hash_index }
sort_when false l = l

abbrev pub sort_feature_hash_index : FeatureLayer → FeatureLayer
sort_feature_hash_index l = sort_when l.needs_sorting l

-- The entry std::lower_bound finds in a sorted index, with all that follow.
pub lower_bound : ℕ → List HashEntry → List HashEntry
lower_bound hash [] = []
lower_bound hash (x ∷ xs) =
    let rest = lower_bound hash xs in if ltb x.id_hash hash then rest else x ∷ xs

-- The loop over the entries of one hash.
pub scan_entries : ℕ → (ℕ → Bool) → List HashEntry → Option ℕ
scan_entries hash test [] = none
scan_entries hash test (x ∷ xs) =
    let rest = scan_entries hash test xs in
    if x.id_hash == hash then (if test x.feature then some x.feature else rest) else none

abbrev pub no_features : List ℕ → Bool
no_features [] = true
no_features (i ∷ is) = false

abbrev prefix_length : Option Fields → ℕ
prefix_length none = 0
prefix_length (some fields) = length fields

-- The id of feature i. Every feature of a layer has one.
abbrev pub id_at : List FeatureId → Option ℕ → Option FeatureId
id_at ids none = none
id_at ids (some k) = get_elem? ids k

abbrev pub id_of : FeatureLayer → ℕ → Option FeatureId
id_of l i = id_at l.feature_ids (get_elem? l.features i)

module _ (strings : Strings) where
  abbrev pub stripped : FeatureLayer → List IdPart → FeatureId → KeyValuePairs
  stripped l composition fid =
      strip_optional_id_parts (key_value_pairs strings l.feature_id_prefix fid) composition

  abbrev pub new_id : Bool → Text → KeyValuePairs → FeatureId
  new_id use_prefix type parts = record {
    use_common_tile_prefix = use_prefix;
    type_id = strings.emplace type;
    id_parts = add_fields strings parts;
  }

  -- The exact comparison that `find` makes for an entry of the index.
  pub id_matches : Text → List IdPart → KeyValuePairs → FeatureLayer → Option FeatureId → Bool
  id_matches type composition query l none = false
  id_matches type composition query l (some fid) =
      text_eq (type_text strings fid) type && parts_eq (stripped l composition fid) query

  abbrev pub exact_match : Text → List IdPart → KeyValuePairs → FeatureLayer → ℕ → Bool
  exact_match type composition query l i = id_matches type composition query l (id_of l i)

-- `widen` is the conversion of a char in the hash.
module _ (widen : ℕ → ℕ) (types : List FeatureTypeInfo) (strings : Strings) where
  -- What newFeature appends once the id is accepted. The entry num-features of the info document,
  -- which it sets too, is no part of the layer here.
  pub append_feature : Text → KeyValuePairs → List IdPart → FeatureLayer → FeatureLayer
  append_feature type parts composition l =
      let fid = new_id strings true type parts in
      let hash = hash_feature_id widen type (stripped strings l composition fid) in
      record l {
        feature_ids = l.feature_ids ++ (fid ∷ []);
        features = l.features ++ (length l.feature_ids ∷ []);
        hash_index = l.hash_index ++ (record { feature = length l.features; id_hash = hash } ∷ []);
        needs_sorting = true;
        roots = l.roots ++ (length l.features ∷ []);
      }

  append_with : Text → KeyValuePairs → Option (List IdPart) → FeatureLayer → Result FeatureLayer
  unfolding append_feature
  append_with type parts none l = raised
  append_with type parts (some composition) l = ok (append_feature type parts composition l)

  -- TileFeatureLayer::newFeature, for the fuel of idPartsMatchComposition. The feature is the last
  -- of the layer that is returned.
  pub new_feature : ℕ → Text → KeyValuePairs → FeatureLayer → Result FeatureLayer
  unfolding append_with accept
  new_feature fuel type [] l = raised
  new_feature fuel type (p ∷ ps) l =
      accept (valid_feature_id fuel types type (p ∷ ps) true (prefix_length l.feature_id_prefix))
        (append_with type (p ∷ ps) (get_primary_id_composition types type) l)

  -- TileFeatureLayer::newFeatureId: an id that refers to any feature, without the prefix.
  pub new_feature_id : ℕ → Text → KeyValuePairs → FeatureLayer → Result FeatureLayer
  unfolding accept
  new_feature_id fuel type parts l =
      accept (valid_feature_id fuel types type parts false 0)
        (ok (record l { feature_ids = l.feature_ids ++ (new_id strings false type parts ∷ []) }))

  set_prefix : KeyValuePairs → Option Bool → FeatureLayer → Result FeatureLayer
  set_prefix prefix none l = stuck
  set_prefix prefix (some false) l = raised
  set_prefix prefix (some true) l =
      ok (record l { feature_id_prefix = some (add_fields strings prefix) })

  -- TileFeatureLayer::setIdPrefix
  pub set_id_prefix : ℕ → KeyValuePairs → FeatureLayer → Result FeatureLayer
  unfolding set_prefix
  set_id_prefix fuel prefix l =
      if no_features l.features
      then set_prefix prefix (check_prefix fuel types prefix) l
      else raised

  find_under :
      Text → KeyValuePairs → Option (List IdPart) → FeatureLayer → Result (Option ℕ × FeatureLayer)
  unfolding lower_bound scan_entries id_matches sort_when
  find_under type parts none l = raised
  find_under type parts (some composition) l =
      let query = strip_optional_id_parts parts composition in
      let hash = hash_feature_id widen type query in
      let sorted = sort_feature_hash_index l in
      ok (
        scan_entries hash (exact_match strings type composition query sorted)
            (lower_bound hash sorted.hash_index),
        sorted,
      )

  -- TileFeatureLayer::find, which may sort the index.
  pub find : Text → KeyValuePairs → FeatureLayer → Result (Option ℕ × FeatureLayer)
  unfolding find_under
  find type parts l = find_under type parts (get_primary_id_composition types type) l

-- TileFeatureLayer::size and at.
pub size : FeatureLayer → ℕ
size l = length l.roots

pub at : FeatureLayer → ℕ → Option ℕ
at l i = get_elem? l.roots i

-- newAttribute and newRelation, as far as the name.
pub new_attribute : Strings → Text → FeatureLayer → FeatureLayer
new_attribute strings name l = record l {
  attribute_names = l.attribute_names ++ (strings.emplace name ∷ []);
}

pub new_relation : Strings → Text → FeatureLayer → FeatureLayer
new_relation strings name l = record l {
  relation_names = l.relation_names ++ (strings.emplace name ∷ []);
}
