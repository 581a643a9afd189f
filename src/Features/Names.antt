-- ===== src/Features/Names.antt =====
-- TileFeatureLayer::setStrings: another dictionary, and the names of the columns under it.
pub mod Tests
use mapget.Base.{
  ℕ, zero, suc, ◌≡◌, Bool, false, List, [], ◌∷◌, Option, none, some, map, refl, ap, get_elem?,
  Option-cases, inl, inr, if◌then◌else◌,
}
use mapget.Base.Text.{Text}
use mapget.FeatureId.{Strings, Fields, FeatureId}
use mapget.Features.{FeatureLayer}

-- The id under which the second dictionary has the name that the first one resolves.
pub renamed : Strings → Strings → ℕ → ℕ
renamed from into id = elim (from.resolve id) [ none ↦ id | some name ↦ into.emplace name ]

rename_type : Strings → Strings → FeatureId → FeatureId
unfolding renamed
rename_type from into fid = record fid { type_id = renamed from into fid.type_id }

-- The loop over the validities asks the dictionary that the layer has, the new one.
pub rename_columns : Strings → Strings → FeatureLayer → FeatureLayer
unfolding renamed rename_type
rename_columns old_dict new_dict l = record l {
  attribute_names = map (renamed old_dict new_dict) l.attribute_names;
  validity_geom_names = map (renamed new_dict new_dict) l.validity_geom_names;
  feature_ids = map (rename_type old_dict new_dict) l.feature_ids;
  relation_names = map (renamed old_dict new_dict) l.relation_names;
}

map_prefix : (Fields → Fields) → Option Fields → Option Fields
map_prefix f none = none
map_prefix f (some fields) = some (f fields)

-- `set_fields` is what ModelPool::setStrings does to an object, and `strings_eq` the comparison of
-- dictionaries.
module _ (set_fields : Strings → Fields → Fields) (strings_eq : Strings → Strings → Bool) where
  set_parts : Strings → FeatureId → FeatureId
  set_parts new_dict fid = record fid { id_parts = set_fields new_dict fid.id_parts }

  set_objects : Strings → FeatureLayer → FeatureLayer
  unfolding map_prefix set_parts
  set_objects new_dict l = record l {
    feature_id_prefix = map_prefix (set_fields new_dict) l.feature_id_prefix;
    feature_ids = map (set_parts new_dict) l.feature_ids;
  }

  -- For the dictionary that the layer had, if any.
  pub set_strings : Option Strings → Strings → FeatureLayer → FeatureLayer
  unfolding set_objects rename_columns
  set_strings none new_dict l = set_objects new_dict l
  set_strings (some old_dict) new_dict l =
      if strings_eq new_dict old_dict
      then set_objects new_dict l
      else rename_columns old_dict new_dict (set_objects new_dict l)

get_elem?-map {ℓ κ} :
    {A : Type ℓ} {B : Type κ} (f : A → B) (xs : List A) (i : ℕ) {a : A}
    → get_elem? xs i ≡ some a
    → get_elem? (map f xs) i ≡ some (f a)
get_elem?-map f [] i e = cc
get_elem?-map f (x ∷ xs) zero e = ap some (cc)
get_elem?-map f (x ∷ xs) (suc i) e = get_elem?-map f xs i e

-- Every text that the first dictionary has is known to the second in the same spelling.
abbrev pub Spells : Strings → Strings → Type 0
Spells from into =
    (id : ℕ) (name : Text)
    → from.resolve id ≡ some name
    → into.resolve (into.emplace name) ≡ some name

module _ (old_dict new_dict : Strings) where
  -- The column has, at that index, an id that the new dictionary resolves like the old one did.
  abbrev pub Kept : List ℕ → List ℕ → Type 0
  Kept before after =
      (i id : ℕ) (name : Text)
      → get_elem? before i ≡ some id
      → old_dict.resolve id ≡ some name
      → (id' : ℕ) × (get_elem? after i ≡ some id') × (new_dict.resolve id' ≡ some name)

  renamed-Kept :
      Spells old_dict new_dict
      → (column : List ℕ) → Kept column (map (renamed old_dict new_dict) column)
  unfolding renamed
  renamed-Kept spelled column i id name e r = (
    renamed old_dict new_dict id,
    get_elem?-map (renamed old_dict new_dict) column i e,
    rw (renamed, r) (spelled id name r),
  )

renamed_same :
    (dict : Strings)
    → Spells dict dict
    → (id : ℕ) → dict.resolve (renamed dict dict id) ≡ dict.resolve id
unfolding renamed
renamed_same dict spelled id = elim (Option-cases (dict.resolve id)) [
  | inl e ↦ rw (renamed, e) e
  | inr (name, e) ↦ rw (renamed, e) (spelled id name e)
]

abbrev pub type_ids : FeatureLayer → List ℕ
type_ids l = map (λ (fid : FeatureId). fid.type_id) l.feature_ids

module _ (set_fields : Strings → Fields → Fields) (strings_eq : Strings → Strings → Bool)
    (old_dict new_dict : Strings) where
  type_ids-rename :
      (ids : List FeatureId)
      → map
          (λ (fid : FeatureId). fid.type_id)
          (map (rename_type old_dict new_dict) (map (set_parts set_fields strings_eq new_dict) ids))
        ≡ map (renamed old_dict new_dict) (map (λ (fid : FeatureId). fid.type_id) ids)
  unfolding rename_type set_parts
  type_ids-rename [] = refl
  type_ids-rename (fid ∷ ids) =
      ap (λ ks. renamed old_dict new_dict fid.type_id ∷ ks) (type_ids-rename ids)

  -- A dictionary that differs from the old one and keeps the spelling of its texts leaves the names
  -- of attributes, feature types and relations as they were.
  pub set_strings-Kept :
      (l : FeatureLayer)
      → strings_eq new_dict old_dict ≡ false
      → Spells old_dict new_dict
      → Kept old_dict new_dict l.attribute_names
          (set_strings set_fields strings_eq (some old_dict) new_dict l).attribute_names
        × Kept old_dict new_dict
            (type_ids l)
            (type_ids (set_strings set_fields strings_eq (some old_dict) new_dict l))
        × Kept old_dict new_dict l.relation_names
            (set_strings set_fields strings_eq (some old_dict) new_dict l).relation_names
  unfolding set_strings set_objects rename_columns
  set_strings-Kept l differ spelled =
      rw (set_strings, differ)
        (
          renamed-Kept old_dict new_dict spelled l.attribute_names,
          rw (type_ids-rename l.feature_ids) (renamed-Kept old_dict new_dict spelled (type_ids l)),
          renamed-Kept old_dict new_dict spelled l.relation_names,
        )

  -- Of a validity the geometry name becomes, under another dictionary that keeps
  -- the spelling of its own texts, whatever the new dictionary
  -- has under the old string id, and the old dictionary has no part in it.
  pub set_strings-validity_names :
      (l : FeatureLayer) (i id : ℕ)
      → strings_eq new_dict old_dict ≡ false
      → Spells new_dict new_dict
      → get_elem? l.validity_geom_names i ≡ some id
      → (id' : ℕ) × (get_elem?
            (set_strings set_fields strings_eq (some old_dict) new_dict l).validity_geom_names
            i
          ≡ some id')
        × (new_dict.resolve id' ≡ new_dict.resolve id)
  unfolding set_strings set_objects rename_columns
  set_strings-validity_names l i id differ spelled e =
      rw (set_strings, differ)
        (
          renamed new_dict new_dict id,
          get_elem?-map (renamed new_dict new_dict) l.validity_geom_names i e,
          renamed_same new_dict spelled id,
        )
