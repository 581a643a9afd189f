-- ===== src/Relation.antt =====
-- libs/model: Relation of include/mapget/model/relation.h and src/relation.cpp, newRelation and the
-- clone of a relation in src/featurelayer.cpp, and the relations of a feature in src/feature.cpp.
pub mod Validities
pub mod Tests
use mapget.Base.{
  ℕ, ◌+◌, Bool, true, false, List, [], ◌∷◌, ◌++◌, Option, none, some, length, get_elem?,
  if◌then◌else◌,
}
use mapget.Base.Int.{ℤ}
use mapget.Base.Result.{Result, ok, raised, of_option, ◌>>=◌}
use mapget.Base.Text.{Text, text_eq}
use mapget.Arena.{Arena}
use mapget.FeatureId.{Strings}
use mapget.Geometry.{set_at}

-- Relation::Data. The target is the index of a feature id, a validity collection the index of its
-- array; an address that is null is `none`.
pub record RelationData : Type 0 where
  pub name : ℕ
  pub target_feature_id : ℕ
  pub source_validity : Option ℤ
  pub target_validity : Option ℤ
  pub source_data : Option ℕ

-- The column of relations, and the arrays of validities.
pub record Relations (arena : Arena ℕ) : Type 0 where
  pub column : List RelationData
  pub arrays : arena.Storage

pub data RelationNode : Type 0 where
  name_node : Text → RelationNode
  feature_id_node : ℕ → RelationNode
  validities_node : ℤ → RelationNode
  source_data_node : ℕ → RelationNode

some_node : {A : Type 0} → ℕ → (A → RelationNode) → Option A → List (ℕ × RelationNode)
some_node key make none = []
some_node key make (some a) = (key, make a) ∷ []

-- Relation::name
pub relation_name : Strings → RelationData → Result Text
relation_name strings d = of_option (strings.resolve d.name)

-- The constructor of Relation, for the first id behind simfil's own; the name is read with the field.
pub relation_fields : ℕ → Strings → RelationData → Result (List (ℕ × RelationNode))
unfolding relation_name some_node
relation_fields next strings d = relation_name strings d >>= λ n. ok (
    (next + 9, name_node n)
    ∷ ((next + 10, feature_id_node d.target_feature_id)
        ∷ (some_node (next + 11) validities_node d.source_validity
            ++ (some_node (next + 12) validities_node d.target_validity
                ++ some_node (next + 22) source_data_node d.source_data))))

module _ (arena : Arena ℕ) where
  -- TileFeatureLayer::newRelation
  pub new_relation_data : Strings → Text → ℕ → Relations arena → ℕ × Relations arena
  new_relation_data strings name target s = (
    length s.column,
    record s {
      column =
          s.column
          ++ (record {
            name = strings.emplace name;
            target_feature_id = target;
            source_validity = none;
            target_validity = none;
            source_data = none;
          }
              ∷ []);
    },
  )

  -- The array that is there, or a new one, whose index `put` enters into the data of relation i.
  get_or_make : ℕ → Option ℤ → (ℤ → RelationData) → Relations arena → Result (ℤ × Relations arena)
  get_or_make i (some array) put s = ok (array, s)
  get_or_make i none put s =
      let (array, arrays) = arena.new_array s.arrays 1 in
      ok (array, record { column = set_at s.column i (put array); arrays = arrays })

  -- Relation::sourceValidity and targetValidity.
  pub source_validity : ℕ → Relations arena → Result (ℤ × Relations arena)
  unfolding get_or_make
  source_validity i s = of_option (get_elem? s.column i) >>= λ d.
      get_or_make i d.source_validity (λ a. record d { source_validity = some a }) s

  pub target_validity : ℕ → Relations arena → Result (ℤ × Relations arena)
  unfolding get_or_make
  target_validity i s = of_option (get_elem? s.column i) >>= λ d.
      get_or_make i d.target_validity (λ a. record d { target_validity = some a }) s

-- setSourceValidity, setTargetValidity and setSourceDataReferences.
pub set_source_validity : Option ℤ → RelationData → RelationData
set_source_validity array d = record d { source_validity = array }

pub set_target_validity : Option ℤ → RelationData → RelationData
set_target_validity array d = record d { target_validity = array }

pub set_source_data_references : ℕ → RelationData → RelationData
set_source_data_references refs d = record d { source_data = some refs }

-- The loop of Feature::filterRelations over the relations of a feature.
pub filter_named : Strings → Text → List RelationData → Result (List RelationData)
unfolding relation_name
filter_named strings name [] = ok []
filter_named strings name (d ∷ ds) = relation_name strings d >>= λ n.
    filter_named strings name ds >>= λ rest. ok (if text_eq n name then d ∷ rest else rest)

some_unless_empty : List RelationData → Option (List RelationData)
some_unless_empty [] = none
some_unless_empty (d ∷ ds) = some (d ∷ ds)

pub filter_relations : Strings → Text → List RelationData → Result (Option (List RelationData))
unfolding filter_named some_unless_empty
filter_relations strings name ds = filter_named strings name ds >>= λ r. ok (some_unless_empty r)
