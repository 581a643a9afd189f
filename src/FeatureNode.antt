-- ===== src/FeatureNode.antt =====
-- libs/model: the node interface of Feature and of its FeaturePropertyView, include/mapget/model/
-- feature.h and src/feature.cpp. Nodes are of any type, and an address that is null is `none`.
pub mod Lookup
pub mod Tests
use mapget.Base.{
  ℕ, zero, suc, ◌+◌, Bool, true, false, List, [], ◌∷◌, ◌++◌, Option, none, some, ◌==◌,
  if◌then◌else◌, length, get_elem?, is_some, ◌&&◌,
}

-- Feature::Data. The data of a feature is shared by all its nodes.
pub record FeatureData (Node : Type 0) : Type 0 where
  pub id : Node
  pub geom : Option Node
  pub attr_layers : Option Node
  pub attrs : Option Node
  pub relations : Option Node
  pub source_data : Option Node

-- A handle of a feature: its data as they are now, and the fields as of the last updateFields.
pub record Feature (Node : Type 0) : Type 0 where
  pub feature_data : FeatureData Node
  pub fields : List (ℕ × Node)

-- What updateFields reads from the layer: the nodes of its texts, the fields of the id prefix and
-- of the id, and the node of the properties.
pub record FeatureContext (Node : Type 0) : Type 0 where
  pub feature_text : Node
  pub type_text : Node
  pub map_text : Node
  pub layer_text : Node
  pub prefix_fields : List (ℕ × Node)
  pub id_fields : List (ℕ × Node)
  pub properties : Node

-- A field that is there only with its node.
optional_field {ℓ} : {Node : Type ℓ} → ℕ → Option Node → List (ℕ × Node)
optional_field key none = []
optional_field key (some n) = (key, n) ∷ []

abbrev either_some {ℓ} : {Node : Type ℓ} → Option Node → Option Node → Node → Option Node
either_some none none n = none
either_some (some a) b n = some n
either_some none (some b) n = some n

find_field {ℓ} : {Node : Type ℓ} → List (ℕ × Node) → ℕ → Option Node
find_field [] key = none
find_field ((k, n) ∷ fs) key = let rest = find_field fs key in if k == key then some n else rest

abbrev node_of {ℓ} : {Node : Type ℓ} → Option (ℕ × Node) → Option Node
node_of none = none
node_of (some (k, n)) = some n

-- A StringId of no value is 0.
abbrev key_of {ℓ} : {Node : Type ℓ} → Option (ℕ × Node) → ℕ
key_of none = 0
key_of (some (k, n)) = k

-- The fields behind one more that is there only with its node.
node_behind {ℓ} : {Node : Type ℓ} → Option Node → List (ℕ × Node) → ℕ → Option Node
node_behind none fields i = node_of (get_elem? fields i)
node_behind (some n) fields zero = some n
node_behind (some n) fields (suc i) = node_of (get_elem? fields i)

key_behind {ℓ} : {Node : Type ℓ} → ℕ → Option Node → List (ℕ × Node) → ℕ → ℕ
key_behind key none fields i = key_of (get_elem? fields i)
key_behind key (some n) fields zero = key
key_behind key (some n) fields (suc i) = key_of (get_elem? fields i)

abbrev size_behind {ℓ} : {Node : Type ℓ} → Option Node → List (ℕ × Node) → ℕ
size_behind none fields = length fields
size_behind (some n) fields = length fields + 1

-- LayerStr and SourceDataStr, for the first id behind simfil's own, from which StaticStringIds
-- count.
abbrev pub layer_str : ℕ → ℕ
layer_str next_static_id = next_static_id + 4

abbrev pub source_data_str : ℕ → ℕ
source_data_str next_static_id = next_static_id + 22

module _ {Node : Type 0} where
  -- Feature::at and size.
  pub feature_at : Feature Node → ℕ → Option Node
  unfolding node_behind
  feature_at f i = node_behind f.feature_data.source_data f.fields i

  pub feature_size : Feature Node → ℕ
  feature_size f = size_behind f.feature_data.source_data f.fields

  -- FeaturePropertyView::at and size, for the fields of the attributes, of which there
  -- are none where there is no object.
  pub property_at : FeatureData Node → List (ℕ × Node) → ℕ → Option Node
  unfolding node_behind
  property_at d attrs i = node_behind d.attr_layers attrs i

  pub property_size : FeatureData Node → List (ℕ × Node) → ℕ
  property_size d attrs = size_behind d.attr_layers attrs

module _ {Node : Type 0} (next_static_id : ℕ) where
  -- Feature::updateFields
  pub update_fields : FeatureContext Node → Feature Node → Feature Node
  unfolding optional_field
  update_fields c f = record f {
    fields =
        (next_static_id + 19, c.feature_text)
        ∷ (next_static_id, f.feature_data.id)
        ∷ (next_static_id + 1, c.type_text)
        ∷ (next_static_id + 2, c.map_text)
        ∷ (next_static_id + 3, c.layer_text)
        ∷ (c.prefix_fields
            ++ (c.id_fields
                ++ (optional_field (next_static_id + 15) f.feature_data.geom
                    ++ (optional_field (next_static_id + 8)
                          (either_some f.feature_data.attr_layers f.feature_data.attrs c.properties)
                        ++ optional_field (next_static_id + 5) f.feature_data.relations))));
  }

  -- Feature::get and keyAt.
  pub feature_get : Feature Node → ℕ → Option Node
  unfolding find_field
  feature_get f key =
      if key == source_data_str next_static_id
      then f.feature_data.source_data
      else find_field f.fields key

  pub feature_key_at : Feature Node → ℕ → ℕ
  unfolding key_behind
  feature_key_at f i =
      key_behind (source_data_str next_static_id) f.feature_data.source_data f.fields i

  -- Feature::geom, for the node of the collection that is made where there is none; attributeLayers,
  -- attributes and relations do the same.
  pub geom : FeatureContext Node → Node → Feature Node → Node × Feature Node
  unfolding update_fields
  geom c new f = elim f.feature_data.geom [
    | some n ↦ (n, f)
    | none ↦ (
      new,
      update_fields c (record f { feature_data = record f.feature_data { geom = some new } }),
    )
  ]

  pub attribute_layers : FeatureContext Node → Node → Feature Node → Node × Feature Node
  unfolding update_fields
  attribute_layers c new f = elim f.feature_data.attr_layers [
    | some n ↦ (n, f)
    | none ↦ (
      new,
      update_fields c
          (record f { feature_data = record f.feature_data { attr_layers = some new } }),
    )
  ]

  pub attributes : FeatureContext Node → Node → Feature Node → Node × Feature Node
  unfolding update_fields
  attributes c new f = elim f.feature_data.attrs [
    | some n ↦ (n, f)
    | none ↦ (
      new,
      update_fields c (record f { feature_data = record f.feature_data { attrs = some new } }),
    )
  ]

  pub relations : FeatureContext Node → Node → Feature Node → Node × Feature Node
  unfolding update_fields
  relations c new f = elim f.feature_data.relations [
    | some n ↦ (n, f)
    | none ↦ (
      new,
      update_fields c (record f { feature_data = record f.feature_data { relations = some new } }),
    )
  ]

  -- FeaturePropertyView::get and keyAt.
  pub property_get : FeatureData Node → List (ℕ × Node) → ℕ → Option Node
  unfolding find_field
  property_get d attrs key =
      if key == layer_str next_static_id && is_some d.attr_layers
      then d.attr_layers
      else find_field attrs key

  pub property_key_at : FeatureData Node → List (ℕ × Node) → ℕ → ℕ
  unfolding key_behind
  property_key_at d attrs i = key_behind (layer_str next_static_id) d.attr_layers attrs i
