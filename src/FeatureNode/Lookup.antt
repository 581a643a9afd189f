-- ===== src/FeatureNode/Lookup.antt =====
-- The fields of a feature by their position and by their key.
use mapget.Base.{
  ℕ, zero, suc, ◌<◌, ◌≡◌, ◌≢◌, false, List, [], ◌∷◌, Option, none, some, refl, sym, ◌∙◌, All, ◌==◌,
  ==_iff, ==_refl, length, get_elem?, Bool-cases, inl, inr, arith,
}
use mapget.FeatureNode.{
  FeatureData, Feature, find_field, node_of, key_of, node_behind, key_behind, size_behind,
  feature_at, feature_size, feature_get, feature_key_at, source_data_str, property_at,
  property_size, property_get, property_key_at, layer_str,
}

ne→beq : (k j : ℕ) → k ≢ j → (k == j) ≡ false
ne→beq k j ne = ground (arith, ne)

module _ {Node : Type 0} where
  -- No two fields have one key.
  abbrev pub DistinctKeys : List (ℕ × Node) → Type 0
  DistinctKeys [] = Unit
  DistinctKeys ((k, n) ∷ fs) = All (λ ((j, m) : ℕ × Node). j ≢ k) fs × DistinctKeys fs

  abbrev pub LacksKey : ℕ → List (ℕ × Node) → Type 0
  LacksKey key = All (λ ((j, m) : ℕ × Node). j ≢ key)

  lacks_elem :
      (fs : List (ℕ × Node)) (key i : ℕ)
      → LacksKey key fs
      → i < length fs
      → key_of (get_elem? fs i) ≢ key
  lacks_elem [] key i h lt = absurd (omega arith)
  lacks_elem ((k, n) ∷ fs) key zero (ne, h) lt = ne
  lacks_elem ((k, n) ∷ fs) key (suc i) (ne, h) lt = lacks_elem fs key i h (omega arith)

  find_field-elem :
      (fs : List (ℕ × Node)) (i : ℕ)
      → DistinctKeys fs
      → i < length fs
      → find_field fs (key_of (get_elem? fs i)) ≡ node_of (get_elem? fs i)
  unfolding find_field
  find_field-elem [] i h lt = absurd (omega arith)
  find_field-elem ((k, n) ∷ fs) zero h lt = rw (==_refl k) refl
  find_field-elem ((k, n) ∷ fs) (suc i) (ne, h) lt =
      elim (Bool-cases (k == key_of (get_elem? fs i))) [
        | inl t ↦ absurd (lacks_elem fs k i ne (omega arith) (sym ((==_iff k _).0 t)))
        | inr f ↦ rw (find_field, f) (find_field-elem fs i h (omega arith))
      ]

  -- The same behind a field of its own key.
  lookup_behind :
      (key : ℕ) (own : Option Node) (fs : List (ℕ × Node)) (i : ℕ) (found : ℕ → Option Node)
      → DistinctKeys fs
      → LacksKey key fs
      → ((n : Node) → own ≡ some n → found key ≡ some n)
      → ((k : ℕ) → k ≢ key → found k ≡ find_field fs k)
      → i < size_behind own fs
      → found (key_behind key own fs i) ≡ node_behind own fs i
  unfolding key_behind node_behind
  lookup_behind key none fs i found distinct lacks first rest lt =
      rest _ (lacks_elem fs key i lacks lt) ∙ find_field-elem fs i distinct lt
  lookup_behind key (some n) fs zero found distinct lacks first rest lt = first n refl
  lookup_behind key (some n) fs (suc i) found distinct lacks first rest lt =
      rest _ (lacks_elem fs key i lacks (omega arith)) ∙ find_field-elem fs i distinct (omega arith)

  module _ (next_static_id : ℕ) where
    -- Where no two fields of a feature have one key, and none has the key of the source data, the
    -- key at a position within the size of the feature leads to the node at that position.
    pub feature_get-feature_key_at :
        (f : Feature Node) (i : ℕ)
        → DistinctKeys f.fields
        → LacksKey (source_data_str next_static_id) f.fields
        → i < feature_size f
        → feature_get next_static_id f (feature_key_at next_static_id f i) ≡ feature_at f i
    unfolding feature_get feature_key_at feature_at feature_size
    feature_get-feature_key_at f i distinct lacks lt =
        lookup_behind (source_data_str next_static_id) f.feature_data.source_data f.fields i
          (feature_get next_static_id f) distinct lacks
          (λ n e. rw (feature_get, ==_refl (source_data_str next_static_id)) e)
          (λ k ne. rw (feature_get, ne→beq k _ ne) refl) lt

    -- The same of the properties of a feature, whose attributes are an object with distinct keys,
    -- none of them that of the attribute layers.
    property_get-property_key_at :
        (d : FeatureData Node) (attrs : List (ℕ × Node)) (i : ℕ)
        → DistinctKeys attrs
        → LacksKey (layer_str next_static_id) attrs
        → i < property_size d attrs
        → property_get next_static_id d attrs (property_key_at next_static_id d attrs i)
          ≡ property_at d attrs i
    unfolding property_get property_key_at property_at property_size
    property_get-property_key_at d attrs i distinct lacks lt =
        lookup_behind (layer_str next_static_id) d.attr_layers attrs i
          (property_get next_static_id d attrs) distinct lacks
          (λ n e. rw (property_get, ==_refl (layer_str next_static_id), e) refl)
          (λ k ne. rw (property_get, ne→beq k _ ne) refl) lt
