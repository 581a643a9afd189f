-- ===== src/Features/Indexed.antt =====
-- The invariant of a layer's index of features, which every operation keeps.
use mapget.Base.{
  get_elem?-append, get_elem?-last, All-map, All-append, ℕ, ◌<◌, ◌≡◌, ◌⊎◌, inl, inr, Bool, true,
  false, List, [], ◌∷◌, ◌++◌, Option, none, some, refl, sym, subst, All, length, get_elem?,
  length-append, Option-cases, arith,
}
use mapget.Base.Text.{Text}
use mapget.IdPart.{IdPart, KeyValuePairs, FeatureTypeInfo}
use mapget.IdHash.{hash_feature_id}
use mapget.FeatureId.{Strings, Fields, FeatureId, type_text, type_text-emplace, add_fields}
use mapget.PrimaryId.{get_primary_id_composition}
use mapget.Features.{
  FeatureLayer, HashEntry, new_layer, no_features, id_at, id_of, sort_when, stripped, new_id,
  sort_feature_hash_index, append_feature,
}
use mapget.Features.Order.{Sorted, Has, Has-append, All-sort, Has-sort, sort-Sorted}

id_at-more :
    (ids more : List FeatureId) (o : Option ℕ) {fid : FeatureId}
    → id_at ids o ≡ some fid
    → id_at (ids ++ more) o ≡ some fid
id_at-more ids more none e = cc
id_at-more ids more (some k) e = get_elem?-append ids more k e

pub id_at-append :
    (fs gs : List ℕ) (ids more : List FeatureId) (i : ℕ) {fid : FeatureId}
    → id_at ids (get_elem? fs i) ≡ some fid
    → id_at (ids ++ more) (get_elem? (fs ++ gs) i) ≡ some fid
id_at-append fs gs ids more i {fid = fid} e = elim (Option-cases (get_elem? fs i)) [
  | inl n ↦ cc (subst (λ o. id_at ids o ≡ some fid) n e)
  | inr (k, n) ↦
      rw (get_elem?-append fs gs i n)
        (id_at-more ids more (some k) (subst (λ o. id_at ids o ≡ some fid) n e))
]

no_id :
    (fs : List ℕ) (ids : List FeatureId) (i : ℕ) {fid : FeatureId}
    → no_features fs ≡ true
    → ¬ (id_at ids (get_elem? fs i) ≡ some fid)
no_id [] ids i h e = cc
no_id (k ∷ fs) ids i h e = cc

pub id_at-last :
    (fs : List ℕ) (ids : List FeatureId) (fid : FeatureId)
    → id_at (ids ++ (fid ∷ [])) (get_elem? (fs ++ (length ids ∷ [])) (length fs)) ≡ some fid
id_at-last fs ids fid = rw (get_elem?-last fs (length ids)) (get_elem?-last ids fid)

last-or : (fs : List ℕ) (k i : ℕ) → i < length (fs ++ (k ∷ [])) → (i < length fs) ⊎ (i ≡ length fs)
last-or fs k i h = ground (arith, length-append fs (k ∷ []))

module _ (widen : ℕ → ℕ) (types : List FeatureTypeInfo) (strings : Strings) where
  -- The entry is of a feature, under the hash of its id without optional parts.
  abbrev pub EntryHash : FeatureLayer → HashEntry → Type 0
  EntryHash l x =
      (fid : FeatureId) × (c : List IdPart) × (id_of l x.feature ≡ some fid)
      × (get_primary_id_composition types (type_text strings fid) ≡ some c)
      × (x.id_hash ≡ hash_feature_id widen (type_text strings fid) (stripped strings l c fid))

  pub record Indexed (l : FeatureLayer) : Type 0 where
    pub sorted : l.needs_sorting ≡ false → Sorted l.hash_index
    pub hashed : All (EntryHash l) l.hash_index
    pub complete : (i : ℕ) → i < length l.features → Has i l.hash_index
    pub roots_length : length l.roots ≡ length l.features
    pub roots : (i : ℕ) → i < length l.features → get_elem? l.roots i ≡ some i

  pub new_layer-Indexed : Indexed new_layer
  new_layer-Indexed = record {
    sorted = λ e. tt;
    hashed = tt;
    complete = λ i h. absurd (omega arith);
    roots_length = refl;
    roots = λ i h. absurd (omega arith);
  }

  sort_when-Indexed : (b : Bool) (l : FeatureLayer) → Indexed l → Indexed (sort_when b l)
  unfolding sort_when
  sort_when-Indexed false l h = h
  sort_when-Indexed true l h = record {
    sorted = λ e. sort-Sorted l.hash_index;
    hashed = All-sort (EntryHash l) l.hash_index h.hashed;
    complete = λ i k. Has-sort i l.hash_index (h.complete i k);
    roots_length = h.roots_length;
    roots = h.roots;
  }

  pub sort-Indexed : (l : FeatureLayer) → Indexed l → Indexed (sort_feature_hash_index l)
  sort-Indexed l h = sort_when-Indexed l.needs_sorting l h

  sort_when-Sorted :
      (b : Bool) (l : FeatureLayer)
      → Indexed l
      → l.needs_sorting ≡ b
      → Sorted (sort_when b l).hash_index
  unfolding sort_when
  sort_when-Sorted false l h e = h.sorted e
  sort_when-Sorted true l h e = sort-Sorted l.hash_index

  pub sort-Sorted_index :
      (l : FeatureLayer) → Indexed l → Sorted (sort_feature_hash_index l).hash_index
  sort-Sorted_index l h = sort_when-Sorted l.needs_sorting l h refl

  -- More ids, whatever they are for.
  pub more_ids-Indexed :
      (ids : List FeatureId) (l : FeatureLayer)
      → Indexed l
      → Indexed (record l { feature_ids = l.feature_ids ++ ids })
  more_ids-Indexed ids l h = record {
    sorted = h.sorted;
    hashed =
        All-map l.hash_index
          (λ x (fid, c, e, p, q). (fid, c, id_at-more l.feature_ids ids _ e, p, q)) h.hashed;
    complete = h.complete;
    roots_length = h.roots_length;
    roots = h.roots;
  }

  -- Another prefix, before there are features.
  pub prefix-Indexed :
      (prefix : Option Fields) (l : FeatureLayer)
      → no_features l.features ≡ true
      → Indexed l
      → Indexed (record l { feature_id_prefix = prefix })
  prefix-Indexed prefix l none_yet h = record {
    sorted = h.sorted;
    hashed =
        All-map l.hash_index
          (λ x (fid, c, e, p, q). absurd (no_id l.features l.feature_ids x.feature none_yet e))
          h.hashed;
    complete = h.complete;
    roots_length = h.roots_length;
    roots = h.roots;
  }

  -- A change that only appends features and ids.
  EntryHash-append :
      (l : FeatureLayer) (fs : List ℕ) (ids : List FeatureId) (x : HashEntry)
      → EntryHash l x
      → EntryHash (record l { features = l.features ++ fs; feature_ids = l.feature_ids ++ ids }) x
  EntryHash-append l fs ids x (fid, c, e, p, h) =
      (fid, c, id_at-append l.features fs l.feature_ids ids x.feature e, p, h)

  append_feature-EntryHash :
      (type : Text) (parts : KeyValuePairs) (c : List IdPart) (l : FeatureLayer)
      → get_primary_id_composition types type ≡ some c
      → strings.resolve (strings.emplace type) ≡ some type
      → EntryHash (append_feature widen types strings type parts c l) (record {
        feature = length l.features;
        id_hash =
            hash_feature_id widen type (stripped strings l c (new_id strings true type parts));
      })
  unfolding append_feature
  append_feature-EntryHash type parts c l p known =
      let t = type_text-emplace strings type true (add_fields strings parts) known in
      (
        new_id strings true type parts,
        c,
        id_at-last l.features l.feature_ids (new_id strings true type parts),
        rw t p,
        rw t refl,
      )

  pub append_feature-Indexed :
      (type : Text) (parts : KeyValuePairs) (c : List IdPart) (l : FeatureLayer)
      → get_primary_id_composition types type ≡ some c
      → strings.resolve (strings.emplace type) ≡ some type
      → Indexed l
      → Indexed (append_feature widen types strings type parts c l)
  unfolding append_feature
  append_feature-Indexed type parts c l p known h = record {
    sorted = λ e. cc;
    hashed =
        All-append (EntryHash (append_feature widen types strings type parts c l)) l.hash_index _
          (All-map l.hash_index (EntryHash-append l _ _) h.hashed)
          (append_feature-EntryHash type parts c l p known, tt);
    complete = λ i k. Has-append i l.hash_index _ (elim (last-or l.features _ i k) [
      | inl lt ↦ inl (h.complete i lt)
      | inr e ↦ inr (inl (sym e))
    ]);
    roots_length = omega (
      arith,
      h.roots_length,
      length-append l.roots (length l.features ∷ []),
      length-append l.features (length l.feature_ids ∷ []),
    );
    roots = λ i k. elim (last-or l.features _ i k) [
      | inl lt ↦ get_elem?-append l.roots _ i (h.roots i lt)
      | inr e ↦ rw (e, sym h.roots_length) (get_elem?-last l.roots (length l.roots))
    ];
  }
