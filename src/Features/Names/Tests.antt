-- ===== src/Features/Names/Tests.antt =====
-- A layer of ways that is moved to another dictionary.
use mapget.Base.{
  ℕ, zero, suc, Bool-cases, inl, inr, ap, ◌≡◌, true, false, List, [], ◌∷◌, some, refl, get_elem?,
}
use mapget.Base.Text.{Text, codes, text_eq, text_eq→eq, text_eq_refl}
use mapget.FeatureId.{Strings}
use mapget.Features.{FeatureLayer}
use mapget.Features.Names.{
  Spells, Kept, type_ids, set_strings, set_strings-Kept, set_strings-validity_names,
}
use mapget.Features.Sample.{names, position, dictionary, one_way}

position-known :
    (ns : List Text) (i : ℕ) (t : Text)
    → get_elem? ns i ≡ some t
    → get_elem? ns (position ns t) ≡ some t
position-known [] i t e = cc
position-known (n ∷ ns) zero t e =
    let same : text_eq n t ≡ true = cc (text_eq_refl t) in rw (position, same) e
position-known (n ∷ ns) (suc i) t e = elim (Bool-cases (text_eq n t)) [
  | inl same ↦ rw (position, same) (ap some (text_eq→eq n t same))
  | inr other ↦ rw (position, other) (position-known ns i t e)
]

-- The dictionary that a layer is moved to has the texts at other ids.
abbrev new_names : List Text
new_names = codes "lane" ∷ names

abbrev new_dictionary : Strings
new_dictionary = record { emplace = position new_names; resolve = get_elem? new_names }

abbrev named_layer : FeatureLayer
named_layer = record one_way {
  attribute_names = 3 ∷ [];
  validity_geom_names = 1 ∷ [];
  relation_names = 4 ∷ [];
}

Spells-new_dictionary : Spells dictionary new_dictionary
Spells-new_dictionary i t e = position-known new_names (suc i) t e

Spells-itself : Spells new_dictionary new_dictionary
Spells-itself i t e = position-known new_names i t e

set_strings-Kept_example :
    Kept dictionary new_dictionary named_layer.attribute_names
      (set_strings
        (λ d fs. fs)
        (λ a b. false)
        (some dictionary)
        new_dictionary
        named_layer).attribute_names
    × Kept dictionary new_dictionary (type_ids named_layer) (
        type_ids
          (set_strings (λ d fs. fs) (λ a b. false) (some dictionary) new_dictionary named_layer))
    × Kept dictionary new_dictionary named_layer.relation_names
        (set_strings
          (λ d fs. fs)
          (λ a b. false)
          (some dictionary)
          new_dictionary
          named_layer).relation_names
set_strings-Kept_example =
    set_strings-Kept (λ d fs. fs) (λ a b. false) dictionary new_dictionary named_layer refl
      Spells-new_dictionary

set_strings-validity_names_example :
    (id : ℕ) × (get_elem?
        (set_strings
          (λ d fs. fs)
          (λ a b. false)
          (some dictionary)
          new_dictionary
          named_layer).validity_geom_names
        0
      ≡ some id)
    × (new_dictionary.resolve id ≡ new_dictionary.resolve 1)
set_strings-validity_names_example =
    set_strings-validity_names (λ d fs. fs) (λ a b. false) dictionary new_dictionary named_layer 0 1
      refl Spells-itself refl
