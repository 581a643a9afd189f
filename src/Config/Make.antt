-- ===== src/Config/Make.antt =====
-- makeDataSource after registerDataSourceType.
use mapget.Base.{
  ◌≡◌, Bool, true, false, List, [], ◌∷◌, Option, some, refl, sym, ◌∙◌, ap, if◌then◌else◌, inl, inr,
  Bool-cases,
}
use mapget.Base.Result.{Result, ok}
use mapget.Base.Text.{Text, text_eq, text_eq→eq, text_eq_iff}
use mapget.Config.{
  ConfigService, Made, set_constructor, find_constructor, register_data_source_type,
  make_data_source, make_typed, finish_source,
}

find_constructor-set_constructor {ℓ} :
    {C : Type ℓ} (name wanted : Text) (c : C) (cs : List (Text × C))
    → find_constructor (set_constructor name c cs) wanted
      ≡ (if text_eq name wanted then some c else find_constructor cs wanted)
unfolding find_constructor set_constructor
find_constructor-set_constructor name wanted c [] = refl
find_constructor-set_constructor name wanted c ((n, d) ∷ cs) = elim (Bool-cases (text_eq n name)) [
  | inl t ↦
      rw (set_constructor, t, text_eq→eq n name t)
        (elim (Bool-cases (text_eq name wanted)) [ inl u ↦ rw u refl | inr u ↦ rw u refl ])
  | inr f ↦
      rw (set_constructor, f)
        (elim (Bool-cases (text_eq n wanted)) [
          | inr g ↦ rw (find_constructor, g) (find_constructor-set_constructor name wanted c cs)
          | inl t ↦ (elim (Bool-cases (text_eq name wanted)) [
            | inr u ↦ rw (find_constructor, t, u) refl
            | inl u ↦
                cc (
                  f,
                  (text_eq_iff n name).1 (text_eq→eq n wanted t ∙ sym (text_eq→eq name wanted u)),
                )
          ])
        ])
]

ok-if : {A : Type 0} (b : Bool) (x y : A) → ok (if b then x else y) ≡ (if b then ok x else ok y)
ok-if true x y = refl
ok-if false x y = refl

module _ {Node Source : Type 0} (type_of : Node → Result (Option Text))
    (auth_headers : Node → List (Text × Text))
    (require : Text × Text → Source → Option Source) where
  make_typed-choice :
      (b : Bool) (c : Node → Made Source) (o : Option (Node → Made Source)) (descriptor : Node)
      → make_typed type_of auth_headers require (if b then some c else o) descriptor ≡ (
          if b
          then finish_source type_of auth_headers require descriptor (c descriptor)
          else make_typed type_of auth_headers require o descriptor)
  unfolding make_typed
  make_typed-choice true c o descriptor = refl
  make_typed-choice false c o descriptor = refl

  -- After a constructor is registered for a type name, a descriptor of that type is made by it, with
  -- the header options of the descriptor required in their order, and a descriptor of another type
  -- is made as before.
  make-register_data_source_type :
      (name : Text) (c : Node → Made Source) (s : ConfigService Node Source) (descriptor : Node)
      (type : Text)
      → type_of descriptor ≡ ok (some type)
      → make_data_source type_of auth_headers require
          (register_data_source_type name c s)
          descriptor
        ≡ (if text_eq name type
            then ok (finish_source type_of auth_headers require descriptor (c descriptor))
            else make_data_source type_of auth_headers require s descriptor)
  unfolding make_data_source make_typed register_data_source_type
  make-register_data_source_type name c s descriptor type e =
      let typed =
        ap (λ o. make_typed type_of auth_headers require o descriptor)
          (find_constructor-set_constructor name type c s.constructors)
        ∙ make_typed-choice (text_eq name type) c (find_constructor s.constructors type)
            descriptor in
      rw (make_data_source, e) (ap ok typed ∙ ok-if (text_eq name type) _ _)
