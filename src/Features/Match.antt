-- ===== src/Features/Match.antt =====
-- What the comparison of an entry with the id that is looked for means.
use mapget.Base.{
  ℕ, ◌≡◌, inl, inr, ==_iff, Bool, true, false, ◌&&◌, List, [], ◌∷◌, some, refl, ap, arith,
  Option-cases, subst,
}
use mapget.Base.Int.{pos, negsuc}
use mapget.Base.Text.{Text, text_eq, text_eq→eq, text_eq_refl}
use mapget.IdPart.{IdPart, Value, integer, text, KeyValuePairs}
use mapget.FeatureId.{Strings, FeatureId, type_text}
use mapget.PrimaryId.{value_eq, parts_eq}
use mapget.Features.{FeatureLayer, id_of, stripped, id_matches, exact_match}

value_eq→eq : (v w : Value) → value_eq v w ≡ true → v ≡ w
value_eq→eq (integer (pos m)) (integer (pos n)) h = ap (λ k. integer (pos k)) ((==_iff m n).0 h)
value_eq→eq (integer (negsuc m)) (integer (negsuc n)) h =
    ap (λ k. integer (negsuc k)) ((==_iff m n).0 h)
value_eq→eq (text s) (text t) h = ap text (text_eq→eq s t h)
value_eq→eq (integer (pos m)) (integer (negsuc n)) h = cc
value_eq→eq (integer (negsuc m)) (integer (pos n)) h = cc
value_eq→eq (integer (pos m)) (text t) h = cc
value_eq→eq (integer (negsuc m)) (text t) h = cc
value_eq→eq (text s) (integer n) h = cc

value_eq_refl : (v : Value) → value_eq v v ≡ true
value_eq_refl (integer (pos m)) = ground arith
value_eq_refl (integer (negsuc m)) = ground arith
value_eq_refl (text s) = text_eq_refl s

and_true : (a b : Bool) → a && b ≡ true → (a ≡ true) × (b ≡ true)
and_true true true h = (refl, refl)
and_true true false h = cc
and_true false b h = cc

pub parts_eq→eq : (ps qs : KeyValuePairs) → parts_eq ps qs ≡ true → ps ≡ qs
unfolding parts_eq
parts_eq→eq [] [] h = refl
parts_eq→eq [] (q ∷ qs) h = cc
parts_eq→eq (p ∷ ps) [] h = cc
parts_eq→eq ((k, v) ∷ ps) ((j, w) ∷ qs) h =
    let (front, c) = and_true (text_eq k j && value_eq v w) (parts_eq ps qs) h in
    let (a, b) = and_true (text_eq k j) (value_eq v w) front in
    rw (text_eq→eq k j a, value_eq→eq v w b, parts_eq→eq ps qs c) refl

pub parts_eq_refl : (ps : KeyValuePairs) → parts_eq ps ps ≡ true
unfolding parts_eq
parts_eq_refl [] = refl
parts_eq_refl ((k, v) ∷ ps) = rw (text_eq_refl k, value_eq_refl v, parts_eq_refl ps) refl

module _ (strings : Strings) where
  -- Feature i has that type and, without the optional parts of the composition, those parts.
  abbrev pub IsMatch : Text → List IdPart → KeyValuePairs → FeatureLayer → ℕ → Type 0
  IsMatch type composition query l i =
      (fid : FeatureId) × (id_of l i ≡ some fid)
      × (type_text strings fid ≡ type)
      × (stripped strings l composition fid ≡ query)

  pub exact_match→IsMatch :
      (type : Text) (c : List IdPart) (query : KeyValuePairs) (l : FeatureLayer) (i : ℕ)
      → exact_match strings type c query l i ≡ true
      → IsMatch type c query l i
  unfolding id_matches
  exact_match→IsMatch type c query l i h = elim (Option-cases (id_of l i)) [
    | inl e ↦ cc (subst (λ o. id_matches strings type c query l o ≡ true) e h)
    | inr (fid, e) ↦
        (let both = and_true _ _ (subst (λ o. id_matches strings type c query l o ≡ true) e h) in
          (fid, e, text_eq→eq _ _ both.0, parts_eq→eq _ _ both.1))
  ]

  pub IsMatch→exact_match :
      (type : Text) (c : List IdPart) (query : KeyValuePairs) (l : FeatureLayer) (i : ℕ)
      → IsMatch type c query l i
      → exact_match strings type c query l i ≡ true
  unfolding id_matches
  IsMatch→exact_match type c query l i (fid, e, t, p) =
      rw (e, id_matches, t, text_eq_refl type, p, parts_eq_refl query) refl
