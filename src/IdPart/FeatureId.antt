-- ===== src/IdPart/FeatureId.antt =====
-- LayerInfo::validFeatureId for compositions without optional parts.
use mapget.Base.{
  ℕ, suc, ◌≡◌, ◌↔◌, ◌⊎◌, inl, inr, Bool, true, false, List, [], ◌∷◌, some, refl, drop,
  if◌then◌else◌,
}
use mapget.Base.Text.{Text}
use mapget.IdPart.{
  IdPart, KeyValuePairs, FeatureTypeInfo, get_type_info, Outcome, returns, check_compositions,
  valid_feature_id,
}
use mapget.IdPart.Match.{Matches, AllRequired, matches_composition-required}

-- Some composition is matched, from the start index on.
abbrev pub AnyMatches : ℕ → KeyValuePairs → List (List IdPart) → Type 0
AnyMatches start ps [] = ⊥
AnyMatches start ps (c ∷ cs) = Matches (drop start c) ps ⊎ AnyMatches start ps cs

abbrev pub EachRequired : ℕ → List (List IdPart) → Type 0
EachRequired start [] = Unit
EachRequired start (c ∷ cs) = AllRequired (drop start c) × EachRequired start cs

-- The compositions that the check may use: the primary one alone for a new feature.
abbrev pub usable : Bool → List (List IdPart) → List (List IdPart)
usable false cs = cs
usable true [] = []
usable true (c ∷ cs) = c ∷ []

-- The answer `b` of a check that means `P`.
abbrev Answers : Outcome → Type 0 → Type 0
Answers o P = (b : Bool) × (o ≡ returns b) × ((b ≡ true) ↔ P)

-- One composition found or not, before the answer `later` of the others.
decide :
    (b : Bool) (o : Outcome) (P Q : Type 0)
    → ((b ≡ true) ↔ P)
    → Answers o Q
    → Answers (if b then returns true else o) (P ⊎ Q)
decide true o P Q iff later = (true, refl, ((λ e. inl (iff.0 refl)), (λ h. refl)))
decide false o P Q iff (b, e, other) =
    (b, e, ((λ t. inr (other.0 t)), (λ h. elim h [ inl p ↦ cc (iff.1 p) | inr q ↦ other.1 q ])))

nothing : Answers (returns false) ⊥
nothing = (false, refl, ((λ e. cc), (λ h. absurd h)))

check_compositions-Answers :
    (fuel start : ℕ) (ps : KeyValuePairs) (for_new : Bool) (cs : List (List IdPart))
    → EachRequired start cs
    → Answers
        (check_compositions (suc fuel) start ps for_new cs)
        (AnyMatches start ps (usable for_new cs))
unfolding check_compositions
check_compositions-Answers fuel start ps true [] r = nothing
check_compositions-Answers fuel start ps false [] r = nothing
check_compositions-Answers fuel start ps true (c ∷ cs) r =
    let (b, e, iff) = matches_composition-required fuel c start ps r.0 in
    rw (e, check_compositions) (decide b (returns false) (Matches (drop start c) ps) ⊥ iff nothing)
check_compositions-Answers fuel start ps false (c ∷ cs) r =
    let (b, e, iff) = matches_composition-required fuel c start ps r.0 in
    let later = check_compositions-Answers fuel start ps false cs r.1 in
    rw (e, check_compositions)
      (decide b (check_compositions (suc fuel) start ps false cs) (Matches (drop start c) ps)
        (AnyMatches start ps cs) iff later)

-- For a known feature type whose compositions have no optional parts the check always answers, and
-- it answers true exactly when the parts match one of the usable compositions: any of them for a
-- reference, the first one for a new feature.
pub valid_feature_id-AnyMatches :
    (fuel : ℕ) (types : List FeatureTypeInfo) (type_id : Text) (ps : KeyValuePairs) (for_new : Bool)
    (start : ℕ) (info : FeatureTypeInfo)
    → get_type_info types type_id ≡ some info
    → EachRequired start info.unique_id_compositions
    → (b : Bool) × (valid_feature_id (suc fuel) types type_id ps for_new start ≡ returns b)
      × ((b ≡ true) ↔ AnyMatches start ps (usable for_new info.unique_id_compositions))
unfolding valid_feature_id
valid_feature_id-AnyMatches fuel types type_id ps for_new start info found r =
    rw (found, valid_feature_id)
      (check_compositions-Answers fuel start ps for_new info.unique_id_compositions r)
