-- ===== src/IdPart/Hang.antt =====
-- The second loop of idPartsMatchComposition at an optional part.
use mapget.Base.{ℕ, zero, suc, ◌≡◌, true, List, ◌∷◌, ◌++◌, none, refl, length, arith}
use mapget.IdPart.{IdPart, KeyValuePairs, end_loop, finish, matches_composition}
use mapget.IdPart.Match.{Matches, AllRequired, match_loop-append}

-- No fuel is enough: the iterator does not move.
end_loop-optional :
    (fuel : ℕ) (c : IdPart) (cs : List IdPart)
    → c.is_optional ≡ true
    → end_loop fuel (c ∷ cs) ≡ none
unfolding end_loop
end_loop-optional zero c cs o = refl
end_loop-optional (suc fuel) c cs o = ground (arith, end_loop-optional fuel c cs o)

-- Where a feature id matches the required parts at the front of a composition and the next part is
-- optional, the code does not answer however long it runs.
pub matches_composition-hangs :
    (fuel : ℕ) (cs : List IdPart) (c : IdPart) (rest : List IdPart) (ps : KeyValuePairs)
    → AllRequired cs
    → Matches cs ps
    → c.is_optional ≡ true
    → matches_composition fuel (cs ++ (c ∷ rest)) 0 ps (length ps) true ≡ none
unfolding matches_composition finish
matches_composition-hangs fuel cs c rest ps r m o =
    rw (match_loop-append (c ∷ rest) r m, end_loop-optional fuel c rest o, finish)
