-- ===== src/IdPart/Match.antt =====
-- When the parts of a feature id match a composition.
use mapget.Base.{
  ℕ, zero, suc, ◌≡◌, ◌↔◌, Bool, true, false, List, [], ◌∷◌, ◌++◌, some, refl, subst, Option-cases,
  append-nil, ◌&&◌, ap, sym, ◌∙◌, arith, length, Bool-cases, inl, inr, drop, ◌==◌,
}
use mapget.Base.Text.{text_eq, text_eq→eq, text_eq_refl}
use mapget.IdPart.{
  IdPart, Value, KeyValuePairs, validate, is_valid, Ending, refused, ended, match_loop, end_loop,
  finish, matches_composition,
}

-- A composition matched from its start to its end, with optional parts present or left out.
pub data Matches : List IdPart → KeyValuePairs → Type 0 where
  done : Matches [] []
  field :
      {c : IdPart} {v : Value} {cs : List IdPart} {ps : KeyValuePairs}
      → is_valid (validate c v) ≡ true
      → Matches cs ps
      → Matches (c ∷ cs) ((c.label, v) ∷ ps)
  skip :
      {c : IdPart} {cs : List IdPart} {ps : KeyValuePairs}
      → c.is_optional ≡ true
      → Matches cs ps
      → Matches (c ∷ cs) ps

abbrev pub AllRequired : List IdPart → Type 0
AllRequired [] = Unit
AllRequired (c ∷ cs) = (c.is_optional ≡ false) × AllRequired cs

end_loop-true : (fuel : ℕ) (cs : List IdPart) → end_loop fuel cs ≡ some true → cs ≡ []
unfolding end_loop
end_loop-true zero cs h = cc
end_loop-true (suc fuel) [] h = refl
end_loop-true (suc fuel) (c ∷ cs) h = ground (arith, end_loop-true fuel (c ∷ cs))

-- The first loop with nothing left of the composition and of the parts.
match_loop-Matches :
    (cs : List IdPart) (ps : KeyValuePairs)
    → match_loop cs ps (length ps) ≡ ended [] 0
    → Matches cs ps
unfolding match_loop
match_loop-Matches [] [] h = done
match_loop-Matches [] (p ∷ ps) h = cc
match_loop-Matches (c ∷ cs) [] h = cc
match_loop-Matches (c ∷ cs) ((k, v) ∷ ps) h = elim (Bool-cases (text_eq c.label k)) [
  | inl same ↦ elim (Bool-cases (is_valid (validate c v))) [
    | inl valid ↦
        subst (λ l. Matches (c ∷ cs) ((l, v) ∷ ps)) (text_eq→eq c.label k same)
          (field valid (match_loop-Matches cs ps (rw (same, valid) at h)))
    | inr bad ↦ cc (rw (same, bad) at h)
  ]
  | inr other ↦ elim (Bool-cases c.is_optional) [
    | inl o ↦ skip o (match_loop-Matches cs ((k, v) ∷ ps) (rw (other, o) at h))
    | inr r ↦ cc (rw (other, r) at h)
  ]
]

finish-true : (fuel : ℕ) (e : Ending) → finish fuel true e ≡ some true → e ≡ ended [] 0
unfolding finish
finish-true fuel refused h = cc
finish-true fuel (ended cs n) h = elim (Option-cases (end_loop fuel cs)) [
  | inl out ↦ cc (rw (out, finish) at h)
  | inr (b, e) ↦ all_matched b e (rw (e, finish) at h)
]
  where
    all_matched :
        (b : Bool)
        → end_loop fuel cs ≡ some b
        → some (b && n == 0) ≡ some true
        → ended cs n ≡ ended [] 0
    all_matched true e k = rw (end_loop-true fuel cs e) (ground arith)
    all_matched false e k = cc

-- Whenever the end of the composition is asked for and the code answers true, the parts match the
-- composition from the start index to its end.
pub matches_composition-Matches :
    (fuel : ℕ) (composition : List IdPart) (start : ℕ) (ps : KeyValuePairs)
    → matches_composition fuel composition start ps (length ps) true ≡ some true
    → Matches (drop start composition) ps
unfolding matches_composition
matches_composition-Matches fuel composition start ps h =
    let cs = drop start composition in
    match_loop-Matches cs ps (finish-true fuel (match_loop cs ps (length ps)) h)

-- Required parts that match are consumed with all of the feature id, whatever stands behind them.
pub match_loop-append :
    {cs : List IdPart} {ps : KeyValuePairs} (rest : List IdPart)
    → AllRequired cs
    → Matches cs ps
    → match_loop (cs ++ rest) ps (length ps) ≡ ended rest 0
unfolding match_loop
match_loop-append rest r done = refl
match_loop-append rest r (field {c = c} valid m) =
    rw (text_eq_refl c.label, valid) (match_loop-append rest r.1 m)
match_loop-append rest r (skip {c = c} o m) = cc (r.0, o)

end_loop-required :
    (fuel : ℕ) (cs : List IdPart) → AllRequired cs → (b : Bool) × (end_loop (suc fuel) cs ≡ some b)
unfolding end_loop
end_loop-required fuel [] r = (true, refl)
end_loop-required fuel (c ∷ cs) r = (false, rw r.0)

-- What the first loop leaves of required parts is required.
abbrev LeavesRequired : Ending → Type 0
LeavesRequired refused = Unit
LeavesRequired (ended cs n) = AllRequired cs

match_loop-LeavesRequired :
    (cs : List IdPart) (ps : KeyValuePairs) (n : ℕ)
    → AllRequired cs
    → LeavesRequired (match_loop cs ps n)
unfolding match_loop
match_loop-LeavesRequired [] ps zero r = tt
match_loop-LeavesRequired (c ∷ cs) ps zero r = r
match_loop-LeavesRequired [] ps (suc n) r = tt
match_loop-LeavesRequired (c ∷ cs) [] (suc n) r = tt
match_loop-LeavesRequired (c ∷ cs) ((k, v) ∷ ps) (suc n) r =
    ground (arith, match_loop-LeavesRequired cs ps n r.1)

finish-required :
    (fuel : ℕ) (e : Ending) → LeavesRequired e → (b : Bool) × (finish (suc fuel) true e ≡ some b)
unfolding finish
finish-required fuel refused r = (false, refl)
finish-required fuel (ended cs n) r =
    let (b, e) = end_loop-required fuel cs r in (b && n == 0, rw (e, finish))

match_loop_complete :
    (fuel : ℕ) (cs : List IdPart) (ps : KeyValuePairs)
    → AllRequired cs
    → Matches cs ps
    → finish (suc fuel) true (match_loop cs ps (length ps)) ≡ some true
unfolding finish
match_loop_complete fuel cs ps r m =
    ap (finish (suc fuel) true)
      (ap (λ l. match_loop l ps (length ps)) (sym (append-nil cs)) ∙ match_loop-append [] r m)

-- For a composition without optional parts the code always answers, after one round of the second
-- loop at most, and it answers true exactly when the parts match.
pub matches_composition-required :
    (fuel : ℕ) (composition : List IdPart) (start : ℕ) (ps : KeyValuePairs)
    → AllRequired (drop start composition)
    → (b : Bool) × (matches_composition (suc fuel) composition start ps (length ps) true ≡ some b)
      × ((b ≡ true) ↔ Matches (drop start composition) ps)
unfolding matches_composition
matches_composition-required fuel composition start ps r =
    let cs = drop start composition in
    let (b, e) =
      finish-required fuel (match_loop cs ps (length ps))
        (match_loop-LeavesRequired cs ps (length ps) r) in
    (
      b,
      e,
      (
        (λ t. matches_composition-Matches (suc fuel) composition start ps (rw t at e)),
        (λ m. cc (match_loop_complete fuel cs ps r m)),
      ),
    )
