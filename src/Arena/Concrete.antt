-- ===== src/Arena/Concrete.antt =====
-- An arena that is a list of lists. It shows that the laws of Arena can hold, and runs the geometry
-- code in the tests.
use mapget.Base.{ℕ, ◌≡◌, List, [], ◌∷◌, ◌++◌, Option, none, some, length, get_elem?, refl}
use mapget.Base.Int.{ℤ, pos, negsuc}
use mapget.Arena.{Arena, ArenaLaws, array_size, array_at, extend}

module _ {A : Type 0} where
  abbrev lists_emplace : List (List A) → ℤ → A → Option (List (List A))
  lists_emplace s (pos i) a = elim (get_elem? s i) [ none ↦ none | some xs ↦ some (extend s i a) ]
  lists_emplace s (negsuc i) a = none

  abbrev lists_size : List (List A) → ℤ → Option ℕ
  lists_size s (pos i) = array_size (get_elem? s i)
  lists_size s (negsuc i) = none

  abbrev lists_at : List (List A) → ℤ → ℕ → Option A
  lists_at s (pos i) j = array_at (get_elem? s i) j
  lists_at s (negsuc i) j = none

pub emplaced :
    {A : Type 0} (s : List (List A)) (i : ℕ) (a : A) {xs : List A} (o : Option (List A))
    → o ≡ some xs
    → (elim o [ none ↦ none | some ys ↦ some (extend s i a) ]) ≡ some (extend s i a)
emplaced s i a none e = cc
emplaced s i a (some ys) e = refl

abbrev pub lists : (A : Type 0) → Arena A
lists A = record {
  Storage = List (List A);
  new_array = λ s n. (pos (length s), s ++ ([] ∷ []));
  emplace_back = lists_emplace;
  size = lists_size;
  at = lists_at;
}

abbrev pub lists_laws : (A : Type 0) → ArenaLaws (lists A)
lists_laws A = record {
  contents = λ s. s;
  new_array-index = λ s n. refl;
  new_array-contents = λ s n. refl;
  emplace_back-contents = λ s i a e. (extend s i a, emplaced s i a (get_elem? s i) e, refl);
  size-contents = λ s i. refl;
  at-contents = λ s i j. refl;
}
