-- ===== src/Arena.antt =====
-- simfil::ArrayArena, the arrays of vertices and of addresses that a model pool keeps, which is not
-- part of the repository: its operations, and what the geometry code relies on.
pub mod Concrete
use mapget.Base.{ℕ, zero, suc, ◌≡◌, List, [], ◌∷◌, ◌++◌, Option, none, some, length, get_elem?}
use mapget.Base.Int.{ℤ, pos}

-- `none` is an exception. A new array is given the number of elements to expect.
pub record Arena (A : Type 0) : Type 1 where
  pub Storage : Type 0
  pub new_array : Storage → ℕ → ℤ × Storage
  pub emplace_back : Storage → ℤ → A → Option Storage
  pub size : Storage → ℤ → Option ℕ
  pub at : Storage → ℤ → ℕ → Option A

module _ {A : Type 0} where
  abbrev pub array_size : Option (List A) → Option ℕ
  array_size none = none
  array_size (some xs) = some (length xs)

  abbrev pub array_at : Option (List A) → ℕ → Option A
  array_at none i = none
  array_at (some xs) i = get_elem? xs i

  -- The arrays after one more element of one of them.
  abbrev pub extend : List (List A) → ℕ → A → List (List A)
  extend [] i a = []
  extend (xs ∷ xss) zero a = (xs ++ (a ∷ [])) ∷ xss
  extend (xs ∷ xss) (suc i) a = xs ∷ extend xss i a

-- The storage is a list of arrays, which grow at their ends.
pub record ArenaLaws {A : Type 0} (arena : Arena A) : Type 0 where
  pub contents : arena.Storage → List (List A)
  pub new_array-index :
      (s : arena.Storage) (n : ℕ) → (arena.new_array s n).0 ≡ pos (length (contents s))
  pub new_array-contents :
      (s : arena.Storage) (n : ℕ) → contents (arena.new_array s n).1 ≡ contents s ++ ([] ∷ [])
  pub emplace_back-contents :
      (s : arena.Storage) (i : ℕ) (a : A) {xs : List A}
      → get_elem? (contents s) i ≡ some xs
      → (s' : arena.Storage) × (arena.emplace_back s (pos i) a ≡ some s')
        × (contents s' ≡ extend (contents s) i a)
  pub size-contents :
      (s : arena.Storage) (i : ℕ) → arena.size s (pos i) ≡ array_size (get_elem? (contents s) i)
  pub at-contents :
      (s : arena.Storage) (i j : ℕ) → arena.at s (pos i) j ≡ array_at (get_elem? (contents s) i) j
