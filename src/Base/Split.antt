-- ===== src/Base/Split.antt =====
-- views::split of a text at one character.
use Prim.Native.Nat.{ℕ}
use mathlib.Core.Path.{◌≡◌, refl}
use mathlib.Core.Bool.{Bool, true, false}
use mathlib.Core.List.{List, [], ◌∷◌, ◌++◌}
use mapget.Base.Tests.{◌==◌}
use mapget.Base.Lists.{All}
use mapget.Base.Text.{Text}

-- One character in front of the pieces that the rest splits into.
unfoldable pub attach : Bool → ℕ → List Text → List Text
attach true c pieces = [] ∷ pieces
attach false c [] = (c ∷ []) ∷ []
attach false c (piece ∷ pieces) = (c ∷ piece) ∷ pieces

-- The text up to each separator, and what follows the last one. The empty text is one empty piece.
unfoldable pub split_at : ℕ → Text → List Text
unfolding attach
split_at separator [] = [] ∷ []
split_at separator (c ∷ cs) = attach (c == separator) c (split_at separator cs)

abbrev pub Without : ℕ → Text → Type 0
Without separator = All (λ c. (c == separator) ≡ false)

module _ (separator : ℕ) where
  pub split_at-whole : (p : Text) → Without separator p → split_at separator p ≡ p ∷ []
  unfolding split_at attach
  split_at-whole [] h = refl
  split_at-whole (c ∷ cs) h = rw (h.0, split_at-whole cs h.1)

  pub split_at-piece :
      (p rest : Text)
      → Without separator p
      → (separator == separator) ≡ true
      → split_at separator (p ++ (separator ∷ rest)) ≡ p ∷ split_at separator rest
  unfolding split_at attach
  split_at-piece [] rest h same = rw same refl
  split_at-piece (c ∷ cs) rest h same = rw (h.0, split_at-piece cs rest h.1 same)
