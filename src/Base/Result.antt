-- ===== src/Base/Result.antt =====
-- What an operation that may throw comes to.
use mathlib.Core.Path.{◌≡◌, refl}
use mathlib.Core.Logic.{◌⊎◌, inl, inr}
use mathlib.Core.Option.{Option, none, some}

-- `raised` is an exception; `stuck` is no C++ value: the fuel of a loop ran out, or what the source
-- does is undefined.
pub data Result {ℓ} (A : Type ℓ) : Type ℓ where
  ok : A → Result A
  raised : Result A
  stuck : Result A

pub ok_injective {ℓ} : {A : Type ℓ} {a b : A} → ok a ≡ ok b → a ≡ b
ok_injective e = cc

pub Result-cases {ℓ} :
    {A : Type ℓ} (r : Result A) → ((a : A) × (r ≡ ok a)) ⊎ ((r ≡ raised) ⊎ (r ≡ stuck))
Result-cases (ok a) = inl (a, refl)
Result-cases raised = inr (inl refl)
Result-cases stuck = inr (inr refl)

-- A value that is not there is an exception.
abbrev pub of_option {ℓ} : {A : Type ℓ} → Option A → Result A
of_option none = raised
of_option (some a) = ok a

-- An optional, or a pointer, that is read without a test.
abbrev pub dereference {ℓ} : {A : Type ℓ} → Option A → Result A
dereference none = stuck
dereference (some a) = ok a

infixl 5 ◌>>=◌
abbrev pub ◌>>=◌ {ℓ κ} : {A : Type ℓ} {B : Type κ} → Result A → (A → Result B) → Result B
r >>= f = elim r [ ok a ↦ f a | raised ↦ raised | stuck ↦ stuck ]
