-- ===== src/Stream/Decode.antt =====
-- Message streams: the bytes of a list of messages, and what reading their values does.
use mapget.Base.{ℕ, ◌^◌, ◌<◌, ◌≤◌, ◌≡◌, List, [], ◌∷◌, ◌++◌, some, refl, arith, length}
use mapget.Wire.{Bytes, Bitsery, StringPools}
use mapget.Stream.{send_message, LayerReader, World, take_value}

-- A prefix of known length is split off a sum.
pub split_prefix :
    (h xs ys zs : Bytes)
    → xs ++ ys ≡ h ++ zs
    → length h ≤ length xs
    → (rest : Bytes) × (xs ≡ h ++ rest) × (rest ++ ys ≡ zs)
split_prefix [] xs ys zs e le = (xs, refl, e)
split_prefix (a ∷ h) [] ys zs e le = absurd (omega arith)
split_prefix (a ∷ h) (x ∷ xs) ys zs e le =
    let (rest, front, back) = split_prefix h xs ys zs (cc) (omega arith) in (rest, cc front, back)

-- The values of a list of messages, (type, value) each, are read one after another from one world
-- to another, whatever bytes follow a value.
pub data Decodes (b : Bitsery) (sp : StringPools) {Layer : Type 0} (lr : LayerReader sp.Pool Layer)
    : World sp.Pool Layer → List (ℕ × Bytes) → World sp.Pool Layer → Type 0 where
  over : {w : World sp.Pool Layer} → Decodes b sp lr w [] w
  next :
      {u v w : World sp.Pool Layer} {ms : List (ℕ × Bytes)} (t : ℕ) (body : Bytes)
      → t < 2 ^ 8
      → length body < 2 ^ 32
      → ((rest : Bytes) → take_value b sp lr t u (body ++ rest) ≡ some (v, rest))
      → Decodes b sp lr v ms w
      → Decodes b sp lr u ((t, body) ∷ ms) w

-- What a derivation for a list of messages says of the first one.
abbrev pub First :
    (b : Bitsery) (sp : StringPools) {Layer : Type 0} (lr : LayerReader sp.Pool Layer)
    → World sp.Pool Layer
    → List (ℕ × Bytes)
    → World sp.Pool Layer
    → Type 0
First b sp lr u [] w = u ≡ w
First b sp {Layer} lr u ((t, body) ∷ ms) w =
    (v : World sp.Pool Layer) × (t < 2 ^ 8)
    × (length body < 2 ^ 32)
    × ((rest : Bytes) → take_value b sp lr t u (body ++ rest) ≡ some (v, rest))
    × Decodes b sp lr v ms w

pub first :
    {b : Bitsery} {sp : StringPools} {Layer : Type 0} {lr : LayerReader sp.Pool Layer}
    {u w : World sp.Pool Layer} {ms : List (ℕ × Bytes)}
    → Decodes b sp lr u ms w
    → First b sp lr u ms w
first over = refl
first (next {v = v} t body ht h takes later) = (v, ht, h, takes, later)

-- The bytes that the writer sends for the messages.
unfoldable pub frames : Bitsery → List (ℕ × Bytes) → Bytes
frames b [] = []
frames b ((t, body) ∷ ms) = send_message b body t ++ frames b ms
