-- ===== src/Wire.antt =====
-- The interface of the libraries that the stream code calls and that are not part of the
-- repository: bitsery's primitive values, simfil's string pools and the layer models on top of it.
pub mod Concrete
use mapget.Base.{ℕ, ◌+◌, ◌^◌, ◌<◌, ◌≤◌, ◌≡◌, ◌++◌, Option, some, length, List}
use mapget.Base.Text.{Text}

-- A stream of bytes, the next one first.
abbrev pub Bytes : Type 0
Bytes = List ℕ

-- bitsery: values of 1, 2, 4 and 8 bytes and texts. A read returns the value and what is left.
pub record Bitsery : Type 0 where
  pub put1 : ℕ → Bytes
  pub put2 : ℕ → Bytes
  pub put4 : ℕ → Bytes
  pub put8 : ℕ → Bytes
  pub put_text : Text → Bytes
  pub get1 : Bytes → ℕ × Bytes
  pub get2 : Bytes → ℕ × Bytes
  pub get4 : Bytes → ℕ × Bytes
  pub get8 : Bytes → ℕ × Bytes
  pub get_text : Bytes → Text × Bytes

-- What the code relies on: fixed widths, and reading inverts writing.
pub record BitseryLaws (b : Bitsery) : Type 0 where
  pub length-put1 : (v : ℕ) → length (b.put1 v) ≡ 1
  pub length-put2 : (v : ℕ) → length (b.put2 v) ≡ 2
  pub length-put4 : (v : ℕ) → length (b.put4 v) ≡ 4
  pub get1-put1 : (v : ℕ) (rest : Bytes) → v < 2 ^ 8 → b.get1 (b.put1 v ++ rest) ≡ (v, rest)
  pub get2-put2 : (v : ℕ) (rest : Bytes) → v < 2 ^ 16 → b.get2 (b.put2 v ++ rest) ≡ (v, rest)
  pub get4-put4 : (v : ℕ) (rest : Bytes) → v < 2 ^ 32 → b.get4 (b.put4 v ++ rest) ≡ (v, rest)
  pub get8-put8 : (v : ℕ) (rest : Bytes) → v < 2 ^ 64 → b.get8 (b.put8 v ++ rest) ≡ (v, rest)
  pub get_text-put_text :
      (t : Text) (rest : Bytes) → length t < 2 ^ 32 → b.get_text (b.put_text t ++ rest) ≡ (t, rest)
  pub length-get1 : (s : Bytes) → 1 ≤ length s → length (b.get1 s).1 + 1 ≡ length s
  pub length-get2 : (s : Bytes) → 2 ≤ length s → length (b.get2 s).1 + 2 ≡ length s
  pub length-get4 : (s : Bytes) → 4 ≤ length s → length (b.get4 s).1 + 4 ≡ length s
  pub get_text_shorter : (s : Bytes) → length (b.get_text s).1 ≤ length s

-- simfil::StringPool: `write` takes the first string id to send, and `none` is an exception.
pub record StringPools : Type 1 where
  pub Pool : Type 0
  pub new_pool : Text → Pool
  pub highest : Pool → ℕ
  pub write : Pool → ℕ → Bytes
  pub read : Pool → Bytes → Option (Pool × Bytes)
