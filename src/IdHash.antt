-- ===== src/IdHash.antt =====
-- libs/model/src/featurelayer.cpp: stripOptionalIdParts and hashFeatureId.
use Prim.Native.Nat.{bit_xor}
use mapget.Base.{ℕ, zero, suc, ◌-◌, ◌*◌, ◌/◌, ◌%◌, ◌^◌, Bool, true, List, [], ◌∷◌, if◌then◌else◌}
use mapget.Base.Int.{ℤ, pos, negsuc}
use mapget.Base.Text.{Text, text_eq}
use mapget.IdPart.{IdPart, Value, integer, text, KeyValuePairs}

-- The inner loop: whether the part of that label is optional, which a label that is not found is,
-- and the composition behind it.
unfoldable pub find_part : Text → List IdPart → Bool × List IdPart
find_part key [] = (true, [])
find_part key (c ∷ cs) =
    let rest = find_part key cs in if text_eq key c.label then (c.is_optional, cs) else rest

unfoldable pub strip_optional_id_parts : KeyValuePairs → List IdPart → KeyValuePairs
strip_optional_id_parts [] composition = []
strip_optional_id_parts ((key, value) ∷ parts) composition =
    let (is_optional, rest) = find_part key composition in
    let kept = strip_optional_id_parts parts rest in
    if is_optional then kept else (key, value) ∷ kept

abbrev fnv_prime : ℕ
fnv_prime = 1099511628211

abbrev offset_basis : ℕ
offset_basis = 14695981039346656037

-- hash ^= bits; hash *= FNV_prime;
unfoldable pub mix : ℕ → ℕ → ℕ
mix hash bits = bit_xor hash bits * fnv_prime % 2 ^ 64

-- The bits of an int64_t.
abbrev bits_of : ℤ → ℕ
bits_of (pos n) = n % 2 ^ 64
bits_of (negsuc n) = 2 ^ 64 - 1 - n % 2 ^ 64

-- The bytes from the lowest on.
unfoldable pub hash_bytes : ℕ → ℕ → ℕ → ℕ
unfolding mix
hash_bytes zero hash value = hash
hash_bytes (suc count) hash value = hash_bytes count (mix hash (value % 256)) (value / 256)

unfoldable pub hash_int64 : ℤ → ℕ
unfolding hash_bytes
hash_int64 value = hash_bytes 8 offset_basis (bits_of value)

-- `widen` is static_cast<uint64_t>(char), which depends on whether char is signed.
module _ (widen : ℕ → ℕ) where
  unfoldable pub hash_chars : ℕ → Text → ℕ
  unfolding mix
  hash_chars hash [] = hash
  hash_chars hash (c ∷ cs) = hash_chars (mix hash (widen c)) cs

  unfoldable pub fnv1a_hash : Text → ℕ
  unfolding hash_chars
  fnv1a_hash str = hash_chars offset_basis str

  unfoldable pub hash_value : Value → ℕ
  unfolding fnv1a_hash hash_int64
  hash_value (integer n) = hash_int64 n
  hash_value (text t) = fnv1a_hash t

  unfoldable pub hash_parts : ℕ → KeyValuePairs → ℕ
  unfolding mix fnv1a_hash hash_value
  hash_parts hash [] = hash
  hash_parts hash ((key, value) ∷ parts) =
      hash_parts (mix (mix hash (fnv1a_hash key)) (hash_value value)) parts

  unfoldable pub hash_feature_id : Text → KeyValuePairs → ℕ
  unfolding hash_parts fnv1a_hash
  hash_feature_id type parts = hash_parts (fnv1a_hash type) parts
