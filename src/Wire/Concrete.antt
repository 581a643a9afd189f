-- ===== src/Wire/Concrete.antt =====
-- A concrete codec: little-endian values, and texts with their length in front. It shows that the
-- laws of Bitsery can hold, and runs the stream in the tests.
use mapget.Base.{
  none, some, ◌-◌, ℕ, zero, suc, ◌+◌, ◌*◌, ◌/◌, ◌%◌, ◌^◌, ◌<◌, ◌≤◌, ◌≡◌, [], ◌∷◌, ◌++◌, refl, arith,
  ap, length, take, drop,
}
use mapget.Wire.{Bytes, Bitsery, BitseryLaws, StringPools}

abbrev byte : ℕ → ℕ → ℕ
byte i v = v / 256 ^ i % 256

abbrev get_1 : Bytes → ℕ × Bytes
get_1 (a ∷ s) = (a, s)
get_1 [] = (0, [])

abbrev get_2 : Bytes → ℕ × Bytes
get_2 (a ∷ (b ∷ s)) = (a + 256 * b, s)
get_2 (a ∷ []) = (0, [])
get_2 [] = (0, [])

abbrev get_4 : Bytes → ℕ × Bytes
get_4 s = let (low, s1) = get_2 s in let (high, s2) = get_2 s1 in (low + 65536 * high, s2)

abbrev put_4 : ℕ → Bytes
put_4 v = byte 0 v ∷ (byte 1 v ∷ (byte 2 v ∷ (byte 3 v ∷ [])))

abbrev get_8 : Bytes → ℕ × Bytes
get_8 s = let (low, s1) = get_4 s in let (high, s2) = get_4 s1 in (low + 4294967296 * high, s2)

abbrev put_8 : ℕ → Bytes
put_8 v = put_4 (v % 2 ^ 32) ++ put_4 (v / 2 ^ 32)

abbrev pub codec : Bitsery
codec = record {
  put1 = λ v. byte 0 v ∷ [];
  put2 = λ v. byte 0 v ∷ (byte 1 v ∷ []);
  put4 = put_4;
  put8 = put_8;
  put_text = λ t. put_4 (length t) ++ t;
  get1 = get_1;
  get2 = get_2;
  get4 = get_4;
  get8 = get_8;
  get_text = λ s. let (n, rest) = get_4 s in (take n rest, drop n rest);
}

take_all : (t rest : Bytes) → take (length t) (t ++ rest) ≡ t
take_all [] rest = refl
take_all (a ∷ t) rest = ap (λ s. a ∷ s) (take_all t rest)

drop_all : (t rest : Bytes) → drop (length t) (t ++ rest) ≡ rest
drop_all [] rest = refl
drop_all (a ∷ t) rest = drop_all t rest

length-drop-le : (n : ℕ) (s : Bytes) → length (drop n s) ≤ length s
length-drop-le zero s = omega arith
length-drop-le (suc n) [] = omega arith
length-drop-le (suc n) (a ∷ s) = omega (arith, length-drop-le n s)

length-get_2 : (s : Bytes) → 2 ≤ length s → length (get_2 s).1 + 2 ≡ length s
length-get_2 [] h = absurd (omega arith)
length-get_2 (a ∷ []) h = absurd (omega arith)
length-get_2 (a ∷ (b ∷ s)) h = omega arith

get_2_shorter : (s : Bytes) → length (get_2 s).1 ≤ length s
get_2_shorter [] = omega arith
get_2_shorter (a ∷ []) = omega arith
get_2_shorter (a ∷ (b ∷ s)) = omega arith

get_4-put_4 : (v : ℕ) (rest : Bytes) → v < 2 ^ 32 → get_4 (put_4 v ++ rest) ≡ (v, rest)
get_4-put_4 v rest h = ap (λ n. (n, rest)) omega arith

get_8-put_8 : (v : ℕ) (rest : Bytes) → v < 2 ^ 64 → get_8 (put_8 v ++ rest) ≡ (v, rest)
get_8-put_8 v rest h = ap (λ n. (n, rest)) (omega arith)

get_text-put_text :
    (t rest : Bytes) (n : ℕ)
    → n ≡ length t
    → ◌≡◌ {A = Bytes × Bytes} (take n (t ++ rest), drop n (t ++ rest)) (t, rest)
get_text-put_text t rest n e = rw (e, take_all t rest, drop_all t rest) refl

length-get_1 : (s : Bytes) → 1 ≤ length s → length (get_1 s).1 + 1 ≡ length s
length-get_1 [] h = absurd (omega arith)
length-get_1 (a ∷ s) h = omega arith

pub codec_laws : BitseryLaws codec
codec_laws = record {
  length-put1 = λ v. refl;
  length-put2 = λ v. refl;
  length-put4 = λ v. refl;
  get1-put1 = λ v rest h. ap (λ n. (n, rest)) (omega arith);
  get2-put2 = λ v rest h. ap (λ n. (n, rest)) (omega arith);
  get4-put4 = get_4-put_4;
  get8-put8 = get_8-put_8;
  get_text-put_text = λ t rest h.
      get_text-put_text t rest (get_4 (put_4 (length t) ++ (t ++ rest))).0
        (ap (λ p. p.0) (get_4-put_4 (length t) (t ++ rest) h));
  length-get1 = length-get_1;
  length-get2 = length-get_2;
  length-get4 = λ s h. omega (
    arith,
    length-get_2 s (omega arith),
    length-get_2 (get_2 s).1 (omega (arith, length-get_2 s (omega arith))),
  );
  get_text_shorter = λ s.
      omega
        (arith, length-drop-le (get_4 s).0 (get_4 s).1, get_2_shorter s, get_2_shorter (get_2 s).1);
}

-- String pools that only count their strings: a message has one byte, the number of new strings.
abbrev pub counting_pools : StringPools
counting_pools = record {
  Pool = ℕ;
  new_pool = λ node. 0;
  highest = λ p. p;
  write = λ p from. (p - from) ∷ [];
  read = λ p s. elim s [ [] ↦ none | a ∷ rest ↦ some (p + a, rest) ];
}
