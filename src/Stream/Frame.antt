-- ===== src/Stream/Frame.antt =====
-- One message: its length, and its header read back.
use mapget.Base.{
  ℕ, ◌%◌, ◌^◌, ◌<◌, ◌≡◌, ◌↔◌, ◌++◌, true, false, some, none, ap, ◌∙◌, arith, length, length-append,
  append_assoc, ltb, ge→ltb, if◌then◌else◌,
}
use mapget.Version.{Version, is_compatible}
use mapget.Wire.{Bytes, Bitsery, BitseryLaws}
use mapget.Stream.{
  current_protocol_version, header_size, ok, raised, put_version, get_version, send_message,
  read_message_header,
}

pub record IsVersion (v : Version) : Type 0 where
  pub major : v.major < 2 ^ 16
  pub minor : v.minor < 2 ^ 16
  pub patch : v.patch < 2 ^ 16

-- A header of any version, type and size.
abbrev pub put_header : Bitsery → Version → ℕ → ℕ → Bytes
put_header b v t size = put_version b v ++ (b.put1 t ++ b.put4 size)

module _ {b : Bitsery} (laws : BitseryLaws b) where
  pub length-put_header : (v : Version) (t size : ℕ) → length (put_header b v t size) ≡ 11
  unfolding put_version
  length-put_header v t size = omega (
    arith,
    length-append (b.put2 v.major ++ (b.put2 v.minor ++ b.put2 v.patch)) (b.put1 t ++ b.put4 size),
    length-append (b.put2 v.major) (b.put2 v.minor ++ b.put2 v.patch),
    length-append (b.put2 v.minor) (b.put2 v.patch),
    length-append (b.put1 t) (b.put4 size),
    laws.length-put1 t,
    laws.length-put2 v.major,
    laws.length-put2 v.minor,
    laws.length-put2 v.patch,
    laws.length-put4 size,
  )

  pub get_version-put_version :
      (v : Version) (rest : Bytes)
      → IsVersion v
      → get_version b (put_version b v ++ rest) ≡ (v, rest)
  unfolding get_version put_version
  get_version-put_version v rest h = simp (
    append_assoc,
    laws.get2-put2 v.major (b.put2 v.minor ++ (b.put2 v.patch ++ rest)) h.major,
    laws.get2-put2 v.minor (b.put2 v.patch ++ rest) h.minor,
    laws.get2-put2 v.patch rest h.patch,
  )

  header_fits :
      (v : Version) (t size : ℕ) (rest : Bytes)
      → ltb (length (put_header b v t size ++ rest)) header_size ≡ false
  header_fits v t size rest =
      ge→ltb _ _
        (omega (arith, length-append (put_header b v t size) rest, length-put_header v t size))

  version_first :
      (v : Version) (t size : ℕ) (rest : Bytes)
      → IsVersion v
      → get_version b (put_header b v t size ++ rest) ≡ (v, b.put1 t ++ (b.put4 size ++ rest))
  version_first v t size rest hv =
      simp (append_assoc, get_version-put_version v (b.put1 t ++ (b.put4 size ++ rest)) hv)

  current-IsVersion : IsVersion current_protocol_version
  current-IsVersion = record { major = omega arith; minor = omega arith; patch = omega arith }

  pub read_message_header-put_header :
      (v : Version) (t size : ℕ) (rest : Bytes)
      → IsVersion v
      → t < 2 ^ 8
      → size < 2 ^ 32
      → read_message_header b (put_header b v t size ++ rest)
        ≡ (if is_compatible v current_protocol_version then ok (some (t, size, rest)) else raised)
  unfolding read_message_header
  read_message_header-put_header v t size rest hv ht hs = rw (header_fits v t size rest) (
      simp (
        version_first v t size rest hv,
        laws.get1-put1 t (b.put4 size ++ rest) ht,
        laws.get4-put4 size rest hs,
      ))

  pub read_message_header-current :
      (t size : ℕ) (rest : Bytes)
      → t < 2 ^ 8
      → size < 2 ^ 32
      → read_message_header b (put_header b current_protocol_version t size ++ rest)
        ≡ ok (some (t, size, rest))
  unfolding is_compatible
  read_message_header-current t size rest ht hs =
      read_message_header-put_header current_protocol_version t size rest current-IsVersion ht hs

  -- A message is its header followed by its value.
  pub send_message-put_header :
      (bytes rest : Bytes) (t : ℕ)
      → length bytes < 2 ^ 32
      → send_message b bytes t ++ rest
        ≡ put_header b current_protocol_version t (length bytes) ++ (bytes ++ rest)
  unfolding send_message
  send_message-put_header bytes rest t h =
      let fits : length bytes % 2 ^ 32 ≡ length bytes = omega arith in rw fits (simp append_assoc)

  -- Reading the header of a message that was sent yields its type and the length of its value, and
  -- stops in front of the value, for values shorter than 2 ^ 32 bytes and types of one byte.
  pub read_message_header-send_message :
      (bytes rest : Bytes) (t : ℕ)
      → length bytes < 2 ^ 32
      → t < 2 ^ 8
      → read_message_header b (send_message b bytes t ++ rest)
        ≡ ok (some (t, length bytes, bytes ++ rest))
  read_message_header-send_message bytes rest t h ht =
      ap (read_message_header b) (send_message-put_header bytes rest t h)
      ∙ read_message_header-current t (length bytes) (bytes ++ rest) ht h

  -- Of a complete header the code throws exactly when its version is not 0.1, whatever the patch.
  pub read_message_header-raised :
      (v : Version) (t size : ℕ) (rest : Bytes)
      → IsVersion v
      → t < 2 ^ 8
      → size < 2 ^ 32
      → (read_message_header b (put_header b v t size ++ rest) ≡ raised)
        ↔ (¬ ((v.major ≡ 0) × (v.minor ≡ 1)))
  unfolding is_compatible
  read_message_header-raised v t size rest hv ht hs =
      ground (arith, read_message_header-put_header v t size rest hv ht hs)

pub read_message_header-short :
    (b : Bitsery) (s : Bytes)
    → ltb (length s) header_size ≡ true
    → read_message_header b s ≡ ok none
unfolding read_message_header
read_message_header-short b s short = rw short
