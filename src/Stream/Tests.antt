-- ===== src/Stream/Tests.antt =====
-- Runs of the stream reader with a concrete codec. A layer is the byte that stands for it.
use mapget.Base.{
  ℕ, ◌≤◌, ◌≡◌, ◌≢◌, ◌↔◌, List, [], ◌∷◌, ◌++◌, Option, some, none, refl, arith, length, concat, take,
  drop, ap, ◌∙◌, append-nil, take-append-drop,
}
use mapget.Base.Text.{codes, text_eq}
use mapget.Version.{Version}
use mapget.Wire.{Bytes}
use mapget.Wire.Concrete.{codec, codec_laws, counting_pools}
use mapget.Stream.{
  ok, raised, stuck, send_message, read_message_header, read_header, Pools, LayerReader, World,
  Reader, take_value, deliver, read_strings, read_bytes, read_chunks, put_version, get_string_pool,
  find_pool, set_pool,
}
use mapget.Stream.Frame.{IsVersion, put_header, read_message_header-raised}
use mapget.Stream.Decode.{Decodes, over, next, frames}
use mapget.Stream.Chunks.{read_chunks-frames}
use mapget.Stream.Progress.{Consumes, read_bytes-ne-stuck}

abbrev one_byte : Pools ℕ → Bytes → Option (ℕ × Pools ℕ × Bytes)
one_byte pools [] = none
one_byte pools (a ∷ rest) = some (a, pools, rest)

abbrev byte_layers : LayerReader ℕ ℕ
byte_layers = record { read_feature_layer = one_byte; read_source_data_layer = one_byte }

abbrev nothing_read : World ℕ ℕ
nothing_read = record { pools = []; parsed = [] }

abbrev all_read : World ℕ ℕ
all_read = record { pools = (codes "N", 7) ∷ []; parsed = 9 ∷ [] }

abbrev idle_reader : Reader ℕ ℕ
idle_reader = record {
  phase = read_header;
  next_type = 0;
  next_size = 0;
  buffer = [];
  world = nothing_read;
}

-- A string pool, a feature layer and the end of the stream.
abbrev messages : List (ℕ × Bytes)
messages = (1, codec.put_text (codes "N") ++ (7 ∷ [])) ∷ (2, 9 ∷ []) ∷ (128, []) ∷ []

messages-Decodes : Decodes codec counting_pools byte_layers nothing_read messages all_read
unfolding take_value deliver read_strings get_string_pool find_pool set_pool text_eq
messages-Decodes =
    next 1 (codec.put_text (codes "N") ++ (7 ∷ [])) (omega arith) (omega arith) (λ rest. refl)
      (next 2 (9 ∷ []) (omega arith) (omega arith) (λ rest. refl)
        (next 128 [] (omega arith) (omega arith) (λ rest. refl) over))

-- The bytes of the messages in two chunks, the first one ending inside a header.
cut_chunks : List Bytes
unfolding frames send_message put_version
cut_chunks = take 20 (frames codec messages) ∷ drop 20 (frames codec messages) ∷ []

chunks_whole : concat cut_chunks ≡ frames codec messages
unfolding cut_chunks
chunks_whole =
    ap (λ s. take 20 (frames codec messages) ++ s) (append-nil (drop 20 (frames codec messages)))
    ∙ take-append-drop 20 (frames codec messages)

read_chunks-frames_example :
    (r' : Reader ℕ ℕ) × (read_chunks codec counting_pools byte_layers idle_reader cut_chunks
      ≡ ok r')
    × (r'.phase ≡ read_header)
    × (r'.buffer ≡ [])
    × (r'.world ≡ all_read)
read_chunks-frames_example =
    read_chunks-frames codec_laws counting_pools byte_layers messages cut_chunks all_read
      idle_reader refl refl chunks_whole messages-Decodes

one_byte-le :
    (ps : Pools ℕ) (s : Bytes) (l : ℕ) (qs : Pools ℕ) (rest : Bytes)
    → one_byte ps s ≡ some (l, qs, rest)
    → length rest ≤ length s
one_byte-le ps [] l qs rest e = cc
one_byte-le ps (a ∷ s) l qs rest e = ground arith

counting_pools-le :
    (p : ℕ) (s : Bytes) (q : ℕ) (rest : Bytes)
    → counting_pools.read p s ≡ some (q, rest)
    → length rest ≤ length s
counting_pools-le p [] q rest e = cc
counting_pools-le p (a ∷ s) q rest e = ground arith

byte_layers-Consumes : Consumes counting_pools byte_layers
byte_layers-Consumes = record {
  pool_shorter = counting_pools-le;
  feature_shorter = one_byte-le;
  source_data_shorter = one_byte-le;
}

read_bytes-ne-stuck_example :
    read_bytes codec counting_pools byte_layers idle_reader (1 ∷ 2 ∷ 3 ∷ []) ≢ stuck
read_bytes-ne-stuck_example =
    read_bytes-ne-stuck codec_laws counting_pools byte_layers-Consumes idle_reader (1 ∷ 2 ∷ 3 ∷ [])

abbrev next_version : Version
next_version = record { major = 0; minor = 2; patch = 0 }

next_version-IsVersion : IsVersion next_version
next_version-IsVersion = record { major = omega arith; minor = omega arith; patch = omega arith }

read_message_header-raised_example :
    (read_message_header codec (put_header codec next_version 2 1 ++ (9 ∷ [])) ≡ raised)
    ↔ (¬ ((next_version.major ≡ 0) × (next_version.minor ≡ 1)))
read_message_header-raised_example =
    read_message_header-raised codec_laws next_version 2 1 (9 ∷ []) next_version-IsVersion
      (omega arith) (omega arith)
