-- ===== src/Stream/Round.antt =====
-- The rounds of Reader::read over a stream of messages, of which a part has arrived.
use mapget.Base.{
  ℕ, zero, suc, ◌+◌, ◌^◌, ◌<◌, ◌≤◌, ◌≡◌, Bool, true, false, List, [], ◌∷◌, ◌++◌, some, refl, ap,
  sym, subst, ◌∙◌, arith, length, length-append, ltb, ltb→lt, ltb→ge, Bool-cases, inl, inr,
}
use mapget.Wire.{Bytes, Bitsery, BitseryLaws, StringPools}
use mapget.Stream.{
  header_size, current_protocol_version, Result, ok, read_message_header, read_header, read_value,
  LayerReader, World, Reader, take_value, continue_value, continue_header, continue_phase,
  continue_reading, reading_loop,
}
use mapget.Stream.Frame.{
  put_header, length-put_header, send_message-put_header, read_message_header-current,
  read_message_header-short,
}
use mapget.Stream.Decode.{Decodes, next, first, frames, split_prefix}

module _ {b : Bitsery} (laws : BitseryLaws b) (sp : StringPools) {Layer : Type 0}
    (lr : LayerReader sp.Pool Layer) where
  -- The reader stands at a message boundary, or in front of the value of a message whose header it
  -- has read; its buffer and the bytes to come are what is left of the stream up to world `w`.
  pub data Pending (future : Bytes) (w : World sp.Pool Layer) (r : Reader sp.Pool Layer)
      : Type 0 where
    at_header :
        (ms : List (ℕ × Bytes))
        → r.phase ≡ read_header
        → r.buffer ++ future ≡ frames b ms
        → Decodes b sp lr r.world ms w
        → Pending future w r
    at_value :
        (body : Bytes) (ms : List (ℕ × Bytes))
        → r.phase ≡ read_value
        → r.next_size ≡ length body
        → r.buffer ++ future ≡ body ++ frames b ms
        → Decodes b sp lr r.world ((r.next_type, body) ∷ ms) w
        → Pending future w r

  -- The reader waits for more bytes.
  pub data Waits (r : Reader sp.Pool Layer) : Type 0 where
    for_header : r.phase ≡ read_header → length r.buffer < 11 → Waits r
    for_value : r.phase ≡ read_value → length r.buffer < r.next_size → Waits r

  abbrev pub measure : Reader sp.Pool Layer → ℕ
  measure r = length r.buffer + (elim r.phase [ read_header ↦ 0 | read_value ↦ 1 ])

  -- One round: the reader waits, or it goes on with a smaller measure.
  data Round (future : Bytes) (w : World sp.Pool Layer) (m : ℕ)
      (o : Result (Reader sp.Pool Layer × Bool)) : Type 0 where
    waits :
        (r : Reader sp.Pool Layer)
        → o ≡ ok (r, false)
        → Pending future w r
        → Waits r
        → Round future w m o
    goes :
        (r : Reader sp.Pool Layer)
        → o ≡ ok (r, true)
        → Pending future w r
        → measure r < m
        → Round future w m o

  wait_value :
      (r : Reader sp.Pool Layer)
      → ltb (length r.buffer) r.next_size ≡ true
      → continue_value b sp lr r ≡ ok (r, false)
  unfolding continue_value
  wait_value r short = rw short

  deliver_value :
      (r : Reader sp.Pool Layer) (v : World sp.Pool Layer) (rest : Bytes)
      → ltb (length r.buffer) r.next_size ≡ false
      → take_value b sp lr r.next_type r.world r.buffer ≡ some (v, rest)
      → continue_value b sp lr r
        ≡ ok (record r { phase = read_header; buffer = rest; world = v }, true)
  unfolding continue_value
  deliver_value r v rest enough taken = rw (enough, taken, continue_value)

  value-Round :
      (future : Bytes) (w : World sp.Pool Layer) (r : Reader sp.Pool Layer) (body : Bytes)
      (ms : List (ℕ × Bytes))
      → r.phase ≡ read_value
      → r.next_size ≡ length body
      → r.buffer ++ future ≡ body ++ frames b ms
      → Decodes b sp lr r.world ((r.next_type, body) ∷ ms) w
      → Round future w (length r.buffer + 1) (continue_value b sp lr r)
  value-Round future w r body ms ph size bytes d =
      elim (Bool-cases (ltb (length r.buffer) r.next_size)) [
        | inl short ↦
            waits r (wait_value r short) (at_value body ms ph size bytes d)
              (for_value ph (ltb→lt _ _ short))
        | inr enough ↦
            let (rest, front, back) =
              split_prefix body r.buffer future (frames b ms) bytes
                (omega (arith, ltb→ge _ _ enough)) in
            let (v, _, _, takes, later) = first d in
            goes (record r { phase = read_header; buffer = rest; world = v })
              (deliver_value r v rest enough (rw front (takes rest))) (at_header ms refl back later)
              (omega (arith, ap length front, length-append body rest))
      ]

  header_of :
      (r : Reader sp.Pool Layer) (t : ℕ) (body rest : Bytes)
      → r.phase ≡ read_header
      → length body < 2 ^ 32
      → t < 2 ^ 8
      → r.buffer ≡ put_header b current_protocol_version t (length body) ++ rest
      → continue_reading b sp lr r
        ≡ continue_value b sp lr
            (record r { phase = read_value; next_type = t; next_size = length body; buffer = rest })
  unfolding continue_reading continue_phase continue_header
  header_of r t body rest ph h ht front =
      ap (λ p. continue_phase b sp lr p r) ph
      ∙ ap (continue_header b sp lr r) (
          ap (read_message_header b) front
          ∙ read_message_header-current laws t (length body) rest ht h)

  header_short :
      (r : Reader sp.Pool Layer)
      → r.phase ≡ read_header
      → ltb (length r.buffer) header_size ≡ true
      → continue_reading b sp lr r ≡ ok (r, false)
  unfolding continue_reading continue_phase continue_header read_message_header
  header_short r ph short =
      ap (λ p. continue_phase b sp lr p r) ph
      ∙ ap (continue_header b sp lr r) (read_message_header-short b r.buffer short)

  Round-mono :
      (future : Bytes) (w : World sp.Pool Layer) (m n : ℕ)
      (o : Result (Reader sp.Pool Layer × Bool))
      → m ≤ n
      → Round future w m o
      → Round future w n o
  Round-mono future w m n o le (waits r e p q) = waits r e p q
  Round-mono future w m n o le (goes r e p lt) = goes r e p (omega arith)

  full_header :
      (future : Bytes) (w : World sp.Pool Layer) (r : Reader sp.Pool Layer) (ms : List (ℕ × Bytes))
      → r.phase ≡ read_header
      → r.buffer ++ future ≡ frames b ms
      → Decodes b sp lr r.world ms w
      → 11 ≤ length r.buffer
      → Round future w (length r.buffer) (continue_reading b sp lr r)
  unfolding frames
  full_header future w r [] ph bytes d enough =
      absurd (omega (arith, ap length bytes, length-append r.buffer future))
  full_header future w r ((t, body) ∷ ms) ph bytes d enough =
      let (v, ht, h, takes, later) = first d in
      let (rest, front, back) =
        split_prefix (put_header b current_protocol_version t (length body)) r.buffer future
          (body ++ frames b ms) (bytes ∙ send_message-put_header laws body (frames b ms) t h)
          (omega (arith, length-put_header laws current_protocol_version t (length body))) in
      let r' : Reader sp.Pool Layer = record r {
        phase = read_value;
        next_type = t;
        next_size = length body;
        buffer = rest;
      } in
      subst (Round future w (length r.buffer)) (sym (header_of r t body rest ph h ht front)) (
        Round-mono future w (length rest + 1) (length r.buffer) _
          (omega (
            arith,
            ap length front,
            length-append (put_header b current_protocol_version t (length body)) rest,
            length-put_header laws current_protocol_version t (length body),
          ))
          (value-Round future w r' body ms refl refl back (next t body ht h takes later)))

  header-Round :
      (future : Bytes) (w : World sp.Pool Layer) (r : Reader sp.Pool Layer) (ms : List (ℕ × Bytes))
      → r.phase ≡ read_header
      → r.buffer ++ future ≡ frames b ms
      → Decodes b sp lr r.world ms w
      → Round future w (length r.buffer) (continue_reading b sp lr r)
  header-Round future w r ms ph bytes d = elim (Bool-cases (ltb (length r.buffer) header_size)) [
    | inl short ↦
        waits r (header_short r ph short) (at_header ms ph bytes d)
          (for_header ph (ltb→lt _ _ short))
    | inr enough ↦ full_header future w r ms ph bytes d (ltb→ge _ _ enough)
  ]

  at_value_phase :
      (r : Reader sp.Pool Layer)
      → r.phase ≡ read_value
      → continue_reading b sp lr r ≡ continue_value b sp lr r
  unfolding continue_reading continue_phase
  at_value_phase r ph = ap (λ p. continue_phase b sp lr p r) ph

  round :
      (future : Bytes) (w : World sp.Pool Layer) (r : Reader sp.Pool Layer)
      → Pending future w r
      → Round future w (measure r) (continue_reading b sp lr r)
  round future w r (at_header ms ph bytes d) =
      Round-mono future w (length r.buffer) (measure r) _ (rw ph (omega arith))
        (header-Round future w r ms ph bytes d)
  round future w r (at_value body ms ph size bytes d) =
      subst (Round future w (measure r)) (sym (at_value_phase r ph)) (
        Round-mono future w (length r.buffer + 1) (measure r) _ (rw ph (omega arith))
          (value-Round future w r body ms ph size bytes d))

  -- After enough rounds the reader waits in front of the rest of the stream.
  pub data Rests (future : Bytes) (w : World sp.Pool Layer) (o : Result (Reader sp.Pool Layer))
      : Type 0 where
    rests : (r : Reader sp.Pool Layer) → o ≡ ok r → Pending future w r → Waits r → Rests future w o

  pub loop-Rests :
      (fuel : ℕ) (future : Bytes) (w : World sp.Pool Layer) (r : Reader sp.Pool Layer)
      → measure r < fuel
      → Pending future w r
      → Rests future w (reading_loop b sp lr fuel r)
  unfolding reading_loop
  loop-Rests zero future w r m p = absurd (omega arith)
  loop-Rests (suc fuel) future w r m p = next_round (loop-Rests fuel future w) (round future w r p)
    where
      next_round :
          ((q : Reader sp.Pool Layer)
            → measure q < fuel
            → Pending future w q
            → Rests future w (reading_loop b sp lr fuel q))
          → Round future w (measure r) (continue_reading b sp lr r)
          → Rests future w (reading_loop b sp lr (suc fuel) r)
      next_round ih (waits r' e q quiet) = rests r' (rw (e, reading_loop)) q quiet
      next_round ih (goes r' e q lt) = rw (e, reading_loop) (ih r' (omega arith) q)
