-- ===== src/Stream/Chunks.antt =====
-- The reader over a byte stream that arrives in chunks.
use mapget.Base.{
  ℕ, ◌+◌, ◌<◌, ◌≤◌, ◌≡◌, List, [], ◌∷◌, ◌++◌, refl, ap, sym, ◌∙◌, arith, length, length-append,
  append_assoc, append-nil, concat,
}
use mapget.Wire.{Bytes, Bitsery, BitseryLaws, StringPools}
use mapget.Stream.{
  current_protocol_version, ok, Phase, read_header, read_value, LayerReader, World, Reader,
  read_bytes, read_chunks,
}
use mapget.Stream.Frame.{put_header, length-put_header, send_message-put_header}
use mapget.Stream.Decode.{Decodes, first, frames}
use mapget.Stream.Round.{
  Pending, at_header, at_value, Waits, for_header, for_value, Rests, rests, measure, loop-Rests,
}

module _ {b : Bitsery} (laws : BitseryLaws b) (sp : StringPools) {Layer : Type 0}
    (lr : LayerReader sp.Pool Layer) where
  -- More bytes arrive: the reader is handed the front of the bytes to come.
  receive :
      (bytes future : Bytes) (w : World sp.Pool Layer) (r : Reader sp.Pool Layer)
      → Pending laws sp lr (bytes ++ future) w r
      → Pending laws sp lr future w (record r { buffer = r.buffer ++ bytes })
  receive bytes future w r (at_header ms ph e d) =
      at_header ms ph (append_assoc r.buffer bytes future ∙ e) d
  receive bytes future w r (at_value body ms ph size e d) =
      at_value body ms ph size (append_assoc r.buffer bytes future ∙ e) d

  measure-le : (r : Reader sp.Pool Layer) → measure laws sp lr r < length r.buffer + 2
  measure-le r = by_phase r.phase
    where
      by_phase :
          (p : Phase)
          → length r.buffer + (elim p [ read_header ↦ 0 | read_value ↦ 1 ]) < length r.buffer + 2
      by_phase read_header = omega arith
      by_phase read_value = omega arith

  chunks_rest :
      (cs : List Bytes) (w : World sp.Pool Layer) (r : Reader sp.Pool Layer)
      → Pending laws sp lr (concat cs) w r
      → Waits laws sp lr r
      → Rests laws sp lr [] w (read_chunks b sp lr r cs)
  unfolding read_chunks read_bytes
  chunks_rest [] w r p quiet = rests r refl p quiet
  chunks_rest (c ∷ cs) w r p quiet = more (chunks_rest cs w) (
      loop-Rests laws sp lr (length (r.buffer ++ c) + 2) (concat cs) w
        (record r { buffer = r.buffer ++ c }) (measure-le (record r { buffer = r.buffer ++ c }))
        (receive c (concat cs) w r p))
    where
      more :
          ((q : Reader sp.Pool Layer)
            → Pending laws sp lr (concat cs) w q
            → Waits laws sp lr q
            → Rests laws sp lr [] w (read_chunks b sp lr q cs))
          → Rests laws sp lr (concat cs) w (read_bytes b sp lr r c)
          → Rests laws sp lr [] w (read_chunks b sp lr r (c ∷ cs))
      more ih (rests q e p' quiet') = rw (e, read_chunks) (ih q p' quiet')

  length-frames :
      {u w : World sp.Pool Layer} (m : ℕ × Bytes) (ms : List (ℕ × Bytes))
      → Decodes b sp lr u (m ∷ ms) w
      → 11 ≤ length (frames b (m ∷ ms))
  unfolding frames
  length-frames (t, body) ms d =
      let (v, _, h, _, _) = first d in
      omega (
        arith,
        ap length (send_message-put_header laws body (frames b ms) t h),
        length-append (put_header b current_protocol_version t (length body)) (body ++ frames b ms),
        length-put_header laws current_protocol_version t (length body),
      )

  -- With nothing to come, a waiting reader has read everything.
  finished :
      (w : World sp.Pool Layer) (r : Reader sp.Pool Layer)
      → Pending laws sp lr [] w r
      → Waits laws sp lr r
      → (r.phase ≡ read_header) × (r.buffer ≡ []) × (r.world ≡ w)
  unfolding frames
  finished w r (at_header [] ph e d) quiet = (ph, sym (append-nil r.buffer) ∙ e, first d)
  finished w r (at_header (m ∷ ms) ph e d) (for_header _ short) =
      absurd (omega (arith, ap length e, ap length (append-nil r.buffer), length-frames m ms d))
  finished w r (at_header (m ∷ ms) ph e d) (for_value ph' short) = cc
  finished w r (at_value body ms ph size e d) (for_header ph' short) = cc
  finished w r (at_value body ms ph size e d) (for_value _ short) = absurd (
      omega (arith, ap length e, ap length (append-nil r.buffer), length-append body (frames b ms)))

  -- Whatever the chunks into which the bytes of a list of messages are cut, reading them one after
  -- another from an idle reader ends in an idle reader with an empty buffer, and with the world that
  -- reading the values in order gives; in particular no call gets stuck or throws.
  pub read_chunks-frames :
      (ms : List (ℕ × Bytes)) (cs : List Bytes) (w : World sp.Pool Layer) (r : Reader sp.Pool Layer)
      → r.phase ≡ read_header
      → r.buffer ≡ []
      → concat cs ≡ frames b ms
      → Decodes b sp lr r.world ms w
      → (r' : Reader sp.Pool Layer) × (read_chunks b sp lr r cs ≡ ok r')
        × (r'.phase ≡ read_header)
        × (r'.buffer ≡ [])
        × (r'.world ≡ w)
  read_chunks-frames ms cs w r ph empty e d = done (
      chunks_rest cs w r (at_header ms ph (rw empty e) d)
        (for_header ph (omega (arith, ap length empty))))
    where
      done :
          Rests laws sp lr [] w (read_chunks b sp lr r cs)
          → (r' : Reader sp.Pool Layer) × (read_chunks b sp lr r cs ≡ ok r')
            × (r'.phase ≡ read_header)
            × (r'.buffer ≡ [])
            × (r'.world ≡ w)
      done (rests r' e' p quiet) =
          let (ph', empty', there) = finished w r' p quiet in (r', e', ph', empty', there)
