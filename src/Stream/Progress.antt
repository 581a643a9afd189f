-- ===== src/Stream/Progress.antt =====
-- Reader::read ends on every input, well formed or not.
use mapget.Base.{
  ℕ, zero, suc, ◌+◌, ◌<◌, ◌≤◌, ◌≡◌, ◌≢◌, Bool, true, false, ◌++◌, Option, some, none, refl, ap,
  arith, length, ltb, ltb→ge, Bool-cases, Option-cases, inl, inr, ◌==◌,
}
use mapget.Wire.{Bytes, Bitsery, BitseryLaws, StringPools}
use mapget.Stream.{
  header_size, Result, ok, raised, stuck, get_version, read_message_header, Phase, read_header,
  read_value, Pools, LayerReader, World, Reader, take_value, deliver, read_strings, continue_value,
  continue_header, continue_phase, continue_reading, reading_loop, read_bytes, get_string_pool,
  tile_feature_layer, tile_source_data_layer, string_pool,
}

-- The readers of layers and of string pools take from the stream and put nothing back.
pub record Consumes (sp : StringPools) {Layer : Type 0} (lr : LayerReader sp.Pool Layer)
    : Type 0 where
  pub pool_shorter :
      (p : sp.Pool) (s : Bytes) (q : sp.Pool) (rest : Bytes)
      → sp.read p s ≡ some (q, rest)
      → length rest ≤ length s
  pub feature_shorter :
      (ps : Pools sp.Pool) (s : Bytes) (l : Layer) (qs : Pools sp.Pool) (rest : Bytes)
      → lr.read_feature_layer ps s ≡ some (l, qs, rest)
      → length rest ≤ length s
  pub source_data_shorter :
      (ps : Pools sp.Pool) (s : Bytes) (l : Layer) (qs : Pools sp.Pool) (rest : Bytes)
      → lr.read_source_data_layer ps s ≡ some (l, qs, rest)
      → length rest ≤ length s

module _ {b : Bitsery} (laws : BitseryLaws b) where
  length-get_version : (s : Bytes) → 6 ≤ length s → length (get_version b s).1 + 6 ≡ length s
  unfolding get_version
  length-get_version s h =
      let first = laws.length-get2 s (omega arith) in
      let second = laws.length-get2 (b.get2 s).1 (omega arith) in
      omega (arith, laws.length-get2 (b.get2 (b.get2 s).1).1 (omega arith))

  -- A header that was read took eleven bytes.
  pub length-read_message_header :
      (s : Bytes) (t size : ℕ) (rest : Bytes)
      → read_message_header b s ≡ ok (some (t, size, rest))
      → length rest + 11 ≡ length s
  unfolding read_message_header
  length-read_message_header s t size rest h = elim (Bool-cases (ltb (length s) header_size)) [
    | inl short ↦ cc (rw short at h)
    | inr enough ↦
        let long = ltb→ge (length s) header_size enough in
        let s1 = (get_version b s).1 in
        let v = length-get_version s (omega arith) in
        let one = laws.length-get1 s1 (omega arith) in
        let four = laws.length-get4 (b.get1 s1).1 (omega arith) in ground arith
  ]

  -- Where no fuel runs out in it, a header is read or not, or the code throws.
  header-ne-stuck : (s : Bytes) → read_message_header b s ≢ stuck
  unfolding read_message_header
  header-ne-stuck s h = ground arith

-- The bytes that are left by a read, of which the length is `d` where there is none.
abbrev rest_length : {W : Type 0} → Bytes → Option (W × Bytes) → ℕ
rest_length d none = length d
rest_length d (some (v, s)) = length s

-- What the loop has left to do: a byte less in the buffer, or a value less to wait for.
abbrev room : {Pool Layer : Type 0} → Reader Pool Layer → ℕ
room r = length r.buffer + (elim r.phase [ read_header ↦ 0 | read_value ↦ 1 ])

module _ {b : Bitsery} (laws : BitseryLaws b) (sp : StringPools) {Layer : Type 0}
    {lr : LayerReader sp.Pool Layer} (c : Consumes sp lr) where
  deliver_shorter :
      (w : World sp.Pool Layer) (o : Option (Layer × Pools sp.Pool × Bytes)) (n : ℕ)
      (w' : World sp.Pool Layer) (rest : Bytes)
      → ((l : Layer) (qs : Pools sp.Pool) (rest : Bytes) → o ≡ some (l, qs, rest) → length rest ≤ n)
      → deliver b sp lr w o ≡ some (w', rest)
      → length rest ≤ n
  unfolding deliver
  deliver_shorter w none n w' rest bound h = cc
  deliver_shorter w (some (l, qs, s)) n w' rest bound h =
      omega (arith, bound l qs s refl, ap (rest_length s) h)

  read_strings_shorter :
      (w : World sp.Pool Layer) (s : Bytes) (w' : World sp.Pool Layer) (rest : Bytes)
      → read_strings b sp lr w s ≡ some (w', rest)
      → length rest ≤ length s
  unfolding read_strings
  read_strings_shorter w s w' rest h =
      let (node, s1) = b.get_text s in
      let pool = (get_string_pool sp.new_pool w.pools node).0 in
      elim (Option-cases (sp.read pool s1)) [
        | inl e ↦ cc (rw (e, read_strings) at h)
        | inr ((q, s2), e) ↦ omega (
          arith,
          c.pool_shorter pool s1 q s2 e,
          laws.get_text_shorter s,
          ap (rest_length s2) (rw (e, read_strings) at h),
        )
      ]

  take_value_shorter :
      (t : ℕ) (w : World sp.Pool Layer) (s : Bytes) (w' : World sp.Pool Layer) (rest : Bytes)
      → take_value b sp lr t w s ≡ some (w', rest)
      → length rest ≤ length s
  unfolding take_value
  take_value_shorter t w s w' rest h = elim (Bool-cases (t == tile_feature_layer)) [
    | inl e ↦
        deliver_shorter w (lr.read_feature_layer w.pools s) (length s) w' rest
          (c.feature_shorter w.pools s) (rw e at h)
    | inr e ↦ elim (Bool-cases (t == tile_source_data_layer)) [
      | inl e' ↦
          deliver_shorter w (lr.read_source_data_layer w.pools s) (length s) w' rest
            (c.source_data_shorter w.pools s) (rw (e, e') at h)
      | inr e' ↦ elim (Bool-cases (t == string_pool)) [
        | inl e'' ↦ read_strings_shorter w s w' rest (rw (e, e', e'') at h)
        | inr e'' ↦ omega (arith, ap (rest_length rest) (rw (e, e', e'') at h))
      ]
    ]
  ]

  -- A round is never stuck, and one that asks for another leaves less room than `m`.
  abbrev Falls : ℕ → Result (Reader sp.Pool Layer × Bool) → Type 0
  Falls m stuck = ⊥
  Falls m raised = Unit
  Falls m (ok (r, true)) = room r < m
  Falls m (ok (r, false)) = Unit

  continue_value-Falls :
      (r : Reader sp.Pool Layer) → Falls (length r.buffer + 1) (continue_value b sp lr r)
  unfolding continue_value
  continue_value-Falls r = elim (Bool-cases (ltb (length r.buffer) r.next_size)) [
    | inl short ↦ rw short tt
    | inr enough ↦ elim (Option-cases (take_value b sp lr r.next_type r.world r.buffer)) [
      | inl e ↦ rw (enough, e, continue_value) tt
      | inr ((w, rest), e) ↦
          rw (enough, e, continue_value)
            (omega (arith, take_value_shorter r.next_type r.world r.buffer w rest e))
    ]
  ]

  Falls-mono : (m n : ℕ) (o : Result (Reader sp.Pool Layer × Bool)) → m ≤ n → Falls m o → Falls n o
  Falls-mono m n stuck le f = f
  Falls-mono m n raised le f = tt
  Falls-mono m n (ok (r, true)) le f = omega arith
  Falls-mono m n (ok (r, false)) le f = tt

  continue_header-Falls :
      (r : Reader sp.Pool Layer) (o : Result (Option (ℕ × ℕ × Bytes)))
      → read_message_header b r.buffer ≡ o
      → Falls (length r.buffer) (continue_header b sp lr r o)
  unfolding continue_header
  continue_header-Falls r raised e = tt
  continue_header-Falls r stuck e = header-ne-stuck laws r.buffer e
  continue_header-Falls r (ok none) e = tt
  continue_header-Falls r (ok (some (t, size, rest))) e =
      Falls-mono (length rest + 1) (length r.buffer) _
        (omega (arith, length-read_message_header laws r.buffer t size rest e))
        (continue_value-Falls
          (record r { phase = read_value; next_type = t; next_size = size; buffer = rest }))

  continue_phase-Falls :
      (p : Phase) (r : Reader sp.Pool Layer)
      → Falls
          (length r.buffer + (elim p [ read_header ↦ 0 | read_value ↦ 1 ]))
          (continue_phase b sp lr p r)
  unfolding continue_phase
  continue_phase-Falls read_header r =
      Falls-mono (length r.buffer) _ _ (omega arith) (continue_header-Falls r _ refl)
  continue_phase-Falls read_value r = continue_value-Falls r

  continue_reading-Falls : (r : Reader sp.Pool Layer) → Falls (room r) (continue_reading b sp lr r)
  unfolding continue_reading
  continue_reading-Falls r = continue_phase-Falls r.phase r

  loop-ne-stuck :
      (fuel : ℕ) (r : Reader sp.Pool Layer) → room r < fuel → reading_loop b sp lr fuel r ≢ stuck
  unfolding reading_loop
  loop-ne-stuck zero r m e = absurd (omega arith)
  loop-ne-stuck (suc fuel) r m e =
      after (loop-ne-stuck fuel) (continue_reading b sp lr r) refl (continue_reading-Falls r)
    where
      after :
          ((q : Reader sp.Pool Layer) → room q < fuel → reading_loop b sp lr fuel q ≢ stuck)
          → (o : Result (Reader sp.Pool Layer × Bool)) → continue_reading b sp lr r ≡ o
          → Falls (room r) o
          → ⊥
      after ih stuck e' f = f
      after ih raised e' f = cc (rw (e', reading_loop) at e)
      after ih (ok (q, true)) e' f = ih q (omega arith) (rw (e', reading_loop) at e)
      after ih (ok (q, false)) e' f = cc (rw (e', reading_loop) at e)

  room-lt : (r : Reader sp.Pool Layer) → room r < length r.buffer + 2
  room-lt r = by_phase r.phase
    where
      by_phase :
          (p : Phase)
          → length r.buffer + (elim p [ read_header ↦ 0 | read_value ↦ 1 ]) < length r.buffer + 2
      by_phase read_header = omega arith
      by_phase read_value = omega arith

  -- Reading any bytes in any state of the reader ends, well formed or not: where no reader of layers
  -- or string pools puts bytes back, the fuel that the loop is given is enough.
  pub read_bytes-ne-stuck :
      (r : Reader sp.Pool Layer) (bytes : Bytes) → read_bytes b sp lr r bytes ≢ stuck
  unfolding read_bytes
  read_bytes-ne-stuck r bytes =
      let r' : Reader sp.Pool Layer = record r { buffer = r.buffer ++ bytes } in
      loop-ne-stuck (length (r.buffer ++ bytes) + 2) r' (room-lt r')
