-- ===== src/Writer/Offsets.antt =====
-- What a write does to the string pool offsets, and what it sends.
use mapget.Base.{
  ◌<◌, ◌+◌, ℕ, ◌≤◌, ◌≡◌, ◌⊎◌, Bool, true, List, [], ◌∷◌, ◌++◌, Option, none, some, refl, arith, ltb,
  if◌then◌else◌, ap, ◌∙◌, sym, is_some, append-nil, ge→ltb, lt→ltb, ◌↔◌, Bool-cases, inl, inr,
  Option-cases,
}
use mapget.Base.Text.{Text, text_eq, text_eq_iff, text_eq_refl}
use mapget.Key.{LayerType, features, source_data}
use mapget.Wire.{Bitsery, StringPools}
use mapget.Stream.{send_message, string_pool}
use mapget.Writer.{
  pool_bytes, Offsets, offset, set_offset, Message, WrittenLayer, message_type, send_strings,
  update_strings, write_layer,
}

pub offset-set_offset :
    (os : Offsets) (k j : Text) (n : ℕ)
    → offset (set_offset os k n) j ≡ (if text_eq k j then n else offset os j)
unfolding offset set_offset
offset-set_offset [] k j n = ground arith
offset-set_offset ((i, m) ∷ os) k j n =
    ground (arith, offset-set_offset os k j n, text_eq_iff i k, text_eq_iff i j, text_eq_iff k j)

message_type-supported :
    (t : LayerType) → (is_some (message_type t) ≡ true) ↔ ((t ≡ features) ⊎ (t ≡ source_data))
unfolding message_type
message_type-supported t = ground arith

module _ (b : Bitsery) (sp : StringPools) (differential : Bool) where
  -- The message of the layer itself, for the types that have one.
  abbrev pub layer_messages : WrittenLayer sp.Pool → List Message
  layer_messages layer = elim (message_type layer.type) [
    | none ↦ []
    | some t ↦ (send_message b layer.bytes t, t) ∷ []
  ]

  write_layer-parts :
      (os : Offsets) (layer : WrittenLayer sp.Pool)
      → ((write_layer b sp differential os layer).0 ≡ (update_strings b sp differential os layer).0)
        × ((write_layer b sp differential os layer).1
            ≡ (update_strings b sp differential os layer).1 ++ layer_messages layer)
        × ((write_layer b sp differential os layer).2 ≡ is_some (message_type layer.type))
  unfolding write_layer
  write_layer-parts os layer = by_type (message_type layer.type) refl
    where
      by_type :
          (o : Option ℕ)
          → message_type layer.type ≡ o
          → ((write_layer b sp differential os layer).0
              ≡ (update_strings b sp differential os layer).0)
            × ((write_layer b sp differential os layer).1
                ≡ (update_strings b sp differential os layer).1 ++ layer_messages layer)
            × ((write_layer b sp differential os layer).2 ≡ is_some (message_type layer.type))
      by_type none e = rw (e, write_layer, layer_messages) (refl, sym (append-nil _), refl)
      by_type (some t) e = rw (e, write_layer, layer_messages) (refl, refl, refl)

  update_strings-some :
      (os : Offsets) (layer : WrittenLayer sp.Pool) (pool : sp.Pool)
      → layer.strings ≡ some pool
      → update_strings b sp differential os layer
        ≡ send_strings b sp differential os layer.node_id pool
  unfolding update_strings
  update_strings-some os layer pool e = rw e refl

  send_strings-offset :
      (os : Offsets) (node : Text) (pool : sp.Pool) (j : Text)
      → offset (send_strings b sp differential os node pool).0 j ≡ (
          if text_eq node j
          then Prim.Native.Nat.max (offset os node) (sp.highest pool)
          else offset os j)
  unfolding send_strings
  send_strings-offset os node pool j = elim (Bool-cases (ltb (offset os node) (sp.highest pool))) [
    | inl e ↦ rw e (ground (arith, offset-set_offset os node j (sp.highest pool)))
    | inr e ↦ rw e (ground (arith, offset-set_offset os node j (offset os node)))
  ]

  send_strings-quiet :
      (os : Offsets) (node : Text) (pool : sp.Pool)
      → sp.highest pool ≤ offset os node
      → (send_strings b sp differential os node pool).1 ≡ []
  unfolding send_strings
  send_strings-quiet os node pool h = rw (ge→ltb (offset os node) (sp.highest pool) h) refl

  -- Writing a layer that has a string pool raises the offset of its node to the highest string of the
  -- pool, where it was lower, and leaves the offsets of the other nodes, whether or not the write
  -- throws; and it returns exactly for the layer types Features and SourceData.
  pub write_layer-offset :
      (os : Offsets) (layer : WrittenLayer sp.Pool) (pool : sp.Pool)
      → layer.strings ≡ some pool
      → ((node : Text)
          → offset (write_layer b sp differential os layer).0 node ≡ (
              if text_eq layer.node_id node
              then Prim.Native.Nat.max (offset os layer.node_id) (sp.highest pool)
              else offset os node))
        × (((write_layer b sp differential os layer).2 ≡ true)
            ↔ ((layer.type ≡ features) ⊎ (layer.type ≡ source_data)))
  write_layer-offset os layer pool e =
      let (os_is, _, ok) = write_layer-parts os layer in
      (
        (λ node.
            ap (λ o. offset o node) (os_is ∙ ap (λ u. u.0) (update_strings-some os layer pool e))
            ∙ send_strings-offset os layer.node_id pool node),
        rw ok (message_type-supported layer.type),
      )

  nothing_new :
      (os : Offsets) (layer : WrittenLayer sp.Pool)
      → (update_strings b sp differential (write_layer b sp differential os layer).0 layer).1 ≡ []
  unfolding update_strings
  nothing_new os layer =
      let os' = (write_layer b sp differential os layer).0 in
      elim (Option-cases layer.strings) [
        | inl e ↦ rw (e, update_strings) refl
        | inr (pool, e) ↦
            ap (λ u. u.1) (update_strings-some os' layer pool e)
            ∙ send_strings-quiet os' layer.node_id pool (
                ground (
                  arith,
                  (write_layer-offset os layer pool e).0 layer.node_id,
                  text_eq_refl layer.node_id,
                ))
      ]

  -- After a layer was written, writing it again sends no strings: its only message is the layer's.
  write_layer-again :
      (os : Offsets) (layer : WrittenLayer sp.Pool)
      → (write_layer b sp differential (write_layer b sp differential os layer).0 layer).1
        ≡ layer_messages layer
  write_layer-again os layer =
      let os' = (write_layer b sp differential os layer).0 in
      (write_layer-parts os' layer).1 ∙ ap (λ ms. ms ++ layer_messages layer) (nothing_new os layer)

  -- With something new in the pool, the messages are the pool's and the layer's.
  pub write_layer-sends_strings :
      (os : Offsets) (layer : WrittenLayer sp.Pool) (pool : sp.Pool)
      → layer.strings ≡ some pool
      → offset os layer.node_id < sp.highest pool
      → (write_layer b sp differential os layer).1
        ≡ (
          send_message b
              (pool_bytes b sp differential layer.node_id pool
                (if differential then offset os layer.node_id + 1 else 0))
              string_pool,
          string_pool,
        )
          ∷ layer_messages layer
  unfolding send_strings
  write_layer-sends_strings os layer pool e new =
      (write_layer-parts os layer).1
      ∙ ap (λ u. u.1 ++ layer_messages layer) (update_strings-some os layer pool e)
      ∙ rw (lt→ltb (offset os layer.node_id) (sp.highest pool) new) refl

  pub pool_bytes-parts :
      (node : Text) (pool : sp.Pool) (from : ℕ)
      → pool_bytes b sp differential node pool from ≡ b.put_text node ++ sp.write pool from
  unfolding pool_bytes
  pool_bytes-parts node pool from = refl
