-- ===== src/MemCache/Stale.antt =====
-- What becomes of a tile that is put again.
use mapget.Base.{
  ℕ, zero, suc, ◌<◌, ◌≤◌, ◌≡◌, List, [], ◌∷◌, ◌++◌, none, some, refl, ap, sym, ◌∙◌, arith, length,
  length-append, ge→ltb, lt→ltb,
}
use mapget.Base.Text.{Text, text_eq_refl}
use mapget.MemCache.{Table, find, emplace, erase, MemCache, pop_back, evict, put_text, get_text}
use mapget.MemCache.Lookup.{find-erase}

evict-fits :
    (rounds max : ℕ) (t : Table) (fifo : List Text)
    → length fifo ≤ max
    → evict rounds max t fifo ≡ (t, fifo)
unfolding evict
evict-fits zero max t fifo h = refl
evict-fits (suc rounds) max t [] h = refl
evict-fits (suc rounds) max t (k ∷ ks) h = rw (ge→ltb max (length (k ∷ ks)) h)

-- While the cache has room, a put of a key that it has leaves the old tile in place.
put_text-stale :
    (c : MemCache) (k old v : Text)
    → get_text c k ≡ some old
    → length c.fifo < c.max_cached_tiles
    → get_text (put_text c k v) k ≡ some old
unfolding put_text get_text emplace
put_text-stale c k old v h room =
    rw
      (evict-fits (length (k ∷ c.fifo)) c.max_cached_tiles (emplace c.cached_tiles k v) (k ∷ c.fifo)
        room)
      (rw (h, emplace) h)

pop_back-snoc : (k j : Text) (ks : List Text) → pop_back j (ks ++ (k ∷ [])) ≡ (j ∷ ks, k)
unfolding pop_back
pop_back-snoc k j [] = refl
pop_back-snoc k j (i ∷ ks) = rw (pop_back-snoc k i ks)

evict-first :
    (rounds max : ℕ) (t : Table) (k : Text) (ks : List Text)
    → length (ks ++ (k ∷ [])) ≡ max
    → evict (suc rounds) max t (k ∷ (ks ++ (k ∷ []))) ≡ (erase t k, k ∷ ks)
unfolding evict
evict-first rounds max t k ks full =
    rw (lt→ltb max (length (k ∷ (ks ++ (k ∷ [])))) (omega arith), pop_back-snoc k k ks)
      (evict-fits rounds max (erase t k) (k ∷ ks) (omega (arith, length-append ks (k ∷ []))))

-- In a full cache, a put of the key whose entry is the oldest of the queue removes its tile: it is
-- not found directly after the put.
put_text-lost :
    (c : MemCache) (ks : List Text) (k v : Text)
    → c.fifo ≡ ks ++ (k ∷ [])
    → length c.fifo ≡ c.max_cached_tiles
    → get_text (put_text c k v) k ≡ none
unfolding put_text get_text
put_text-lost c ks k v oldest full =
    let tiles = emplace c.cached_tiles k v in
    rw oldest (
      ap (λ r. find r.0 k)
        (evict-first (length (ks ++ (k ∷ []))) c.max_cached_tiles tiles k ks
          (sym (ap length oldest) ∙ full))
      ∙ find-erase tiles k k
      ∙ rw (text_eq_refl k))
