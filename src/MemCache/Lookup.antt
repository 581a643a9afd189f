-- ===== src/MemCache/Lookup.antt =====
-- The table of the cache, and the bound on its queue.
use mapget.Base.{
  ℕ, zero, suc, ◌≤◌, ◌≡◌, List, [], ◌∷◌, ◌++◌, none, some, refl, ap, arith, length, ltb, ltb→ge,
  if◌then◌else◌, Bool-cases, inl, inr, map,
}
use mapget.Base.Text.{Text, text_eq, text_eq_iff}
use mapget.MemCache.{Table, find, emplace, erase, MemCache, pop_back, evict, put_text}

pub find-emplace :
    (t : Table) (k j v : Text)
    → find (emplace t k v) j
      ≡ (elim (find t k) [ none ↦ if text_eq k j then some v else find t j | some old ↦ find t j ])
unfolding find emplace
find-emplace t k j v = ground arith

pub find-erase :
    (t : Table) (k j : Text) → find (erase t k) j ≡ (if text_eq k j then none else find t j)
unfolding find erase
find-erase [] k j = ground arith
find-erase ((i, v) ∷ t) k j =
    ground (arith, find-erase t k j, text_eq_iff i k, text_eq_iff i j, text_eq_iff k j)

-- What pop_back takes off is the last entry.
pub pop_back-append {ℓ} :
    {A : Type ℓ} (a : A) (as' : List A) → (pop_back a as').0 ++ ((pop_back a as').1 ∷ []) ≡ a ∷ as'
unfolding pop_back
pop_back-append a [] = refl
pop_back-append a (b ∷ bs) = ap (◌∷◌ a) (pop_back-append b bs)

pub length-pop_back {ℓ} :
    {A : Type ℓ} (a : A) (as' : List A) → length (pop_back a as').0 ≡ length as'
unfolding pop_back
length-pop_back a [] = refl
length-pop_back a (b ∷ bs) = ap suc (length-pop_back b bs)

pub pop_back-map {ℓ κ} :
    {A : Type ℓ} {B : Type κ} (f : A → B) (a : A) (as' : List A)
    → pop_back (f a) (map f as') ≡ (map f (pop_back a as').0, f (pop_back a as').1)
unfolding pop_back
pop_back-map f a [] = refl
pop_back-map f a (b ∷ bs) = rw (pop_back-map f b bs)

evict-bound :
    (rounds max : ℕ) (t : Table) (fifo : List Text)
    → length fifo ≤ rounds
    → length (evict rounds max t fifo).1 ≤ max
unfolding evict
evict-bound zero max t fifo h = omega arith
evict-bound (suc rounds) max t [] h = omega arith
evict-bound (suc rounds) max t (k ∷ ks) h = elim (Bool-cases (ltb max (length (k ∷ ks)))) [
  | inl e ↦ rw e (
      evict-bound rounds max (erase t (pop_back k ks).1) (pop_back k ks).0
        (omega (arith, length-pop_back k ks)))
  | inr e ↦ rw e (ltb→ge max (length (k ∷ ks)) e)
]

-- After a put the queue holds at most as many keys as the cache may hold tiles.
pub put_text-bound : (c : MemCache) (k v : Text) → length (put_text c k v).fifo ≤ c.max_cached_tiles
unfolding put_text
put_text-bound c k v =
    evict-bound (length (k ∷ c.fifo)) c.max_cached_tiles (emplace c.cached_tiles k v) (k ∷ c.fifo)
      (omega arith)
