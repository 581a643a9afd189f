-- ===== src/MemCache.antt =====
-- libs/service: MemCache of include/mapget/service/memcache.h and src/memcache.cpp. One call runs
-- under the cache mutex at a time, so a call is one function on the state.
pub mod Lookup
pub mod Recent
pub mod Stale
pub mod Tests
use mapget.Base.{
  ℕ, zero, suc, ◌+◌, Bool, true, false, List, [], ◌∷◌, Option, none, some, ltb, if◌then◌else◌,
  length,
}
use mapget.Base.Text.{Text, text_eq}
use mapget.Key.{MapTileKey, to_string}

-- std::unordered_map<std::string, std::string>
abbrev pub Table : Type 0
Table = List (Text × Text)

pub find : Table → Text → Option Text
find [] k = none
find ((j, v) ∷ t) k = if text_eq j k then some v else find t k

-- emplace: a key that is there keeps its value.
pub emplace : Table → Text → Text → Table
emplace t k v = elim (find t k) [ none ↦ (k, v) ∷ t | some old ↦ t ]

pub erase : Table → Text → Table
erase [] k = []
erase ((j, v) ∷ t) k = let rest = erase t k in if text_eq j k then rest else (j, v) ∷ rest

-- The front of fifo is the key that was put last.
pub record MemCache : Type 0 where
  pub cached_tiles : Table
  pub fifo : List Text
  pub max_cached_tiles : ℕ

-- fifo_.back() and fifo_.pop_back(), of a queue that is not empty.
pub pop_back {ℓ} : {A : Type ℓ} → A → List A → List A × A
pop_back a [] = ([], a)
pop_back a (b ∷ bs) = let (rest, last) = pop_back b bs in (a ∷ rest, last)

-- while (fifo_.size() > maxCachedTiles_), with the length of the queue for its rounds.
pub evict : ℕ → ℕ → Table → List Text → Table × List Text
evict zero max t fifo = (t, fifo)
evict (suc rounds) max t [] = (t, [])
evict (suc rounds) max t (k ∷ ks) =
    let (rest, oldest) = pop_back k ks in
    let go_on = evict rounds max (erase t oldest) rest in
    if ltb max (length (k ∷ ks)) then go_on else (t, k ∷ ks)

-- putTileLayerBlob, for the text of the key.
pub put_text : MemCache → Text → Text → MemCache
put_text c ks v =
    let fifo = ks ∷ c.fifo in
    let (tiles, kept) = evict (length fifo) c.max_cached_tiles (emplace c.cached_tiles ks v) fifo in
    record c { fifo = kept; cached_tiles = tiles }

pub get_text : MemCache → Text → Option Text
get_text c ks = find c.cached_tiles ks

-- MemCache::putTileLayerBlob and MemCache::getTileLayerBlob
pub put_tile_layer_blob : (ℕ → Text) → MemCache → MapTileKey → Text → MemCache
put_tile_layer_blob hex c k v = put_text c (to_string hex k) v

pub get_tile_layer_blob : (ℕ → Text) → MemCache → MapTileKey → Option Text
get_tile_layer_blob hex c k = get_text c (to_string hex k)
