-- ===== src/MemCache/Tests.antt =====
-- Runs of the memory cache.
use mapget.Base.{◌≡◌, [], ◌∷◌, some, none, refl}
use mapget.Base.Text.{codes, text_eq}
use mapget.MemCache.{Table, find, MemCache, put_text, get_text, emplace, evict, pop_back, erase}
use mapget.MemCache.Recent.{Holds, Distinct, put_text-latest}

abbrev tiles : Table
tiles = (codes "b", codes "B1") ∷ (codes "a", codes "A1") ∷ []

abbrev two : MemCache
two = record { cached_tiles = tiles; fifo = codes "b" ∷ codes "a" ∷ []; max_cached_tiles = 2 }

abbrev three : MemCache
three = record two { max_cached_tiles = 3 }

-- The first tile goes when a third one comes.
put_run : get_text (put_text two (codes "c") (codes "C1")) (codes "a") ≡ none
unfolding put_text get_text find emplace evict pop_back erase text_eq
put_run = refl

two-Holds : Holds two tiles
unfolding get_text
two-Holds = record { queue = refl; shows = λ k. refl }

tiles-Distinct : Distinct tiles
unfolding find text_eq
tiles-Distinct = (refl, (refl, tt))

c_new : find tiles (codes "c") ≡ none
unfolding find text_eq
c_new = refl

a_there : get_text three (codes "a") ≡ some (codes "A1")
unfolding find get_text text_eq
a_there = refl

put_text-latest_example :
    Holds
      (put_text two (codes "c") (codes "C1"))
      ((codes "c", codes "C1") ∷ (codes "b", codes "B1") ∷ [])
put_text-latest_example =
    put_text-latest two tiles (codes "c") (codes "C1") two-Holds tiles-Distinct c_new
