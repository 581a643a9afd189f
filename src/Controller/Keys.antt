-- ===== src/Controller/Keys.antt =====
-- The set of keys of the jobs in progress.
use mapget.Base.{◌≡◌, true, false, List, [], ◌∷◌, refl, arith, if◌then◌else◌, any}
use mapget.Key.{MapTileKey, equals}
use mapget.Key.Order.{equals-eq}
use mapget.Controller.{contains, erase, Job}

equals-true : (a b : MapTileKey) → equals a b ≡ true → a ≡ b
equals-true a b h = (equals-eq a b).0 h

pub equals_self : (a : MapTileKey) → equals a a ≡ true
equals_self a = (equals-eq a a).1 refl

pub equals-sym : (a b : MapTileKey) → equals a b ≡ equals b a
equals-sym a b = ground (arith, equals-eq a b, equals-eq b a)

equals-trans_false : (a b c : MapTileKey) → equals a b ≡ true → equals a c ≡ equals b c
equals-trans_false a b c h = rw (equals-true a b h)

pub contains-erase :
    (ks : List MapTileKey) (k j : MapTileKey)
    → contains (erase ks k) j ≡ (if equals k j then false else contains ks j)
unfolding erase
contains-erase [] k j = ground arith
contains-erase (i ∷ ks) k j = ground (
  arith,
  contains-erase ks k j,
  equals-trans_false i k j,
  equals-trans_false i j k,
  equals-sym k j,
)

-- Every job's key is in progress, and no two jobs have the same key.
abbrev pub Exclusive : List MapTileKey → List Job → Type 0
Exclusive busy [] = Unit
Exclusive busy ((k, r) ∷ js) =
    (contains busy k ≡ true) × ((any (λ (j : Job). equals j.0 k) js ≡ false) × Exclusive busy js)

-- A key that is not in progress belongs to no job.
pub Exclusive-free :
    (busy : List MapTileKey) (js : List Job) (k : MapTileKey)
    → Exclusive busy js
    → contains busy k ≡ false
    → any (λ (j : Job). equals j.0 k) js ≡ false
Exclusive-free busy [] k e h = refl
Exclusive-free busy ((i, r) ∷ js) k e h =
    ground (arith, Exclusive-free busy js k e.1.1, equals-eq i k)

pub Exclusive-insert :
    (busy : List MapTileKey) (js : List Job) (k : MapTileKey)
    → Exclusive busy js
    → Exclusive (k ∷ busy) js
Exclusive-insert busy [] k e = tt
Exclusive-insert busy ((i, r) ∷ js) k e = (ground arith, (e.1.0, Exclusive-insert busy js k e.1.1))

pub Exclusive-erase :
    (busy : List MapTileKey) (js : List Job) (k : MapTileKey)
    → Exclusive busy js
    → any (λ (j : Job). equals j.0 k) js ≡ false
    → Exclusive (erase busy k) js
Exclusive-erase busy [] k e h = tt
Exclusive-erase busy ((i, r) ∷ js) k e h = (
  ground (arith, contains-erase busy k i, equals-sym k i),
  (e.1.0, Exclusive-erase busy js k e.1.1 (ground arith)),
)
