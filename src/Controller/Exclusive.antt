-- ===== src/Controller/Exclusive.antt =====
-- Jobs that leave, or change their place, keep the keys of the others apart.
use mapget.Base.{
  ℕ, ◌+◌, ◌≡◌, Bool, false, List, [], ◌∷◌, ◌++◌, refl, arith, if◌then◌else◌, any, ◌==◌,
}
use mapget.Key.{MapTileKey, equals}
use mapget.Controller.{erase, Job}
use mapget.Controller.Keys.{Exclusive, Exclusive-erase, equals-sym}
use mapget.Controller.Balance.{count}

abbrev pub has_key : MapTileKey → List Job → Bool
has_key k = any (λ (j : Job). equals j.0 k)

pub has_key-middle :
    (k : MapTileKey) (as' : List Job) (j : Job) (bs : List Job)
    → has_key k (as' ++ (j ∷ bs)) ≡ false
    → (equals j.0 k ≡ false) × (has_key k (as' ++ bs) ≡ false)
has_key-middle k [] j bs h = ground arith
has_key-middle k (a ∷ as') j bs h = ground (arith, has_key-middle k as' j bs)

has_key-insert :
    (k : MapTileKey) (as' : List Job) (j : Job) (bs : List Job)
    → equals j.0 k ≡ false
    → has_key k (as' ++ bs) ≡ false
    → has_key k (as' ++ (j ∷ bs)) ≡ false
has_key-insert k [] j bs e h = ground arith
has_key-insert k (a ∷ as') j bs e h = ground (arith, has_key-insert k as' j bs)

-- From the middle to the front, and back.
pub Exclusive-to_front :
    (busy : List MapTileKey) (as' : List Job) (j : Job) (bs : List Job)
    → Exclusive busy (as' ++ (j ∷ bs))
    → Exclusive busy (j ∷ (as' ++ bs))
Exclusive-to_front busy [] j bs e = e
Exclusive-to_front busy (a ∷ as') j bs e =
    let ih = Exclusive-to_front busy as' j bs e.1.1 in
    let mid = has_key-middle a.0 as' j bs e.1.0 in
    (ih.0, (ground (arith, equals-sym j.0 a.0), (e.0, (mid.1, ih.1.1))))

pub Exclusive-to_middle :
    (busy : List MapTileKey) (as' : List Job) (j : Job) (bs : List Job)
    → Exclusive busy (j ∷ (as' ++ bs))
    → Exclusive busy (as' ++ (j ∷ bs))
Exclusive-to_middle busy [] j bs e = e
Exclusive-to_middle busy (a ∷ as') j bs e = (
  e.1.1.0,
  (
    has_key-insert a.0 as' j bs (ground (arith, equals-sym j.0 a.0)) e.1.1.1.0,
    Exclusive-to_middle busy as' j bs (e.0, (ground arith, e.1.1.1.1)),
  ),
)

-- A job that is done leaves with its key.
pub Exclusive-done :
    (busy : List MapTileKey) (as' : List Job) (k : MapTileKey) (r : ℕ) (bs : List Job)
    → Exclusive busy (as' ++ ((k, r) ∷ bs))
    → Exclusive (erase busy k) (as' ++ bs)
Exclusive-done busy as' k r bs e =
    let front = Exclusive-to_front busy as' (k, r) bs e in
    Exclusive-erase busy (as' ++ bs) k front.1.1 front.1.0

pub count-middle :
    (n : ℕ) (as' : List Job) (j : Job) (bs : List Job)
    → count n (as' ++ (j ∷ bs)) ≡ (if j.1 == n then 1 else 0) + count n (as' ++ bs)
count-middle n [] j bs = refl
count-middle n (a ∷ as') j bs = omega (arith, count-middle n as' j bs)

pub count-append : (n : ℕ) (as' bs : List Job) → count n (as' ++ bs) ≡ count n as' + count n bs
count-append n [] bs = omega arith
count-append n (a ∷ as') bs = omega (arith, count-append n as' bs)

pub Exclusive-rest :
    (busy : List MapTileKey) (as' bs : List Job) → Exclusive busy (as' ++ bs) → Exclusive busy bs
Exclusive-rest busy [] bs e = e
Exclusive-rest busy (a ∷ as') bs e = Exclusive-rest busy as' bs e.1.1

pub has_key-right :
    (k : MapTileKey) (as' bs : List Job) → has_key k (as' ++ bs) ≡ false → has_key k bs ≡ false
has_key-right k [] bs h = h
has_key-right k (a ∷ as') bs h = has_key-right k as' bs (ground arith)
