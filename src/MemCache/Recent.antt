-- ===== src/MemCache/Recent.antt =====
-- The cache keeps the tiles that were put last, where no key is put twice.
use mapget.Base.{
  ℕ, zero, suc, ◌≤◌, ◌≡◌, true, false, List, [], ◌∷◌, ◌++◌, none, refl, ap, sym, ◌∙◌, arith, length,
  ltb, ltb→lt, ltb→ge, if◌then◌else◌, Bool-cases, inl, inr, map, take, subst,
}
use mapget.Base.Text.{Text, text_eq, text_eq_iff}
use mapget.MemCache.{Table, find, emplace, erase, MemCache, pop_back, evict, put_text, get_text}
use mapget.MemCache.Lookup.{find-erase, pop_back-append, length-pop_back, pop_back-map}

-- A history with the latest put first, in which no key occurs twice.
abbrev pub Distinct : Table → Type 0
Distinct [] = Unit
Distinct ((k, v) ∷ t) = (find t k ≡ none) × Distinct t

abbrev pub keys : Table → List Text
keys = map (λ p. p.0)

-- The cache shows exactly the tiles of the history.
pub record Holds (c : MemCache) (recent : Table) : Type 0 where
  pub queue : c.fifo ≡ keys recent
  pub shows : (k : Text) → get_text c k ≡ find recent k

find-append :
    (t : Table) (k v j : Text)
    → find t k ≡ none
    → find t j ≡ (if text_eq k j then none else find (t ++ ((k, v) ∷ [])) j)
unfolding find
find-append [] k v j h = ground arith
find-append ((i, w) ∷ t) k v j h =
    ground (arith, find-append t k v j, text_eq_iff i k, text_eq_iff i j, text_eq_iff k j)

find-append_none :
    (t : Table) (k v i : Text)
    → find (t ++ ((k, v) ∷ [])) i ≡ none
    → (find t i ≡ none) × (text_eq k i ≡ false)
unfolding find
find-append_none [] k v i h = ground arith
find-append_none ((j, w) ∷ t) k v i h = ground (arith, find-append_none t k v i)

text_eq_sym : (s t : Text) → text_eq s t ≡ text_eq t s
text_eq_sym s t = ground (arith, text_eq_iff s t, text_eq_iff t s)

Distinct-append :
    (t : Table) (k v : Text) → Distinct (t ++ ((k, v) ∷ [])) → (find t k ≡ none) × Distinct t
unfolding find
Distinct-append [] k v d = (refl, tt)
Distinct-append ((i, w) ∷ t) k v d =
    ground (arith, Distinct-append t k v d.1, find-append_none t k v i d.0, text_eq_sym i k)

take-append :
    (n : ℕ) (t : Table) (p : Text × Text) → n ≤ length t → take n (t ++ (p ∷ [])) ≡ take n t
take-append zero t p h = refl
take-append (suc n) [] p h = absurd (omega arith)
take-append (suc n) (q ∷ t) p h = ap (◌∷◌ q) (take-append n t p (omega arith))

take-all : (n : ℕ) (t : Table) → length t ≤ n → take n t ≡ t
take-all zero [] h = refl
take-all zero (q ∷ t) h = absurd (omega arith)
take-all (suc n) [] h = refl
take-all (suc n) (q ∷ t) h = ap (◌∷◌ q) (take-all n t (omega arith))

-- What the eviction of the entries beyond the limit leaves.
abbrev Kept : ℕ → Table → Table × List Text → Type 0
Kept max recent r =
    (r.1 ≡ keys (take max recent)) × ((k : Text) → find r.0 k ≡ find (take max recent) k)

-- The oldest entry of a history goes with its key.
erase-oldest :
    (t recent : Table) (k v : Text)
    → Distinct (recent ++ ((k, v) ∷ []))
    → ((j : Text) → find t j ≡ find (recent ++ ((k, v) ∷ [])) j)
    → (j : Text) → find (erase t k) j ≡ find recent j
erase-oldest t recent k v d same j =
    find-erase t k j
    ∙ ap (λ o. if text_eq k j then none else o) (same j)
    ∙ sym (find-append recent k v j (Distinct-append recent k v d).0)

Kept-whole :
    (max : ℕ) (t recent : Table)
    → length recent ≤ max
    → ((j : Text) → find t j ≡ find recent j)
    → Kept max recent (t, keys recent)
Kept-whole max t recent h same = rw (take-all max recent h) (refl, same)

-- One round of the eviction, in terms of the history.
evict-round :
    (rounds max : ℕ) (t : Table) (p : Text × Text) (recent : Table)
    → ltb max (length (keys (p ∷ recent))) ≡ true
    → evict (suc rounds) max t (keys (p ∷ recent))
      ≡ evict rounds max (erase t (pop_back p recent).1.0) (keys (pop_back p recent).0)
unfolding evict
evict-round rounds max t p recent over = rw (over, pop_back-map (λ (q : Text × Text). q.0) p recent)

length-keys : (t : Table) → length (keys t) ≡ length t
length-keys [] = refl
length-keys (p ∷ t) = ap suc (length-keys t)

take-pop_back :
    (max : ℕ) (p : Text × Text) (recent : Table)
    → max ≤ length recent
    → take max (pop_back p recent).0 ≡ take max (p ∷ recent)
take-pop_back max p recent h =
    sym (
      take-append max (pop_back p recent).0 (pop_back p recent).1
        (omega (arith, length-pop_back p recent)))
    ∙ ap (take max) (pop_back-append p recent)

evict-Kept :
    (rounds max : ℕ) (t recent : Table)
    → length recent ≤ rounds
    → Distinct recent
    → ((j : Text) → find t j ≡ find recent j)
    → Kept max recent (evict rounds max t (keys recent))
unfolding evict
evict-Kept zero max t [] h d same = Kept-whole max t [] (omega arith) same
evict-Kept zero max t (q ∷ recent) h d same = absurd (omega arith)
evict-Kept (suc rounds) max t [] h d same = Kept-whole max t [] (omega arith) same
evict-Kept (suc rounds) max t (p ∷ recent) h d same =
    elim (Bool-cases (ltb max (length (keys (p ∷ recent))))) [
      | inl over ↦
          let older = (pop_back p recent).0 in
          let oldest = (pop_back p recent).1 in
          let whole = pop_back-append p recent in
          let distinct : Distinct (older ++ (oldest ∷ [])) = subst Distinct (sym whole) d in
          let kept =
            evict-Kept rounds max (erase t oldest.0) older (omega (arith, length-pop_back p recent))
              (Distinct-append older oldest.0 oldest.1 distinct).1
              (erase-oldest t older oldest.0 oldest.1 distinct
                (λ j. same j ∙ ap (λ l. find l j) (sym whole))) in
          subst (Kept max (p ∷ recent)) (sym (evict-round rounds max t p recent over)) (
            subst
              (λ l.
                (((evict rounds max (erase t oldest.0) (keys older)).1 ≡ keys l)
                  × ((k : Text)
                      → find (evict rounds max (erase t oldest.0) (keys older)).0 k ≡ find l k)))
              (take-pop_back max p recent (omega (arith, ltb→lt _ _ over, length-keys recent)))
              kept)
      | inr fits ↦
          rw fits (
            Kept-whole max t (p ∷ recent) (omega (arith, ltb→ge _ _ fits, length-keys recent)) same)
    ]

emplace-new :
    (c : MemCache) (recent : Table) (k v : Text)
    → Holds c recent
    → find recent k ≡ none
    → (j : Text) → find (emplace c.cached_tiles k v) j ≡ find ((k, v) ∷ recent) j
unfolding find get_text emplace
emplace-new c recent k v h fresh j = ground (arith, h.shows k, h.shows j)

put_text-Holds :
    (c : MemCache) (recent : Table) (k v : Text)
    → Holds c recent
    → Distinct recent
    → find recent k ≡ none
    → Holds (put_text c k v) (take c.max_cached_tiles ((k, v) ∷ recent))
unfolding put_text get_text
put_text-Holds c recent k v h d fresh =
    let max = c.max_cached_tiles in
    let tiles = emplace c.cached_tiles k v in
    let kept =
      evict-Kept (length (k ∷ c.fifo)) max tiles ((k, v) ∷ recent)
        (omega (arith, ap length h.queue, length-keys recent)) (fresh, d)
        (emplace-new c recent k v h fresh) in
    let kept' =
      subst (λ f. Kept max ((k, v) ∷ recent) (evict (length (k ∷ c.fifo)) max tiles (k ∷ f)))
        (sym h.queue) kept in
    record { queue = kept'.0; shows = kept'.1 }

find-take-none : (n : ℕ) (t : Table) (k : Text) → find t k ≡ none → find (take n t) k ≡ none
unfolding find
find-take-none zero t k h = refl
find-take-none (suc n) [] k h = refl
find-take-none (suc n) ((j, v) ∷ t) k h = ground (arith, find-take-none n t k)

Distinct-take : (n : ℕ) (t : Table) → Distinct t → Distinct (take n t)
Distinct-take zero t d = tt
Distinct-take (suc n) [] d = tt
Distinct-take (suc n) ((k, v) ∷ t) d = (find-take-none n t k d.0, Distinct-take n t d.1)

take-take : (m n : ℕ) (t : Table) → m ≤ n → take m (take n t) ≡ take m t
take-take zero n t h = refl
take-take (suc m) zero t h = absurd (omega arith)
take-take (suc m) (suc n) [] h = refl
take-take (suc m) (suc n) (p ∷ t) h = ap (◌∷◌ p) (take-take m n t (omega arith))

take-cons_take : (n : ℕ) (p : Text × Text) (t : Table) → take n (p ∷ take n t) ≡ take n (p ∷ t)
take-cons_take zero p t = refl
take-cons_take (suc n) p t = ap (◌∷◌ p) (take-take n (suc n) t (omega arith))

-- A cache that shows exactly the latest tiles of a history without repeated keys, as many as it may
-- hold, does so after the put of a key that the history lacks.
pub put_text-latest :
    (c : MemCache) (history : Table) (k v : Text)
    → Holds c (take c.max_cached_tiles history)
    → Distinct history
    → find history k ≡ none
    → Holds (put_text c k v) (take c.max_cached_tiles ((k, v) ∷ history))
put_text-latest c history k v h d fresh =
    let max = c.max_cached_tiles in
    subst (Holds (put_text c k v)) (take-cons_take max (k, v) history) (
      put_text-Holds c (take max history) k v h (Distinct-take max history d)
        (find-take-none max history k fresh))
