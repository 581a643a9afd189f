-- ===== src/Features/Order.antt =====
-- The index of features by hash: sorting it, and the search of a sorted index.
use mapget.Base.{
  All-map, ℕ, ◌≤◌, ◌<◌, ◌≡◌, ◌⊎◌, inl, inr, Bool, true, false, List, [], ◌∷◌, ◌++◌, Option, none,
  some, refl, All, ltb, ◌==◌, Bool-cases, arith,
}
use mapget.Features.{HashEntry, entry_less, insert_entry, sort_entries, lower_bound, scan_entries}

-- No entry is less than an entry in front of it.
abbrev pub Sorted : List HashEntry → Type 0
Sorted [] = Unit
Sorted (x ∷ xs) = All (λ y. entry_less y x ≡ false) xs × Sorted xs

-- Some entry is of feature i.
abbrev pub Has : ℕ → List HashEntry → Type 0
Has i [] = ⊥
Has i (x ∷ xs) = (x.feature ≡ i) ⊎ Has i xs

pub Has-append : (i : ℕ) (xs ys : List HashEntry) → Has i xs ⊎ Has i ys → Has i (xs ++ ys)
Has-append i [] ys (inl n) = elim n [ ]
Has-append i [] ys (inr h) = h
Has-append i (x ∷ xs) ys (inl (inl e)) = inl e
Has-append i (x ∷ xs) ys (inl (inr h)) = inr (Has-append i xs ys (inl h))
Has-append i (x ∷ xs) ys (inr h) = inr (Has-append i xs ys (inr h))

-- What holds of every entry holds of the entry of feature i.
pub All-Has {κ} :
    (P : HashEntry → Type κ) (i : ℕ) (xs : List HashEntry)
    → All P xs
    → Has i xs
    → (x : HashEntry) × (x.feature ≡ i) × P x
All-Has P i [] h m = elim m [ ]
All-Has P i (x ∷ xs) (p, h) (inl e) = (x, e, p)
All-Has P i (x ∷ xs) (p, h) (inr m) = All-Has P i xs h m

module _ {κ} (P : HashEntry → Type κ) where
  All-insert : (x : HashEntry) (xs : List HashEntry) → P x → All P xs → All P (insert_entry x xs)
  unfolding insert_entry
  All-insert x [] p h = (p, tt)
  All-insert x (y ∷ ys) p h = elim (Bool-cases (entry_less y x)) [
    | inl e ↦ rw (e, insert_entry) (h.0, All-insert x ys p h.1)
    | inr e ↦ rw (e, insert_entry) (p, h)
  ]

  pub All-sort : (xs : List HashEntry) → All P xs → All P (sort_entries xs)
  unfolding sort_entries
  All-sort [] h = tt
  All-sort (x ∷ xs) h = All-insert x (sort_entries xs) h.0 (All-sort xs h.1)

Has-insert :
    (i : ℕ) (x : HashEntry) (xs : List HashEntry) → Has i (x ∷ xs) → Has i (insert_entry x xs)
unfolding insert_entry
Has-insert i x [] h = h
Has-insert i x (y ∷ ys) h = elim (Bool-cases (entry_less y x)) [
  | inr e ↦ rw (e, insert_entry) h
  | inl e ↦
      rw (e, insert_entry)
        (elim h [
          | inl a ↦ inr (Has-insert i x ys (inl a))
          | inr (inl b) ↦ inl b
          | inr (inr m) ↦ inr (Has-insert i x ys (inr m))
        ])
]

pub Has-sort : (i : ℕ) (xs : List HashEntry) → Has i xs → Has i (sort_entries xs)
unfolding sort_entries
Has-sort i [] m = elim m [ ]
Has-sort i (x ∷ xs) (inl e) = Has-insert i x (sort_entries xs) (inl e)
Has-sort i (x ∷ xs) (inr m) = Has-insert i x (sort_entries xs) (inr (Has-sort i xs m))

insert-Sorted : (x : HashEntry) (xs : List HashEntry) → Sorted xs → Sorted (insert_entry x xs)
unfolding insert_entry
insert-Sorted x [] h = (tt, tt)
insert-Sorted x (y ∷ ys) (le, h) = elim (Bool-cases (entry_less y x)) [
  | inl e ↦
      rw (e, insert_entry)
        (All-insert (λ z. entry_less z y ≡ false) x ys (ground arith) le, insert-Sorted x ys h)
  | inr e ↦ rw (e, insert_entry) ((e, All-map ys (λ z le'. ground arith) le), (le, h))
]

pub sort-Sorted : (xs : List HashEntry) → Sorted (sort_entries xs)
unfolding sort_entries
sort-Sorted [] = tt
sort-Sorted (x ∷ xs) = insert-Sorted x (sort_entries xs) (sort-Sorted xs)

-- What a search for the entries of one hash may rely on: an entry that passes has this hash.
module _ (hash : ℕ) (test : ℕ → Bool) where
  abbrev pub Hashed : HashEntry → Type 0
  Hashed x = test x.feature ≡ true → x.id_hash ≡ hash

  -- The least feature of the entries that passes.
  abbrev pub Least : List HashEntry → Option ℕ → Type 0
  Least xs none = All (λ x. test x.feature ≡ false) xs
  Least xs (some i) =
      Has i xs × (test i ≡ true) × All (λ x. test x.feature ≡ true → i ≤ x.feature) xs

  Least-skip :
      (x : HashEntry) (xs : List HashEntry) (r : Option ℕ)
      → test x.feature ≡ false
      → Least xs r
      → Least (x ∷ xs) r
  Least-skip x xs none e h = (e, h)
  Least-skip x xs (some i) e (m, t, h) = (inr m, t, ((λ p. cc), h))

  -- Entries of a greater hash: none passes.
  beyond :
      (x : HashEntry) (xs : List HashEntry)
      → Sorted (x ∷ xs)
      → All Hashed (x ∷ xs)
      → hash < x.id_hash
      → Least (x ∷ xs) none
  beyond x [] s (p, h) lt = (ground arith, tt)
  beyond x (y ∷ ys) ((le, _), s) (p, h) lt = (ground arith, beyond y ys s h (ground arith))

  scan_entries-Least :
      (xs : List HashEntry)
      → Sorted xs
      → All Hashed xs
      → All (λ x. hash ≤ x.id_hash) xs
      → Least xs (scan_entries hash test xs)
  unfolding scan_entries
  scan_entries-Least [] s h g = tt
  scan_entries-Least (x ∷ xs) (le, s) (p, h) (b, g) = elim (Bool-cases (x.id_hash == hash)) [
    | inr e ↦ rw (e, scan_entries) (beyond x xs (le, s) (p, h) (ground arith))
    | inl e ↦ (elim (Bool-cases (test x.feature)) [
      | inr f ↦ rw (e, f, scan_entries) (Least-skip x xs _ f (scan_entries-Least xs s h g))
      | inl f ↦ rw (e, f, scan_entries) (inl refl, f, ((λ q. omega arith), first xs le h))
    ])
  ]
    where
      first :
          (ys : List HashEntry)
          → All (λ y. entry_less y x ≡ false) ys
          → All Hashed ys
          → All (λ y. test y.feature ≡ true → x.feature ≤ y.feature) ys
      first [] le h = tt
      first (y ∷ ys) (n, le) (q, h) = ((λ t. ground (arith, q t)), first ys le h)

  pub search-Least :
      (xs : List HashEntry)
      → Sorted xs
      → All Hashed xs
      → Least xs (scan_entries hash test (lower_bound hash xs))
  unfolding lower_bound scan_entries
  search-Least [] s h = tt
  search-Least (x ∷ xs) (le, s) (p, h) = elim (Bool-cases (ltb x.id_hash hash)) [
    | inl e ↦
        rw (e, lower_bound)
          (Least-skip x xs _
            (elim (Bool-cases (test x.feature)) [
              | inr f ↦ f
              | inl f ↦ absurd (ground (arith, p f))
            ])
            (search-Least xs s h))
    | inr e ↦
        rw (e, lower_bound)
          (scan_entries-Least (x ∷ xs) (le, s) (p, h)
            (ground arith, All-map xs (λ y n. ground arith) le))
  ]
