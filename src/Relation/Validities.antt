-- ===== src/Relation/Validities.antt =====
-- What asking a relation for its validities does.
use mapget.Base.{ℕ, ◌≡◌, ◌≢◌, [], ◌∷◌, ◌++◌, Option, none, some, refl, sym, length, get_elem?}
use mapget.Base.Int.{ℤ, pos}
use mapget.Base.Result.{ok, of_option}
use mapget.Arena.{Arena, ArenaLaws}
use mapget.Geometry.{set_at}
use mapget.Geometry.Append.{set_at_self, set_at-other}
use mapget.Relation.{RelationData, Relations, get_or_make, source_validity}

module _ (arena : Arena ℕ) (laws : ArenaLaws arena) where
  -- What a call that asks relation i for its source validities has made of it.
  abbrev pub Asked : Relations arena → ℕ → RelationData → Option ℤ → ℤ → Relations arena → Type 0
  Asked s i d (some old) array s' = (array ≡ old) × (s' ≡ s)
  Asked s i d none array s' =
      (get_elem? s'.column i ≡ some (record d { source_validity = some array }))
      × (array ≡ pos (length (laws.contents s.arrays)))
      × (laws.contents s'.arrays ≡ laws.contents s.arrays ++ ([] ∷ []))

  get_source :
      (s : Relations arena) (i : ℕ) (d : RelationData) (o : Option ℤ) (j : ℕ)
      → get_elem? s.column i ≡ some d
      → d.source_validity ≡ o
      → j ≢ i
      → (array : ℤ) × (s' : Relations arena) × (source_validity arena i s ≡ ok (array, s'))
        × (source_validity arena i s' ≡ ok (array, s'))
        × (get_elem? s'.column j ≡ get_elem? s.column j)
        × Asked s i d o array s'
  unfolding source_validity get_or_make
  get_source s i d (some old) j e o ne =
      (old, s, rw (e, of_option, o) refl, rw (e, of_option, o) refl, refl, (refl, refl))
  get_source s i d none j e o ne =
      let made = arena.new_array s.arrays 1 in
      let d' = record d { source_validity = some made.0 } in
      let s' : Relations arena = record { column = set_at s.column i d'; arrays = made.1 } in
      let there : get_elem? s'.column i ≡ some d' = set_at_self s.column i d' e in
      (
        made.0,
        s',
        rw (e, of_option, o) refl,
        rw (there, of_option) refl,
        set_at-other s.column i j d' (λ q. ne (sym q)),
        (there, laws.new_array-index s.arrays 1, laws.new_array-contents s.arrays 1),
      )

  -- Asking a relation for its source validities gives the ones that it has, and changes nothing; where
  -- it has none, they are a new empty array, which the relation then has, while all else of it
  -- stays. Asking again gives the same array and changes nothing, and no other relation changes.
  pub source_validity-again :
      (s : Relations arena) (i : ℕ) (d : RelationData) (j : ℕ)
      → get_elem? s.column i ≡ some d
      → j ≢ i
      → (array : ℤ) × (s' : Relations arena) × (source_validity arena i s ≡ ok (array, s'))
        × (source_validity arena i s' ≡ ok (array, s'))
        × (get_elem? s'.column j ≡ get_elem? s.column j)
        × Asked s i d d.source_validity array s'
  source_validity-again s i d j e ne = get_source s i d d.source_validity j e refl ne
