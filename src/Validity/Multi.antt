-- ===== src/Validity/Multi.antt =====
-- libs/model/src/validity.cpp: MultiValidity, the arrays of validities, and newValidity of
-- src/featurelayer.cpp.
use mapget.Base.{ℕ, ◌≡◌, ◌≢◌, List, [], ◌∷◌, ◌++◌, Option, some, refl, sym, ◌∙◌, length, get_elem?}
use mapget.Base.Int.{ℤ, pos}
use mapget.Base.Result.{Result, ok, of_option, ◌>>=◌}
use mapget.Base.Text.{Text}
use mapget.Arena.{Arena, ArenaLaws}
use mapget.Geometry.Append.{extend_self, extend_other}
use mapget.Point.{Reals, Point, on_axis}
use mapget.FeatureId.{Strings}
use mapget.Validity.{
  Direction, GeometryOffsetType, ValidityData, new_validity, set_direction, set_geometry_name,
  set_offset_point, set_offset_range, set_simple_geometry, set_offset_point_1d, set_offset_range_1d,
  range, offset_range_validity,
}
use mapget.Validity.Typed.{
  IsOneDimensional, Reached, made, with_direction, with_name, with_range_1d,
}

module _ (reals : Reals) (strings : Strings) (arena : Arena ℕ) where
  -- The column of validities, and the arrays of their indices.
  pub record Validities : Type 0 where
    pub column : List (ValidityData (Point reals))
    pub arrays : arena.Storage

  -- newValidity, what is set of the new validity, and append to the array.
  append_new : ℕ → ValidityData (Point reals) → Validities → Result (ℕ × Validities)
  append_new array v c =
      of_option (arena.emplace_back c.arrays (pos array) (length c.column)) >>= λ s.
      ok (length c.column, record { column = c.column ++ (v ∷ []); arrays = s })

  -- setGeometryName and setDirection of a new validity.
  abbrev named : Text → Direction → ValidityData (Point reals) → ValidityData (Point reals)
  named geom_name direction v =
      set_direction direction (set_geometry_name strings (some geom_name) v)

  pub new_point : Point reals → Text → Direction → ℕ → Validities → Result (ℕ × Validities)
  unfolding append_new
  new_point p geom_name direction array c =
      append_new array (named geom_name direction (set_offset_point p new_validity)) c

  pub new_range :
      Point reals → Point reals → Text → Direction → ℕ → Validities → Result (ℕ × Validities)
  unfolding append_new
  new_range start end geom_name direction array c =
      append_new array (named geom_name direction (set_offset_range start end new_validity)) c

  pub new_point_1d :
      GeometryOffsetType → reals.Real → Text → Direction → ℕ → Validities → Result (ℕ × Validities)
  unfolding append_new
  new_point_1d offset_type x geom_name direction array c =
      append_new array
        (named geom_name direction (set_offset_point_1d reals offset_type x new_validity)) c

  pub new_range_1d :
      GeometryOffsetType
      → reals.Real
      → reals.Real
      → Text
      → Direction
      → ℕ
      → Validities
      → Result (ℕ × Validities)
  unfolding append_new
  new_range_1d offset_type start end geom_name direction array c =
      append_new array
        (named geom_name direction (set_offset_range_1d reals offset_type start end new_validity)) c

  -- The overloads for whole numbers.
  pub new_point_int :
      GeometryOffsetType → ℤ → Text → Direction → ℕ → Validities → Result (ℕ × Validities)
  unfolding new_point_1d
  new_point_int offset_type x = new_point_1d offset_type (reals.of_int x)

  pub new_range_int :
      GeometryOffsetType → ℤ → ℤ → Text → Direction → ℕ → Validities → Result (ℕ × Validities)
  unfolding new_range_1d
  new_range_int offset_type start end =
      new_range_1d offset_type (reals.of_int start) (reals.of_int end)

  pub new_geometry : Option ℕ → Direction → ℕ → Validities → Result (ℕ × Validities)
  unfolding append_new
  new_geometry geom direction array c =
      set_simple_geometry geom new_validity >>= λ v. append_new array (set_direction direction v) c

  pub new_direction : Direction → ℕ → Validities → Result (ℕ × Validities)
  unfolding append_new
  new_direction direction array c = append_new array (set_direction direction new_validity) c

  module _ (laws : ArenaLaws arena) where
    abbrev pub Members : Validities → ℕ → List ℕ → Type 0
    Members c array is = get_elem? (laws.contents c.arrays) array ≡ some is

    -- A call that made the validity v and put it at the end of an array.
    abbrev pub Appended :
        Validities
        → ℕ
        → List ℕ
        → ValidityData (Point reals)
        → ℕ
        → List ℕ
        → Result (ℕ × Validities)
        → Type 0
    Appended c array is v other js r =
        (c' : Validities) × (r ≡ ok (length c.column, c'))
        × (c'.column ≡ c.column ++ (v ∷ []))
        × Members c' array (is ++ (length c.column ∷ []))
        × Members c' other js

    append_new-Appended :
        (c : Validities) (array : ℕ) (is : List ℕ) (v : ValidityData (Point reals)) (other : ℕ)
        (js : List ℕ)
        → Members c array is
        → other ≢ array
        → Members c other js
        → Appended c array is v other js (append_new array v c)
    unfolding append_new
    append_new-Appended c array is v other js h ne k =
        let (s, e, grown) = laws.emplace_back-contents c.arrays array (length c.column) h in
        (
          record { column = c.column ++ (v ∷ []); arrays = s },
          rw (e, of_option) refl,
          refl,
          rw grown (extend_self (laws.contents c.arrays) array (length c.column) h),
          rw grown (
              extend_other (laws.contents c.arrays) array other (length c.column) (λ q. ne (sym q))
              ∙ k),
        )

    -- A range between two whole numbers is a new validity, which the setters lead to, with that
    -- direction, that offset type and the numbers as the x of its two points. It is the last one of
    -- the layer and of its array, and no other array changes.
    pub new_range_int-Appended :
        (c : Validities) (array : ℕ) (is : List ℕ) (other : ℕ) (js : List ℕ)
        (offset_type : GeometryOffsetType) (start end : ℤ) (geom_name : Text)
        (direction : Direction)
        → IsOneDimensional offset_type
        → Members c array is
        → other ≢ array
        → Members c other js
        → (v : ValidityData (Point reals)) × Reached reals strings v
          × (v.direction ≡ direction)
          × (v.geom_offset_type ≡ offset_type)
          × (v.geom_descr_type ≡ offset_range_validity)
          × (v.geom_descr
              ≡ range (on_axis reals (reals.of_int start)) (on_axis reals (reals.of_int end)))
          × (v.referenced_geom_name ≡ strings.emplace geom_name)
          × Appended c array is v other js
              (new_range_int offset_type start end geom_name direction array c)
    unfolding new_range_int new_range_1d set_direction set_geometry_name set_offset_range_1d
    new_range_int-Appended c array is other js t start end geom_name direction one h ne k =
        let v =
          named geom_name direction
            (set_offset_range_1d reals t (reals.of_int start) (reals.of_int end) new_validity) in
        (
          v,
          with_direction direction (
              with_name (some geom_name)
                (with_range_1d t (reals.of_int start) (reals.of_int end) one made)),
          refl,
          refl,
          refl,
          refl,
          refl,
          append_new-Appended c array is v other js h ne k,
        )
