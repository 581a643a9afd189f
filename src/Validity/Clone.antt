-- ===== src/Validity/Clone.antt =====
-- libs/model/src/featurelayer.cpp: TileFeatureLayer::clone, the cases of a validity and of a geometry.
use mapget.Base.{List, [], ◌∷◌, length, get_elem?, Option, ℕ, ◌≡◌, inl, inr, none, some, refl, sym}
use mapget.Base.Result.{Result, ok, of_option, dereference, ◌>>=◌, Result-cases}
use mapget.Point.{Reals, Point, Vertex}
use mapget.Arena.{Arena}
use mapget.Geometry.{Geometries, new_geometry, append, points_of}
use mapget.FeatureId.{Strings}
use mapget.Validity.{
  GeometryDescriptionType, GeometryOffsetType, GeometryDescription, ValidityData, no_geometry,
  simple_geometry, offset_point_validity, offset_range_validity, invalid_offset_type,
  geo_pos_offset, buffer_offset, relative_length_offset, metric_length_offset, address, range,
  point, new_validity, set_direction, set_offset_point, set_offset_range, set_simple_geometry,
  set_offset_point_1d, set_offset_range_1d, offset_point, offset_range, get_simple_geometry,
}
use mapget.Validity.Typed.{TypedAs, Fits, Reached, Reached-Typed, Reached-Agree}

module _ (reals : Reals) (arena : Arena (Vertex reals)) where
  clone_point :
      GeometryOffsetType → Point reals → ValidityData (Point reals) → ValidityData (Point reals)
  clone_point geo_pos_offset p new = set_offset_point p new
  clone_point t p new = set_offset_point_1d reals t p.x new

  clone_range :
      GeometryOffsetType
      → Point reals
      → Point reals
      → ValidityData (Point reals)
      → ValidityData (Point reals)
  clone_range geo_pos_offset p q new = set_offset_range p q new
  clone_range t p q new = set_offset_range_1d reals t p.x q.x new

  append_all : ℕ → List (Point reals) → Geometries reals arena → Result (Geometries reals arena)
  append_all i [] g = ok g
  append_all i (p ∷ ps) g = append reals arena i p g >>= λ g'. append_all i ps g'

  -- The case of a geometry: a new one with the points of the i-th geometry of the other layer. It
  -- throws where the points cannot be read, as those of a view that is out of bounds. `unset` is
  -- what the first point of a new geometry holds.
  unfoldable pub new_clone :
      Point reals
      → Geometries reals arena
      → ℕ
      → Geometries reals arena
      → Result (ℕ × Geometries reals arena)
  unfolding append_all
  new_clone unset other i g = of_option (get_elem? other.geom i) >>= λ d.
      points_of reals arena other i >>= λ ps.
      append_all (length g.geom) ps (new_geometry reals arena d.type (length ps) unset g) >>= λ g'.
      ok (length g.geom, g')

  -- The clone of a geometry, which the cache may hold already.
  unfoldable pub clone_geometry :
      Point reals
      → Geometries reals arena
      → (ℕ → Option ℕ)
      → ℕ
      → Geometries reals arena
      → Result (ℕ × Geometries reals arena)
  unfolding new_clone
  clone_geometry unset other cached i g = elim (cached i) [
    | some clone ↦ ok (clone, g)
    | none ↦ new_clone unset other i g
  ]

  module _ (unset : Point reals) (other : Geometries reals arena) (cached : ℕ → Option ℕ) where
    -- The switch over the description type, for the new validity with its direction set.
    clone_description :
        GeometryDescriptionType
        → ValidityData (Point reals)
        → ValidityData (Point reals)
        → Geometries reals arena
        → Result (ValidityData (Point reals) × Geometries reals arena)
    unfolding clone_point clone_range
    clone_description no_geometry v new g = ok (new, g)
    clone_description simple_geometry v new g = get_simple_geometry v >>= dereference >>= λ geom.
        clone_geometry unset other cached geom g >>= λ c.
        set_simple_geometry (some c.0) new >>= λ new'. ok (new', c.1)
    clone_description offset_point_validity v new g =
        offset_point v >>= dereference >>= λ p. ok (clone_point v.geom_offset_type p new, g)
    clone_description offset_range_validity v new g = offset_range v >>= dereference >>= λ pq.
        ok (clone_range v.geom_offset_type pq.0 pq.1 new, g)

    -- The clone of a validity of the other layer, and the geometries with the clone's.
    unfoldable pub clone_validity :
        ValidityData (Point reals)
        → Geometries reals arena
        → Result (ValidityData (Point reals) × Geometries reals arena)
    unfolding clone_description
    clone_validity v g =
        clone_description v.geom_descr_type v (set_direction v.direction new_validity) g

    abbrev pub cloned_description :
        GeometryDescription (Point reals)
        → Geometries reals arena
        → Result (GeometryDescription (Point reals) × Geometries reals arena)
    cloned_description (address geom) g =
        clone_geometry unset other cached geom g >>= λ c. ok (address c.0, c.1)
    cloned_description d g = ok (d, g)

  -- All that a clone has of a validity, with the clone of its description.
  abbrev pub unnamed :
      ValidityData (Point reals) → GeometryDescription (Point reals) → ValidityData (Point reals)
  unnamed v description = record v {
    geom_descr = description;
    referenced_geom_name = 0;
    feature_address = none;
  }

  clone_point-Fits :
      (t : GeometryOffsetType) (p : Point reals) (new : ValidityData (Point reals))
      → Fits reals t p
      → clone_point t p new ≡ record new {
        geom_descr_type = offset_point_validity;
        geom_offset_type = t;
        geom_descr = point p;
      }
  unfolding clone_point set_offset_point set_offset_point_1d
  clone_point-Fits geo_pos_offset p new h = refl
  clone_point-Fits invalid_offset_type p new (ne, axis) = absurd (ne refl)
  clone_point-Fits buffer_offset p new (ne, axis) = rw (sym (axis (λ e. cc))) refl
  clone_point-Fits relative_length_offset p new (ne, axis) = rw (sym (axis (λ e. cc))) refl
  clone_point-Fits metric_length_offset p new (ne, axis) = rw (sym (axis (λ e. cc))) refl

  clone_range-Fits :
      (t : GeometryOffsetType) (p q : Point reals) (new : ValidityData (Point reals))
      → Fits reals t p
      → Fits reals t q
      → clone_range t p q new ≡ record new {
        geom_descr_type = offset_range_validity;
        geom_offset_type = t;
        geom_descr = range p q;
      }
  unfolding clone_range set_offset_range set_offset_range_1d
  clone_range-Fits geo_pos_offset p q new h k = refl
  clone_range-Fits invalid_offset_type p q new (ne, axis) k = absurd (ne refl)
  clone_range-Fits buffer_offset p q new (ne, axis) (ne', axis') =
      rw (sym (axis (λ e. cc)), sym (axis' (λ e. cc))) refl
  clone_range-Fits relative_length_offset p q new (ne, axis) (ne', axis') =
      rw (sym (axis (λ e. cc)), sym (axis' (λ e. cc))) refl
  clone_range-Fits metric_length_offset p q new (ne, axis) (ne', axis') =
      rw (sym (axis (λ e. cc)), sym (axis' (λ e. cc))) refl

  clone_description-Typed :
      (unset : Point reals) (other g : Geometries reals arena) (cached : ℕ → Option ℕ)
      (strings : Strings) (v : ValidityData (Point reals)) (k : GeometryDescriptionType)
      → Reached reals strings v
      → v.geom_descr_type ≡ k
      → TypedAs reals k v.geom_offset_type v.geom_descr
      → clone_description unset other cached k v (set_direction v.direction new_validity) g
        ≡ (cloned_description unset other cached v.geom_descr g >>= λ c. ok (unnamed v c.0, c.1))
  unfolding clone_description set_direction set_simple_geometry
  clone_description-Typed unset other g cached strings v no_geometry r e (t, d) = rw (e, t, d) refl
  clone_description-Typed unset other g cached strings v simple_geometry r e (t, geom, d) =
      elim (Result-cases (clone_geometry unset other cached geom g)) [
        | inl (c, e') ↦ rw ((Reached-Agree reals strings v r).2, e, t, d, dereference, e') refl
        | inr (inl e') ↦ rw ((Reached-Agree reals strings v r).2, e, t, d, dereference, e') refl
        | inr (inr e') ↦ rw ((Reached-Agree reals strings v r).2, e, t, d, dereference, e') refl
      ]
  clone_description-Typed unset other g cached strings v offset_point_validity r e (p, d, h) =
      rw
        (
          (Reached-Agree reals strings v r).0,
          e,
          d,
          dereference,
          clone_point-Fits v.geom_offset_type p _ h,
        )
        refl
  clone_description-Typed unset other g cached strings v offset_range_validity r e
        (p, q, d, h, h') =
      rw
        (
          (Reached-Agree reals strings v r).1,
          e,
          d,
          dereference,
          clone_range-Fits v.geom_offset_type p q _ h h',
        )
        refl

  -- Cloning a validity that the setters lead to throws exactly where the clone of its simple geometry
  -- does, and changes the geometries only by that clone; else the clone has its direction and its
  -- geometry description, with the clone of a simple geometry for the geometry, but neither its
  -- geometry name nor its feature.
  pub clone_validity-unnamed :
      (unset : Point reals) (other g : Geometries reals arena) (cached : ℕ → Option ℕ)
      (strings : Strings) (v : ValidityData (Point reals))
      → Reached reals strings v
      → clone_validity unset other cached v g
        ≡ (cloned_description unset other cached v.geom_descr g >>= λ c. ok (unnamed v c.0, c.1))
  unfolding clone_validity
  clone_validity-unnamed unset other g cached strings v h =
      clone_description-Typed unset other g cached strings v v.geom_descr_type h refl
        (Reached-Typed reals strings v h)
