-- ===== src/Validity/Fields.antt =====
-- libs/model/src/validity.cpp and src/pointnode.cpp: the fields that a validity shows as an object, and
-- the nodes of its points.
use mapget.Base.{
  ℕ, zero, suc, ◌+◌, ◌≤◌, ◌≡◌, List, [], ◌∷◌, ◌++◌, Option, none, some, refl, sym, subst, arith,
  All, All-append, length, length-append, get_elem?,
}
use mapget.Base.Result.{Result, ok, raised, ◌>>=◌}
use mapget.Base.Text.{Text, codes}
use mapget.Point.{Reals, Point}
use mapget.FeatureId.{Strings, FeatureId, to_string}
use mapget.Features.{FeatureLayer}
use mapget.Validity.{
  Direction, GeometryDescriptionType, GeometryOffsetType, GeometryDescription, ValidityData, empty,
  positive, negative, both, no_direction, no_geometry, simple_geometry, offset_point_validity,
  offset_range_validity, invalid_offset_type, geo_pos_offset, buffer_offset, relative_length_offset,
  metric_length_offset, address, range, point, get_point, get_range,
}
use mapget.Validity.Typed.{TypedAs, Reached, Reached-Typed}

-- What a field shows: a text, a number, a geometry, one of the points of the validity, or nothing.
pub data Node (R : Type 0) : Type 0 where
  text_node : Text → Node R
  real_node : R → Node R
  geometry_node : ℕ → Node R
  point_index : ℕ → Node R
  no_node : Node R

direction_to_string : Direction → Text
direction_to_string empty = codes "EMPTY"
direction_to_string positive = codes "POSITIVE"
direction_to_string negative = codes "NEGATIVE"
direction_to_string both = codes "BOTH"
direction_to_string no_direction = codes "NONE"

offset_type_to_string : GeometryOffsetType → Text
offset_type_to_string invalid_offset_type = codes "Invalid"
offset_type_to_string geo_pos_offset = codes "GeoPosOffset"
offset_type_to_string buffer_offset = codes "BufferOffset"
offset_type_to_string relative_length_offset = codes "RelativeLengthOffset"
offset_type_to_string metric_length_offset = codes "MetricLengthOffset"

abbrev or_unresolved : Option Text → Text
or_unresolved none = codes "<Could not resolve geometry name>"
or_unresolved (some t) = t

-- The node of a simple geometry. Any other alternative does not occur.
geometry_of : {R P : Type 0} → GeometryDescription P → Node R
geometry_of (address geom) = geometry_node geom
geometry_of other = no_node

-- The constructor of PointNode for a point of a validity, by the indices that its fields give.
unfoldable pub validity_point : {P : Type 0} → ValidityData P → ℕ → Result P
unfolding get_point get_range
validity_point v zero = get_point v.geom_descr
validity_point v (suc zero) = get_range v.geom_descr >>= λ pq. ok pq.0
validity_point v (suc (suc zero)) = get_range v.geom_descr >>= λ pq. ok pq.1
validity_point v (suc (suc (suc i))) = raised

abbrev some_field : {R : Type 0} → ℕ → Node R → List (ℕ × Node R)
some_field key n = (key, n) ∷ []

module _ (reals : Reals) where
  direction_field : ℕ → Direction → List (ℕ × Node reals.Real)
  unfolding direction_to_string
  direction_field key empty = []
  direction_field key d = some_field key (text_node (direction_to_string d))

  offset_type_field : ℕ → GeometryOffsetType → List (ℕ × Node reals.Real)
  unfolding offset_type_to_string
  offset_type_field key invalid_offset_type = []
  offset_type_field key t = some_field key (text_node (offset_type_to_string t))

  -- exposeOffsetPoint
  expose_offset_point : GeometryOffsetType → ℕ → Point reals → Node reals.Real
  expose_offset_point invalid_offset_type i p = no_node
  expose_offset_point geo_pos_offset i p = point_index i
  expose_offset_point t i p = real_node p.x

  offset_fields :
      ℕ
      → GeometryDescriptionType
      → GeometryOffsetType
      → GeometryDescription (Point reals)
      → List (ℕ × Node reals.Real)
  unfolding expose_offset_point
  offset_fields next offset_range_validity t (range p q) =
      (next + 25, expose_offset_point t 1 p) ∷ some_field (next + 26) (expose_offset_point t 2 q)
  offset_fields next offset_point_validity t (point p) =
      some_field (next + 27) (expose_offset_point t 0 p)
  offset_fields next k t d = []

  id_node : Strings → FeatureLayer → ℕ → Node reals.Real
  id_node strings l id = elim (get_elem? l.feature_ids id) [
    | none ↦ no_node
    | some fid ↦ text_node (to_string strings l.feature_id_prefix fid)
  ]

  feature_field : ℕ → Strings → FeatureLayer → Option ℕ → List (ℕ × Node reals.Real)
  unfolding id_node
  feature_field key strings l none = []
  feature_field key strings l (some id) = some_field key (id_node strings l id)

  name_field : ℕ → Strings → ℕ → List (ℕ × Node reals.Real)
  name_field key strings zero = []
  name_field key strings (suc n) =
      some_field key (text_node (or_unresolved (strings.resolve (suc n))))

  -- What follows the direction: only the geometry where there is a simple one.
  detail_fields :
      ℕ
      → Strings
      → FeatureLayer
      → GeometryDescriptionType
      → ValidityData (Point reals)
      → List (ℕ × Node reals.Real)
  unfolding geometry_of name_field offset_type_field offset_fields feature_field
  detail_fields next strings l simple_geometry v = some_field (next + 15) (geometry_of v.geom_descr)
  detail_fields next strings l k v =
      name_field (next + 16) strings v.referenced_geom_name
      ++ (offset_type_field (next + 18) v.geom_offset_type
          ++ (offset_fields next k v.geom_offset_type v.geom_descr
              ++ feature_field (next + 28) strings l v.feature_address))

  -- The fields of the constructor, for the first id behind simfil's own.
  unfoldable pub validity_fields :
      ℕ → Strings → FeatureLayer → ValidityData (Point reals) → List (ℕ × Node reals.Real)
  unfolding direction_field detail_fields
  validity_fields next strings l v =
      direction_field (next + 6) v.direction ++ detail_fields next strings l v.geom_descr_type v

  -- A point that a field names is a point of the validity.
  abbrev pub Resolves : ValidityData (Point reals) → Node reals.Real → Type 0
  Resolves v (point_index i) = (p : Point reals) × (validity_point v i ≡ ok p)
  Resolves v other = Unit

  abbrev pub AllResolve : ValidityData (Point reals) → List (ℕ × Node reals.Real) → Type 0
  AllResolve v = All (λ ((key, n) : ℕ × Node reals.Real). Resolves v n)

  -- So many fields at most, whose points are points of the validity.
  abbrev pub Shows : ValidityData (Point reals) → ℕ → List (ℕ × Node reals.Real) → Type 0
  Shows v n fs = (length fs ≤ n) × AllResolve v fs

  Shows-append :
      (v : ValidityData (Point reals)) (m n : ℕ) (fs gs : List (ℕ × Node reals.Real))
      → Shows v m fs
      → Shows v n gs
      → Shows v (m + n) (fs ++ gs)
  Shows-append v m n fs gs (le, h) (le', h') =
      (omega (arith, length-append fs gs), All-append _ fs gs h h')

  direction_field-Shows :
      (key : ℕ) (d : Direction) (v : ValidityData (Point reals)) → Shows v 1 (direction_field key d)
  unfolding direction_field
  direction_field-Shows key empty v = (omega arith, tt)
  direction_field-Shows key positive v = (omega arith, (tt, tt))
  direction_field-Shows key negative v = (omega arith, (tt, tt))
  direction_field-Shows key both v = (omega arith, (tt, tt))
  direction_field-Shows key no_direction v = (omega arith, (tt, tt))

  offset_type_field-Shows :
      (key : ℕ) (t : GeometryOffsetType) (v : ValidityData (Point reals))
      → Shows v 1 (offset_type_field key t)
  unfolding offset_type_field
  offset_type_field-Shows key invalid_offset_type v = (omega arith, tt)
  offset_type_field-Shows key geo_pos_offset v = (omega arith, (tt, tt))
  offset_type_field-Shows key buffer_offset v = (omega arith, (tt, tt))
  offset_type_field-Shows key relative_length_offset v = (omega arith, (tt, tt))
  offset_type_field-Shows key metric_length_offset v = (omega arith, (tt, tt))

  name_field-Shows :
      (key : ℕ) (strings : Strings) (n : ℕ) (v : ValidityData (Point reals))
      → Shows v 1 (name_field key strings n)
  unfolding name_field
  name_field-Shows key strings zero v = (omega arith, tt)
  name_field-Shows key strings (suc n) v = (omega arith, (tt, tt))

  id_node-Resolves :
      (strings : Strings) (l : FeatureLayer) (v : ValidityData (Point reals)) (o : Option FeatureId)
      → Resolves v (elim o [
        | none ↦ no_node
        | some fid ↦ text_node (to_string strings l.feature_id_prefix fid)
      ])
  id_node-Resolves strings l v none = tt
  id_node-Resolves strings l v (some fid) = tt

  feature_field-Shows :
      (key : ℕ) (strings : Strings) (l : FeatureLayer) (o : Option ℕ)
      (v : ValidityData (Point reals))
      → Shows v 1 (feature_field key strings l o)
  unfolding feature_field id_node
  feature_field-Shows key strings l none v = (omega arith, tt)
  feature_field-Shows key strings l (some id) v =
      (omega arith, (id_node-Resolves strings l v (get_elem? l.feature_ids id), tt))

  expose-Resolves :
      (v : ValidityData (Point reals)) (t : GeometryOffsetType) (i : ℕ) (p q : Point reals)
      → validity_point v i ≡ ok q
      → Resolves v (expose_offset_point t i p)
  unfolding expose_offset_point
  expose-Resolves v invalid_offset_type i p q e = tt
  expose-Resolves v geo_pos_offset i p q e = (q, e)
  expose-Resolves v buffer_offset i p q e = tt
  expose-Resolves v relative_length_offset i p q e = tt
  expose-Resolves v metric_length_offset i p q e = tt

  offset_fields-Shows :
      (next : ℕ) (k : GeometryDescriptionType) (v : ValidityData (Point reals))
      → TypedAs reals k v.geom_offset_type v.geom_descr
      → Shows v 2 (offset_fields next k v.geom_offset_type v.geom_descr)
  unfolding offset_fields validity_point get_point get_range
  offset_fields-Shows next no_geometry v h = (omega arith, tt)
  offset_fields-Shows next simple_geometry v h = (omega arith, tt)
  offset_fields-Shows next offset_point_validity v (p, d, h) =
      let shown : validity_point v 0 ≡ ok p = rw d refl in
      subst (λ x. Shows v 2 (offset_fields next offset_point_validity v.geom_offset_type x)) (sym d)
        (omega arith, (expose-Resolves v v.geom_offset_type 0 p p shown, tt))
  offset_fields-Shows next offset_range_validity v (p, q, d, h, h') =
      let first : validity_point v 1 ≡ ok p = rw d refl in
      let last : validity_point v 2 ≡ ok q = rw d refl in
      subst (λ x. Shows v 2 (offset_fields next offset_range_validity v.geom_offset_type x)) (sym d)
        (
          omega arith,
          (
            expose-Resolves v v.geom_offset_type 1 p p first,
            (expose-Resolves v v.geom_offset_type 2 q q last, tt),
          ),
        )

  described-Shows :
      (next : ℕ) (strings : Strings) (l : FeatureLayer) (k : GeometryDescriptionType)
      (v : ValidityData (Point reals))
      → TypedAs reals k v.geom_offset_type v.geom_descr
      → Shows v 5 (
          name_field (next + 16) strings v.referenced_geom_name
          ++ (offset_type_field (next + 18) v.geom_offset_type
              ++ (offset_fields next k v.geom_offset_type v.geom_descr
                  ++ feature_field (next + 28) strings l v.feature_address)))
  described-Shows next strings l k v h =
      Shows-append v 1 4 _ _ (name_field-Shows (next + 16) strings v.referenced_geom_name v) (
        Shows-append v 1 3 _ _ (offset_type_field-Shows (next + 18) v.geom_offset_type v) (
          Shows-append v 2 1 _ _ (offset_fields-Shows next k v h)
            (feature_field-Shows (next + 28) strings l v.feature_address v)))

  detail_fields-Shows :
      (next : ℕ) (strings : Strings) (l : FeatureLayer) (k : GeometryDescriptionType)
      (v : ValidityData (Point reals))
      → TypedAs reals k v.geom_offset_type v.geom_descr
      → Shows v 5 (detail_fields next strings l k v)
  unfolding detail_fields geometry_of
  detail_fields-Shows next strings l simple_geometry v (t, geom, d) =
      rw (geometry_of, d) (omega arith, (tt, tt))
  detail_fields-Shows next strings l no_geometry v h =
      described-Shows next strings l no_geometry v h
  detail_fields-Shows next strings l offset_point_validity v h =
      described-Shows next strings l offset_point_validity v h
  detail_fields-Shows next strings l offset_range_validity v h =
      described-Shows next strings l offset_range_validity v h

  -- A validity that the setters lead to shows at most six fields, as many as its object has room for,
  -- and each point that a field refers to by an index is found when the node of the point is made.
  pub validity_fields-Shows :
      (next : ℕ) (strings : Strings) (l : FeatureLayer) (v : ValidityData (Point reals))
      → Reached reals strings v
      → Shows v 6 (validity_fields next strings l v)
  unfolding validity_fields
  validity_fields-Shows next strings l v h =
      Shows-append v 1 5 _ _ (direction_field-Shows (next + 6) v.direction v)
        (detail_fields-Shows next strings l v.geom_descr_type v (Reached-Typed reals strings v h))
