-- ===== src/Geometry/Append.antt =====
-- What Geometry::append does to the points of its geometry, and to those of the others.
use mapget.Base.{
  ℕ, zero, suc, ◌+◌, ◌%◌, ◌^◌, ◌<◌, ◌≡◌, ◌≢◌, ◌⊎◌, inl, inr, List, [], ◌∷◌, ◌++◌, some, refl, sym,
  ap, ◌∙◌, subst, arith, length, get_elem?, get_elem?-append, get_elem?-last, length-append, map,
  Bool-cases, ==_iff, leb, false, ◌==◌,
}
use mapget.Base.Int.{ℤ, pos, negsuc}
use mapget.Base.Result.{ok, of_option}
use mapget.Point.{Reals, Point, Vertex, to_vertex, of_vertex}
use mapget.Arena.{Arena, ArenaLaws, extend}
use mapget.Geometry.{
  Geometries, GeometryData, Details, base, append, append_to, append_vertex, set_at, points_of,
  point_buffer, buffer_of, base_size, collect, num_points, geometry_point_at, point_at, PointBuffer,
}
use mapget.Geometry.Points.{
  DetailAt, base_points, Holds, points_of-base, length-map, point_node-base,
}

module _ {A : Type 0} where
  pub extend_self :
      (xss : List (List A)) (i : ℕ) (a : A) {xs : List A}
      → get_elem? xss i ≡ some xs
      → get_elem? (extend xss i a) i ≡ some (xs ++ (a ∷ []))
  extend_self [] i a e = cc
  extend_self (ys ∷ xss) zero a e = cc
  extend_self (ys ∷ xss) (suc i) a e = extend_self xss i a e

  pub extend_other :
      (xss : List (List A)) (i j : ℕ) (a : A)
      → i ≢ j
      → get_elem? (extend xss i a) j ≡ get_elem? xss j
  extend_other [] i j a ne = refl
  extend_other (ys ∷ xss) zero zero a ne = absurd (ne refl)
  extend_other (ys ∷ xss) zero (suc j) a ne = refl
  extend_other (ys ∷ xss) (suc i) zero a ne = refl
  extend_other (ys ∷ xss) (suc i) (suc j) a ne = extend_other xss i j a (λ e. ne (ap suc e))

  length-extend : (xss : List (List A)) (i : ℕ) (a : A) → length (extend xss i a) ≡ length xss
  length-extend [] i a = refl
  length-extend (xs ∷ xss) zero a = refl
  length-extend (xs ∷ xss) (suc i) a = ap suc (length-extend xss i a)

  pub set_at_self :
      (xs : List A) (i : ℕ) (a : A) {x : A}
      → get_elem? xs i ≡ some x
      → get_elem? (set_at xs i a) i ≡ some a
  set_at_self [] i a e = cc
  set_at_self (y ∷ xs) zero a e = refl
  set_at_self (y ∷ xs) (suc i) a e = set_at_self xs i a e

  pub set_at-other :
      (xs : List A) (i j : ℕ) (a : A) → i ≢ j → get_elem? (set_at xs i a) j ≡ get_elem? xs j
  set_at-other [] i j a ne = refl
  set_at-other (y ∷ xs) zero zero a ne = absurd (ne refl)
  set_at-other (y ∷ xs) zero (suc j) a ne = refl
  set_at-other (y ∷ xs) (suc i) zero a ne = refl
  set_at-other (y ∷ xs) (suc i) (suc j) a ne = set_at-other xs i j a (λ e. ne (ap suc e))

map-append : {A B : Type 0} (f : A → B) (xs ys : List A) → map f (xs ++ ys) ≡ map f xs ++ map f ys
map-append f [] ys = refl
map-append f (x ∷ xs) ys = ap (◌∷◌ (f x)) (map-append f xs ys)

some_injective : {A : Type 0} {a b : A} → some a ≡ some b → a ≡ b
some_injective e = cc

module _ (reals : Reals) (arena : Arena (Vertex reals)) (laws : ArenaLaws arena) where
  abbrev contents_of : Geometries reals arena → List (List (Vertex reals))
  contents_of g = laws.contents g.point_buffers

  -- The points of a geometry that is no view: none before the first `append`.
  abbrev pub HasPoints : Geometries reals arena → ℕ → List (Point reals) → Type 0
  HasPoints g i ps =
      ((n : ℕ) × (u : Point reals) × DetailAt g.geom i (base (negsuc n) u) × (ps ≡ []))
      ⊎ ((a : ℕ) × (f : Point reals) × (vs : List (Vertex reals)) × DetailAt g.geom i
            (base (pos a) f)
          × Holds reals arena laws g a vs
          × (ps ≡ base_points reals f vs))

  -- Each geometry has an array of its own.
  pub record Separate (g : Geometries reals arena) : Type 0 where
    pub allocated :
        (k a : ℕ) (f : Point reals)
        → DetailAt g.geom k (base (pos a) f)
        → a < length (contents_of g)
    pub distinct :
        (j k a : ℕ) (f h : Point reals)
        → DetailAt g.geom j (base (pos a) f)
        → DetailAt g.geom k (base (pos a) h)
        → j ≡ k

  -- What is kept of a point: the first one as it is, each other one as a vertex relative to it.
  abbrev pub stored : List (Point reals) → Point reals → Point reals
  stored [] p = p
  stored (f ∷ ps) p = of_vertex reals f (to_vertex reals f p)

  -- A geometry that is no view is read back with its points.
  pub points_of-HasPoints :
      (g : Geometries reals arena) (i : ℕ) (ps : List (Point reals))
      → HasPoints g i ps
      → length ps < 2 ^ 32
      → points_of reals arena g i ≡ ok ps
  unfolding points_of point_buffer buffer_of base_size collect
  points_of-HasPoints g i ps (inl (n, u, (d, e, dt), z)) short = rw (e, of_option, dt, z) refl
  points_of-HasPoints g i ps (inr (a, f, vs, h, k, e)) short =
      let short' : suc (length vs) < 2 ^ 32 =
        subst (λ n. n < 2 ^ 32) (ap length e ∙ ap suc (length-map (of_vertex reals f) vs)) short in
      points_of-base reals arena laws g i a f vs h k short' ∙ ap ok (sym e)

  -- Its points are also the ones that its number of points and its point at an index come to.
  pub num_points-HasPoints :
      (g : Geometries reals arena) (i : ℕ) (ps : List (Point reals))
      → HasPoints g i ps
      → length ps < 2 ^ 32
      → num_points reals arena g i ≡ ok (length ps)
  unfolding num_points point_buffer buffer_of base_size
  num_points-HasPoints g i ps (inl (n, u, (d, e, dt), z)) short = rw (e, of_option, dt, z) refl
  num_points-HasPoints g i ps (inr (a, f, vs, (d, e, dt), k, z)) short =
      let size : length ps ≡ suc (length vs) =
        ap length z ∙ ap suc (length-map (of_vertex reals f) vs) in
      let wrapped : (1 + length vs) % 2 ^ 32 ≡ suc (length vs) = omega (arith, size) in
      rw (e, of_option, dt, laws.size-contents g.point_buffers a, k, wrapped, size) refl

  pub geometry_point_at-HasPoints :
      (g : Geometries reals arena) (i : ℕ) (ps : List (Point reals)) (k : ℕ)
      → HasPoints g i ps
      → length ps < 2 ^ 32
      → k < length ps
      → geometry_point_at reals arena g i k ≡ of_option (get_elem? ps k)
  unfolding geometry_point_at point_buffer buffer_of base_size point_at
  geometry_point_at-HasPoints g i ps k (inl (n, u, h, z)) short lt =
      let size : length ps ≡ 0 = ap length z in absurd (omega (arith, size))
  geometry_point_at-HasPoints g i ps k (inr (a, f, vs, (d, e, dt), h, z)) short lt =
      let size : length ps ≡ suc (length vs) =
        ap length z ∙ ap suc (length-map (of_vertex reals f) vs) in
      let wrapped : (1 + length vs) % 2 ^ 32 ≡ suc (length vs) = omega (arith, size) in
      let inside : leb (suc (length vs)) k ≡ false = ground (arith, size) in
      let b : PointBuffer reals arena = record {
        base_geom = i;
        vertex_array = pos a;
        first = f;
        offset = 0;
        size = suc (length vs);
      } in
      let (p, ep, en) = point_node-base reals arena laws g b a vs k refl h (omega (arith, size)) in
      let front : k + 0 ≡ k = omega arith in
      rw
        (
          e,
          of_option,
          dt,
          laws.size-contents g.point_buffers a,
          h,
          wrapped,
          inside,
          front,
          en,
          z,
          ep,
        )
        refl

  -- Appending a point.
  abbrev Appended :
      Geometries reals arena
      → ℕ
      → List (Point reals)
      → Point reals
      → ℕ
      → List (Point reals)
      → Type 0
  Appended g i ps p k qs =
      (g' : Geometries reals arena) × (append reals arena i p g ≡ ok g')
      × HasPoints g' i (ps ++ (stored ps p ∷ []))
      × HasPoints g' k qs
      × Separate g'

  -- Points of a geometry whose data and whose array a change keeps.
  HasPoints-kept :
      (g g' : Geometries reals arena) (k : ℕ) (qs : List (Point reals))
      → ((dt : Details (Point reals)) → DetailAt g.geom k dt → DetailAt g'.geom k dt)
      → ((a : ℕ) (f : Point reals) (vs : List (Vertex reals))
          → DetailAt g.geom k (base (pos a) f)
          → Holds reals arena laws g a vs
          → Holds reals arena laws g' a vs)
      → HasPoints g k qs
      → HasPoints g' k qs
  HasPoints-kept g g' k qs keep hold (inl (n, u, h, z)) = inl (n, u, keep _ h, z)
  HasPoints-kept g g' k qs keep hold (inr (a, f, vs, h, v, e)) =
      inr (a, f, vs, keep _ h, hold a f vs h v, e)

  DetailAt-other :
      (geom : List (GeometryData (Point reals))) (i k : ℕ) (d : GeometryData (Point reals))
      → k ≢ i
      → (dt : Details (Point reals)) → DetailAt geom k dt
      → DetailAt (set_at geom i d) k dt
  DetailAt-other geom i k d ne dt (c, e, h) = (c, set_at-other geom i k d (λ q. ne (sym q)) ∙ e, h)

  -- What a geometry is after one of them was set.
  DetailAt-set_at :
      (geom : List (GeometryData (Point reals))) (i k : ℕ) (d : GeometryData (Point reals))
      {c : GeometryData (Point reals)} (dt : Details (Point reals))
      → get_elem? geom i ≡ some c
      → DetailAt (set_at geom i d) k dt
      → ((k ≡ i) × (d.detail ≡ dt)) ⊎ ((k ≢ i) × DetailAt geom k dt)
  DetailAt-set_at geom i k d dt e (x, ex, h) = elim (Bool-cases (i == k)) [
    | inl t ↦
        let same = (==_iff i k).0 t in
        let found : get_elem? (set_at geom i d) k ≡ some d =
          subst (λ n. get_elem? (set_at geom i d) n ≡ some d) same (set_at_self geom i d e) in
        let equal : d ≡ x = some_injective (sym found ∙ ex) in
        inl (sym same, ap (λ y. y.detail) equal ∙ h)
    | inr f ↦
        let ne : i ≢ k = ground (arith, f) in
        inr (λ q. ne (sym q), (x, sym (set_at-other geom i k d ne) ∙ ex, h))
  ]

  base_array : {P : Type 0} {a b : ℤ} {f h : P} → base a f ≡ base b h → a ≡ b
  base_array e = cc

  pos_injective : {m n : ℕ} → pos m ≡ pos n → m ≡ n
  pos_injective e = cc

  -- The new array is no other geometry's.
  first-Separate :
      (g g' : Geometries reals arena) (i : ℕ) (p : Point reals) (a : ℤ)
      (c d : GeometryData (Point reals))
      → Separate g
      → get_elem? g.geom i ≡ some c
      → d.detail ≡ base a p
      → a ≡ pos (length (contents_of g))
      → contents_of g' ≡ contents_of g ++ ([] ∷ [])
      → g'.geom ≡ set_at g.geom i d
      → Separate g'
  first-Separate g g' i p a c d sep e da index grown set =
      let longer : length (contents_of g') ≡ suc (length (contents_of g)) =
        ap length grown ∙ (length-append (contents_of g) ([] ∷ []) ∙ omega arith) in
      let split = λ (k : ℕ) (dt : Details (Point reals)) (h : DetailAt g'.geom k dt).
        DetailAt-set_at g.geom i k d dt e (subst (λ l. DetailAt l k dt) set h) in
      let fresh = λ (b : ℕ) (f : Point reals) (u : d.detail ≡ base (pos b) f).
        pos_injective (sym (base_array (sym da ∙ u)) ∙ index) in
      record {
        allocated = λ k b f h. elim (split k _ h) [
          | inl (q, u) ↦ omega (arith, longer, fresh b f u)
          | inr (ne, old) ↦ omega (arith, longer, sep.allocated k b f old)
        ];
        distinct = λ j k b f h x y. elim (split j _ x) [
          | inl (q, u) ↦ elim (split k _ y) [
            | inl (r, v) ↦ q ∙ sym r
            | inr (ne, old) ↦ absurd (omega (arith, fresh b f u, sep.allocated k b h old))
          ]
          | inr (ne, old) ↦ elim (split k _ y) [
            | inl (r, v) ↦ absurd (omega (arith, fresh b h v, sep.allocated j b f old))
            | inr (ne', old') ↦ sep.distinct j k b f h old old'
          ]
        ];
      }

  append-first :
      (g : Geometries reals arena) (i n : ℕ) (u p : Point reals) (k : ℕ) (qs : List (Point reals))
      → Separate g
      → DetailAt g.geom i (base (negsuc n) u)
      → k ≢ i
      → HasPoints g k qs
      → Appended g i [] p k qs
  unfolding append append_to
  append-first g i n u p k qs sep (d, e, dt) ne h =
      let made = arena.new_array g.point_buffers n in
      let index = laws.new_array-index g.point_buffers n in
      let grown = laws.new_array-contents g.point_buffers n in
      let d' = record d { detail = base made.0 p } in
      let g' : Geometries reals arena = record {
        geom = set_at g.geom i d';
        point_buffers = made.1;
      } in
      (
        g',
        rw (e, of_option, dt) refl,
        inr (
          length (contents_of g),
          p,
          [],
          (d', set_at_self g.geom i d' e, ap (λ a. base a p) index),
          rw grown (get_elem?-last (contents_of g) []),
          refl,
        ),
        HasPoints-kept g g' k qs (DetailAt-other g.geom i k d' ne)
            (λ a f vs at v. rw grown (get_elem?-append (contents_of g) ([] ∷ []) a v)) h,
        first-Separate g g' i p made.0 d d' sep e refl index grown refl,
      )

  append-next :
      (g : Geometries reals arena) (i a : ℕ) (f p : Point reals) (vs : List (Vertex reals)) (k : ℕ)
      (qs : List (Point reals))
      → Separate g
      → DetailAt g.geom i (base (pos a) f)
      → Holds reals arena laws g a vs
      → k ≢ i
      → HasPoints g k qs
      → Appended g i (base_points reals f vs) p k qs
  unfolding append append_to append_vertex
  append-next g i a f p vs k qs sep (d, e, dt) v ne h =
      let w = to_vertex reals f p in
      let (s, made, grown) = laws.emplace_back-contents g.point_buffers a w v in
      let g' : Geometries reals arena = record g { point_buffers = s } in
      let size : length (contents_of g') ≡ length (contents_of g) =
        ap length grown ∙ length-extend (contents_of g) a w in
      (
        g',
        rw (e, of_option, dt, made) refl,
        inr (
          a,
          f,
          vs ++ (w ∷ []),
          (d, e, dt),
          rw grown (extend_self (contents_of g) a w v),
          ap (◌∷◌ f) (sym (map-append (of_vertex reals f) vs (w ∷ []))),
        ),
        HasPoints-kept g g' k qs (λ dt x. x)
            (λ b c ws at held.
              let other : a ≢ b = λ q. ne (
                sep.distinct k i a c f (subst (λ n. DetailAt g.geom k (base (pos n) c)) (sym q) at)
                  (d, e, dt)) in
              rw grown (extend_other (contents_of g) a b w other ∙ held))
            h,
        record {
          allocated = λ j b c x. subst (λ n. b < n) (sym size) (sep.allocated j b c x);
          distinct = sep.distinct;
        },
      )

  -- Where each geometry has an array of its own, a point that is appended to a geometry that is no
  -- view comes behind its other points: the first as it is, each other one as the vertex relative to
  -- the first one stands for it. The points of each other geometry stay, and each geometry still has
  -- an array of its own.
  pub append-HasPoints :
      (g : Geometries reals arena) (i : ℕ) (ps : List (Point reals)) (p : Point reals) (k : ℕ)
      (qs : List (Point reals))
      → Separate g
      → HasPoints g i ps
      → k ≢ i
      → HasPoints g k qs
      → Appended g i ps p k qs
  append-HasPoints g i ps p k qs sep (inl (n, u, h, z)) ne other =
      subst (λ l. Appended g i l p k qs) (sym z) (append-first g i n u p k qs sep h ne other)
  append-HasPoints g i ps p k qs sep (inr (a, f, vs, h, v, e)) ne other =
      subst (λ l. Appended g i l p k qs) (sym e) (append-next g i a f p vs k qs sep h v ne other)
