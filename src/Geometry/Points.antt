-- ===== src/Geometry/Points.antt =====
-- The points that a geometry is read back with: those of a base, and those of a view of it.
use mapget.Base.{
  ℕ, zero, suc, ◌+◌, ◌%◌, ◌^◌, ◌<◌, ◌≤◌, ◌≡◌, List, [], ◌∷◌, some, refl, sym, ap, arith, length,
  get_elem?, get_elem?-some, map, take, drop, leb, ltb, false, if◌then◌else◌, Bool-cases, inl, inr,
}
use mapget.Base.Int.{ℤ, pos}
use mapget.Base.Result.{ok, raised, of_option}
use mapget.Point.{Reals, Point, Vertex, of_vertex}
use mapget.Arena.{Arena, ArenaLaws}
use mapget.Geometry.{
  Geometries, GeometryData, Details, base, view, PointBuffer, point_at, point_node, collect,
  points_of, point_buffer, buffer_of, base_size, resolve_view, check_view,
}

module _ {P : Type 0} where
  abbrev pub DetailAt : List (GeometryData P) → ℕ → Details P → Type 0
  DetailAt geom i dt = (d : GeometryData P) × (get_elem? geom i ≡ some d) × (d.detail ≡ dt)

  -- Views look into geometries that were there before them.
  abbrev pub Earlier : List (GeometryData P) → Type 0
  Earlier geom = (k o s t : ℕ) → DetailAt geom k (view o s t) → t < k

  -- The base that the loop over views finds, with the sum of their offsets.
  pub data Resolves (geom : List (GeometryData P)) : ℕ → ℕ → ℕ → ℤ → P → Type 0 where
    at_base : {i : ℕ} {a : ℤ} {f : P} → DetailAt geom i (base a f) → Resolves geom i 0 i a f
    of_view :
        {i off size of more j : ℕ} {a : ℤ} {f : P}
        → DetailAt geom i (view off size of)
        → Resolves geom of more j a f
        → Resolves geom i (off + more) j a f

module _ {A B : Type 0} (f : A → B) where
  pub length-map : (xs : List A) → length (map f xs) ≡ length xs
  length-map [] = refl
  length-map (x ∷ xs) = ap suc (length-map xs)

  get_elem?-map :
      (xs : List A) (i : ℕ) {x : A} → get_elem? xs i ≡ some x → get_elem? (map f xs) i ≡ some (f x)
  get_elem?-map [] i e = cc
  get_elem?-map (y ∷ xs) zero e = cc
  get_elem?-map (y ∷ xs) (suc i) e = get_elem?-map xs i e

module _ {A : Type 0} where
  pub elem_below : (xs : List A) (i : ℕ) → i < length xs → (x : A) × (get_elem? xs i ≡ some x)
  elem_below [] i h = absurd (omega arith)
  elem_below (x ∷ xs) zero h = (x, refl)
  elem_below (x ∷ xs) (suc i) h = elem_below xs i (omega arith)

  pub drop-elem :
      (xs : List A) (i : ℕ) {x : A} → get_elem? xs i ≡ some x → drop i xs ≡ x ∷ drop (suc i) xs
  drop-elem [] i e = cc
  drop-elem (y ∷ xs) zero e = cc
  drop-elem (y ∷ xs) (suc i) e = drop-elem xs i e

  pub get_elem?-drop :
      (xs : List A) (i : ℕ) {a : A} {bs : List A} → drop i xs ≡ a ∷ bs → get_elem? xs i ≡ some a
  get_elem?-drop [] zero e = cc
  get_elem?-drop [] (suc i) e = cc
  get_elem?-drop (x ∷ xs) zero e = cc
  get_elem?-drop (x ∷ xs) (suc i) e = get_elem?-drop xs i e

  pub drop-next :
      (xs : List A) (i : ℕ) {a : A} {bs : List A} → drop i xs ≡ a ∷ bs → drop (suc i) xs ≡ bs
  drop-next [] zero e = cc
  drop-next [] (suc i) e = cc
  drop-next (x ∷ xs) zero e = cc
  drop-next (x ∷ xs) (suc i) e = drop-next xs i e

  pub take_all : (xs : List A) (n : ℕ) → n ≡ length xs → take n xs ≡ xs
  take_all [] zero e = refl
  take_all [] (suc n) e = absurd (omega arith)
  take_all (x ∷ xs) zero e = absurd (omega arith)
  take_all (x ∷ xs) (suc n) e = ap (◌∷◌ x) (take_all xs n (omega arith))

-- The points that a first point and the vertices behind it stand for.
abbrev pub base_points : (reals : Reals) → Point reals → List (Vertex reals) → List (Point reals)
base_points reals f vs = f ∷ map (of_vertex reals f) vs

module _ (reals : Reals) (arena : Arena (Vertex reals)) (laws : ArenaLaws arena) where
  abbrev pub Holds : Geometries reals arena → ℕ → List (Vertex reals) → Type 0
  Holds g a vs = get_elem? (laws.contents g.point_buffers) a ≡ some vs

  pub point_node-base :
      (g : Geometries reals arena) (b : PointBuffer reals arena) (a : ℕ) (vs : List (Vertex reals))
      (k : ℕ)
      → b.vertex_array ≡ pos a
      → Holds g a vs
      → k < suc (length vs)
      → (p : Point reals) × (get_elem? (base_points reals b.first vs) k ≡ some p)
        × (point_node reals arena g b k ≡ ok p)
  unfolding point_node
  point_node-base g b a vs zero e h lt = (b.first, refl, refl)
  point_node-base g b a vs (suc k) e h lt =
      let (v, ev) = elem_below vs k (omega arith) in
      (
        of_vertex reals b.first v,
        get_elem?-map (of_vertex reals b.first) vs k ev,
        rw (e, laws.at-contents g.point_buffers a k, h, ev, of_option) refl,
      )

  collect-base :
      (g : Geometries reals arena) (b : PointBuffer reals arena) (a : ℕ) (vs : List (Vertex reals))
      (k count : ℕ)
      → b.vertex_array ≡ pos a
      → Holds g a vs
      → k + count ≤ b.size
      → b.size + b.offset ≤ suc (length vs)
      → collect reals arena g b k count
        ≡ ok (take count (drop (k + b.offset) (base_points reals b.first vs)))
  unfolding collect point_at
  collect-base g b a vs k zero e h le bound = refl
  collect-base g b a vs k (suc count) e h le bound =
      let (p, ep, en) = point_node-base g b a vs (k + b.offset) e h (omega arith) in
      let inside : leb b.size k ≡ false = ground arith in
      let next : suc k + b.offset ≡ suc (k + b.offset) = omega arith in
      rw
        (
          inside,
          en,
          collect-base g b a vs (suc k) count e h (omega arith) bound,
          next,
          drop-elem (base_points reals b.first vs) (k + b.offset) ep,
        )
        refl

  resolve_view-Resolves :
      (geom : List (GeometryData (Point reals))) (fuel acc size : ℕ) {i off j : ℕ} {a : ℤ}
      {f : Point reals}
      → Resolves geom i off j a f
      → Earlier geom
      → i < fuel
      → acc + off < 2 ^ 32
      → resolve_view reals arena fuel geom acc size i
        ≡ ok
            (record { base_geom = j; vertex_array = a; first = f; offset = acc + off; size = size })
  unfolding resolve_view
  resolve_view-Resolves geom zero acc size r earlier lt fits = absurd (omega arith)
  resolve_view-Resolves geom (suc fuel) acc size (at_base (d, e, dt)) earlier lt fits =
      let same : acc + 0 ≡ acc = omega arith in rw (e, of_option, dt, same) refl
  resolve_view-Resolves geom (suc fuel) acc size {i = i}
        (of_view {off = o} {size = s} {of = t} {more = m} (d, e, dt) r) earlier lt fits =
      let wrapped : (acc + o) % 2 ^ 32 ≡ acc + o = omega arith in
      let sum : acc + (o + m) ≡ acc + o + m = omega arith in
      let below = earlier i o s t (d, e, dt) in
      rw (e, of_option, dt, wrapped, sum)
        (resolve_view-Resolves geom fuel (acc + o) size r earlier (omega arith) (omega arith))

  -- A base is read back with its first point and those of its vertices.
  pub points_of-base :
      (g : Geometries reals arena) (i a : ℕ) (f : Point reals) (vs : List (Vertex reals))
      → DetailAt g.geom i (base (pos a) f)
      → Holds g a vs
      → suc (length vs) < 2 ^ 32
      → points_of reals arena g i ≡ ok (base_points reals f vs)
  unfolding points_of point_buffer buffer_of base_size
  points_of-base g i a f vs (d, e, dt) h fits =
      let wrapped : (1 + length vs) % 2 ^ 32 ≡ suc (length vs) = omega arith in
      let all : suc (length vs) ≡ length (base_points reals f vs) =
        ap suc (sym (length-map (of_vertex reals f) vs)) in
      rw
        (
          e,
          of_option,
          dt,
          laws.size-contents g.point_buffers a,
          h,
          wrapped,
          collect-base g
              (record {
                base_geom = i;
                vertex_array = pos a;
                first = f;
                offset = 0;
                size = suc (length vs);
              })
              a vs 0 (suc (length vs)) refl h (omega arith) (omega arith),
          take_all (base_points reals f vs) (suc (length vs)) all,
        )
        refl

  -- A view of a geometry is read back as the part of the base's points that it names, where the
  -- offsets of a chain of views add up, and throws where that part ends behind the base's points.
  -- The sizes of the views in between are not looked at.
  pub points_of-view :
      (g : Geometries reals arena) (i o size t off j a : ℕ) (f : Point reals)
      (vs : List (Vertex reals))
      → Earlier g.geom
      → DetailAt g.geom i (view o size t)
      → Resolves g.geom t off j (pos a) f
      → Holds g a vs
      → suc (length vs) < 2 ^ 32
      → o + off + size < 2 ^ 32
      → points_of reals arena g i ≡ (
          if ltb (suc (length vs)) (o + off + size)
          then raised
          else ok (take size (drop (o + off) (base_points reals f vs))))
  unfolding points_of point_buffer buffer_of check_view
  points_of-view g i o size t off j a f vs earlier (d, e, dt) r h short fits =
      let wrapped : o % 2 ^ 32 ≡ o = omega arith in
      let sum : (o + off + size) % 2 ^ 32 ≡ o + off + size = omega arith in
      let one : 1 + length vs ≡ suc (length vs) = omega arith in
      let front : 0 + (o + off) ≡ o + off = omega arith in
      let below : t < i = earlier i o size t (d, e, dt) in
      let inside : t < length g.geom = omega (arith, get_elem?-some g.geom i e) in
      let found =
        resolve_view-Resolves g.geom (length g.geom) o size r earlier inside (omega arith) in
      elim (Bool-cases (ltb (suc (length vs)) (o + off + size))) [
        | inl behind ↦
            rw
              (
                e,
                of_option,
                dt,
                wrapped,
                found,
                laws.size-contents g.point_buffers a,
                h,
                sum,
                one,
                behind,
              )
              refl
        | inr within ↦
            rw
              (
                e,
                of_option,
                dt,
                wrapped,
                found,
                laws.size-contents g.point_buffers a,
                h,
                sum,
                one,
                within,
                collect-base g
                    (record {
                      base_geom = j;
                      vertex_array = pos a;
                      first = f;
                      offset = o + off;
                      size = size;
                    })
                    a vs 0 size refl h (omega arith) (ground arith),
                front,
              )
              refl
      ]

module _ (reals : Reals) (arena : Arena (Vertex reals)) where
  abbrev Ends : List (GeometryData (Point reals)) → ℕ → ℕ → ℕ → ℕ → Type 0
  Ends geom fuel acc size i =
      (b : PointBuffer reals arena) × (resolve_view reals arena fuel geom acc size i ≡ ok b)
      × (b.size ≡ size)

  resolve_detail :
      (geom : List (GeometryData (Point reals))) (fuel acc size i : ℕ)
      (d : GeometryData (Point reals)) (dt : Details (Point reals))
      → get_elem? geom i ≡ some d
      → d.detail ≡ dt
      → ((acc' o s t : ℕ) → dt ≡ view o s t → Ends geom fuel acc' size t)
      → Ends geom (suc fuel) acc size i
  unfolding resolve_view
  resolve_detail geom fuel acc size i d (base a f) e dt next = (
    record { base_geom = i; vertex_array = a; first = f; offset = acc; size = size },
    rw (e, of_option, dt) refl,
    refl,
  )
  resolve_detail geom fuel acc size i d (view o s t) e dt next =
      let (b, r, k) = next ((acc + o) % 2 ^ 32) o s t refl in (b, rw (e, of_option, dt) r, k)

  resolve_view-Ends :
      (geom : List (GeometryData (Point reals))) (fuel acc size i : ℕ)
      → Earlier geom
      → i < fuel
      → i < length geom
      → Ends geom fuel acc size i
  resolve_view-Ends geom zero acc size i earlier lt le = absurd (omega arith)
  resolve_view-Ends geom (suc fuel) acc size i earlier lt le =
      let (d, e) = elem_below geom i le in
      resolve_detail geom fuel acc size i d d.detail e refl (λ acc' o s t dt.
        let below = earlier i o s t (d, e, dt) in
        resolve_view-Ends geom fuel acc' size t earlier (omega arith) (omega arith))

  -- Where views look into earlier geometries, the loop that resolves a view ends at a geometry that
  -- is no view, with as many rounds as there are geometries, and keeps the size.
  resolve_view-total :
      (geom : List (GeometryData (Point reals))) (acc size i : ℕ)
      → Earlier geom
      → i < length geom
      → Ends geom (length geom) acc size i
  resolve_view-total geom acc size i earlier lt =
      resolve_view-Ends geom (length geom) acc size i earlier lt lt
