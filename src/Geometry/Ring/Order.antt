-- ===== src/Geometry/Ring/Order.antt =====
-- The points that the ring of a polygon visits, and in which order.
use mapget.Base.{
  ℕ, zero, suc, ◌+◌, ◌-◌, ◌%◌, ◌^◌, ◌<◌, ◌≡◌, Bool, true, false, List, [], ◌∷◌, ◌++◌, none, some,
  refl, ap, ◌∙◌, arith, ltb, if◌then◌else◌, length, length-append, get_elem?, take, drop,
  append-nil, Bool-cases, inl, inr,
}
use mathlib.Core.List
use native.Mathlib.Nat.{mod-eq_of_lt, mod_self}
use mapget.Base.Result.{ok, ◌>>=◌}
use mapget.Point.{Reals, Point, point_eq}
use mapget.Geometry.Points.{elem_below, drop-elem, drop-next, get_elem?-drop, take_all}
use mapget.Geometry.Ring.{
  Ring, buffer_at, is_closed, area_loop, signed_area, linear_ring, ring_size, ring_at, read_nodes,
  iterate,
}

-- The last of the elements, the first of which is given apart.
abbrev pub last_of : {A : Type 0} → A → List A → A
last_of a [] = a
last_of a (b ∷ bs) = last_of b bs

get_elem?-last_of :
    {A : Type 0} (a : A) (bs : List A) → get_elem? (a ∷ bs) (length bs) ≡ some (last_of a bs)
get_elem?-last_of a [] = refl
get_elem?-last_of a (b ∷ bs) = get_elem?-last_of b bs

last_of-append : {A : Type 0} (a : A) (bs : List A) (q : A) → last_of a (bs ++ (q ∷ [])) ≡ q
last_of-append a [] q = refl
last_of-append a (b ∷ bs) q = last_of-append b bs q

module _ {A : Type 0} where
  take-elem :
      (xs : List A) (c : ℕ) {x : A}
      → get_elem? xs c ≡ some x
      → take (suc c) xs ≡ take c xs ++ (x ∷ [])
  take-elem [] c e = cc
  take-elem (y ∷ xs) zero e = cc
  take-elem (y ∷ xs) (suc c) e = ap (λ l. y ∷ l) (take-elem xs c e)

  drop_all : (xs : List A) → drop (length xs) xs ≡ []
  drop_all [] = refl
  drop_all (x ∷ xs) = drop_all xs

module _ (reals : Reals) where
  -- Twice the signed area: the cross products of neighbours summed up, the last point with the first.
  cross : Point reals → Point reals → reals.Real
  cross a b = reals.minus (reals.times a.x b.y) (reals.times a.y b.x)

  unfoldable pub shoelace : Point reals → Point reals → List (Point reals) → reals.Real → reals.Real
  unfolding cross
  shoelace p a [] sum =
      if reals.eq a.z p.z
      then reals.divide (reals.plus sum (cross a p)) (reals.number 2 0)
      else reals.zero
  shoelace p a (b ∷ bs) sum =
      let more = shoelace p b bs (reals.plus sum (cross a b)) in
      if reals.eq a.z p.z then more else reals.zero

  -- The polygon runs clockwise: its area, which is zero off a plane of one z, is below zero.
  abbrev pub runs_clockwise : Point reals → List (Point reals) → Bool
  runs_clockwise p rest = reals.less (shoelace p p rest reals.zero) reals.zero

  -- Of three points or more, the last is the first again.
  abbrev pub closes : Point reals → List (Point reals) → Bool
  closes p rest = if ltb (length rest) 2 then false else point_eq reals p (last_of p rest)

  area_loop-shoelace :
      (p : Point reals) (rest : List (Point reals)) (i : ℕ) (a : Point reals)
      (bs : List (Point reals)) (sum : reals.Real)
      → drop i (p ∷ rest) ≡ a ∷ bs
      → i + suc (length bs) ≡ suc (length rest)
      → area_loop reals (p ∷ rest) 0 (suc (length rest)) p.z (suc (length bs)) i sum
        ≡ ok (shoelace p a bs sum)
  unfolding area_loop shoelace cross
  area_loop-shoelace p rest i a [] sum e n =
      let at : get_elem? (p ∷ rest) (i + 0) ≡ some a =
        ap (get_elem? (p ∷ rest)) (omega arith) ∙ get_elem?-drop (p ∷ rest) i e in
      let wrap : (i + 1 + 0) % suc (length rest) ≡ 0 =
        ap (λ k. k % suc (length rest)) (omega arith) ∙ mod_self (suc (length rest)) in
      elim (Bool-cases (reals.eq a.z p.z)) [
        | inl t ↦ rw (at, wrap, t) refl
        | inr f ↦ rw (at, wrap, f) refl
      ]
  area_loop-shoelace p rest i a (b ∷ bs) sum e n =
      let at : get_elem? (p ∷ rest) (i + 0) ≡ some a =
        ap (get_elem? (p ∷ rest)) (omega arith) ∙ get_elem?-drop (p ∷ rest) i e in
      let next : drop (suc i) (p ∷ rest) ≡ b ∷ bs = drop-next (p ∷ rest) i e in
      let below : i + 1 + 0 < suc (length rest) = omega arith in
      let next_index : (i + 1 + 0) % suc (length rest) ≡ suc i = mod-eq_of_lt below ∙ omega arith in
      let at' : get_elem? (p ∷ rest) ((i + 1 + 0) % suc (length rest)) ≡ some b =
        ap (get_elem? (p ∷ rest)) next_index ∙ get_elem?-drop (p ∷ rest) (suc i) next in
      elim (Bool-cases (reals.eq a.z p.z)) [
        | inl t ↦
            rw (at, at', t)
              (area_loop-shoelace p rest (suc i) b bs (reals.plus sum (cross a b)) next
                (omega arith))
        | inr f ↦ rw (at, at', f) refl
      ]

  -- The ring of a buffer.
  abbrev whole_ring : Point reals → List (Point reals) → Ring
  whole_ring p rest = record {
    offset = 0;
    size = suc (length rest);
    closed = closes p rest;
    clockwise = runs_clockwise p rest;
  }

  is_closed-closes :
      (p : Point reals) (rest : List (Point reals))
      → is_closed reals (p ∷ rest) 0 (suc (length rest)) ≡ ok (closes p rest)
  unfolding is_closed
  is_closed-closes p rest =
      let at : get_elem? (p ∷ rest) (suc (length rest) - 1 + 0) ≡ some (last_of p rest) =
        ap (get_elem? (p ∷ rest)) (omega arith) ∙ get_elem?-last_of p rest in
      elim (Bool-cases (ltb (length rest) 2)) [
        | inl t ↦ (let t' : ltb (suc (length rest)) 3 ≡ true = ground arith in rw (t, t') refl)
        | inr f ↦ (let f' : ltb (suc (length rest)) 3 ≡ false = ground arith in rw (f, f', at) refl)
      ]

  linear_ring-whole_ring :
      (p : Point reals) (rest : List (Point reals))
      → suc (length rest) < 2 ^ 32
      → linear_ring reals (p ∷ rest) 0 none ≡ ok (whole_ring p rest)
  unfolding linear_ring signed_area
  linear_ring-whole_ring p rest h =
      let all : (suc (length rest) + 2 ^ 32 - 0) % 2 ^ 32 ≡ suc (length rest) = omega arith in
      rw
        (
          all,
          is_closed-closes p rest,
          area_loop-shoelace p rest 0 p rest reals.zero refl (omega arith),
        )
        refl

  abbrev ring : Bool → Bool → ℕ → Ring
  ring c w n = record { offset = 0; size = n; closed = c; clockwise = w }

  -- The nodes behind the points of the buffer.
  abbrev extra : Bool → ℕ
  extra c = if c then 0 else 1

  abbrev first_again : Bool → Point reals → List (Point reals)
  first_again c p = if c then [] else p ∷ []

  ring_at-forward :
      (buffer : List (Point reals)) (c : Bool) (n k : ℕ)
      → k < n
      → ring_at reals buffer (ring c false n) k ≡ buffer_at reals buffer k
  unfolding ring_at ring_size
  ring_at-forward buffer c n k h = ground arith

  ring_at-backward :
      (buffer : List (Point reals)) (c : Bool) (n k : ℕ)
      → k < n
      → 0 < k
      → ring_at reals buffer (ring c true n) k ≡ buffer_at reals buffer (n - k)
  unfolding ring_at ring_size
  ring_at-backward buffer c n k h pos =
      let below : n - k < n = omega arith in ground (arith, mod-eq_of_lt below)

  ring_at-first :
      (buffer : List (Point reals)) (c w : Bool) (n : ℕ)
      → 0 < n
      → ring_at reals buffer (ring c w n) 0 ≡ buffer_at reals buffer 0
  unfolding ring_at ring_size
  ring_at-first buffer c w n h = ground (arith, mod_self n)

  ring_at-end :
      (buffer : List (Point reals)) (w : Bool) (n : ℕ)
      → ring_at reals buffer (ring false w n) n ≡ buffer_at reals buffer 0
  unfolding ring_at ring_size
  ring_at-end buffer w n = ground arith

  read_nodes-end :
      (p : Point reals) (rest : List (Point reals)) (c w : Bool) (n : ℕ)
      → read_nodes reals (p ∷ rest) (ring c w n) (extra c) n ≡ ok (first_again c p)
  unfolding read_nodes
  read_nodes-end p rest true w n = refl
  read_nodes-end p rest false w n = rw (ring_at-end (p ∷ rest) w n) refl

  read_nodes-forward :
      (p : Point reals) (rest : List (Point reals)) (c : Bool) (count k : ℕ)
      → k + count ≡ suc (length rest)
      → read_nodes reals (p ∷ rest) (ring c false (suc (length rest))) (count + extra c) k
        ≡ ok (drop k (p ∷ rest) ++ first_again c p)
  unfolding read_nodes
  read_nodes-forward p rest c zero k e =
      let at_end : k ≡ suc (length rest) = omega arith in
      let none_left : 0 + extra c ≡ extra c = omega arith in
      rw (at_end, none_left, drop_all rest) (read_nodes-end p rest c false (suc (length rest)))
  read_nodes-forward p rest c (suc count) k e =
      let (x, at) = elem_below (p ∷ rest) k (omega arith) in
      let one_more : suc count + extra c ≡ suc (count + extra c) = omega arith in
      rw
        (
          one_more,
          ring_at-forward (p ∷ rest) c (suc (length rest)) k (omega arith),
          at,
          read_nodes-forward p rest c count (suc k) (omega arith),
          drop-elem (p ∷ rest) k at,
        )
        refl

  read_nodes-backward :
      (p : Point reals) (rest : List (Point reals)) (c : Bool) (count k : ℕ)
      → suc k + count ≡ suc (length rest)
      → read_nodes reals (p ∷ rest) (ring c true (suc (length rest))) (count + extra c) (suc k)
        ≡ ok (List.reverse (take count rest) ++ first_again c p)
  unfolding read_nodes
  read_nodes-backward p rest c zero k e =
      let at_end : suc k ≡ suc (length rest) = omega arith in
      let none_left : 0 + extra c ≡ extra c = omega arith in
      rw (at_end, none_left) (read_nodes-end p rest c true (suc (length rest)))
  read_nodes-backward p rest c (suc count) k e =
      let (x, at) = elem_below rest count (omega arith) in
      let one_more : suc count + extra c ≡ suc (count + extra c) = omega arith in
      let index : suc (length rest) - suc k ≡ suc count = omega arith in
      rw
        (
          one_more,
          ring_at-backward (p ∷ rest) c (suc (length rest)) (suc k) (omega arith) (omega arith),
          index,
          at,
          read_nodes-backward p rest c count (suc k) (omega arith),
          take-elem rest count at,
          List.reverse-append (take count rest) (x ∷ []),
        )
        refl

  -- The points with the first kept in front and the others in that order.
  abbrev pub oriented : Bool → List (Point reals) → List (Point reals)
  oriented w rest = if w then List.reverse rest else rest

  iterate-oriented :
      (p : Point reals) (rest : List (Point reals)) (c w : Bool)
      → iterate reals (p ∷ rest) (ring c w (suc (length rest)))
        ≡ ok (p ∷ (oriented w rest ++ first_again c p))
  unfolding iterate ring_size
  iterate-oriented p rest c false =
      let nodes : (if c then suc (length rest) else suc (length rest) + 1)
          ≡ suc (length rest) + extra c =
        ground arith in
      rw nodes (read_nodes-forward p rest c (suc (length rest)) 0 (omega arith))
  iterate-oriented p rest c true =
      let nodes : (if c then suc (length rest) else suc (length rest) + 1)
          ≡ suc (length rest + extra c) =
        ground arith in
      rw
        (
          nodes,
          read_nodes,
          ring_at-first (p ∷ rest) c true (suc (length rest)) (omega arith),
          read_nodes-backward p rest c (length rest) 0 (omega arith),
          take_all rest (length rest) refl,
        )
        refl

  -- The ring of a buffer of fewer than 2 ^ 32 points visits the first point, then the others, in
  -- their order, or in the reverse order where the signed area of the polygon is below zero, and
  -- then the first point again, unless there are three points or more of which the last is equal to
  -- the first. The area is half the sum of the cross products of neighbours, or zero if the points
  -- do not all have the first's z.
  pub iterate-linear_ring :
      (p : Point reals) (rest : List (Point reals))
      → suc (length rest) < 2 ^ 32
      → (linear_ring reals (p ∷ rest) 0 none >>= iterate reals (p ∷ rest))
        ≡ ok (
            p
            ∷ ((if runs_clockwise p rest then List.reverse rest else rest)
                ++ (if closes p rest then [] else p ∷ [])))
  iterate-linear_ring p rest h =
      rw (linear_ring-whole_ring p rest h)
        (iterate-oriented p rest (closes p rest) (runs_clockwise p rest))

  -- A polygon of three points or more whose last point q is equal to its first point p, and that
  -- runs clockwise, is visited as p, q and then the others from the last to the first, so that what
  -- is visited ends with the point behind p, and not with p.
  pub iterate-clockwise :
      (p a q : Point reals) (rest : List (Point reals))
      → suc (suc (length (rest ++ (q ∷ [])))) < 2 ^ 32
      → point_eq reals p q ≡ true
      → runs_clockwise p (a ∷ (rest ++ (q ∷ []))) ≡ true
      → (linear_ring reals (p ∷ a ∷ (rest ++ (q ∷ []))) 0 none
          >>= iterate reals (p ∷ a ∷ (rest ++ (q ∷ []))))
        ≡ ok (p ∷ q ∷ (List.reverse rest ++ (a ∷ [])))
  iterate-clockwise p a q rest h same w =
      let closed : closes p (a ∷ (rest ++ (q ∷ []))) ≡ true =
        rw (last_of-append a rest q, same) (ground (arith, length-append rest (q ∷ []))) in
      let back : List.reverse (a ∷ (rest ++ (q ∷ []))) ≡ q ∷ (List.reverse rest ++ (a ∷ [])) =
        List.reverse-cons a (rest ++ (q ∷ []))
        ∙ ap (λ l. l ++ (a ∷ [])) (List.reverse-append rest (q ∷ [])) in
      iterate-linear_ring p (a ∷ (rest ++ (q ∷ []))) h
      ∙ rw (w, closed, back)
          (ap (λ l. ok (p ∷ l)) (append-nil (q ∷ (List.reverse rest ++ (a ∷ [])))))
