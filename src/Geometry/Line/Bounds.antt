-- ===== src/Geometry/Line/Bounds.antt =====
-- What the parts of a line between two bounds consist of.
use mapget.Base.{
  ℕ, zero, suc, ◌+◌, ◌-◌, ◌≤◌, ◌<◌, ◌≡◌, Bool, true, false, not, ◌&&◌, List, [], ◌∷◌, ◌++◌, Option,
  none, some, if◌then◌else◌, get_elem?, refl, sym, ap, subst, ◌∙◌, arith, ltb, length, take, drop,
  Bool-cases, inl, inr,
}
use mapget.Base.Result.{Result, ok, of_option}
use mapget.Point.{Reals, Point, plus_all, minus_all, times_all, geographic_distance_to}
use mapget.Geometry.Points.{elem_below, drop-elem}
use mapget.Geometry.Line.Nearest.{IsStrict, IsNearest, closest-IsNearest}
use mapget.Geometry.Line.{
  read_range, Closest, update_when, update_closest_index, closest_from, closest, at_offset,
  between_closest, points_from_position_bound, Walk, reach_start, position_on, walk, at_first,
  range_of_walk, points_from_length_bound,
}

-- A range inside a list is read as that part of it.
pub read_range-inside :
    {A : Type 0} (ps : List A) (k count : ℕ)
    → k + count ≤ length ps
    → read_range ps k count ≡ ok (take count (drop k ps))
unfolding read_range
read_range-inside ps k zero h = refl
read_range-inside ps k (suc count) h =
    let (p, e) = elem_below ps k (omega arith) in
    rw (e, read_range-inside ps (suc k) count (omega arith), drop-elem ps k e, of_option) refl

and_false : (b : Bool) → b && false ≡ false
and_false true = refl
and_false false = refl

module _ (reals : Reals) where
  update_when-index :
      (b : Bool) (i : ℕ) (d : reals.Real) (o : Option (Point reals)) (c : Closest reals)
      → c.index ≤ i
      → (update_when reals b i d o c).index ≤ i
  unfolding update_when
  update_when-index false i d o c h = h
  update_when-index true i d none c h = h
  update_when-index true i d (some o) c h = omega arith

  closest_from-index :
      (p : Point reals) (i : ℕ) (a : Point reals) (ps : List (Point reals)) (c : Closest reals)
      → c.index ≤ i
      → (closest_from reals p i a ps c).index ≤ i + length ps
  unfolding closest_from update_closest_index
  closest_from-index p i a [] c h = omega arith
  closest_from-index p i a (b ∷ ps) c h =
      let next =
        closest_from-index p (suc i) b ps (update_closest_index reals p i a b c)
          (omega (arith, update_when-index _ i _ _ c h)) in
      omega (arith, next)

  closest-index :
      (unset p : Point reals) (ps : List (Point reals)) (q : Point reals)
      → (closest reals unset q p ps).index ≤ length ps
  unfolding closest
  closest-index unset p ps q = omega (
    arith,
    closest_from-index q 0 p ps (record { index = 0; from_closest = unset; distance = reals.max })
        (omega arith),
  )

  -- The place a, the points of the line up to that of b, which is not before it, and the place b.
  abbrev pub IsPart :
      List (Point reals) → Closest reals → Closest reals → Result (List (Point reals)) → Type 0
  IsPart ps a b r =
      (x : Point reals) × (y : Point reals) × (get_elem? ps a.index ≡ some x)
      × (get_elem? ps b.index ≡ some y)
      × (a.index ≤ b.index)
      × (r
          ≡ ok (
              plus_all reals x a.from_closest
              ∷ (take (b.index - a.index) (drop (suc a.index) ps)
                  ++ (plus_all reals y b.from_closest ∷ []))))

  between_closest-IsPart :
      (ps : List (Point reals)) (s e : Closest reals)
      → s.index ≤ e.index
      → e.index < length ps
      → IsPart ps s e (between_closest reals ps s e)
  unfolding between_closest at_offset
  between_closest-IsPart ps s e le lt =
      let (p, ep) = elem_below ps s.index (omega arith) in
      let (q, eq) = elem_below ps e.index lt in
      (
        p,
        q,
        ep,
        eq,
        le,
        rw (ep, read_range-inside ps (suc s.index) (e.index - s.index) (omega arith), eq) refl,
      )

  -- The part of a line with points between two positions always exists. For each position there is a
  -- segment of the line that is nearest to it: of those that the position projects onto, none starts
  -- nearer; where it projects onto none that starts nearer than the greatest number, the first
  -- segment with the offset that was there before.
  -- The part is, from the one of the two whose segment comes first, its place, that is the
  -- segment's first point plus the projection's offset, then the points of the line from the end
  -- of its segment up to the start of the other's, then the other's place. The order on the numbers is
  -- taken to be strict.
  pub points_from_position_bound-IsPart :
      IsStrict reals
      → (unset p : Point reals) (ps : List (Point reals)) (start end : Point reals)
      → (s : Closest reals) × (e : Closest reals) × IsNearest reals unset start (p ∷ ps) s
        × IsNearest reals unset end (p ∷ ps) e
        × (if ltb e.index s.index
            then IsPart
                (p ∷ ps)
                e
                s
                (points_from_position_bound reals unset (p ∷ ps) start (some end))
            else IsPart
                (p ∷ ps)
                s
                e
                (points_from_position_bound reals unset (p ∷ ps) start (some end)))
  unfolding points_from_position_bound
  points_from_position_bound-IsPart strict unset p ps start end =
      let s = closest reals unset start p ps in
      let e = closest reals unset end p ps in
      let below = closest-index unset p ps in
      (
        s,
        e,
        closest-IsNearest reals strict unset start p ps,
        closest-IsNearest reals strict unset end p ps,
        elim (Bool-cases (ltb e.index s.index)) [
          | inl back ↦
              rw back
                (between_closest-IsPart (p ∷ ps) e s (ground arith) (omega (arith, below start)))
          | inr on ↦
              rw on (between_closest-IsPart (p ∷ ps) s e (ground arith) (omega (arith, below end)))
        ],
      )

  -- No end of a segment lies as far along the line as that bound.
  abbrev pub Unreached : reals.Real → reals.Real → Point reals → List (Point reals) → Type 0
  Unreached bound covered p [] = Unit
  Unreached bound covered p (q ∷ qs) =
      let next = reals.plus covered (geographic_distance_to reals p q) in
      (reals.leq bound next ≡ false) × Unreached bound next q qs

  reach_start-end :
      (b : Bool) (p : Point reals) (i : ℕ) (w : Walk reals)
      → ((reach_start reals b p i w).end_pos ≡ w.end_pos)
        × ((reach_start reals b p i w).inner_index_end ≡ w.inner_index_end)
        × ((reach_start reals b p i w).covered_length ≡ w.covered_length)
  unfolding reach_start
  reach_start-end true p i w = (refl, refl, refl)
  reach_start-end false p i w = (refl, refl, refl)

  walk-Unreached :
      (start end : reals.Real) (i : ℕ) (p : Point reals) (ps : List (Point reals)) (w : Walk reals)
      → Unreached end w.covered_length p ps
      → ((walk reals start (some end) i p ps w).end_pos ≡ w.end_pos)
        × ((walk reals start (some end) i p ps w).inner_index_end ≡ w.inner_index_end)
  unfolding walk
  walk-Unreached start end i p [] w h = (refl, refl)
  walk-Unreached start end i p (q ∷ qs) w (short, h) =
      let dist = geographic_distance_to reals p q in
      let covered = reals.plus w.covered_length dist in
      let here = not w.start_reached && reals.leq start covered in
      let moved : Walk reals = record w { covered_length = covered } in
      let started = reach_start reals here (position_on reals p q dist covered start) i moved in
      let (e, n, c) = reach_start-end here (position_on reals p q dist covered start) i moved in
      let (e', n') =
        walk-Unreached start end (suc i) q qs started
          (subst (λ x. Unreached end x q qs) (sym c) h) in
      rw (short, and_false started.start_reached) (e' ∙ e, n' ∙ n)

  -- The place so far along the line: on the first segment that ends there or behind it; `first`
  -- where there is none.
  abbrev pub place_along :
      Point reals → reals.Real → reals.Real → Point reals → List (Point reals) → Point reals
  place_along first bound covered p [] = first
  place_along first bound covered p (q ∷ qs) =
      let dist = geographic_distance_to reals p q in
      let next = reals.plus covered dist in
      let share = reals.divide (reals.minus dist (reals.minus next bound)) dist in
      if reals.leq bound next
      then plus_all reals p (times_all reals share (minus_all reals q p))
      else place_along first bound next q qs

  walk-start :
      (start end : reals.Real) (i : ℕ) (p : Point reals) (ps : List (Point reals)) (w : Walk reals)
      → Unreached end w.covered_length p ps
      → (walk reals start (some end) i p ps w).start_pos ≡ (
          if w.start_reached
          then w.start_pos
          else place_along w.start_pos start w.covered_length p ps)
  unfolding walk reach_start position_on
  walk-start start end i p [] w h = elim (Bool-cases w.start_reached) [
    | inl t ↦ rw t refl
    | inr f ↦ rw f refl
  ]
  walk-start start end i p (q ∷ qs) w (short, h) =
      let dist = geographic_distance_to reals p q in
      let covered = reals.plus w.covered_length dist in
      let moved : Walk reals = record w { covered_length = covered } in
      let place = position_on reals p q dist covered start in
      let go = λ (b : Bool).
        walk-start start end (suc i) q qs (reach_start reals b place i moved)
          (subst (λ x. Unreached end x q qs) (sym (reach_start-end b place i moved).2) h) in
      let here = not w.start_reached && reals.leq start covered in
      let started = reach_start reals here place i moved in
      elim (Bool-cases w.start_reached) [
        | inl t ↦
            (let reached : here ≡ false = rw t refl in
              rw (short, and_false started.start_reached, reached) (go false ∙ rw t refl))
        | inr f ↦ (elim (Bool-cases (reals.leq start covered)) [
          | inl u ↦
              (let yes_here : here ≡ true = rw (f, u) refl in
                rw (short, and_false started.start_reached, yes_here) (go true ∙ rw (f, u) refl))
          | inr v ↦
              (let none_here : here ≡ false = rw (f, v) refl in
                rw (short, and_false started.start_reached, none_here) (go false ∙ rw (f, v) refl))
        ])
      ]

  range_of_walk-first :
      (ps : List (Point reals)) (w : Walk reals)
      → w.inner_index_end ≡ 0
      → range_of_walk reals ps w ≡ ok (w.start_pos ∷ (w.end_pos ∷ []))
  unfolding range_of_walk read_range
  range_of_walk-first ps w e =
      let none_left : 0 - w.inner_index_start ≡ 0 = omega arith in rw (e, none_left) refl

  -- Where the end lies behind the line, that is, where no segment ends at or behind it, and the start
  -- is not behind the end, the part of the line is the place of the start, which is the first point
  -- where the start lies behind the line too, and then the first point of the line, whichever
  -- points lie in between.
  pub points_from_length_bound-Unreached :
      (p : Point reals) (ps : List (Point reals)) (start end : reals.Real)
      → reals.less end start ≡ false
      → Unreached end reals.zero p ps
      → points_from_length_bound reals (p ∷ ps) start (some end)
        ≡ ok (place_along p start reals.zero p ps ∷ (p ∷ []))
  unfolding points_from_length_bound
  points_from_length_bound-Unreached p ps start end order h =
      let w = walk reals start (some end) 0 p ps (at_first reals p) in
      let (e, n) = walk-Unreached start end 0 p ps (at_first reals p) h in
      rw order (
        range_of_walk-first (p ∷ ps) w n
        ∙ ap (λ x. ok (w.start_pos ∷ (x ∷ []))) e
        ∙ ap (λ x. ok (x ∷ (p ∷ []))) (walk-start start end 0 p ps (at_first reals p) h))
