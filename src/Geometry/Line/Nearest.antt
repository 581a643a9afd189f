-- ===== src/Geometry/Line/Nearest.antt =====
-- Which segment of a line the loop of pointsFromPositionBound takes for a position.
use mapget.Base.{
  ℕ, suc, ◌+◌, ◌<◌, ◌≡◌, ◌⊎◌, inl, inr, true, false, List, [], ◌∷◌, some, refl, subst, arith,
  length, get_elem?, get_elem?-some, drop, Bool-cases, Option-cases, ◌==◌,
}
use mapget.Point.{Reals, Point}
use mapget.Geometry.Points.{get_elem?-drop, drop-next}
use mapget.Geometry.Line.{
  project_point_on_line, Closest, update_when, update_closest_index, closest_from, closest,
}

-- The order on the numbers.
pub record IsStrict (reals : Reals) : Type 0 where
  pub irreflexive : (a : reals.Real) → reals.less a a ≡ false
  pub transitive :
      (a b c : reals.Real) → reals.less a b ≡ true → reals.less b c ≡ true → reals.less a c ≡ true

module _ (reals : Reals) where
  -- What the loop takes for the distance of a position from a segment: that from its first point.
  abbrev pub distance_from : Point reals → Point reals → reals.Real
  distance_from q a = reals.to_double (
      reals.float_distance (reals.to_float a.x) (reals.to_float a.y) (reals.to_float q.x)
        (reals.to_float q.y))

  -- The position projects onto a segment of the line: the segment, its distance and the offset.
  abbrev pub Projects : Point reals → List (Point reals) → Closest reals → Type 0
  Projects q line c =
      (a : Point reals) × (b : Point reals) × (get_elem? line c.index ≡ some a)
      × (get_elem? line (suc c.index) ≡ some b)
      × (project_point_on_line reals q a b ≡ some c.from_closest)
      × (c.distance ≡ distance_from q a)

  abbrev pub no_segment : Point reals → Closest reals
  no_segment unset = record { index = 0; from_closest = unset; distance = reals.max }

  -- Of the segments before the k-th, c is the nearest, if any is nearer than the greatest number.
  abbrev NearestBelow : ℕ → Point reals → Point reals → List (Point reals) → Closest reals → Type 0
  NearestBelow k unset q line c =
      ((c ≡ no_segment unset) ⊎ (Projects q line c × (reals.less c.distance reals.max ≡ true)))
      × ((other : Closest reals)
          → other.index < k
          → Projects q line other
          → reals.less other.distance c.distance ≡ false)

  -- The nearest of all segments that the position projects onto.
  abbrev pub IsNearest : Point reals → Point reals → List (Point reals) → Closest reals → Type 0
  IsNearest unset q line c =
      ((c ≡ no_segment unset) ⊎ (Projects q line c × (reals.less c.distance reals.max ≡ true)))
      × ((other : Closest reals)
          → Projects q line other
          → reals.less other.distance c.distance ≡ false)

  module _ (strict : IsStrict reals) (unset q : Point reals) (line : List (Point reals)) where
    -- One more segment, which is not nearer or which the position does not project onto.
    keep-Nearest :
        (i : ℕ) (c : Closest reals)
        → NearestBelow i unset q line c
        → ((other : Closest reals)
            → other.index ≡ i
            → Projects q line other
            → reals.less other.distance c.distance ≡ false)
        → NearestBelow (suc i) unset q line c
    keep-Nearest i c (from, old) new = (
      from,
      λ other lt pr. elim (Bool-cases (other.index == i)) [
        | inl e ↦ new other (ground arith) pr
        | inr ne ↦ old other (ground arith) pr
      ],
    )

    same_distance :
        (i : ℕ) (a : Point reals) (other : Closest reals)
        → get_elem? line i ≡ some a
        → other.index ≡ i
        → Projects q line other
        → other.distance ≡ distance_from q a
    same_distance i a other ea e (a', b', at, next, pr, d) = cc

    below_max :
        (a : Point reals) (c : Closest reals)
        → reals.less (distance_from q a) c.distance ≡ true
        → (c ≡ no_segment unset) ⊎ (Projects q line c × (reals.less c.distance reals.max ≡ true))
        → reals.less (distance_from q a) reals.max ≡ true
    below_max a c near (inl e) =
        subst (λ (k : Closest reals). reals.less (distance_from q a) k.distance ≡ true) e near
    below_max a c near (inr (pr, m)) = strict.transitive _ _ _ near m

    update_closest_index-Nearest :
        (i : ℕ) (a b : Point reals) (c : Closest reals)
        → get_elem? line i ≡ some a
        → get_elem? line (suc i) ≡ some b
        → NearestBelow i unset q line c
        → NearestBelow (suc i) unset q line (update_closest_index reals q i a b c)
    unfolding update_closest_index update_when
    update_closest_index-Nearest i a b c ea eb h =
        elim (Bool-cases (reals.less (distance_from q a) c.distance)) [
          | inr far ↦
              rw far (keep-Nearest i c h λ other e pr. rw (same_distance i a other ea e pr) far)
          | inl near ↦ (elim (Option-cases (project_point_on_line reals q a b)) [
            | inl off ↦ rw (near, off) (keep-Nearest i c h λ other e (a', b', at, next, pr, d). cc)
            | inr (o, on) ↦
                rw (near, on)
                  (
                    inr ((a, b, ea, eb, on, refl), below_max a c near h.0),
                    λ other lt pr.
                        elim (Bool-cases (reals.less other.distance (distance_from q a))) [
                          | inr far ↦ far
                          | inl nearer ↦ (elim (Bool-cases (other.index == i)) [
                            | inl e ↦
                                rw (same_distance i a other ea (ground arith) pr)
                                  (strict.irreflexive (distance_from q a))
                            | inr ne ↦
                                (let far = h.1 other (ground arith) pr in
                                  let closer = strict.transitive _ _ _ nearer near in cc)
                          ])
                        ],
                  )
          ])
        ]

    closest_from-Nearest :
        (i : ℕ) (a : Point reals) (ps : List (Point reals)) (c : Closest reals)
        → drop i line ≡ a ∷ ps
        → NearestBelow i unset q line c
        → NearestBelow (i + length ps) unset q line (closest_from reals q i a ps c)
    unfolding closest_from
    closest_from-Nearest i a [] c e h = let ends : i + 0 ≡ i = omega arith in rw ends h
    closest_from-Nearest i a (b ∷ ps) c e h =
        let next : drop (suc i) line ≡ b ∷ ps = drop-next line i e in
        let one_more : i + suc (length ps) ≡ suc i + length ps = omega arith in
        rw one_more (
          closest_from-Nearest (suc i) b ps _ next (
            update_closest_index-Nearest i a b c (get_elem?-drop line i e)
              (get_elem?-drop line (suc i) next) h))

  pub closest-IsNearest :
      IsStrict reals
      → (unset q p : Point reals) (ps : List (Point reals))
      → IsNearest unset q (p ∷ ps) (closest reals unset q p ps)
  unfolding closest
  closest-IsNearest strict unset q p ps =
      let (from, least) =
        closest_from-Nearest strict unset q (p ∷ ps) 0 p ps (no_segment unset) refl
          (inl refl, λ other lt. absurd (omega arith)) in
      (
        from,
        λ other (a, b, at, next, pr, d).
            least other (omega (arith, get_elem?-some (p ∷ ps) (suc other.index) next))
              (a, b, at, next, pr, d),
      )
