-- ===== src/Controller/Moves.antt =====
-- What a visit of nextJob does to the requests: how far they get.
use mapget.Base.{
  ℕ, ◌+◌, ◌-◌, ◌<◌, ◌≤◌, ◌≡◌, false, List, [], ◌∷◌, ◌++◌, Option, none, some, refl, arith, ==_refl,
  ◌∙◌, ap, length, get_elem?, get_elem?-some, ◌==◌, Bool-cases, Option-cases, inl, inr, subst, sym,
}
use mapget.Base.Text.{text_eq}
use mapget.Key.{MapTileKey, LayerType}
use mapget.Request.{Request, notify_result}
use mapget.Request.Count.{notify_result-SameTask}
use mapget.Source.{SourceInfo}
use mapget.Controller.{
  TileCache, State, Visit, passed, served, picked, update, write, contains, claim, answer,
  take_tile, visit_layer, visit, remaining,
}

-- Requests that moved on: the same tiles, and no fewer of them handed out.
abbrev pub Moves : {Layer : Type 0} → Request Layer → Request Layer → Type 0
Moves q q' = (length q'.tiles ≡ length q.tiles) × (q.next_tile_index ≤ q'.next_tile_index)

abbrev pub MovesAll : {Layer : Type 0} → (ℕ → Request Layer) → (ℕ → Request Layer) → Type 0
MovesAll f g = (n : ℕ) → Moves (f n) (g n)

module _ {Layer : Type 0} (tc : TileCache Layer) where
  update-MovesAll :
      (f : ℕ → Request Layer) (r : ℕ) (q : Request Layer)
      → Moves (f r) q
      → MovesAll f (update f r q)
  unfolding update
  update-MovesAll f r q m n = elim (Bool-cases (r == n)) [
    | inl e ↦ rw e (subst (λ k. Moves (f k) q) (ground arith) m)
    | inr e ↦ rw e (refl, omega arith)
  ]

  pub remaining_mono :
      (f g : ℕ → Request Layer) (rs : List ℕ) → MovesAll f g → remaining tc g rs ≤ remaining tc f rs
  unfolding remaining
  remaining_mono f g [] m = omega arith
  remaining_mono f g (r ∷ rs) m = omega (arith, remaining_mono f g rs m, (m r).0, (m r).1)

  pub remaining-append :
      (f : ℕ → Request Layer) (as' bs : List ℕ)
      → remaining tc f (as' ++ bs) ≡ remaining tc f as' + remaining tc f bs
  unfolding remaining
  remaining-append f [] bs = omega arith
  remaining-append f (a ∷ as') bs = omega (arith, remaining-append f as' bs)

  -- A tile of `r` was handed out for good.
  abbrev pub Uses : ℕ → (ℕ → Request Layer) → (ℕ → Request Layer) → Type 0
  Uses r f g =
      ((f r).next_tile_index < (g r).next_tile_index) × ((f r).next_tile_index < length (f r).tiles)

  pub remaining-Uses :
      (f g : ℕ → Request Layer) (before rest : List ℕ) (r : ℕ)
      → MovesAll f g
      → Uses r f g
      → remaining tc g (before ++ (r ∷ rest)) < remaining tc f (before ++ (r ∷ rest))
  unfolding remaining
  remaining-Uses f g before rest r m u = omega (
    arith,
    remaining-append f before (r ∷ rest),
    remaining-append g before (r ∷ rest),
    remaining_mono f g before m,
    remaining_mono f g rest m,
    (m r).0,
    (m r).1,
  )

  -- What a visit does to the requests.
  abbrev pub MovedVisit : State tc → ℕ → Visit Layer tc.Cache → Type 0
  MovedVisit s r (passed t) = MovesAll s.store t.store
  MovedVisit s r (served t) = MovesAll s.store t.store × Uses r s.store t.store
  MovedVisit s r (picked key t) = Unit

  claim-MovedVisit :
      (r : ℕ) (key : MapTileKey) (s t : State tc)
      → MovesAll s.store (
          update t.store r
            (record (t.store r) { next_tile_index = (t.store r).next_tile_index - 1 }))
      → MovedVisit s r (claim tc r key t)
  unfolding claim write
  claim-MovedVisit r key s t m = elim (Bool-cases (contains t.jobs_in_progress key)) [
    | inl busy ↦ rw busy m
    | inr free ↦ rw free tt
  ]

  -- The state with the next tile of `r` handed out.
  abbrev advanced : State tc → ℕ → Request Layer
  advanced s r = record (s.store r) { next_tile_index = (s.store r).next_tile_index + 1 }

  update_self : (f : ℕ → Request Layer) (r : ℕ) (q : Request Layer) → update f r q r ≡ q
  unfolding update
  update_self f r q = rw (==_refl r)

  update_other :
      (f : ℕ → Request Layer) (r n : ℕ) (q : Request Layer)
      → (r == n) ≡ false
      → update f r q n ≡ f n
  unfolding update
  update_other f r n q e = rw e

  -- A second write to `r`.
  rewrite-MovesAll :
      (f g : ℕ → Request Layer) (r : ℕ) (q : Request Layer)
      → ((n : ℕ) → (r == n) ≡ false → g n ≡ f n)
      → Moves (f r) q
      → MovesAll f (update g r q)
  unfolding update
  rewrite-MovesAll f g r q off m n = elim (Bool-cases (r == n)) [
    | inl e ↦ rw e (subst (λ k. Moves (f k) q) (ground arith) m)
    | inr e ↦ rw e (subst (Moves (f n)) (sym (off n e)) (refl, omega arith))
  ]

  -- The request as it is after it was handed out and put back, or has its result.
  put_back :
      (q p : Request Layer)
      → p ≡ record q { next_tile_index = q.next_tile_index + 1 }
      → Moves q (record p { next_tile_index = p.next_tile_index - 1 })
  put_back q p e = rw e (refl, omega arith)

  settled :
      (q p : Request Layer) (type : LayerType) (layer : Layer)
      → p ≡ record q { next_tile_index = q.next_tile_index + 1 }
      → Moves q (notify_result type layer p)
        × (q.next_tile_index < (notify_result type layer p).next_tile_index)
  settled q p type layer e =
      let same = (notify_result-SameTask type layer p).0 in
      let tiles : length (notify_result type layer p).tiles ≡ length q.tiles =
        ap length same.tiles ∙ ap (λ (h : Request Layer). length h.tiles) e in
      let next = ap (λ (h : Request Layer). h.next_tile_index) e in
      ((tiles, omega (arith, same.next_tile_index)), omega (arith, same.next_tile_index))

  answer-MovedVisit :
      (o : Option Layer) (r : ℕ) (key : MapTileKey) (s t : State tc)
      → t.store ≡ update s.store r (advanced s r)
      → (s.store r).next_tile_index < length (s.store r).tiles
      → MovedVisit s r (answer tc o r key t)
  unfolding answer write
  answer-MovedVisit none r key s t e lt =
      let here = ap (λ f. f r) e ∙ update_self s.store r (advanced s r) in
      let off : (n : ℕ) → (r == n) ≡ false → t.store n ≡ s.store n =
        λ n ne. ap (λ f. f n) e ∙ update_other s.store r n (advanced s r) ne in
      claim-MovedVisit r key s t
        (rewrite-MovesAll s.store t.store r _ off (put_back (s.store r) (t.store r) here))
  answer-MovedVisit (some layer) r key s t e lt =
      let here = ap (λ f. f r) e ∙ update_self s.store r (advanced s r) in
      let off : (n : ℕ) → (r == n) ≡ false → t.store n ≡ s.store n =
        λ n ne. ap (λ f. f n) e ∙ update_other s.store r n (advanced s r) ne in
      let q = notify_result (tc.layer_type layer) layer (t.store r) in
      let (moves, more) = settled (s.store r) (t.store r) (tc.layer_type layer) layer here in
      (
        rewrite-MovesAll s.store t.store r q off moves,
        (
          subst (λ (p : Request Layer). (s.store r).next_tile_index < p.next_tile_index)
              (sym (update_self t.store r q)) more,
          lt,
        ),
      )

  visit_layer-MovedVisit :
      (info : SourceInfo) (o : Option LayerType) (r : ℕ) (s : State tc)
      → MovedVisit s r (visit_layer tc info o r s)
  unfolding visit_layer take_tile write
  visit_layer-MovedVisit info none r s = λ n. (refl, omega arith)
  visit_layer-MovedVisit info (some type) r s =
      elim (Option-cases (get_elem? (s.store r).tiles (s.store r).next_tile_index)) [
        | inl e ↦ rw (e, visit_layer) (λ n. (refl, omega arith))
        | inr (tile, e) ↦
            rw (e, visit_layer)
              (answer-MovedVisit _ r _ s _ refl
                (get_elem?-some (s.store r).tiles (s.store r).next_tile_index e))
      ]

  pub visit-MovedVisit :
      (info : SourceInfo) (r : ℕ) (s : State tc) → MovedVisit s r (visit tc info r s)
  unfolding visit
  visit-MovedVisit info r s = elim (Bool-cases (text_eq (s.store r).map_id info.map_id)) [
    | inl e ↦ rw e (visit_layer-MovedVisit info _ r s)
    | inr e ↦ rw e (λ n. (refl, omega arith))
  ]
