-- ===== src/Controller/Balance.antt =====
-- The accounts of every request: each tile that was handed out has a result or a job.
use mapget.Base.{
  ℕ, ◌+◌, ◌-◌, ◌<◌, ◌≤◌, ◌≡◌, false, List, [], ◌∷◌, Option, none, some, arith, ◌==◌, if◌then◌else◌,
  length, get_elem?, get_elem?-some, subst, sym, ap, Bool-cases, Option-cases, inl, inr,
}
use mapget.Base.Text.{text_eq}
use mapget.Key.{MapTileKey, LayerType}
use mapget.Request.{Request, notify_result}
use mapget.Request.Count.{notify_result-SameTask}
use mapget.Source.{SourceInfo}
use mapget.Controller.{
  TileCache, State, Job, Visit, passed, served, picked, contains, update, write, claim, take_tile,
  visit, answer, visit_layer,
}
use mapget.Controller.Keys.{Exclusive, Exclusive-free, Exclusive-insert, equals_self}

-- How many of the jobs are for request `r`.
abbrev pub count : ℕ → List Job → ℕ
count r [] = 0
count r ((k, n) ∷ js) = (if n == r then 1 else 0) + count r js

-- One request: the index of the next tile counts the results, the jobs and the results that were
-- lost, and is within the tiles.
pub record IsBalanced {Layer : Type 0} (q : Request Layer) (jobs lost : ℕ) : Type 0 where
  pub account : q.next_tile_index ≡ q.result_count + (jobs + lost)
  pub bound : q.next_tile_index ≤ length q.tiles

module _ {Layer : Type 0} (tc : TileCache Layer) (lost : List Job) where
  pub record IsGood (jobs : List Job) (s : State tc) : Type 0 where
    pub balanced : (r : ℕ) → IsBalanced (s.store r) (count r jobs) (count r lost)
    pub exclusive : Exclusive s.jobs_in_progress jobs

  -- What a visit makes of a good state.
  abbrev pub GoodVisit : List Job → ℕ → Visit Layer tc.Cache → Type 0
  GoodVisit jobs r (passed s) = IsGood jobs s
  GoodVisit jobs r (served s) = IsGood jobs s
  GoodVisit jobs r (picked key s) = IsGood ((key, r) ∷ jobs) s

  pub update-IsBalanced :
      (store : ℕ → Request Layer) (r : ℕ) (q : Request Layer) (jobs old : List Job)
      → ((n : ℕ) → IsBalanced (store n) (count n old) (count n lost))
      → IsBalanced q (count r jobs) (count r lost)
      → ((n : ℕ) → (r == n) ≡ false → count n jobs ≡ count n old)
      → (n : ℕ) → IsBalanced (update store r q n) (count n jobs) (count n lost)
  unfolding update
  update-IsBalanced store r q jobs old all one same n = elim (Bool-cases (r == n)) [
    | inl e ↦ rw e (subst (λ m. IsBalanced q (count m jobs) (count m lost)) (ground arith) one)
    | inr e ↦ rw e (subst (λ c. IsBalanced (store n) c (count n lost)) (sym (same n e)) (all n))
  ]

  -- The accounts with one tile of request `r` handed out and not yet entered as a job.
  abbrev Owing : List Job → MapTileKey → ℕ → State tc → Type 0
  Owing jobs key r s =
      ((n : ℕ) → IsBalanced (s.store n) (count n ((key, r) ∷ jobs)) (count n lost))
      × Exclusive s.jobs_in_progress jobs

  claim-GoodVisit :
      (jobs : List Job) (key : MapTileKey) (r : ℕ) (s : State tc)
      → Owing jobs key r s
      → GoodVisit jobs r (claim tc r key s)
  unfolding claim write
  claim-GoodVisit jobs key r s o = elim (Bool-cases (contains s.jobs_in_progress key)) [
    | inl busy ↦ rw busy (record {
      balanced =
          update-IsBalanced s.store r _ jobs ((key, r) ∷ jobs) o.0
            (give_back (s.store r) (count r jobs) (count r lost) (o.0 r)) (λ n e. ground arith);
      exclusive = o.1;
    })
    | inr free ↦ rw free (record {
      balanced = o.0;
      exclusive = (
        ground (arith, equals_self key),
        (
          Exclusive-free s.jobs_in_progress jobs key o.1 free,
          Exclusive-insert s.jobs_in_progress jobs key o.1,
        ),
      );
    })
  ]
    where
      give_back :
          (q : Request Layer) (jobs lost : ℕ)
          → IsBalanced q ((if r == r then 1 else 0) + jobs) lost
          → IsBalanced (record q { next_tile_index = q.next_tile_index - 1 }) jobs lost
      give_back q jobs lost b = ground arith

  serve-GoodVisit :
      (jobs : List Job) (key : MapTileKey) (r : ℕ) (s : State tc) (type : LayerType) (layer : Layer)
      → Owing jobs key r s
      → IsGood jobs (write tc s r (notify_result type layer (s.store r)))
  unfolding write
  serve-GoodVisit jobs key r s type layer o = record {
    balanced =
        update-IsBalanced s.store r _ jobs ((key, r) ∷ jobs) o.0
          (settle (s.store r) (count r jobs) (count r lost) (o.0 r)) (λ n e. ground arith);
    exclusive = o.1;
  }
    where
      settle :
          (q : Request Layer) (jobs lost : ℕ)
          → IsBalanced q ((if r == r then 1 else 0) + jobs) lost
          → IsBalanced (notify_result type layer q) jobs lost
      settle q jobs lost b =
          let (same, one) = notify_result-SameTask type layer q in
          record {
            account = ground (arith, same.next_tile_index);
            bound = omega (arith, same.next_tile_index, ap length same.tiles, b.bound);
          }

  hand_out :
      (jobs : List Job) (key : MapTileKey) (r : ℕ) (s : State tc)
      → IsGood jobs s
      → (s.store r).next_tile_index < length (s.store r).tiles
      → Owing jobs key r
          (write tc s r (record (s.store r) { next_tile_index = (s.store r).next_tile_index + 1 }))
  unfolding write
  hand_out jobs key r s g lt = (
    update-IsBalanced s.store r _ ((key, r) ∷ jobs) jobs g.balanced
        (record { account = ground (arith, (g.balanced r).account); bound = omega arith })
        (λ n e. ground arith),
    g.exclusive,
  )

  answer-GoodVisit :
      (o : Option Layer) (jobs : List Job) (key : MapTileKey) (r : ℕ) (s : State tc)
      → Owing jobs key r s
      → GoodVisit jobs r (answer tc o r key s)
  unfolding answer
  answer-GoodVisit none jobs key r s owing = claim-GoodVisit jobs key r s owing
  answer-GoodVisit (some layer) jobs key r s owing =
      serve-GoodVisit jobs key r s (tc.layer_type layer) layer owing

  take_tile-GoodVisit :
      (info : SourceInfo) (jobs : List Job) (key : MapTileKey) (r : ℕ) (s : State tc)
      → IsGood jobs s
      → (s.store r).next_tile_index < length (s.store r).tiles
      → GoodVisit jobs r (take_tile tc info r key s)
  unfolding take_tile
  take_tile-GoodVisit info jobs key r s g lt =
      let q = s.store r in
      let s1 = write tc s r (record q { next_tile_index = q.next_tile_index + 1 }) in
      let found = tc.get_tile_layer s1.cache key info in
      answer-GoodVisit found.0 jobs key r (record s1 { cache = found.1 })
        (hand_out jobs key r s g lt)

  visit_layer-GoodVisit :
      (info : SourceInfo) (o : Option LayerType) (jobs : List Job) (r : ℕ) (s : State tc)
      → IsGood jobs s
      → GoodVisit jobs r (visit_layer tc info o r s)
  unfolding visit_layer
  visit_layer-GoodVisit info none jobs r s g = g
  visit_layer-GoodVisit info (some type) jobs r s g =
      elim (Option-cases (get_elem? (s.store r).tiles (s.store r).next_tile_index)) [
        | inl e ↦ rw (e, visit_layer) g
        | inr (tile, e) ↦
            rw (e, visit_layer)
              (take_tile-GoodVisit info jobs _ r s g
                (get_elem?-some (s.store r).tiles (s.store r).next_tile_index e))
      ]

  -- A visit keeps the accounts: a job that it picks is entered, and its tile was free.
  pub visit-GoodVisit :
      (info : SourceInfo) (jobs : List Job) (r : ℕ) (s : State tc)
      → IsGood jobs s
      → GoodVisit jobs r (visit tc info r s)
  unfolding visit
  visit-GoodVisit info jobs r s g = elim (Bool-cases (text_eq (s.store r).map_id info.map_id)) [
    | inl e ↦ rw e (visit_layer-GoodVisit info _ jobs r s g)
    | inr e ↦ rw e g
  ]
