-- ===== src/Controller/Total.antt =====
-- The repeated scan of nextJob ends.
use mapget.Base.{
  ℕ, zero, suc, ◌+◌, ◌<◌, ◌≤◌, ◌≡◌, ◌≢◌, Bool, true, false, List, [], ◌∷◌, ◌++◌, Option, none, some,
  refl, arith, append-nil, ap, Option-cases, inl, inr, append_assoc,
}
use mapget.Source.{SourceInfo}
use mapget.Controller.{
  TileCache, State, Job, Visit, passed, served, picked, visit, scan, job_loop, next_job, remaining,
  after_scan,
}
use mapget.Controller.Moves.{MovedVisit, remaining_mono, remaining-Uses, visit-MovedVisit}

module _ {Layer : Type 0} (tc : TileCache Layer) where
  -- A scan without a job hands out no fewer tiles, and more if it is the one that served some.
  abbrev Less : ℕ → Bool → State tc × Bool × Option Job → Type 0
  Less m hits (t, hits', some job) = Unit
  Less m true (t, hits', none) = remaining tc t.store t.requests ≤ m
  Less m false (t, true, none) = remaining tc t.store t.requests < m
  Less m false (t, false, none) = remaining tc t.store t.requests ≤ m

  Less-mono :
      (m n : ℕ) (hits : Bool) (o : State tc × Bool × Option Job)
      → m ≤ n
      → Less m hits o
      → Less n hits o
  Less-mono m n hits (t, hits', some job) le l = tt
  Less-mono m n true (t, hits', none) le l = omega arith
  Less-mono m n false (t, true, none) le l = omega arith
  Less-mono m n false (t, false, none) le l = omega arith

  Less-hit :
      (m n : ℕ) (hits : Bool) (o : State tc × Bool × Option Job)
      → m < n
      → Less m true o
      → Less n hits o
  Less-hit m n hits (t, hits', some job) lt l = tt
  Less-hit m n true (t, hits', none) lt l = omega arith
  Less-hit m n false (t, true, none) lt l = omega arith
  Less-hit m n false (t, false, none) lt l = omega arith

  scan-Less :
      (info : SourceInfo) (before rest : List ℕ) (hits : Bool) (s : State tc)
      → Less (remaining tc s.store (before ++ rest)) hits (scan tc info before rest hits s)
  unfolding scan
  scan-Less info before [] true s = omega (arith, ap (remaining tc s.store) (append-nil before))
  scan-Less info before [] false s = omega (arith, ap (remaining tc s.store) (append-nil before))
  scan-Less info before (r ∷ rest) hits s =
      after (λ (h : Bool). scan-Less info (before ++ (r ∷ [])) rest h) (visit tc info r s) refl
        (visit-MovedVisit tc info r s)
    where
      after :
          ((h : Bool) (t : State tc)
            → Less
                (remaining tc t.store ((before ++ (r ∷ [])) ++ rest))
                h
                (scan tc info (before ++ (r ∷ [])) rest h t))
          → (v : Visit Layer tc.Cache) → visit tc info r s ≡ v
          → MovedVisit tc s r v
          → Less
              (remaining tc s.store (before ++ (r ∷ rest)))
              hits
              (scan tc info before (r ∷ rest) hits s)
      after ih (passed t) e m =
          rw (e, scan)
            (Less-mono (remaining tc t.store ((before ++ (r ∷ [])) ++ rest)) _ hits _
              (omega (
                arith,
                ap (remaining tc t.store) (append_assoc before (r ∷ []) rest),
                remaining_mono tc s.store t.store (before ++ (r ∷ rest)) m,
              ))
              (ih hits t))
      after ih (served t) e m =
          rw (e, scan)
            (Less-hit (remaining tc t.store ((before ++ (r ∷ [])) ++ rest)) _ hits _
              (omega (
                arith,
                ap (remaining tc t.store) (append_assoc before (r ∷ []) rest),
                remaining-Uses tc s.store t.store before rest r m.0 m.1,
              ))
              (ih true t))
      after ih (picked key t) e m = rw (e, scan) tt

  job_loop-ne-none :
      (fuel : ℕ) (info : SourceInfo) (s : State tc)
      → remaining tc s.store s.requests < fuel
      → job_loop tc fuel info s ≢ none
  unfolding job_loop
  job_loop-ne-none zero info s lt = absurd (omega arith)
  job_loop-ne-none (suc fuel) info s lt =
      after (job_loop tc fuel info) (job_loop-ne-none fuel info)
        (scan tc info [] s.requests false s) (scan-Less info [] s.requests false s)
    where
      after :
          (again : State tc → Option (State tc × Option Job))
          → ((t : State tc) → remaining tc t.store t.requests < fuel → again t ≢ none)
          → (o : State tc × Bool × Option Job) → Less (remaining tc s.store s.requests) false o
          → after_scan tc again o ≢ none
      after again ih (t, hits, some job) l = unfold after_scan in λ e. cc
      after again ih (t, true, none) l = unfold after_scan in ih t (omega arith)
      after again ih (t, false, none) l = unfold after_scan in λ e. cc

  -- nextJob ends for every list of requests, cache and data source: each repetition of its outer
  -- loop has served a tile of a listed request, so the tiles that are left bound the repetitions.
  pub next_job-total :
      (info : SourceInfo) (s : State tc)
      → (t : State tc) × (result : Option Job) × (next_job tc info s ≡ some (t, result))
  unfolding next_job
  next_job-total info s =
      elim (Option-cases (job_loop tc (remaining tc s.store s.requests + 1) info s)) [
        | inl e ↦
            absurd (job_loop-ne-none (remaining tc s.store s.requests + 1) info s (omega arith) e)
        | inr ((t, result), e) ↦ (t, result, e)
      ]
