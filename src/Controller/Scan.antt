-- ===== src/Controller/Scan.antt =====
-- nextJob keeps the accounts, whatever requests, cache and data source it meets.
use mapget.Base.{
  ℕ, zero, suc, ◌+◌, ◌≡◌, Bool, true, false, List, [], ◌∷◌, ◌++◌, Option, none, some, refl, subst,
}
use mapget.Source.{SourceInfo}
use mapget.Controller.{
  TileCache, State, Job, Visit, passed, served, picked, visit, scan, clean_up, after_scan, job_loop,
  next_job, remaining,
}
use mapget.Controller.Balance.{IsGood, GoodVisit, visit-GoodVisit}

-- The jobs, with the one that was picked.
abbrev pub with_job : Option Job → List Job → List Job
with_job none jobs = jobs
with_job (some job) jobs = job ∷ jobs

module _ {Layer : Type 0} (tc : TileCache Layer) (lost : List Job) (info : SourceInfo)
    (jobs : List Job) where
  abbrev GoodScan : State tc × Bool × Option Job → Type 0
  GoodScan (s, hits, result) = IsGood tc lost (with_job result jobs) s

  IsGood-requests :
      (js : List Job) (s : State tc) (rs : List ℕ)
      → IsGood tc lost js s
      → IsGood tc lost js (record s { requests = rs })
  IsGood-requests js s rs g = record { balanced = g.balanced; exclusive = g.exclusive }

  scan-IsGood :
      (before rest : List ℕ) (hits : Bool) (s : State tc)
      → IsGood tc lost jobs s
      → GoodScan (scan tc info before rest hits s)
  unfolding scan
  scan-IsGood before [] hits s g = IsGood-requests jobs s before g
  scan-IsGood before (r ∷ rest) hits s g =
      after (λ (h : Bool). scan-IsGood (before ++ (r ∷ [])) rest h) (visit tc info r s) refl
        (visit-GoodVisit tc lost info jobs r s g)
    where
      after :
          ((h : Bool) (t : State tc)
            → IsGood tc lost jobs t
            → GoodScan (scan tc info (before ++ (r ∷ [])) rest h t))
          → (v : Visit Layer tc.Cache) → visit tc info r s ≡ v
          → GoodVisit tc lost jobs r v
          → GoodScan (scan tc info before (r ∷ rest) hits s)
      after ih (passed t) e gv = rw (e, scan) (ih hits t gv)
      after ih (served t) e gv = rw (e, scan) (ih true t gv)
      after ih (picked key t) e gv =
          rw (e, scan) (IsGood-requests ((key, r) ∷ jobs) t (before ++ (rest ++ (r ∷ []))) gv)

  abbrev GoodResult : Option (State tc × Option Job) → Type 0
  GoodResult none = Unit
  GoodResult (some (s, result)) = IsGood tc lost (with_job result jobs) s

  after_scan-GoodResult :
      (again : State tc → Option (State tc × Option Job))
      → ((t : State tc) → IsGood tc lost jobs t → GoodResult (again t))
      → (o : State tc × Bool × Option Job) → GoodScan o
      → GoodResult (after_scan tc again o)
  unfolding after_scan clean_up
  after_scan-GoodResult again ih (t, hits, some job) g = IsGood-requests (job ∷ jobs) t _ g
  after_scan-GoodResult again ih (t, true, none) g = ih t g
  after_scan-GoodResult again ih (t, false, none) g = IsGood-requests jobs t _ g

  job_loop-GoodResult :
      (fuel : ℕ) (s : State tc) → IsGood tc lost jobs s → GoodResult (job_loop tc fuel info s)
  unfolding job_loop
  job_loop-GoodResult zero s g = tt
  job_loop-GoodResult (suc fuel) s g =
      after_scan-GoodResult (job_loop tc fuel info) (job_loop-GoodResult fuel)
        (scan tc info [] s.requests false s) (scan-IsGood [] s.requests false s g)

  -- After nextJob every tile that was handed out has a result or a job, with the new job if there is
  -- one, and the new job's key is in progress and belongs to no other job.
  pub next_job-IsGood :
      (s t : State tc) (result : Option Job)
      → IsGood tc lost jobs s
      → next_job tc info s ≡ some (t, result)
      → IsGood tc lost (with_job result jobs) t
  unfolding next_job
  next_job-IsGood s t result g e =
      subst GoodResult e (job_loop-GoodResult (remaining tc s.store s.requests + 1) s g)
