-- ===== src/Controller/Invariant.antt =====
-- What every interleaving of workers and clients keeps.
use mapget.Base.{
  ℕ, ◌+◌, ◌≡◌, List, [], ◌∷◌, ◌++◌, refl, arith, subst, sym, append_assoc, Bool-cases, inl, inr,
  ◌==◌, length, any, none, some, ap,
}
use mapget.Request.{Request, is_done, aborted}
use mapget.Request.Count.{
  SameTask, notify_result-SameTask, set_status-SameTask, notify_status-SameTask,
}
use mapget.Controller.{
  TileCache, State, Job, write, complete_job, fail_job, put_layer, lose_job, add_request,
  abort_request,
}
use mapget.Controller.Balance.{count, IsBalanced, IsGood, update-IsBalanced}
use mapget.Controller.Scan.{next_job-IsGood}
use mapget.Controller.Exclusive.{
  Exclusive-to_front, Exclusive-to_middle, Exclusive-done, count-middle,
}
use mapget.Controller.World.{
  World, Step, start, idle, complete, put, lose, fail, add, abort, Reach, here, next,
}

module _ {Layer : Type 0} (tc : TileCache Layer) where
  -- A request that nobody has worked on.
  pub record IsFresh (w : World tc) : Type 0 where
    pub next_tile_index : (r : ℕ) → (w.controller.store r).next_tile_index ≡ 0
    pub result_count : (r : ℕ) → (w.controller.store r).result_count ≡ 0
    pub running : w.running ≡ []
    pub failed : w.failed ≡ []
    pub undelivered : w.undelivered ≡ []

  abbrev pub Accounts : World tc → Type 0
  Accounts w = IsGood tc w.undelivered (w.failed ++ w.running) w.controller

  module _ (lost : List Job) where
    -- A change to one request that its accounts do not show.
    write-IsGood :
        (jobs : List Job) (s : State tc) (r : ℕ) (q : Request Layer)
        → SameTask (s.store r) q
        → q.result_count ≡ (s.store r).result_count
        → IsGood tc lost jobs s
        → IsGood tc lost jobs (write tc s r q)
    unfolding write
    write-IsGood jobs s r q same n g = record {
      balanced =
          update-IsBalanced tc lost s.store r q jobs jobs g.balanced (keep (g.balanced r))
            (λ n e. refl);
      exclusive = g.exclusive;
    }
      where
        keep :
            IsBalanced (s.store r) (count r jobs) (count r lost)
            → IsBalanced q (count r jobs) (count r lost)
        keep b = record {
          account = omega (arith, same.next_tile_index, n, b.account);
          bound = omega (arith, same.next_tile_index, ap length same.tiles, b.bound);
        }

    add_request-IsGood :
        (jobs : List Job) (r : ℕ) (s : State tc)
        → IsGood tc lost jobs s
        → IsGood tc lost jobs (add_request tc r s)
    unfolding add_request
    add_request-IsGood jobs r s g =
        let (same, n) = notify_status-SameTask (s.store r) in
        elim (Bool-cases (is_done (s.store r))) [
          | inl e ↦ rw e (write-IsGood jobs s r _ same n g)
          | inr e ↦ rw e (record { balanced = g.balanced; exclusive = g.exclusive })
        ]

    abort_request-IsGood :
        (jobs : List Job) (r : ℕ) (s : State tc)
        → IsGood tc lost jobs s
        → IsGood tc lost jobs (abort_request tc r s)
    unfolding abort_request
    abort_request-IsGood jobs r s g =
        let (same, n, _) = set_status-SameTask aborted (s.store r) in
        let s' = record s { requests = _ } in
        elim (Bool-cases (any (λ n. n == r) s.requests)) [
          | inl e ↦ rw e (
              write-IsGood jobs s' r _ same n
                (record { balanced = g.balanced; exclusive = g.exclusive }))
          | inr e ↦ rw e (record { balanced = g.balanced; exclusive = g.exclusive })
        ]

    -- A job that is done leaves, and its request has a result more.
    complete_job-IsGood :
        (layer : Layer) (as' : List Job) (job : Job) (bs : List Job) (s : State tc)
        → IsGood tc lost (as' ++ (job ∷ bs)) s
        → IsGood tc lost (as' ++ bs) (complete_job tc layer job s)
    unfolding complete_job write
    complete_job-IsGood layer as' (key, r) bs s g =
        let (same, n) = notify_result-SameTask (tc.layer_type layer) layer (s.store r) in
        record {
          balanced =
              update-IsBalanced tc lost s.store r _ (as' ++ bs) (as' ++ ((key, r) ∷ bs)) g.balanced
                (settle _ same n (g.balanced r))
                (λ n e. ground (arith, count-middle n as' (key, r) bs));
          exclusive = Exclusive-done s.jobs_in_progress as' key r bs g.exclusive;
        }
      where
        settle :
            (q : Request Layer)
            → SameTask (s.store r) q
            → q.result_count ≡ (s.store r).result_count + 1
            → IsBalanced (s.store r) (count r (as' ++ ((key, r) ∷ bs))) (count r lost)
            → IsBalanced q (count r (as' ++ bs)) (count r lost)
        settle q same n b = record {
          account =
              ground (arith, same.next_tile_index, n, b.account, count-middle r as' (key, r) bs);
          bound = omega (arith, same.next_tile_index, ap length same.tiles, b.bound);
        }

    -- Jobs in another order.
    to_middle-IsGood :
        (as' : List Job) (job : Job) (bs : List Job) (s : State tc)
        → IsGood tc lost (job ∷ (as' ++ bs)) s
        → IsGood tc lost (as' ++ (job ∷ bs)) s
    to_middle-IsGood as' job bs s g = record {
      balanced = λ n.
          subst (λ c. IsBalanced (s.store n) c (count n lost)) (sym (count-middle n as' job bs))
            (g.balanced n);
      exclusive = Exclusive-to_middle s.jobs_in_progress as' job bs g.exclusive;
    }

    to_front-IsGood :
        (as' : List Job) (job : Job) (bs : List Job) (s : State tc)
        → IsGood tc lost (as' ++ (job ∷ bs)) s
        → IsGood tc lost (job ∷ (as' ++ bs)) s
    to_front-IsGood as' job bs s g = record {
      balanced = λ n.
          subst (λ c. IsBalanced (s.store n) c (count n lost)) (count-middle n as' job bs)
            (g.balanced n);
      exclusive = Exclusive-to_front s.jobs_in_progress as' job bs g.exclusive;
    }

  -- A job whose result was lost, since the callback of its request threw, leaves too.
  lose_job-IsGood :
      (lost as' : List Job) (job : Job) (bs : List Job) (s : State tc)
      → IsGood tc lost (as' ++ (job ∷ bs)) s
      → IsGood tc (job ∷ lost) (as' ++ bs) (lose_job tc job s)
  unfolding lose_job
  lose_job-IsGood lost as' (key, r) bs s g = record {
    balanced = λ n. record {
      account = ground (arith, (g.balanced n).account, count-middle n as' (key, r) bs);
      bound = (g.balanced n).bound;
    };
    exclusive = Exclusive-done s.jobs_in_progress as' key r bs g.exclusive;
  }

  -- The job in hand among all the jobs.
  split_jobs :
      (w : World tc) (as' : List Job) (job : Job) (bs : List Job)
      → w.running ≡ as' ++ (job ∷ bs)
      → Accounts w
      → IsGood tc w.undelivered ((w.failed ++ as') ++ (job ∷ bs)) w.controller
  split_jobs w as' job bs e g =
      subst (λ js. IsGood tc w.undelivered js w.controller)
        (sym (append_assoc w.failed as' (job ∷ bs)))
        (subst (λ js. IsGood tc w.undelivered (w.failed ++ js) w.controller) e g)

  Step-Accounts : {w v : World tc} → Step tc w v → Accounts w → Accounts v
  unfolding fail_job put_layer
  Step-Accounts {w} (start info c job e) g =
      to_middle-IsGood w.undelivered w.failed job w.running c (
        next_job-IsGood tc w.undelivered info (w.failed ++ w.running) w.controller c (some job) g e)
  Step-Accounts {w} (idle info c e) g =
      next_job-IsGood tc w.undelivered info (w.failed ++ w.running) w.controller c none g e
  Step-Accounts {w} (complete as' job bs layer e) g =
      subst (λ js. IsGood tc w.undelivered js (complete_job tc layer job w.controller))
        (append_assoc w.failed as' bs)
        (complete_job-IsGood w.undelivered layer (w.failed ++ as') job bs w.controller
          (split_jobs w as' job bs e g))
  Step-Accounts {w} (fail as' job bs e) g =
      subst (λ js. IsGood tc w.undelivered (job ∷ js) w.controller) (append_assoc w.failed as' bs)
        (to_front-IsGood w.undelivered (w.failed ++ as') job bs w.controller
          (split_jobs w as' job bs e g))
  Step-Accounts {w} (put as' job bs layer e) g = record {
    balanced = g.balanced;
    exclusive = g.exclusive;
  }
  Step-Accounts {w} (lose as' job bs e) g =
      subst (λ js. IsGood tc (job ∷ w.undelivered) js (lose_job tc job w.controller))
        (append_assoc w.failed as' bs)
        (lose_job-IsGood w.undelivered (w.failed ++ as') job bs w.controller
          (split_jobs w as' job bs e g))
  Step-Accounts {w} (add r) g = add_request-IsGood w.undelivered _ r w.controller g
  Step-Accounts {w} (abort r) g = abort_request-IsGood w.undelivered _ r w.controller g

  pub Reach-Accounts : {w v : World tc} → Reach tc w v → Accounts w → Accounts v
  Reach-Accounts here g = g
  Reach-Accounts (next path step) g = Step-Accounts step (Reach-Accounts path g)

  IsFresh-Accounts : (w : World tc) → IsFresh w → Accounts w
  IsFresh-Accounts w f =
      subst (λ js. IsGood tc w.undelivered js w.controller) (sym no_jobs)
        (subst (λ lost. IsGood tc lost [] w.controller) (sym f.undelivered)
          (record {
            balanced = λ r. record {
              account = omega (arith, f.next_tile_index r, f.result_count r);
              bound = omega (arith, f.next_tile_index r);
            };
            exclusive = tt;
          }))
    where
      no_jobs : w.failed ++ w.running ≡ []
      no_jobs = rw (f.failed, f.running) refl

  pub fresh-Accounts : {w v : World tc} → IsFresh w → Reach tc w v → Accounts v
  fresh-Accounts {w} f path = Reach-Accounts path (IsFresh-Accounts w f)
