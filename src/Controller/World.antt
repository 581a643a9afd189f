-- ===== src/Controller/World.antt =====
-- The controller with its workers and clients: any interleaving of the steps that happen under
-- jobsMutex_, and of the storing of layers, which happens without it. `running` are the jobs that
-- workers have in hand, `failed` those that an exception ended while their key was in progress, and
-- `undelivered` those that the callback for their layer ended after that. A callback that throws in
-- nextJob ends the program, and one that throws in a client's call leaves what the call has done.
use mapget.Base.{ℕ, ◌≡◌, List, ◌∷◌, ◌++◌, none, some}
use mapget.Source.{SourceInfo}
use mapget.Controller.{
  TileCache, State, Job, next_job, complete_job, fail_job, put_layer, lose_job, add_request,
  abort_request,
}

module _ {Layer : Type 0} (tc : TileCache Layer) where
  pub record World : Type 0 where
    pub controller : State tc
    pub running : List Job
    pub failed : List Job
    pub undelivered : List Job

  pub data Step (w : World) : World → Type 0 where
    -- A free worker of a data source gets a job, or none.
    start :
        (info : SourceInfo) (c : State tc) (job : Job)
        → next_job tc info w.controller ≡ some (c, some job)
        → Step w (record w { controller = c; running = job ∷ w.running })
    idle :
        (info : SourceInfo) (c : State tc)
        → next_job tc info w.controller ≡ some (c, none)
        → Step w (record w { controller = c })
    -- A worker puts a layer in the cache, with its job still in hand.
    put :
        (as' : List Job) (job : Job) (bs : List Job) (layer : Layer)
        → w.running ≡ as' ++ (job ∷ bs)
        → Step w (record w { controller = put_layer tc layer w.controller })
    -- A worker has put the layer of its job, and hands it over; onDone_ may throw at the very end.
    complete :
        (as' : List Job) (job : Job) (bs : List Job) (layer : Layer)
        → w.running ≡ as' ++ (job ∷ bs)
        → Step w
            (record w { controller = complete_job tc layer job w.controller; running = as' ++ bs })
    -- A worker hands the layer over, and the callback for it throws.
    lose :
        (as' : List Job) (job : Job) (bs : List Job)
        → w.running ≡ as' ++ (job ∷ bs)
        → Step w (record w {
          controller = lose_job tc job w.controller;
          running = as' ++ bs;
          undelivered = job ∷ w.undelivered;
        })
    -- The data source, the add-ons or the cache threw.
    fail :
        (as' : List Job) (job : Job) (bs : List Job)
        → w.running ≡ as' ++ (job ∷ bs)
        → Step w (record w {
          controller = fail_job tc job w.controller;
          running = as' ++ bs;
          failed = job ∷ w.failed;
        })
    -- A client adds a request or aborts one.
    add : (r : ℕ) → Step w (record w { controller = add_request tc r w.controller })
    abort : (r : ℕ) → Step w (record w { controller = abort_request tc r w.controller })

  pub data Reach (w : World) : World → Type 0 where
    here : Reach w w
    next : {u v : World} → Reach w u → Step u v → Reach w v
