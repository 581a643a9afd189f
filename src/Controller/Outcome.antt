-- ===== src/Controller/Outcome.antt =====
-- What the interleavings mean for requests and jobs.
use mapget.Base.{
  ℕ, ◌+◌, ◌<◌, ◌≤◌, ◌≡◌, true, false, List, [], ◌∷◌, ◌++◌, refl, arith, subst, sym, append_assoc,
  length, any, ap, ◌∙◌,
}
use mapget.Key.{MapTileKey, equals}
use mapget.Controller.{TileCache, Job, contains}
use mapget.Controller.Keys.{Exclusive, equals-sym}
use mapget.Controller.Balance.{count}
use mapget.Controller.Exclusive.{
  has_key-middle, has_key-right, Exclusive-rest, count-middle, count-append,
}
use mapget.Controller.World.{
  World, Step, start, idle, complete, put, lose, fail, add, abort, Reach, here, next,
}
use mapget.Controller.Invariant.{IsFresh, fresh-Accounts, Reach-Accounts}

module _ {Layer : Type 0} (tc : TileCache Layer) where
  -- In every world that workers and clients reach from unworked requests, the tiles that a request
  -- has handed out are those with a result, those a worker has in hand, those whose job failed and
  -- those whose layer was lost when the request's callback threw, and there are never more of them
  -- than the request has.
  pub Reach-accounts :
      (w v : World tc) (r : ℕ)
      → IsFresh tc w
      → Reach tc w v
      → ((v.controller.store r).next_tile_index
          ≡ (v.controller.store r).result_count
            + (count r v.running + (count r v.failed + count r v.undelivered)))
        × ((v.controller.store r).next_tile_index ≤ length (v.controller.store r).tiles)
  Reach-accounts w v r f path =
      let b = (fresh-Accounts tc f path).balanced r in
      (omega (arith, b.account, count-append r v.failed v.running), b.bound)

  -- Two jobs that workers have in hand at the same time are for different tiles, and both tiles are
  -- in the set of the jobs in progress.
  pub running-distinct :
      (w v : World tc) (as' bs cs : List Job) (i j : Job)
      → IsFresh tc w
      → Reach tc w v
      → v.running ≡ as' ++ (i ∷ (bs ++ (j ∷ cs)))
      → (equals i.0 j.0 ≡ false)
        × (contains v.controller.jobs_in_progress i.0 ≡ true)
        × (contains v.controller.jobs_in_progress j.0 ≡ true)
  running-distinct w v as' bs cs i j f path e =
      let busy = v.controller.jobs_in_progress in
      let all = Exclusive-rest busy v.failed v.running (fresh-Accounts tc f path).exclusive in
      let (first, (apart, others)) =
        Exclusive-rest busy as' (i ∷ (bs ++ (j ∷ cs))) (subst (Exclusive busy) e all) in
      (
        equals-sym i.0 j.0 ∙ (has_key-middle i.0 bs j cs apart).0,
        first,
        (Exclusive-rest busy bs (j ∷ cs) others).0,
      )

  -- Failed jobs stay.
  Step-failed : {w v : World tc} → Step tc w v → (js : List Job) × (v.failed ≡ js ++ w.failed)
  Step-failed (start info c job e) = ([], refl)
  Step-failed (idle info c e) = ([], refl)
  Step-failed (complete as' job bs layer e) = ([], refl)
  Step-failed (fail as' job bs e) = (job ∷ [], refl)
  Step-failed (put as' job bs layer e) = ([], refl)
  Step-failed (lose as' job bs e) = ([], refl)
  Step-failed (add r) = ([], refl)
  Step-failed (abort r) = ([], refl)

  Reach-failed : {w v : World tc} → Reach tc w v → (js : List Job) × (v.failed ≡ js ++ w.failed)
  Reach-failed here = ([], refl)
  Reach-failed (next path step) =
      let (js, e) = Reach-failed path in
      let (ks, e') = Step-failed step in (ks ++ js, rw (e', e) (sym (append_assoc ks js _)))

  -- Once a job has failed, that is, by an exception before the layer is handed over, its tile stays in the set of the jobs in progress, no worker ever has a
  -- job for it again, and its request never has all its results.
  pub failed-forever :
      (w v u : World tc) (as' bs : List Job) (key : MapTileKey) (r : ℕ)
      → IsFresh tc w
      → Reach tc w v
      → v.failed ≡ as' ++ ((key, r) ∷ bs)
      → Reach tc v u
      → (contains u.controller.jobs_in_progress key ≡ true)
        × (any (λ (j : Job). equals j.0 key) u.running ≡ false)
        × ((u.controller.store r).result_count < length (u.controller.store r).tiles)
  failed-forever w v u as' bs key r f path e later =
      let (js, e') = Reach-failed later in
      let good = Reach-Accounts tc later (fresh-Accounts tc f path) in
      let busy = u.controller.jobs_in_progress in
      let jobs : u.failed ++ u.running ≡ (js ++ as') ++ ((key, r) ∷ (bs ++ u.running)) =
        rejoin js e' in
      let (there, (apart, others)) =
        Exclusive-rest busy (js ++ as') ((key, r) ∷ (bs ++ u.running))
          (subst (Exclusive busy) jobs good.exclusive) in
      let b = good.balanced r in
      (
        there,
        has_key-right key bs u.running apart,
        ground (
          arith,
          b.account,
          b.bound,
          ap (count r) jobs,
          count-middle r (js ++ as') (key, r) (bs ++ u.running),
        ),
      )
    where
      rejoin :
          (js : List Job)
          → u.failed ≡ js ++ v.failed
          → u.failed ++ u.running ≡ (js ++ as') ++ ((key, r) ∷ (bs ++ u.running))
      rejoin js e' = rw (e', e) (simp append_assoc)
