-- ===== src/Controller/Tests.antt =====
-- Runs of the controller with a concrete cache of tiles. A layer is the id of its tile.
use mapget.Base.{
  ℕ, ◌+◌, ◌<◌, ◌≤◌, ◌≡◌, true, false, List, [], ◌∷◌, Option, some, none, refl, length, ◌==◌,
  if◌then◌else◌, any,
}
use mapget.Base.Text.{codes, text_eq}
use mapget.Key.{MapTileKey, features, equals}
use mapget.Request.{Request, RequestStatus}
use mapget.Source.{SourceInfo, find_layer}
use mapget.Controller.{
  TileCache, State, Job, contains, update, write, claim, answer, take_tile, visit_layer, visit,
  scan, clean_up, after_scan, job_loop, remaining, next_job, complete_job, fail_job, add_request,
}
use mapget.Controller.Balance.{count}
use mapget.Controller.Total.{next_job-total}
use mapget.Controller.World.{World, start, complete, fail, add, Reach, here, next}
use mapget.Controller.Invariant.{IsFresh}
use mapget.Controller.Outcome.{Reach-accounts, running-distinct, failed-forever}

abbrev tile_cache : TileCache ℕ
tile_cache = record {
  Cache = List ℕ;
  get_tile_layer = λ cache key info.
      (if any (λ t. t == key.tile_id) cache then some key.tile_id else none, cache);
  put_tile_layer = λ cache t. t ∷ cache;
  layer_type = λ t. features;
}

abbrev info : SourceInfo
info = record {
  node_id = codes "n";
  map_id = codes "M";
  layers = (codes "L", features) ∷ [];
  max_parallel_jobs = 2;
  is_add_on = false;
}

-- Every number is a request for the tiles 5, 6 and 5 again.
abbrev request : Request ℕ
request = record {
  map_id = codes "M";
  layer_id = codes "L";
  tiles = 5 ∷ 6 ∷ 5 ∷ [];
  on_feature_layer = true;
  on_source_data_layer = false;
  on_done = true;
  next_tile_index = 0;
  result_count = 0;
  status = RequestStatus.open_;
  delivered = [];
  done_calls = [];
}

abbrev key_of : ℕ → MapTileKey
key_of t = record { layer = features; map_id = codes "M"; layer_id = codes "L"; tile_id = t }

abbrev quiet : State tile_cache
quiet = record { store = λ n. request; requests = []; jobs_in_progress = []; cache = [] }

abbrev fresh : World tile_cache
fresh = record { controller = quiet; running = []; failed = []; undelivered = [] }

fresh-IsFresh : IsFresh tile_cache fresh
fresh-IsFresh = record {
  next_tile_index = λ r. refl;
  result_count = λ r. refl;
  running = refl;
  failed = refl;
  undelivered = refl;
}

-- The state that nextJob leaves.
left : State tile_cache → State tile_cache
left s = elim (next_job tile_cache info s) [ none ↦ s | some (t, _) ↦ t ]

abbrev asked : State tile_cache
asked = add_request tile_cache 0 quiet

-- Two workers have the tiles 5 and 6, and the second 5 is left for later.
abbrev busy : World tile_cache
busy = record {
  controller = left (left asked);
  running = (key_of 6, 0) ∷ (key_of 5, 0) ∷ [];
  failed = [];
  undelivered = [];
}

job_5 : next_job tile_cache info asked ≡ some (left asked, some (key_of 5, 0))
unfolding left add_request next_job job_loop after_scan clean_up scan visit visit_layer take_tile
    answer claim write update find_layer text_eq equals remaining
job_5 = refl

job_6 : next_job tile_cache info (left asked) ≡ some (left (left asked), some (key_of 6, 0))
unfolding left add_request next_job job_loop after_scan clean_up scan visit visit_layer take_tile
    answer claim write update find_layer text_eq equals remaining
job_6 = refl

busy-Reach : Reach tile_cache fresh busy
busy-Reach =
    next (next (next here (add 0)) (start info (left asked) (key_of 5, 0) job_5))
      (start info (left (left asked)) (key_of 6, 0) job_6)

-- The job for the tile 5 fails.
abbrev broken : World tile_cache
broken = record {
  controller = fail_job tile_cache (key_of 5, 0) (left (left asked));
  running = (key_of 6, 0) ∷ [];
  failed = (key_of 5, 0) ∷ [];
  undelivered = [];
}

broken-Reach : Reach tile_cache fresh broken
broken-Reach = next busy-Reach (fail ((key_of 6, 0) ∷ []) (key_of 5, 0) [] refl)

-- The other job is done, which is all that comes of the request.
abbrev over : World tile_cache
over = record {
  controller = complete_job tile_cache 6 (key_of 6, 0) broken.controller;
  running = [];
  failed = (key_of 5, 0) ∷ [];
  undelivered = [];
}

over-Reach : Reach tile_cache broken over
over-Reach = next here (complete [] (key_of 6, 0) [] 6 refl)

Reach-accounts_example :
    ((busy.controller.store 0).next_tile_index
      ≡ (busy.controller.store 0).result_count
        + (count 0 busy.running + (count 0 busy.failed + count 0 busy.undelivered)))
    × ((busy.controller.store 0).next_tile_index ≤ length (busy.controller.store 0).tiles)
Reach-accounts_example = Reach-accounts tile_cache fresh busy 0 fresh-IsFresh busy-Reach

running-distinct_example :
    (equals (key_of 6) (key_of 5) ≡ false)
    × (contains busy.controller.jobs_in_progress (key_of 6) ≡ true)
    × (contains busy.controller.jobs_in_progress (key_of 5) ≡ true)
running-distinct_example =
    running-distinct tile_cache fresh busy [] [] [] (key_of 6, 0) (key_of 5, 0) fresh-IsFresh
      busy-Reach refl

failed-forever_example :
    (contains over.controller.jobs_in_progress (key_of 5) ≡ true)
    × (any (λ (j : Job). equals j.0 (key_of 5)) over.running ≡ false)
    × ((over.controller.store 0).result_count < length (over.controller.store 0).tiles)
failed-forever_example =
    failed-forever tile_cache fresh broken over [] [] (key_of 5) 0 fresh-IsFresh broken-Reach refl
      over-Reach

next_job-total_example :
    (t : State tile_cache) × (result : Option Job) × (next_job tile_cache info asked
      ≡ some (t, result))
next_job-total_example = next_job-total tile_cache info asked
