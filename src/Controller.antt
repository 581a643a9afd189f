-- ===== src/Controller.antt =====
-- libs/service: Service::Controller, Service::Worker and the request handling of Service::Impl, in
-- src/service.cpp. Each function is what happens under jobsMutex_ in one go. Requests are shared
-- objects: the list and the jobs hold their numbers, and `store` has their contents.
pub mod Keys
pub mod Balance
pub mod Scan
pub mod Moves
pub mod Total
pub mod World
pub mod Exclusive
pub mod Invariant
pub mod Outcome
pub mod Queue
pub mod Tests
use mapget.Base.{
  ℕ, zero, suc, ◌+◌, ◌-◌, Bool, true, false, ◌&&◌, List, [], ◌∷◌, ◌++◌, Option, none, some, ◌==◌,
  not, if◌then◌else◌, length, get_elem?, filter, any,
}
use mapget.Base.Text.{Text, text_eq}
use mapget.Key.{MapTileKey, LayerType, equals}
use mapget.Request.{
  Request, RequestStatus, aborted, is_done, notify_status, set_status, notify_result,
}
use mapget.Source.{SourceInfo, find_layer}

-- The tile cache that the controller owns, and the type of a layer's info. A lookup may change the
-- cache; one that throws is left out.
pub record TileCache (Layer : Type 0) : Type 1 where
  pub Cache : Type 0
  pub get_tile_layer : Cache → MapTileKey → SourceInfo → Option Layer × Cache
  pub put_tile_layer : Cache → Layer → Cache
  pub layer_type : Layer → LayerType

-- std::set<MapTileKey>
abbrev pub contains : List MapTileKey → MapTileKey → Bool
contains keys k = any (λ j. equals j k) keys

pub erase : List MapTileKey → MapTileKey → List MapTileKey
erase keys k = filter (λ j. not (equals j k)) keys

-- A write to the request that a pointer leads to.
pub update : {A : Type 0} → (ℕ → A) → ℕ → A → ℕ → A
update store r q n = if r == n then q else store n

pub record Controller (Layer Cache : Type 0) : Type 0 where
  pub store : ℕ → Request Layer
  pub requests : List ℕ
  pub jobs_in_progress : List MapTileKey
  pub cache : Cache

abbrev pub Job : Type 0
Job = MapTileKey × ℕ

-- What one request comes to in the loop of nextJob: nothing, a tile served from the cache, or a job.
pub data Visit (Layer Cache : Type 0) : Type 0 where
  passed served : Controller Layer Cache → Visit Layer Cache
  picked : MapTileKey → Controller Layer Cache → Visit Layer Cache

module _ {Layer : Type 0} (tc : TileCache Layer) where
  abbrev pub State : Type 0
  State = Controller Layer tc.Cache

  pub write : State → ℕ → Request Layer → State
  write s r q = record s { store = update s.store r q }

  -- The tile is not in the cache: it is left for later if it is being worked on.
  claim : ℕ → MapTileKey → State → Visit Layer tc.Cache
  claim r key s =
      if contains s.jobs_in_progress key
      then passed
          (write s r (record (s.store r) { next_tile_index = (s.store r).next_tile_index - 1 }))
      else picked key (record s { jobs_in_progress = key ∷ s.jobs_in_progress })

  -- What the cache lookup found.
  answer : Option Layer → ℕ → MapTileKey → State → Visit Layer tc.Cache
  answer (some layer) r key s =
      served (write s r (notify_result (tc.layer_type layer) layer (s.store r)))
  answer none r key s = claim r key s

  -- The next tile of a request: from the cache, or by a job.
  take_tile : SourceInfo → ℕ → MapTileKey → State → Visit Layer tc.Cache
  take_tile info r key s =
      let q = s.store r in
      let s1 = write s r (record q { next_tile_index = q.next_tile_index + 1 }) in
      let (found, cache) = tc.get_tile_layer s1.cache key info in
      answer found r key (record s1 { cache = cache })

  -- A request for a layer of the data source: are there tiles left to be processed?
  visit_layer : SourceInfo → Option LayerType → ℕ → State → Visit Layer tc.Cache
  visit_layer info none r s = passed s
  visit_layer info (some type) r s =
      let q = s.store r in
      elim (get_elem? q.tiles q.next_tile_index) [
        | none ↦ passed s
        | some tile ↦
            take_tile info r
              (record { layer = type; map_id = q.map_id; layer_id = q.layer_id; tile_id = tile }) s
      ]

  -- The body of the loop over the requests.
  pub visit : SourceInfo → ℕ → State → Visit Layer tc.Cache
  visit info r s =
      if text_eq (s.store r).map_id info.map_id
      then visit_layer info (find_layer info.layers (s.store r).layer_id) r s
      else passed s

  -- The loop over the requests: the state, whether tiles were served, and the job. The request of
  -- the job moves to the end of the list.
  pub scan : SourceInfo → List ℕ → List ℕ → Bool → State → State × Bool × Option Job
  scan info before [] hits s = (record s { requests = before }, hits, none)
  scan info before (r ∷ rest) hits s = elim (visit info r s) [
    | passed s' ↦ scan info (before ++ (r ∷ [])) rest hits s'
    | served s' ↦ scan info (before ++ (r ∷ [])) rest true s'
    | picked key s' ↦ (record s' { requests = before ++ (rest ++ (r ∷ [])) }, hits, some (key, r))
  ]

  -- requests_.remove_if
  pub clean_up : State → State
  clean_up s = record s {
    requests =
        filter (λ r. not ((s.store r).next_tile_index == length (s.store r).tiles)) s.requests;
  }

  -- The condition of the outer loop, and what follows the loop.
  pub after_scan :
      (State → Option (State × Option Job))
      → State × Bool × Option Job
      → Option (State × Option Job)
  after_scan again (s, hits, some job) = some (clean_up s, some job)
  after_scan again (s, true, none) = again s
  after_scan again (s, false, none) = some (clean_up s, none)

  -- do ... while (cachedTilesServed && !result), on fuel.
  pub job_loop : ℕ → SourceInfo → State → Option (State × Option Job)
  job_loop zero info s = none
  job_loop (suc fuel) info s = after_scan (job_loop fuel info) (scan info [] s.requests false s)

  -- The tiles that the listed requests have left.
  pub remaining : (ℕ → Request Layer) → List ℕ → ℕ
  remaining store [] = 0
  remaining store (r ∷ rs) =
      (length (store r).tiles - (store r).next_tile_index) + remaining store rs

  -- Controller::nextJob. A round that is repeated has served a tile, which bounds the rounds.
  pub next_job : SourceInfo → State → Option (State × Option Job)
  next_job info s = job_loop (remaining s.store s.requests + 1) info s

  -- Worker::work stores the layer that the data source and the add-ons gave, without the mutex.
  pub put_layer : Layer → State → State
  put_layer layer s = record s { cache = tc.put_tile_layer s.cache layer }

  -- What Worker::work then does under the mutex: the key leaves, and the request gets the layer.
  pub complete_job : Layer → Job → State → State
  complete_job layer (key, r) s =
      let s' = record s { jobs_in_progress = erase s.jobs_in_progress key } in
      write s' r (notify_result (tc.layer_type layer) layer (s'.store r))

  -- The same where the callback for the layer throws: the key has left, and no result is counted.
  pub lose_job : Job → State → State
  lose_job (key, r) s = record s { jobs_in_progress = erase s.jobs_in_progress key }

  -- An exception before that: the handler of Worker::work only logs.
  pub fail_job : Job → State → State
  fail_job job s = s

  -- Impl::addRequest
  pub add_request : ℕ → State → State
  add_request r s =
      if is_done (s.store r)
      then write s r (notify_status (s.store r))
      else record s { requests = s.requests ++ (r ∷ []) }

  -- Impl::abortRequest
  pub abort_request : ℕ → State → State
  abort_request r s =
      let s' = record s { requests = filter (λ n. not (n == r)) s.requests } in
      if any (λ n. n == r) s.requests then write s' r (set_status aborted (s.store r)) else s'
