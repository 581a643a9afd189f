-- ===== src/Registry/Tests.antt =====
-- Runs of the registry of data sources. A pattern is the text that it matches.
use mapget.Base.{ℕ, ◌≡◌, Bool, true, false, [], ◌∷◌, none, some, refl, ◌==◌, not, if◌then◌else◌}
use mapget.Base.Text.{codes, text_eq}
use mapget.Key.{features}
use mapget.Request.{Request, RequestStatus}
use mapget.Source.{SourceInfo, find_layer}
use mapget.Controller.{TileCache, State}
use mapget.Registry.{
  Registry, assign, find_source, enter, add_data_source, Headers, has_layer_and_can_access, access,
  first_pass, request,
}
use mapget.Registry.Sources.{NodesDistinct}
use mapget.Registry.Answer.{Answered, request-Answered}

abbrev cities : SourceInfo
cities = record {
  node_id = codes "n1";
  map_id = codes "Cities";
  layers = (codes "Road", features) ∷ [];
  max_parallel_jobs = 2;
  is_add_on = false;
}

abbrev signs : SourceInfo
signs = record cities { node_id = codes "n2"; is_add_on = true }

abbrev one_source : Registry
one_source = record {
  data_source_info = (1, cities) ∷ [];
  data_source_workers = (1, 2) ∷ [];
  add_on_data_sources = [];
}

abbrev two_sources : Registry
two_sources = record {
  data_source_info = (1, cities) ∷ (2, signs) ∷ [];
  data_source_workers = (1, 2) ∷ [];
  add_on_data_sources = 2 ∷ [];
}

add_run : add_data_source 2 signs one_source ≡ some two_sources
unfolding add_data_source enter assign find_source text_eq
add_run = refl

one_source-NodesDistinct : NodesDistinct one_source.data_source_info
one_source-NodesDistinct = ((λ e. cc), (refl, tt))

abbrev headers : Headers
headers = (codes "host", codes "here") ∷ (codes "token", codes "secret") ∷ []

-- Nothing is cached.
abbrev no_cache : TileCache ℕ
no_cache = record {
  Cache = Unit;
  get_tile_layer = λ cache key info. (none, cache);
  put_tile_layer = λ cache t. cache;
  layer_type = λ t. features;
}

-- Request 0 is for the roads of the cities, the others for a layer that no source has.
abbrev road_request : Request ℕ
road_request = record {
  map_id = codes "Cities";
  layer_id = codes "Road";
  tiles = 5 ∷ [];
  on_feature_layer = true;
  on_source_data_layer = false;
  on_done = true;
  next_tile_index = 0;
  result_count = 0;
  status = RequestStatus.open_;
  delivered = [];
  done_calls = [];
}

abbrev state : State no_cache
state = record {
  store = λ n. if n == 0 then road_request else record road_request { layer_id = codes "Rail" };
  requests = [];
  jobs_in_progress = [];
  cache = tt;
}

-- Everyone is authorized for every data source but the second.
abbrev authorized : ℕ → Headers → Bool
authorized ds hs = not (ds == 2)

request_run :
    (request authorized (some headers) no_cache one_source.data_source_info (0 ∷ []) state).0 ≡ true
unfolding request first_pass access has_layer_and_can_access find_layer text_eq
request_run = refl

request_refused :
    (request authorized (some headers) no_cache one_source.data_source_info (0 ∷ 1 ∷ []) state).0
    ≡ false
unfolding request first_pass access has_layer_and_can_access find_layer text_eq
request_refused = refl

request-Answered_example :
    Answered authorized
      (some headers)
      no_cache
      one_source.data_source_info
      (request authorized (some headers) no_cache one_source.data_source_info (0 ∷ 1 ∷ []) state).0
      (0 ∷ 1 ∷ [])
      state
      (request authorized (some headers) no_cache one_source.data_source_info (0 ∷ 1 ∷ []) state).1
request-Answered_example =
    request-Answered authorized (some headers) no_cache one_source.data_source_info (0 ∷ 1 ∷ [])
      state
