-- ===== src/Registry.antt =====
-- libs/service: the data sources of Service::Impl and the methods of Service that go by them, in
-- src/service.cpp, with DataSource::isDataSourceAuthorized of src/datasource.cpp. A data source is
-- the number of its object, in the order of the pointers.
pub mod Sources
pub mod Answer
pub mod Tests
use mapget.Base.{
  ℕ, ◌+◌, Bool, true, false, ◌&&◌, List, [], ◌∷◌, ◌++◌, Option, none, some, ◌==◌, ltb, not,
  if◌then◌else◌, filter, any,
}
use mapget.Base.Text.{Text, text_eq}
use mapget.Request.{
  Request, RequestStatus, open_, success, no_data_source, unauthorized, aborted, is_open,
  set_status,
}
use mapget.Source.{SourceInfo, find_layer}
use mapget.Controller.{TileCache, State, write, add_request}

-- std::map<DataSource::Ptr, ...>, the least pointer first.
pub assign {ℓ} : {A : Type ℓ} → ℕ → A → List (ℕ × A) → List (ℕ × A)
assign k v [] = (k, v) ∷ []
assign k v ((j, w) ∷ es) =
    let rest = assign k v es in
    if ltb k j then (k, v) ∷ (j, w) ∷ es else (if k == j then (k, v) ∷ es else (j, w) ∷ rest)

pub find_source {ℓ} : {A : Type ℓ} → ℕ → List (ℕ × A) → Option A
find_source k [] = none
find_source k ((j, w) ∷ es) = if k == j then some w else find_source k es

abbrev pub erase_source {ℓ} : {A : Type ℓ} → ℕ → List (ℕ × A) → List (ℕ × A)
erase_source k = filter (λ e. not (e.0 == k))

-- Of the workers of a data source their number is kept.
pub record Registry : Type 0 where
  pub data_source_info : List (ℕ × SourceInfo)
  pub data_source_workers : List (ℕ × ℕ)
  pub add_on_data_sources : List ℕ

abbrev is_empty : Text → Bool
is_empty [] = true
is_empty (c ∷ cs) = false

abbrev pub has_node : Text → List (ℕ × SourceInfo) → Bool
has_node node = any (λ e. text_eq e.1.node_id node)

-- The rest of addDataSource, after the checks.
enter : ℕ → SourceInfo → Registry → Registry
enter ds info g =
    let infos = assign ds info g.data_source_info in
    let present : ℕ = elim (find_source ds g.data_source_workers) [ none ↦ 0 | some n ↦ n ] in
    if info.is_add_on
    then record g {
      data_source_info = infos;
      add_on_data_sources = g.add_on_data_sources ++ (ds ∷ []);
    }
    else record g {
      data_source_info = infos;
      data_source_workers = assign ds (present + info.max_parallel_jobs) g.data_source_workers;
    }

-- Impl::addDataSource, for the info that the data source returns: `none` is an exception.
pub add_data_source : ℕ → SourceInfo → Registry → Option Registry
add_data_source ds info g =
    if is_empty info.node_id
    then none
    else (if has_node info.node_id g.data_source_info then none else some (enter ds info g))

-- Impl::removeDataSource
pub remove_data_source : ℕ → Registry → Registry
remove_data_source ds g = record {
  data_source_info = erase_source ds g.data_source_info;
  data_source_workers = erase_source ds g.data_source_workers;
  add_on_data_sources = filter (λ n. not (n == ds)) g.add_on_data_sources;
}

-- AuthHeaders, in the order of its iteration.
abbrev pub Headers : Type 0
Headers = List (Text × Text)

module _ {Regex : Type 0} (regex_match : Text → Regex → Bool) where
  pub find_pattern : List (Text × Regex) → Text → Option Regex
  find_pattern [] k = none
  find_pattern ((j, re) ∷ ps) k = if text_eq j k then some re else find_pattern ps k

  any_header : List (Text × Regex) → Headers → Bool
  any_header patterns [] = false
  any_header patterns ((k, v) ∷ hs) = elim (find_pattern patterns k) [
    | none ↦ any_header patterns hs
    | some re ↦ if regex_match v re then true else any_header patterns hs
  ]

  -- DataSource::isDataSourceAuthorized, for authHeaderAlternatives_.
  pub is_data_source_authorized : List (Text × Regex) → Headers → Bool
  is_data_source_authorized [] hs = true
  is_data_source_authorized (p ∷ ps) hs = any_header (p ∷ ps) hs

-- What the client's headers allow; `authorized` is isDataSourceAuthorized of a data source.
abbrev pub allowed : (ℕ → Headers → Bool) → Option Headers → ℕ → Bool
allowed authorized none ds = true
allowed authorized (some hs) ds = authorized ds hs

module _ (authorized : ℕ → Headers → Bool) (headers : Option Headers) where
  -- Service::hasLayerAndCanAccess
  pub has_layer_and_can_access : List (ℕ × SourceInfo) → Text → Text → RequestStatus
  has_layer_and_can_access [] map_id layer_id = no_data_source
  has_layer_and_can_access ((ds, info) ∷ es) map_id layer_id =
      let rest = has_layer_and_can_access es map_id layer_id in
      if text_eq map_id info.map_id
      then elim (find_layer info.layers layer_id) [
        | none ↦ rest
        | some type ↦ if allowed authorized headers ds then success else unauthorized
      ]
      else rest

  -- Impl::getDataSourceInfos
  pub get_data_source_infos : List (ℕ × SourceInfo) → List SourceInfo
  get_data_source_infos [] = []
  get_data_source_infos ((ds, info) ∷ es) =
      let rest = get_data_source_infos es in
      if allowed authorized headers ds then info ∷ rest else rest

  module _ {Layer : Type 0} (tc : TileCache Layer) (sources : List (ℕ × SourceInfo)) where
    access : Request Layer → RequestStatus
    access q = has_layer_and_can_access sources q.map_id q.layer_id

    deny : RequestStatus → ℕ → State tc → State tc
    deny status r s = write tc s r (set_status status (s.store r))

    -- The first pass of Service::request over the requests that are left.
    first_pass : List ℕ → Bool → State tc → Bool × State tc
    first_pass [] available s = (available, s)
    first_pass (r ∷ rs) available s = elim (access (s.store r)) [
      | no_data_source ↦ first_pass rs false (deny no_data_source r s)
      | unauthorized ↦ first_pass rs false (deny unauthorized r s)
      | open_ ↦ first_pass rs available s
      | success ↦ first_pass rs available s
      | aborted ↦ first_pass rs available s
    ]

    -- The second pass either aborts the requests or adds all to the queue.
    second_pass : List ℕ → Bool → State tc → State tc
    second_pass [] available s = s
    second_pass (r ∷ rs) true s = second_pass rs true (add_request tc r s)
    second_pass (r ∷ rs) false s =
        second_pass rs false (if is_open (s.store r).status then deny aborted r s else s)

    -- Service::request
    pub request : List ℕ → State tc → Bool × State tc
    request rs s =
        let (available, t) = first_pass rs true s in (available, second_pass rs available t)
