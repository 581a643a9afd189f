-- ===== src/Config.antt =====
-- libs/service: DataSourceConfigService of include/mapget/service/config.h and src/config.cpp. The
-- operations run one after another; the source holds the mutex of the service only where it changes
-- the subscriptions, the constructors and the configuration. The calls of subscribers are recorded,
-- and what they come to is a parameter: a call for a success may throw, one for an error does not.
pub mod Knows
pub mod Outcome
pub mod Make
pub mod Tests
use mapget.Base.{
  ℕ, suc, ◌+◌, ◌%◌, ◌^◌, Bool, true, false, not, List, [], ◌∷◌, ◌++◌, Option, none, some, ◌==◌,
  if◌then◌else◌, filter, ◌&&◌,
}
use mapget.Base.Result.{Result, ok, ◌>>=◌}
use mapget.Base.Text.{Text, text_eq}

-- What YAML::LoadFile makes of a file, as far as it is read.
pub data Yaml (Node : Type 0) : Type 0 where
  yaml_exception no_sources : Yaml Node
  sources : List Node → Yaml Node

-- A call of a subscription's success_ or error_.
pub data Call (Node : Type 0) : Type 0 where
  success : ℕ → List Node → Call Node
  error : ℕ → Call Node

-- What a call for a success comes to: it returns, or it throws a YAML::Exception or another one.
pub data CallResult : Type 0 where
  returned yaml_threw threw : CallResult

-- What the constructor of a data source type may come to.
pub data Made (Source : Type 0) : Type 0 where
  made : Source → Made Source
  made_null threw : Made Source

-- Of a subscription the id is kept, and whether it has an error callback. The calls are recorded
-- with the latest first.
pub record ConfigService (Node Source : Type 0) : Type 0 where
  pub config_file_path : Text
  pub last_config_sha256 : Text
  pub subscriptions : List (ℕ × Bool)
  pub constructors : List (Text × (Node → Made Source))
  pub current_config : List Node
  pub next_subscription_id : ℕ
  pub watching : Bool
  pub calls : List (Call Node)

-- subscriptions_[id] = ...
pub set_subscription : ℕ → Bool → List (ℕ × Bool) → List (ℕ × Bool)
set_subscription id has_error [] = (id, has_error) ∷ []
set_subscription id has_error ((j, e) ∷ subs) =
    let rest = set_subscription id has_error subs in
    if j == id then (id, has_error) ∷ subs else (j, e) ∷ rest

-- constructors_[typeName] = ...
set_constructor {ℓ} : {C : Type ℓ} → Text → C → List (Text × C) → List (Text × C)
set_constructor name c [] = (name, c) ∷ []
set_constructor name c ((n, d) ∷ cs) =
    let rest = set_constructor name c cs in if text_eq n name then (name, c) ∷ cs else (n, d) ∷ rest

find_constructor {ℓ} : {C : Type ℓ} → List (Text × C) → Text → Option C
find_constructor [] name = none
find_constructor ((n, c) ∷ cs) name =
    let rest = find_constructor cs name in if text_eq n name then some c else rest

module _ {Node : Type 0} where
  pub notify_error : List (ℕ × Bool) → List (Call Node) → List (Call Node)
  notify_error [] calls = calls
  notify_error ((id, true) ∷ subs) calls = notify_error subs (error id ∷ calls)
  notify_error ((id, false) ∷ subs) calls = notify_error subs calls

  -- `outcome` gives what a call comes to, after the calls so far.
  module _ (outcome : List (Call Node) → ℕ → List Node → CallResult) where
    -- The loop over the subscriptions, which an exception ends.
    pub notify_success :
        List (ℕ × Bool) → List Node → List (Call Node) → List (Call Node) × CallResult
    notify_success [] config calls = (calls, returned)
    notify_success ((id, e) ∷ subs) config calls = elim (outcome calls id config) [
      | returned ↦ notify_success subs config (success id config ∷ calls)
      | yaml_threw ↦ (success id config ∷ calls, yaml_threw)
      | threw ↦ (success id config ∷ calls, threw)
    ]

    -- The immediate call of a subscription, where there is a configuration.
    abbrev call_now : ℕ → List Node → List (Call Node) → List (Call Node) × CallResult
    call_now id [] calls = (calls, returned)
    call_now id (n ∷ ns) calls = (success id (n ∷ ns) ∷ calls, outcome calls id (n ∷ ns))

module _ {Node Source : Type 0} where
  abbrev pub new_service : ConfigService Node Source
  new_service = record {
    config_file_path = [];
    last_config_sha256 = [];
    subscriptions = [];
    constructors = [];
    current_config = [];
    next_subscription_id = 0;
    watching = false;
    calls = [];
  }

  pub unsubscribe : ℕ → ConfigService Node Source → ConfigService Node Source
  unsubscribe id s = record s { subscriptions = filter (λ (j, e). not (j == id)) s.subscriptions }

  -- An exception of the immediate call destroys the subscription that was made.
  settle_subscription : CallResult → ℕ → ConfigService Node Source → ConfigService Node Source
  unfolding unsubscribe
  settle_subscription returned id s = s
  settle_subscription yaml_threw id s = unsubscribe id s
  settle_subscription threw id s = unsubscribe id s

  -- DataSourceConfigService::subscribe, with a success callback.
  pub subscribe :
      (List (Call Node) → ℕ → List Node → CallResult)
      → Bool
      → ConfigService Node Source
      → ConfigService Node Source
  unfolding set_subscription settle_subscription
  subscribe outcome has_error s =
      let id = s.next_subscription_id in
      let (calls, ended) = call_now outcome id s.current_config s.calls in
      settle_subscription ended id (record s {
        next_subscription_id = (id + 1) % 2 ^ 32;
        subscriptions = set_subscription id has_error s.subscriptions;
        calls = calls;
      })

  report_error : ConfigService Node Source → ConfigService Node Source
  unfolding notify_error
  report_error s = record s { calls = notify_error s.subscriptions s.calls }

  -- The exception handler of loadConfig: the state, and whether an exception leaves.
  after_success : CallResult → ConfigService Node Source → ConfigService Node Source × Bool
  unfolding report_error
  after_success returned s = (s, false)
  after_success yaml_threw s = (report_error s, false)
  after_success threw s = (s, true)

  accept_config :
      (List (Call Node) → ℕ → List Node → CallResult)
      → Text
      → List Node
      → ConfigService Node Source
      → ConfigService Node Source × Bool
  unfolding notify_success after_success
  accept_config outcome sha nodes s =
      let (calls, ended) = notify_success outcome s.subscriptions nodes s.calls in
      after_success ended
        (record s { current_config = nodes; last_config_sha256 = sha; calls = calls })

  -- reset, which stops the watch thread.
  pub reset : ConfigService Node Source → ConfigService Node Source
  reset s = record s {
    subscriptions = [];
    constructors = [];
    current_config = [];
    config_file_path = [];
    watching = false;
  }

  pub register_data_source_type :
      Text → (Node → Made Source) → ConfigService Node Source → ConfigService Node Source
  unfolding set_constructor
  register_data_source_type name c s = record s {
    constructors = set_constructor name c s.constructors;
  }

-- `sha256` is picosha2's hash as a text and `load_yaml` the parsing of a file's content, which is
-- taken to be the same in the two reads of the file. No file is `none`. Each result says whether an
-- exception leaves the operation.
module _ {Node Source : Type 0} (sha256 : Text → Text) (load_yaml : Text → Yaml Node)
    (outcome : List (Call Node) → ℕ → List Node → CallResult) where
  pub load_parsed : Text → Yaml Node → ConfigService Node Source → ConfigService Node Source × Bool
  unfolding report_error accept_config
  load_parsed sha yaml_exception s = (report_error s, false)
  load_parsed sha no_sources s = (report_error s, false)
  load_parsed sha (sources nodes) s = accept_config outcome sha nodes s

  load_content : Text → Text → ConfigService Node Source → ConfigService Node Source × Bool
  unfolding load_parsed
  load_content content sha s =
      if text_eq sha s.last_config_sha256 then (s, false) else load_parsed sha (load_yaml content) s

  -- DataSourceConfigService::loadConfig()
  pub load_config : Option Text → ConfigService Node Source → ConfigService Node Source × Bool
  unfolding load_content report_error
  load_config none s = (report_error s, false)
  load_config (some content) s = load_content content (sha256 (content ++ s.config_file_path)) s

  -- loadConfig(path, startWatchThread), up to the first check of the watch thread.
  pub load_config_from :
      Text → Bool → Option Text → ConfigService Node Source → ConfigService Node Source × Bool
  unfolding load_config
  load_config_from path start_watching file s =
      let (loaded, left) =
        load_config file (record s { config_file_path = path; last_config_sha256 = [] }) in
      (if start_watching && not left then record loaded { watching = true } else loaded, left)

  -- One round of the watch thread, for the times of modification at the last round and now. An
  -- exception that leaves it ends the program.
  pub watch_round :
      Option ℕ
      → Option ℕ
      → Option Text
      → ConfigService Node Source
      → ConfigService Node Source × Bool
  unfolding load_config
  watch_round last none file s = (s, false)
  watch_round none (some now) file s = load_config file s
  watch_round (some last) (some now) file s = if now == last then (s, false) else load_config file s

-- What makeDataSource reads of a descriptor: the text under `type`, none where there is no such key,
-- or the exception of a descriptor or a type that is of another form; and
-- requireAuthHeaderRegexMatchOption, for which `none` is that of an invalid regular expression.
module _ {Node Source : Type 0} (type_of : Node → Result (Option Text))
    (auth_headers : Node → List (Text × Text))
    (require : Text × Text → Source → Option Source) where
  require_all : List (Text × Text) → Source → Option Source
  require_all [] source = some source
  require_all (h ∷ hs) source = elim (require h source) [
    | none ↦ none
    | some source' ↦ require_all hs source'
  ]

  finish_source : Node → Made Source → Option Source
  unfolding require_all
  finish_source descriptor made_null = none
  finish_source descriptor threw = none
  finish_source descriptor (made source) = require_all (auth_headers descriptor) source

  make_typed : Option (Node → Made Source) → Node → Option Source
  unfolding finish_source
  make_typed none descriptor = none
  make_typed (some constructor) descriptor = finish_source descriptor (constructor descriptor)

  -- DataSourceConfigService::makeDataSource: `none` is the null pointer.
  pub make_data_source : ConfigService Node Source → Node → Result (Option Source)
  unfolding make_typed find_constructor
  make_data_source s descriptor = type_of descriptor >>= λ found. elim found [
    | none ↦ ok none
    | some type ↦ ok (make_typed (find_constructor s.constructors type) descriptor)
  ]
