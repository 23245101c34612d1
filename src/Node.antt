-- ===== src/Node.antt =====
-- cmd/anchora/main.go: one node. It builds its agents, the service and its workers from the
-- configuration, serves until it is told to stop, and drains.
pub mod Startup
mod Samples
use anchora.Prelude.{
  ℕ, zero, suc, String, Bool, true, false, Option, none, some, List, [], ◌∷◌, ◌++◌, map, filter,
  not, nat_eq, length, ◌==◌, if◌then◌else◌, Result, ok, err,
}
use anchora.Prelude.Int.{ℤ, pos_part}
use anchora.Workflow.{Agent, Options}
use anchora.Config
use anchora.Config.{Config, AgentConfig, WorkflowConfig, Async, database_env, redis_env}
use anchora.Agents.{AgentSettings, ModelSettings, AgentError, ChatAgent, new_agent}
use anchora.Service.{Settings}
use anchora.Service.Backend.{new_worker_id}

-- What `buildAgents` gives to `einoagent.New`.
abbrev pub agent_settings : String → AgentConfig → AgentSettings
agent_settings name definition = record {
  name = name;
  model_id = definition.model_id;
  base_url = definition.base_url;
  token_env = definition.token_env;
  instruction = definition.instruction;
  max_tokens = definition.max_tokens;
  timeout = Config.timeout definition;
}

-- `AgentRegistry`: a map, as a list of its entries.
abbrev pub AgentRegistry : Type 0 → Type 0
AgentRegistry A = List (String × A)

unfoldable pub find_agent : {A : Type 0} → AgentRegistry A → String → Option A
find_agent [] name = none
find_agent (entry ∷ registry) name =
    let later = find_agent registry name in if entry.0 == name then some entry.1 else later

-- The errors of `run` before it serves; each wraps that of the part that failed.
pub data StartError : Type 0 where
  agent_error : String → AgentError → StartError
  store_error queue_error worker_id_error : String → StartError

module _ {Model : Type 0} where
  -- The definitions are a map: they come in the order in which its `range` visits them.
  unfoldable pub build_agents :
      (String → String)
      → (ModelSettings → Result String Model)
      → List (String × AgentConfig)
      → Result StartError (AgentRegistry (ChatAgent Model))
  build_agents getenv new_chat_model [] = ok []
  build_agents getenv new_chat_model (definition ∷ definitions) =
      let rest = build_agents getenv new_chat_model definitions in
      elim (new_agent getenv new_chat_model (agent_settings definition.0 definition.1)) [
        | err e ↦ err (StartError.agent_error definition.0 e)
        | ok agent ↦ elim rest [ err e ↦ err e | ok agents ↦ ok ((definition.0, agent) ∷ agents) ]
      ]

abbrev pub workflow_options : WorkflowConfig → Options
workflow_options w = record {
  max_retries = w.max_retries;
  retry_delay = Config.retry_delay w;
  resume = [];
}

-- The `Config` of the Service.
abbrev pub service_settings : Async → Settings
service_settings a = record {
  lease_setting = Config.lease a;
  heartbeat_setting = Config.heartbeat a;
  max_attempts = a.max_attempts;
  reaper_interval_setting = Config.reaper_interval a;
  worker_ttl_setting = Config.worker_ttl a;
  reclaim_batch_setting = a.reclaim_batch;
  queue_name = a.queue_name;
}

-- The connections of the backend.
pub data Connection : Type 0 where
  store_connection queue_connection : Connection

abbrev pub is_store : Connection → Bool
is_store Connection.store_connection = true
is_store Connection.queue_connection = false

-- `store.Close()` and `queue.Close()`
abbrev pub close_store : List Connection → List Connection
close_store open_now = filter (λ c. not (is_store c)) open_now

abbrev pub close_queue : List Connection → List Connection
close_queue open_now = filter is_store open_now

-- The goroutines of the pool: `RunWorker` with an ID, and `RunReaper`.
pub data Goroutine : Type 0 where
  runs_worker : String → Goroutine
  runs_reaper : Goroutine

-- What `run` was told while it served: the listener failed, or the node was stopped. The function says
-- which goroutines return before the grace of the shutdown is over.
pub data Exit : Type 0 where
  listener_failed : String → Exit
  signalled : (Goroutine → Bool) → Exit

pub data RunError : Type 0 where
  start_failed : StartError → RunError
  server_failed : String → RunError

-- What the node finds outside: its environment, the chat models, the databases' answers to
-- `NewStore` and `NewQueue`, the digits of the n-th random draw, the host's name and the process ID.
pub record Surroundings (Model : Type 0) : Type 0 where
  pub getenv : String → String
  pub new_chat_model : ModelSettings → Result String Model
  pub new_store : String → Result String (Unit {0})
  pub new_queue : String → String → Result String (Unit {0})
  pub random : ℕ → Result String String
  pub hostname : String
  pub pid : String

-- The goroutines that were started, and the counter of the `sync.WaitGroup`.
pub record Pool : Type 0 where
  pub goroutines : List Goroutine
  pub counter : ℕ

abbrev pub no_pool : Pool
no_pool = record { goroutines = []; counter = 0 }

-- `workers.Add(1)`
abbrev pub add : Pool → Pool
add pool = record pool { counter = suc pool.counter }

-- `go func() { … }()`
abbrev pub go : Goroutine → Pool → Pool
go goroutine pool = record pool { goroutines = goroutine ∷ pool.goroutines }

-- The loop of `startWorkers`, from the n-th worker on, and the error that ends it.
unfoldable pub start_each : (ℕ → Result String String) → ℕ → ℕ → Pool → Pool × Option StartError
start_each draw zero n pool = (pool, none)
start_each draw (suc count) n pool = elim (draw n) [
  | err e ↦ (pool, some (StartError.worker_id_error e))
  | ok id ↦ start_each draw count (suc n) (go (Goroutine.runs_worker id) (add pool))
]

unfoldable pub start_workers :
    (ℕ → Result String String) → Async → Pool → Pool × Result StartError (Unit {0})
unfolding start_each
start_workers draw a pool =
    let (started, failed) = start_each draw (pos_part (Config.worker_count a)) 0 pool in
    elim failed [
      | some e ↦ (started, err e)
      | none ↦ (
        if Config.reaper_enabled a then go Goroutine.runs_reaper (add started) else started,
        ok tt,
      )
    ]

-- The function that `newJobService` returns.
abbrev pub close_backend : List Connection → List Connection
close_backend open_now = close_store (close_queue open_now)

-- `workers.Wait()` returns once each `Add(1)` has met a deferred `Done()`, which a goroutine that
-- returns makes.
abbrev pub wait_ends : (Goroutine → Bool) → Pool → Bool
wait_ends ended pool = nat_eq (length (filter ended pool.goroutines)) pool.counter

abbrev pub left_running : (Goroutine → Bool) → Pool → List Goroutine
left_running ended pool = filter (λ g. not (ended g)) pool.goroutines

-- What is left of a node when `run` returns: its connections, the goroutines that it started and that
-- may still run, whether it has waited for all of them, and the result.
pub record NodeEnd : Type 0 where
  pub open_connections : List Connection
  pub goroutines : List Goroutine
  pub drained : Bool
  pub result : Result RunError (Unit {0})

abbrev pub failed_end : List Connection → Pool → RunError → NodeEnd
failed_end connections pool e = record {
  open_connections = connections;
  goroutines = pool.goroutines;
  drained = false;
  result = err e;
}

-- The part of `run` from the `select` on, with the connections that the deferred call leaves.
abbrev pub serve_end : List Connection → Pool → Exit → NodeEnd
serve_end connections pool (Exit.listener_failed e) =
    failed_end connections pool (RunError.server_failed e)
serve_end connections pool (Exit.signalled ended) = record {
  open_connections = connections;
  goroutines = left_running ended pool;
  drained = wait_ends ended pool;
  result = ok tt;
}

module _ {Model : Type 0} (outside : Surroundings Model) where
  open outside use {getenv, new_chat_model, new_store, new_queue, random, hostname, pid}

  -- The connections that it leaves open, and the settings of the service.
  unfoldable pub new_job_service : Async → List Connection × Result StartError Settings
  new_job_service a = elim (new_store (getenv (database_env a))) [
    | err e ↦ ([], err (StartError.store_error e))
    | ok _ ↦
        let opened = Connection.store_connection ∷ [] in
        elim (new_queue (getenv (redis_env a)) a.queue_name) [
          | err e ↦ (close_store opened, err (StartError.queue_error e))
          | ok _ ↦ (Connection.queue_connection ∷ opened, ok (service_settings a))
        ]
  ]

  -- `run` for a configuration that is loaded; its deferred call closes what is open at its return.
  unfoldable pub run_node : Config → Exit → NodeEnd
  unfolding build_agents new_job_service start_workers
  run_node config exit = elim (build_agents getenv new_chat_model config.agents) [
    | err e ↦ failed_end [] no_pool (RunError.start_failed e)
    | ok agents ↦
        if config.async.enabled
        then (let (opened, built) = new_job_service config.async in
            elim built [
              | err e ↦ failed_end opened no_pool (RunError.start_failed e)
              | ok settings ↦
                  (let (pool, started) =
                      start_workers (λ n. new_worker_id (random n) hostname pid) config.async
                        no_pool in
                    elim started [
                      | err e ↦ failed_end (close_backend opened) pool (RunError.start_failed e)
                      | ok _ ↦ serve_end (close_backend opened) pool exit
                    ])
            ])
        else serve_end [] no_pool exit
  ]
