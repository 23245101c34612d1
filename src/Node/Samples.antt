-- ===== src/Node/Samples.antt =====
-- A small configuration, and the theorems of the node and its agents applied to it.
use anchora.Prelude.{
  String, true, Option, none, some, List, [], ◌∷◌, ◌≡◌, refl, Result, ok, err, Bool, ◌==◌, arith,
  if◌then◌else◌,
}
use anchora.Prelude.Int.{pos}
use anchora.Config
use anchora.Config.{Config, AgentConfig, Async, validate_async}
use anchora.Agents.{ModelSettings, ChatMessage, ChatAgent, new_agent, run_agent}
use anchora.Service
use anchora.Service.Backend.{new_worker_id}
use anchora.Node.{
  Exit, RunError, StartError, Surroundings, find_agent, build_agents, service_settings, run_node,
  failed_end, no_pool, Goroutine, Pool,
}
use anchora.Node.Startup.{
  Registered, build_agents-Registered, run_node-IsClosed, IsClosed, service_settings-agree,
}

abbrev writer : AgentConfig
writer = record {
  model_id = "m";
  base_url = "";
  token_env = "";
  instruction = "Be brief.";
  max_tokens = pos 0;
  timeout_ms = pos 0;
}

abbrev async : Async
async = record {
  enabled = true;
  database_url_env = "";
  redis_url_env = "";
  queue_name = "";
  workers = pos 2;
  lease_ms = pos 9000;
  heartbeat_ms = pos 0;
  max_attempts = pos 3;
  reaper_interval_ms = pos 0;
  worker_ttl_ms = pos 0;
  reclaim_batch = pos 0;
  reaper = none;
}

abbrev config : Config
config = record {
  address = ":8080";
  workflow = record { max_retries = pos 1; retry_delay_ms = pos 10 };
  async = async;
  agents = ("writer", writer) ∷ [];
}

abbrev getenv : String → String
getenv name = if name == "HF_TOKEN" then "t" else "postgres://db"

-- A chat model is known by its name.
abbrev new_chat_model : ModelSettings → Result String String
new_chat_model s = ok s.model

-- Redis cannot be reached.
abbrev outside : Surroundings String
outside = record {
  getenv = getenv;
  new_chat_model = new_chat_model;
  new_store = λ url. ok tt;
  new_queue = λ url name. err "refused";
  random = λ n. ok "0123456789abcdef";
  hostname = "host";
  pid = "7";
}

program : Unit {0}
unfolding run_node new_worker_id validate_async build_agents new_agent run_agent find_agent ◌==◌
program = tt

abbrev all_return : Goroutine → Bool
all_return goroutine = true

-- Redis can be reached.
abbrev connected : Surroundings String
connected = record outside { new_queue = λ dsn queue. ok tt }

redis_missing :
    run_node outside config (Exit.signalled all_return)
    ≡ failed_end [] no_pool (RunError.start_failed (StartError.queue_error "refused"))
unfolding program
redis_missing = refl

worker_named : new_worker_id (ok "0123456789abcdef") "host" "7" ≡ ok "host-7-01234567"
unfolding program
worker_named = refl

abbrev registry : List (String × ChatAgent String)
registry = ("writer", record { model = some "m"; instruction = "Be brief." }) ∷ []

built : build_agents getenv new_chat_model config.agents ≡ ok registry
unfolding program
built = refl

valid : validate_async getenv async ≡ ok tt
unfolding program
valid = refl

abbrev generate : String → List ChatMessage → Result String (Option String)
generate model messages = ok (some "hi")

abbrev pool : Pool
pool = record {
  goroutines =
      Goroutine.runs_reaper
      ∷ Goroutine.runs_worker "host-7-01234567"
      ∷ Goroutine.runs_worker "host-7-01234567"
      ∷ [];
  counter = 3;
}

-- The listener fails while the workers of the node run.
listener_fails :
    run_node connected config (Exit.listener_failed "bind")
    ≡ failed_end [] pool (RunError.server_failed "bind")
unfolding program Config.worker_count Config.reaper_enabled
listener_fails = refl

run_node-IsClosed_example : IsClosed (run_node connected config (Exit.signalled all_return))
run_node-IsClosed_example = run_node-IsClosed connected config (Exit.signalled all_return)

build_agents-Registered_example :
    Registered getenv new_chat_model registry "writer" (find_agent config.agents "writer")
build_agents-Registered_example =
    build_agents-Registered getenv new_chat_model config.agents registry built "writer"

service_settings-agree_example :
    (Service.lease (service_settings async) ≡ Config.lease async)
    × (Service.heartbeat (service_settings async) ≡ Config.heartbeat async)
service_settings-agree_example = service_settings-agree getenv async 8999 valid refl (omega arith)
