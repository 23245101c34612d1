-- ===== src/Config/Samples.antt =====
-- A configuration, and the theorems applied to it.
use anchora.Prelude.{String, true, false, none, [], ◌∷◌, ◌≡◌, refl, ◌==◌, perm_refl, ok, All}
use anchora.Prelude.Int.{pos, is_negative}
use anchora.Config.{
  Config, Async, AgentConfig, validate_async, finish_load, database_env, redis_env, lease,
  heartbeat, worker_ttl,
}
use anchora.Workflow.Retry.{backoff}
use anchora.Config.Accepted.{IsUsable, finish_load-IsUsable}

loading : Unit {0}
unfolding finish_load lease heartbeat worker_ttl backoff ◌==◌
loading = tt

abbrev environment : String → String
environment name = "redis://host"

abbrev jobs : Async
jobs = record {
  enabled = true;
  database_url_env = "";
  redis_url_env = "QUEUE_URL";
  queue_name = "";
  workers = pos 2;
  lease_ms = pos 3000;
  heartbeat_ms = pos 0;
  max_attempts = pos 5;
  reaper_interval_ms = pos 0;
  worker_ttl_ms = pos 0;
  reclaim_batch = pos 0;
  reaper = none;
}

abbrev writer : AgentConfig
writer = record {
  model_id = "model";
  base_url = "";
  token_env = "";
  instruction = "";
  max_tokens = pos 0;
  timeout_ms = pos 0;
}

abbrev decoded : Config
decoded = record {
  address = "";
  workflow = record { max_retries = pos 2; retry_delay_ms = pos 100 };
  async = jobs;
  agents = ("writer", writer) ∷ [];
}

abbrev loaded : Config
loaded = record decoded { address = ":8080" }

decoded_loads : finish_load environment (λ l. l) decoded ≡ ok loaded
unfolding loading
decoded_loads = refl

jobs_valid : validate_async environment jobs ≡ ok tt
unfolding loading
jobs_valid = refl

-- The test of the heartbeat against the lease is skipped for the default lease of 30 seconds.
long_heartbeat_passes :
    validate_async environment (record jobs { lease_ms = pos 0; heartbeat_ms = pos 60000 }) ≡ ok tt
unfolding loading
long_heartbeat_passes = refl

default_ttl : worker_ttl jobs ≡ pos 12000000000
unfolding loading
default_ttl = refl

finish_load-IsUsable_example :
    ((loaded.address == "") ≡ false)
    × (record loaded { address = decoded.address } ≡ decoded)
    × (is_negative loaded.workflow.max_retries ≡ false)
    × (is_negative loaded.workflow.retry_delay_ms ≡ false)
    × All IsUsable loaded.agents
    × (loaded.async.enabled ≡ true → (environment (database_env loaded.async) == "") ≡ false)
    × (loaded.async.enabled ≡ true → (environment (redis_env loaded.async) == "") ≡ false)
finish_load-IsUsable_example =
    finish_load-IsUsable environment (λ l. l) perm_refl decoded loaded decoded_loads
