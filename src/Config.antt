-- ===== src/Config.antt =====
-- internal/config/config.go: the validation of a configuration, and the defaults of its accessors.
-- Durations are in nanoseconds; the file has milliseconds.
pub mod Accepted
pub mod Windows
mod Samples
use anchora.Prelude.{
  ℕ, zero, suc, ◌/◌, String, Bool, true, false, not, ◌&&◌, ◌||◌, Option, none, some, List, [], ◌∷◌,
  ◌==◌, if◌then◌else◌, Result, ok, err, ◌>>=◌, ◌>>◌, reject_if, Permᴰ,
}
use anchora.Prelude.Int.{ℤ, pos, negsuc, is_negative, is_nonpositive, ltb_ℤ}
use anchora.Workflow.Retry.{backoff}

pub record WorkflowConfig : Type 0 where
  pub max_retries : ℤ
  pub retry_delay_ms : ℤ

pub record Async : Type 0 where
  pub enabled : Bool
  pub database_url_env : String
  pub redis_url_env : String
  pub queue_name : String
  pub workers : ℤ
  pub lease_ms : ℤ
  pub heartbeat_ms : ℤ
  pub max_attempts : ℤ
  pub reaper_interval_ms : ℤ
  pub worker_ttl_ms : ℤ
  pub reclaim_batch : ℤ
  pub reaper : Option Bool

pub record AgentConfig : Type 0 where
  pub model_id : String
  pub base_url : String
  pub token_env : String
  pub instruction : String
  pub max_tokens : ℤ
  pub timeout_ms : ℤ

-- The agents are a map, as a list of its entries.
pub record Config : Type 0 where
  pub address : String
  pub workflow : WorkflowConfig
  pub async : Async
  pub agents : List (String × AgentConfig)

pub data ConfigError : Type 0 where
  negative_retry negative_workers negative_window negative_batch long_heartbeat : ConfigError
  missing_url : String → ConfigError
  unnamed_agent : ConfigError
  negative_agent : String → ConfigError

-- `time.Duration(ms) * time.Millisecond`, with its wrap-around.
abbrev pub milliseconds : ℤ → ℤ
milliseconds ms = backoff 1000000 ms

-- Go's division by a positive number.
abbrev pub quotient : ℤ → ℕ → ℤ
quotient (pos n) d = pos (n / d)
quotient (negsuc n) d = elim (suc n / d) [ zero ↦ pos 0 | suc q ↦ negsuc q ]

abbrev pub is_positive : ℤ → Bool
is_positive n = not (is_nonpositive n)

abbrev pub database_env : Async → String
database_env a = if a.database_url_env == "" then "DATABASE_URL" else a.database_url_env

abbrev pub redis_env : Async → String
redis_env a = if a.redis_url_env == "" then "REDIS_URL" else a.redis_url_env

abbrev pub default_lease : ℤ
default_lease = pos 30000000000

abbrev pub default_reaper_interval : ℤ
default_reaper_interval = pos 5000000000

unfoldable pub worker_count : Async → ℤ
worker_count a = if is_nonpositive a.workers then pos 1 else a.workers

unfoldable pub lease : Async → ℤ
lease a = if is_nonpositive a.lease_ms then default_lease else milliseconds a.lease_ms

unfoldable pub heartbeat : Async → ℤ
unfolding lease
heartbeat a =
    if is_nonpositive a.heartbeat_ms then quotient (lease a) 3 else milliseconds a.heartbeat_ms

unfoldable pub reaper_interval : Async → ℤ
reaper_interval a =
    if is_nonpositive a.reaper_interval_ms
    then default_reaper_interval
    else milliseconds a.reaper_interval_ms

unfoldable pub worker_ttl : Async → ℤ
unfolding lease
worker_ttl a =
    if is_nonpositive a.worker_ttl_ms then backoff 4 (lease a) else milliseconds a.worker_ttl_ms

unfoldable pub reaper_enabled : Async → Bool
reaper_enabled a = elim a.reaper [ none ↦ true | some on ↦ on ]

unfoldable pub retry_delay : WorkflowConfig → ℤ
retry_delay w = milliseconds w.retry_delay_ms

unfoldable pub timeout : AgentConfig → ℤ
timeout a = milliseconds a.timeout_ms

-- `os.Getenv` is a parameter.
module _ (getenv : String → String) where
  unfoldable pub validate_async : Async → Result ConfigError (Unit {0})
  validate_async a = do
    reject_if (is_negative a.workers) ConfigError.negative_workers
    reject_if
        (is_negative a.lease_ms
          || is_negative a.heartbeat_ms
          || is_negative a.reaper_interval_ms
          || is_negative a.worker_ttl_ms)
        ConfigError.negative_window
    reject_if (is_negative a.max_attempts || is_negative a.reclaim_batch) ConfigError.negative_batch
    reject_if
        (is_positive a.heartbeat_ms
          && is_positive a.lease_ms
          && not (ltb_ℤ a.heartbeat_ms a.lease_ms))
        ConfigError.long_heartbeat
    reject_if (a.enabled && getenv (database_env a) == "")
        (ConfigError.missing_url (database_env a))
    reject_if (a.enabled && getenv (redis_env a) == "") (ConfigError.missing_url (redis_env a))

  unfoldable pub validate_agents : List (String × AgentConfig) → Result ConfigError (Unit {0})
  validate_agents [] = ok tt
  validate_agents ((name, agent) ∷ rest) = do
    reject_if (name == "" || agent.model_id == "") ConfigError.unnamed_agent
    reject_if (is_negative agent.max_tokens || is_negative agent.timeout_ms)
        (ConfigError.negative_agent name)
    validate_agents rest

  -- The agents are visited in any order.
  unfoldable pub validate :
      (List (String × AgentConfig) → List (String × AgentConfig))
      → Config
      → Result ConfigError (Unit {0})
  unfolding validate_async validate_agents
  validate visit c = do
    reject_if (is_negative c.workflow.max_retries || is_negative c.workflow.retry_delay_ms)
        ConfigError.negative_retry
    validate_async c.async
    validate_agents (visit c.agents)

  -- What Load does after the file is decoded.
  unfoldable pub finish_load :
      (List (String × AgentConfig) → List (String × AgentConfig))
      → Config
      → Result ConfigError Config
  unfolding validate
  finish_load visit decoded =
      let c = if decoded.address == "" then record decoded { address = ":8080" } else decoded in
      do validate visit c; ok c
