-- ===== src/Service.antt =====
-- internal/jobs/jobs.go: the settings of the job backend, with their defaults.
pub mod Windows
pub mod Program
pub mod Backend
pub mod Lease
pub mod Attempt
pub mod Worker
pub mod Loops
pub mod Discipline
pub mod Submission
pub mod Waits
pub mod Recovery
pub mod Rounds
pub mod Cluster
mod Samples
use anchora.Prelude.{ℕ, zero, suc, ◌/◌, String, Bool, true, false, ◌&&◌, if◌then◌else◌}
use anchora.Prelude.Int.{ℤ, pos, negsuc, is_nonpositive, ltb_ℤ}
use anchora.Workflow.Retry.{backoff}
use anchora.Config.{default_lease, default_reaper_interval, is_positive, quotient}

-- Durations in nanoseconds.
pub record Settings : Type 0 where
  pub lease_setting : ℤ
  pub heartbeat_setting : ℤ
  pub max_attempts : ℤ
  pub reaper_interval_setting : ℤ
  pub worker_ttl_setting : ℤ
  pub reclaim_batch_setting : ℤ
  pub queue_name : String

unfoldable pub lease : Settings → ℤ
lease c = if is_nonpositive c.lease_setting then default_lease else c.lease_setting

unfoldable pub heartbeat : Settings → ℤ
unfolding lease
heartbeat c =
    if is_positive c.heartbeat_setting && ltb_ℤ c.heartbeat_setting (lease c)
    then c.heartbeat_setting
    else quotient (lease c) 3

unfoldable pub reaper_interval : Settings → ℤ
reaper_interval c =
    if is_nonpositive c.reaper_interval_setting
    then default_reaper_interval
    else c.reaper_interval_setting

-- `4 * c.lease()` wraps around as an int64.
unfoldable pub worker_ttl : Settings → ℤ
unfolding lease
worker_ttl c =
    if is_nonpositive c.worker_ttl_setting then backoff 4 (lease c) else c.worker_ttl_setting

unfoldable pub reclaim_batch : Settings → ℤ
reclaim_batch c =
    if is_nonpositive c.reclaim_batch_setting then pos 100 else c.reclaim_batch_setting
