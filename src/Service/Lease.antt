-- ===== src/Service/Lease.antt =====
-- internal/jobs/jobs.go, holdLease: the heartbeat of one delivery.
use anchora.Prelude.{
  String, Bool, true, false, ◌&&◌, Option, none, some, List, [], ◌∷◌, if◌then◌else◌, Result, ok,
  err,
}
use anchora.Service.{lease}
use anchora.Service.Program.{Call, Program, done, ◌>>=◌, perform}
use anchora.Service.Backend.{Backend}

-- Why a delivery was given up: its lease was lost, the worker is shut down, or the job could not be
-- loaded.
pub data Cause : Type 0 where
  lease_lost canceled : Cause
  load_failed : String → Cause

-- What can happen to the context of a run: a tick of the heartbeat, or the end of the worker's own.
pub data Tick : Type 0 where
  beats stops : Tick

-- The goroutines of a delivery: the cause that cancelled its context, whether the heartbeat still
-- runs, the `leaseFence`, and what the claims of steps returned, in order.
pub record RunState : Type 0 where
  pub cause : Option Cause
  pub beating : Bool
  pub fence : Bool
  pub claimed : List (String × Result String Bool)

abbrev pub fresh : RunState
fresh = record { cause = none; beating = true; fence = false; claimed = [] }

-- The first `cancel` counts.
abbrev pub first_cause : Option Cause → Cause → Option Cause
first_cause none later = some later
first_cause (some cause) later = some cause

abbrev pub cancel : Cause → RunState → RunState
cancel cause s = record s { cause = first_cause s.cause cause }

module _ (backend : Backend) (worker id : String) where
  -- One round of holdLease.
  unfoldable pub beat : RunState → Program RunState
  beat s = do
    held_store ← perform (Call.extend_lease id worker (lease backend.config))
    elim held_store [
      | err e ↦ done s
      | ok in_store ↦ do
        held_queue ← perform (Call.extend id worker (lease backend.config))
        elim held_queue [
          | err e ↦ done s
          | ok in_queue ↦
              if in_store && in_queue
              then done s
              else done (record (cancel Cause.lease_lost s) { beating = false })
        ]
    ]

  unfoldable pub tick : Tick → RunState → Program RunState
  unfolding beat
  tick Tick.beats s = if s.beating then beat s else done s
  tick Tick.stops s = done (cancel Cause.canceled s)

  unfoldable pub hold_lease : List Tick → RunState → Program RunState
  unfolding tick
  hold_lease [] s = done s
  hold_lease (t ∷ later) s = tick t s >>= λ s'. hold_lease later s'
