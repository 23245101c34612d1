-- ===== src/Service/Loops.antt =====
-- internal/jobs/jobs.go: RunWorker, RunReaper and reap.
use anchora.Prelude.{ℕ, zero, suc, String, Bool, List, [], ◌∷◌, if◌then◌else◌, ◌==◌, ok, err}
use anchora.Prelude.Int.{ℤ, pos}
use anchora.Store.Registry.{WorkerInfo}
use anchora.Service.{lease, worker_ttl, reclaim_batch}
use anchora.Service.Program.{Call, Payload, Program, done, calls, ◌>>=◌, ◌>>◌, perform}
use anchora.Service.Backend.{Backend, next_backoff, event_reclaimed}
use anchora.Service.Attempt.{Circumstances}
use anchora.Service.Worker.{process}

-- One round of RunWorker's loop: whether the context has ended when it begins, after a claim that
-- failed and during the wait that follows, how often the registry's heartbeat ticks before that
-- test, in the wait, and before each call of the delivery, and what comes with the delivery.
pub record Turn : Type 0 where
  pub stopped : Bool
  pub stopped_after : Bool
  pub slept : Bool
  pub reports : ℕ
  pub reports_waiting : ℕ
  pub reports_during : List ℕ
  pub circumstances : Circumstances

-- How RunWorker ended, if it did: the registration failed, or the context has ended.
pub data WorkerEnd : Type 0 where
  unregistered : String → WorkerEnd
  ended running : WorkerEnd

-- `HeartbeatWorker(ctx, workerID, claimed.Swap(0))`, and the count after it.
unfoldable pub report : String → ℕ → ℕ → Program ℕ
report worker zero claimed = done claimed
report worker (suc n) claimed = perform (Call.heartbeat_worker worker claimed) >> report worker n 0

-- A program next to which the registry's heartbeat ticks so often before each call. What is left of
-- the count is the result.
unfoldable pub alongside : {A : Type 0} → String → List ℕ → ℕ → Program A → Program ℕ
unfolding report
alongside worker ticks claimed (done a) = done claimed
alongside worker [] claimed (calls c next) =
    calls c (λ response. alongside worker [] claimed (next response))
alongside worker (n ∷ ticks) claimed (calls c next) = report worker n claimed >>= λ left.
    calls c (λ response. alongside worker ticks left (next response))

-- The loop, for as many rounds as there are turns.
unfoldable pub work : Backend → String → List Turn → ℤ → ℕ → Program WorkerEnd
unfolding report alongside
work backend worker [] waited claimed = done running
work backend worker (t ∷ turns) waited claimed =
    let rest : ℤ → ℕ → Program WorkerEnd = work backend worker turns in
    do
      left ← report worker t.reports claimed
      if t.stopped then done ended else do
        delivery ← perform (Call.claim worker (lease backend.config))
        elim delivery [
          | err e ↦ if t.stopped_after then done ended else do
            left' ← report worker t.reports_waiting left
            if t.slept then rest (next_backoff waited) left' else done ended
          | ok id ↦
              if id == ""
              then rest (pos 0) left
              else (alongside worker t.reports_during (suc left)
                    (process backend worker id t.circumstances)
                  >>= rest (pos 0))
        ]

-- The deferred call: the context's end does not stop it.
unfoldable pub leave : String → WorkerEnd → Program WorkerEnd
leave worker running = done running
leave worker (unregistered e) = done (unregistered e)
leave worker ended = perform (Call.unregister_worker worker) >> done ended

-- The worker's host and process are those of `info`.
unfoldable pub run_worker : Backend → WorkerInfo → List Turn → Program WorkerEnd
unfolding work leave
run_worker backend info turns = do
  registered ← perform (Call.register_worker info)
  elim registered [
    | err e ↦ done (unregistered e)
    | ok _ ↦ do end ← work backend info.id turns (pos 0) 0; leave info.id end
  ]

unfoldable pub announce_all : String → List String → Program (Unit {0})
announce_all reason [] = done tt
announce_all reason (id ∷ ids) =
    perform (Call.append_event id event_reclaimed (Payload.of_reason reason))
    >> announce_all reason ids

unfoldable pub push_orphans : List String → Program (Unit {0})
push_orphans [] = done tt
push_orphans (id ∷ ids) = do
  pushed ← perform (Call.push id)
  elim pushed [
    | err e ↦ push_orphans ids
    | ok _ ↦
        perform (Call.append_event id event_reclaimed (Payload.of_reason "store lease expired"))
        >> push_orphans ids
  ]

-- The sweep of the queue; its failure does not keep reap from the rest.
unfoldable pub sweep_queue : Backend → Program (Unit {0})
unfolding announce_all
sweep_queue backend = do
  recovered ← perform (Call.reclaim (reclaim_batch backend.config))
  elim recovered [ err e ↦ done tt | ok ids ↦ announce_all "queue lease expired" ids ]

-- The sweep of the store, and then of the registry.
unfoldable pub sweep_store : Backend → Program (Unit {0})
unfolding push_orphans
sweep_store backend = do
  orphans ←
      perform (Call.reclaim_expired_jobs (lease backend.config) (reclaim_batch backend.config))
  elim orphans [
    | err e ↦ done tt
    | ok ids ↦ do
      push_orphans ids
      perform (Call.prune_workers (worker_ttl backend.config))
      done tt
  ]

unfoldable pub reap : Backend → Program (Unit {0})
unfolding sweep_queue sweep_store
reap backend = sweep_queue backend >> sweep_store backend

-- RunReaper, for the number of ticks that come before the context ends.
unfoldable pub run_reaper : Backend → ℕ → Program (Unit {0})
unfolding reap
run_reaper backend zero = done tt
run_reaper backend (suc ticks) = reap backend >> run_reaper backend ticks
