-- ===== src/Service/Worker.antt =====
-- internal/jobs/jobs.go, process: what a worker does with one delivery.
use anchora.Prelude.{
  ℕ, String, Bool, true, false, ◌&&◌, Option, none, some, List, [], ◌∷◌, if◌then◌else◌, ok, err,
}
use anchora.Prelude.Int.{ℤ, pos, ltb_ℤ}
use anchora.Config.{is_positive}
use anchora.Workflow.{Status, Message, StepResult}
use anchora.Service.{lease}
use anchora.Service.Program.{Call, Payload, Program, done, ◌>>=◌, ◌>>◌, perform}
use anchora.Service.Backend.{
  Backend, event_running, event_abandoned, event_dead_lettered, event_completed,
}
use anchora.Service.Lease.{Cause, hold_lease}
use anchora.Service.Attempt.{Circumstances, JobOutcome, interrupted, concluded, run_job}

abbrev pub final_status : Option Message → Status
final_status none = Status.succeeded
final_status (some _) = Status.failed

abbrev pub final_message : Option Message → Message
final_message none = Message.nothing
final_message (some e) = e

abbrev pub over_budget : Backend → ℕ → Bool
over_budget backend attempts =
    is_positive backend.config.max_attempts && ltb_ℤ backend.config.max_attempts (pos attempts)

module _ (backend : Backend) (worker id : String) where
  abbrev pub cause_text : Cause → Message
  cause_text Cause.lease_lost = Message.error_text "job lease lost"
  cause_text Cause.canceled = Message.context_error "context canceled"
  cause_text (Cause.load_failed e) = Message.load_failed id e

  unfoldable pub release_and_requeue : Program (Unit {0})
  release_and_requeue = do
    released ← perform (Call.release_job id worker)
    elim released [ err e ↦ done tt | ok _ ↦ perform (Call.requeue id) >> done tt ]

  unfoldable pub abandon : Cause → Program (Unit {0})
  unfolding release_and_requeue
  abandon cause = do
    perform (Call.append_event id event_abandoned (Payload.of_abandon worker (cause_text cause)))
    elim cause [
      | Cause.lease_lost ↦ done tt
      | Cause.canceled ↦ release_and_requeue
      | Cause.load_failed e ↦ release_and_requeue
    ]

  unfoldable pub dead_letter : ℕ → ℤ → Program (Unit {0})
  dead_letter attempts limit = do
    perform (Call.finish_job id worker Status.failed (Message.exceeded limit))
    perform (Call.append_event id event_dead_lettered (Payload.of_budget attempts limit worker))
    done tt

  unfoldable pub ack_job : Program (Unit {0})
  ack_job = perform (Call.ack id) >> done tt

  unfoldable pub persist : List StepResult → Program (Unit {0})
  persist [] = done tt
  persist (result ∷ results) = perform (Call.update_step id worker result) >> persist results

  -- The end of process for a job whose workflow came to an end.
  unfoldable pub conclude : ℕ → List StepResult → Option Message → Program (Unit {0})
  unfolding persist ack_job
  conclude attempts results error = do
    persist results
    held ← perform (Call.finish_job id worker (final_status error) (final_message error))
    elim held [
      | err e ↦ done tt
      | ok false ↦ done tt
      | ok true ↦ do
        perform (
            Call.append_event id event_completed
              (Payload.of_outcome (final_status error) results worker attempts))
        ack_job
    ]

  unfoldable pub settle : ℕ → JobOutcome → Program (Unit {0})
  unfolding abandon conclude
  settle attempts (interrupted cause) = abandon cause
  settle attempts (concluded results error) = conclude attempts results error

  -- The heartbeat ends before `settle`, which goes by what runJob returned.
  unfoldable pub execute : Circumstances → ℕ → Program (Unit {0})
  unfolding run_job hold_lease settle
  execute c attempts = do
    perform (Call.append_event id event_running (Payload.of_attempt worker attempts))
    run ← run_job backend worker id c
    hold_lease backend worker id c.late run.0
    settle attempts run.1

  unfoldable pub process : Circumstances → Program (Unit {0})
  unfolding ack_job dead_letter execute
  process c = do
    claimed ← perform (Call.claim_job id worker (lease backend.config))
    elim claimed [
      | err e ↦ done tt
      | ok (attempts, false) ↦ ack_job
      | ok (attempts, true) ↦
          if over_budget backend attempts
          then (dead_letter attempts backend.config.max_attempts >> ack_job)
          else execute c attempts
    ]
