-- ===== src/Service/Backend.antt =====
-- internal/jobs/jobs.go: the Service, its submission of workflows and its reads.
use Prim.Native.String.{◌++◌, slice}
use anchora.Prelude.{
  ℕ, String, Bool, Option, none, some, List, [], ◌∷◌, map, filter, if◌then◌else◌, ◌==◌, ◌||◌,
  Result, ok, err,
}
use anchora.Prelude.Int.{ℤ, pos, is_nonpositive, ltb_ℤ}
use anchora.Workflow.{Status, Message, Agent, Step, StepResult, Options, Schedule, is_succeeded}
use anchora.Workflow.Validate.{new_workflow}
use anchora.Workflow.Retry.{backoff}
use anchora.Store.Steps.{JobStep, Job}
use anchora.Store.Registry.{EventRow, WorkerInfo}
use anchora.Service.{Settings, worker_ttl}
use anchora.Service.Program.{Call, Payload, Program, done, ◌>>=◌, ◌>>◌, perform}

abbrev pub event_queued : String
event_queued = "job.queued"

abbrev pub event_running : String
event_running = "job.running"

abbrev pub event_resumed : String
event_resumed = "job.resumed"

abbrev pub event_step_completed : String
event_step_completed = "step.completed"

abbrev pub event_reclaimed : String
event_reclaimed = "job.reclaimed"

abbrev pub event_abandoned : String
event_abandoned = "job.abandoned"

abbrev pub event_dead_lettered : String
event_dead_lettered = "job.dead_lettered"

abbrev pub event_completed : String
event_completed = "job.completed"

-- `IsTerminal`, for the type of an event.
unfoldable pub is_terminal_event : String → Bool
is_terminal_event type = type == event_completed || type == event_dead_lettered

-- The fields of the Service; the store and the queue are those that its programs call.
pub record Backend : Type 0 where
  pub resolve : String → Option Agent
  pub options : Options
  pub config : Settings

-- `Stats`
pub record Stats : Type 0 where
  pub queue_ready : ℕ
  pub queue_in_flight : ℕ
  pub workers : List WorkerInfo

unfoldable pub resolve_steps : (String → Option Agent) → List JobStep → Result Message (List Step)
resolve_steps resolve [] = ok []
resolve_steps resolve (input ∷ inputs) =
    let rest = resolve_steps resolve inputs in
    elim (resolve input.agent) [
      | none ↦ err (Message.unknown_agent input.agent)
      | some agent ↦ elim rest [
        | err e ↦ err e
        | ok steps ↦ ok (
            record {
              id = input.id;
              agent = some agent;
              prompt = input.prompt;
              depends_on = input.depends_on;
            }
            ∷ steps)
      ]
    ]

-- The results of a delivery before this one that are not run again.
unfoldable pub resumable : Job → List StepResult
resumable job = filter (λ (result : StepResult). is_succeeded result.status) job.results

-- Nanoseconds.
abbrev pub max_backoff : ℤ
max_backoff = pos 5000000000

unfoldable pub next_backoff : ℤ → ℤ
next_backoff current =
    let next = backoff 2 current in
    if is_nonpositive current
    then pos 100000000
    else if ltb_ℤ next max_backoff
    then next
    else max_backoff

abbrev pub pending_result : JobStep → StepResult
pending_result step = record {
  id = step.id;
  status = Status.pending;
  attempts = 0;
  output = "";
  error = Message.nothing;
}

-- The job that Submit records.
abbrev pub submitted_job : String → ℕ → List JobStep → Job
submitted_job id now steps = record {
  id = id;
  status = Status.pending;
  attempts = 0;
  owner = "";
  error = Message.nothing;
  created_at = now;
  started_at = none;
  finished_at = none;
  lease_expires_at = none;
  steps = steps;
  results = map pending_result steps;
}

-- What Submit does once the job is recorded.
unfoldable pub dispatch : Job → Program (Result Message Job)
dispatch job = do
  queued ← perform (Call.append_event job.id event_queued (Payload.of_job job))
  elim queued [
    | err e ↦ done (err (Message.error_text e))
    | ok _ ↦ do
      pushed ← perform (Call.push job.id)
      elim pushed [
        | err e ↦ do
          perform (Call.finish_job job.id "" Status.failed (Message.enqueue_failed e))
          done (err (Message.enqueue_job e))
        | ok _ ↦ done (ok job)
      ]
  ]

-- `NewID`, from what `rand.Read` gives, in hexadecimal digits.
abbrev pub new_id : Result String String → Result String String
new_id (err e) = err ("generate ID: " ++ e)
new_id (ok digits) = ok digits

-- `NewWorkerID`; the process ID is its text.
unfoldable pub new_worker_id : Result String String → String → String → Result String String
new_worker_id random host pid = elim (new_id random) [
  | err e ↦ err e
  | ok suffix ↦
      ok ((if host == "" then "unknown" else host) ++ ("-" ++ (pid ++ ("-" ++ slice suffix 0 8))))
]

-- The random digits and the time are arguments.
unfoldable pub submit :
    Backend → Schedule → Result String String → ℕ → List JobStep → Program (Result Message Job)
unfolding resolve_steps dispatch
submit backend schedule random now steps = elim (resolve_steps backend.resolve steps) [
  | err e ↦ done (err e)
  | ok workflow_steps ↦ elim (new_workflow schedule workflow_steps backend.options) [
    | err e ↦ done (err (Message.invalid e))
    | ok _ ↦ elim (new_id random) [
      | err e ↦ done (err (Message.error_text e))
      | ok id ↦ do
        created ← perform (Call.create (submitted_job id now steps))
        elim created [
          | err e ↦ done (err (Message.error_text e))
          | ok _ ↦ dispatch (submitted_job id now steps)
        ]
    ]
  ]
]

unfoldable pub get_job : String → Program (Result String (Option Job))
get_job id = perform (Call.get id)

unfoldable pub job_events : String → ℕ → Program (Result String (List EventRow))
job_events id last_seen = perform (Call.events id last_seen)

unfoldable pub stats : Backend → Program (Result String Stats)
stats backend = do
  depth ← perform Call.depth
  elim depth [
    | err e ↦ done (err e)
    | ok (ready, in_flight) ↦ do
      listed ← perform (Call.workers (worker_ttl backend.config))
      elim listed [
        | err e ↦ done (err e)
        | ok infos ↦
            done (ok (record { queue_ready = ready; queue_in_flight = in_flight; workers = infos }))
      ]
  ]
