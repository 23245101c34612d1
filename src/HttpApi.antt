-- ===== src/HttpApi.antt =====
-- internal/httpapi/router.go: the handlers of the HTTP API. The JSON decoder and encoder, the router
-- and the parser of numbers are those of other packages: the handlers get what these return.
pub mod Stream
pub mod Answers
mod Samples
use anchora.Prelude.{
  ℕ, String, Bool, true, false, Option, none, some, List, [], ◌∷◌, ◌++◌, map, ◌==◌, if◌then◌else◌,
  Result, ok, err,
}
use anchora.Prelude.Int.{ℤ}
use anchora.Workflow.{Message, ValidationError, Agent, Step, StepResult, Options, Schedule}
use anchora.Workflow.Validate.{new_workflow}
use anchora.Workflow.Run.{Context, run}
use anchora.Store.Steps.{JobStep, Job}
use anchora.Service.Program.{Program, done, ◌>>=◌}
use anchora.Service.Backend.{Backend, Stats, submit, get_job, stats}

-- `stepRequest`
pub record StepRequest : Type 0 where
  pub id : String
  pub agent : String
  pub prompt : String
  pub depends_on : List String

-- The routes of a router, with and without a job backend.
pub data Route : Type 0 where
  health run_workflow submit_job read_job stream_events read_cluster : Route

unfoldable pub routes : Bool → List Route
routes with_jobs =
    Route.health
    ∷ Route.run_workflow
    ∷ (if with_jobs
        then Route.submit_job ∷ Route.read_job ∷ Route.stream_events ∷ Route.read_cluster ∷ []
        else [])

-- The values that `writeJSON` encodes.
pub data Body : Type 0 where
  healthy : Body
  error : Message → Body
  run_steps : List StepResult → Body
  job_state : Job → Body
  cluster : Stats → Body

pub record Response : Type 0 where
  pub status : ℕ
  pub body : Body

abbrev pub write_json : ℕ → Body → Response
write_json status body = record { status = status; body = body }

abbrev pub write_error : ℕ → Message → Response
write_error status message = write_json status (Body.error message)

abbrev pub health_handler : Response
health_handler = write_json 200 Body.healthy

abbrev pub invalid_json : Message
invalid_json = Message.error_text "invalid JSON request"

-- The loop over the request's steps.
unfoldable pub request_steps :
    (String → Option Agent) → List StepRequest → Result Message (List Step)
request_steps resolve [] = ok []
request_steps resolve (input ∷ inputs) =
    let rest = request_steps resolve inputs in
    elim (resolve input.agent) [
      | none ↦ err (Message.unknown_agent input.agent)
      | some agent ↦ elim rest [
        | err e ↦ err e
        | ok steps ↦ ok (
            record {
              id = input.id;
              agent = some agent;
              prompt = input.prompt;
              depends_on = input.depends_on;
            }
            ∷ steps)
      ]
    ]

-- `decoded` is what decodeRunRequest makes of the body. Run returns no error but a `WorkflowError`.
unfoldable pub run_handler :
    (String → Option Agent) → Options → Schedule → Context → Option (List StepRequest) → Response
unfolding request_steps run
run_handler resolve options schedule context none = write_error 400 invalid_json
run_handler resolve options schedule context (some inputs) = elim (request_steps resolve inputs) [
  | err e ↦ write_error 400 e
  | ok ready ↦ elim (new_workflow schedule ready options) [
    | err e ↦ write_error 400 (Message.invalid e)
    | ok w ↦
        let outcome = run schedule context w in
        elim outcome.error [
          | some e ↦ write_json 502 (Body.run_steps outcome.results)
          | none ↦ write_json 200 (Body.run_steps outcome.results)
        ]
  ]
]

abbrev pub job_step : StepRequest → JobStep
job_step step = record {
  id = step.id;
  agent = step.agent;
  prompt = step.prompt;
  depends_on = step.depends_on;
}

unfoldable pub submit_job_handler :
    Backend → Schedule → Result String String → ℕ → Option (List StepRequest) → Program Response
submit_job_handler backend schedule new_id now none = done (write_error 400 invalid_json)
submit_job_handler backend schedule new_id now (some inputs) = do
  submitted ← submit backend schedule new_id now (map job_step inputs)
  elim submitted [
    | err e ↦ done (write_error 400 e)
    | ok job ↦ done (write_json 202 (Body.job_state job))
  ]

unfoldable pub get_job_handler : String → Program Response
unfolding get_job
get_job_handler id = do
  loaded ← get_job id
  elim loaded [
    | err e ↦ done (write_error 500 (Message.error_text e))
    | ok none ↦ done (write_error 404 (Message.error_text "job not found"))
    | ok (some job) ↦ done (write_json 200 (Body.job_state job))
  ]

unfoldable pub cluster_handler : Backend → Program Response
unfolding stats
cluster_handler backend = do
  summary ← stats backend
  elim summary [
    | err e ↦ done (write_error 500 (Message.error_text e))
    | ok s ↦ done (write_json 200 (Body.cluster s))
  ]
