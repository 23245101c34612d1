-- ===== src/HttpApi/Samples.antt =====
-- Requests to the HTTP API, and the theorems of its handlers applied to them.
use anchora.Prelude.{ℕ, String, if◌then◌else◌, Option, none, some, List, [], ◌∷◌, ◌≡◌, refl, ◌==◌}
use anchora.Prelude.Int.{pos}
use anchora.Workflow.InOrder.{in_order}
use anchora.Workflow.{Message, Agent, answer, failure, Options}
use anchora.Workflow.Cycle.{has_cycle}
use anchora.Workflow.Validate.{new_workflow}
use anchora.Workflow.Run.{Context, run}
use anchora.Store.Registry.{EventRow, Log, events}
use anchora.HttpApi.{StepRequest, run_handler}
use anchora.HttpApi.Stream.{stream, resume_after}
use anchora.HttpApi.Stream.Delivery.{polls}

abbrev echo : Agent
echo n prompt = answer prompt

abbrev broken : Agent
broken n prompt = failure (Message.agent_error "down")

abbrev agents : String → Option Agent
agents name = if name == "echo" then some echo else if name == "broken" then some broken else none

abbrev options : Options
options = record { max_retries = pos 0; retry_delay = pos 0; resume = [] }

abbrev patient : Context
patient id n = none

abbrev request : String → List StepRequest
request agent = record { id = "a"; agent = agent; prompt = "hello"; depends_on = [] } ∷ []

abbrev status_of : String → ℕ
status_of agent = (run_handler agents options in_order patient (some (request agent))).status

program : Unit {0}
unfolding run_handler new_workflow has_cycle run ◌==◌ resume_after stream events
program = tt

answered : status_of "echo" ≡ 200
unfolding program
answered = refl

not_delivered : status_of "broken" ≡ 502
unfolding program
not_delivered = refl

unknown : status_of "other" ≡ 400
unfolding program
unknown = refl

abbrev event : ℕ → String → String → EventRow
event id job type = record { id = id; job_id = job; type = type; payload = "{}"; created_at = 0 }

abbrev first_log : Log
first_log = record { rows = event 1 "j1" "job.queued" ∷ event 2 "j2" "job.queued" ∷ []; next = 3 }

abbrev second_log : Log
second_log = record {
  rows =
      event 1 "j1" "job.queued"
      ∷ event 2 "j2" "job.queued"
      ∷ event 3 "j1" "job.running"
      ∷ event 4 "j1" "job.completed"
      ∷ [];
  next = 5;
}

streamed :
    polls (first_log ∷ second_log ∷ []) (stream "j1" 1 0)
    ≡ some
        (event 1 "j1" "job.queued" ∷ event 3 "j1" "job.running" ∷ event 4 "j1" "job.completed" ∷ [])
unfolding program
streamed = refl
