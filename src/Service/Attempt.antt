-- ===== src/Service/Attempt.antt =====
-- internal/jobs/jobs.go, runJob: the run of one delivery's workflow, and `fencedAgent`.
use anchora.Prelude.{
  ℕ, zero, suc, String, Bool, true, false, not, ◌||◌, Option, none, some, List, [], ◌∷◌, ◌++◌, map,
  is_empty, length, if◌then◌else◌, ◌==◌, Result, ok, err,
}
use anchora.Workflow.{Message, failure, Agent, Step, StepResult, Options, Schedule, Workflow}
use anchora.Workflow.Validate.{new_workflow}
use anchora.Workflow.Run.{Context, WorkflowError, agent_of, run}
use anchora.Store.Steps.{Job}
use anchora.Service.Program.{Call, Payload, Program, done, ◌>>=◌, ◌>>◌, perform}
use anchora.Service.Backend.{Backend, resolve_steps, resumable, event_resumed, event_step_completed}
use anchora.Service.Lease.{Cause, Tick, RunState, fresh, tick, hold_lease}

-- What can happen while the workflow runs: a tick, the call of an agent for a step, or a result that
-- Run reports.
pub data Moment : Type 0 where
  ticks : Tick → Moment
  claims : String → Moment
  records : StepResult → Moment

-- What the scheduler, the clock and the agents bring to one delivery: the ticks before the job is
-- loaded, the moments of the run and the ticks after it, in their order.
pub record Circumstances : Type 0 where
  pub schedule : Schedule
  pub context : Context
  pub early : List Tick
  pub moments : List Moment
  pub late : List Tick

abbrev pub claims_of : String → List (String × Result String Bool) → List (Result String Bool)
claims_of step_id [] = []
claims_of step_id (entry ∷ rest) =
    let later = claims_of step_id rest in if entry.0 == step_id then entry.1 ∷ later else later

-- What the n-th claim returned. One that the moments of the run leave out counts as failed.
abbrev pub nth_claim : ℕ → List (Result String Bool) → Result String Bool
nth_claim n [] = err ""
nth_claim zero (claim ∷ rest) = claim
nth_claim (suc n) (claim ∷ rest) = nth_claim n rest

-- `fencedAgent.Run`
unfoldable pub fenced_agent : List (String × Result String Bool) → String → Agent → Agent
fenced_agent claimed step_id inner n prompt = elim (nth_claim n (claims_of step_id claimed)) [
  | err e ↦ failure (Message.claim_failed step_id e)
  | ok false ↦ failure (Message.no_longer_ours step_id)
  | ok true ↦ inner n prompt
]

abbrev pub fenced_step : List (String × Result String Bool) → Step → Step
fenced_step claimed step = record step {
  agent = some (fenced_agent claimed step.id (agent_of step.agent));
}

-- What runJob returns: `infraErr`, or else the results and `jobErr`.
pub data JobOutcome : Type 0 where
  interrupted : Cause → JobOutcome
  concluded : List StepResult → Option Message → JobOutcome

abbrev pub job_error : Option WorkflowError → Option Message
job_error none = none
job_error (some e) = some (Message.step_failed e.step_id e.cause)

-- The end of runJob. A `WorkflowError` only quotes the text of its cause, so that `errors.Is` never
-- finds ErrLeaseLost in it.
unfoldable pub classify : RunState → List StepResult → Option WorkflowError → JobOutcome
classify s results error = elim s.cause [
  | some cause ↦ interrupted cause
  | none ↦ if s.fence then interrupted Cause.lease_lost else concluded results (job_error error)
]

abbrev pub refused : Result String Bool → Bool
refused (err e) = false
refused (ok claimed) = not claimed

abbrev pub resumed_options : Backend → Job → Options
resumed_options backend job = record backend.options { resume = resumable job }

module _ (backend : Backend) (worker id : String) where
  -- `OnStepState` is the case of `records`.
  unfoldable pub moment : Moment → RunState → Program RunState
  unfolding tick
  moment (Moment.ticks t) s = tick backend worker id t s
  moment (Moment.claims step_id) s = do
    claimed ← perform (Call.claim_step id step_id worker)
    done (record s {
      fence = s.fence || refused claimed;
      claimed = s.claimed ++ (step_id, claimed) ∷ [];
    })
  moment (Moment.records result) s = do
    perform (Call.update_step id worker result)
    perform (Call.append_event id event_step_completed (Payload.of_result result))
    done s

  unfoldable pub all_moments : List Moment → RunState → Program RunState
  unfolding moment
  all_moments [] s = done s
  all_moments (m ∷ later) s = moment m s >>= λ s'. all_moments later s'

  -- `wf.Run(ctx)`, with the steps' agents fenced by the claims.
  unfoldable pub run_workflow :
      Circumstances → Job → List Step → RunState → Program (RunState × JobOutcome)
  unfolding all_moments classify run resumable
  run_workflow c job steps s = do
    s' ← all_moments c.moments s
    let fenced : Workflow = record {
      steps = map (fenced_step s'.claimed) steps;
      options = resumed_options backend job;
    } in
        let outcome = run c.schedule c.context fenced in
        done (s', classify s' outcome.results outcome.error)

  unfoldable pub announce_resumed : Job → Program (Unit {0})
  unfolding resumable
  announce_resumed job =
      if is_empty (resumable job)
      then done tt
      else (perform (Call.append_event id event_resumed (Payload.of_count (length (resumable job))))
          >> done tt)

  -- `fencedAgent` is never nil, and NewWorkflow reads no more of an agent.
  unfoldable pub run_job : Circumstances → Program (RunState × JobOutcome)
  unfolding hold_lease resolve_steps announce_resumed run_workflow
  run_job c = do
    s ← hold_lease backend worker id c.early fresh
    loaded ← perform (Call.get id)
    elim loaded [
      | err e ↦ done (s, interrupted (Cause.load_failed e))
      | ok none ↦ done (s, concluded [] (some (Message.disappeared id)))
      | ok (some job) ↦ elim (resolve_steps backend.resolve job.steps) [
        | err e ↦ done (s, concluded [] (some e))
        | ok steps ↦ do
          announce_resumed job
          elim (new_workflow c.schedule (map (fenced_step []) steps)
              (resumed_options backend job)) [
                | err e ↦ done (s, concluded [] (some (Message.invalid e)))
                | ok _ ↦ run_workflow c job steps s
              ]
      ]
    ]
