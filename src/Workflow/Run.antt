-- ===== src/Workflow/Run.antt =====
-- internal/workflow/workflow.go, Workflow.Run.
pub mod Invariant
pub mod Skips
pub mod Progress
pub mod Arrivals
pub mod Resume
pub mod Ends
pub mod Complete
pub mod Report
pub mod Settled
pub mod Determinism
use anchora.Prelude.{
  ℕ, zero, suc, String, Bool, true, false, not, ◌&&◌, Option, none, some, List, [], ◌∷◌, ◌++◌, map,
  length, filter, is_empty, contains, ◌==◌, if◌then◌else◌, Result, ok, err,
}
use anchora.Workflow.{
  Status, Message, failure, Agent, Step, StepResult, Options, Workflow, Results, Schedule,
  is_succeeded, is_failed, ids,
}
use anchora.Workflow.Render.{render_prompt}
use anchora.Workflow.Retry.{run_step}
use anchora.Workflow.Waves.{put, ready_wave, skip_blocked}

-- The context: its error if it ends the n-th wait of a step.
abbrev pub Context : Type 0
Context = String → ℕ → Option Message

pub record WorkflowError : Type 0 where
  pub step_id : String
  pub cause : Message

-- What Run returns, and the results for which it called `OnStepState`, in order.
pub record Outcome : Type 0 where
  pub results : List StepResult
  pub error : Option WorkflowError
  pub observed : List StepResult

-- The variables of Run's loop.
pub record State : Type 0 where
  pub remaining : List Step
  pub results : Results
  pub observed : List StepResult

-- `remaining[step.ID] = step`
unfoldable pub add_remaining : Step → List Step → List Step
add_remaining step [] = step ∷ []
add_remaining step (other ∷ rest) =
    let later = add_remaining step rest in
    if other.id == step.id then step ∷ rest else other ∷ later

unfoldable pub all_remaining : List Step → List Step → List Step
unfolding add_remaining
all_remaining remaining [] = remaining
all_remaining remaining (step ∷ steps) = all_remaining (add_remaining step remaining) steps

-- `_, ok := remaining[id]`
abbrev pub is_remaining : String → List Step → Bool
is_remaining id remaining = contains id (ids remaining)

-- `delete(remaining, id)`
unfoldable pub delete : String → List Step → List Step
delete id remaining = filter (λ step. not (step.id == id)) remaining

-- The loop over `Resume`.
unfoldable pub resume_from : List StepResult → List Step → Results → List Step × Results
unfolding delete
resume_from [] remaining results = (remaining, results)
resume_from (prior ∷ rest) remaining results =
    let taken = is_succeeded prior.status && is_remaining prior.id remaining in
    resume_from rest (if taken then delete prior.id remaining else remaining)
      (if taken then put prior results else results)

-- A call of a nil agent would panic; NewWorkflow admits none.
abbrev pub agent_of : Option Agent → Agent
agent_of none = λ call prompt. failure Message.nil_agent
agent_of (some agent) = agent

-- The drain loop: `results[result.ID] = result` for each arrival.
unfoldable pub put_all : List StepResult → Results → Results
put_all [] results = results
put_all (result ∷ rest) results = put_all rest (put result results)

module _ (context : Context) (options : Options) where
  -- What a ready step sends to the channel.
  unfoldable pub step_result : Results → Step → StepResult
  unfolding render_prompt run_step
  step_result results step = elim (render_prompt step.prompt results) [
    | err message ↦ record {
      id = step.id;
      status = Status.failed;
      attempts = 0;
      output = "";
      error = message;
    }
    | ok prompt ↦ (run_step options (context step.id) step.id (agent_of step.agent) prompt).0
  ]

module _ (schedule : Schedule) (context : Context) (options : Options) where
  -- The body of the loop, for a wave that is not empty.
  unfoldable pub run_wave : State → List Step → List Step → State
  unfolding step_result put_all skip_blocked
  run_wave s ready remaining =
      let completed = schedule.arrivals (map (step_result context options s.results) ready) in
      let (left, results) = skip_blocked schedule remaining (put_all completed s.results) in
      record { remaining = left; results = results; observed = s.observed ++ completed }

  -- The loop `for len(remaining) > 0`, on fuel.
  unfoldable pub run_waves : ℕ → State → State
  unfolding run_wave ready_wave
  run_waves zero s = s
  run_waves (suc fuel) s = elim (is_empty s.remaining) [
    | true ↦ s
    | false ↦
        let (ready, remaining) = ready_wave schedule s.remaining s.results in
        elim (is_empty ready) [
          | true ↦ record s { remaining = remaining }
          | false ↦ run_waves fuel (run_wave s ready remaining)
        ]
  ]

abbrev pub result_of : Results → Step → StepResult
result_of results step = elim (results step.id) [
  | some result ↦ result
  | none ↦ record {
    id = step.id;
    status = Status.skipped;
    attempts = 0;
    output = "";
    error = Message.did_not_run;
  }
]

-- The last loop: `ordered` and `workflowErr`.
unfoldable pub collect : Results → List Step → List StepResult × Option WorkflowError
collect results [] = ([], none)
collect results (step ∷ steps) =
    let result = result_of results step in
    let (ordered, later) = collect results steps in
    (
      result ∷ ordered,
      if is_failed result.status
          then some (record { step_id = step.id; cause = result.error })
          else later,
    )

unfoldable pub start : Workflow → State
unfolding all_remaining resume_from
start w =
    let (remaining, results) =
      resume_from w.options.resume (all_remaining [] w.steps) (λ id. none) in
    record { remaining = remaining; results = results; observed = [] }

-- Each wave takes a step away, so one round for each step is enough: see `Complete`.
unfoldable pub run : Schedule → Context → Workflow → Outcome
unfolding start run_waves collect
run schedule context w =
    let s = run_waves schedule context w.options (suc (length w.steps)) (start w) in
    let (ordered, error) = collect s.results w.steps in
    record { results = ordered; error = error; observed = s.observed }
