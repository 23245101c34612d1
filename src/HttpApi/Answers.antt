-- ===== src/HttpApi/Answers.antt =====
-- internal/httpapi/router.go, runHandler: which status a workflow gets.
use anchora.Prelude.{String, Bool, true, false, ◌||◌, Option, List, [], ◌∷◌, ◌≡◌, ◌⊎◌, ok}
use anchora.Workflow.{Message, Agent, Step, StepResult, Options, Workflow, Schedule, is_failed}
use anchora.Workflow.Validate.{new_workflow}
use anchora.Workflow.Run.{Context, run}
use anchora.HttpApi.{StepRequest, Response, Body, write_json, request_steps}

abbrev pub has_failure : List StepResult → Bool
has_failure [] = false
has_failure (r ∷ results) = is_failed r.status || has_failure results

module _ (resolve : String → Option Agent) (options : Options) (schedule : Schedule)
    (context : Context) where
  -- The request is a valid workflow of known agents.
  abbrev pub Runs : List StepRequest → Workflow → Type 0
  Runs inputs w =
      (ready : List Step) × (request_steps resolve inputs ≡ ok ready)
      × (new_workflow schedule ready options ≡ ok w)

  -- What a response tells of the request.
  abbrev pub Tells : List StepRequest → Response → Type 0
  Tells inputs r =
      ((w : Workflow) × Runs inputs w
        × (r ≡ write_json 200 (Body.run_steps (run schedule context w).results))
        × (has_failure (run schedule context w).results ≡ false))
      ⊎ ((w : Workflow) × Runs inputs w
          × (r ≡ write_json 502 (Body.run_steps (run schedule context w).results))
          × (has_failure (run schedule context w).results ≡ true))
      ⊎ ((m : Message) × (r ≡ write_json 400 (Body.error m)) × ((w : Workflow) → Runs inputs w → ⊥))
