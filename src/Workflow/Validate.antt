-- ===== src/Workflow/Validate.antt =====
-- internal/workflow/workflow.go, NewWorkflow.
pub mod Sound
use anchora.Prelude.{
  String, Bool, true, false, ◌||◌, Option, none, some, List, [], ◌∷◌, contains, is_empty, ◌==◌,
  if◌then◌else◌, Result, ok, err, ◌>>=◌, ◌>>◌, reject_if,
}
use anchora.Prelude.Int.{is_negative}
use anchora.Workflow.{ValidationError, Step, Options, Workflow, Schedule, Agent}
use anchora.Workflow.Cycle.{has_cycle}

abbrev pub is_nil : Option Agent → Bool
is_nil none = true
is_nil (some agent) = false

-- The first loop; it returns `seen`.
unfoldable pub check_steps : List String → List Step → Result ValidationError (List String)
check_steps seen [] = ok seen
check_steps seen (step ∷ steps) = do
  reject_if (step.id == "" || step.prompt == "" || is_nil step.agent) ValidationError.missing_field
  reject_if (contains step.id seen) (ValidationError.duplicate_id step.id)
  check_steps (step.id ∷ seen) steps

-- The inner loop over `step.DependsOn`, with its own set `dependencies`.
unfoldable pub check_step_dependencies :
    List String → String → List String → List String → Result ValidationError (Unit {0})
check_step_dependencies seen id dependencies [] = ok tt
check_step_dependencies seen id dependencies (dependency ∷ rest) = do
  reject_if (dependency == "" || dependency == id) (ValidationError.invalid_dependency id)
  reject_if (if contains dependency seen then false else true)
      (ValidationError.unknown_dependency id dependency)
  reject_if (contains dependency dependencies) (ValidationError.duplicate_dependency id dependency)
  check_step_dependencies seen id (dependency ∷ dependencies) rest

-- The second loop.
unfoldable pub check_dependencies : List String → List Step → Result ValidationError (Unit {0})
check_dependencies seen [] = ok tt
check_dependencies seen (step ∷ steps) = do
  check_step_dependencies seen step.id [] step.depends_on
  check_dependencies seen steps

unfoldable pub new_workflow : Schedule → List Step → Options → Result ValidationError Workflow
unfolding check_steps check_step_dependencies check_dependencies
new_workflow schedule steps options = do
  reject_if (is_negative options.max_retries || is_negative options.retry_delay)
      ValidationError.negative_options
  reject_if (is_empty steps) ValidationError.no_steps
  seen ← check_steps [] steps
  check_dependencies seen steps
  reject_if (has_cycle schedule steps) ValidationError.dependency_cycle
  ok (record { steps = steps; options = options })
