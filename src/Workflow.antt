-- ===== src/Workflow.antt =====
-- internal/workflow/workflow.go: the data of a workflow.
pub mod Cycle
pub mod Validate
pub mod Retry
pub mod Render
pub mod Waves
pub mod Run
pub mod InOrder
mod Samples
use anchora.Prelude.{ℕ, String, Bool, true, false, Option, List, keys, Permᴰ}
use anchora.Prelude.Int.{ℤ}

pub data Status : Type 0 where
  pending running succeeded failed retrying skipped : Status

abbrev pub is_succeeded : Status → Bool
is_succeeded Status.succeeded = true
is_succeeded _ = false

abbrev pub is_failed : Status → Bool
is_failed Status.failed = true
is_failed _ = false

-- The errors of NewWorkflow, with the texts that their messages quote.
pub data ValidationError : Type 0 where
  negative_options no_steps missing_field dependency_cycle : ValidationError
  duplicate_id invalid_dependency : String → ValidationError
  unknown_dependency duplicate_dependency : String → String → ValidationError

-- An error's text, a constructor for each message that the code forms; `error_text` is the text of an
-- error of another package.
pub data Message : Type 0 where
  nothing : Message
  agent_error : String → Message
  context_error : String → Message
  output_unavailable : String → Message
  dependency_failed : Message
  did_not_run : Message
  nil_agent : Message
  error_text : String → Message
  unknown_agent disappeared no_longer_ours enqueue_failed enqueue_job : String → Message
  claim_failed load_failed : String → String → Message
  exceeded : ℤ → Message
  invalid : ValidationError → Message
  step_failed : String → Message → Message

-- What one call of `Agent.Run` returns.
pub data Reply : Type 0 where
  answer : String → Reply
  failure : Message → Reply

-- An agent, by what it replies to its calls of one step: the number of the call, then the prompt.
abbrev pub Agent : Type 0
Agent = ℕ → String → Reply

pub record Step : Type 0 where
  pub id : String
  pub agent : Option Agent
  pub prompt : String
  pub depends_on : List String

pub record StepResult : Type 0 where
  pub id : String
  pub status : Status
  pub attempts : ℕ
  pub output : String
  pub error : Message

pub record Options : Type 0 where
  pub max_retries : ℤ
  pub retry_delay : ℤ
  pub resume : List StepResult

pub record Workflow : Type 0 where
  pub steps : List Step
  pub options : Options

abbrev pub ids : List Step → List String
ids = keys (λ s. s.id)

-- `map[string]StepResult`
abbrev pub Results : Type 0
Results = String → Option StepResult

-- What Go and the scheduler leave open: in which order a `range` over a map visits its entries, and
-- in which order the results of one wave arrive on the channel.
pub record Schedule : Type 0 where
  pub visit_keys : List String → List String
  pub visit_keys_perm : (l : List String) → Permᴰ (visit_keys l) l
  pub visit_steps : List Step → List Step
  pub visit_steps_perm : (l : List Step) → Permᴰ (visit_steps l) l
  pub arrivals : List StepResult → List StepResult
  pub arrivals_perm : (l : List StepResult) → Permᴰ (arrivals l) l
