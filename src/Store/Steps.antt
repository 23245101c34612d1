-- ===== src/Store/Steps.antt =====
-- internal/jobs/store.go: the steps of the jobs and the transaction that creates a job.
pub mod Fenced
pub mod Created
use anchora.Prelude.{
  ℕ, suc, ◌*◌, ◌/◌, String, Bool, true, false, not, ◌&&◌, ◌||◌, Option, none, some, List, [], ◌∷◌,
  ◌++◌, map, filter, nat_eq, ltb, ◌==◌, if◌then◌else◌,
}
use anchora.Workflow.{Status, Message, StepResult, is_succeeded, is_failed}
use anchora.Store.{JobRow, insert_job, find_job, update, affected, owned_by}

-- `workflow_steps`
pub record StepRow : Type 0 where
  pub job_id : String
  pub id : String
  pub ordinal : ℕ
  pub agent : String
  pub prompt : String
  pub depends_on : List String
  pub status : Status
  pub attempts : ℕ
  pub output : String
  pub error : Message
  pub owner : Option String
  pub started_at : Option ℕ
  pub finished_at : Option ℕ

-- `jobs.Step` and `jobs.Job`, whose times are those of Go, in nanoseconds.
pub record JobStep : Type 0 where
  pub id : String
  pub agent : String
  pub prompt : String
  pub depends_on : List String

pub record Job : Type 0 where
  pub id : String
  pub status : Status
  pub attempts : ℕ
  pub owner : String
  pub error : Message
  pub created_at : ℕ
  pub started_at : Option ℕ
  pub finished_at : Option ℕ
  pub lease_expires_at : Option ℕ
  pub steps : List JobStep
  pub results : List StepResult

-- A TIMESTAMPTZ column keeps the microseconds of a time.
abbrev pub microseconds : ℕ → ℕ
microseconds time = time / 1000

abbrev pub go_time : ℕ → ℕ
go_time column = column * 1000

abbrev pub go_times : Option ℕ → Option ℕ
go_times none = none
go_times (some column) = some (go_time column)

pub record Tables : Type 0 where
  pub jobs : List JobRow
  pub steps : List StepRow

-- A job row joined to a step's: `j.id=s.job_id AND …`
abbrev pub any_job : (JobRow → Bool) → String → List JobRow → Bool
any_job holds id [] = false
any_job holds id (row ∷ rows) = row.id == id && holds row || any_job holds id rows

abbrev pub step_claimable : String → String → String → List JobRow → StepRow → Bool
step_claimable job_id step_id worker jobs s =
    s.job_id == job_id
    && s.id == step_id
    && any_job (owned_by worker) s.job_id jobs
    && not (is_succeeded s.status)

abbrev pub set_step_claimed : String → ℕ → StepRow → StepRow
set_step_claimed worker now s = record s {
  status = Status.running;
  owner = some worker;
  started_at = some now;
}

unfoldable pub claim_step : String → String → String → ℕ → Tables → Tables × Bool
claim_step job_id step_id worker now db = (
  record db {
    steps =
        update (step_claimable job_id step_id worker db.jobs) (set_step_claimed worker now)
          db.steps;
  },
  nat_eq (affected (step_claimable job_id step_id worker db.jobs) db.steps) 1,
)

abbrev pub is_final : Status → Bool
is_final Status.succeeded = true
is_final Status.failed = true
is_final Status.skipped = true
is_final _ = false

abbrev pub step_writable : String → String → String → List JobRow → StepRow → Bool
step_writable job_id step_id worker jobs s =
    s.job_id == job_id
    && s.id == step_id
    && any_job (λ j. worker == "" || owned_by worker j) s.job_id jobs

abbrev pub set_result : StepResult → ℕ → StepRow → StepRow
set_result result now s = record s {
  status = result.status;
  attempts = result.attempts;
  output = result.output;
  error = result.error;
  finished_at = if is_final result.status then some now else s.finished_at;
}

unfoldable pub update_step : String → String → StepResult → ℕ → Tables → Tables
update_step job_id worker result now db = record db {
  steps = update (step_writable job_id result.id worker db.jobs) (set_result result now) db.steps;
}

abbrev pub has_step : String → String → List StepRow → Bool
has_step job_id id [] = false
has_step job_id id (s ∷ rows) = s.job_id == job_id && s.id == id || has_step job_id id rows

abbrev pub new_row : String → ℕ → JobStep → StepResult → StepRow
new_row job_id i step result = record {
  job_id = job_id;
  id = step.id;
  ordinal = i;
  agent = step.agent;
  prompt = step.prompt;
  depends_on = step.depends_on;
  status = result.status;
  attempts = result.attempts;
  output = result.output;
  error = result.error;
  owner = none;
  started_at = none;
  finished_at = none;
}

-- The loop over `job.Steps`. It fails on a key that is taken, and where `job.Results` is too short.
unfoldable pub insert_steps :
    String → ℕ → List JobStep → List StepResult → List StepRow → Option (List StepRow)
insert_steps job_id i [] results rows = some rows
insert_steps job_id i (step ∷ steps) [] rows = none
insert_steps job_id i (step ∷ steps) (result ∷ results) rows =
    let rest =
      insert_steps job_id (suc i) steps results (rows ++ new_row job_id i step result ∷ []) in
    if has_step job_id step.id rows then none else rest

-- The transaction: `none` is an error, and nothing is written.
unfoldable pub create : Job → Tables → Option Tables
unfolding insert_job insert_steps
create job db = elim (insert_job job.id job.status (microseconds job.created_at) db.jobs) [
  | none ↦ none
  | some jobs ↦ elim (insert_steps job.id 0 job.steps job.results db.steps) [
    | none ↦ none
    | some steps ↦ some (record { jobs = jobs; steps = steps })
  ]
]

-- `ORDER BY ordinal`
unfoldable pub insert_by_ordinal : StepRow → List StepRow → List StepRow
insert_by_ordinal s [] = s ∷ []
insert_by_ordinal s (other ∷ rest) =
    let later = insert_by_ordinal s rest in
    if ltb other.ordinal s.ordinal then other ∷ later else s ∷ other ∷ rest

unfoldable pub sort_by_ordinal : List StepRow → List StepRow
unfolding insert_by_ordinal
sort_by_ordinal [] = []
sort_by_ordinal (s ∷ rows) = insert_by_ordinal s (sort_by_ordinal rows)

abbrev pub step_of : StepRow → JobStep
step_of s = record { id = s.id; agent = s.agent; prompt = s.prompt; depends_on = s.depends_on }

abbrev pub step_result_of : StepRow → StepResult
step_result_of s = record {
  id = s.id;
  status = s.status;
  attempts = s.attempts;
  output = s.output;
  error = s.error;
}

abbrev pub owner_name : Option String → String
owner_name none = ""
owner_name (some owner) = owner

-- `none` is a job that does not exist.
unfoldable pub get : String → Tables → Option Job
unfolding find_job sort_by_ordinal
get id db = elim (find_job id db.jobs) [
  | none ↦ none
  | some row ↦
      let rows = sort_by_ordinal (filter (λ (s : StepRow). s.job_id == id) db.steps) in
      some (record {
        id = id;
        status = row.status;
        attempts = row.attempts;
        owner = owner_name row.owner;
        error = row.error;
        created_at = go_time row.created_at;
        started_at = go_times row.started_at;
        finished_at = go_times row.finished_at;
        lease_expires_at = go_times row.lease_expires_at;
        steps = map step_of rows;
        results = map step_result_of rows;
      })
]
