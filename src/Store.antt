-- ===== src/Store.antt =====
-- internal/jobs/store.go: the tables of the database and the statements on them. Times are in
-- microseconds, durations in nanoseconds; a statement runs at one time, which `now()` reads.
pub mod Rows
pub mod Ownership
pub mod Consistent
pub mod Settled
pub mod Unique
pub mod Claimable
pub mod Answers
pub mod Steps
pub mod Registry
mod Samples
use anchora.Prelude.{
  ℕ, zero, suc, ◌+◌, ◌*◌, ◌/◌, String, Bool, true, false, not, ◌&&◌, ◌||◌, Option, none, some, List,
  [], ◌∷◌, ◌++◌, map, length, filter, contains, nat_eq, leb, ◌==◌, if◌then◌else◌, keys,
}
use anchora.Prelude.Int.{ℤ, pos_part, is_nonpositive}
use anchora.Workflow.{Status, Message}
use anchora.Queue.{default_reclaim_batch}

-- `workflow_jobs`
pub record JobRow : Type 0 where
  pub id : String
  pub status : Status
  pub created_at : ℕ
  pub started_at : Option ℕ
  pub finished_at : Option ℕ
  pub attempts : ℕ
  pub owner : Option String
  pub lease_expires_at : Option ℕ
  pub error : Message
  pub updated_at : ℕ

-- `make_interval(secs => lease.Milliseconds() / 1000)`
abbrev pub interval : ℕ → ℕ
interval duration = duration / 1000000 * 1000

abbrev pub is_terminal : Status → Bool
is_terminal Status.succeeded = true
is_terminal Status.failed = true
is_terminal _ = false

abbrev pub is_running : Status → Bool
is_running Status.running = true
is_running _ = false

-- `owner=$2`, which is not true for NULL.
abbrev pub owned_by : String → JobRow → Bool
owned_by worker row = elim row.owner [ none ↦ false | some other ↦ other == worker ]

-- `owner IS NULL`
abbrev pub is_unowned : JobRow → Bool
is_unowned row = elim row.owner [ none ↦ true | some _ ↦ false ]

-- `lease_expires_at IS NULL OR lease_expires_at <= now()`
abbrev pub is_expired : ℕ → JobRow → Bool
is_expired now row = elim row.lease_expires_at [ none ↦ true | some until ↦ leb until now ]

-- `UPDATE workflow_jobs SET … WHERE …`, and the rows that it matches.
abbrev pub update {ℓ} : {Row : Type ℓ} → (Row → Bool) → (Row → Row) → List Row → List Row
update matches set rows = map (λ row. if matches row then set row else row) rows

abbrev pub affected {ℓ} : {Row : Type ℓ} → (Row → Bool) → List Row → ℕ
affected matches rows = length (filter matches rows)

abbrev pub claimable : String → String → ℕ → JobRow → Bool
claimable id worker now row =
    row.id == id
    && (not (is_terminal row.status)
        && (is_unowned row || owned_by worker row || is_expired now row))

abbrev pub coalesce : Option ℕ → ℕ → Option ℕ
coalesce none now = some now
coalesce (some time) now = some time

abbrev pub set_claimed : String → ℕ → ℕ → JobRow → JobRow
set_claimed worker lease now row = record row {
  status = Status.running;
  owner = some worker;
  lease_expires_at = some (now + interval lease);
  started_at = coalesce row.started_at now;
  attempts = suc row.attempts;
  updated_at = now;
}

-- `RETURNING attempts`, of the first row.
abbrev pub first_attempts : List JobRow → ℕ × Bool
first_attempts [] = (0, false)
first_attempts (row ∷ rows) = (row.attempts, true)

unfoldable pub claim_job : String → String → ℕ → ℕ → List JobRow → List JobRow × (ℕ × Bool)
claim_job id worker lease now rows = (
  update (claimable id worker now) (set_claimed worker lease now) rows,
  first_attempts (map (set_claimed worker lease now) (filter (claimable id worker now) rows)),
)

abbrev pub runs_for : String → String → JobRow → Bool
runs_for id worker row = row.id == id && (owned_by worker row && is_running row.status)

abbrev pub set_extended : ℕ → ℕ → JobRow → JobRow
set_extended lease now row = record row {
  lease_expires_at = some (now + interval lease);
  updated_at = now;
}

unfoldable pub extend_lease : String → String → ℕ → ℕ → List JobRow → List JobRow × Bool
extend_lease id worker lease now rows = (
  update (runs_for id worker) (set_extended lease now) rows,
  nat_eq (affected (runs_for id worker) rows) 1,
)

abbrev pub finishable : String → String → JobRow → Bool
finishable id worker row = row.id == id && (owned_by worker row || worker == "" && is_unowned row)

abbrev pub set_finished : Status → Message → ℕ → JobRow → JobRow
set_finished status error now row = record row {
  status = status;
  error = error;
  finished_at = some now;
  owner = none;
  lease_expires_at = none;
  updated_at = now;
}

unfoldable pub finish_job :
    String → String → Status → Message → ℕ → List JobRow → List JobRow × Bool
finish_job id worker status error now rows = (
  update (finishable id worker) (set_finished status error now) rows,
  nat_eq (affected (finishable id worker) rows) 1,
)

abbrev pub set_pending : ℕ → JobRow → JobRow
set_pending now row = record row {
  status = Status.pending;
  owner = none;
  lease_expires_at = none;
  updated_at = now;
}

unfoldable pub release_job : String → String → ℕ → List JobRow → List JobRow
release_job id worker now rows = update (runs_for id worker) (set_pending now) rows

-- `lease_expires_at IS NOT NULL AND lease_expires_at <= now() - grace`
abbrev pub is_abandoned : ℕ → ℕ → JobRow → Bool
is_abandoned grace now row =
    is_running row.status
    && elim row.lease_expires_at [ none ↦ false | some until ↦ leb (until + interval grace) now ]

-- Which abandoned jobs `ORDER BY … LIMIT … FOR UPDATE SKIP LOCKED` takes is up to the database.
abbrev pub Selection : Type 0
Selection = ℕ → List JobRow → List String

abbrev pub store_limit : ℤ → ℕ
store_limit limit = if is_nonpositive limit then default_reclaim_batch else pos_part limit

unfoldable pub reclaim_expired_jobs :
    Selection → ℕ → ℤ → ℕ → List JobRow → List JobRow × List String
reclaim_expired_jobs select grace limit now rows =
    let selected = select (store_limit limit) (filter (is_abandoned grace now) rows) in
    let matches = λ (row : JobRow). contains row.id selected && is_abandoned grace now row in
    (update matches (set_pending now) rows, keys (λ (row : JobRow). row.id) (filter matches rows))

abbrev pub new_job : String → Status → ℕ → JobRow
new_job id status created_at = record {
  id = id;
  status = status;
  created_at = created_at;
  started_at = none;
  finished_at = none;
  attempts = 0;
  owner = none;
  lease_expires_at = none;
  error = Message.nothing;
  updated_at = created_at;
}

-- The first statement of Create: the row is refused if its key is taken.
unfoldable pub insert_job : String → Status → ℕ → List JobRow → Option (List JobRow)
insert_job id status created_at rows =
    if contains id (keys (λ (row : JobRow). row.id) rows)
    then none
    else some (rows ++ new_job id status created_at ∷ [])

unfoldable pub find_job : String → List JobRow → Option JobRow
find_job id [] = none
find_job id (row ∷ rows) = if row.id == id then some row else find_job id rows

-- The statements that write `workflow_jobs`, with the arguments of their methods.
pub data Operation : Type 0 where
  creates : String → Status → Operation
  claims : String → String → ℕ → Operation
  extends : String → String → ℕ → Operation
  finishes : String → String → Status → Message → Operation
  releases : String → String → Operation
  reclaims : Selection → ℕ → ℤ → Operation

unfoldable pub exec : Operation → ℕ → List JobRow → List JobRow
unfolding claim_job extend_lease finish_job release_job reclaim_expired_jobs insert_job
exec (Operation.creates id status) now rows = elim (insert_job id status now rows) [
  | none ↦ rows
  | some rows' ↦ rows'
]
exec (Operation.claims id worker lease) now rows = (claim_job id worker lease now rows).0
exec (Operation.extends id worker lease) now rows = (extend_lease id worker lease now rows).0
exec (Operation.finishes id worker status error) now rows =
    (finish_job id worker status error now rows).0
exec (Operation.releases id worker) now rows = release_job id worker now rows
exec (Operation.reclaims select grace limit) now rows =
    (reclaim_expired_jobs select grace limit now rows).0

-- Statements of all workers, each with its time, in the order in which the database runs them.
unfoldable pub exec_all : List (ℕ × Operation) → List JobRow → List JobRow
unfolding exec
exec_all [] rows = rows
exec_all (op ∷ ops) rows = exec_all ops (exec op.1 op.0 rows)
