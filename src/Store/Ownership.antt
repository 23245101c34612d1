-- ===== src/Store/Ownership.antt =====
-- Who may change the row of a job: the fencing of the statements on the lease.
use anchora.Prelude.{
  ℕ, ◌<◌, String, ◌≡◌, refl, ap, ◌∙◌, Bool, true, false, none, some, List, [], ◌∷◌, ◌==◌, ◌&&◌,
  arith, All,
}
use anchora.Workflow.{Status}
use anchora.Store.{JobRow, Operation, find_job, exec, exec_all, is_terminal, is_running}
use anchora.Store.Rows.{act, find-exec}

-- The statement is one of this worker.
abbrev pub acts_for : String → Operation → Bool
acts_for worker (Operation.creates id status) = false
acts_for worker (Operation.claims id w lease) = worker == w
acts_for worker (Operation.extends id w lease) = worker == w
acts_for worker (Operation.finishes id w status error) = worker == w
acts_for worker (Operation.releases id w) = worker == w
acts_for worker (Operation.reclaims select grace limit) = false

act-owned :
    (op : Operation) (now until : ℕ) (owner : String) (rows : List JobRow) (row : JobRow)
    → row.owner ≡ some owner
    → row.lease_expires_at ≡ some until
    → acts_for owner op ≡ false
    → now < until
    → act op now rows row ≡ row
act-owned (Operation.creates id status) now until owner rows row o l other less = refl
act-owned (Operation.claims id w lease) now until owner rows row o l other less =
    ground (arith, o, l, other)
act-owned (Operation.extends id w lease) now until owner rows row o l other less =
    ground (arith, o, other)
act-owned (Operation.finishes id w status error) now until owner rows row o l other less =
    ground (arith, o, other)
act-owned (Operation.releases id w) now until owner rows row o l other less =
    ground (arith, o, other)
act-owned (Operation.reclaims select grace limit) now until owner rows row o l other less =
    ground (arith, o, l)

-- The row of a job that a worker holds stays as it is under all statements of others before its
-- lease expires: no claim, extension, finish, release or reclaim of theirs changes it.
pub exec_all-owned :
    (ops : List (ℕ × Operation)) (id owner : String) (until : ℕ) (rows : List JobRow) (row : JobRow)
    → find_job id rows ≡ some row
    → row.owner ≡ some owner
    → row.lease_expires_at ≡ some until
    → All (λ op. (op.0 < until) × (acts_for owner op.1 ≡ false)) ops
    → find_job id (exec_all ops rows) ≡ some row
unfolding exec_all
exec_all-owned [] id owner until rows row e o l h = e
exec_all-owned (op ∷ ops) id owner until rows row e o l h =
    exec_all-owned ops id owner until (exec op.1 op.0 rows) row
      (find-exec op.1 op.0 id rows row e
        ∙ ap some (act-owned op.1 op.0 until owner rows row o l h.0.1 h.0.0))
      o l h.1

-- A finish of this job without an owner.
abbrev pub finishes_unowned : String → Operation → Bool
finishes_unowned job (Operation.finishes id w status error) = job == id && w == ""
finishes_unowned job _ = false

not_running : (s : Status) → is_terminal s ≡ true → is_running s ≡ false
not_running Status.pending h = refl
not_running Status.running h = absurd (cc)
not_running Status.succeeded h = refl
not_running Status.failed h = refl
not_running Status.retrying h = refl
not_running Status.skipped h = refl

act-terminal :
    (op : Operation) (now : ℕ) (rows : List JobRow) (row : JobRow)
    → is_terminal row.status ≡ true
    → row.owner ≡ none
    → finishes_unowned row.id op ≡ false
    → act op now rows row ≡ row
act-terminal (Operation.creates id status) now rows row t o other = refl
act-terminal (Operation.claims id w lease) now rows row t o other = ground (arith, t)
act-terminal (Operation.extends id w lease) now rows row t o other = ground (arith, o)
act-terminal (Operation.finishes id w status error) now rows row t o other =
    ground (arith, o, other)
act-terminal (Operation.releases id w) now rows row t o other = ground (arith, o)
act-terminal (Operation.reclaims select grace limit) now rows row t o other =
    ground (arith, not_running row.status t)

-- The row of a finished job, without an owner, stays as it is under all statements but a finish of it
-- with the empty owner: it is never claimed again.
pub exec_all-terminal :
    (ops : List (ℕ × Operation)) (id : String) (rows : List JobRow) (row : JobRow)
    → find_job id rows ≡ some row
    → is_terminal row.status ≡ true
    → row.owner ≡ none
    → All (λ op. finishes_unowned row.id op.1 ≡ false) ops
    → find_job id (exec_all ops rows) ≡ some row
unfolding exec_all
exec_all-terminal [] id rows row e t o h = e
exec_all-terminal (op ∷ ops) id rows row e t o h =
    exec_all-terminal ops id (exec op.1 op.0 rows) row
      (find-exec op.1 op.0 id rows row e ∙ ap some (act-terminal op.1 op.0 rows row t o h.0)) t o
      h.1
