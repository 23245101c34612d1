-- ===== src/Store/Settled.antt =====
-- internal/jobs/store.go: which statements leave a job that is neither running nor finished.
use anchora.Prelude.{
  ℕ, String, ◌≡◌, Bool, true, false, not, ◌&&◌, ◌||◌, ◌⊎◌, inl, inr, some, Bool-cases, List, ◌==◌,
  arith, contains, filter,
}
use anchora.Prelude.Int.{ℤ}
use anchora.Store.{
  JobRow, Operation, Selection, find_job, reclaim_expired_jobs, is_terminal, is_running,
  is_abandoned, store_limit,
}
use anchora.Store.Rows.{act, find_job-matched}
use anchora.Store.Consistent.{IsConsistent}

-- The job is finished, or a worker has it.
abbrev pub is_settled : JobRow → Bool
is_settled row = is_terminal row.status || is_running row.status

-- The statement gives no running status by hand, and finishes with a terminal one.
abbrev pub is_regular_operation : Operation → Bool
is_regular_operation (Operation.creates id status) = not (is_running status)
is_regular_operation (Operation.finishes id worker status error) = is_terminal status
is_regular_operation op = true

-- The statement may take a job from its worker.
abbrev pub is_handing : Operation → Bool
is_handing (Operation.releases id worker) = true
is_handing (Operation.reclaims select grace limit) = true
is_handing op = false

pub act-IsConsistent :
    (op : Operation) (now : ℕ) (rows : List JobRow) (row : JobRow)
    → is_regular_operation op ≡ true
    → IsConsistent row
    → IsConsistent (act op now rows row)
act-IsConsistent (Operation.creates id status) now rows row regular c = c
act-IsConsistent (Operation.claims id w lease) now rows row regular c = ground (arith, c.0, c.1)
act-IsConsistent (Operation.extends id w lease) now rows row regular c = ground (arith, c.0, c.1)
act-IsConsistent (Operation.finishes id w status error) now rows row regular c =
    ground (arith, c.0, c.1, regular)
act-IsConsistent (Operation.releases id w) now rows row regular c = ground (arith, c.0, c.1)
act-IsConsistent (Operation.reclaims select grace limit) now rows row regular c =
    ground (arith, c.0, c.1)

pub act-is_settled :
    (op : Operation) (now : ℕ) (rows : List JobRow) (row : JobRow)
    → is_regular_operation op ≡ true
    → is_handing op ≡ false
    → is_settled row ≡ true
    → is_settled (act op now rows row) ≡ true
act-is_settled (Operation.creates id status) now rows row regular other s = s
act-is_settled (Operation.claims id w lease) now rows row regular other s = ground (arith, s)
act-is_settled (Operation.extends id w lease) now rows row regular other s = ground (arith, s)
act-is_settled (Operation.finishes id w status error) now rows row regular other s =
    ground (arith, s, regular)
act-is_settled (Operation.releases id w) now rows row regular other s = absurd (cc)
act-is_settled (Operation.reclaims select grace limit) now rows row regular other s = absurd (cc)

-- After a claim of a job, granted or not, the job is finished or a worker has it.
pub claims-is_settled :
    (id worker : String) (lease now : ℕ) (rows : List JobRow) (row : JobRow)
    → (row.id == id) ≡ true
    → IsConsistent row
    → is_settled (act (Operation.claims id worker lease) now rows row) ≡ true
claims-is_settled id worker lease now rows row same c = ground (arith, same, c.0, c.1)

-- A release takes the job that it names, and no other, from its worker.
pub releases-is_settled :
    (id worker : String) (now : ℕ) (rows : List JobRow) (row : JobRow)
    → is_settled row ≡ true
    → (is_settled (act (Operation.releases id worker) now rows row) ≡ true)
      ⊎ ((row.id == id) ≡ true)
releases-is_settled id worker now rows row s = elim (Bool-cases (row.id == id)) [
  | inl same ↦ inr same
  | inr other ↦ inl (ground (arith, s, other))
]

-- A sweep returns the jobs that it takes from their workers.
pub reclaims-is_settled :
    (select : Selection) (grace : ℕ) (limit : ℤ) (now : ℕ) (id : String) (rows : List JobRow)
    (row : JobRow)
    → find_job id rows ≡ some row
    → is_settled row ≡ true
    → (is_settled (act (Operation.reclaims select grace limit) now rows row) ≡ true)
      ⊎ (contains id (reclaim_expired_jobs select grace limit now rows).1 ≡ true)
unfolding reclaim_expired_jobs
reclaims-is_settled select grace limit now id rows row found s = elim (Bool-cases (taken row)) [
  | inl hit ↦ inr (find_job-matched taken id rows row found hit)
  | inr miss ↦ inl (ground (arith, s, miss))
]
  where
    taken : JobRow → Bool
    taken r =
        contains r.id (select (store_limit limit) (filter (is_abandoned grace now) rows))
        && is_abandoned grace now r
