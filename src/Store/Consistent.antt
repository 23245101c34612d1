-- ===== src/Store/Consistent.antt =====
-- What the rows of `workflow_jobs` keep under all statements.
use anchora.Prelude.{
  ℕ, ◌≤◌, String, ◌≡◌, refl, Bool, true, false, ◌&&◌, Option, none, some, Bool-cases, List, [], ◌∷◌,
  ◌++◌, arith, inl, inr, keys, contains, filter, All, not,
}
use anchora.Store.{
  JobRow, Operation, find_job, insert_job, update, exec, exec_all, claimable, set_claimed, runs_for,
  set_extended, set_pending, finishable, set_finished, is_abandoned, store_limit, is_running,
}
use anchora.Store.Rows.{act, find-exec}

abbrev is_some {ℓ} : {A : Type ℓ} → Option A → Bool
is_some none = false
is_some (some x) = true

-- A job is running exactly while it has an owner, and then it has a lease.
abbrev pub IsConsistent : JobRow → Type 0
IsConsistent row =
    (is_running row.status ≡ is_some row.owner) × (is_some row.lease_expires_at ≡ is_some row.owner)

-- The statement gives no running status by hand.
abbrev pub is_plain : Operation → Bool
is_plain (Operation.creates id status) = not (is_running status)
is_plain (Operation.finishes id w status error) = not (is_running status)
is_plain _ = true

All-update :
    (P : JobRow → Type 0) (matches : JobRow → Bool) (set : JobRow → JobRow)
    → ((row : JobRow) → matches row ≡ true → P row → P (set row))
    → (rows : List JobRow) → All P rows
    → All P (update matches set rows)
All-update P matches set f [] h = tt
All-update P matches set f (row ∷ rows) h = elim (Bool-cases (matches row)) [
  | inl hit ↦ (rw hit (f row hit h.0), All-update P matches set f rows h.1)
  | inr miss ↦ (rw miss h.0, All-update P matches set f rows h.1)
]

All-insert :
    (P : JobRow → Type 0) (rows : List JobRow) (row : JobRow)
    → All P rows
    → P row
    → All P (rows ++ row ∷ [])
All-insert P [] row h p = (p, tt)
All-insert P (r ∷ rows) row h p = (h.0, All-insert P rows row h.1 p)

exec-IsConsistent :
    (op : Operation) (now : ℕ) (rows : List JobRow)
    → is_plain op ≡ true
    → All IsConsistent rows
    → All IsConsistent (exec op now rows)
unfolding exec insert_job
exec-IsConsistent (Operation.creates id status) now rows plain h =
    elim (Bool-cases (contains id (keys (λ r. r.id) rows))) [
      | inl taken ↦ rw (taken, exec, insert_job) h
      | inr free ↦
          rw (free, exec, insert_job)
            (All-insert IsConsistent rows _ h (ground (arith, plain), refl))
    ]
exec-IsConsistent (Operation.claims id w lease) now rows plain h =
    All-update IsConsistent (claimable id w now) (set_claimed w lease now)
      (λ row hit c. (refl, refl)) rows h
exec-IsConsistent (Operation.extends id w lease) now rows plain h =
    All-update IsConsistent (runs_for id w) (set_extended lease now)
      (λ row hit c. (c.0, ground (arith, c.0, hit))) rows h
exec-IsConsistent (Operation.finishes id w status error) now rows plain h =
    All-update IsConsistent (finishable id w) (set_finished status error now)
      (λ row hit c. (ground (arith, plain), refl)) rows h
exec-IsConsistent (Operation.releases id w) now rows plain h =
    All-update IsConsistent (runs_for id w) (set_pending now) (λ row hit c. (refl, refl)) rows h
exec-IsConsistent (Operation.reclaims select grace limit) now rows plain h =
    All-update IsConsistent
      (λ r.
        contains r.id (select (store_limit limit) (filter (is_abandoned grace now) rows))
        && is_abandoned grace now r)
      (set_pending now) (λ row hit c. (refl, refl)) rows h

-- If each job is running exactly while it has an owner, and has a lease exactly then, so it is after
-- any sequence of statements in which no create or finish gives the status running.
pub exec_all-IsConsistent :
    (ops : List (ℕ × Operation)) (rows : List JobRow)
    → All (λ op. is_plain op.1 ≡ true) ops
    → All IsConsistent rows
    → All IsConsistent (exec_all ops rows)
unfolding exec_all
exec_all-IsConsistent [] rows plain h = h
exec_all-IsConsistent (op ∷ ops) rows plain h =
    exec_all-IsConsistent ops (exec op.1 op.0 rows) plain.1
      (exec-IsConsistent op.1 op.0 rows plain.0 h)

act-attempts :
    (op : Operation) (now : ℕ) (rows : List JobRow) (row : JobRow)
    → row.attempts ≤ (act op now rows row).attempts
act-attempts (Operation.creates id status) now rows row = omega arith
act-attempts (Operation.claims id w lease) now rows row = ground arith
act-attempts (Operation.extends id w lease) now rows row = ground arith
act-attempts (Operation.finishes id w status error) now rows row = ground arith
act-attempts (Operation.releases id w) now rows row = ground arith
act-attempts (Operation.reclaims select grace limit) now rows row = ground arith

-- No statement removes a job, and none lowers its count of attempts.
pub exec_all-attempts :
    (ops : List (ℕ × Operation)) (id : String) (rows : List JobRow) (row : JobRow)
    → find_job id rows ≡ some row
    → (row' : JobRow) × (find_job id (exec_all ops rows) ≡ some row')
      × (row.attempts ≤ row'.attempts)
unfolding exec_all
exec_all-attempts [] id rows row e = (row, e, omega arith)
exec_all-attempts (op ∷ ops) id rows row e =
    let (row', found, le) =
      exec_all-attempts ops id (exec op.1 op.0 rows) (act op.1 op.0 rows row)
        (find-exec op.1 op.0 id rows row e) in
    (row', found, omega (arith, le, act-attempts op.1 op.0 rows row))
