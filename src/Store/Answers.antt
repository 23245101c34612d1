-- ===== src/Store/Answers.antt =====
-- What the statements on one job answer to the worker.
use mathlib.Core.List.{map}
use anchora.Prelude.{
  ℕ, suc, String, ◌≡◌, refl, sym, ap, ◌∙◌, subst, Bool, true, false, ◌&&◌, some, List, [], ◌∷◌,
  ◌==◌, ==_iff, if◌then◌else◌, arith, inl, inr, keys, contains, filter, String-cases, not, Distinct,
  length, nat_eq, ◌||◌, ◌⊎◌,
}
use anchora.Workflow.{Status, Message}
use anchora.Store.{
  JobRow, Operation, find_job, exec, claim_job, first_attempts, claimable, set_claimed, runs_for,
  set_extended, finishable, set_finished, is_terminal, is_running, owned_by, is_unowned, is_expired,
  extend_lease, finish_job,
}
use anchora.Store.Rows.{find-exec, found_id}
use anchora.Store.Claimable.{MayClaim, IsClaimed, set_claimed-IsClaimed, claimable-MayClaim}

unmatched :
    (q : JobRow → Bool) (id : String) (rows : List JobRow)
    → contains id (keys (λ (r : JobRow). r.id) rows) ≡ false
    → filter (λ (r : JobRow). r.id == id && q r) rows ≡ []
unmatched q id [] absent = refl
unmatched q id (r ∷ rows) absent = ground (arith, absent, unmatched q id rows)

-- With distinct IDs, the rows that a statement on one ID matches are at most the row of that ID.
matched :
    (q : JobRow → Bool) (id : String) (rows : List JobRow) (row : JobRow)
    → Distinct (keys (λ (r : JobRow). r.id) rows)
    → find_job id rows ≡ some row
    → filter (λ (r : JobRow). r.id == id && q r) rows ≡ (if q row then row ∷ [] else [])
unfolding find_job
matched q id [] row u e = absurd (cc)
matched q id (r ∷ rows) row u e = elim (String-cases r.id id) [
  | inl same ↦
      let here = (==_iff r.id id).1 same in
      let found : r ≡ row = ground (arith, e, here) in
      let none_later =
        unmatched q id rows (ap (λ t. contains t (keys (λ x. x.id) rows)) (sym same) ∙ u.0) in
      subst
        (λ x.
          (if r.id == id && q r
            then r ∷ filter (λ y. y.id == id && q y) rows
            else filter (λ y. y.id == id && q y) rows)
          ≡ (if q x then x ∷ [] else []))
        found (rw (here, none_later) refl)
  | inr later ↦ rw later (matched q id rows row u.1 (ground (arith, e, later)))
]

module _ (id worker : String) (now : ℕ) (rows : List JobRow) (row : JobRow)
    (distinct : Distinct (keys (λ (r : JobRow). r.id) rows))
    (found : find_job id rows ≡ some row) where
  -- What the statement answers and leaves, by its condition.
  claim_job-claimable :
      (lease : ℕ)
      → ((claim_job id worker lease now rows).1
          ≡ (if claimable id worker now row then (suc row.attempts, true) else (0, false)))
        × (find_job id (claim_job id worker lease now rows).0
            ≡ some (if claimable id worker now row then set_claimed worker lease now row else row))
  unfolding claim_job exec
  claim_job-claimable lease = (
    ap (λ l. first_attempts (map (set_claimed worker lease now) l))
          (matched
            (λ r.
              not (is_terminal r.status) && (is_unowned r || owned_by worker r || is_expired now r))
            id rows row distinct found)
        ∙ ground (arith, found_id id rows row found),
    find-exec (Operation.claims id worker lease) now id rows row found,
  )

  -- With distinct IDs, a claim of a known job is granted exactly if the job has not ended, and has no
  -- owner, or this one, or no lease that is still to expire. Then the answer is the next number of
  -- attempts, and the row runs for this worker until the lease from now ends, counts the attempt, and
  -- keeps the time of its first start. If not, the row is as before.
  pub claim_job_lem :
      (lease : ℕ)
      → (MayClaim worker now row
          × ((claim_job id worker lease now rows).1 ≡ (suc row.attempts, true))
          × ((after : JobRow) × (find_job id (claim_job id worker lease now rows).0 ≡ some after)
              × IsClaimed worker lease now row after))
        ⊎ ((MayClaim worker now row → ⊥)
            × ((claim_job id worker lease now rows).1 ≡ (0, false))
            × (find_job id (claim_job id worker lease now rows).0 ≡ some row))
  claim_job_lem lease =
      let (answer, left) = claim_job-claimable lease in
      elim (claimable-MayClaim id worker now row (found_id id rows row found)) [
        | inl (held, may) ↦ inl (
          may,
          answer ∙ rw held refl,
          (
            set_claimed worker lease now row,
            left ∙ rw held refl,
            set_claimed-IsClaimed worker lease now row,
          ),
        )
        | inr (lost, never) ↦ inr (never, answer ∙ rw lost refl, left ∙ rw lost refl)
      ]

  -- With distinct IDs, an extension of a known job answers whether the worker owns it and it is running,
  -- and only then sets the lease.
  pub extend_lease_lem :
      (lease : ℕ)
      → ((extend_lease id worker lease now rows).1 ≡ (owned_by worker row && is_running row.status))
        × (find_job id (extend_lease id worker lease now rows).0
            ≡ some (if runs_for id worker row then set_extended lease now row else row))
  unfolding extend_lease exec
  extend_lease_lem lease = (
    ap (λ l. nat_eq (length l) 1)
          (matched (λ r. owned_by worker r && is_running r.status) id rows row distinct found)
        ∙ ground arith,
    find-exec (Operation.extends id worker lease) now id rows row found,
  )

  pub finish_job_lem :
      (status : Status) (error : Message)
      → ((finish_job id worker status error now rows).1
          ≡ (owned_by worker row || worker == "" && is_unowned row))
        × (find_job id (finish_job id worker status error now rows).0
            ≡ some (if finishable id worker row then set_finished status error now row else row))
  unfolding finish_job exec
  finish_job_lem status error = (
    ap (λ l. nat_eq (length l) 1)
          (matched (λ r. owned_by worker r || worker == "" && is_unowned r) id rows row distinct
            found)
        ∙ ground arith,
    find-exec (Operation.finishes id worker status error) now id rows row found,
  )
