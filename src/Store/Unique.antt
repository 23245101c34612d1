-- ===== src/Store/Unique.antt =====
-- The IDs of the jobs stay distinct, as the primary key of `workflow_jobs` promises.
use anchora.Prelude.{
  ℕ, String, ◌≡◌, refl, sym, ap, subst, Bool, false, ◌&&◌, List, [], ◌∷◌, ◌++◌, ==_iff, arith, inl,
  inr, Bool-cases, keys, contains, contains-append, Distinct, filter,
}
use anchora.Store.{
  JobRow, Operation, insert_job, new_job, update, exec, exec_all, claimable, set_claimed, runs_for,
  set_extended, set_pending, finishable, set_finished, is_abandoned, store_limit,
}

abbrev pub job_ids : List JobRow → List String
job_ids = keys (λ (r : JobRow). r.id)

ids-update :
    (matches : JobRow → Bool) (set : JobRow → JobRow)
    → ((row : JobRow) → (set row).id ≡ row.id)
    → (rows : List JobRow) → job_ids (update matches set rows) ≡ job_ids rows
ids-update matches set kept [] = refl
ids-update matches set kept (r ∷ rows) = elim (Bool-cases (matches r)) [
  | inl hit ↦ rw (hit, kept r) (ap (λ l. r.id ∷ l) (ids-update matches set kept rows))
  | inr miss ↦ rw miss (ap (λ l. r.id ∷ l) (ids-update matches set kept rows))
]

ids-append : (rows more : List JobRow) → job_ids (rows ++ more) ≡ job_ids rows ++ job_ids more
ids-append [] more = refl
ids-append (r ∷ rows) more = ap (λ l. r.id ∷ l) (ids-append rows more)

Distinct-append :
    (k : String) (l : List String) → Distinct l → contains k l ≡ false → Distinct (l ++ k ∷ [])
Distinct-append k [] u absent = (refl, tt)
Distinct-append k (x ∷ l) u absent = (
  ground (arith, contains-append x l (k ∷ []), u.0, absent, ==_iff k x, ==_iff x k),
  Distinct-append k l u.1 (ground (arith, absent)),
)

pub exec-Distinct :
    (op : Operation) (now : ℕ) (rows : List JobRow)
    → Distinct (job_ids rows)
    → Distinct (job_ids (exec op now rows))
unfolding exec insert_job
exec-Distinct (Operation.creates id status) now rows u =
    elim (Bool-cases (contains id (job_ids rows))) [
      | inl taken ↦ rw (taken, exec, insert_job) u
      | inr free ↦
          rw (free, exec, insert_job)
            (subst Distinct (sym (ids-append rows (new_job id status now ∷ [])))
              (Distinct-append id (job_ids rows) u free))
    ]
exec-Distinct (Operation.claims id w lease) now rows u =
    subst Distinct
      (sym (ids-update (claimable id w now) (set_claimed w lease now) (λ r. refl) rows)) u
exec-Distinct (Operation.extends id w lease) now rows u =
    subst Distinct (sym (ids-update (runs_for id w) (set_extended lease now) (λ r. refl) rows)) u
exec-Distinct (Operation.finishes id w status error) now rows u =
    subst Distinct
      (sym (ids-update (finishable id w) (set_finished status error now) (λ r. refl) rows)) u
exec-Distinct (Operation.releases id w) now rows u =
    subst Distinct (sym (ids-update (runs_for id w) (set_pending now) (λ r. refl) rows)) u
exec-Distinct (Operation.reclaims select grace limit) now rows u =
    subst Distinct
      (sym (
        ids-update
          (λ r.
            contains r.id (select (store_limit limit) (filter (is_abandoned grace now) rows))
            && is_abandoned grace now r)
          (set_pending now) (λ r. refl) rows))
      u

-- If the IDs of the jobs are distinct, they are distinct after any sequence of statements.
pub exec_all-Distinct :
    (ops : List (ℕ × Operation)) (rows : List JobRow)
    → Distinct (job_ids rows)
    → Distinct (job_ids (exec_all ops rows))
unfolding exec_all
exec_all-Distinct [] rows u = u
exec_all-Distinct (op ∷ ops) rows u =
    exec_all-Distinct ops (exec op.1 op.0 rows) (exec-Distinct op.1 op.0 rows u)
