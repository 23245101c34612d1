-- ===== src/Store/Steps/Fenced.antt =====
-- Who may write the steps of a job.
use mathlib.Core.Path.{ap₂}
use anchora.Prelude.{
  ℕ, String, ◌≡◌, refl, sym, ap, ◌∙◌, Bool, false, some, String-cases, List, [], ◌∷◌, ◌==◌, ==_iff,
  arith, inl, inr, keys, contains, Distinct, ◌||◌, length, filter, nat_eq,
}
use anchora.Workflow.{StepResult}
use anchora.Store.{JobRow, find_job, update, owned_by}
use anchora.Store.Steps.{
  StepRow, Tables, any_job, step_claimable, set_step_claimed, claim_step, step_writable, set_result,
  update_step,
}

no_job :
    (holds : JobRow → Bool) (id : String) (rows : List JobRow)
    → contains id (keys (λ (r : JobRow). r.id) rows) ≡ false
    → any_job holds id rows ≡ false
no_job holds id [] h = refl
no_job holds id (r ∷ rows) h = ground (arith, no_job holds id rows, h)

-- With distinct IDs, the joined job row is the one that a lookup finds.
any_job_lem :
    (holds : JobRow → Bool) (id : String) (rows : List JobRow) (row : JobRow)
    → Distinct (keys (λ (r : JobRow). r.id) rows)
    → find_job id rows ≡ some row
    → any_job holds id rows ≡ holds row
unfolding find_job
any_job_lem holds id [] row u e = absurd (cc)
any_job_lem holds id (r ∷ rows) row u e = elim (String-cases r.id id) [
  | inl same ↦
      let here = (==_iff r.id id).1 same in
      let found : r ≡ row = ground (arith, e, here) in
      let rest =
        no_job holds id rows (ap (λ t. contains t (keys (λ x. x.id) rows)) (sym same) ∙ u.0) in
      rw (here, rest) (ground (arith, ap holds found))
  | inr later ↦ rw later (any_job_lem holds id rows row u.1 (ground (arith, e, later)))
]

update_none :
    (matches : StepRow → Bool) (set : StepRow → StepRow)
    → ((s : StepRow) → matches s ≡ false)
    → (rows : List StepRow) → update matches set rows ≡ rows
update_none matches set h [] = refl
update_none matches set h (s ∷ rows) = rw (h s) (ap (λ l. s ∷ l) (update_none matches set h rows))

filter_none :
    (matches : StepRow → Bool)
    → ((s : StepRow) → matches s ≡ false)
    → (rows : List StepRow) → filter matches rows ≡ []
filter_none matches h [] = refl
filter_none matches h (s ∷ rows) = rw (h s) (filter_none matches h rows)

module _ (db : Tables) (job_id worker owner : String) (row : JobRow)
    (distinct : Distinct (keys (λ (r : JobRow). r.id) db.jobs))
    (found : find_job job_id db.jobs ≡ some row) (owned : row.owner ≡ some owner)
    (apart : (owner == worker) ≡ false) (now : ℕ) where
  -- With distinct job IDs, a worker with a name, other than the owner of a job, cannot write the result
  -- of any of its steps: UpdateStep leaves the tables as they are.
  pub update_step-fenced :
      (result : StepResult) → (worker == "") ≡ false → update_step job_id worker result now db ≡ db
  unfolding update_step
  update_step-fenced result named =
      ap (λ l. record db { steps = l })
        (update_none (step_writable job_id result.id worker db.jobs) (set_result result now)
          (λ s. elim (String-cases s.job_id job_id) [
            | inl same ↦
                let none_holds : any_job (λ j. worker == "" || owned_by worker j) job_id db.jobs
                    ≡ false =
                  any_job_lem (λ j. worker == "" || owned_by worker j) job_id db.jobs row distinct
                    found
                  ∙ ground (arith, owned, apart, named) in
                ground (
                  arith,
                  ap (λ t. any_job (λ j. worker == "" || owned_by worker j) t db.jobs) same,
                  none_holds,
                )
            | inr other ↦ ground (arith, other)
          ])
          db.steps)

  unclaimable :
      (step_id : String) (s : StepRow) → step_claimable job_id step_id worker db.jobs s ≡ false
  unclaimable step_id s = elim (String-cases s.job_id job_id) [
    | inl same ↦
        let none_holds : any_job (owned_by worker) job_id db.jobs ≡ false =
          any_job_lem (owned_by worker) job_id db.jobs row distinct found
          ∙ ground (arith, owned, apart) in
        ground (arith, ap (λ t. any_job (owned_by worker) t db.jobs) same, none_holds)
    | inr other ↦ ground (arith, other)
  ]

  -- With distinct job IDs, a worker other than the owner of a job cannot claim any of its steps:
  -- ClaimStep answers false and leaves the tables as they are.
  pub claim_step-fenced : (step_id : String) → claim_step job_id step_id worker now db ≡ (db, false)
  unfolding claim_step
  claim_step-fenced step_id =
      ap₂ (λ l n. (record db { steps = l }, nat_eq n 1))
        (update_none (step_claimable job_id step_id worker db.jobs) (set_step_claimed worker now)
          (unclaimable step_id) db.steps)
        (ap length (
          filter_none (step_claimable job_id step_id worker db.jobs) (unclaimable step_id)
            db.steps))
