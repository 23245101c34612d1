-- ===== src/Store/Steps/Created.antt =====
-- A job that was created can be loaded.
use mathlib.Core.Path.{ap₂}
use mathlib.Core.List.{append_assoc}
use anchora.Prelude.{
  ℕ, suc, ◌*◌, ◌/◌, String, ◌≡◌, refl, sym, ap, ◌∙◌, subst, true, false, none, some, some_inj,
  Option-cases, Bool-cases, List, [], ◌∷◌, ◌++◌, ◌==◌, ==_refl, arith, inl, inr, keys, contains,
  All, map, filter, ltb,
}
use anchora.Workflow.{Message, StepResult}
use anchora.Store.{JobRow, find_job, insert_job, new_job}
use anchora.Store.Steps.{
  StepRow, JobStep, Job, Tables, has_step, new_row, insert_steps, create, insert_by_ordinal,
  sort_by_ordinal, step_of, step_result_of, get, microseconds,
}

-- One result for each step, with its ID.
abbrev pub HasResults : List JobStep → List StepResult → Type 0
HasResults [] [] = Unit
HasResults (s ∷ steps) (r ∷ results) = (r.id ≡ s.id) × HasResults steps results
HasResults _ _ = ⊥

rows_of : String → ℕ → List JobStep → List StepResult → List StepRow
rows_of id i [] results = []
rows_of id i (s ∷ steps) [] = []
rows_of id i (s ∷ steps) (r ∷ results) = new_row id i s r ∷ rows_of id (suc i) steps results

insert_steps-append :
    (id : String) (i : ℕ) (steps : List JobStep) (results : List StepResult)
    (rows out : List StepRow)
    → insert_steps id i steps results rows ≡ some out
    → out ≡ rows ++ rows_of id i steps results
unfolding insert_steps rows_of
insert_steps-append id i [] results rows out h = sym (some_inj h) ∙ sym (append-nil rows)
  where
    append-nil : (l : List StepRow) → l ++ [] ≡ l
    append-nil [] = refl
    append-nil (x ∷ l) = ap (λ t. x ∷ t) (append-nil l)
insert_steps-append id i (s ∷ steps) [] rows out h = absurd (cc)
insert_steps-append id i (s ∷ steps) (r ∷ results) rows out h =
    elim (Bool-cases (has_step id s.id rows)) [
      | inl taken ↦ absurd (ground (arith, h, taken))
      | inr free ↦
          insert_steps-append id (suc i) steps results (rows ++ new_row id i s r ∷ []) out
            (ground (arith, h, free))
          ∙ append_assoc rows (new_row id i s r ∷ []) (rows_of id (suc i) steps results)
    ]

filter-mine :
    (id : String) (i : ℕ) (steps : List JobStep) (results : List StepResult) (rows : List StepRow)
    → All (λ (s : StepRow). (s.job_id == id) ≡ false) rows
    → filter (λ (s : StepRow). s.job_id == id) (rows ++ rows_of id i steps results)
      ≡ rows_of id i steps results
unfolding rows_of
filter-mine id i steps results (x ∷ rows) h = rw h.0 (filter-mine id i steps results rows h.1)
filter-mine id i [] results [] h = refl
filter-mine id i (s ∷ steps) [] [] h = refl
filter-mine id i (s ∷ steps) (r ∷ results) [] h =
    rw (==_refl id) (ap (λ t. new_row id i s r ∷ t) (filter-mine id (suc i) steps results [] tt))

insert-first :
    (id : String) (i : ℕ) (s : JobStep) (r : StepResult) (steps : List JobStep)
    (results : List StepResult)
    → insert_by_ordinal (new_row id i s r) (rows_of id (suc i) steps results)
      ≡ new_row id i s r ∷ rows_of id (suc i) steps results
unfolding rows_of insert_by_ordinal
insert-first id i s r [] results = refl
insert-first id i s r (t ∷ steps) [] = refl
insert-first id i s r (t ∷ steps) (q ∷ results) =
    let later : ltb (suc i) i ≡ false = ground arith in rw later refl

sort-rows_of :
    (id : String) (i : ℕ) (steps : List JobStep) (results : List StepResult)
    → sort_by_ordinal (rows_of id i steps results) ≡ rows_of id i steps results
unfolding rows_of sort_by_ordinal
sort-rows_of id i [] results = refl
sort-rows_of id i (s ∷ steps) [] = refl
sort-rows_of id i (s ∷ steps) (r ∷ results) =
    ap (insert_by_ordinal (new_row id i s r)) (sort-rows_of id (suc i) steps results)
    ∙ insert-first id i s r steps results

map-rows_of :
    (id : String) (i : ℕ) (steps : List JobStep) (results : List StepResult)
    → HasResults steps results
    → (map step_of (rows_of id i steps results) ≡ steps)
      × (map step_result_of (rows_of id i steps results) ≡ results)
unfolding rows_of
map-rows_of id i [] [] h = (refl, refl)
map-rows_of id i [] (r ∷ results) h = absurd h
map-rows_of id i (s ∷ steps) [] h = absurd h
map-rows_of id i (s ∷ steps) (r ∷ results) h =
    let (one, two) = map-rows_of id (suc i) steps results h.1 in
    (ap (λ t. s ∷ t) one, ap₂ (λ (k : String) t. record r { id = k } ∷ t) (sym h.0) two)

find_new :
    (id : String) (rows : List JobRow) (row : JobRow)
    → contains id (keys (λ (r : JobRow). r.id) rows) ≡ false
    → (row.id == id) ≡ true
    → find_job id (rows ++ row ∷ []) ≡ some row
unfolding find_job
find_new id [] row absent here = rw here refl
find_new id (r ∷ rows) row absent here =
    let later : (r.id == id) ≡ false = ground (arith, absent) in
    rw later (find_new id rows row (ground (arith, absent)) here)

-- The job, with the time of its creation in whole microseconds.
abbrev pub in_microseconds : Job → Job
in_microseconds job = record job { created_at = job.created_at / 1000 * 1000 }

-- The same job before any claim.
abbrev pub unclaimed : Job → Job
unclaimed job = record (in_microseconds job) {
  attempts = 0;
  owner = "";
  error = Message.nothing;
  started_at = none;
  finished_at = none;
  lease_expires_at = none;
}

-- A job with a result for each of its steps, created where no step has its ID, is loaded as it was
-- submitted: the same status, steps in their order and results, and no attempt, owner or lease. The
-- time of its creation has lost what is below a microsecond.
pub get-create :
    (job : Job) (db db' : Tables)
    → create job db ≡ some db'
    → HasResults job.steps job.results
    → All (λ (s : StepRow). (s.job_id == job.id) ≡ false) db.steps
    → get job.id db' ≡ some (unclaimed job)
unfolding create get insert_job
get-create job db db' h results fresh =
    elim (Bool-cases (contains job.id (keys (λ (r : JobRow). r.id) db.jobs))) [
      | inl taken ↦ absurd (ground (arith, h, taken))
      | inr free ↦ elim (Option-cases (insert_steps job.id 0 job.steps job.results db.steps)) [
        | inl failed ↦ absurd (ground (arith, h, free, failed))
        | inr (rows, inserted) ↦
            let made = some_inj (rw (create, free, insert_job, inserted) at h) in
            let sorted : sort_by_ordinal (filter (λ (s : StepRow). s.job_id == job.id) rows)
                ≡ rows_of job.id 0 job.steps job.results =
              ap (λ l. sort_by_ordinal (filter (λ (s : StepRow). s.job_id == job.id) l))
                (insert_steps-append job.id 0 job.steps job.results db.steps rows inserted)
              ∙ ap sort_by_ordinal (filter-mine job.id 0 job.steps job.results db.steps fresh)
              ∙ sort-rows_of job.id 0 job.steps job.results in
            let (steps, outcomes) = map-rows_of job.id 0 job.steps job.results results in
            subst (λ d. get job.id d ≡ some (unclaimed job)) made
              (rw
                (
                  get,
                  find_new job.id db.jobs (new_job job.id job.status (microseconds job.created_at))
                      free (==_refl job.id),
                  sorted,
                )
                (ap₂ (λ s r. some (record (unclaimed job) { steps = s; results = r })) steps
                  outcomes))
      ]
    ]
