-- ===== src/Service/Cluster/Submitted.antt =====
-- internal/jobs/jobs.go, Submit: where a job is once it is returned.
use anchora.Prelude.{
  ℕ, suc, String, ◌≡◌, refl, sym, ap, ◌∙◌, subst, true, false, some, List, [], ◌∷◌, contains, All,
  ◌==◌, Result, ok, err, Result-elim, map,
}
use anchora.Workflow.{Message, Schedule}
use anchora.Workflow.Validate.{new_workflow}
use anchora.Redis.{Redis}
use anchora.Queue.{ready}
use anchora.Store.Steps.{Tables, StepRow, Job, JobStep, create, get}
use anchora.Store.Steps.Created.{HasResults, in_microseconds, unclaimed, get-create}
use anchora.Service.Program.{Call, Payload, Response, Program, done, ◌>>=◌, perform}
use anchora.Service.Backend.{
  Backend, pending_result, submitted_job, new_id, resolve_steps, dispatch, submit,
}
use anchora.Service.Cluster.World.{Occasion, World, handle, alone}
use anchora.Service.Cluster.Dispatched.{create-ok, dispatch-Dispatches}

module _ (redis : Redis) (name : String) (encode : Payload → Result String String) where
  module _ (job job' : Job) where
    created-Stores :
        (at : ℕ → Occasion) (w w' : World redis name encode) (created : Response (Call.create job))
        → unclaimed job ≡ in_microseconds job
        → HasResults job.steps job.results
        → (created ≡ ok tt → create job w.tables ≡ some w'.tables)
        → (alone redis name encode at
            (elim created [ err e ↦ done (err (Message.error_text e)) | ok _ ↦ dispatch job ])
            w').1
          ≡ ok job'
        → All (λ (s : StepRow). (s.job_id == job'.id) ≡ false) w.tables.steps
        → (job ≡ job')
          × (get job'.id
                (alone redis name encode at
                  (elim created [ err e ↦ done (err (Message.error_text e)) | ok _ ↦ dispatch job ])
                  w').0.tables
              ≡ some (in_microseconds job'))
          × (contains job'.id (
                ready redis name
                  (alone redis name encode at
                    (elim created [
                      | err e ↦ done (err (Message.error_text e))
                      | ok _ ↦ dispatch job
                    ])
                    w').0.db)
              ≡ true)
    created-Stores at w w' (err e) whole results made answered fresh = absurd (cc)
    created-Stores at w w' (ok u) whole results made answered fresh =
        let (same, kept, queued) = dispatch-Dispatches redis name encode job job' at w' answered in
        let own =
          subst (λ (j : Job). All (λ (s : StepRow). (s.job_id == j.id) ≡ false) w.tables.steps)
            (sym same) fresh in
        let stored : get job.id w'.tables ≡ some (in_microseconds job) =
          get-create job w.tables w'.tables (made refl) results own ∙ ap some whole in
        (
          same,
          ap (λ (t : Tables). get job'.id t) kept
              ∙ subst (λ (j : Job). get j.id w'.tables ≡ some (in_microseconds j)) same stored,
          subst
              (λ (j : Job).
                contains j.id (ready redis name (alone redis name encode at (dispatch job) w').0.db)
                ≡ true)
              same queued,
        )

  pending-HasResults : (steps : List JobStep) → HasResults steps (map pending_result steps)
  pending-HasResults [] = tt
  pending-HasResults (step ∷ steps) = (refl, pending-HasResults steps)

  module _ (job' : Job) where
    -- The job that the program returns has these steps, is stored to the microsecond, and is ready.
    abbrev Stores :
        List JobStep
        → (ℕ → Occasion)
        → World redis name encode
        → Program (Result Message Job)
        → Type 0
    Stores steps at w p =
        (alone redis name encode at p w).1 ≡ ok job'
        → All (λ (s : StepRow). (s.job_id == job'.id) ≡ false) w.tables.steps
        → (job'.steps ≡ steps)
          × (get job'.id (alone redis name encode at p w).0.tables ≡ some (in_microseconds job'))
          × (contains job'.id (ready redis name (alone redis name encode at p w).0.db) ≡ true)

    create-Stores :
        (at : ℕ → Occasion) (id : String) (now : ℕ) (steps : List JobStep)
        (w : World redis name encode)
        → Stores steps at w (
            perform (Call.create (submitted_job id now steps)) >>= λ created. elim created [
              | err e ↦ done (err (Message.error_text e))
              | ok _ ↦ dispatch (submitted_job id now steps)
            ])
    create-Stores at id now steps w answered fresh =
        let job : Job = submitted_job id now steps in
        let (same, stored, queued) =
          created-Stores job job' (λ n. at (suc n)) w
            (handle redis name encode (at 0) (Call.create job) w).0
            (handle redis name encode (at 0) (Call.create job) w).1 refl (pending-HasResults steps)
            (λ ran. create-ok redis name encode (at 0) job w ran) answered fresh in
        (ap (λ (j : Job). j.steps) (sym same), stored, queued)

    run-Stores :
        (backend : Backend) (at : ℕ → Occasion) (schedule : Schedule)
        (random : Result String String) (now : ℕ) (steps : List JobStep)
        (w : World redis name encode)
        → Stores steps at w (submit backend schedule random now steps)
    unfolding submit
    run-Stores backend at schedule random now steps w =
        Result-elim (Stores steps at w) (resolve_steps backend.resolve steps) _ _
          (λ e r answered fresh. absurd (cc))
          (λ workflow_steps r.
            Result-elim (Stores steps at w) (new_workflow schedule workflow_steps backend.options) _
              _ (λ e v answered fresh. absurd (cc)) (λ wf v. drawn random))
      where
        drawn :
            (random : Result String String)
            → Stores steps at w (elim (new_id random) [
              | err e ↦ done (err (Message.error_text e))
              | ok id ↦
                  (perform (Call.create (submitted_job id now steps)) >>= λ created. elim created [
                    | err e ↦ done (err (Message.error_text e))
                    | ok _ ↦ dispatch (submitted_job id now steps)
                  ])
            ])
        drawn (err e) = λ answered fresh. absurd (cc)
        drawn (ok id) = create-Stores at id now steps w

  -- A job that Submit returns, to a request that runs alone and whatever fails, has the given steps, is
  -- read from the table as it was returned but for the nanoseconds below a microsecond of the time of
  -- its creation, and is ready in the queue. That is so where no step in the table has its ID.
  pub submit-Stores :
      (backend : Backend) (at : ℕ → Occasion) (schedule : Schedule) (random : Result String String)
      (now : ℕ) (steps : List JobStep) (w w' : World redis name encode) (job : Job)
      → alone redis name encode at (submit backend schedule random now steps) w ≡ (w', ok job)
      → All (λ (s : StepRow). (s.job_id == job.id) ≡ false) w.tables.steps
      → (job.steps ≡ steps)
        × (get job.id w'.tables ≡ some (in_microseconds job))
        × (contains job.id (ready redis name w'.db) ≡ true)
  submit-Stores backend at schedule random now steps w w' job ran fresh =
      let (same, stored, queued) =
        run-Stores job backend at schedule random now steps w (ap (λ p. p.1) ran) fresh in
      (
        same,
        ap (λ p. get job.id p.0.tables) (sym ran) ∙ stored,
        ap (λ p. contains job.id (ready redis name p.0.db)) (sym ran) ∙ queued,
      )
