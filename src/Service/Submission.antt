-- ===== src/Service/Submission.antt =====
-- internal/jobs/jobs.go, Submit: the order of its calls, and what its result says of them.
use anchora.Prelude.{ℕ, String, Bool, true, false, List, [], ◌∷◌, ◌≡◌, refl, Result, ok, err}
use anchora.Workflow.{Status, Message, Step, Schedule, Workflow}
use anchora.Workflow.Validate.{new_workflow}
use anchora.Store.Steps.{JobStep, Job}
use anchora.Service.Program.{Call, Response, Payload, Entry, Ensures}
use anchora.Service.Program.Rules.{by_response, Ensures-elim}
use anchora.Service.Backend.{Backend, resolve_steps, event_queued, submitted_job, dispatch, submit}
use anchora.Service.Discipline.{saw}

-- The calls succeeded.
abbrev pub created : (c : Call) → Response c → Bool
created (Call.create job) (ok _) = true
created c response = false

abbrev pub logged : (c : Call) → Response c → Bool
logged (Call.append_event id type payload) (ok _) = true
logged c response = false

abbrev pub pushed : (c : Call) → Response c → Bool
pushed (Call.push id) (ok _) = true
pushed c response = false

-- The last call was a push that failed.
abbrev pub push_failed : List Entry → Bool
push_failed [] = false
push_failed (e ∷ history) = failed e.made e.response
  where
    failed : (c : Call) → Response c → Bool
    failed (Call.push id) (err e) = true
    failed c response = false

module _ (backend : Backend) (schedule : Schedule) (steps : List JobStep) where
  -- The steps name agents that are known, and NewWorkflow accepts them.
  abbrev pub Accepted : Type 0
  Accepted =
      (workflow_steps : List Step) × (w : Workflow) × (resolve_steps backend.resolve steps
        ≡ ok workflow_steps)
      × (new_workflow schedule workflow_steps backend.options ≡ ok w)

  -- What Submit may call for the job `job`.
  abbrev pub Submits : Job → List Entry → Call → Type 0
  Submits job h (Call.create j) = (j ≡ job) × (h ≡ []) × Accepted
  Submits job h (Call.append_event id type payload) =
      (id ≡ job.id)
      × (type ≡ event_queued)
      × (payload ≡ Payload.of_job job)
      × (saw created h ≡ true)
  Submits job h (Call.push id) = (id ≡ job.id) × (saw created h ≡ true) × (saw logged h ≡ true)
  Submits job h (Call.finish_job id owner status message) =
      (id ≡ job.id) × (owner ≡ "") × (status ≡ Status.failed) × (push_failed h ≡ true)
  Submits job h c = ⊥

  -- A job is returned exactly where it was pushed.
  abbrev pub Reports : Job → List Entry → Result Message Job → Type 0
  Reports job h (ok j) = (j ≡ job) × (saw pushed h ≡ true)
  Reports job h (err e) = saw pushed h ≡ false

  dispatch-Submits :
      (job : Job) (h : List Entry)
      → saw created h ≡ true
      → saw pushed h ≡ false
      → Ensures (Submits job) (Reports job) h (dispatch job)
  unfolding dispatch
  dispatch-Submits job h made none_pushed = (
    (refl, refl, refl, made),
    by_response _ (λ e. none_pushed)
        (λ u. (
          (refl, made, refl),
          by_response _ (λ e. ((refl, refl, refl, refl), λ r. none_pushed)) (λ u'. (refl, refl)),
        )),
  )

  -- Whatever the store and the queue return: Submit creates nothing unless the steps make a valid
  -- workflow of known agents, pushes the job only once it and its event are recorded, writes a failure
  -- only where the push failed, and returns the job exactly where the push succeeded.
  pub submit-Reports :
      (id : String) (now : ℕ)
      → Ensures
          (Submits (submitted_job id now steps))
          (Reports (submitted_job id now steps))
          []
          (submit backend schedule (ok id) now steps)
  unfolding submit
  submit-Reports id now =
      Ensures-elim _ _ (resolve_steps backend.resolve steps) _ _ [] (λ e r. refl)
        (λ workflow_steps r.
          Ensures-elim _ _ (new_workflow schedule workflow_steps backend.options) _ _ []
            (λ e r'. refl)
            (λ w r'. (
              (refl, refl, (workflow_steps, w, r, r')),
              by_response _ (λ e. refl)
                  (λ u. dispatch-Submits (submitted_job id now steps) _ refl refl),
            )))
