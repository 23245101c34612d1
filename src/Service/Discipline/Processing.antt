-- ===== src/Service/Discipline/Processing.antt =====
-- internal/jobs/jobs.go, process: every call that a worker makes for a delivery is permitted.
use anchora.Prelude.{
  ℕ, String, Bool, true, false, not, ◌||◌, Option, none, some, List, [], ◌∷◌, ◌≡◌, refl, ap, sym,
  ◌∙◌, ◌⊎◌, inl, inr, ◌==◌, Bool-cases, ok,
}
use anchora.Prelude.Int.{ℤ}
use anchora.Workflow.{Message, StepResult}
use anchora.Service.{lease}
use anchora.Service.Program.{Call, ◌>>◌, Entry, Ensures}
use anchora.Service.Program.Rules.{Ensures->>=, by_response, by_test, by_claim, Ensures-if}
use anchora.Service.Backend.{Backend}
use anchora.Service.Lease.{Cause, fresh, hold_lease}
use anchora.Service.Attempt.{Circumstances, JobOutcome, interrupted, concluded, run_job}
use anchora.Service.Worker.{
  release_and_requeue, abandon, dead_letter, ack_job, persist, final_message, conclude, settle,
  over_budget, execute, process,
}
use anchora.Service.Discipline.{
  saw, dropped, fenced, finished, is_decided, is_refusal, granted, exceeded, Permitted,
}
use anchora.Service.Discipline.Ticks.{Live, hold_lease-Live}
use anchora.Service.Discipline.Running.{or_false, run_job-Informed}

third_true : (a b : Bool) → (a || (b || true)) ≡ true
third_true true b = refl
third_true false true = refl
third_true false false = refl

second_true : (a b c : Bool) → b ≡ true → (a || (b || c)) ≡ true
second_true true b c h = refl
second_true false true c h = refl
second_true false false c h = absurd (cc)

first_false : (a b : Bool) → (a || b) ≡ false → a ≡ false
first_false true b h = absurd (cc)
first_false false b h = refl

module _ (backend : Backend) (worker id : String) where
  abbrev pub Free : {A : Type 0} → List Entry → A → Type 0
  Free h a = Unit {0}

  abbrev Held : List Entry → Type 0
  Held h = (saw (granted backend) h ≡ true) × (saw finished h ≡ false)

  release_and_requeue-Permitted :
      (h : List Entry)
      → Held h
      → Ensures (Permitted backend worker id) Free h (release_and_requeue backend worker id)
  unfolding release_and_requeue
  release_and_requeue-Permitted h held =
      ((refl, refl, held.0, held.1), by_response _ (λ e. tt) (λ u. ((refl, refl), λ r. tt)))

  abandon-Permitted :
      (cause : Cause) (h : List Entry)
      → Held h
      → Ensures (Permitted backend worker id) Free h (abandon backend worker id cause)
  unfolding abandon ◌==◌
  abandon-Permitted Cause.lease_lost h held = ((refl, refl), λ r. tt)
  abandon-Permitted Cause.canceled h held =
      ((refl, refl), λ r. release_and_requeue-Permitted _ held)
  abandon-Permitted (Cause.load_failed e) h held =
      ((refl, refl), λ r. release_and_requeue-Permitted _ held)

  ack_job-Permitted :
      (h : List Entry)
      → Permitted backend worker id h (Call.ack id)
      → Ensures (Permitted backend worker id) Free h (ack_job backend worker id)
  unfolding ack_job
  ack_job-Permitted h p = (p, λ r. tt)

  abbrev MayFinish : Message → List Entry → Type 0
  MayFinish message h =
      (saw (granted backend) h ≡ true) × ((is_refusal message ≡ true) ⊎ (saw fenced h ≡ false))

  persist-Permitted :
      (message : Message) (results : List StepResult) (h : List Entry)
      → MayFinish message h
      → Ensures
          (Permitted backend worker id)
          (λ h' u. MayFinish message h')
          h
          (persist backend worker id results)
  unfolding persist
  persist-Permitted message [] h may = may
  persist-Permitted message (result ∷ results) h may =
      ((refl, refl, may.0), λ r. persist-Permitted message results _ may)

  conclude-Permitted :
      (attempts : ℕ) (results : List StepResult) (error : Option Message) (h : List Entry)
      → MayFinish (final_message error) h
      → Ensures
          (Permitted backend worker id)
          Free
          h
          (conclude backend worker id attempts results error)
  unfolding conclude ack_job ◌==◌
  conclude-Permitted attempts results error h may =
      Ensures->>= _ _ _ (persist backend worker id results) _ h
        (persist-Permitted (final_message error) results h may)
        (λ h' u may'. (
          (refl, refl, inr may'),
          by_response _ (λ e. tt)
              (by_test _
                (
                  (refl, refl),
                  λ r. ((refl, third_true (saw dropped h') (saw (exceeded backend) h')), λ r'. tt),
                )
                tt),
        ))

  settle-Permitted :
      (attempts : ℕ) (outcome : JobOutcome) (h : List Entry)
      → Held h
      → (is_decided outcome ≡ true → saw fenced h ≡ false)
      → Ensures (Permitted backend worker id) Free h (settle backend worker id attempts outcome)
  unfolding settle
  settle-Permitted attempts (interrupted cause) h held d = abandon-Permitted cause h held
  settle-Permitted attempts (concluded results none) h held d =
      conclude-Permitted attempts results none h (held.0, inr (d refl))
  settle-Permitted attempts (concluded results (some message)) h held d =
      conclude-Permitted attempts results (some message) h (
        held.0,
        elim (Bool-cases (is_refusal message)) [
          | inl is ↦ inl is
          | inr is_not ↦ inr (d (ap not is_not))
        ],
      )

  execute-Permitted :
      (c : Circumstances) (attempts : ℕ) (h : List Entry)
      → Live backend worker id fresh h
      → Ensures (Permitted backend worker id) Free h (execute backend worker id c attempts)
  unfolding execute ◌==◌
  execute-Permitted c attempts h live = (
    (refl, refl),
    λ r.
        Ensures->>= _ _ _ (run_job backend worker id c) _ _
          (run_job-Informed backend worker id c _ live)
          (λ h' ran q.
            Ensures->>= _ _ _ (hold_lease backend worker id c.late ran.0) _ h'
              (hold_lease-Live backend worker id ran.0.fence c.late ran.0 h' (q.0, refl))
              (λ h'' s at.
                settle-Permitted attempts ran.1 h'' (at.0.0, at.0.1)
                  (λ d. at.0.2 ∙ at.1 ∙ sym q.0.2 ∙ first_false _ _ (q.1 d)))),
  )

  dead_letter-Permitted :
      (attempts : ℕ) (limit : ℤ) (h : List Entry)
      → saw (exceeded backend) h ≡ true
      → Ensures
          (Permitted backend worker id)
          (λ h' u. saw (exceeded backend) h' ≡ true)
          h
          (dead_letter backend worker id attempts limit)
  unfolding dead_letter ◌==◌
  dead_letter-Permitted attempts limit h e = ((refl, refl, inl e), λ r. ((refl, refl), λ r'. e))

  give_up-Permitted :
      (attempts : ℕ) (limit : ℤ) (h : List Entry)
      → saw (exceeded backend) h ≡ true
      → Ensures
          (Permitted backend worker id)
          Free
          h
          (dead_letter backend worker id attempts limit >> ack_job backend worker id)
  give_up-Permitted attempts limit h e =
      Ensures->>= _ _ _ (dead_letter backend worker id attempts limit) _ h
        (dead_letter-Permitted attempts limit h e)
        (λ h' u e'.
          ack_job-Permitted h'
            (refl, second_true (saw dropped h') (saw (exceeded backend) h') (saw finished h') e'))

  -- Whatever the store and the queue return, whatever the heartbeat and the agents do meanwhile,
  -- every call that a worker makes for a delivery is a permitted one.
  pub process-Permitted :
      (c : Circumstances)
      → Ensures (Permitted backend worker id) Free [] (process backend worker id c)
  unfolding process
  process-Permitted c = (
    (refl, refl, refl),
    by_response _ (λ e. tt)
        ((by_claim _
          (λ attempts.
            Ensures-if _ _ (over_budget backend attempts) _ _ _
              (λ over.
                give_up-Permitted attempts backend.config.max_attempts (first attempts)
                  (sym (or_false (over_budget backend attempts)) ∙ over))
              (λ within. execute-Permitted c attempts (first attempts) (
                sym (or_false (not (over_budget backend attempts))) ∙ ap not within,
                refl,
                refl,
                λ l. l,
              )))
          (λ attempts. ((refl, refl), λ r. tt)))),
  )
    where
      first : ℕ → List Entry
      first attempts =
          record {
            made = Call.claim_job id worker (lease backend.config);
            response = ok (attempts, true);
          }
          ∷ []
