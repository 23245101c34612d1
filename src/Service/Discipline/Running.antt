-- ===== src/Service/Discipline/Running.antt =====
-- internal/jobs/jobs.go, runJob: its calls, and what it knows of the lease when it ends.
use anchora.Prelude.{
  String, Bool, true, false, ◌||◌, Option, none, some, List, [], ◌∷◌, ◌≡◌, refl, sym, ◌∙◌, is_empty,
  if◌then◌else◌, ◌==◌, arith, Result, ok, err, ap,
}
use anchora.Workflow.{Message, Agent, Step, StepResult}
use anchora.Workflow.Validate.{new_workflow}
use anchora.Workflow.Run.{WorkflowError}
use anchora.Store.Steps.{JobStep, Job}
use anchora.Service.Program.{Entry, Ensures}
use anchora.Service.Program.Rules.{
  Ensures->>=, by_response, by_test, by_option, Ensures-if, Ensures-elim, Ensures-weaken,
}
use anchora.Service.Backend.{Backend, resumable, resolve_steps}
use anchora.Service.Lease.{Cause, RunState, fresh, tick, hold_lease}
use anchora.Service.Attempt.{
  Moment, Circumstances, JobOutcome, interrupted, concluded, job_error, classify, moment,
  all_moments, run_workflow, announce_resumed, run_job,
}
use anchora.Service.Discipline.{saw, fenced, lost_beat, is_decided, is_refusal, Permitted}
use anchora.Service.Discipline.Ticks.{is_cancelled, Live, tick-Live, hold_lease-Live}

pub or_false : (b : Bool) → b ≡ (b || false)
or_false true = refl
or_false false = refl

or_true : (b : Bool) → true ≡ (b || true)
or_true true = refl
or_true false = refl

classify-decided :
    (s : RunState) (results : List StepResult) (error : Option WorkflowError)
    → is_decided (classify s results error) ≡ true
    → (s.fence ≡ false) × (is_cancelled s.cause ≡ false)
unfolding classify
classify-decided s results error = by_cause s.cause s.fence (job_error error)
  where
    by_cause :
        (cause : Option Cause) (fence : Bool) (message : Option Message)
        → is_decided (elim cause [
          | some cause ↦ interrupted cause
          | none ↦ if fence then interrupted Cause.lease_lost else concluded results message
        ])
          ≡ true
        → (fence ≡ false) × (is_cancelled cause ≡ false)
    by_cause (some cause) fence message d = absurd (cc)
    by_cause none true message d = absurd (cc)
    by_cause none false message d = (refl, refl)

neither :
    (a b c d : Bool) → a ≡ c → (b ≡ true → d ≡ true) → (c ≡ false) × (d ≡ false) → (a || b) ≡ false
neither true b c d e l h = absurd (ground (arith, e, h.0))
neither false true c d e l h = absurd (ground (arith, l refl, h.1))
neither false false c d e l h = refl

abbrev refused_for : Result Message (List Step) → Bool
refused_for (err e) = is_refusal e
refused_for (ok steps) = false

resolve_steps-refusal :
    (resolve : String → Option Agent) (inputs : List JobStep) (e : Message)
    → resolve_steps resolve inputs ≡ err e
    → is_refusal e ≡ true
unfolding resolve_steps
resolve_steps-refusal resolve [] e h = absurd (cc)
resolve_steps-refusal resolve (input ∷ inputs) e h =
    go (resolve input.agent) (resolve_steps resolve inputs)
      (λ e'. resolve_steps-refusal resolve inputs e') h
  where
    go :
        (found : Option Agent) (rest : Result Message (List Step))
        → ((e' : Message) → rest ≡ err e' → is_refusal e' ≡ true)
        → ◌≡◌ {A = Result Message (List Step)}
            (elim found [
              | none ↦ err (Message.unknown_agent input.agent)
              | some agent ↦ elim rest [
                | err e ↦ err e
                | ok steps ↦ ok (
                    record {
                      id = input.id;
                      agent = some agent;
                      prompt = input.prompt;
                      depends_on = input.depends_on;
                    }
                    ∷ steps)
              ]
            ])
            (err e)
        → is_refusal e ≡ true
    go none rest r h = sym (ap refused_for h)
    go (some agent) (err e') r h = r e h
    go (some agent) (ok steps) r h = absurd (cc)

module _ (backend : Backend) (worker id : String) where
  -- What the end of a part of runJob knows.
  abbrev pub Informed : List Entry → RunState × JobOutcome → Type 0
  Informed h (s, outcome) =
      Live backend worker id s h
      × (is_decided outcome ≡ true → (saw fenced h || lost_beat h) ≡ false)

  moment-Live :
      (m : Moment) (s : RunState) (h : List Entry)
      → Live backend worker id s h
      → Ensures
          (Permitted backend worker id)
          (λ h' s'. Live backend worker id s' h')
          h
          (moment backend worker id m s)
  unfolding moment ◌==◌
  moment-Live (Moment.ticks t) s h live =
      Ensures-weaken _ _ _ _ (λ h' c p. p) (λ h' s' q. q.0) (tick backend worker id t s) h
        (tick-Live backend worker id s.fence t s h (live, refl))
  moment-Live (Moment.claims step_id) s h live = (
    (refl, refl, live.0),
    by_response _ (λ e. (live.0, live.1, live.2 ∙ or_false s.fence, live.3))
        (by_test _ (live.0, live.1, live.2 ∙ or_false s.fence, live.3)
          (live.0, live.1, or_true s.fence, live.3)),
  )
  moment-Live (Moment.records result) s h live =
      ((refl, refl, live.0), λ r. ((refl, refl), λ r'. live))

  all_moments-Live :
      (moments : List Moment) (s : RunState) (h : List Entry)
      → Live backend worker id s h
      → Ensures
          (Permitted backend worker id)
          (λ h' s'. Live backend worker id s' h')
          h
          (all_moments backend worker id moments s)
  unfolding all_moments
  all_moments-Live [] s h live = live
  all_moments-Live (m ∷ moments) s h live =
      Ensures->>= _ _ _ (moment backend worker id m s) _ h (moment-Live m s h live)
        (λ h' s' q. all_moments-Live moments s' h' q)

  run_workflow-Informed :
      (c : Circumstances) (job : Job) (steps : List Step) (s : RunState) (h : List Entry)
      → Live backend worker id s h
      → Ensures
          (Permitted backend worker id)
          Informed
          h
          (run_workflow backend worker id c job steps s)
  unfolding run_workflow
  run_workflow-Informed c job steps s h live =
      Ensures->>= _ _ _ (all_moments backend worker id c.moments s) _ h
        (all_moments-Live c.moments s h live)
        (λ h' s' q. (
          q,
          λ d.
              neither (saw fenced h') (lost_beat h') s'.fence (is_cancelled s'.cause) q.2 q.3
                (classify-decided s' _ _ d),
        ))

  announce_resumed-Live :
      (job : Job) (s : RunState) (h : List Entry)
      → Live backend worker id s h
      → Ensures
          (Permitted backend worker id)
          (λ h' u. Live backend worker id s h')
          h
          (announce_resumed backend worker id job)
  unfolding announce_resumed ◌==◌
  announce_resumed-Live job s h live =
      Ensures-if _ _ (is_empty (resumable job)) _ _ h (λ e. live) (λ e. ((refl, refl), λ r. live))

  -- For a delivery whose claim was granted, and of which no outcome was recorded yet, no claim of a step
  -- was refused and no beat found a lease gone: whatever its calls return, runJob makes permitted calls,
  -- and if it ends with the outcome of a workflow that ran, no claim of a step was refused, and no beat
  -- found a lease gone whose two calls were both answered.
  pub run_job-Informed :
      (c : Circumstances) (h : List Entry)
      → Live backend worker id fresh h
      → Ensures (Permitted backend worker id) Informed h (run_job backend worker id c)
  unfolding run_job ◌==◌
  run_job-Informed c h live =
      Ensures->>= _ _ _ (hold_lease backend worker id c.early fresh) _ h
        (hold_lease-Live backend worker id false c.early fresh h (live, refl))
        (λ h' s q. (
          (refl, q.0.0),
          by_response _ (λ e. (q.0, λ d. absurd (cc)))
              (by_option _ (q.0, λ d. absurd (cc))
                (λ job.
                  Ensures-elim _ _ (resolve_steps backend.resolve job.steps) _ _ _
                    (λ e r.
                      (q.0, λ d. absurd (ground (arith, d, resolve_steps-refusal _ job.steps e r))))
                    (λ steps r.
                      Ensures->>= _ _ _ (announce_resumed backend worker id job) _ _
                        (announce_resumed-Live job s _ q.0)
                        (λ h'' u live'.
                          Ensures-elim _ _ (new_workflow _ _ _) _ _ h''
                            (λ e r'. (live', λ d. absurd (cc)))
                            (λ w r'. run_workflow-Informed c job steps s h'' live'))))),
        ))
