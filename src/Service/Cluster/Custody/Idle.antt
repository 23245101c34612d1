-- ===== src/Service/Cluster/Custody/Idle.antt =====
-- internal/jobs/jobs.go: the parts of a delivery that take no job.
use anchora.Prelude.{
  ℕ, String, true, Option, none, some, List, [], ◌∷◌, ◌≡◌, refl, map, is_empty, ◌&&◌,
}
use anchora.Prelude.Int.{ℤ}
use anchora.Workflow.{Message, StepResult}
use anchora.Workflow.Validate.{new_workflow}
use anchora.Store.{is_terminal}
use anchora.Store.Steps.{Job}
use anchora.Service.Program.{Program, ◌>>◌}
use anchora.Service.Program.Rules.{
  Makes, Makes->>=, Makes-if, Makes-elim, by_response, by_option, by_test,
}
use anchora.Service.Backend.{Backend, resolve_steps, resumable}
use anchora.Service.Lease.{Tick, RunState, beat, tick, hold_lease, fresh}
use anchora.Service.Attempt.{
  Moment, Circumstances, fenced_step, resumed_options, moment, all_moments, run_workflow,
  announce_resumed, run_job,
}
use anchora.Service.Worker.{final_status, dead_letter, ack_job, persist, conclude}
use anchora.Service.Cluster.Custody.{is_idle}

abbrev pub Idle : {A : Type 0} → Program A → Type 0
Idle p = Makes (λ c. is_idle c ≡ true) p

module _ (backend : Backend) (worker id : String) where
  beat-Idle : (s : RunState) → Idle (beat backend worker id s)
  unfolding beat
  beat-Idle s = (
    refl,
    by_response _ (λ e. tt)
        (λ held. (refl, by_response _ (λ e. tt) (λ still. Makes-if _ _ _ (held && still) tt tt))),
  )

  tick-Idle : (t : Tick) (s : RunState) → Idle (tick backend worker id t s)
  unfolding tick
  tick-Idle Tick.beats s = Makes-if _ _ _ s.beating (beat-Idle s) tt
  tick-Idle Tick.stops s = tt

  pub hold_lease-Idle : (ts : List Tick) (s : RunState) → Idle (hold_lease backend worker id ts s)
  unfolding hold_lease
  hold_lease-Idle [] s = tt
  hold_lease-Idle (t ∷ ts) s =
      Makes->>= _ (tick backend worker id t s) _ (tick-Idle t s) (λ s'. hold_lease-Idle ts s')

  moment-Idle : (m : Moment) (s : RunState) → Idle (moment backend worker id m s)
  unfolding moment
  moment-Idle (Moment.ticks t) s = tick-Idle t s
  moment-Idle (Moment.claims step_id) s = (refl, λ r. tt)
  moment-Idle (Moment.records result) s = (refl, λ r. (refl, λ r'. tt))

  all_moments-Idle : (ms : List Moment) (s : RunState) → Idle (all_moments backend worker id ms s)
  unfolding all_moments
  all_moments-Idle [] s = tt
  all_moments-Idle (m ∷ ms) s =
      Makes->>= _ (moment backend worker id m s) _ (moment-Idle m s) (λ s'. all_moments-Idle ms s')

  announce_resumed-Idle : (job : Job) → Idle (announce_resumed backend worker id job)
  unfolding announce_resumed
  announce_resumed-Idle job = Makes-if _ _ _ (is_empty (resumable job)) tt (refl, λ r. tt)

  pub run_job-Idle : (c : Circumstances) → Idle (run_job backend worker id c)
  unfolding run_job run_workflow
  run_job-Idle c =
      Makes->>= _ (hold_lease backend worker id c.early fresh) _ (hold_lease-Idle c.early fresh)
        (λ s. (
          refl,
          by_response _ (λ e. tt)
              (by_option _ tt (λ job.
                Makes-elim _ (resolve_steps backend.resolve job.steps) _ _ (λ e. tt)
                  (λ steps.
                    Makes->>= _ (announce_resumed backend worker id job) _
                      (announce_resumed-Idle job)
                      (λ u.
                        Makes-elim _
                          (new_workflow c.schedule (map (fenced_step []) steps)
                            (resumed_options backend job))
                          _ _ (λ e. tt)
                          (λ w.
                            Makes->>= _ (all_moments backend worker id c.moments s) _
                              (all_moments-Idle c.moments s) (λ s'. tt)))))),
        ))

  persist-Idle : (results : List StepResult) → Idle (persist backend worker id results)
  unfolding persist
  persist-Idle [] = tt
  persist-Idle (result ∷ results) = (refl, λ r. persist-Idle results)

  pub ack_job-Idle : Idle (ack_job backend worker id)
  unfolding ack_job
  ack_job-Idle = (refl, λ r. tt)

  final_status-is_terminal : (e : Option Message) → is_terminal (final_status e) ≡ true
  final_status-is_terminal none = refl
  final_status-is_terminal (some e) = refl

  pub conclude-Idle :
      (attempts : ℕ) (results : List StepResult) (e : Option Message)
      → Idle (conclude backend worker id attempts results e)
  unfolding conclude
  conclude-Idle attempts results e =
      Makes->>= _ (persist backend worker id results) _ (persist-Idle results) (λ u. (
        final_status-is_terminal e,
        by_response _ (λ m. tt) (by_test _ (refl, λ r. ack_job-Idle) tt),
      ))

  pub refuse-Idle :
      (attempts : ℕ) (limit : ℤ)
      → Idle (dead_letter backend worker id attempts limit >> ack_job backend worker id)
  unfolding dead_letter
  refuse-Idle attempts limit = (refl, λ r. (refl, λ r'. ack_job-Idle))
