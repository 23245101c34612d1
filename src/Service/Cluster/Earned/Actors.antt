-- ===== src/Service/Cluster/Earned/Actors.antt =====
-- internal/jobs/jobs.go: which of the programs of the workers, the reaper and the submissions announce
-- that a job is completed, and when.
use anchora.Prelude.{
  ℕ, zero, suc, String, Bool, false, ◌&&◌, ◌||◌, List, [], ◌∷◌, ◌≡◌, refl, ap, ◌∙◌, ◌==◌, ok, err,
  arith, Result,
}
use anchora.Prelude.Int.{ℤ, pos}
use anchora.Workflow.{Schedule}
use anchora.Workflow.Validate.{new_workflow}
use anchora.Store.Registry.{WorkerInfo}
use anchora.Store.Steps.{JobStep, Job}
use anchora.Service.Program.{Call, Program, done, calls, ◌>>=◌, Entry}
use anchora.Service.Program.Rules.{Makes, Makes->>=, by_response, Makes-of_Ensures, Makes-elim}
use anchora.Service.Backend.{
  Backend, event_completed, event_queued, event_reclaimed, next_backoff, resolve_steps, submit,
  submitted_job,
}
use anchora.Service.Attempt.{Circumstances}
use anchora.Service.Worker.{process}
use anchora.Service.Loops.{
  Turn, WorkerEnd, ended, running, unregistered, report, alongside, work, leave, run_worker, reap,
  run_reaper,
}
use anchora.Service.Discipline.Processing.{process-Permitted}
use anchora.Service.Recovery.{Sweeps, reap-Pushed}
use anchora.Service.Submission.{Submits, submit-Reports}
use anchora.Service.Cluster.{Actor, program_of}
use anchora.Service.Cluster.Earned.{
  Earns, completes, recorded, Earns-weaken, Earns->>=, Earns-if, Earns-of_Makes, Earns-of_Ensures,
}

module _ (backend : Backend) (id : String) where
  process-Earns :
      (worker job : String) (c : Circumstances) → Earns id false (process backend worker job c)
  process-Earns worker job c =
      Earns-of_Ensures backend worker job _ id false [] (process backend worker job c)
        (λ seen same. absurd (cc)) (process-Permitted backend worker job c)

  -- The heartbeat of the registry earns nothing, and announces nothing.
  report-Earns :
      {A : Type 0} (b : Bool) (w : String) (n claimed : ℕ) (f : ℕ → Program A)
      → ((left : ℕ) → Earns id b (f left))
      → Earns id b (report w n claimed >>= f)
  unfolding report
  report-Earns b w zero claimed f k = k claimed
  report-Earns b w (suc n) claimed f k = (
    λ announced. absurd (cc),
    λ r.
        Earns-weaken id b (b || false) (report w n 0 >>= f) (λ h. ground (arith, h))
          (report-Earns b w n 0 f k),
  )

  alongside-Earns :
      {A : Type 0} (b : Bool) (w : String) (ticks : List ℕ) (claimed : ℕ) (p : Program A)
      → Earns id b p
      → Earns id b (alongside w ticks claimed p)
  unfolding alongside
  alongside-Earns b w ticks claimed (done a) e = tt
  alongside-Earns b w [] claimed (calls c next) e =
      (e.0, λ r. alongside-Earns (b || recorded id c r) w [] claimed (next r) (e.1 r))
  alongside-Earns b w (n ∷ ticks) claimed (calls c next) e =
      report-Earns b w n claimed _
        (λ left. (e.0, λ r. alongside-Earns (b || recorded id c r) w ticks left (next r) (e.1 r)))

  work-Earns :
      (w : String) (turns : List Turn) (waited : ℤ) (claimed : ℕ)
      → Earns id false (work backend w turns waited claimed)
  unfolding work
  work-Earns w [] waited claimed = tt
  work-Earns w (t ∷ turns) waited claimed = report-Earns false w t.reports claimed _ (λ left.
      Earns-if id false _ _ t.stopped tt (
        λ announced. absurd (cc),
        by_response _
            (λ e. Earns-if id false _ _ t.stopped_after tt (
              report-Earns false w t.reports_waiting left _ (λ left'.
                Earns-if id false _ _ t.slept (work-Earns w turns (next_backoff waited) left') tt)))
            (λ job. Earns-if id false _ _ (job == "") (work-Earns w turns (pos 0) left) (
              Earns->>= id false
                (alongside w t.reports_during (suc left) (process backend w job t.circumstances)) _
                (alongside-Earns false w t.reports_during (suc left)
                  (process backend w job t.circumstances) (process-Earns w job t.circumstances))
                (λ left'. work-Earns w turns (pos 0) left'))),
      ))

  leave-Earns : (w : String) (end : WorkerEnd) → Earns id false (leave w end)
  unfolding leave
  leave-Earns w ended = (λ announced. absurd (cc), λ r. tt)
  leave-Earns w running = tt
  leave-Earns w (unregistered e) = tt

  run_worker-Earns :
      (info : WorkerInfo) (turns : List Turn) → Earns id false (run_worker backend info turns)
  unfolding run_worker
  run_worker-Earns info turns = (
    λ announced. absurd (cc),
    by_response _ (λ e. tt)
        (λ u.
          Earns->>= id false (work backend info.id turns (pos 0) 0) _
            (work-Earns info.id turns (pos 0) 0) (λ end. leave-Earns info.id end)),
  )

  reclaimed_apart : (event_reclaimed == event_completed) ≡ false
  unfolding ◌==◌
  reclaimed_apart = refl

  queued_apart : (event_queued == event_completed) ≡ false
  unfolding ◌==◌
  queued_apart = refl

  other_event :
      (k type event : String)
      → type ≡ event
      → (event == event_completed) ≡ false
      → (k == id && type == event_completed) ≡ false
  other_event k type event same other =
      let apart : (type == event_completed) ≡ false = ap (λ t. t == event_completed) same ∙ other in
      ground (arith, apart)

  Sweeps-Quiet : (h : List Entry) (c : Call) → Sweeps backend h c → completes id c ≡ false
  Sweeps-Quiet h (Call.create a) p = refl
  Sweeps-Quiet h (Call.get a) p = refl
  Sweeps-Quiet h (Call.claim_job a b d) p = refl
  Sweeps-Quiet h (Call.extend_lease a b d) p = refl
  Sweeps-Quiet h (Call.finish_job a b d f) p = refl
  Sweeps-Quiet h (Call.release_job a b) p = refl
  Sweeps-Quiet h (Call.reclaim_expired_jobs a b) p = refl
  Sweeps-Quiet h (Call.claim_step a b d) p = refl
  Sweeps-Quiet h (Call.update_step a b d) p = refl
  Sweeps-Quiet h (Call.append_event k type payload) p =
      other_event k type event_reclaimed p.0 reclaimed_apart
  Sweeps-Quiet h (Call.events a b) p = refl
  Sweeps-Quiet h (Call.register_worker a) p = refl
  Sweeps-Quiet h (Call.heartbeat_worker a b) p = refl
  Sweeps-Quiet h (Call.unregister_worker a) p = refl
  Sweeps-Quiet h (Call.prune_workers a) p = refl
  Sweeps-Quiet h (Call.workers a) p = refl
  Sweeps-Quiet h (Call.push a) p = refl
  Sweeps-Quiet h (Call.ack a) p = refl
  Sweeps-Quiet h (Call.requeue a) p = refl
  Sweeps-Quiet h (Call.claim a b) p = refl
  Sweeps-Quiet h (Call.extend a b d) p = refl
  Sweeps-Quiet h (Call.reclaim a) p = refl
  Sweeps-Quiet h Call.depth p = refl

  Submits-Quiet :
      (schedule : Schedule) (steps : List JobStep) (job : Job) (h : List Entry) (c : Call)
      → Submits backend schedule steps job h c
      → completes id c ≡ false
  Submits-Quiet schedule steps job h (Call.create a) p = refl
  Submits-Quiet schedule steps job h (Call.get a) p = refl
  Submits-Quiet schedule steps job h (Call.claim_job a b d) p = refl
  Submits-Quiet schedule steps job h (Call.extend_lease a b d) p = refl
  Submits-Quiet schedule steps job h (Call.finish_job a b d f) p = refl
  Submits-Quiet schedule steps job h (Call.release_job a b) p = refl
  Submits-Quiet schedule steps job h (Call.reclaim_expired_jobs a b) p = refl
  Submits-Quiet schedule steps job h (Call.claim_step a b d) p = refl
  Submits-Quiet schedule steps job h (Call.update_step a b d) p = refl
  Submits-Quiet schedule steps job h (Call.append_event k type payload) p =
      other_event k type event_queued p.1 queued_apart
  Submits-Quiet schedule steps job h (Call.events a b) p = refl
  Submits-Quiet schedule steps job h (Call.register_worker a) p = refl
  Submits-Quiet schedule steps job h (Call.heartbeat_worker a b) p = refl
  Submits-Quiet schedule steps job h (Call.unregister_worker a) p = refl
  Submits-Quiet schedule steps job h (Call.prune_workers a) p = refl
  Submits-Quiet schedule steps job h (Call.workers a) p = refl
  Submits-Quiet schedule steps job h (Call.push a) p = refl
  Submits-Quiet schedule steps job h (Call.ack a) p = refl
  Submits-Quiet schedule steps job h (Call.requeue a) p = refl
  Submits-Quiet schedule steps job h (Call.claim a b) p = refl
  Submits-Quiet schedule steps job h (Call.extend a b d) p = refl
  Submits-Quiet schedule steps job h (Call.reclaim a) p = refl
  Submits-Quiet schedule steps job h Call.depth p = refl

  run_reaper-Quiet : (ticks : ℕ) → Makes (λ c. completes id c ≡ false) (run_reaper backend ticks)
  unfolding run_reaper
  run_reaper-Quiet zero = tt
  run_reaper-Quiet (suc ticks) =
      Makes->>= _ (reap backend) _
        (Makes-of_Ensures _ _ _ (λ h c p. Sweeps-Quiet h c p) (reap backend) []
          (reap-Pushed backend))
        (λ u. run_reaper-Quiet ticks)

  submit-Quiet :
      (schedule : Schedule) (new_id : Result String String) (now : ℕ) (steps : List JobStep)
      → Makes (λ c. completes id c ≡ false) (submit backend schedule new_id now steps)
  unfolding submit
  submit-Quiet schedule (ok new) now steps =
      Makes-of_Ensures _ _ _
        (λ h c p. Submits-Quiet schedule steps (submitted_job new now steps) h c p)
        (submit backend schedule (ok new) now steps) []
        (submit-Reports backend schedule steps new now)
  submit-Quiet schedule (err e) now steps =
      Makes-elim _ (resolve_steps backend.resolve steps) _ _ (λ m. tt)
        (λ ready.
          Makes-elim _ (new_workflow schedule ready backend.options) _ _ (λ m. tt) (λ wf. tt))

  -- No actor announces that the job is completed before it has recorded the outcome.
  pub program_of-Earns : (actor : Actor) → Earns id false (program_of backend actor)
  unfolding program_of
  program_of-Earns (Actor.worker info turns) =
      Earns->>= id false (run_worker backend info turns) _ (run_worker-Earns info turns) (λ e. tt)
  program_of-Earns (Actor.reaper ticks) =
      Earns-of_Makes id false (run_reaper backend ticks) (run_reaper-Quiet ticks)
  program_of-Earns (Actor.submission schedule new_id now steps) =
      Earns->>= id false (submit backend schedule new_id now steps) _
        (Earns-of_Makes id false _ (submit-Quiet schedule new_id now steps)) (λ r. tt)
