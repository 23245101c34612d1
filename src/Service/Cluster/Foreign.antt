-- ===== src/Service/Cluster/Foreign.antt =====
-- Which statements the goroutines run: each worker's in its own name, none without an owner but a
-- submission's.
use anchora.Prelude.{
  ℕ, zero, suc, String, List, [], ◌∷◌, ◌++◌, ◌≡◌, sym, ap, All, ◌==◌, Result, ok, err, Result-elim,
}
use anchora.Prelude.Int.{ℤ, pos}
use anchora.Store.{Selection, Operation}
use anchora.Service.Program.{Call, Program, done, calls, Entry}
use anchora.Service.Program.Rules.{Makes, Makes->>=, Makes-if, Makes-of_Ensures, by_response}
use anchora.Service.Backend.{Backend, next_backoff, submit, submitted_job, resolve_steps}
use anchora.Workflow.Validate.{new_workflow}
use anchora.Store.Registry.{WorkerInfo}
use anchora.Service.Worker.{process}
use anchora.Service.Loops.{
  Turn, WorkerEnd, ended, running, unregistered, report, alongside, work, leave, run_worker, reap,
  run_reaper,
}
use anchora.Service.Discipline.{Permitted}
use anchora.Service.Discipline.Processing.{process-Permitted}
use anchora.Service.Recovery.{Sweeps, reap-Pushed}
use anchora.Service.Submission.{Submits, submit-Reports}
use anchora.Store.Steps.{JobStep, Job}
use anchora.Workflow.{Schedule}
use anchora.Service.Cluster.{Actor, program_of, operations, Interleaves, takes, fails, stops}

-- The statement is one that this worker runs.
abbrev pub IsBy : String → Operation → Type 0
IsBy w (Operation.creates id status) = ⊥
IsBy w (Operation.claims id owner lease) = owner ≡ w
IsBy w (Operation.extends id owner lease) = owner ≡ w
IsBy w (Operation.finishes id owner status error) = owner ≡ w
IsBy w (Operation.releases id owner) = owner ≡ w
IsBy w (Operation.reclaims selection grace limit) = ⊥

abbrev pub IsReclaim : Operation → Type 0
IsReclaim (Operation.reclaims selection grace limit) = Unit {0}
IsReclaim op = ⊥

-- A submission creates a job, or gives up the one that has the new ID.
abbrev pub IsSubmission : Result String String → Operation → Type 0
IsSubmission new_id (Operation.creates id status) = Unit {0}
IsSubmission new_id (Operation.finishes id owner status error) = (owner ≡ "") × (new_id ≡ ok id)
IsSubmission new_id op = ⊥

-- The statements that an actor runs.
abbrev pub IsOf : Actor → Operation → Type 0
IsOf (Actor.worker info turns) op = IsBy info.id op
IsOf (Actor.reaper ticks) op = IsReclaim op
IsOf (Actor.submission schedule new_id now steps) op = IsSubmission new_id op

module _ (select : Selection) (backend : Backend) where
  abbrev Runs : (Operation → Type 0) → Call → Type 0
  Runs P c = All P (operations select c)

  Permitted-IsBy :
      (w id : String) (h : List Entry) (c : Call) → Permitted backend w id h c → Runs (IsBy w) c
  Permitted-IsBy w id h (Call.create a) p = absurd p
  Permitted-IsBy w id h (Call.get a) p = tt
  Permitted-IsBy w id h (Call.claim_job a b d) p = (p.1, tt)
  Permitted-IsBy w id h (Call.extend_lease a b d) p = (p.1, tt)
  Permitted-IsBy w id h (Call.finish_job a b d e') p = (p.1, tt)
  Permitted-IsBy w id h (Call.release_job a b) p = (p.1, tt)
  Permitted-IsBy w id h (Call.reclaim_expired_jobs a b) p = absurd p
  Permitted-IsBy w id h (Call.claim_step a b d) p = tt
  Permitted-IsBy w id h (Call.update_step a b d) p = tt
  Permitted-IsBy w id h (Call.append_event a b d) p = tt
  Permitted-IsBy w id h (Call.events a b) p = absurd p
  Permitted-IsBy w id h (Call.register_worker a) p = absurd p
  Permitted-IsBy w id h (Call.heartbeat_worker a b) p = absurd p
  Permitted-IsBy w id h (Call.unregister_worker a) p = absurd p
  Permitted-IsBy w id h (Call.prune_workers a) p = absurd p
  Permitted-IsBy w id h (Call.workers a) p = absurd p
  Permitted-IsBy w id h (Call.push a) p = absurd p
  Permitted-IsBy w id h (Call.ack a) p = tt
  Permitted-IsBy w id h (Call.requeue a) p = tt
  Permitted-IsBy w id h (Call.claim a b) p = absurd p
  Permitted-IsBy w id h (Call.extend a b d) p = tt
  Permitted-IsBy w id h (Call.reclaim a) p = absurd p
  Permitted-IsBy w id h Call.depth p = absurd p

  Sweeps-IsReclaim : (h : List Entry) (c : Call) → Sweeps backend h c → Runs IsReclaim c
  Sweeps-IsReclaim h (Call.create a) p = absurd p
  Sweeps-IsReclaim h (Call.get a) p = absurd p
  Sweeps-IsReclaim h (Call.claim_job a b d) p = absurd p
  Sweeps-IsReclaim h (Call.extend_lease a b d) p = absurd p
  Sweeps-IsReclaim h (Call.finish_job a b d e') p = absurd p
  Sweeps-IsReclaim h (Call.release_job a b) p = absurd p
  Sweeps-IsReclaim h (Call.reclaim_expired_jobs a b) p = (tt, tt)
  Sweeps-IsReclaim h (Call.claim_step a b d) p = absurd p
  Sweeps-IsReclaim h (Call.update_step a b d) p = absurd p
  Sweeps-IsReclaim h (Call.append_event a b d) p = tt
  Sweeps-IsReclaim h (Call.events a b) p = absurd p
  Sweeps-IsReclaim h (Call.register_worker a) p = absurd p
  Sweeps-IsReclaim h (Call.heartbeat_worker a b) p = absurd p
  Sweeps-IsReclaim h (Call.unregister_worker a) p = absurd p
  Sweeps-IsReclaim h (Call.prune_workers a) p = tt
  Sweeps-IsReclaim h (Call.workers a) p = absurd p
  Sweeps-IsReclaim h (Call.push a) p = tt
  Sweeps-IsReclaim h (Call.ack a) p = absurd p
  Sweeps-IsReclaim h (Call.requeue a) p = absurd p
  Sweeps-IsReclaim h (Call.claim a b) p = absurd p
  Sweeps-IsReclaim h (Call.extend a b d) p = absurd p
  Sweeps-IsReclaim h (Call.reclaim a) p = tt
  Sweeps-IsReclaim h Call.depth p = absurd p

  Submits-IsSubmission :
      (steps : List JobStep) (schedule : Schedule) (job : Job) (h : List Entry) (c : Call)
      → Submits backend schedule steps job h c
      → Runs (IsSubmission (ok job.id)) c
  Submits-IsSubmission steps schedule job h (Call.create a) p = (tt, tt)
  Submits-IsSubmission steps schedule job h (Call.get a) p = absurd p
  Submits-IsSubmission steps schedule job h (Call.claim_job a b d) p = absurd p
  Submits-IsSubmission steps schedule job h (Call.extend_lease a b d) p = absurd p
  Submits-IsSubmission steps schedule job h (Call.finish_job a b d e') p =
      ((p.1, ap ok (sym p.0)), tt)
  Submits-IsSubmission steps schedule job h (Call.release_job a b) p = absurd p
  Submits-IsSubmission steps schedule job h (Call.reclaim_expired_jobs a b) p = absurd p
  Submits-IsSubmission steps schedule job h (Call.claim_step a b d) p = absurd p
  Submits-IsSubmission steps schedule job h (Call.update_step a b d) p = absurd p
  Submits-IsSubmission steps schedule job h (Call.append_event a b d) p = tt
  Submits-IsSubmission steps schedule job h (Call.events a b) p = absurd p
  Submits-IsSubmission steps schedule job h (Call.register_worker a) p = absurd p
  Submits-IsSubmission steps schedule job h (Call.heartbeat_worker a b) p = absurd p
  Submits-IsSubmission steps schedule job h (Call.unregister_worker a) p = absurd p
  Submits-IsSubmission steps schedule job h (Call.prune_workers a) p = absurd p
  Submits-IsSubmission steps schedule job h (Call.workers a) p = absurd p
  Submits-IsSubmission steps schedule job h (Call.push a) p = tt
  Submits-IsSubmission steps schedule job h (Call.ack a) p = absurd p
  Submits-IsSubmission steps schedule job h (Call.requeue a) p = absurd p
  Submits-IsSubmission steps schedule job h (Call.claim a b) p = absurd p
  Submits-IsSubmission steps schedule job h (Call.extend a b d) p = absurd p
  Submits-IsSubmission steps schedule job h (Call.reclaim a) p = absurd p
  Submits-IsSubmission steps schedule job h Call.depth p = absurd p

  report-IsBy : (w : String) (n claimed : ℕ) → Makes (Runs (IsBy w)) (report w n claimed)
  unfolding report
  report-IsBy w zero claimed = tt
  report-IsBy w (suc n) claimed = (tt, λ r. report-IsBy w n 0)

  alongside-IsBy :
      {A : Type 0} (w : String) (ticks : List ℕ) (claimed : ℕ) (p : Program A)
      → Makes (Runs (IsBy w)) p
      → Makes (Runs (IsBy w)) (alongside w ticks claimed p)
  unfolding alongside
  alongside-IsBy w ticks claimed (done a) m = tt
  alongside-IsBy w [] claimed (calls c next) m =
      (m.0, λ r. alongside-IsBy w [] claimed (next r) (m.1 r))
  alongside-IsBy w (n ∷ ticks) claimed (calls c next) m =
      Makes->>= _ (report w n claimed) _ (report-IsBy w n claimed)
        (λ left. (m.0, λ r. alongside-IsBy w ticks left (next r) (m.1 r)))

  work-IsBy :
      (w : String) (turns : List Turn) (waited : ℤ) (claimed : ℕ)
      → Makes (Runs (IsBy w)) (work backend w turns waited claimed)
  unfolding work
  work-IsBy w [] waited claimed = tt
  work-IsBy w (t ∷ turns) waited claimed =
      Makes->>= _ (report w t.reports claimed) _ (report-IsBy w t.reports claimed) (λ left.
        Makes-if _ _ _ t.stopped tt (
          tt,
          by_response _
              (λ m. Makes-if _ _ _ t.stopped_after tt (
                Makes->>= _ (report w t.reports_waiting left) _
                  (report-IsBy w t.reports_waiting left)
                  (λ left'.
                    Makes-if _ _ _ t.slept (work-IsBy w turns (next_backoff waited) left') tt)))
              (λ id. Makes-if _ _ _ (id == "") (work-IsBy w turns (pos 0) left) (
                Makes->>= _
                  (alongside w t.reports_during (suc left) (process backend w id t.circumstances)) _
                  (alongside-IsBy w t.reports_during (suc left)
                    (process backend w id t.circumstances)
                    (Makes-of_Ensures _ _ _ (Permitted-IsBy w id) _ []
                      (process-Permitted backend w id t.circumstances)))
                  (λ left'. work-IsBy w turns (pos 0) left'))),
        ))

  leave-IsBy : (w : String) (end : WorkerEnd) → Makes (Runs (IsBy w)) (leave w end)
  unfolding leave
  leave-IsBy w ended = (tt, λ r. tt)
  leave-IsBy w running = tt
  leave-IsBy w (unregistered e) = tt

  run_reaper-IsReclaim : (ticks : ℕ) → Makes (Runs IsReclaim) (run_reaper backend ticks)
  unfolding run_reaper
  run_reaper-IsReclaim zero = tt
  run_reaper-IsReclaim (suc ticks) =
      Makes->>= _ (reap backend) _
        (Makes-of_Ensures _ _ _ Sweeps-IsReclaim (reap backend) [] (reap-Pushed backend))
        (λ u. run_reaper-IsReclaim ticks)

  run_worker-IsBy :
      (info : WorkerInfo) (turns : List Turn)
      → Makes (Runs (IsBy info.id)) (run_worker backend info turns)
  unfolding run_worker
  run_worker-IsBy info turns = (
    tt,
    by_response _ (λ e. tt)
        (λ u.
          Makes->>= _ (work backend info.id turns (pos 0) 0) _ (work-IsBy info.id turns (pos 0) 0)
            (λ end. leave-IsBy info.id end)),
  )

  submit-IsSubmission :
      (schedule : Schedule) (new_id : Result String String) (now : ℕ) (steps : List JobStep)
      → Makes (Runs (IsSubmission new_id)) (submit backend schedule new_id now steps)
  unfolding submit
  submit-IsSubmission schedule (ok id) now steps =
      Makes-of_Ensures _ _ _ (Submits-IsSubmission steps schedule (submitted_job id now steps))
        (submit backend schedule (ok id) now steps) []
        (submit-Reports backend schedule steps id now)
  submit-IsSubmission schedule (err e) now steps =
      Result-elim (Makes (Runs (IsSubmission (err e)))) (resolve_steps backend.resolve steps) _ _
        (λ m r. tt)
        (λ ready r.
          Result-elim (Makes (Runs (IsSubmission (err e))))
            (new_workflow schedule ready backend.options) _ _ (λ m v. tt) (λ w v. tt))

  -- Every statement that an actor runs is one of its own.
  pub program_of-IsOf : (actor : Actor) → Makes (Runs (IsOf actor)) (program_of backend actor)
  unfolding program_of
  program_of-IsOf (Actor.worker info turns) =
      Makes->>= _ (run_worker backend info turns) _ (run_worker-IsBy info turns) (λ e. tt)
  program_of-IsOf (Actor.reaper ticks) = run_reaper-IsReclaim ticks
  program_of-IsOf (Actor.submission schedule new_id now steps) =
      Makes->>= _ (submit backend schedule new_id now steps) _
        (submit-IsSubmission schedule new_id now steps) (λ r. tt)

pub All-middle :
    {A : Type 0} (P : A → Type 0) (before after : List A) (x y : A)
    → All P (before ++ x ∷ after)
    → P x × (P y → All P (before ++ y ∷ after))
All-middle P [] after x y h = (h.0, λ p. (p, h.1))
All-middle P (b ∷ before) after x y h =
    let (here, there) = All-middle P before after x y h.1 in (here, λ p. (h.0, there p))

-- What every call of the programs is, every call of a trace is.
pub Interleaves-Makes :
    (K : Call → Type 0) (ps : List (Program (Unit {0}))) (trace : List (ℕ × Call))
    → All (Makes K) ps
    → Interleaves ps trace
    → All (λ entry. K entry.1) trace
Interleaves-Makes K _ _ m (stops ps) = tt
Interleaves-Makes K _ _ m (takes before after now c next response trace i) =
    let (here, there) = All-middle (Makes K) before after (calls c next) (next response) m in
    (here.0, Interleaves-Makes K _ trace (there (here.1 response)) i)
Interleaves-Makes K _ _ m (fails before after c next response trace i) =
    let (here, there) = All-middle (Makes K) before after (calls c next) (next response) m in
    Interleaves-Makes K _ trace (there (here.1 response)) i
