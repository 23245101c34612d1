-- ===== src/Service/Cluster/Custody/Programs.antt =====
-- internal/jobs/jobs.go: every program of a node gives on each job that it takes.
use anchora.Prelude.{
  ℕ, zero, suc, String, true, false, List, [], ◌∷◌, ◌≡◌, refl, inl, inr, contains, ◌==◌, ==_iff, ap,
  ◌∙◌, arith, Result, ok, err, if◌then◌else◌, Bool-cases,
}
use anchora.Prelude.Int.{ℤ, pos}
use anchora.Workflow.{Message, Schedule}
use anchora.Workflow.Validate.{new_workflow}
use anchora.Store.Registry.{WorkerInfo}
use anchora.Store.Steps.{JobStep, Job}
use anchora.Service.Program.{Call, Program, done, calls, ◌>>=◌, perform}
use anchora.Service.Program.Rules.{Makes-elim, by_response}
use anchora.Service.Backend.{
  Backend, next_backoff, resolve_steps, submit, submitted_job, dispatch, new_id as draw_id,
}
use anchora.Service.Worker.{process}
use anchora.Service.Loops.{
  Turn, WorkerEnd, ended, running, unregistered, report, alongside, work, leave, run_worker,
  announce_all, push_orphans, sweep_queue, sweep_store, reap, run_reaper,
}
use anchora.Service.Cluster.{Actor, program_of}
use anchora.Service.Cluster.Custody.{Holds, Hands, Holds->>=, Hands->>=, Hands-if, Hands-of_Makes}
use anchora.Service.Cluster.Custody.Idle.{Idle}
use anchora.Service.Cluster.Custody.Deliveries.{process-Hands, process-Holds}

module _ (backend : Backend) (job : String) where
  report-Idle : (w : String) (n claimed : ℕ) → Idle (report w n claimed)
  unfolding report
  report-Idle w zero claimed = tt
  report-Idle w (suc n) claimed = (refl, λ r. report-Idle w n 0)

  report-Holds :
      {A : Type 0} (w : String) (n claimed : ℕ) (f : ℕ → Program A)
      → ((left : ℕ) → Holds job (f left))
      → Holds job (report w n claimed >>= f)
  unfolding report
  report-Holds w zero claimed f h = h claimed
  report-Holds w (suc n) claimed f h = inr (λ r. report-Holds w n 0 f h)

  alongside-Holds :
      {A : Type 0} (w : String) (ticks : List ℕ) (claimed : ℕ) (p : Program A)
      → Holds job p
      → Holds job (alongside w ticks claimed p)
  unfolding alongside
  alongside-Holds w ticks claimed (done a) h = absurd h
  alongside-Holds w [] claimed (calls c next) (inl given) = inl given
  alongside-Holds w [] claimed (calls c next) (inr later) =
      inr (λ r. alongside-Holds w [] claimed (next r) (later r))
  alongside-Holds w (n ∷ ticks) claimed (calls c next) (inl given) =
      report-Holds w n claimed _ (λ left. inl given)
  alongside-Holds w (n ∷ ticks) claimed (calls c next) (inr later) =
      report-Holds w n claimed _
        (λ left. inr (λ r. alongside-Holds w ticks left (next r) (later r)))

  alongside-Hands :
      {A : Type 0} (w : String) (ticks : List ℕ) (claimed : ℕ) (p : Program A)
      → Hands job p
      → Hands job (alongside w ticks claimed p)
  unfolding alongside
  alongside-Hands w ticks claimed (done a) h = tt
  alongside-Hands w [] claimed (calls c next) h = (
    h.0,
    λ r. (
      λ taken. alongside-Holds w [] claimed (next r) ((h.1 r).0 taken),
      alongside-Hands w [] claimed (next r) (h.1 r).1,
    ),
  )
  alongside-Hands w (n ∷ ticks) claimed (calls c next) h =
      Hands->>= job (report w n claimed) _ (Hands-of_Makes job _ (report-Idle w n claimed)) (λ left.
        (
          h.0,
          λ r. (
            λ taken. alongside-Holds w ticks left (next r) ((h.1 r).0 taken),
            alongside-Hands w ticks left (next r) (h.1 r).1,
          ),
        ))

  work-Hands :
      (w : String) (turns : List Turn) (waited : ℤ) (claimed : ℕ)
      → (job == "") ≡ false
      → Hands job (work backend w turns waited claimed)
  unfolding work
  work-Hands w [] waited claimed named = tt
  work-Hands w (t ∷ turns) waited claimed named =
      Hands->>= job (report w t.reports claimed) _
        (Hands-of_Makes job _ (report-Idle w t.reports claimed))
        (λ left. Hands-if job _ _ t.stopped tt (
          refl,
          by_response _
              (λ e. (
                λ taken. absurd (cc),
                Hands-if job _ _ t.stopped_after tt (
                    Hands->>= job (report w t.reports_waiting left) _
                      (Hands-of_Makes job _ (report-Idle w t.reports_waiting left))
                      (λ left'.
                        Hands-if job _ _ t.slept
                          (work-Hands w turns (next_backoff waited) left' named) tt)),
              ))
              (λ id. (
                λ taken. delivered id left taken,
                Hands-if job _ _ (id == "") (work-Hands w turns (pos 0) left named) (
                    Hands->>= job
                      (alongside w t.reports_during (suc left)
                        (process backend w id t.circumstances))
                      _
                      (alongside-Hands w t.reports_during (suc left)
                        (process backend w id t.circumstances)
                        (process-Hands backend job w id t.circumstances))
                      (λ left'. work-Hands w turns (pos 0) left' named)),
              )),
        ))
    where
      delivered :
          (id : String) (left : ℕ)
          → (id == job) ≡ true
          → Holds job (
              if id == ""
              then work backend w turns (pos 0) left
              else (alongside w t.reports_during (suc left) (process backend w id t.circumstances)
                  >>= work backend w turns (pos 0)))
      delivered id left taken =
          let other : (id == "") ≡ false = ap (λ k. k == "") ((==_iff id job).0 taken) ∙ named in
          rw other (
            Holds->>= job
              (alongside w t.reports_during (suc left) (process backend w id t.circumstances)) _
              (alongside-Holds w t.reports_during (suc left) (process backend w id t.circumstances)
                (process-Holds backend job w id t.circumstances taken)))

  leave-Hands : (w : String) (end : WorkerEnd) → Hands job (leave w end)
  unfolding leave
  leave-Hands w ended = (refl, λ r. (λ taken. absurd (cc), tt))
  leave-Hands w running = tt
  leave-Hands w (unregistered e) = tt

  run_worker-Hands :
      (info : WorkerInfo) (turns : List Turn)
      → (job == "") ≡ false
      → Hands job (run_worker backend info turns)
  unfolding run_worker
  run_worker-Hands info turns named = (
    refl,
    by_response _ (λ e. (λ taken. absurd (cc), tt))
        (λ u. (
          λ taken. absurd (cc),
          Hands->>= job (work backend info.id turns (pos 0) 0) _
              (work-Hands info.id turns (pos 0) 0 named) (λ end. leave-Hands info.id end),
        )),
  )

  announce_all-Idle : (reason : String) (ids : List String) → Idle (announce_all reason ids)
  unfolding announce_all
  announce_all-Idle reason [] = tt
  announce_all-Idle reason (id ∷ ids) = (refl, λ r. announce_all-Idle reason ids)

  sweep_queue-Idle : Idle (sweep_queue backend)
  unfolding sweep_queue
  sweep_queue-Idle =
      (refl, by_response _ (λ e. tt) (λ ids. announce_all-Idle "queue lease expired" ids))

  push_orphans-Idle : (ids : List String) → Idle (push_orphans ids)
  unfolding push_orphans
  push_orphans-Idle [] = tt
  push_orphans-Idle (id ∷ ids) =
      (refl, by_response _ (λ e. push_orphans-Idle ids) (λ u. (refl, λ r. push_orphans-Idle ids)))

  -- A job that the store gave up is pushed, whatever becomes of those before it.
  push_orphans-Holds : (ids : List String) → contains job ids ≡ true → Holds job (push_orphans ids)
  unfolding push_orphans
  push_orphans-Holds [] found = absurd (cc)
  push_orphans-Holds (id ∷ ids) found = elim (Bool-cases (id == job)) [
    | inl same ↦ inl same
    | inr other ↦
        let later = push_orphans-Holds ids (ground (arith, found, other)) in
        inr (by_response _ (λ e. later) (λ u. inr (λ r. later)))
  ]

  sweep_store-Hands : Hands job (sweep_store backend)
  unfolding sweep_store
  sweep_store-Hands = (
    refl,
    by_response _ (λ e. (λ taken. absurd (cc), tt))
        (λ ids. (
          λ taken. Holds->>= job (push_orphans ids) _ (push_orphans-Holds ids taken),
          Hands->>= job (push_orphans ids) _ (Hands-of_Makes job _ (push_orphans-Idle ids))
              (λ u. (refl, λ r. (λ taken. absurd (cc), tt))),
        )),
  )

  run_reaper-Hands : (ticks : ℕ) → Hands job (run_reaper backend ticks)
  unfolding run_reaper reap
  run_reaper-Hands zero = tt
  run_reaper-Hands (suc ticks) =
      Hands->>= job (reap backend) _
        (Hands->>= job (sweep_queue backend) _
          (Hands-of_Makes job (sweep_queue backend) sweep_queue-Idle) (λ u. sweep_store-Hands))
        (λ u. run_reaper-Hands ticks)

  dispatch-Idle : (j : Job) → Idle (dispatch j)
  unfolding dispatch
  dispatch-Idle j =
      (refl, by_response _ (λ e. tt) (λ u. (refl, by_response _ (λ e. (refl, λ r. tt)) (λ u'. tt))))

  submit-Idle :
      (schedule : Schedule) (new_id : Result String String) (now : ℕ) (steps : List JobStep)
      → Idle (submit backend schedule new_id now steps)
  unfolding submit
  submit-Idle schedule new_id now steps =
      Makes-elim _ (resolve_steps backend.resolve steps) _ _ (λ e. tt)
        (λ ready.
          Makes-elim _ (new_workflow schedule ready backend.options) _ _ (λ e. tt)
            (λ w. created new_id))
    where
      created :
          (random : Result String String)
          → Idle (elim (draw_id random) [
            | err e ↦ done (err (Message.error_text e))
            | ok id ↦ do
              made ← perform (Call.create (submitted_job id now steps))
              elim made [
                | err e ↦ done (err (Message.error_text e))
                | ok _ ↦ dispatch (submitted_job id now steps)
              ]
          ])
      created (err e) = tt
      created (ok id) =
          (refl, by_response _ (λ e. tt) (λ u. dispatch-Idle (submitted_job id now steps)))

  -- Every actor gives on each job with an ID that it takes.
  pub program_of-Hands :
      (actor : Actor) → (job == "") ≡ false → Hands job (program_of backend actor)
  unfolding program_of
  program_of-Hands (Actor.worker info turns) named =
      Hands->>= job (run_worker backend info turns) _ (run_worker-Hands info turns named) (λ e. tt)
  program_of-Hands (Actor.reaper ticks) named = run_reaper-Hands ticks
  program_of-Hands (Actor.submission schedule new_id now steps) named =
      Hands->>= job (submit backend schedule new_id now steps) _
        (Hands-of_Makes job _ (submit-Idle schedule new_id now steps)) (λ r. tt)
