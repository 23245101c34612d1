-- ===== src/Service/Cluster/Earned.antt =====
-- internal/jobs/jobs.go: a program announces that a job is completed only after it has recorded the
-- job's outcome.
use anchora.Prelude.{
  ℕ, zero, suc, String, Bool, true, false, not, ◌&&◌, ◌||◌, List, [], ◌∷◌, map, ◌≡◌, refl, sym, ap,
  ◌∙◌, inl, inr, ◌==◌, ==_iff, ok, err, arith, if◌then◌else◌, Result, Result-elim, Bool-cases,
}
use anchora.Prelude.Int.{ℤ, pos}
use anchora.Workflow.{Schedule}
use anchora.Workflow.Validate.{new_workflow}
use anchora.Store.Registry.{WorkerInfo}
use anchora.Store.Steps.{JobStep, Job}
use anchora.Service.Program.{Call, Response, Program, done, calls, ◌>>=◌, Entry, Ensures}
use anchora.Service.Program.Rules.{Makes, Makes->>=, by_response, Makes-of_Ensures, Makes-elim}
use anchora.Service.Backend.{
  Backend, event_completed, event_queued, event_reclaimed, next_backoff, resolve_steps, submit,
  submitted_job,
}
use anchora.Service.Attempt.{Circumstances}
use anchora.Service.Worker.{process}
use anchora.Service.Loops.{
  Turn, WorkerEnd, ended, running, unregistered, report, alongside, work, leave, run_worker, reap,
  run_reaper,
}
use anchora.Service.Discipline.{Permitted, saw, finished}
use anchora.Service.Discipline.Processing.{process-Permitted}
use anchora.Service.Recovery.{Sweeps, reap-Pushed}
use anchora.Service.Submission.{Submits, submit-Reports}
use anchora.Service.Cluster.{Actor, program_of}
pub mod Actors

-- The call announces that this job is completed.
abbrev pub completes : String → Call → Bool
completes id (Call.append_event k type payload) = k == id && type == event_completed
completes id c = false

-- The call recorded an outcome of this job, and has answered so.
abbrev pub recorded : String → (c : Call) → Response c → Bool
recorded id (Call.finish_job k owner status message) (ok true) = k == id
recorded id c response = false

-- The program announces nothing before it has recorded the outcome, or `earned` says that it has.
abbrev pub Earns : {A : Type 0} → String → Bool → Program A → Type 0
Earns id earned (done a) = Unit {0}
Earns id earned (calls c next) =
    (completes id c ≡ true → earned ≡ true)
    × ((response : Response c) → Earns id (earned || recorded id c response) (next response))

module _ (id : String) where
  pub Earns-weaken :
      {A : Type 0} (b b' : Bool) (p : Program A)
      → (b ≡ true → b' ≡ true)
      → Earns id b p
      → Earns id b' p
  Earns-weaken b b' (done a) le e = tt
  Earns-weaken b b' (calls c next) le e = (
    λ announced. le (e.0 announced),
    λ r. Earns-weaken (b || recorded id c r) (b' || recorded id c r) (next r) (wider r) (e.1 r),
  )
    where
      wider : (r : Response c) → (b || recorded id c r) ≡ true → (b' || recorded id c r) ≡ true
      wider r h = elim (Bool-cases b) [
        | inl held ↦ let more = le held in ground (arith, more)
        | inr fresh ↦ ground (arith, h, fresh)
      ]

  pub Earns->>= :
      {A B : Type 0} (b : Bool) (p : Program A) (f : A → Program B)
      → Earns id b p
      → ((a : A) → Earns id false (f a))
      → Earns id b (p >>= f)
  Earns->>= b (done a) f e k = Earns-weaken false b (f a) (λ h. absurd (cc)) (k a)
  Earns->>= b (calls c next) f e k =
      (e.0, λ r. Earns->>= (b || recorded id c r) (next r) f (e.1 r) k)

  pub Earns-if :
      {A : Type 0} (b : Bool) (p q : Program A) (test : Bool)
      → Earns id b p
      → Earns id b q
      → Earns id b (if test then p else q)
  Earns-if b p q true e k = e
  Earns-if b p q false e k = k

  -- A program that announces nothing.
  pub Earns-of_Makes :
      {A : Type 0} (b : Bool) (p : Program A) → Makes (λ c. completes id c ≡ false) p → Earns id b p
  Earns-of_Makes b (done a) m = tt
  Earns-of_Makes b (calls c next) m =
      ((λ announced. absurd (cc)), λ r. Earns-of_Makes (b || recorded id c r) (next r) (m.1 r))

module _ (backend : Backend) (worker job : String) where
  -- A delivery's program announces only its own job, once it has recorded the outcome.
  Permitted-completes :
      (id : String) (h : List Entry) (c : Call)
      → Permitted backend worker job h c
      → completes id c ≡ true
      → (saw finished h ≡ true) × (job ≡ id)
  Permitted-completes id h (Call.create a) p announced = absurd (cc)
  Permitted-completes id h (Call.get a) p announced = absurd (cc)
  Permitted-completes id h (Call.claim_job a b d) p announced = absurd (cc)
  Permitted-completes id h (Call.extend_lease a b d) p announced = absurd (cc)
  Permitted-completes id h (Call.finish_job a b d f) p announced = absurd (cc)
  Permitted-completes id h (Call.release_job a b) p announced = absurd (cc)
  Permitted-completes id h (Call.reclaim_expired_jobs a b) p announced = absurd (cc)
  Permitted-completes id h (Call.claim_step a b d) p announced = absurd (cc)
  Permitted-completes id h (Call.update_step a b d) p announced = absurd (cc)
  Permitted-completes id h (Call.append_event k type payload) p announced =
      (ground (arith, p.1, announced), sym p.0 ∙ (==_iff k id).0 (ground (arith, announced)))
  Permitted-completes id h (Call.events a b) p announced = absurd (cc)
  Permitted-completes id h (Call.register_worker a) p announced = absurd (cc)
  Permitted-completes id h (Call.heartbeat_worker a b) p announced = absurd (cc)
  Permitted-completes id h (Call.unregister_worker a) p announced = absurd (cc)
  Permitted-completes id h (Call.prune_workers a) p announced = absurd (cc)
  Permitted-completes id h (Call.workers a) p announced = absurd (cc)
  Permitted-completes id h (Call.push a) p announced = absurd (cc)
  Permitted-completes id h (Call.ack a) p announced = absurd (cc)
  Permitted-completes id h (Call.requeue a) p announced = absurd (cc)
  Permitted-completes id h (Call.claim a b) p announced = absurd (cc)
  Permitted-completes id h (Call.extend a b d) p announced = absurd (cc)
  Permitted-completes id h (Call.reclaim a) p announced = absurd (cc)
  Permitted-completes id h Call.depth p announced = absurd (cc)

  finished-recorded :
      (id : String) (h : List Entry) (c : Call) (r : Response c)
      → Permitted backend worker job h c
      → finished c r ≡ true
      → job ≡ id
      → recorded id c r ≡ true
  finished-recorded id h (Call.create a) r p f same = absurd (cc)
  finished-recorded id h (Call.get a) r p f same = absurd (cc)
  finished-recorded id h (Call.claim_job a b d) r p f same = absurd (cc)
  finished-recorded id h (Call.extend_lease a b d) r p f same = absurd (cc)
  finished-recorded id h (Call.finish_job k owner status message) (err e) p f same = absurd (cc)
  finished-recorded id h (Call.finish_job k owner status message) (ok false) p f same = absurd (cc)
  finished-recorded id h (Call.finish_job k owner status message) (ok true) p f same =
      (==_iff k id).1 (p.0 ∙ same)
  finished-recorded id h (Call.release_job a b) r p f same = absurd (cc)
  finished-recorded id h (Call.reclaim_expired_jobs a b) r p f same = absurd (cc)
  finished-recorded id h (Call.claim_step a b d) r p f same = absurd (cc)
  finished-recorded id h (Call.update_step a b d) r p f same = absurd (cc)
  finished-recorded id h (Call.append_event a b d) r p f same = absurd (cc)
  finished-recorded id h (Call.events a b) r p f same = absurd (cc)
  finished-recorded id h (Call.register_worker a) r p f same = absurd (cc)
  finished-recorded id h (Call.heartbeat_worker a b) r p f same = absurd (cc)
  finished-recorded id h (Call.unregister_worker a) r p f same = absurd (cc)
  finished-recorded id h (Call.prune_workers a) r p f same = absurd (cc)
  finished-recorded id h (Call.workers a) r p f same = absurd (cc)
  finished-recorded id h (Call.push a) r p f same = absurd (cc)
  finished-recorded id h (Call.ack a) r p f same = absurd (cc)
  finished-recorded id h (Call.requeue a) r p f same = absurd (cc)
  finished-recorded id h (Call.claim a b) r p f same = absurd (cc)
  finished-recorded id h (Call.extend a b d) r p f same = absurd (cc)
  finished-recorded id h (Call.reclaim a) r p f same = absurd (cc)
  finished-recorded id h Call.depth r p f same = absurd (cc)

  pub Earns-of_Ensures :
      {A : Type 0} (Q : List Entry → A → Type 0) (id : String) (b : Bool) (h : List Entry)
      (p : Program A)
      → (saw finished h ≡ true → job ≡ id → b ≡ true)
      → Ensures (Permitted backend worker job) Q h p
      → Earns id b p
  Earns-of_Ensures Q id b h (done a) known e = tt
  Earns-of_Ensures Q id b h (calls c next) known e = (
    λ announced. let (seen, same) = Permitted-completes id h c e.0 announced in known seen same,
    λ r.
        Earns-of_Ensures Q id (b || recorded id c r) (record { made = c; response = r } ∷ h)
          (next r) (later r) (e.1 r),
  )
    where
      later :
          (r : Response c)
          → (finished c r || saw finished h) ≡ true
          → job ≡ id
          → (b || recorded id c r) ≡ true
      later r seen same = elim (Bool-cases (finished c r)) [
        | inl now ↦ let mine = finished-recorded id h c r e.0 now same in ground (arith, mine)
        | inr before ↦ let held = known (ground (arith, seen, before)) same in ground (arith, held)
      ]
