-- ===== src/Service/Cluster/Dispatched.antt =====
-- internal/jobs/jobs.go, Submit: the event and the push of a new job.
use anchora.Prelude.{
  ℕ, suc, String, ◌≡◌, refl, sym, ap, ◌∙◌, subst, true, inl, inr, Option, some, Option-cases,
  contains, Result, ok, err, ok_inj,
}
use anchora.Workflow.{Message, Status}
use anchora.Redis.{Redis}
use anchora.Queue.{Fault, push, ready}
use anchora.Queue.Ready.{push-puts}
use anchora.Store.Steps.{Job, create}
use anchora.Service.Program.{Call, Payload, Response, Program, done, ◌>>=◌, ◌>>◌, perform}
use anchora.Service.Backend.{event_queued, dispatch}
use anchora.Service.Cluster.World.{Occasion, World, handle, alone, query, try_query}
use anchora.Service.Cluster.World.Effects.{append_event-IsSame}

-- A statement that answers has run.
query-ok :
    {S : Type 0} (fault : Fault) (s s' : S)
    → (query fault (λ t. (s', tt {0})) s).1 ≡ ok tt
    → (query fault (λ t. (s', tt {0})) s).0 ≡ s'
query-ok Fault.delivered s s' answered = refl
query-ok (Fault.refused e) s s' answered = absurd (cc)
query-ok (Fault.lost e) s s' answered = absurd (cc)

try_query-ok :
    {S : Type 0} (fault : Fault) (f : S → Option S) (s : S)
    → (try_query fault f s).1 ≡ ok tt
    → f s ≡ some (try_query fault f s).0
try_query-ok fault f s answered = elim (Option-cases (f s)) [
  | inl e ↦ absurd (refused (rw (e, try_query) at answered))
  | inr (s', e) ↦
      rw (e, try_query) (ap some (sym (query-ok fault s s' (rw (e, try_query) at answered))))
]
  where
    refused : {A : Type 0} {a : A} {m : String} → ◌≡◌ {A = Result String A} (err m) (ok a) → ⊥
    refused e = cc

module _ (redis : Redis) (name : String) (encode : Payload → Result String String) where
  push-ok :
      (fault : Fault) (id : String) (db : redis.Db)
      → (push redis name fault id db).1 ≡ ok tt
      → contains id (ready redis name (push redis name fault id db).0) ≡ true
  unfolding push
  push-ok Fault.delivered id db answered = push-puts redis name Fault.delivered id db refl
  push-ok (Fault.refused e) id db answered = absurd (cc)
  push-ok (Fault.lost e) id db answered = absurd (cc)

  pub create-ok :
      (o : Occasion) (job : Job) (w : World redis name encode)
      → (handle redis name encode o (Call.create job) w).1 ≡ ok tt
      → create job w.tables ≡ some (handle redis name encode o (Call.create job) w).0.tables
  unfolding handle
  create-ok o job w answered = try_query-ok o.fault (create job) w.tables answered

  module _ (job job' : Job) where
    abbrev after_push : Response (Call.push job.id) → Program (Result Message Job)
    after_push pushed = elim pushed [
      | err e ↦ do
        perform (Call.finish_job job.id "" Status.failed (Message.enqueue_failed e))
        done (err (Message.enqueue_job e))
      | ok _ ↦ done (ok job)
    ]

    after_push-ok :
        (at : ℕ → Occasion) (w : World redis name encode) (pushed : Response (Call.push job.id))
        → (alone redis name encode at (after_push pushed) w).1 ≡ ok job'
        → (job ≡ job')
          × ((alone redis name encode at (after_push pushed) w).0 ≡ w)
          × (pushed ≡ ok tt)
    after_push-ok at w (err e) answered = absurd (cc)
    after_push-ok at w (ok u) answered = (ok_inj answered, refl, refl)

    -- The job that the program returns is this one, it is ready, and the tables are as before.
    abbrev Dispatches :
        (ℕ → Occasion) → Program (Result Message Job) → World redis name encode → Type 0
    Dispatches at p w =
        (alone redis name encode at p w).1 ≡ ok job'
        → (job ≡ job')
          × ((alone redis name encode at p w).0.tables ≡ w.tables)
          × (contains job.id (ready redis name (alone redis name encode at p w).0.db) ≡ true)

    push-Dispatches :
        (at : ℕ → Occasion) (w : World redis name encode)
        → Dispatches at (perform (Call.push job.id) >>= after_push) w
    unfolding handle
    push-Dispatches at w answered =
        let w1 : World redis name encode =
          (handle redis name encode (at 0) (Call.push job.id) w).0 in
        let (same, kept, ran) =
          after_push-ok (λ n. at (suc n)) w1
            (handle redis name encode (at 0) (Call.push job.id) w).1 answered in
        (
          same,
          ap (λ (w' : World redis name encode). w'.tables) kept,
          subst (λ (w' : World redis name encode). contains job.id (ready redis name w'.db) ≡ true)
              (sym kept) (push-ok (at 0).fault job.id w.db ran),
        )

    queued-Dispatches :
        (at : ℕ → Occasion) (w : World redis name encode)
        (queued : Response (Call.append_event job.id event_queued (Payload.of_job job)))
        → Dispatches at
            (elim queued [
              | err e ↦ done (err (Message.error_text e))
              | ok _ ↦ (perform (Call.push job.id) >>= after_push)
            ])
            w
    queued-Dispatches at w (err e) answered = absurd (cc)
    queued-Dispatches at w (ok u) answered = push-Dispatches at w answered

    pub dispatch-Dispatches :
        (at : ℕ → Occasion) (w : World redis name encode) → Dispatches at (dispatch job) w
    unfolding dispatch
    dispatch-Dispatches at w answered =
        let w1 : World redis name encode =
          (handle redis name encode (at 0)
            (Call.append_event job.id event_queued (Payload.of_job job)) w).0 in
        let (same, kept, queued) =
          queued-Dispatches (λ n. at (suc n)) w1
            (handle redis name encode (at 0)
              (Call.append_event job.id event_queued (Payload.of_job job)) w).1
            answered in
        (
          same,
          kept
              ∙ (append_event-IsSame redis name encode (at 0) job.id event_queued
                  (Payload.of_job job) w).1,
          queued,
        )
