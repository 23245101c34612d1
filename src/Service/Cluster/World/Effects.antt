-- ===== src/Service/Cluster/World/Effects.antt =====
-- internal/jobs/store.go: what one call does to the table of jobs.
use anchora.Prelude.{
  ℕ, String, ◌≡◌, refl, Bool, true, false, not, ◌&&◌, ◌==◌, ◌⊎◌, inl, inr, some, Option-cases, List,
  Result, Result-elim, arith,
}
use anchora.Prelude.Int.{pos_part}
use anchora.Redis.{Redis}
use anchora.Queue.{Fault}
use anchora.Store.{JobRow, Operation, exec, insert_job}
use anchora.Store.Settled.{is_regular_operation, is_handing}
use anchora.Store.Ownership.{finishes_unowned}
use anchora.Store.Steps.{microseconds, Tables, Job, create, insert_steps, claim_step, update_step}
use anchora.Service.Program.{Call, Payload}
use anchora.Service.Cluster.World.{Occasion, World, handle, query, try_query}
use anchora.Service.Cluster.Custody.{is_regular}

abbrev pub is_handing_call : Call → Bool
is_handing_call (Call.release_job id owner) = true
is_handing_call (Call.reclaim_expired_jobs grace limit) = true
is_handing_call c = false

-- The call does not finish this job without the name of a worker.
abbrev pub is_named : String → Call → Bool
is_named k (Call.finish_job id owner status message) = not (k == id && owner == "")
is_named k c = true

-- A statement leaves its table as it is, or it runs.
pub by_query :
    {S A : Type 0} (P : S → Type 0) (fault : Fault) (statement : S → S × A) (s : S)
    → P s
    → P (statement s).0
    → P (query fault statement s).0
by_query P Fault.delivered statement s before after = after
by_query P (Fault.refused e) statement s before after = before
by_query P (Fault.lost e) statement s before after = after

create-jobs :
    (job : Job) (t t' : Tables)
    → create job t ≡ some t'
    → t'.jobs ≡ exec (Operation.creates job.id job.status) (microseconds job.created_at) t.jobs
unfolding create exec
create-jobs job t t' e =
    elim (Option-cases (insert_job job.id job.status (microseconds job.created_at) t.jobs)) [
      | inl refused ↦ absurd (ground (arith, e, refused))
      | inr (jobs, made) ↦
          elim (Option-cases (insert_steps job.id 0 job.steps job.results t.steps)) [
            | inl refused ↦ absurd (ground (arith, e, made, refused))
            | inr (steps, filled) ↦ rw (made, exec) (ground (arith, e, made, filled))
          ]
    ]

-- The call runs at most one statement on the table of jobs.
abbrev pub Alters : Call → List JobRow → List JobRow → Type 0
Alters c jobs jobs' =
    (jobs' ≡ jobs)
    ⊎ ((op : Operation) × (now : ℕ) × (jobs' ≡ exec op now jobs)
        × (is_regular c ≡ true → is_regular_operation op ≡ true)
        × (is_handing op ≡ is_handing_call c)
        × ((k : String) → is_named k c ≡ true → finishes_unowned k op ≡ false))

module _ (redis : Redis) (name : String) (encode : Payload → Result String String) where
  abbrev jobs_of : World redis name encode → List JobRow
  jobs_of w = w.tables.jobs

  pub handle-Alters :
      (o : Occasion) (c : Call) (w : World redis name encode)
      → Alters c (jobs_of w) (jobs_of (handle redis name encode o c w).0)
  unfolding handle exec claim_step update_step
  handle-Alters o (Call.create job) w = elim (Option-cases (create job w.tables)) [
    | inl e ↦ rw (e, try_query) (inl refl)
    | inr (t, e) ↦
        rw (e, try_query)
          (by_query (λ (t' : Tables). Alters (Call.create job) (jobs_of w) t'.jobs) o.fault _
            w.tables (inl refl)
            (inr (
              Operation.creates job.id job.status,
              microseconds job.created_at,
              create-jobs job w.tables t e,
              (λ r. r),
              refl,
              (λ k n. refl),
            )))
  ]
  handle-Alters o (Call.append_event id type payload) w =
      Result-elim
        (λ (p : World redis name encode × Result String (Unit {0})).
          Alters (Call.append_event id type payload) (jobs_of w) (jobs_of p.0))
        (encode payload) _ _ (λ e p. inl refl) (λ text p. inl refl)
  handle-Alters o (Call.claim_job id owner lease) w =
      by_query (Alters (Call.claim_job id owner lease) (jobs_of w)) o.fault _ (jobs_of w) (inl refl)
        (inr
          (Operation.claims id owner (pos_part lease), o.now, refl, (λ r. r), refl, (λ k n. refl)))
  handle-Alters o (Call.extend_lease id owner lease) w =
      by_query (Alters (Call.extend_lease id owner lease) (jobs_of w)) o.fault _ (jobs_of w)
        (inl refl)
        (inr
          (Operation.extends id owner (pos_part lease), o.now, refl, (λ r. r), refl, (λ k n. refl)))
  handle-Alters o (Call.finish_job id owner status message) w =
      by_query (Alters (Call.finish_job id owner status message) (jobs_of w)) o.fault _ (jobs_of w)
        (inl refl)
        (inr (
          Operation.finishes id owner status message,
          o.now,
          refl,
          (λ r. r),
          refl,
          (λ k n. ground (arith, n)),
        ))
  handle-Alters o (Call.release_job id owner) w =
      by_query (Alters (Call.release_job id owner) (jobs_of w)) o.fault _ (jobs_of w) (inl refl)
        (inr (Operation.releases id owner, o.now, refl, (λ r. r), refl, (λ k n. refl)))
  handle-Alters o (Call.reclaim_expired_jobs grace limit) w =
      by_query (Alters (Call.reclaim_expired_jobs grace limit) (jobs_of w)) o.fault _ (jobs_of w)
        (inl refl)
        (inr (
          Operation.reclaims o.select (pos_part grace) limit,
          o.now,
          refl,
          (λ r. r),
          refl,
          (λ k n. refl),
        ))
  handle-Alters o (Call.get id) w =
      by_query (λ (t : Tables). Alters (Call.get id) (jobs_of w) t.jobs) o.fault _ w.tables
        (inl refl) (inl refl)
  handle-Alters o (Call.claim_step job_id step_id owner) w =
      by_query (λ (t : Tables). Alters (Call.claim_step job_id step_id owner) (jobs_of w) t.jobs)
        o.fault _ w.tables (inl refl) (inl refl)
  handle-Alters o (Call.update_step job_id owner result) w =
      by_query (λ (t : Tables). Alters (Call.update_step job_id owner result) (jobs_of w) t.jobs)
        o.fault _ w.tables (inl refl) (inl refl)
  handle-Alters o (Call.events id last_seen) w = inl refl
  handle-Alters o (Call.register_worker info) w = inl refl
  handle-Alters o (Call.heartbeat_worker id claimed) w = inl refl
  handle-Alters o (Call.unregister_worker id) w = inl refl
  handle-Alters o (Call.prune_workers ttl) w = inl refl
  handle-Alters o (Call.workers ttl) w = inl refl
  handle-Alters o (Call.push id) w = inl refl
  handle-Alters o (Call.ack id) w = inl refl
  handle-Alters o (Call.requeue id) w = inl refl
  handle-Alters o (Call.claim owner lease) w = inl refl
  handle-Alters o (Call.extend id owner lease) w = inl refl
  handle-Alters o (Call.reclaim limit) w = inl refl
  handle-Alters o Call.depth w = inl refl

  -- The queue and the tables of jobs and steps are as before.
  abbrev pub IsSame : World redis name encode → World redis name encode → Type 0
  IsSame w w' = (w'.db ≡ w.db) × (w'.tables ≡ w.tables)

  pub append_event-IsSame :
      (o : Occasion) (id type : String) (payload : Payload) (w : World redis name encode)
      → IsSame w (handle redis name encode o (Call.append_event id type payload) w).0
  unfolding handle
  append_event-IsSame o id type payload w =
      Result-elim (λ (p : World redis name encode × Result String (Unit {0})). IsSame w p.0)
        (encode payload) _ _ (λ e p. (refl, refl)) (λ text p. (refl, refl))
