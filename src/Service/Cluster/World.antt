-- ===== src/Service/Cluster/World.antt =====
-- internal/jobs/store.go, internal/jobs/queue.go: what the calls of a program do to the database and
-- to the Redis server, and what they return, when programs run at the same time.
pub mod Effects
mod Samples
mod Submission
use anchora.Prelude.{
  ℕ, suc, String, Bool, true, false, Option, none, some, List, [], ◌∷◌, ◌++◌, Result, ok, err, keys,
  length,
}
use anchora.Prelude.Int.{pos_part}
use anchora.Redis.{Redis}
use anchora.Queue.{Fault, push, claim, extend, ack, requeue, reclaim}
use anchora.Store.{
  JobRow, Selection, claim_job, extend_lease, finish_job, release_job, reclaim_expired_jobs,
}
use anchora.Store.Steps.{Tables, Job, create, get, claim_step, update_step}
use anchora.Store.Registry.{
  Log, WorkerInfo, append_event, events, register_worker, heartbeat_worker, unregister_worker,
  prune_workers, workers,
}
use anchora.Service.Program.{Call, Payload, Answer, Response, Program, done, calls}

-- The circumstances of one call: the time of the database in microseconds, the clock of the node in
-- nanoseconds, what becomes of the call and of the wait of a claim, and the rows that a LIMIT takes.
-- Depth returns what LLEN and ZCARD do.
pub record Occasion : Type 0 where
  pub now : ℕ
  pub clock : ℕ
  pub fault : Fault
  pub wait : Fault
  pub select : Selection
  pub depth : Result String (ℕ × ℕ)

-- One statement: a call that is refused has no effect, and one whose answer is lost has.
abbrev pub query : {S A : Type 0} → Fault → (S → S × A) → S → S × Result String A
query Fault.delivered statement s = let (s', answer) = statement s in (s', ok answer)
query (Fault.refused e) statement s = (s, err e)
query (Fault.lost e) statement s = ((statement s).0, err e)

-- A statement that the tables may refuse.
abbrev pub try_query : {S : Type 0} → Fault → (S → Option S) → S → S × Result String (Unit {0})
try_query fault statement s = elim (statement s) [
  | none ↦ (s, err "")
  | some s' ↦ query fault (λ t. (s', tt)) s
]

module _ (redis : Redis) (name : String) (encode : Payload → Result String String) where
  open redis use {Db}

  -- The state that all nodes share.
  pub record World : Type 0 where
    pub db : Db
    pub tables : Tables
    pub log : Log
    pub registry : List WorkerInfo

  abbrev with_db : {A : Type 0} → World → Db × A → World × A
  with_db w (db, a) = (record w { db = db }, a)

  abbrev with_jobs : {A : Type 0} → World → List JobRow × A → World × A
  with_jobs w (jobs, a) = (record w { tables = record w.tables { jobs = jobs } }, a)

  abbrev with_tables : {A : Type 0} → World → Tables × A → World × A
  with_tables w (tables, a) = (record w { tables = tables }, a)

  abbrev with_log : {A : Type 0} → World → Log × A → World × A
  with_log w (log, a) = (record w { log = log }, a)

  abbrev with_registry : {A : Type 0} → World → List WorkerInfo × A → World × A
  with_registry w (registry, a) = (record w { registry = registry }, a)

  abbrev job_ids : World → List String
  job_ids w = keys (λ (row : JobRow). row.id) w.tables.jobs

  unfoldable pub handle : Occasion → (c : Call) → World → World × Response c
  handle o (Call.create job) w = with_tables w (try_query o.fault (create job) w.tables)
  handle o (Call.get id) w = with_tables w (query o.fault (λ t. (t, get id t)) w.tables)
  handle o (Call.claim_job id owner lease) w =
      with_jobs w (query o.fault (claim_job id owner (pos_part lease) o.now) w.tables.jobs)
  handle o (Call.extend_lease id owner lease) w =
      with_jobs w (query o.fault (extend_lease id owner (pos_part lease) o.now) w.tables.jobs)
  handle o (Call.finish_job id owner status message) w =
      with_jobs w (query o.fault (finish_job id owner status message o.now) w.tables.jobs)
  handle o (Call.release_job id owner) w =
      with_jobs w (query o.fault (λ rows. (release_job id owner o.now rows, tt)) w.tables.jobs)
  handle o (Call.reclaim_expired_jobs grace limit) w =
      with_jobs w
        (query o.fault (reclaim_expired_jobs o.select (pos_part grace) limit o.now) w.tables.jobs)
  handle o (Call.claim_step job_id step_id owner) w =
      with_tables w (query o.fault (claim_step job_id step_id owner o.now) w.tables)
  handle o (Call.update_step job_id owner result) w =
      with_tables w (query o.fault (λ t. (update_step job_id owner result o.now t, tt)) w.tables)
  handle o (Call.append_event id type payload) w = elim (encode payload) [
    | err e ↦ (w, err e)
    | ok text ↦ with_log w (try_query o.fault (append_event (job_ids w) id type text o.now) w.log)
  ]
  handle o (Call.events id last_seen) w =
      with_log w (query o.fault (λ log. (log, events id last_seen log)) w.log)
  handle o (Call.register_worker info) w =
      with_registry w (query o.fault (λ rows. (register_worker info o.now rows, tt)) w.registry)
  handle o (Call.heartbeat_worker id claimed) w =
      with_registry w
        (query o.fault (λ rows. (heartbeat_worker id claimed o.now rows, tt)) w.registry)
  handle o (Call.unregister_worker id) w =
      with_registry w (query o.fault (λ rows. (unregister_worker id rows, tt)) w.registry)
  handle o (Call.prune_workers ttl) w =
      with_registry w (query o.fault (prune_workers (pos_part ttl) o.now) w.registry)
  handle o (Call.workers ttl) w =
      with_registry w (query o.fault (λ rows. (rows, workers (pos_part ttl) o.now rows)) w.registry)
  handle o (Call.push id) w = with_db w (push redis name o.fault id w.db)
  handle o (Call.ack id) w = with_db w (ack redis name o.fault id w.db)
  handle o (Call.requeue id) w = with_db w (requeue redis name o.fault id w.db)
  handle o (Call.claim owner lease) w =
      with_db w (claim redis name o.fault o.wait owner o.clock (pos_part lease) w.db)
  handle o (Call.extend id owner lease) w =
      with_db w (extend redis name o.fault id owner o.clock (pos_part lease) w.db)
  handle o (Call.reclaim limit) w = with_db w (reclaim redis name o.fault o.clock limit w.db)
  handle o Call.depth w = (w, o.depth)

  -- The state after a program that runs alone, and what it returns; the n-th call is made on the n-th
  -- occasion.
  abbrev pub alone : {A : Type 0} → (ℕ → Occasion) → Program A → World → World × A
  alone at (done a) w = (w, a)
  alone at (calls c next) w =
      alone (λ n. at (suc n)) (next (handle (at 0) c w).1) (handle (at 0) c w).0

  -- From programs and a state, the calls that are made and what they come to, one at a time, each by
  -- whichever program. A run may stop at any point.
  pub data Runs
      : List (Program (Unit {0}))
        → World
        → List (Occasion × Call)
        → List (Program (Unit {0}))
        → World
        → Type 0 where
    stops : (ps : List (Program (Unit {0}))) (w : World) → Runs ps w [] ps w
    makes :
        (before after : List (Program (Unit {0}))) (o : Occasion) (c : Call)
        (next : Response c → Program (Unit {0})) (w : World) (trace : List (Occasion × Call))
        (ps' : List (Program (Unit {0}))) (w' : World)
        → Runs (before ++ next (handle o c w).1 ∷ after) (handle o c w).0 trace ps' w'
        → Runs (before ++ calls c next ∷ after) w ((o, c) ∷ trace) ps' w'
