-- ===== src/Store/Registry.antt =====
-- internal/jobs/store.go: the event log and the registry of workers.
pub mod Events
use anchora.Prelude.{
  ℕ, suc, ◌+◌, String, Bool, true, false, not, ◌&&◌, Option, none, some, List, [], ◌∷◌, ◌++◌,
  filter, length, ltb, leb, nat_eq, contains, ◌==◌, if◌then◌else◌, keys,
}
use anchora.Prelude.Int.{ℤ}
use anchora.Store.{interval, update}

-- `workflow_events`, with the next value of its sequence.
pub record EventRow : Type 0 where
  pub id : ℕ
  pub job_id : String
  pub type : String
  pub payload : String
  pub created_at : ℕ

pub record Log : Type 0 where
  pub rows : List EventRow
  pub next : ℕ

abbrev pub new_event : ℕ → String → String → String → ℕ → EventRow
new_event id job_id type payload now = record {
  id = id;
  job_id = job_id;
  type = type;
  payload = payload;
  created_at = now;
}

-- The payload is the JSON text `data`; the row is refused where the job does not exist.
unfoldable pub append_event : List String → String → String → String → ℕ → Log → Option Log
append_event jobs job_id type payload now log =
    if contains job_id jobs
    then some (record {
      rows = log.rows ++ new_event log.next job_id type payload now ∷ [];
      next = suc log.next;
    })
    else none

-- `ORDER BY id`
unfoldable pub insert_event : EventRow → List EventRow → List EventRow
insert_event e [] = e ∷ []
insert_event e (other ∷ rest) =
    let later = insert_event e rest in if ltb other.id e.id then other ∷ later else e ∷ other ∷ rest

unfoldable pub sort_events : List EventRow → List EventRow
unfolding insert_event
sort_events [] = []
sort_events (e ∷ rows) = insert_event e (sort_events rows)

unfoldable pub events : String → ℕ → Log → List EventRow
unfolding sort_events
events job_id last_seen log =
    sort_events (filter (λ (e : EventRow). e.job_id == job_id && ltb last_seen e.id) log.rows)

-- `WorkerInfo`, a row of `workflow_workers`.
pub record WorkerInfo : Type 0 where
  pub id : String
  pub hostname : String
  pub pid : ℕ
  pub queue : String
  pub started_at : ℕ
  pub last_beat_at : ℕ
  pub jobs_claimed : ℕ

-- A worker that is known keeps its count of claimed jobs.
unfoldable pub register_worker : WorkerInfo → ℕ → List WorkerInfo → List WorkerInfo
register_worker w now rows =
    if contains w.id (keys (λ (row : WorkerInfo). row.id) rows)
    then update (λ row. row.id == w.id)
        (λ row. record row {
          hostname = w.hostname;
          pid = w.pid;
          queue = w.queue;
          started_at = now;
          last_beat_at = now;
        })
        rows
    else rows ++ record w { started_at = now; last_beat_at = now; jobs_claimed = 0 } ∷ []

unfoldable pub heartbeat_worker : String → ℕ → ℕ → List WorkerInfo → List WorkerInfo
heartbeat_worker id claimed now rows =
    update (λ row. row.id == id)
      (λ row. record row { last_beat_at = now; jobs_claimed = row.jobs_claimed + claimed }) rows

unfoldable pub unregister_worker : String → List WorkerInfo → List WorkerInfo
unregister_worker id rows = filter (λ row. not (row.id == id)) rows

-- `last_heartbeat_at < now() - ttl`
abbrev pub is_silent : ℕ → ℕ → WorkerInfo → Bool
is_silent ttl now row = ltb (row.last_beat_at + interval ttl) now

unfoldable pub prune_workers : ℕ → ℕ → List WorkerInfo → List WorkerInfo × ℕ
prune_workers ttl now rows =
    (filter (λ row. not (is_silent ttl now row)) rows, length (filter (is_silent ttl now) rows))

-- `ORDER BY started_at`; the order of equal times is up to the database.
unfoldable pub insert_by_start : WorkerInfo → List WorkerInfo → List WorkerInfo
insert_by_start w [] = w ∷ []
insert_by_start w (other ∷ rest) =
    let later = insert_by_start w rest in
    if ltb other.started_at w.started_at then other ∷ later else w ∷ other ∷ rest

unfoldable pub sort_by_start : List WorkerInfo → List WorkerInfo
unfolding insert_by_start
sort_by_start [] = []
sort_by_start (w ∷ rows) = insert_by_start w (sort_by_start rows)

unfoldable pub workers : ℕ → ℕ → List WorkerInfo → List WorkerInfo
unfolding sort_by_start
workers ttl now rows =
    sort_by_start (filter (λ row. leb now (row.last_beat_at + interval ttl)) rows)
