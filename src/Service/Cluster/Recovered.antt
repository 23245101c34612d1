-- ===== src/Service/Cluster/Recovered.antt =====
-- internal/jobs/jobs.go, reap: what a sweep does to a job whose worker has died.
use anchora.Prelude.{ℕ, String, ◌≡◌, true, some, List, filter, contains, Result, err}
use anchora.Prelude.Int.{pos_part}
use anchora.Redis.{Redis}
use anchora.Queue.{Fault, ready}
use anchora.Store.{JobRow, Selection, find_job, is_abandoned, store_limit, set_pending}
use anchora.Service.{lease, reclaim_batch}
use anchora.Service.Program.{Payload, Program}
use anchora.Service.Backend.{Backend}
use anchora.Service.Cluster.World.{Occasion, World, alone}

-- A time at which nothing fails.
abbrev pub calm_at : ℕ → ℕ → Selection → Occasion
calm_at now clock select = record {
  now = now;
  clock = clock;
  fault = Fault.delivered;
  wait = Fault.delivered;
  select = select;
  depth = err "";
}

module _ (redis : Redis) (name : String) (encode : Payload → Result String String) (now clock : ℕ)
    (select : Selection) where
  -- The state after a program that runs alone at this time, and what it returns.
  abbrev pub alone_now :
      {A : Type 0} → Program A → World redis name encode → World redis name encode × A
  alone_now p w = alone redis name encode (λ n. calm_at now clock select) p w

  module _ (id : String) where
    abbrev Queued : World redis name encode → Type 0
    Queued w = contains id (ready redis name w.db) ≡ true

    -- The rows that a sweep of the store finds abandoned.
    abbrev pub abandoned : Backend → World redis name encode → List JobRow
    abandoned backend w = filter (is_abandoned (pos_part (lease backend.config)) now) w.tables.jobs

    abbrev pub IsSelected : Backend → World redis name encode → Type 0
    IsSelected backend w =
        contains id (select (store_limit (reclaim_batch backend.config)) (abandoned backend w))
        ≡ true

    -- The job is of no worker and ready in the queue.
    abbrev pub IsRecovered : JobRow → World redis name encode → Type 0
    IsRecovered row w =
        (find_job id w.tables.jobs ≡ some (set_pending now row))
        × (contains id (ready redis name w.db) ≡ true)
