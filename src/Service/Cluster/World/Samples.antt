-- ===== src/Service/Cluster/World/Samples.antt =====
-- A worker runs a job to its end on a database and a queue in memory.
use anchora.Prelude.{
  some, ℕ, ◌≤◌, String, true, false, none, List, [], ◌∷◌, map, ◌≡◌, refl, ok, Result, ◌==◌, inl,
  inr, keys,
}
use anchora.Prelude.Int.{pos}
use anchora.Redis.{last, init, take}
use anchora.Redis.Memory.{memory, empty}
use anchora.Workflow.InOrder.{in_order}
use anchora.Workflow.{Status, Message, ValidationError}
use anchora.Workflow.Validate.{new_workflow}
use anchora.Queue.{
  Fault, push_script, ready, wake, claim, claim_script, reclaim, reclaim_script, return_all, ack,
  ack_script,
}
use anchora.Store.{Selection, JobRow, find_job, claim_job, finish_job}
use anchora.Store.Steps.{get, sort_by_ordinal}
use anchora.Store.Registry.{WorkerInfo, register_worker, append_event}
use anchora.Service.{lease, reclaim_batch}
use anchora.Service.Program.{Call, Payload, Program}
use anchora.Service.Backend.{Backend, event_running, event_completed, resolve_steps}
use anchora.Service.Worker.{process}
use anchora.Service.Loops.{Turn}
use anchora.Service.Cluster.{Actor, program_of}
use anchora.Service.Cluster.World.{Occasion, World, Runs, stops, makes, handle}
use anchora.Service.Cluster.Kept.{Kept, IsHandedOver, Runs-Kept}
use anchora.Service.Cluster.Custody.Steps.{Found}
use anchora.Service.Cluster.Custody.Calls.{IsReady}
use anchora.Service.Cluster.Completed.{Runs-completed}
use anchora.Service.Cluster.Announced.{is_announced}
use anchora.Service.Cluster.Outcome.{IsFinal, outcomes}
use anchora.Service.Cluster.Outcome.Once.{Runs-outcome}

abbrev backend : Backend
backend = record {
  resolve = λ name. none;
  options = record { max_retries = pos 0; retry_delay = pos 0; resume = [] };
  config = record {
    lease_setting = pos 9000000;
    heartbeat_setting = pos 0;
    max_attempts = pos 0;
    reaper_interval_setting = pos 0;
    worker_ttl_setting = pos 0;
    reclaim_batch_setting = pos 7;
    queue_name = "";
  };
}

abbrev turn : Turn
turn = record {
  stopped = false;
  stopped_after = false;
  slept = true;
  reports = 0;
  reports_waiting = 0;
  reports_during = [];
  circumstances = record {
    schedule = in_order;
    context = λ id n. none;
    early = [];
    moments = [];
    late = [];
  };
}

abbrev two : WorkerInfo
two = record {
  id = "two";
  hostname = "host";
  pid = 7;
  queue = "";
  started_at = 0;
  last_beat_at = 0;
  jobs_claimed = 0;
}

abbrev actors : List Actor
actors = Actor.worker two (turn ∷ []) ∷ Actor.reaper 1 ∷ []

abbrev waiting : JobRow
waiting = record {
  id = "job";
  status = Status.pending;
  created_at = 0;
  started_at = none;
  finished_at = none;
  attempts = 0;
  owner = none;
  lease_expires_at = none;
  error = Message.nothing;
  updated_at = 0;
}

abbrev encode : Payload → Result String String
encode payload = ok "{}"

abbrev start : World memory "q" encode
start = record {
  db = push_script memory "q" "job" empty;
  tables = record { jobs = waiting ∷ []; steps = [] };
  log = record { rows = []; next = 1 };
  registry = [];
}

abbrev at : ℕ → Occasion
at now = record {
  now = now;
  clock = now;
  fault = Fault.delivered;
  wait = Fault.delivered;
  select = λ limit rows. [];
  depth = ok (0, 0);
}

-- The worker registers, takes the job, and finds that no agent of it is known.
abbrev trace : List (Occasion × Call)
trace =
    (at 10, Call.register_worker two)
    ∷ (at 11, Call.claim "two" (pos 9000000))
    ∷ (at 12, Call.reclaim (pos 7))
    ∷ (at 13, Call.claim_job "job" "two" (pos 9000000))
    ∷ (at 14, Call.append_event "job" event_running (Payload.of_attempt "two" 1))
    ∷ (at 15, Call.get "job")
    ∷ (at 16, Call.finish_job "job" "two" Status.failed (Message.invalid ValidationError.no_steps))
    ∷ (at 17, Call.append_event "job" event_completed (Payload.of_outcome Status.failed [] "two" 1))
    ∷ (at 18, Call.ack "job")
    ∷ []

program : Unit {0}
unfolding program_of process lease reclaim_batch ◌==◌ handle claim claim_script push_script wake
    last register_worker claim_job reclaim reclaim_script return_all init append_event get find_job
    sort_by_ordinal finish_job ack ack_script resolve_steps new_workflow
program = tt

abbrev Ended : Type 0
Ended =
    (ps : List (Program (Unit {0}))) × (w : World memory "q" encode) × Runs memory "q" encode
      (map (program_of backend) actors) start trace ps w

run : Ended
unfolding program
run = (
  _,
  _,
  makes [] _ (at 10) _ _ _ _ _ _ (
      makes [] _ (at 11) _ _ _ _ _ _ (
        makes (_ ∷ []) [] (at 12) _ _ _ _ _ _ (
          makes [] _ (at 13) _ _ _ _ _ _ (
            makes [] _ (at 14) _ _ _ _ _ _ (
              makes [] _ (at 15) _ _ _ _ _ _ (
                makes [] _ (at 16) _ _ _ _ _ _ (
                  makes [] _ (at 17) _ _ _ _ _ _
                    (makes [] _ (at 18) _ _ _ _ _ _ (stops _ _))))))))),
)

handed_over : IsHandedOver memory "q" encode "job" trace
handed_over = (refl, (refl, (refl, (refl, (refl, (refl, (refl, (refl, (refl, tt)))))))))

Found-waiting : Found "job" (waiting ∷ []) waiting
unfolding ◌==◌ find_job
Found-waiting = (refl, (refl, refl))

job_is_named : ("job" == "") ≡ false
unfolding ◌==◌
job_is_named = refl

two_is_named : ("two" == "") ≡ false
unfolding ◌==◌
two_is_named = refl

start-IsReady : IsReady memory "q" encode "job" start
unfolding program
start-IsReady = refl

-- The job ends as failed, and nothing is left in the queue.
run_end :
    (map (λ (row : JobRow). row.status) run.1.tables.jobs ≡ Status.failed ∷ [])
    × (ready memory "q" run.1.db ≡ [])
unfolding program run take
run_end = (refl, refl)

Runs-Kept_example : Kept memory "q" encode "job" run.0 run.1
Runs-Kept_example =
    Runs-Kept memory "q" encode backend "job" job_is_named actors start trace run.0 run.1 run.2
      handed_over (waiting, Found-waiting, inr (inl start-IsReady))

Runs-outcome_example :
    outcomes memory "q" encode "job" (map (program_of backend) actors) start trace run.0 run.1 run.2
    ≤ 1
Runs-outcome_example =
    Runs-outcome backend "job" job_is_named memory "q" encode actors start trace run.0 run.1 run.2
      waiting (two_is_named, (tt, tt)) (refl, tt) Found-waiting

-- "one" has died, and its lease has been over for long.
abbrev orphan : JobRow
orphan = record waiting {
  status = Status.running;
  owner = some "one";
  lease_expires_at = some 9000;
}

abbrev deserted : World memory "q" encode
deserted = record start { db = empty; tables = record { jobs = orphan ∷ []; steps = [] } }

abbrev take_all : Selection
take_all limit rows = keys (λ (row : JobRow). row.id) rows

job_announced : is_announced "job" run.1.log.rows ≡ true
unfolding program run
job_announced = refl

Runs-completed_example : IsFinal "job" run.1.tables.jobs
Runs-completed_example =
    Runs-completed memory "q" encode backend "job" job_is_named actors start trace run.0 run.1
      waiting run.2 (two_is_named, (tt, tt)) (refl, tt) Found-waiting refl job_announced
