-- ===== src/Service/Cluster/Samples.antt =====
-- A worker and a reaper beside the owner of a job, and beside a finished one.
use anchora.Prelude.{ℕ, true, false, none, some, List, [], ◌∷◌, map, ◌≡◌, refl, ok, ◌==◌, arith}
use anchora.Prelude.Int.{pos}
use anchora.Workflow.InOrder.{in_order}
use anchora.Workflow.{Status, Message}
use anchora.Store.{JobRow, Selection, find_job, exec_all}
use anchora.Store.Registry.{WorkerInfo}
use anchora.Service.{lease, reclaim_batch}
use anchora.Service.Program.{Call}
use anchora.Service.Backend.{Backend}
use anchora.Service.Worker.{process}
use anchora.Service.Loops.{Turn}
use anchora.Service.Cluster.{Actor, program_of, Interleaves, stops, takes, statements}
use anchora.Service.Cluster.Exclusive.{Interleaves-owned, Interleaves-terminal}

abbrev backend : Backend
backend = record {
  resolve = λ name. none;
  options = record { max_retries = pos 0; retry_delay = pos 0; resume = [] };
  config = record {
    lease_setting = pos 9000000;
    heartbeat_setting = pos 0;
    max_attempts = pos 0;
    reaper_interval_setting = pos 0;
    worker_ttl_setting = pos 0;
    reclaim_batch_setting = pos 7;
    queue_name = "";
  };
}

abbrev turn : Turn
turn = record {
  stopped = false;
  stopped_after = false;
  slept = true;
  reports = 0;
  reports_waiting = 0;
  reports_during = [];
  circumstances = record {
    schedule = in_order;
    context = λ id n. none;
    early = [];
    moments = [];
    late = [];
  };
}

abbrev second : WorkerInfo
second = record {
  id = "two";
  hostname = "host";
  pid = 7;
  queue = "";
  started_at = 0;
  last_beat_at = 0;
  jobs_claimed = 0;
}

abbrev actors : List Actor
actors = Actor.worker second (turn ∷ []) ∷ Actor.reaper 1 ∷ []

-- The second worker gets the job a second time while the reaper sweeps.
abbrev trace : List (ℕ × Call)
trace =
    (10, Call.register_worker second)
    ∷ (11, Call.claim "two" (pos 9000000))
    ∷ (12, Call.reclaim (pos 7))
    ∷ (13, Call.claim_job "job" "two" (pos 9000000))
    ∷ (14, Call.reclaim_expired_jobs (pos 9000000) (pos 7))
    ∷ []

program : Unit {0}
unfolding program_of process lease reclaim_batch ◌==◌
program = tt

interleaved : Interleaves (map (program_of backend) actors) trace
unfolding program
interleaved = takes [] _ 10 _ _ (ok tt) _ (
    takes [] _ 11 _ _ (ok "job") _ (
      takes (_ ∷ []) [] 12 _ _ (ok []) _
        (takes [] _ 13 _ _ (ok (0, false)) _ (takes (_ ∷ []) [] 14 _ _ (ok []) _ (stops _)))))

abbrev select : Selection
select limit rows = []

abbrev held : JobRow
held = record {
  id = "job";
  status = Status.running;
  created_at = 0;
  started_at = some 5;
  finished_at = none;
  attempts = 1;
  owner = some "one";
  lease_expires_at = some 9000;
  error = Message.nothing;
  updated_at = 5;
}

abbrev finished : JobRow
finished = record held {
  status = Status.succeeded;
  finished_at = some 8;
  owner = none;
  lease_expires_at = none;
}

found_held : find_job "job" (held ∷ []) ≡ some held
unfolding ◌==◌ find_job
found_held = refl

found_finished : find_job "job" (finished ∷ []) ≡ some finished
unfolding ◌==◌ find_job
found_finished = refl

one_is_named : ("one" == "") ≡ false
unfolding ◌==◌
one_is_named = refl

two_is_other : ("one" == "two") ≡ false
unfolding ◌==◌
two_is_other = refl

two_is_named : ("two" == "") ≡ false
unfolding ◌==◌
two_is_named = refl

Interleaves-owned_example :
    find_job "job" (exec_all (statements select trace) (held ∷ [])) ≡ some held
Interleaves-owned_example =
    Interleaves-owned backend select actors trace interleaved "job" (held ∷ []) held found_held
      "one" 9000 one_is_named refl refl (two_is_other, (tt, tt)) (ground arith)

Interleaves-terminal_example :
    find_job "job" (exec_all (statements select trace) (finished ∷ [])) ≡ some finished
Interleaves-terminal_example =
    Interleaves-terminal backend select actors trace interleaved "job" (finished ∷ []) finished
      found_finished refl refl (two_is_named, (tt, tt))
