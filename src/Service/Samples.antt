-- ===== src/Service/Samples.antt =====
-- Settings of the backend, and the theorem applied to them.
use anchora.Prelude.{
  ℕ, ◌<◌, ◌≤◌, ◌≡◌, refl, String, Bool, true, false, if◌then◌else◌, Option, none, some, List, [],
  ◌∷◌, ok, ◌==◌,
}
use anchora.Prelude.Int.{pos}
use anchora.Workflow.InOrder.{in_order}
use anchora.Workflow.{Status, Message, Agent, answer, StepResult}
use anchora.Workflow.Run.{run}
use anchora.Workflow.Cycle.{has_cycle}
use anchora.Workflow.Validate.{new_workflow}
use anchora.Store.Steps.{JobStep}
use anchora.Store.Registry.{WorkerInfo}
use anchora.Service.{Settings, lease, heartbeat}
use anchora.Service.Windows.{heartbeat-lt-lease}
use anchora.Service.Program.{Call, Response, Program, done, calls, Ensures}
use anchora.Service.Backend.{Backend, submitted_job, submit}
use anchora.Service.Lease.{Tick}
use anchora.Service.Attempt.{Moment, Circumstances, fenced_agent, run_job}
use anchora.Service.Worker.{process}
use anchora.Service.Loops.{Turn, reap, run_worker}
use anchora.Service.Discipline.{Permitted}
use anchora.Service.Discipline.Running.{Informed, run_job-Informed}
use anchora.Service.Discipline.Processing.{Free, process-Permitted}
use anchora.Service.Submission.{Submits, Reports, submit-Reports}
use anchora.Service.Rounds.{Counts, Leaves, run_worker-Counts}

-- The heartbeat is longer than the lease, so it is not used.
abbrev late : Settings
late = record {
  lease_setting = pos 3000;
  heartbeat_setting = pos 5000;
  max_attempts = pos 0;
  reaper_interval_setting = pos 0;
  worker_ttl_setting = pos 0;
  reclaim_batch_setting = pos 0;
  queue_name = "";
}

late-heartbeat : heartbeat late ≡ pos 1000
unfolding heartbeat
late-heartbeat = refl

heartbeat-lt-lease_example :
    (l h : ℕ) × (lease late ≡ pos l) × (heartbeat late ≡ pos h) × (h < l) × (3 ≤ l → 0 < h)
heartbeat-lt-lease_example = heartbeat-lt-lease late

abbrev echo : Agent
echo n prompt = answer prompt

abbrev agents : String → Option Agent
agents name = if name == "echo" then some echo else none

abbrev backend : Backend
backend = record {
  resolve = agents;
  options = record { max_retries = pos 1; retry_delay = pos 0; resume = [] };
  config = record late { max_attempts = pos 3 };
}

abbrev greet : JobStep
greet = record { id = "greet"; agent = "echo"; prompt = "hello"; depends_on = [] }

abbrev greeted : StepResult
greeted = record {
  id = "greet";
  status = Status.succeeded;
  attempts = 0;
  output = "hello";
  error = Message.nothing;
}

-- A beat of the heartbeat, then the step is claimed and its result recorded.
abbrev calm : Circumstances
calm = record {
  schedule = in_order;
  context = λ id n. none;
  early = [];
  moments = Moment.ticks Tick.beats ∷ Moment.claims "greet" ∷ Moment.records greeted ∷ [];
  late = [];
}

-- The store and the queue: they hold the lease and the job, unless the step is refused.
abbrev respond : Bool → (c : Call) → Response c
respond own (Call.create job) = ok tt
respond own (Call.get id) = ok (some (submitted_job id 0 (greet ∷ [])))
respond own (Call.claim_job id owner lease) = ok (1, true)
respond own (Call.extend_lease id owner lease) = ok true
respond own (Call.finish_job id owner status message) = ok true
respond own (Call.release_job id owner) = ok tt
respond own (Call.reclaim_expired_jobs grace limit) = ok ("j2" ∷ [])
respond own (Call.claim_step job_id step_id owner) = ok own
respond own (Call.update_step job_id owner result) = ok tt
respond own (Call.append_event job_id type payload) = ok tt
respond own (Call.events job_id last_seen) = ok []
respond own (Call.register_worker info) = ok tt
respond own (Call.heartbeat_worker id claimed) = ok tt
respond own (Call.unregister_worker id) = ok tt
respond own (Call.prune_workers ttl) = ok 0
respond own (Call.workers ttl) = ok []
respond own (Call.push id) = ok tt
respond own (Call.ack id) = ok tt
respond own (Call.requeue id) = ok tt
respond own (Call.claim owner lease) = ok "j1"
respond own (Call.extend id owner lease) = ok true
respond own (Call.reclaim limit) = ok ("j3" ∷ [])
respond own Call.depth = ok (0, 0)

-- What a program asks of the queue and how it finishes the job, in order.
abbrev told : Call → List String → List String
told (Call.push id) later = "push" ∷ id ∷ later
told (Call.ack id) later = "ack" ∷ id ∷ later
told (Call.requeue id) later = "requeue" ∷ id ∷ later
told (Call.finish_job id owner Status.succeeded message) later = "succeed" ∷ id ∷ later
told (Call.finish_job id owner status message) later = "fail" ∷ id ∷ later
told c later = later

abbrev trace : Bool → {A : Type 0} → Program A → List String
trace own (done a) = []
trace own (calls c next) = told c (trace own (next (respond own c)))

program : Unit {0}
unfolding process fenced_agent reap submit run new_workflow has_cycle ◌==◌ lease
program = tt

process_succeeds :
    trace true (process backend "w1" "j1" calm) ≡ "succeed" ∷ "j1" ∷ "ack" ∷ "j1" ∷ []
unfolding program
process_succeeds = refl

-- The fence: neither a finish nor an ack.
process_fenced : trace false (process backend "w1" "j1" calm) ≡ []
unfolding program
process_fenced = refl

process_stopped :
    trace true (process backend "w1" "j1" (record calm { early = Tick.stops ∷ [] }))
    ≡ "requeue" ∷ "j1" ∷ []
unfolding program
process_stopped = refl

reap_pushes : trace true (reap backend) ≡ "push" ∷ "j2" ∷ []
unfolding program
reap_pushes = refl

submit_pushes : trace true (submit backend in_order (ok "j9") 5 (greet ∷ [])) ≡ "push" ∷ "j9" ∷ []
unfolding program
submit_pushes = refl

abbrev somewhere : WorkerInfo
somewhere = record {
  id = "w1";
  hostname = "host";
  pid = 7;
  queue = "";
  started_at = 0;
  last_beat_at = 0;
  jobs_claimed = 0;
}

abbrev turn : Turn
turn = record {
  stopped = false;
  stopped_after = false;
  slept = true;
  reports = 1;
  reports_waiting = 1;
  reports_during = 1 ∷ 0 ∷ 2 ∷ [];
  circumstances = calm;
}

process-Permitted_example :
    Ensures
      (Permitted backend "w1" "j1")
      (Free backend "w1" "j1")
      []
      (process backend "w1" "j1" calm)
process-Permitted_example = process-Permitted backend "w1" "j1" calm

run_job-Informed_example :
    Ensures
      (Permitted backend "w1" "j1")
      (Informed backend "w1" "j1")
      (record { made = Call.claim_job "j1" "w1" (pos 3000); response = ok (1, true) } ∷ [])
      (run_job backend "w1" "j1" calm)
run_job-Informed_example =
    run_job-Informed backend "w1" "j1" calm
      (record { made = Call.claim_job "j1" "w1" (pos 3000); response = ok (1, true) } ∷ [])
      (refl, refl, refl, λ l. l)

submit-Reports_example :
    Ensures
      (Submits backend in_order (greet ∷ []) (submitted_job "j9" 5 (greet ∷ [])))
      (Reports backend in_order (greet ∷ []) (submitted_job "j9" 5 (greet ∷ [])))
      []
      (submit backend in_order (ok "j9") 5 (greet ∷ []))
submit-Reports_example = submit-Reports backend in_order (greet ∷ []) "j9" 5

run_worker-Counts_example :
    Ensures
      (Counts backend "w1")
      (Leaves backend "w1")
      []
      (run_worker backend somewhere (turn ∷ turn ∷ []))
run_worker-Counts_example = run_worker-Counts backend somewhere (turn ∷ turn ∷ [])
