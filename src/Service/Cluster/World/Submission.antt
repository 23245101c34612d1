-- ===== src/Service/Cluster/World/Submission.antt =====
-- A job is submitted to a database and a queue in memory.
use anchora.Prelude.{ℕ, String, true, some, [], ◌∷◌, ◌≡◌, refl, ok, err, Result, ◌==◌, contains}
use anchora.Prelude.Int.{pos}
use anchora.Redis.Memory.{memory, empty}
use anchora.Workflow.InOrder.{in_order}
use anchora.Workflow.Cycle.{has_cycle}
use anchora.Workflow.Validate.{new_workflow}
use anchora.Workflow.{Message, failure}
use anchora.Queue.{Fault, push, push_script, ready, wake}
use anchora.Store.{insert_job}
use anchora.Store.Steps.{Job, JobStep, create, insert_steps, get}
use anchora.Store.Registry.{append_event}
use anchora.Service.Program.{Payload}
use anchora.Service.Backend.{Backend, resolve_steps, submitted_job, dispatch, submit}
use anchora.Service.Cluster.World.{Occasion, World, handle, alone}
use anchora.Store.Steps.Created.{in_microseconds}
use anchora.Service.Cluster.Submitted.{submit-Stores}

abbrev backend : Backend
backend = record {
  resolve = λ name. some (λ n prompt. failure Message.nil_agent);
  options = record { max_retries = pos 0; retry_delay = pos 0; resume = [] };
  config = record {
    lease_setting = pos 0;
    heartbeat_setting = pos 0;
    max_attempts = pos 0;
    reaper_interval_setting = pos 0;
    worker_ttl_setting = pos 0;
    reclaim_batch_setting = pos 0;
    queue_name = "";
  };
}

abbrev greet : JobStep
greet = record { id = "greet"; agent = "echo"; prompt = "hello"; depends_on = [] }

abbrev encode : Payload → Result String String
encode payload = ok "{}"

abbrev vacant : World memory "q" encode
vacant = record {
  db = empty;
  tables = record { jobs = []; steps = [] };
  log = record { rows = []; next = 1 };
  registry = [];
}

abbrev calm : ℕ → Occasion
calm n = record {
  now = n;
  clock = n;
  fault = Fault.delivered;
  wait = Fault.delivered;
  select = λ limit rows. [];
  depth = err "";
}

abbrev job : Job
job = submitted_job "j9" 5 (greet ∷ [])

loading : Unit {0}
unfolding submit resolve_steps dispatch new_workflow has_cycle handle create insert_job insert_steps
    append_event push push_script wake ◌==◌
loading = tt

submission :
    (w : World memory "q" encode) × (alone memory "q" encode calm
        (submit backend in_order (ok "j9") 5 (greet ∷ []))
        vacant
      ≡ (w, ok job))
unfolding loading
submission = (_, refl)

submit-Stores_example :
    (job.steps ≡ greet ∷ [])
    × (get "j9" submission.0.tables ≡ some (in_microseconds job))
    × (contains "j9" (ready memory "q" submission.0.db) ≡ true)
submit-Stores_example =
    submit-Stores memory "q" encode backend calm in_order (ok "j9") 5 (greet ∷ []) vacant
      submission.0 job submission.1 tt
