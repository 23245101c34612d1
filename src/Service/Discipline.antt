-- ===== src/Service/Discipline.antt =====
-- internal/jobs/jobs.go, process: which calls a worker may make for a delivery, by what its earlier
-- calls returned.
mod Ticks
pub mod Running
pub mod Processing
use anchora.Prelude.{
  ℕ, String, Bool, true, false, not, ◌&&◌, ◌||◌, Option, none, some, List, [], ◌∷◌, ◌≡◌, ◌⊎◌, ◌==◌,
  Result, ok, err,
}
use anchora.Workflow.{Message}
use anchora.Service.Program.{Call, Response, Entry}
use anchora.Service.Backend.{Backend, event_completed}
use anchora.Service.Attempt.{JobOutcome, interrupted, concluded}
use anchora.Service.Worker.{over_budget}

abbrev pub saw : ((c : Call) → Response c → Bool) → List Entry → Bool
saw test [] = false
saw test (e ∷ history) = test e.made e.response || saw test history

-- The claim of the job found it finished or leased.
abbrev pub dropped : (c : Call) → Response c → Bool
dropped (Call.claim_job id owner lease) (ok (attempts, false)) = true
dropped c response = false

-- A claim of a step found that the worker does not own the job.
abbrev pub fenced : (c : Call) → Response c → Bool
fenced (Call.claim_step job_id step_id owner) (ok false) = true
fenced c response = false

-- The job's outcome was recorded.
abbrev pub finished : (c : Call) → Response c → Bool
finished (Call.finish_job id owner status message) (ok true) = true
finished c response = false

abbrev pub released : (c : Call) → Response c → Bool
released (Call.release_job id owner) (ok _) = true
released c response = false

abbrev pub in_store : (c : Call) → Response c → Bool
in_store (Call.extend_lease id owner lease) (ok held) = held
in_store c response = true

-- Whether the last call extended the lease in the store, if that is what it was to do.
abbrev pub held_before : List Entry → Bool
held_before [] = true
held_before (e ∷ history) = in_store e.made e.response

-- The call completes a beat of the heartbeat that found a lease gone. A beat whose second call is not
-- answered counts for nothing, in the code too, even if the first one has found the lease gone.
abbrev pub is_lost_beat : Bool → (c : Call) → Response c → Bool
is_lost_beat held (Call.extend id owner lease) (ok still) = not (held && still)
is_lost_beat held c response = false

abbrev pub lost_beat : List Entry → Bool
lost_beat [] = false
lost_beat (e ∷ history) = is_lost_beat (held_before history) e.made e.response || lost_beat history

-- The job was found not to be one that can run.
abbrev pub is_refusal : Message → Bool
is_refusal (Message.unknown_agent name) = true
is_refusal (Message.disappeared id) = true
is_refusal (Message.invalid e) = true
is_refusal message = false

-- The outcome is that of a workflow that ran.
abbrev pub is_decided : JobOutcome → Bool
is_decided (interrupted cause) = false
is_decided (concluded results none) = true
is_decided (concluded results (some message)) = not (is_refusal message)

-- The claim of the job succeeded, within the budget of deliveries or beyond it.
abbrev pub granted : Backend → (c : Call) → Response c → Bool
granted backend (Call.claim_job j owner lease) (ok (attempts, true)) =
    not (over_budget backend attempts)
granted backend c response = false

abbrev pub exceeded : Backend → (c : Call) → Response c → Bool
exceeded backend (Call.claim_job j owner lease) (ok (attempts, true)) = over_budget backend attempts
exceeded backend c response = false

module _ (backend : Backend) (worker id : String) where
  -- The calls that a worker may make for a delivery of the job.
  abbrev pub Permitted : List Entry → Call → Type 0
  Permitted h (Call.claim_job j w lease) = (j ≡ id) × (w ≡ worker) × (h ≡ [])
  Permitted h (Call.get j) = (j ≡ id) × (saw (granted backend) h ≡ true)
  Permitted h (Call.claim_step j step_id w) =
      (j ≡ id) × (w ≡ worker) × (saw (granted backend) h ≡ true)
  Permitted h (Call.extend_lease j w lease) =
      (j ≡ id) × (w ≡ worker) × (saw (granted backend) h ≡ true)
  Permitted h (Call.extend j w lease) = (j ≡ id) × (w ≡ worker) × (saw (granted backend) h ≡ true)
  Permitted h (Call.update_step j w result) =
      (j ≡ id) × (w ≡ worker) × (saw (granted backend) h ≡ true)
  Permitted h (Call.finish_job j w status message) =
      (j ≡ id)
      × (w ≡ worker)
      × ((saw (exceeded backend) h ≡ true)
          ⊎ ((saw (granted backend) h ≡ true)
              × ((is_refusal message ≡ true) ⊎ (saw fenced h ≡ false))))
  Permitted h (Call.release_job j w) =
      (j ≡ id) × (w ≡ worker) × (saw (granted backend) h ≡ true) × (saw finished h ≡ false)
  Permitted h (Call.requeue j) = (j ≡ id) × (saw released h ≡ true)
  Permitted h (Call.ack j) =
      (j ≡ id) × ((saw dropped h || (saw (exceeded backend) h || saw finished h)) ≡ true)
  Permitted h (Call.append_event j type payload) =
      (j ≡ id) × ((not (type == event_completed) || saw finished h) ≡ true)
  Permitted h c = ⊥
