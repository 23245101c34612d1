-- ===== src/Service/Program.antt =====
-- internal/jobs/jobs.go: the interfaces JobStore and JobQueue, and code that calls them. A program is
-- either done, or it makes a call and goes on with whatever the call answers.
pub mod Rules
use anchora.Prelude.{ℕ, String, Bool, Option, List, ◌∷◌, Result}
use anchora.Prelude.Int.{ℤ}
use anchora.Workflow.{Status, Message, StepResult}
use anchora.Store.Steps.{Job}
use anchora.Store.Registry.{EventRow, WorkerInfo}

-- What the code gives AppendEvent to encode as JSON.
pub data Payload : Type 0 where
  of_job : Job → Payload
  of_attempt : String → ℕ → Payload
  of_count : ℕ → Payload
  of_result : StepResult → Payload
  of_reason : String → Payload
  of_abandon : String → Message → Payload
  of_budget : ℕ → ℤ → String → Payload
  of_outcome : Status → List StepResult → String → ℕ → Payload

-- The methods with their arguments; the contexts are left out.
pub data Call : Type 0 where
  create : Job → Call
  get : String → Call
  claim_job extend_lease : String → String → ℤ → Call
  finish_job : String → String → Status → Message → Call
  release_job : String → String → Call
  reclaim_expired_jobs : ℤ → ℤ → Call
  claim_step : String → String → String → Call
  update_step : String → String → StepResult → Call
  append_event : String → String → Payload → Call
  events : String → ℕ → Call
  register_worker : WorkerInfo → Call
  heartbeat_worker : String → ℕ → Call
  unregister_worker : String → Call
  prune_workers workers : ℤ → Call
  push ack requeue : String → Call
  claim : String → ℤ → Call
  extend : String → String → ℤ → Call
  reclaim : ℤ → Call
  depth : Call

-- What a call returns where it does not fail.
abbrev pub Answer : Call → Type 0
Answer (Call.create job) = Unit {0}
Answer (Call.get id) = Option Job
Answer (Call.claim_job id owner lease) = ℕ × Bool
Answer (Call.extend_lease id owner lease) = Bool
Answer (Call.finish_job id owner status message) = Bool
Answer (Call.release_job id owner) = Unit {0}
Answer (Call.reclaim_expired_jobs grace limit) = List String
Answer (Call.claim_step job_id step_id owner) = Bool
Answer (Call.update_step job_id owner result) = Unit {0}
Answer (Call.append_event job_id type data_of) = Unit {0}
Answer (Call.events job_id last_seen) = List EventRow
Answer (Call.register_worker info) = Unit {0}
Answer (Call.heartbeat_worker id claimed) = Unit {0}
Answer (Call.unregister_worker id) = Unit {0}
Answer (Call.prune_workers ttl) = ℕ
Answer (Call.workers ttl) = List WorkerInfo
Answer (Call.push id) = Unit {0}
Answer (Call.ack id) = Unit {0}
Answer (Call.requeue id) = Unit {0}
Answer (Call.claim owner lease) = String
Answer (Call.extend id owner lease) = Bool
Answer (Call.reclaim limit) = List String
Answer Call.depth = ℕ × ℕ

abbrev pub Response : Call → Type 0
Response c = Result String (Answer c)

pub data Program (A : Type 0) : Type 0 where
  done : A → Program A
  calls : (c : Call) → (Response c → Program A) → Program A

infixl 5 ◌>>=◌ ◌>>◌
abbrev pub ◌>>=◌ : {A B : Type 0} → Program A → (A → Program B) → Program B
done a >>= f = f a
calls c next >>= f = calls c (λ response. next response >>= f)

abbrev pub ◌>>◌ : {A B : Type 0} → Program A → Program B → Program B
p >> q = p >>= λ _. q

abbrev pub perform : (c : Call) → Program (Response c)
perform c = calls c done

-- A call that was made, with what it returned; a history is the calls so far, the last one first.
pub record Entry : Type 0 where
  pub made : Call
  pub response : Response made

-- Every call of the program is allowed after the calls before it, and its result fits its history,
-- whatever the calls return.
abbrev pub Ensures :
    {A : Type 0}
    → (List Entry → Call → Type 0)
    → (List Entry → A → Type 0)
    → List Entry
    → Program A
    → Type 0
Ensures P Q history (done a) = Q history a
Ensures P Q history (calls c next) =
    P history c
    × ((response : Response c)
        → Ensures P Q (record { made = c; response = response } ∷ history) (next response))
