-- ===== src/Service/Cluster.antt =====
-- cmd/anchora/main.go, internal/jobs/jobs.go: the goroutines of all nodes, whose calls interleave, and
-- what these do to the table of jobs.
pub mod Foreign
pub mod Exclusive
pub mod World
pub mod Custody
pub mod Kept
pub mod Outcome
pub mod Recovered
pub mod Dispatched
pub mod Submitted
pub mod Earned
pub mod Announced
pub mod Completed
mod Samples
use anchora.Prelude.{ℕ, String, Bool, List, [], ◌∷◌, ◌++◌, Result, ok, err}
use anchora.Prelude.Int.{pos, pos_part}
use anchora.Workflow.{Message, Schedule}
use anchora.Store.{Selection, Operation}
use anchora.Store.Steps.{JobStep}
use anchora.Store.Registry.{WorkerInfo}
use anchora.Service.Program.{Call, Response, Program, done, calls, ◌>>◌}
use anchora.Service.Backend.{Backend, submit}
use anchora.Service.Loops.{Turn, run_worker, run_reaper}

-- What a goroutine runs: a worker, a reaper, or the submission of a job by a request.
pub data Actor : Type 0 where
  worker : WorkerInfo → List Turn → Actor
  reaper : ℕ → Actor
  submission : Schedule → Result String String → ℕ → List JobStep → Actor

unfoldable pub program_of : Backend → Actor → Program (Unit {0})
unfolding run_worker run_reaper submit
program_of backend (worker info turns) = run_worker backend info turns >> done tt
program_of backend (reaper ticks) = run_reaper backend ticks
program_of backend (submission schedule new_id now steps) =
    submit backend schedule new_id now steps >> done tt

-- The statement on the table of jobs that a call runs, if it runs one.
abbrev pub operations : Selection → Call → List Operation
operations select (Call.create job) = Operation.creates job.id job.status ∷ []
operations select (Call.claim_job id owner lease) = Operation.claims id owner (pos_part lease) ∷ []
operations select (Call.extend_lease id owner lease) =
    Operation.extends id owner (pos_part lease) ∷ []
operations select (Call.finish_job id owner status message) =
    Operation.finishes id owner status message ∷ []
operations select (Call.release_job id owner) = Operation.releases id owner ∷ []
operations select (Call.reclaim_expired_jobs grace limit) =
    Operation.reclaims select (pos_part grace) limit ∷ []
operations select c = []

-- The calls of programs that run at the same time, with their times, in the order in which their
-- statements run. One call at a time takes effect, or fails without an effect, and the program that
-- made it goes on with any response; a program may also stop at any point.
pub data Interleaves : List (Program (Unit {0})) → List (ℕ × Call) → Type 0 where
  stops : (ps : List (Program (Unit {0}))) → Interleaves ps []
  takes :
      (before after : List (Program (Unit {0}))) (now : ℕ) (c : Call)
      (next : Response c → Program (Unit {0})) (response : Response c) (trace : List (ℕ × Call))
      → Interleaves (before ++ next response ∷ after) trace
      → Interleaves (before ++ calls c next ∷ after) ((now, c) ∷ trace)
  fails :
      (before after : List (Program (Unit {0}))) (c : Call) (next : Response c → Program (Unit {0}))
      (response : Response c) (trace : List (ℕ × Call))
      → Interleaves (before ++ next response ∷ after) trace
      → Interleaves (before ++ calls c next ∷ after) trace

-- The statements of a trace, in order.
abbrev pub at_time : ℕ → List Operation → List (ℕ × Operation)
at_time now [] = []
at_time now (op ∷ ops) = (now, op) ∷ at_time now ops

abbrev pub statements : Selection → List (ℕ × Call) → List (ℕ × Operation)
statements select [] = []
statements select (entry ∷ trace) =
    at_time entry.0 (operations select entry.1) ++ statements select trace
