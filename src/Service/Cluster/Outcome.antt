-- ===== src/Service/Cluster/Outcome.antt =====
-- How often the outcome of a job is recorded while the nodes run.
pub mod Records
pub mod Once
use anchora.Prelude.{
  ℕ, ◌+◌, ◌≤◌, String, ◌≡◌, refl, sym, ap, ◌∙◌, subst, Bool, true, false, not, ◌&&◌, ◌||◌, ◌⊎◌, inl,
  inr, Option, none, some, Bool-cases, List, [], ◌∷◌, ◌++◌, map, All, Result, ◌==◌, ==_iff,
  Distinct, keys, if◌then◌else◌, arith,
}
use anchora.Redis.{Redis}
use anchora.Queue.{Fault}
use anchora.Queue.Ready.{is_refused}
use anchora.Workflow.{Status, Message}
use anchora.Store.{
  JobRow, Operation, Selection, find_job, finish_job, exec, exec_all, is_terminal, owned_by,
  is_unowned,
}
use anchora.Store.Rows.{act, find-exec, found_id}
use anchora.Store.Answers.{finish_job_lem}
use anchora.Store.Ownership.{finishes_unowned, exec_all-terminal}
use anchora.Store.Unique.{job_ids, exec-Distinct}
use anchora.Service.Program.{Call, Payload, Response, Program, done, calls}
use anchora.Service.Program.Rules.{Makes, Makes-weaken}
use anchora.Service.Backend.{Backend}
use anchora.Service.Cluster.{Actor, program_of, operations}
use anchora.Service.Cluster.World.{Occasion, World, Runs, handle, query, stops, makes}
use anchora.Service.Cluster.World.Effects.{is_named, handle-Alters}
use anchora.Service.Cluster.Custody.{Hands, is_regular}
use anchora.Service.Cluster.Custody.Programs.{program_of-Hands}
use anchora.Service.Cluster.Exclusive.{IsLater, later-finishes, program_of-Avoids}
use anchora.Service.Cluster.Custody.Steps.{Found}
use anchora.Service.Cluster.Custody.Calls.{handle-Found}
use anchora.Service.Cluster.Foreign.{All-middle}

module _ (id : String) where
  -- The job is finished, and of no worker.
  abbrev pub IsFinal : List JobRow → Type 0
  IsFinal rows =
      (row : JobRow) × (find_job id rows ≡ some row)
      × (is_terminal row.status ≡ true)
      × (row.owner ≡ none)

  -- A call that a worker, or a reaper, or the submission of another job makes.
  abbrev pub IsTame : Call → Type 0
  IsTame c = (is_regular c ≡ true) × (is_named id c ≡ true)

module _ (redis : Redis) (name : String) (encode : Payload → Result String String)
    (id : String) where
  -- The call records an outcome of the job, whether or not its answer arrives.
  abbrev pub records : Occasion → Call → World redis name encode → ℕ
  records o (Call.finish_job k owner status message) w =
      if k == id
        && (not (is_refused o.fault) && (finish_job k owner status message o.now w.tables.jobs).1)
      then 1
      else 0
  records o c w = 0

  -- How many calls of the run do.
  abbrev pub outcomes :
      (ps : List (Program (Unit {0}))) (w : World redis name encode)
      (trace : List (Occasion × Call)) (ps' : List (Program (Unit {0})))
      (w' : World redis name encode)
      → Runs redis name encode ps w trace ps' w'
      → ℕ
  outcomes _ _ _ _ _ (stops ps w) = 0
  outcomes _ _ _ _ _ (makes before after o c next w trace ps' w' run) =
      records o c w
      + outcomes (before ++ next (handle redis name encode o c w).1 ∷ after)
          (handle redis name encode o c w).0 trace ps' w' run
