-- ===== src/Service/Cluster/Outcome/Once.antt =====
-- At most one outcome of a job is recorded.
use anchora.Prelude.{
  ◌≤◌, String, ◌≡◌, refl, true, false, inl, inr, List, [], ◌∷◌, map, All, Result, ◌==◌, Distinct,
  arith,
}
use anchora.Redis.{Redis}
use anchora.Store.{JobRow, Selection}
use anchora.Store.Ownership.{finishes_unowned}
use anchora.Store.Unique.{job_ids}
use anchora.Service.Program.{Call, Payload, Program, done, calls}
use anchora.Service.Program.Rules.{Makes, Makes-weaken}
use anchora.Service.Backend.{Backend}
use anchora.Service.Cluster.{Actor, program_of, operations}
use anchora.Service.Cluster.World.{Occasion, World, Runs, handle, stops, makes}
use anchora.Service.Cluster.World.Effects.{is_named}
use anchora.Service.Cluster.Custody.{Hands, is_regular}
use anchora.Service.Cluster.Custody.Programs.{program_of-Hands}
use anchora.Service.Cluster.Exclusive.{IsLater, later-finishes, program_of-Avoids}
use anchora.Service.Cluster.Custody.Steps.{Found}
use anchora.Service.Cluster.Custody.Calls.{handle-Found}
use anchora.Service.Cluster.Foreign.{All-middle}
use anchora.Service.Cluster.Outcome.{outcomes, IsFinal, IsTame}
use anchora.Service.Cluster.Outcome.Records.{
  handle-Distinct, handle-IsFinal, records-final, records-cases,
}

module _ (redis : Redis) (name : String) (encode : Payload → Result String String)
    (id : String) where
  module _ (ps' : List (Program (Unit {0}))) (w' : World redis name encode) where
    outcomes-final :
        (ps : List (Program (Unit {0}))) (w : World redis name encode)
        (trace : List (Occasion × Call)) (run : Runs redis name encode ps w trace ps' w')
        → All (Makes (IsTame id)) ps
        → Distinct (job_ids w.tables.jobs)
        → IsFinal id w.tables.jobs
        → outcomes redis name encode id ps w trace ps' w' run ≡ 0
    outcomes-final _ _ _ (stops ps w) tame distinct final = refl
    outcomes-final _ _ _ (makes before after o c next w trace ps' w' run) tame distinct final =
        let (here, there) =
          All-middle (Makes (IsTame id)) before after (calls c next)
            (next (handle redis name encode o c w).1) tame in
        let rest =
          outcomes-final _ _ trace run (there (here.1 (handle redis name encode o c w).1))
            (handle-Distinct redis name encode id o c w distinct)
            (handle-IsFinal redis name encode id o c w here.0 final) in
        omega (arith, records-final redis name encode id o c w distinct here.0 final, rest)

    outcomes-le :
        (ps : List (Program (Unit {0}))) (w : World redis name encode)
        (trace : List (Occasion × Call)) (run : Runs redis name encode ps w trace ps' w')
        (row : JobRow)
        → All (Makes (IsTame id)) ps
        → Distinct (job_ids w.tables.jobs)
        → Found id w.tables.jobs row
        → outcomes redis name encode id ps w trace ps' w' run ≤ 1
    outcomes-le _ _ _ (stops ps w) row tame distinct found = omega arith
    outcomes-le _ _ _ (makes before after o c next w trace ps' w' run) row tame distinct found =
        let (here, there) =
          All-middle (Makes (IsTame id)) before after (calls c next)
            (next (handle redis name encode o c w).1) tame in
        let later = there (here.1 (handle redis name encode o c w).1) in
        let distinct' = handle-Distinct redis name encode id o c w distinct in
        elim (records-cases redis name encode id o c w row found.0 distinct here.0) [
          | inl none_here ↦
              let (row', found', kept) =
                handle-Found redis name encode id o c w row found here.0.0 in
              omega (arith, none_here, outcomes-le _ _ trace run row' later distinct' found')
          | inr (one, final) ↦
              omega (arith, one, outcomes-final _ _ trace run later distinct' final)
        ]

Hands-is_regular :
    {A : Type 0} (id : String) (p : Program A) → Hands id p → Makes (λ c. is_regular c ≡ true) p
Hands-is_regular id (done a) h = tt
Hands-is_regular id (calls c next) h = (h.0, λ r. Hands-is_regular id (next r) (h.1 r).1)

Makes-both :
    {A : Type 0} (K L : Call → Type 0) (p : Program A)
    → Makes K p
    → Makes L p
    → Makes (λ c. K c × L c) p
Makes-both K L (done a) k l = tt
Makes-both K L (calls c next) k l = ((k.0, l.0), λ r. Makes-both K L (next r) (k.1 r) (l.1 r))

no_rows : Selection
no_rows limit rows = []

Avoids-is_named :
    (id : String) (c : Call)
    → All (λ op. finishes_unowned id op ≡ false) (operations no_rows c)
    → is_named id c ≡ true
Avoids-is_named id (Call.finish_job k owner status message) h = ground (arith, h.0)
Avoids-is_named id (Call.create job) h = refl
Avoids-is_named id (Call.get k) h = refl
Avoids-is_named id (Call.claim_job k owner lease) h = refl
Avoids-is_named id (Call.extend_lease k owner lease) h = refl
Avoids-is_named id (Call.release_job k owner) h = refl
Avoids-is_named id (Call.reclaim_expired_jobs grace limit) h = refl
Avoids-is_named id (Call.claim_step job_id step_id owner) h = refl
Avoids-is_named id (Call.update_step job_id owner result) h = refl
Avoids-is_named id (Call.append_event k type payload) h = refl
Avoids-is_named id (Call.events k last_seen) h = refl
Avoids-is_named id (Call.register_worker info) h = refl
Avoids-is_named id (Call.heartbeat_worker k claimed) h = refl
Avoids-is_named id (Call.unregister_worker k) h = refl
Avoids-is_named id (Call.prune_workers ttl) h = refl
Avoids-is_named id (Call.workers ttl) h = refl
Avoids-is_named id (Call.push k) h = refl
Avoids-is_named id (Call.ack k) h = refl
Avoids-is_named id (Call.requeue k) h = refl
Avoids-is_named id (Call.claim owner lease) h = refl
Avoids-is_named id (Call.extend k owner lease) h = refl
Avoids-is_named id (Call.reclaim limit) h = refl
Avoids-is_named id Call.depth h = refl

module _ (backend : Backend) (id : String) (named : (id == "") ≡ false) where
  pub programs-IsTame :
      (actors : List Actor)
      → All (IsLater id) actors
      → All
          (Makes (λ c. (is_regular c ≡ true) × (is_named id c ≡ true)))
          (map (program_of backend) actors)
  programs-IsTame [] later = tt
  programs-IsTame (actor ∷ actors) later = (
    Makes-both (λ c. is_regular c ≡ true) (λ c. is_named id c ≡ true) (program_of backend actor)
        (Hands-is_regular id (program_of backend actor) (program_of-Hands backend id actor named))
        (Makes-weaken _ _ (λ c h. Avoids-is_named id c h) (program_of backend actor)
          (program_of-Avoids backend no_rows (finishes_unowned id) (IsLater id)
            (λ a op good is. later-finishes id a op good is) actor later.0)),
    programs-IsTame actors later.1,
  )

  -- At most one outcome of a job is recorded: with distinct job IDs, and a job in the table that has an
  -- owner and a lease exactly while it runs, at most one FinishJob takes effect on it, whatever fails
  -- and in any interleaving of workers with a name, reapers and the submissions of other jobs.
  pub Runs-outcome :
      (redis : Redis) (name : String) (encode : Payload → Result String String)
      (actors : List Actor) (w : World redis name encode) (trace : List (Occasion × Call))
      (ps' : List (Program (Unit {0}))) (w' : World redis name encode)
      (run : Runs redis name encode (map (program_of backend) actors) w trace ps' w') (row : JobRow)
      → All (IsLater id) actors
      → Distinct (job_ids w.tables.jobs)
      → Found id w.tables.jobs row
      → outcomes redis name encode id (map (program_of backend) actors) w trace ps' w' run ≤ 1
  Runs-outcome redis name encode actors w trace ps' w' run row later distinct found =
      outcomes-le redis name encode id ps' w' (map (program_of backend) actors) w trace run row
        (programs-IsTame actors later) distinct found
