-- ===== src/Service/Cluster/Completed.antt =====
-- The event log and the table of jobs: what the log says of a job's completion.
use anchora.Prelude.{
  String, Bool, true, false, ◌||◌, inl, inr, Bool-cases, List, [], ◌∷◌, ◌++◌, map, All, ◌≡◌, ◌==◌,
  Result, arith, Distinct,
}
use anchora.Redis.{Redis}
use anchora.Store.{JobRow}
use anchora.Store.Unique.{job_ids}
use anchora.Service.Program.{Call, Payload, Response, Program, calls}
use anchora.Service.Program.Rules.{Makes}
use anchora.Service.Backend.{Backend}
use anchora.Service.Cluster.{Actor, program_of}
use anchora.Service.Cluster.Exclusive.{IsLater}
use anchora.Service.Cluster.Foreign.{All-middle}
use anchora.Service.Cluster.World.{Occasion, World, Runs, handle, stops, makes}
use anchora.Service.Cluster.Custody.Steps.{Found}
use anchora.Service.Cluster.Custody.Calls.{handle-Found}
use anchora.Service.Cluster.Outcome.{IsFinal, IsTame}
use anchora.Service.Cluster.Outcome.Records.{handle-Distinct, handle-IsFinal, records-cases}
use anchora.Service.Cluster.Outcome.Once.{programs-IsTame}
use anchora.Service.Cluster.Earned.{Earns, recorded}
use anchora.Service.Cluster.Earned.Actors.{program_of-Earns}
use anchora.Service.Cluster.Announced.{is_announced, announces, recorded-records}

All-weaken :
    {A : Type 0} (P Q : A → Type 0) (l : List A) → ((a : A) → P a → Q a) → All P l → All Q l
All-weaken P Q [] f h = tt
All-weaken P Q (a ∷ l) f h = (f a h.0, All-weaken P Q l f h.1)

module _ (redis : Redis) (name : String) (encode : Payload → Result String String)
    (id : String) where
  -- The program has announced nothing that it has not earned, and what it earned is final.
  abbrev HasEarned : List JobRow → Program (Unit {0}) → Type 0
  HasEarned jobs p = (b : Bool) × Earns id b p × (b ≡ true → IsFinal id jobs)

  step-HasEarned :
      (before after : List (Program (Unit {0}))) (o : Occasion) (c : Call)
      (next : Response c → Program (Unit {0})) (w : World redis name encode) (row : JobRow)
      → Found id w.tables.jobs row
      → Distinct (job_ids w.tables.jobs)
      → IsTame id c
      → All (HasEarned w.tables.jobs) (before ++ calls c next ∷ after)
      → All
          (HasEarned (handle redis name encode o c w).0.tables.jobs)
          (before ++ next (handle redis name encode o c w).1 ∷ after)
  step-HasEarned before after o c next w row found distinct tame h =
      let kept =
        All-weaken (HasEarned w.tables.jobs)
          (HasEarned (handle redis name encode o c w).0.tables.jobs)
          (before ++ calls c next ∷ after)
          (λ p e. (e.0, e.1, λ b. handle-IsFinal redis name encode id o c w tame (e.2 b))) h in
      let (here, there) =
        All-middle (HasEarned (handle redis name encode o c w).0.tables.jobs) before after
          (calls c next) (next (handle redis name encode o c w).1) kept in
      there (
        here.0 || recorded id c (handle redis name encode o c w).1,
        here.1.1 (handle redis name encode o c w).1,
        λ b. elim (Bool-cases here.0) [
          | inl held ↦ here.2 held
          | inr fresh ↦ elim (records-cases redis name encode id o c w row found.0 distinct tame) [
            | inl unmet ↦
                let one = recorded-records redis name encode id o c w (ground (arith, b, fresh)) in
                absurd (omega (arith, one, unmet))
            | inr (met, final) ↦ final
          ]
        ],
      )

  announced-IsFinal :
      (ps : List (Program (Unit {0}))) (w : World redis name encode)
      (trace : List (Occasion × Call)) (ps' : List (Program (Unit {0})))
      (w' : World redis name encode) (run : Runs redis name encode ps w trace ps' w') (row : JobRow)
      → All (Makes (IsTame id)) ps
      → All (HasEarned w.tables.jobs) ps
      → Distinct (job_ids w.tables.jobs)
      → Found id w.tables.jobs row
      → (is_announced id w.log.rows ≡ true → IsFinal id w.tables.jobs)
      → is_announced id w'.log.rows ≡ true
      → IsFinal id w'.tables.jobs
  announced-IsFinal _ _ _ _ _ (stops ps w) row tame earned distinct found before h = before h
  announced-IsFinal _ _ _ _ _ (makes front after o c next w trace ps' w' run) row tame earned
        distinct found before h =
      let (here, there) =
        All-middle (Makes (IsTame id)) front after (calls c next)
          (next (handle redis name encode o c w).1) tame in
      let (mine, others) =
        All-middle (HasEarned w.tables.jobs) front after (calls c next)
          (next (handle redis name encode o c w).1) earned in
      let (row', found', kept) = handle-Found redis name encode id o c w row found here.0.0 in
      announced-IsFinal _ _ trace ps' w' run row'
        (there (here.1 (handle redis name encode o c w).1))
        (step-HasEarned front after o c next w row found distinct here.0 earned)
        (handle-Distinct redis name encode id o c w distinct) found'
        (λ now. elim (announces redis name encode id o c w now) [
          | inl old ↦ handle-IsFinal redis name encode id o c w here.0 (before old)
          | inr new ↦ handle-IsFinal redis name encode id o c w here.0 (mine.2 (mine.1.0 new))
        ])
        h

module _ (redis : Redis) (name : String) (encode : Payload → Result String String)
    (backend : Backend) (id : String) (named : (id == "") ≡ false) where
  programs-HasEarned :
      (jobs : List JobRow) (actors : List Actor)
      → All (HasEarned redis name encode id jobs) (map (program_of backend) actors)
  programs-HasEarned jobs [] = tt
  programs-HasEarned jobs (actor ∷ actors) =
      ((false, program_of-Earns backend id actor, λ b. absurd (cc)), programs-HasEarned jobs actors)

  -- Once the log says that a job is completed, the job is finished and of no worker, whatever fails and
  -- in any interleaving of workers with a name, reapers and the submissions of other jobs. That is for
  -- distinct job IDs, and a job in the table that has an owner and a lease exactly while it runs, of
  -- which the log said nothing such at the start.
  pub Runs-completed :
      (actors : List Actor) (w : World redis name encode) (trace : List (Occasion × Call))
      (ps' : List (Program (Unit {0}))) (w' : World redis name encode) (row : JobRow)
      → Runs redis name encode (map (program_of backend) actors) w trace ps' w'
      → All (IsLater id) actors
      → Distinct (job_ids w.tables.jobs)
      → Found id w.tables.jobs row
      → is_announced id w.log.rows ≡ false
      → is_announced id w'.log.rows ≡ true
      → IsFinal id w'.tables.jobs
  Runs-completed actors w trace ps' w' row run later distinct found silent said =
      announced-IsFinal redis name encode id (map (program_of backend) actors) w trace ps' w' run
        row (programs-IsTame backend id named actors later)
        (programs-HasEarned w.tables.jobs actors) distinct found (λ now. absurd (cc)) said
