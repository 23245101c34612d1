-- ===== src/Store/Samples.antt =====
-- A small database, what the statements do on it, and the theorems applied to it.
use anchora.Prelude.{
  ℕ, ◌<◌, true, false, none, some, List, [], ◌∷◌, ◌++◌, ◌≡◌, refl, All, ◌==◌, arith, keys, Distinct,
  ◌⊎◌,
}
use anchora.Prelude.Int.{pos}
use anchora.Workflow.{Status, Message, StepResult}
use anchora.Store.{JobRow, Operation, exec, exec_all, find_job, new_job, claim_job}
use anchora.Store.Ownership.{acts_for}
use anchora.Store.Consistent.{IsConsistent, exec_all-IsConsistent}
use anchora.Store.Claimable.{MayClaim, IsClaimed}
use anchora.Store.Answers.{claim_job_lem}
use anchora.Store.Steps.{Job, JobStep, Tables, StepRow, create, get, update_step}
use anchora.Store.Steps.Fenced.{update_step-fenced}
use anchora.Store.Registry.{append_event, events}

statements : Unit {0}
unfolding exec_all exec find_job claim_job create get append_event events ◌==◌
statements = tt

-- "one" holds the job until 40000; "two" failed "old".
abbrev held : JobRow
held = record {
  id = "job";
  status = Status.running;
  created_at = 1;
  started_at = some 10000;
  finished_at = none;
  attempts = 1;
  owner = some "one";
  lease_expires_at = some 40000;
  error = Message.nothing;
  updated_at = 10000;
}

abbrev finished : JobRow
finished = record held { id = "old"; status = Status.failed; owner = none; lease_expires_at = none }

abbrev rows : List JobRow
rows = finished ∷ held ∷ []

-- What "two" tries while "one" holds the job, and a sweep.
abbrev attempts_of_two : List (ℕ × Operation)
attempts_of_two =
    (20000, Operation.claims "job" "two" 30000000)
    ∷ (20001, Operation.finishes "job" "two" Status.succeeded Message.nothing)
    ∷ (39999, Operation.reclaims (λ limit found. keys (λ (r : JobRow). r.id) found) 0 (pos 10))
    ∷ []

-- After the lease has expired.
abbrev takeover : List (ℕ × Operation)
takeover =
    (50000, Operation.reclaims (λ limit found. keys (λ (r : JobRow). r.id) found) 0 (pos 10))
    ∷ (50001, Operation.claims "job" "two" 30000000)
    ∷ []

after_takeover :
    find_job "job" (exec_all takeover rows)
    ≡ some (record held {
      attempts = 2;
      owner = some "two";
      lease_expires_at = some 80001;
      updated_at = 50001;
    })
unfolding statements
after_takeover = refl

found_held : find_job "job" rows ≡ some held
unfolding statements
found_held = refl

two_is_other : All (λ op. (op.0 < 40000) × (acts_for "one" op.1 ≡ false)) attempts_of_two
unfolding ◌==◌
two_is_other = ((omega arith, refl), ((omega arith, refl), ((omega arith, refl), tt)))

apart_rows : Distinct (keys (λ (r : JobRow). r.id) rows)
unfolding ◌==◌
apart_rows = (refl, (refl, tt))

other_worker : ("one" == "two") ≡ false
unfolding ◌==◌
other_worker = refl

named_worker : ("two" == "") ≡ false
unfolding ◌==◌
named_worker = refl

exec_all-IsConsistent_example : All IsConsistent (exec_all takeover rows)
exec_all-IsConsistent_example =
    exec_all-IsConsistent takeover rows (refl, (refl, tt)) ((refl, refl), ((refl, refl), tt))

claim_job_lem_example :
    (MayClaim "two" 50000 held
      × ((claim_job "job" "two" 5000000 50000 rows).1 ≡ (2, true))
      × ((after : JobRow) × (find_job "job" (claim_job "job" "two" 5000000 50000 rows).0
            ≡ some after)
          × IsClaimed "two" 5000000 50000 held after))
    ⊎ ((MayClaim "two" 50000 held → ⊥)
        × ((claim_job "job" "two" 5000000 50000 rows).1 ≡ (0, false))
        × (find_job "job" (claim_job "job" "two" 5000000 50000 rows).0 ≡ some held))
claim_job_lem_example = claim_job_lem "job" "two" 50000 rows held apart_rows found_held 5000000

abbrev draft : JobStep
draft = record { id = "draft"; agent = "writer"; prompt = "Write."; depends_on = [] }

abbrev pending_result : StepResult
pending_result = record {
  id = "draft";
  status = Status.pending;
  attempts = 0;
  output = "";
  error = Message.nothing;
}

abbrev submitted : Job
submitted = record {
  id = "new";
  status = Status.pending;
  attempts = 0;
  owner = "";
  error = Message.nothing;
  created_at = 7009;
  started_at = none;
  finished_at = none;
  lease_expires_at = none;
  steps = draft ∷ [];
  results = pending_result ∷ [];
}

abbrev held_step : StepRow
held_step = record {
  job_id = "job";
  id = "draft";
  ordinal = 0;
  agent = "writer";
  prompt = "Write.";
  depends_on = [];
  status = Status.pending;
  attempts = 0;
  output = "";
  error = Message.nothing;
  owner = none;
  started_at = none;
  finished_at = none;
}

abbrev tables : Tables
tables = record { jobs = rows; steps = held_step ∷ [] }

abbrev created : Tables
created = record {
  jobs = rows ++ new_job "new" Status.pending 7 ∷ [];
  steps = held_step ∷ record held_step { job_id = "new" } ∷ [];
}

create-submitted : create submitted tables ≡ some created
unfolding statements
create-submitted = refl

update_step-fenced_example : update_step "job" "two" pending_result 30000 tables ≡ tables
update_step-fenced_example =
    update_step-fenced tables "job" "two" "one" held apart_rows found_held refl other_worker 30000
      pending_result named_worker
