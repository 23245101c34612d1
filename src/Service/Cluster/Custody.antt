-- ===== src/Service/Cluster/Custody.antt =====
-- internal/jobs/jobs.go: which programs have a job in their hands, between the call that took it from
-- the queue or from a worker and the call that gives it on.
pub mod Idle
pub mod Deliveries
pub mod Programs
pub mod Steps
pub mod Calls
use anchora.Prelude.{
  String, Bool, true, false, not, List, [], ◌∷◌, ◌≡◌, refl, ◌⊎◌, inl, inr, contains, ◌==◌, ok, err,
  if◌then◌else◌,
}
use anchora.Store.{is_terminal, is_running}
use anchora.Queue.{Fault}
use anchora.Service.Program.{Call, Response, Program, done, calls, ◌>>=◌}
use anchora.Service.Program.Rules.{Makes}

-- The call gave the caller the job: it came from the queue, or it is of no worker any longer.
abbrev pub takes : String → (c : Call) → Response c → Bool
takes id (Call.claim owner lease) (ok k) = k == id
takes id (Call.release_job k owner) (ok _) = k == id
takes id (Call.reclaim_expired_jobs grace limit) (ok ids) = contains id ids
takes id c response = false

-- The call gives the job on, to the queue or to the worker of the call.
abbrev pub gives : String → Call → Bool
gives id (Call.push k) = k == id
gives id (Call.requeue k) = k == id
gives id (Call.claim_job k owner lease) = k == id
gives id c = false

-- Whatever its calls return, the program gives the job on.
abbrev pub Holds : {A : Type 0} → String → Program A → Type 0
Holds id (done a) = ⊥
Holds id (calls c next) = (gives id c ≡ true) ⊎ ((response : Response c) → Holds id (next response))

-- No job becomes running but by a claim, and a finished one stays so.
abbrev pub is_regular : Call → Bool
is_regular (Call.create job) = not (is_running job.status)
is_regular (Call.finish_job id owner status message) = is_terminal status
is_regular c = true

-- The program gives on each job that it takes.
abbrev pub Hands : {A : Type 0} → String → Program A → Type 0
Hands id (done a) = Unit {0}
Hands id (calls c next) =
    (is_regular c ≡ true)
    × ((response : Response c)
        → (takes id c response ≡ true → Holds id (next response)) × Hands id (next response))

-- The failures by which the job is lost: the call that would give it on is refused, or the answer of
-- the call that took it is lost. The claim of the queue and the sweep of the store do not name the jobs
-- that they take: it may be this one.
abbrev pub drops : String → Fault → Call → Bool
drops id (Fault.refused e) (Call.push k) = k == id
drops id (Fault.refused e) (Call.requeue k) = k == id
drops id (Fault.refused e) (Call.claim_job k owner lease) = k == id
drops id (Fault.lost e) (Call.claim owner lease) = true
drops id (Fault.lost e) (Call.release_job k owner) = k == id
drops id (Fault.lost e) (Call.reclaim_expired_jobs grace limit) = true
drops id fault c = false

-- The call takes no job.
abbrev pub is_idle : Call → Bool
is_idle (Call.claim owner lease) = false
is_idle (Call.release_job id owner) = false
is_idle (Call.reclaim_expired_jobs grace limit) = false
is_idle c = is_regular c

idle-takes :
    (id : String) (c : Call) (r : Response c)
    → is_idle c ≡ true
    → (is_regular c ≡ true) × (takes id c r ≡ false)
idle-takes id (Call.create a) r q = (q, refl)
idle-takes id (Call.get a) r q = (refl, refl)
idle-takes id (Call.claim_job a b d) r q = (refl, refl)
idle-takes id (Call.extend_lease a b d) r q = (refl, refl)
idle-takes id (Call.finish_job a b d f) r q = (q, refl)
idle-takes id (Call.release_job a b) r q = absurd (cc)
idle-takes id (Call.reclaim_expired_jobs a b) r q = absurd (cc)
idle-takes id (Call.claim_step a b d) r q = (refl, refl)
idle-takes id (Call.update_step a b d) r q = (refl, refl)
idle-takes id (Call.append_event a b d) r q = (refl, refl)
idle-takes id (Call.events a b) r q = (refl, refl)
idle-takes id (Call.register_worker a) r q = (refl, refl)
idle-takes id (Call.heartbeat_worker a b) r q = (refl, refl)
idle-takes id (Call.unregister_worker a) r q = (refl, refl)
idle-takes id (Call.prune_workers a) r q = (refl, refl)
idle-takes id (Call.workers a) r q = (refl, refl)
idle-takes id (Call.push a) r q = (refl, refl)
idle-takes id (Call.ack a) r q = (refl, refl)
idle-takes id (Call.requeue a) r q = (refl, refl)
idle-takes id (Call.claim a b) r q = absurd (cc)
idle-takes id (Call.extend a b d) r q = (refl, refl)
idle-takes id (Call.reclaim a) r q = (refl, refl)
idle-takes id Call.depth r q = (refl, refl)

pub Holds->>= :
    {A B : Type 0} (id : String) (p : Program A) (f : A → Program B)
    → Holds id p
    → Holds id (p >>= f)
Holds->>= id (done a) f h = absurd h
Holds->>= id (calls c next) f (inl given) = inl given
Holds->>= id (calls c next) f (inr later) = inr (λ r. Holds->>= id (next r) f (later r))

pub Hands->>= :
    {A B : Type 0} (id : String) (p : Program A) (f : A → Program B)
    → Hands id p
    → ((a : A) → Hands id (f a))
    → Hands id (p >>= f)
Hands->>= id (done a) f h k = k a
Hands->>= id (calls c next) f h k = (
  h.0,
  λ r. (λ taken. Holds->>= id (next r) f ((h.1 r).0 taken), Hands->>= id (next r) f (h.1 r).1 k),
)

pub Hands-if :
    {A : Type 0} (id : String) (p q : Program A) (b : Bool)
    → Hands id p
    → Hands id q
    → Hands id (if b then p else q)
Hands-if id p q true h k = h
Hands-if id p q false h k = k

-- A program that takes no job has none to give on.
pub Hands-of_Makes :
    {A : Type 0} (id : String) (p : Program A) → Makes (λ c. is_idle c ≡ true) p → Hands id p
Hands-of_Makes id (done a) m = tt
Hands-of_Makes id (calls c next) m = (
  (idle-takes id c (err "") m.0).0,
  λ r.
      let (regular, untaken) = idle-takes id c r m.0 in
      ((λ taken. absurd (cc)), Hands-of_Makes id (next r) (m.1 r)),
)
