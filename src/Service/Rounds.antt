-- ===== src/Service/Rounds.antt =====
-- internal/jobs/jobs.go, RunWorker: what the registry of workers is told.
use anchora.Prelude.{
  ℕ, zero, suc, ◌+◌, String, Bool, true, false, List, [], ◌∷◌, ◌≡◌, refl, ok, ◌==◌, ◌||◌, err,
  arith, if◌then◌else◌,
}
use anchora.Prelude.Int.{ℤ, pos}
use anchora.Store.Registry.{WorkerInfo}
use anchora.Service.{lease}
use anchora.Service.Program.{Call, Response, Program, done, calls, Entry, Ensures}
use anchora.Service.Program.Rules.{Ensures->>=, Ensures-if, by_response, Makes, Makes-of_Ensures}
use anchora.Service.Backend.{Backend, next_backoff}
use anchora.Service.Attempt.{Circumstances}
use anchora.Service.Worker.{process}
use anchora.Service.Loops.{
  Turn, WorkerEnd, ended, running, unregistered, report, alongside, work, leave, run_worker,
}
use anchora.Service.Discipline.{Permitted}
use anchora.Service.Discipline.Processing.{process-Permitted}

abbrev pub with_report : Call → ℕ → ℕ
with_report (Call.heartbeat_worker id claimed) before = before + claimed
with_report c before = before

-- How many deliveries the heartbeats have told the registry of.
abbrev pub reported : List Entry → ℕ
reported [] = 0
reported (e ∷ history) = with_report e.made (reported history)

abbrev pub with_delivery : (c : Call) → Response c → ℕ → ℕ
with_delivery (Call.claim owner lease) (ok id) before = if id == "" then before else suc before
with_delivery c response before = before

-- How many claims of the queue have returned a job.
abbrev pub delivered : List Entry → ℕ
delivered [] = 0
delivered (e ∷ history) = with_delivery e.made e.response (delivered history)

-- The call put the worker on the registry.
abbrev pub registers : (c : Call) → Response c → Bool
registers (Call.register_worker info) (ok _) = true
registers c response = false

abbrev pub registered : List Entry → Bool
registered [] = false
registered (e ∷ history) = registers e.made e.response || registered history

-- There was one call, a registration, and it failed.
abbrev pub turned_away : List Entry → Bool
turned_away (e ∷ []) = is_refused e.made e.response
  where
    is_refused : (c : Call) → Response c → Bool
    is_refused (Call.register_worker info) (err _) = true
    is_refused c response = false
turned_away history = false

abbrev is_quiet : Call → Bool
is_quiet (Call.heartbeat_worker id claimed) = false
is_quiet (Call.claim owner lease) = false
is_quiet (Call.register_worker info) = false
is_quiet (Call.unregister_worker id) = false
is_quiet c = true

module _ (backend : Backend) (worker : String) where
  -- What RunWorker calls: a registration first of all, and whatever else once that has succeeded. Each
  -- heartbeat tells the registry of all deliveries since the last.
  abbrev pub Counts : List Entry → Call → Type 0
  Counts h (Call.register_worker info) = (info.id ≡ worker) × (h ≡ [])
  Counts h (Call.heartbeat_worker id claimed) =
      (id ≡ worker) × (registered h ≡ true) × (reported h + claimed ≡ delivered h)
  Counts h (Call.unregister_worker id) = (id ≡ worker) × (registered h ≡ true)
  Counts h (Call.claim owner duration) =
      (owner ≡ worker) × (duration ≡ lease backend.config) × (registered h ≡ true)
  Counts h c = registered h ≡ true

  Permitted-quiet :
      (id : String) (h : List Entry) (c : Call)
      → Permitted backend worker id h c
      → is_quiet c ≡ true
  Permitted-quiet id h (Call.create a) p = refl
  Permitted-quiet id h (Call.get a) p = refl
  Permitted-quiet id h (Call.claim_job a b d) p = refl
  Permitted-quiet id h (Call.extend_lease a b d) p = refl
  Permitted-quiet id h (Call.finish_job a b d e') p = refl
  Permitted-quiet id h (Call.release_job a b) p = refl
  Permitted-quiet id h (Call.reclaim_expired_jobs a b) p = refl
  Permitted-quiet id h (Call.claim_step a b d) p = refl
  Permitted-quiet id h (Call.update_step a b d) p = refl
  Permitted-quiet id h (Call.append_event a b d) p = refl
  Permitted-quiet id h (Call.events a b) p = refl
  Permitted-quiet id h (Call.register_worker a) p = absurd p
  Permitted-quiet id h (Call.heartbeat_worker a b) p = absurd p
  Permitted-quiet id h (Call.unregister_worker a) p = absurd p
  Permitted-quiet id h (Call.prune_workers a) p = refl
  Permitted-quiet id h (Call.workers a) p = refl
  Permitted-quiet id h (Call.push a) p = refl
  Permitted-quiet id h (Call.ack a) p = refl
  Permitted-quiet id h (Call.requeue a) p = refl
  Permitted-quiet id h (Call.claim a b) p = absurd p
  Permitted-quiet id h (Call.extend a b d) p = refl
  Permitted-quiet id h (Call.reclaim a) p = refl
  Permitted-quiet id h Call.depth p = refl

  Counts-quiet : (h : List Entry) (c : Call) → is_quiet c ≡ true → registered h ≡ true → Counts h c
  Counts-quiet h (Call.create a) q k = k
  Counts-quiet h (Call.get a) q k = k
  Counts-quiet h (Call.claim_job a b d) q k = k
  Counts-quiet h (Call.extend_lease a b d) q k = k
  Counts-quiet h (Call.finish_job a b d e') q k = k
  Counts-quiet h (Call.release_job a b) q k = k
  Counts-quiet h (Call.reclaim_expired_jobs a b) q k = k
  Counts-quiet h (Call.claim_step a b d) q k = k
  Counts-quiet h (Call.update_step a b d) q k = k
  Counts-quiet h (Call.append_event a b d) q k = k
  Counts-quiet h (Call.events a b) q k = k
  Counts-quiet h (Call.register_worker a) q k = absurd (cc)
  Counts-quiet h (Call.heartbeat_worker a b) q k = absurd (cc)
  Counts-quiet h (Call.unregister_worker a) q k = absurd (cc)
  Counts-quiet h (Call.prune_workers a) q k = k
  Counts-quiet h (Call.workers a) q k = k
  Counts-quiet h (Call.push a) q k = k
  Counts-quiet h (Call.ack a) q k = k
  Counts-quiet h (Call.requeue a) q k = k
  Counts-quiet h (Call.claim a b) q k = absurd (cc)
  Counts-quiet h (Call.extend a b d) q k = k
  Counts-quiet h (Call.reclaim a) q k = k
  Counts-quiet h Call.depth q k = k

  abbrev Counted : ℕ → List Entry → Type 0
  Counted claimed h = (registered h ≡ true) × (reported h + claimed ≡ delivered h)

  Counted-quiet :
      (claimed : ℕ) (h : List Entry) (c : Call) (r : Response c)
      → is_quiet c ≡ true
      → Counted claimed h
      → Counted claimed (record { made = c; response = r } ∷ h)
  Counted-quiet claimed h (Call.create a) r q e = e
  Counted-quiet claimed h (Call.get a) r q e = e
  Counted-quiet claimed h (Call.claim_job a b d) r q e = e
  Counted-quiet claimed h (Call.extend_lease a b d) r q e = e
  Counted-quiet claimed h (Call.finish_job a b d e') r q e = e
  Counted-quiet claimed h (Call.release_job a b) r q e = e
  Counted-quiet claimed h (Call.reclaim_expired_jobs a b) r q e = e
  Counted-quiet claimed h (Call.claim_step a b d) r q e = e
  Counted-quiet claimed h (Call.update_step a b d) r q e = e
  Counted-quiet claimed h (Call.append_event a b d) r q e = e
  Counted-quiet claimed h (Call.events a b) r q e = e
  Counted-quiet claimed h (Call.register_worker a) r q e = absurd (cc)
  Counted-quiet claimed h (Call.heartbeat_worker a b) r q e = absurd (cc)
  Counted-quiet claimed h (Call.unregister_worker a) r q e = absurd (cc)
  Counted-quiet claimed h (Call.prune_workers a) r q e = e
  Counted-quiet claimed h (Call.workers a) r q e = e
  Counted-quiet claimed h (Call.push a) r q e = e
  Counted-quiet claimed h (Call.ack a) r q e = e
  Counted-quiet claimed h (Call.requeue a) r q e = e
  Counted-quiet claimed h (Call.claim a b) r q e = absurd (cc)
  Counted-quiet claimed h (Call.extend a b d) r q e = e
  Counted-quiet claimed h (Call.reclaim a) r q e = e
  Counted-quiet claimed h Call.depth r q e = e

  report-Counts :
      (n claimed : ℕ) (h : List Entry)
      → Counted claimed h
      → Ensures Counts (λ h' left. Counted left h') h (report worker n claimed)
  unfolding report
  report-Counts zero claimed h e = e
  report-Counts (suc n) claimed h e = ((refl, e.0, e.1), λ r. report-Counts n 0 _ (e.0, next e.1))
    where
      next : reported h + claimed ≡ delivered h → reported h + claimed + 0 ≡ delivered h
      next count = omega arith

  -- Calls that do not concern the registry or the claims leave the count as it is, whenever the
  -- heartbeat ticks between them.
  alongside-Counts :
      {A : Type 0} (ticks : List ℕ) (claimed : ℕ) (p : Program A) (h : List Entry)
      → Makes (λ c. is_quiet c ≡ true) p
      → Counted claimed h
      → Ensures Counts (λ h' left. Counted left h') h (alongside worker ticks claimed p)
  unfolding alongside
  alongside-Counts ticks claimed (done a) h m e = e
  alongside-Counts [] claimed (calls c next) h m e = (
    Counts-quiet h c m.0 e.0,
    λ r. alongside-Counts [] claimed (next r) _ (m.1 r) (Counted-quiet claimed h c r m.0 e),
  )
  alongside-Counts (n ∷ ticks) claimed (calls c next) h m e =
      Ensures->>= _ _ _ (report worker n claimed) _ h (report-Counts n claimed h e) (λ h' left e'. (
        Counts-quiet h' c m.0 e'.0,
        λ r. alongside-Counts ticks left (next r) _ (m.1 r) (Counted-quiet left h' c r m.0 e'),
      ))

  process-is_quiet :
      (id : String) (c : Circumstances)
      → Makes (λ d. is_quiet d ≡ true) (process backend worker id c)
  process-is_quiet id c =
      Makes-of_Ensures _ _ _ (Permitted-quiet id) (process backend worker id c) []
        (process-Permitted backend worker id c)

  -- The loop does not end for want of a registration.
  abbrev Stopped : WorkerEnd → Type 0
  Stopped ended = Unit {0}
  Stopped running = Unit {0}
  Stopped (unregistered e) = ⊥

  work-Counts :
      (turns : List Turn) (waited : ℤ) (claimed : ℕ) (h : List Entry)
      → Counted claimed h
      → Ensures Counts
          (λ h' end. (registered h' ≡ true) × Stopped end)
          h
          (work backend worker turns waited claimed)
  unfolding work
  work-Counts [] waited claimed h e = (e.0, tt)
  work-Counts (t ∷ turns) waited claimed h e =
      Ensures->>= _ _ _ (report worker t.reports claimed) _ h (report-Counts t.reports claimed h e)
        (λ h' left e'.
          Ensures-if _ _ t.stopped _ _ h' (λ b. (e'.0, tt))
            (λ b. (
              (refl, refl, e'.0),
              by_response _
                  (λ m.
                    Ensures-if _ _ t.stopped_after _ _ _ (λ a. (e'.0, tt))
                      (λ a.
                        Ensures->>= _ _ _ (report worker t.reports_waiting left) _ _
                          (report-Counts t.reports_waiting left _ e')
                          (λ h'' left' e''.
                            Ensures-if _ _ t.slept _ _ _
                              (λ d. work-Counts turns (next_backoff waited) left' _ e'')
                              (λ d. (e''.0, tt)))))
                  (λ id.
                    Ensures-if _ _ (id == "") _ _ _
                      (λ a. work-Counts turns (pos 0) left _ (e'.0, ground (arith, a, e'.1)))
                      (λ a.
                        Ensures->>= _ _ _
                          (alongside worker t.reports_during (suc left)
                            (process backend worker id t.circumstances))
                          _ _
                          (alongside-Counts t.reports_during (suc left)
                            (process backend worker id t.circumstances) _
                            (process-is_quiet id t.circumstances) (e'.0, ground (arith, a, e'.1)))
                          (λ h'' left' e''. work-Counts turns (pos 0) left' h'' e''))),
            )))

  -- The last call took the worker off the registry.
  abbrev pub left_registry : List Entry → Bool
  left_registry [] = false
  left_registry (e ∷ history) = unregisters e.made
    where
      unregisters : Call → Bool
      unregisters (Call.unregister_worker id) = true
      unregisters c = false

  -- How a worker ends: it is registered, and off the registry at last if its context has ended, or it
  -- made no call but the registration, which failed.
  abbrev pub Leaves : List Entry → WorkerEnd → Type 0
  Leaves h ended = (registered h ≡ true) × (left_registry h ≡ true)
  Leaves h running = registered h ≡ true
  Leaves h (unregistered e) = turned_away h ≡ true

  leave-Leaves :
      (end : WorkerEnd) (h : List Entry)
      → registered h ≡ true
      → Stopped end
      → Ensures Counts Leaves h (leave worker end)
  unfolding leave
  leave-Leaves ended h k s = ((refl, k), λ r. (k, refl))
  leave-Leaves running h k s = k
  leave-Leaves (unregistered e) h k s = absurd s

-- Whatever the calls return, and between whichever calls the heartbeat ticks: a worker registers
-- first, and makes any other call only once it is registered; each heartbeat tells the registry of
-- exactly the deliveries since the last one; and a worker whose context ends leaves the registry.
pub run_worker-Counts :
    (backend : Backend) (info : WorkerInfo) (turns : List Turn)
    → Ensures (Counts backend info.id) (Leaves backend info.id) [] (run_worker backend info turns)
unfolding run_worker
run_worker-Counts backend info turns = (
  (refl, refl),
  by_response _ (λ e. refl)
      (λ u.
        Ensures->>= _ _ _ (work backend info.id turns (pos 0) 0) _ _
          (work-Counts backend info.id turns (pos 0) 0 _ (refl, refl))
          (λ h end s. leave-Leaves backend info.id end h s.0 s.1)),
)
