-- ===== src/Service/Recovery.antt =====
-- internal/jobs/jobs.go, reap: what a sweep pushes and records.
use anchora.Prelude.{
  String, Bool, true, false, ◌||◌, List, [], ◌∷◌, ◌≡◌, refl, contains, All, All-of_contains, ok,
  err, ◌==◌, ==_refl, arith,
}
use anchora.Service.{lease, reclaim_batch, worker_ttl}
use anchora.Service.Program.{Call, Response, Program, Entry, Ensures}
use anchora.Service.Program.Rules.{Ensures->>=, Ensures-weaken, by_response}
use anchora.Service.Backend.{Backend, event_reclaimed}
use anchora.Service.Loops.{announce_all, push_orphans, sweep_queue, sweep_store, reap}

abbrev pub or_orphans : (c : Call) → Response c → List String → List String
or_orphans (Call.reclaim_expired_jobs grace limit) (ok ids) before = ids
or_orphans c response before = before

-- The IDs that the sweep of the store returned.
abbrev pub orphans : List Entry → List String
orphans [] = []
orphans (e ∷ history) = or_orphans e.made e.response (orphans history)

abbrev pub with_attempt : (c : Call) → List String → List String
with_attempt (Call.push id) before = id ∷ before
with_attempt c before = before

-- The IDs that were to be pushed.
abbrev pub attempted : List Entry → List String
attempted [] = []
attempted (e ∷ history) = with_attempt e.made (attempted history)

-- The call returned this job to the queue.
abbrev pub returns : String → (c : Call) → Response c → Bool
returns id (Call.push other) (ok _) = other == id
returns id (Call.reclaim limit) (ok ids) = contains id ids
returns id c response = false

abbrev pub returned : String → List Entry → Bool
returned id [] = false
returned id (e ∷ history) = returns id e.made e.response || returned id history

abbrev pub asked : (Call → Bool) → List Entry → Bool
asked test [] = false
asked test (e ∷ history) = test e.made || asked test history

abbrev pub of_queue : Call → Bool
of_queue (Call.reclaim limit) = true
of_queue c = false

abbrev pub of_store : Call → Bool
of_store (Call.reclaim_expired_jobs grace limit) = true
of_store c = false

abbrev pub of_registry : Call → Bool
of_registry (Call.prune_workers ttl) = true
of_registry c = false

abbrev pub fails : (c : Call) → Response c → Bool
fails (Call.reclaim_expired_jobs grace limit) (err _) = true
fails c response = false

-- The sweep of the store was not answered.
abbrev pub store_failed : List Entry → Bool
store_failed [] = false
store_failed (e ∷ history) = fails e.made e.response || store_failed history

module _ (backend : Backend) where
  -- What a sweep may call.
  abbrev pub Sweeps : List Entry → Call → Type 0
  Sweeps h (Call.reclaim limit) = (h ≡ []) × (limit ≡ reclaim_batch backend.config)
  Sweeps h (Call.reclaim_expired_jobs grace limit) =
      (grace ≡ lease backend.config) × (limit ≡ reclaim_batch backend.config)
  Sweeps h (Call.push id) = contains id (orphans h) ≡ true
  Sweeps h (Call.append_event id type payload) = (type ≡ event_reclaimed) × (returned id h ≡ true)
  Sweeps h (Call.prune_workers ttl) = ttl ≡ worker_ttl backend.config
  Sweeps h c = ⊥

  -- Every orphan was to be pushed.
  abbrev pub Pushed : List Entry → List String → Type 0
  Pushed h ids = All (λ id. contains id (attempted h) ≡ true) ids

  -- A whole sweep: it asked the queue and the store, every job that the store gave up was to be pushed,
  -- and the registry was asked too, unless the store failed.
  abbrev pub IsSwept : List Entry → Type 0
  IsSwept h =
      (asked of_queue h ≡ true)
      × (asked of_store h ≡ true)
      × Pushed h (orphans h)
      × ((asked of_registry h || store_failed h) ≡ true)

  abbrev Asked : List Entry → Type 0
  Asked h = (asked of_queue h ≡ true) × (asked of_store h ≡ true)

  abbrev Found : List Entry → List String → Type 0
  Found h ids = All (λ id. contains id (orphans h) ≡ true) ids

  Pushed-weaken :
      (ids before : List String) (id : String)
      → All (λ k. contains k before ≡ true) ids
      → All (λ k. contains k (id ∷ before) ≡ true) ids
  Pushed-weaken [] before id p = tt
  Pushed-weaken (k ∷ ids) before id p = (ground (arith, p.0), Pushed-weaken ids before id p.1)

  abbrev Swept : List String → List String → List String → List Entry → Unit {0} → Type 0
  Swept pushed ids found h u = Pushed h pushed × Pushed h ids × (orphans h ≡ found) × Asked h

  shift :
      (id : String) (ids pushed found : List String) (p : Program (Unit {0})) (h : List Entry)
      → Ensures Sweeps (Swept (id ∷ pushed) ids found) h p
      → Ensures Sweeps (Swept pushed (id ∷ ids) found) h p
  shift id ids pushed found p h e =
      Ensures-weaken _ _ _ _ (λ h' c q. q) (λ h' u q. (q.0.1, (q.0.0, q.1), q.2, q.3)) p h e

  push_orphans-Swept :
      (ids pushed found : List String) (h : List Entry)
      → Pushed h pushed
      → Found h ids
      → orphans h ≡ found
      → Asked h
      → Ensures Sweeps (Swept pushed ids found) h (push_orphans ids)
  unfolding push_orphans
  push_orphans-Swept [] pushed found h p f e a = (p, tt, e, a)
  push_orphans-Swept (id ∷ ids) pushed found h p f e a = (
    f.0,
    by_response _
        (λ m.
          shift id ids pushed found (push_orphans ids) _
            (push_orphans-Swept ids (id ∷ pushed) found _ (first, kept) f.1 e a))
        (λ u. (
          (refl, again),
          λ r.
              shift id ids pushed found (push_orphans ids) _
                (push_orphans-Swept ids (id ∷ pushed) found _ (first, kept) f.1 e a),
        )),
  )
    where
      first : (id == id || contains id (attempted h)) ≡ true
      first = ground (arith, ==_refl id)

      again : (id == id || returned id h) ≡ true
      again = ground (arith, ==_refl id)

      kept : All (λ k. contains k (id ∷ attempted h) ≡ true) pushed
      kept = Pushed-weaken pushed (attempted h) id p

  announce_all-Sweeps :
      (reason : String) (ids : List String) (h : List Entry)
      → All (λ id. returned id h ≡ true) ids
      → orphans h ≡ []
      → asked of_queue h ≡ true
      → Ensures Sweeps
          (λ h' u. (orphans h' ≡ []) × (asked of_queue h' ≡ true))
          h
          (announce_all reason ids)
  unfolding announce_all
  announce_all-Sweeps reason [] h r e a = (e, a)
  announce_all-Sweeps reason (id ∷ ids) h r e a =
      ((refl, r.0), λ r'. announce_all-Sweeps reason ids _ r.1 e a)

  sweep_queue-Sweeps :
      Ensures Sweeps (λ h u. (orphans h ≡ []) × (asked of_queue h ≡ true)) [] (sweep_queue backend)
  unfolding sweep_queue
  sweep_queue-Sweeps = (
    (refl, refl),
    by_response _ (λ e. (refl, refl))
        (λ ids. announce_all-Sweeps "queue lease expired" ids _ (in_queue ids) refl refl),
  )
    where
      in_queue : (ids : List String) → All (λ id. (contains id ids || false) ≡ true) ids
      in_queue ids = All-of_contains _ ids (λ k m. ground (arith, m))

  sweep_store-Pushed :
      (h : List Entry)
      → orphans h ≡ []
      → asked of_queue h ≡ true
      → Ensures Sweeps (λ h u. IsSwept h) h (sweep_store backend)
  unfolding sweep_store
  sweep_store-Pushed h e a = (
    (refl, refl),
    by_response _ (λ m. (a, refl, rw e tt, ground arith))
        (λ ids.
          Ensures->>= _ _ _ (push_orphans ids) _ _
            (push_orphans-Swept ids [] ids _ tt (All-of_contains _ ids (λ k m. m)) refl (a, refl))
            (λ h' u q. (refl, λ r. (q.3.0, q.3.1, rw q.2 q.1, refl)))),
  )

  pub reap-Pushed : Ensures Sweeps (λ h u. IsSwept h) [] (reap backend)
  unfolding reap
  reap-Pushed =
      Ensures->>= _ _ _ (sweep_queue backend) _ [] sweep_queue-Sweeps
        (λ h u e. sweep_store-Pushed h e.0 e.1)
