-- ===== src/Service/Cluster/Announced.antt =====
-- The event log: which call writes there that a job is completed, and which finish is answered.
use anchora.Prelude.{
  ℕ, String, Bool, true, false, not, ◌&&◌, ◌||◌, ◌⊎◌, inl, inr, Option, some, Option-cases,
  Bool-cases, List, [], ◌∷◌, ◌++◌, ◌≡◌, refl, subst, ◌==◌, Result, Result-elim, arith, contains,
}
use anchora.Redis.{Redis}
use anchora.Queue.{Fault}
use anchora.Queue.Ready.{is_refused}
use anchora.Store.{finish_job}
use anchora.Store.Unique.{job_ids}
use anchora.Store.Registry.{EventRow, Log, new_event, append_event}
use anchora.Service.Program.{Call, Payload}
use anchora.Service.Backend.{event_completed}
use anchora.Service.Cluster.World.{Occasion, World, handle, query, try_query}
use anchora.Service.Cluster.World.Effects.{by_query}
use anchora.Service.Cluster.Outcome.{records}
use anchora.Service.Cluster.Earned.{completes, recorded}

-- The log says that the job is completed.
abbrev pub is_announced : String → List EventRow → Bool
is_announced id [] = false
is_announced id (e ∷ rows) = e.job_id == id && e.type == event_completed || is_announced id rows

is_announced-append :
    (id : String) (rows : List EventRow) (e : EventRow)
    → is_announced id (rows ++ e ∷ []) ≡ true
    → (is_announced id rows ≡ true) ⊎ ((e.job_id == id && e.type == event_completed) ≡ true)
is_announced-append id [] e h = inr (ground (arith, h))
is_announced-append id (r ∷ rows) e h =
    elim (Bool-cases (r.job_id == id && r.type == event_completed)) [
      | inl here ↦ inl (ground (arith, here))
      | inr other ↦ elim (is_announced-append id rows e (ground (arith, h, other))) [
        | inl before ↦ inl (ground (arith, before))
        | inr new ↦ inr new
      ]
    ]

by_try_query :
    {S : Type 0} (P : S → Type 0) (fault : Fault) (f : S → Option S) (s : S)
    → P s
    → ((s' : S) → f s ≡ some s' → P s')
    → P (try_query fault f s).0
by_try_query P fault f s before after = elim (Option-cases (f s)) [
  | inl e ↦ rw (e, try_query) before
  | inr (s', e) ↦ rw (e, try_query) (by_query P fault (λ t. (s', tt {0})) s before (after s' e))
]

append_event-rows :
    (jobs : List String) (job_id type payload : String) (now : ℕ) (log log' : Log)
    → append_event jobs job_id type payload now log ≡ some log'
    → log'.rows ≡ log.rows ++ new_event log.next job_id type payload now ∷ []
unfolding append_event
append_event-rows jobs job_id type payload now log log' e =
    elim (Bool-cases (contains job_id jobs)) [
      | inl known ↦ ground (arith, e, known)
      | inr unknown ↦ absurd (ground (arith, e, unknown))
    ]

module _ (redis : Redis) (name : String) (encode : Payload → Result String String)
    (id : String) where
  -- A new announcement is that of the call.
  pub announces :
      (o : Occasion) (c : Call) (w : World redis name encode)
      → is_announced id (handle redis name encode o c w).0.log.rows ≡ true
      → (is_announced id w.log.rows ≡ true) ⊎ (completes id c ≡ true)
  unfolding handle
  announces o (Call.create a) w = λ h. inl h
  announces o (Call.get a) w = λ h. inl h
  announces o (Call.claim_job a b d) w = λ h. inl h
  announces o (Call.extend_lease a b d) w = λ h. inl h
  announces o (Call.finish_job a b d f) w = λ h. inl h
  announces o (Call.release_job a b) w = λ h. inl h
  announces o (Call.reclaim_expired_jobs a b) w = λ h. inl h
  announces o (Call.claim_step a b d) w = λ h. inl h
  announces o (Call.update_step a b d) w = λ h. inl h
  announces o (Call.append_event k type payload) w =
      Result-elim
        (λ (p : World redis name encode × Result String (Unit {0})).
          is_announced id p.0.log.rows ≡ true
          → (is_announced id w.log.rows ≡ true) ⊎ ((k == id && type == event_completed) ≡ true))
        (encode payload) _ _ (λ e p h. inl h)
        (λ text p.
          by_try_query
            (λ (log : Log).
              is_announced id log.rows ≡ true
              → (is_announced id w.log.rows ≡ true) ⊎ ((k == id && type == event_completed) ≡ true))
            o.fault (append_event (job_ids w.tables.jobs) k type text o.now) w.log (λ h. inl h)
            (λ log e h. is_announced-append id w.log.rows _ (
              subst (λ rows. is_announced id rows ≡ true)
                (append_event-rows (job_ids w.tables.jobs) k type text o.now w.log log e) h)))
  announces o (Call.events k last_seen) w =
      by_query
        (λ (log : Log).
          is_announced id log.rows ≡ true → (is_announced id w.log.rows ≡ true) ⊎ (false ≡ true))
        o.fault _ w.log (λ h. inl h) (λ h. inl h)
  announces o (Call.register_worker a) w = λ h. inl h
  announces o (Call.heartbeat_worker a b) w = λ h. inl h
  announces o (Call.unregister_worker a) w = λ h. inl h
  announces o (Call.prune_workers a) w = λ h. inl h
  announces o (Call.workers a) w = λ h. inl h
  announces o (Call.push a) w = λ h. inl h
  announces o (Call.ack a) w = λ h. inl h
  announces o (Call.requeue a) w = λ h. inl h
  announces o (Call.claim a b) w = λ h. inl h
  announces o (Call.extend a b d) w = λ h. inl h
  announces o (Call.reclaim a) w = λ h. inl h
  announces o Call.depth w = λ h. inl h

  pub recorded-records :
      (o : Occasion) (c : Call) (w : World redis name encode)
      → recorded id c (handle redis name encode o c w).1 ≡ true
      → records redis name encode id o c w ≡ 1
  unfolding handle
  recorded-records o (Call.create a) w h = absurd (cc)
  recorded-records o (Call.get a) w h = absurd (cc)
  recorded-records o (Call.claim_job a b d) w h = absurd (cc)
  recorded-records o (Call.extend_lease a b d) w h = absurd (cc)
  recorded-records o (Call.finish_job k owner status message) w h = rw (answered o.fault h) refl
    where
      answered :
          (fault : Fault)
          → recorded id
              (Call.finish_job k owner status message)
              (query fault (finish_job k owner status message o.now) w.tables.jobs).1
            ≡ true
          → (k == id
              && (not (is_refused fault)
                  && (finish_job k owner status message o.now w.tables.jobs).1))
            ≡ true
      answered Fault.delivered h' =
          elim (Bool-cases (finish_job k owner status message o.now w.tables.jobs).1) [
            | inl held ↦ ground (arith, h', held)
            | inr lost ↦ absurd (ground (arith, h', lost))
          ]
      answered (Fault.refused e) h' = absurd (cc)
      answered (Fault.lost e) h' = absurd (cc)
  recorded-records o (Call.release_job a b) w h = absurd (cc)
  recorded-records o (Call.reclaim_expired_jobs a b) w h = absurd (cc)
  recorded-records o (Call.claim_step a b d) w h = absurd (cc)
  recorded-records o (Call.update_step a b d) w h = absurd (cc)
  recorded-records o (Call.append_event a b d) w h = absurd (cc)
  recorded-records o (Call.events a b) w h = absurd (cc)
  recorded-records o (Call.register_worker a) w h = absurd (cc)
  recorded-records o (Call.heartbeat_worker a b) w h = absurd (cc)
  recorded-records o (Call.unregister_worker a) w h = absurd (cc)
  recorded-records o (Call.prune_workers a) w h = absurd (cc)
  recorded-records o (Call.workers a) w h = absurd (cc)
  recorded-records o (Call.push a) w h = absurd (cc)
  recorded-records o (Call.ack a) w h = absurd (cc)
  recorded-records o (Call.requeue a) w h = absurd (cc)
  recorded-records o (Call.claim a b) w h = absurd (cc)
  recorded-records o (Call.extend a b d) w h = absurd (cc)
  recorded-records o (Call.reclaim a) w h = absurd (cc)
  recorded-records o Call.depth w h = absurd (cc)
