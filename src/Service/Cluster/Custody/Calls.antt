-- ===== src/Service/Cluster/Custody/Calls.antt =====
-- What one call does to the place of a job: whether it is settled, or ready in the queue, or goes to
-- the caller.
use anchora.Prelude.{
  String, ◌≡◌, refl, sym, ◌∙◌, subst, true, false, ◌⊎◌, inl, inr, contains, ==_iff, Result,
  Result-elim,
}
use anchora.Prelude.Int.{pos_part}
use anchora.Redis.{Redis}
use anchora.Queue.{ready}
use anchora.Queue.Ready.{
  push-keeps, ack-keeps, requeue-keeps, extend-keeps, reclaim-keeps, claim-keeps, push-puts,
  requeue-puts,
}
use anchora.Store.{JobRow}
use anchora.Store.Rows.{act, find-exec}
use anchora.Store.Settled.{is_settled, act-IsConsistent, act-is_settled}
use anchora.Service.Program.{Call, Payload}
use anchora.Service.Cluster.World.{Occasion, World, handle}
use anchora.Service.Cluster.World.Effects.{is_handing_call, handle-Alters}
use anchora.Service.Cluster.Custody.{takes, gives, is_regular, drops}
use anchora.Service.Cluster.Custody.Steps.{
  claim-answered, push-ran, requeue-ran, Found, IsSettledIn, claim_job-settles, release_job-takes,
  reclaim_expired_jobs-takes,
}

module _ (redis : Redis) (name : String) (encode : Payload → Result String String)
    (id : String) where
  -- The job is ready in the queue.
  abbrev pub IsReady : World redis name encode → Type 0
  IsReady w = contains id (ready redis name w.db) ≡ true

  -- No call removes a job from the table.
  pub handle-Found :
      (o : Occasion) (c : Call) (w : World redis name encode) (row : JobRow)
      → Found id w.tables.jobs row
      → is_regular c ≡ true
      → (row' : JobRow) × Found id (handle redis name encode o c w).0.tables.jobs row'
        × (is_handing_call c ≡ false → is_settled row ≡ true → is_settled row' ≡ true)
  handle-Found o c w row found regular = elim (handle-Alters redis name encode o c w) [
    | inl same ↦ (row, subst (λ rows. Found id rows row) (sym same) found, λ other s. s)
    | inr (op, now, same, plain, hands, named) ↦ (
      act op now w.tables.jobs row,
      subst (λ rows. Found id rows (act op now w.tables.jobs row)) (sym same)
          (
            find-exec op now id w.tables.jobs row found.0,
            act-IsConsistent op now w.tables.jobs row (plain regular) found.1,
          ),
      λ other s. act-is_settled op now w.tables.jobs row (plain regular) (hands ∙ other) s,
    )
  ]

  -- A ready job stays ready, unless the call is the claim that returns it.
  pub handle-IsReady :
      (o : Occasion) (c : Call) (w : World redis name encode)
      → drops id o.fault c ≡ false
      → IsReady w
      → IsReady (handle redis name encode o c w).0
        ⊎ (takes id c (handle redis name encode o c w).1 ≡ true)
  unfolding handle
  handle-IsReady o (Call.create job) w d h = inl h
  handle-IsReady o (Call.get k) w d h = inl h
  handle-IsReady o (Call.claim_job k owner lease) w d h = inl h
  handle-IsReady o (Call.extend_lease k owner lease) w d h = inl h
  handle-IsReady o (Call.finish_job k owner status message) w d h = inl h
  handle-IsReady o (Call.release_job k owner) w d h = inl h
  handle-IsReady o (Call.reclaim_expired_jobs grace limit) w d h = inl h
  handle-IsReady o (Call.claim_step job_id step_id owner) w d h = inl h
  handle-IsReady o (Call.update_step job_id owner result) w d h = inl h
  handle-IsReady o (Call.append_event k type payload) w d h = inl (
      Result-elim (λ (p : World redis name encode × Result String (Unit {0})). IsReady p.0)
        (encode payload) _ _ (λ e p. h) (λ text p. h))
  handle-IsReady o (Call.events k last_seen) w d h = inl h
  handle-IsReady o (Call.register_worker info) w d h = inl h
  handle-IsReady o (Call.heartbeat_worker k claimed) w d h = inl h
  handle-IsReady o (Call.unregister_worker k) w d h = inl h
  handle-IsReady o (Call.prune_workers ttl) w d h = inl h
  handle-IsReady o (Call.workers ttl) w d h = inl h
  handle-IsReady o (Call.push k) w d h = inl (push-keeps redis name o.fault k id w.db h)
  handle-IsReady o (Call.ack k) w d h = inl (ack-keeps redis name o.fault k id w.db h)
  handle-IsReady o (Call.requeue k) w d h = inl (requeue-keeps redis name o.fault k id w.db h)
  handle-IsReady o (Call.claim owner lease) w d h =
      elim (claim-keeps redis name o.fault o.wait owner o.clock (pos_part lease) id w.db
        (claim-answered id o.fault owner lease d) h) [
          | inl kept ↦ inl kept
          | inr (k, answered, same) ↦
              inr (subst (λ r. takes id (Call.claim owner lease) r ≡ true) (sym answered) same)
        ]
  handle-IsReady o (Call.extend k owner lease) w d h =
      inl (extend-keeps redis name o.fault k owner o.clock (pos_part lease) id w.db h)
  handle-IsReady o (Call.reclaim limit) w d h =
      inl (reclaim-keeps redis name o.fault o.clock limit id w.db h)
  handle-IsReady o Call.depth w d h = inl h

  stays_settled :
      (o : Occasion) (c : Call) (w : World redis name encode)
      → is_handing_call c ≡ false
      → is_regular c ≡ true
      → IsSettledIn id w.tables.jobs
      → IsSettledIn id (handle redis name encode o c w).0.tables.jobs
  stays_settled o c w other regular (row, found, settled) =
      let (row', found', keeps) = handle-Found o c w row found regular in
      (row', found', keeps other settled)

  -- A settled job stays settled, unless the call takes it from its worker and returns it.
  pub handle-settled :
      (o : Occasion) (c : Call) (w : World redis name encode)
      → drops id o.fault c ≡ false
      → is_regular c ≡ true
      → IsSettledIn id w.tables.jobs
      → IsSettledIn id (handle redis name encode o c w).0.tables.jobs
        ⊎ (takes id c (handle redis name encode o c w).1 ≡ true)
  unfolding handle
  handle-settled o (Call.release_job k owner) w d regular (row, found, settled) =
      release_job-takes id o.now w.tables.jobs row found settled o.fault k owner d
  handle-settled o (Call.reclaim_expired_jobs grace limit) w d regular (row, found, settled) =
      reclaim_expired_jobs-takes id o.now w.tables.jobs row found settled o.fault o.select grace
        limit d
  handle-settled o (Call.create job) w d regular s =
      inl (stays_settled o (Call.create job) w refl regular s)
  handle-settled o (Call.get k) w d regular s = inl (stays_settled o (Call.get k) w refl regular s)
  handle-settled o (Call.claim_job k owner lease) w d regular s =
      inl (stays_settled o (Call.claim_job k owner lease) w refl regular s)
  handle-settled o (Call.extend_lease k owner lease) w d regular s =
      inl (stays_settled o (Call.extend_lease k owner lease) w refl regular s)
  handle-settled o (Call.finish_job k owner status message) w d regular s =
      inl (stays_settled o (Call.finish_job k owner status message) w refl regular s)
  handle-settled o (Call.claim_step job_id step_id owner) w d regular s =
      inl (stays_settled o (Call.claim_step job_id step_id owner) w refl regular s)
  handle-settled o (Call.update_step job_id owner result) w d regular s =
      inl (stays_settled o (Call.update_step job_id owner result) w refl regular s)
  handle-settled o (Call.append_event k type payload) w d regular s =
      inl (stays_settled o (Call.append_event k type payload) w refl regular s)
  handle-settled o (Call.events k last_seen) w d regular s =
      inl (stays_settled o (Call.events k last_seen) w refl regular s)
  handle-settled o (Call.register_worker info) w d regular s =
      inl (stays_settled o (Call.register_worker info) w refl regular s)
  handle-settled o (Call.heartbeat_worker k claimed) w d regular s =
      inl (stays_settled o (Call.heartbeat_worker k claimed) w refl regular s)
  handle-settled o (Call.unregister_worker k) w d regular s =
      inl (stays_settled o (Call.unregister_worker k) w refl regular s)
  handle-settled o (Call.prune_workers ttl) w d regular s =
      inl (stays_settled o (Call.prune_workers ttl) w refl regular s)
  handle-settled o (Call.workers ttl) w d regular s =
      inl (stays_settled o (Call.workers ttl) w refl regular s)
  handle-settled o (Call.push k) w d regular s =
      inl (stays_settled o (Call.push k) w refl regular s)
  handle-settled o (Call.ack k) w d regular s = inl (stays_settled o (Call.ack k) w refl regular s)
  handle-settled o (Call.requeue k) w d regular s =
      inl (stays_settled o (Call.requeue k) w refl regular s)
  handle-settled o (Call.claim owner lease) w d regular s =
      inl (stays_settled o (Call.claim owner lease) w refl regular s)
  handle-settled o (Call.extend k owner lease) w d regular s =
      inl (stays_settled o (Call.extend k owner lease) w refl regular s)
  handle-settled o (Call.reclaim limit) w d regular s =
      inl (stays_settled o (Call.reclaim limit) w refl regular s)
  handle-settled o Call.depth w d regular s = inl (stays_settled o Call.depth w refl regular s)

  -- A job that is given on becomes settled or ready.
  pub handle-gives :
      (o : Occasion) (c : Call) (w : World redis name encode) (row : JobRow)
      → drops id o.fault c ≡ false
      → Found id w.tables.jobs row
      → gives id c ≡ true
      → IsSettledIn id (handle redis name encode o c w).0.tables.jobs
        ⊎ IsReady (handle redis name encode o c w).0
  unfolding handle
  handle-gives o (Call.push k) w row d found given = inr (
      subst
        (λ j.
          contains id (ready redis name (handle redis name encode o (Call.push j) w).0.db) ≡ true)
        (sym ((==_iff k id).0 given))
        (push-puts redis name o.fault id w.db (push-ran id o.fault k given d)))
  handle-gives o (Call.requeue k) w row d found given = inr (
      subst
        (λ j.
          contains id (ready redis name (handle redis name encode o (Call.requeue j) w).0.db)
          ≡ true)
        (sym ((==_iff k id).0 given))
        (requeue-puts redis name o.fault id w.db (requeue-ran id o.fault k given d)))
  handle-gives o (Call.claim_job k owner lease) w row d found given = inl (
      claim_job-settles id o.now w.tables.jobs row found o.fault k owner (pos_part lease) lease d
        given)
  handle-gives o (Call.create job) w row d found given = absurd (cc)
  handle-gives o (Call.get k) w row d found given = absurd (cc)
  handle-gives o (Call.extend_lease k owner lease) w row d found given = absurd (cc)
  handle-gives o (Call.finish_job k owner status message) w row d found given = absurd (cc)
  handle-gives o (Call.claim_step job_id step_id owner) w row d found given = absurd (cc)
  handle-gives o (Call.update_step job_id owner result) w row d found given = absurd (cc)
  handle-gives o (Call.append_event k type payload) w row d found given = absurd (cc)
  handle-gives o (Call.events k last_seen) w row d found given = absurd (cc)
  handle-gives o (Call.register_worker info) w row d found given = absurd (cc)
  handle-gives o (Call.heartbeat_worker k claimed) w row d found given = absurd (cc)
  handle-gives o (Call.unregister_worker k) w row d found given = absurd (cc)
  handle-gives o (Call.prune_workers ttl) w row d found given = absurd (cc)
  handle-gives o (Call.workers ttl) w row d found given = absurd (cc)
  handle-gives o (Call.ack k) w row d found given = absurd (cc)
  handle-gives o (Call.claim owner lease) w row d found given = absurd (cc)
  handle-gives o (Call.extend k owner lease) w row d found given = absurd (cc)
  handle-gives o (Call.reclaim limit) w row d found given = absurd (cc)
  handle-gives o Call.depth w row d found given = absurd (cc)
  handle-gives o (Call.release_job k owner) w row d found given = absurd (cc)
  handle-gives o (Call.reclaim_expired_jobs grace limit) w row d found given = absurd (cc)
