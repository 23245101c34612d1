-- ===== src/Service/Cluster/Outcome/Records.antt =====
-- internal/jobs/store.go, FinishJob: a call that records an outcome ends the job, and none does afterwards.
use anchora.Prelude.{
  ℕ, String, ◌≡◌, refl, sym, ap, ◌∙◌, subst, true, false, not, ◌&&◌, ◌||◌, ◌⊎◌, inl, inr, some,
  Bool-cases, List, [], ◌∷◌, Result, ◌==◌, ==_iff, Distinct, arith,
}
use anchora.Redis.{Redis}
use anchora.Queue.{Fault}
use anchora.Queue.Ready.{is_refused}
use anchora.Workflow.{Status, Message}
use anchora.Store.{
  JobRow, Operation, find_job, finish_job, exec, exec_all, is_terminal, owned_by, is_unowned,
}
use anchora.Store.Rows.{act, find-exec, found_id}
use anchora.Store.Answers.{finish_job_lem}
use anchora.Store.Ownership.{finishes_unowned, exec_all-terminal}
use anchora.Store.Unique.{job_ids, exec-Distinct}
use anchora.Service.Program.{Call, Payload}
use anchora.Service.Cluster.World.{Occasion, World, handle, query}
use anchora.Service.Cluster.World.Effects.{handle-Alters}
use anchora.Service.Cluster.Outcome.{records, IsFinal, IsTame}

module _ (redis : Redis) (name : String) (encode : Payload → Result String String)
    (id : String) where
  pub handle-Distinct :
      (o : Occasion) (c : Call) (w : World redis name encode)
      → Distinct (job_ids w.tables.jobs)
      → Distinct (job_ids (handle redis name encode o c w).0.tables.jobs)
  handle-Distinct o c w u = elim (handle-Alters redis name encode o c w) [
    | inl same ↦ subst (λ rows. Distinct (job_ids rows)) (sym same) u
    | inr (op, now, same, plain, hands, named) ↦
        subst (λ rows. Distinct (job_ids rows)) (sym same) (exec-Distinct op now w.tables.jobs u)
  ]

  exec-IsFinal :
      (op : Operation) (now : ℕ) (rows : List JobRow)
      → finishes_unowned id op ≡ false
      → IsFinal id rows
      → IsFinal id (exec op now rows)
  unfolding exec_all
  exec-IsFinal op now rows other (row, found, terminal, unowned) = (
    row,
    exec_all-terminal ((now, op) ∷ []) id rows row found terminal unowned (
      ap (λ k. finishes_unowned k op) ((==_iff row.id id).0 (found_id id rows row found)) ∙ other,
      tt,
    ),
    terminal,
    unowned,
  )

  -- A finished job stays as it is.
  pub handle-IsFinal :
      (o : Occasion) (c : Call) (w : World redis name encode)
      → IsTame id c
      → IsFinal id w.tables.jobs
      → IsFinal id (handle redis name encode o c w).0.tables.jobs
  handle-IsFinal o c w tame final = elim (handle-Alters redis name encode o c w) [
    | inl same ↦ subst (IsFinal id) (sym same) final
    | inr (op, now, same, plain, hands, named) ↦
        subst (IsFinal id) (sym same) (exec-IsFinal op now w.tables.jobs (named id tame.1) final)
  ]

  module _ (now : ℕ) (rows : List JobRow) (distinct : Distinct (job_ids rows)) where
    -- No worker owns a finished job, so that none can finish it again.
    finish_job-refuses :
        (k owner : String) (status : Status) (message : Message)
        → (k == id) ≡ true
        → (owner == "") ≡ false
        → IsFinal id rows
        → (finish_job k owner status message now rows).1 ≡ false
    finish_job-refuses k owner status message same other (row, found, terminal, unowned) =
        subst (λ j. (finish_job j owner status message now rows).1 ≡ false)
          (sym ((==_iff k id).0 same))
          ((finish_job_lem id owner now rows row distinct found status message).0
            ∙ ground (arith, unowned, other))

    finish_job-IsFinal :
        (k owner : String) (status : Status) (message : Message) (row : JobRow)
        → find_job id rows ≡ some row
        → (k == id) ≡ true
        → is_terminal status ≡ true
        → (finish_job k owner status message now rows).1 ≡ true
        → IsFinal id (exec (Operation.finishes k owner status message) now rows)
    finish_job-IsFinal k owner status message row found same terminal answered =
        let here = (==_iff k id).0 same in
        let free : (owned_by owner row || owner == "" && is_unowned row) ≡ true =
          sym (finish_job_lem id owner now rows row distinct found status message).0
          ∙ ap (λ j. (finish_job j owner status message now rows).1) (sym here)
          ∙ answered in
        let own : (row.id == k) ≡ true =
          subst (λ j. (row.id == j) ≡ true) (sym here) (found_id id rows row found) in
        (
          act (Operation.finishes k owner status message) now rows row,
          find-exec (Operation.finishes k owner status message) now id rows row found,
          ground (arith, free, own, terminal),
          ground (arith, free, own),
        )

  -- No outcome of a finished job is recorded.
  pub records-final :
      (o : Occasion) (c : Call) (w : World redis name encode)
      → Distinct (job_ids w.tables.jobs)
      → IsTame id c
      → IsFinal id w.tables.jobs
      → records redis name encode id o c w ≡ 0
  records-final o (Call.finish_job k owner status message) w distinct tame final =
      elim (Bool-cases (k == id)) [
        | inl same ↦
            let refused =
              finish_job-refuses o.now w.tables.jobs distinct k owner status message same
                (others k owner same tame.1) final in
            ground (arith, refused)
        | inr other ↦ ground (arith, other)
      ]
    where
      others :
          (k owner : String)
          → (k == id) ≡ true
          → not (id == k && owner == "") ≡ true
          → (owner == "") ≡ false
      others k owner same named =
          let back : (id == k) ≡ true = (==_iff id k).1 (sym ((==_iff k id).0 same)) in
          ground (arith, back, named)
  records-final o (Call.create job) w distinct tame final = refl
  records-final o (Call.get k) w distinct tame final = refl
  records-final o (Call.claim_job k owner lease) w distinct tame final = refl
  records-final o (Call.extend_lease k owner lease) w distinct tame final = refl
  records-final o (Call.release_job k owner) w distinct tame final = refl
  records-final o (Call.reclaim_expired_jobs grace limit) w distinct tame final = refl
  records-final o (Call.claim_step job_id step_id owner) w distinct tame final = refl
  records-final o (Call.update_step job_id owner result) w distinct tame final = refl
  records-final o (Call.append_event k type payload) w distinct tame final = refl
  records-final o (Call.events k last_seen) w distinct tame final = refl
  records-final o (Call.register_worker info) w distinct tame final = refl
  records-final o (Call.heartbeat_worker k claimed) w distinct tame final = refl
  records-final o (Call.unregister_worker k) w distinct tame final = refl
  records-final o (Call.prune_workers ttl) w distinct tame final = refl
  records-final o (Call.workers ttl) w distinct tame final = refl
  records-final o (Call.push k) w distinct tame final = refl
  records-final o (Call.ack k) w distinct tame final = refl
  records-final o (Call.requeue k) w distinct tame final = refl
  records-final o (Call.claim owner lease) w distinct tame final = refl
  records-final o (Call.extend k owner lease) w distinct tame final = refl
  records-final o (Call.reclaim limit) w distinct tame final = refl
  records-final o Call.depth w distinct tame final = refl

  module _ (now : ℕ) (rows : List JobRow) (row : JobRow) (found : find_job id rows ≡ some row)
      (distinct : Distinct (job_ids rows)) (k owner : String) (status : Status) (message : Message)
      (terminal : is_terminal status ≡ true) where
    abbrev Recorded : Fault → Type 0
    Recorded fault =
        ((k == id && (not (is_refused fault) && (finish_job k owner status message now rows).1))
          ≡ false)
        ⊎ (((k == id && (not (is_refused fault) && (finish_job k owner status message now rows).1))
              ≡ true)
            × IsFinal id (query fault (finish_job k owner status message now) rows).0)

    run-Recorded :
        ((k == id && (finish_job k owner status message now rows).1) ≡ false)
        ⊎ (((k == id && (finish_job k owner status message now rows).1) ≡ true)
            × IsFinal id (finish_job k owner status message now rows).0)
    unfolding exec
    run-Recorded = elim (Bool-cases (k == id && (finish_job k owner status message now rows).1)) [
      | inl both ↦ inr (
        both,
        finish_job-IsFinal now rows distinct k owner status message row found (ground (arith, both))
            terminal (ground (arith, both)),
      )
      | inr neither ↦ inl neither
    ]

    query-Recorded : (fault : Fault) → Recorded fault
    query-Recorded Fault.delivered = run-Recorded
    query-Recorded (Fault.refused e) = inl (ground arith)
    query-Recorded (Fault.lost e) = run-Recorded

  -- A call that records redis name encode id an outcome finishes the job.
  pub records-cases :
      (o : Occasion) (c : Call) (w : World redis name encode) (row : JobRow)
      → find_job id w.tables.jobs ≡ some row
      → Distinct (job_ids w.tables.jobs)
      → IsTame id c
      → (records redis name encode id o c w ≡ 0)
        ⊎ ((records redis name encode id o c w ≡ 1)
            × IsFinal id (handle redis name encode o c w).0.tables.jobs)
  unfolding handle
  records-cases o (Call.finish_job k owner status message) w row found distinct tame =
      elim (query-Recorded o.now w.tables.jobs row found distinct k owner status message tame.0
        o.fault) [ inl unmet ↦ inl (rw unmet refl) | inr (met, final) ↦ inr (rw met refl, final) ]
  records-cases o (Call.create job) w row found distinct tame = inl refl
  records-cases o (Call.get k) w row found distinct tame = inl refl
  records-cases o (Call.claim_job k owner lease) w row found distinct tame = inl refl
  records-cases o (Call.extend_lease k owner lease) w row found distinct tame = inl refl
  records-cases o (Call.release_job k owner) w row found distinct tame = inl refl
  records-cases o (Call.reclaim_expired_jobs grace limit) w row found distinct tame = inl refl
  records-cases o (Call.claim_step job_id step_id owner) w row found distinct tame = inl refl
  records-cases o (Call.update_step job_id owner result) w row found distinct tame = inl refl
  records-cases o (Call.append_event k type payload) w row found distinct tame = inl refl
  records-cases o (Call.events k last_seen) w row found distinct tame = inl refl
  records-cases o (Call.register_worker info) w row found distinct tame = inl refl
  records-cases o (Call.heartbeat_worker k claimed) w row found distinct tame = inl refl
  records-cases o (Call.unregister_worker k) w row found distinct tame = inl refl
  records-cases o (Call.prune_workers ttl) w row found distinct tame = inl refl
  records-cases o (Call.workers ttl) w row found distinct tame = inl refl
  records-cases o (Call.push k) w row found distinct tame = inl refl
  records-cases o (Call.ack k) w row found distinct tame = inl refl
  records-cases o (Call.requeue k) w row found distinct tame = inl refl
  records-cases o (Call.claim owner lease) w row found distinct tame = inl refl
  records-cases o (Call.extend k owner lease) w row found distinct tame = inl refl
  records-cases o (Call.reclaim limit) w row found distinct tame = inl refl
  records-cases o Call.depth w row found distinct tame = inl refl
