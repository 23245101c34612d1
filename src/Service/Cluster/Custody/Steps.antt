-- ===== src/Service/Cluster/Custody/Steps.antt =====
-- What one call does to a job that is settled, or ready in the queue.
use anchora.Prelude.{
  ℕ, String, ◌≡◌, refl, sym, ◌∙◌, true, false, ◌⊎◌, inl, inr, some, List, ◌==◌, ==_iff,
}
use anchora.Prelude.Int.{ℤ, pos_part}
use anchora.Queue.{Fault}
use anchora.Queue.Ready.{is_refused, is_lost}
use anchora.Store.{
  JobRow, Operation, Selection, find_job, exec, release_job, reclaim_expired_jobs, claim_job,
}
use anchora.Store.Rows.{act, find-exec, found_id}
use anchora.Store.Consistent.{IsConsistent}
use anchora.Store.Settled.{
  is_settled, act-IsConsistent, claims-is_settled, releases-is_settled, reclaims-is_settled,
}
use anchora.Service.Program.{Call}
use anchora.Service.Cluster.World.{query}
use anchora.Service.Cluster.Custody.{takes, drops}

pub claim-answered :
    (id : String) (fault : Fault) (owner : String) (lease : ℤ)
    → drops id fault (Call.claim owner lease) ≡ false
    → is_lost fault ≡ false
claim-answered id Fault.delivered owner lease d = refl
claim-answered id (Fault.refused e) owner lease d = refl
claim-answered id (Fault.lost e) owner lease d = absurd (cc)

pub push-ran :
    (id : String) (fault : Fault) (k : String)
    → (k == id) ≡ true
    → drops id fault (Call.push k) ≡ false
    → is_refused fault ≡ false
push-ran id Fault.delivered k same d = refl
push-ran id (Fault.refused e) k same d = absurd (cc)
push-ran id (Fault.lost e) k same d = refl

pub requeue-ran :
    (id : String) (fault : Fault) (k : String)
    → (k == id) ≡ true
    → drops id fault (Call.requeue k) ≡ false
    → is_refused fault ≡ false
requeue-ran id Fault.delivered k same d = refl
requeue-ran id (Fault.refused e) k same d = absurd (cc)
requeue-ran id (Fault.lost e) k same d = refl

module _ (id : String) where
  -- The job is in the table, with its owner and lease exactly while it runs.
  abbrev pub Found : List JobRow → JobRow → Type 0
  Found rows row = (find_job id rows ≡ some row) × IsConsistent row

  -- The job is in the table, and finished or with a worker.
  abbrev pub IsSettledIn : List JobRow → Type 0
  IsSettledIn rows = (row : JobRow) × Found rows row × (is_settled row ≡ true)

  module _ (now : ℕ) (rows : List JobRow) (row : JobRow) (found : Found rows row) where
    exec-Found :
        (op : Operation)
        → is_settled (act op now rows row) ≡ true
        → IsConsistent (act op now rows row)
        → IsSettledIn (exec op now rows)
    exec-Found op s c = (act op now rows row, (find-exec op now id rows row found.0, c), s)

    pub claim_job-settles :
        (fault : Fault) (k owner : String) (lease : ℕ) (duration : ℤ)
        → drops id fault (Call.claim_job k owner duration) ≡ false
        → (k == id) ≡ true
        → IsSettledIn (query fault (claim_job k owner lease now) rows).0
    unfolding exec
    claim_job-settles fault k owner lease duration d same = claimed fault d
      where
        settled : IsSettledIn (exec (Operation.claims k owner lease) now rows)
        settled =
            exec-Found (Operation.claims k owner lease)
              (claims-is_settled k owner lease now rows row
                ((==_iff row.id k).1 (
                  (==_iff row.id id).0 (found_id id rows row found.0) ∙ sym ((==_iff k id).0 same)))
                found.1)
              (act-IsConsistent (Operation.claims k owner lease) now rows row refl found.1)

        claimed :
            (fault : Fault)
            → drops id fault (Call.claim_job k owner duration) ≡ false
            → IsSettledIn (query fault (claim_job k owner lease now) rows).0
        claimed Fault.delivered d = settled
        claimed (Fault.refused e) d = absurd (cc)
        claimed (Fault.lost e) d = settled

    module _ (settled : is_settled row ≡ true) where
      pub release_job-takes :
          (fault : Fault) (k owner : String)
          → drops id fault (Call.release_job k owner) ≡ false
          → IsSettledIn (query fault (λ t. (release_job k owner now t, tt {0})) rows).0
            ⊎ (takes id
                  (Call.release_job k owner)
                  (query fault (λ t. (release_job k owner now t, tt {0})) rows).1
                ≡ true)
      unfolding exec
      release_job-takes Fault.delivered k owner d =
          elim (releases-is_settled k owner now rows row settled) [
            | inl s ↦ inl (
                exec-Found (Operation.releases k owner) s
                  (act-IsConsistent (Operation.releases k owner) now rows row refl found.1))
            | inr same ↦ inr (
                (==_iff k id).1 (
                  sym ((==_iff row.id k).0 same)
                  ∙ (==_iff row.id id).0 (found_id id rows row found.0)))
          ]
      release_job-takes (Fault.refused e) k owner d = inl (row, found, settled)
      release_job-takes (Fault.lost e) k owner d =
          elim (releases-is_settled k owner now rows row settled) [
            | inl s ↦ inl (
                exec-Found (Operation.releases k owner) s
                  (act-IsConsistent (Operation.releases k owner) now rows row refl found.1))
            | inr same ↦
                let mine = (==_iff k id).1 (
                  sym ((==_iff row.id k).0 same)
                  ∙ (==_iff row.id id).0 (found_id id rows row found.0)) in
                absurd (cc)
          ]

      pub reclaim_expired_jobs-takes :
          (fault : Fault) (select : Selection) (grace : ℤ) (limit : ℤ)
          → drops id fault (Call.reclaim_expired_jobs grace limit) ≡ false
          → IsSettledIn
              (query fault (reclaim_expired_jobs select (pos_part grace) limit now) rows).0
            ⊎ (takes id
                  (Call.reclaim_expired_jobs grace limit)
                  (query fault (reclaim_expired_jobs select (pos_part grace) limit now) rows).1
                ≡ true)
      unfolding exec
      reclaim_expired_jobs-takes Fault.delivered select grace limit d =
          elim (reclaims-is_settled select (pos_part grace) limit now id rows row found.0 settled) [
            | inl s ↦ inl (
                exec-Found (Operation.reclaims select (pos_part grace) limit) s (
                  act-IsConsistent (Operation.reclaims select (pos_part grace) limit) now rows row
                    refl found.1))
            | inr returned ↦ inr returned
          ]
      reclaim_expired_jobs-takes (Fault.refused e) select grace limit d = inl (row, found, settled)
      reclaim_expired_jobs-takes (Fault.lost e) select grace limit d = absurd (cc)
