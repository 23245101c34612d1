-- ===== src/Service/Cluster/Custody/Deliveries.antt =====
-- internal/jobs/jobs.go: a delivery begins with a claim of its job, and gives on what it releases.
use anchora.Prelude.{ℕ, String, true, ◌≡◌, refl, inl, ◌==◌}
use anchora.Service.Program.{◌>>◌}
use anchora.Service.Program.Rules.{by_response, by_claim}
use anchora.Service.Backend.{Backend}
use anchora.Service.Lease.{Cause, hold_lease}
use anchora.Service.Attempt.{Circumstances, JobOutcome, interrupted, concluded, run_job}
use anchora.Service.Worker.{
  over_budget, release_and_requeue, abandon, dead_letter, ack_job, settle, execute, process,
}
use anchora.Service.Cluster.Custody.{Holds, Hands, Hands->>=, Hands-if, Hands-of_Makes}
use anchora.Service.Cluster.Custody.Idle.{
  hold_lease-Idle, run_job-Idle, conclude-Idle, refuse-Idle, ack_job-Idle,
}

module _ (backend : Backend) (job : String) where
  release_and_requeue-Hands :
      (worker id : String) → Hands job (release_and_requeue backend worker id)
  unfolding release_and_requeue
  release_and_requeue-Hands worker id = (
    refl,
    by_response _ (λ e. (λ taken. absurd (cc), tt))
        (λ u. (λ taken. inl taken, (refl, λ r. (λ taken. absurd (cc), tt)))),
  )

  abandon-Hands : (worker id : String) (cause : Cause) → Hands job (abandon backend worker id cause)
  unfolding abandon
  abandon-Hands worker id Cause.lease_lost = (refl, λ r. (λ taken. absurd (cc), tt))
  abandon-Hands worker id Cause.canceled =
      (refl, λ r. (λ taken. absurd (cc), release_and_requeue-Hands worker id))
  abandon-Hands worker id (Cause.load_failed e) =
      (refl, λ r. (λ taken. absurd (cc), release_and_requeue-Hands worker id))

  settle-Hands :
      (worker id : String) (attempts : ℕ) (o : JobOutcome)
      → Hands job (settle backend worker id attempts o)
  unfolding settle
  settle-Hands worker id attempts (interrupted cause) = abandon-Hands worker id cause
  settle-Hands worker id attempts (concluded results e) =
      Hands-of_Makes job _ (conclude-Idle backend worker id attempts results e)

  execute-Hands :
      (worker id : String) (c : Circumstances) (attempts : ℕ)
      → Hands job (execute backend worker id c attempts)
  unfolding execute
  execute-Hands worker id c attempts = (
    refl,
    λ r. (
      λ taken. absurd (cc),
      Hands->>= job (run_job backend worker id c) _
          (Hands-of_Makes job _ (run_job-Idle backend worker id c))
          (λ run.
            Hands->>= job (hold_lease backend worker id c.late run.0) _
              (Hands-of_Makes job _ (hold_lease-Idle backend worker id c.late run.0))
              (λ s. settle-Hands worker id attempts run.1)),
    ),
  )

  pub process-Hands :
      (worker id : String) (c : Circumstances) → Hands job (process backend worker id c)
  unfolding process
  process-Hands worker id c = (
    refl,
    by_response _ (λ e. (λ taken. absurd (cc), tt))
        (by_claim _
          (λ attempts. (
            λ taken. absurd (cc),
            Hands-if job _ _ (over_budget backend attempts)
                (Hands-of_Makes job
                  (dead_letter backend worker id attempts backend.config.max_attempts
                    >> ack_job backend worker id)
                  (refuse-Idle backend worker id attempts backend.config.max_attempts))
                (execute-Hands worker id c attempts),
          ))
          (λ attempts. (
            λ taken. absurd (cc),
            Hands-of_Makes job (ack_job backend worker id) (ack_job-Idle backend worker id),
          ))),
  )

  -- A delivery begins with a claim of its job.
  pub process-Holds :
      (worker id : String) (c : Circumstances)
      → (id == job) ≡ true
      → Holds job (process backend worker id c)
  unfolding process
  process-Holds worker id c same = inl same
