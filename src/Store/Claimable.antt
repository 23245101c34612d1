-- ===== src/Store/Claimable.antt =====
-- internal/jobs/store.go, ClaimJob: whose claim is granted, and what a granted claim does to the row.
use anchora.Prelude.{
  ℕ, suc, ◌+◌, ◌*◌, ◌/◌, ◌≤◌, String, Bool, true, false, not, ◌||◌, Option, none, some, some_inj,
  ◌≡◌, ◌≢◌, ◌⊎◌, inl, inr, refl, ap, ◌==◌, ==_iff, leb, arith, Bool-cases,
}
use anchora.Workflow.{Status}
use anchora.Store.{
  JobRow, is_terminal, is_unowned, owned_by, is_expired, claimable, set_claimed, coalesce,
}

-- The job has not ended, and it has no owner, or this one, or its lease is not set or has expired.
abbrev pub MayClaim : String → ℕ → JobRow → Type 0
MayClaim worker now row =
    (row.status ≢ Status.succeeded)
    × (row.status ≢ Status.failed)
    × ((row.owner ≡ none)
        ⊎ ((row.owner ≡ some worker)
            ⊎ ((row.lease_expires_at ≡ none)
                ⊎ ((until : ℕ) × (row.lease_expires_at ≡ some until) × (until ≤ now)))))

-- The row once the worker has claimed it: it runs, for this worker, for the lease in whole
-- milliseconds, and has started at its first claim.
pub record IsClaimed (worker : String) (lease now : ℕ) (before after : JobRow) : Type 0 where
  pub same_id : after.id ≡ before.id
  pub runs : after.status ≡ Status.running
  pub owned : after.owner ≡ some worker
  pub leased : after.lease_expires_at ≡ some (now + lease / 1000000 * 1000)
  pub counted : after.attempts ≡ suc before.attempts
  pub first_start : before.started_at ≡ none → after.started_at ≡ some now
  pub kept_start : (time : ℕ) → before.started_at ≡ some time → after.started_at ≡ some time

pub set_claimed-IsClaimed :
    (worker : String) (lease now : ℕ) (row : JobRow)
    → IsClaimed worker lease now row (set_claimed worker lease now row)
set_claimed-IsClaimed worker lease now row = record {
  same_id = refl;
  runs = refl;
  owned = refl;
  leased = refl;
  counted = refl;
  first_start = λ e. ap (λ o. coalesce o now) e;
  kept_start = λ time e. ap (λ o. coalesce o now) e;
}

open_cases :
    (status : Status)
    → ((not (is_terminal status) ≡ true) × (status ≢ Status.succeeded) × (status ≢ Status.failed))
      ⊎ ((not (is_terminal status) ≡ false)
          × ((status ≢ Status.succeeded) → (status ≢ Status.failed) → ⊥))
open_cases Status.pending = inl (refl, λ e. cc, λ e. cc)
open_cases Status.running = inl (refl, λ e. cc, λ e. cc)
open_cases Status.succeeded = inr (refl, λ a b. a refl)
open_cases Status.failed = inr (refl, λ a b. b refl)
open_cases Status.retrying = inl (refl, λ e. cc, λ e. cc)
open_cases Status.skipped = inl (refl, λ e. cc, λ e. cc)

abbrev Reason : String → ℕ → Option String → Option ℕ → Type 0
Reason worker now owner lease =
    (owner ≡ none)
    ⊎ ((owner ≡ some worker)
        ⊎ ((lease ≡ none) ⊎ ((until : ℕ) × (lease ≡ some until) × (until ≤ now))))

free_cases :
    (worker : String) (now : ℕ) (row : JobRow)
    → (((is_unowned row || owned_by worker row || is_expired now row) ≡ true)
        × Reason worker now row.owner row.lease_expires_at)
      ⊎ (((is_unowned row || owned_by worker row || is_expired now row) ≡ false)
          × (Reason worker now row.owner row.lease_expires_at → ⊥))
free_cases worker now row = by_owner row.owner row.lease_expires_at
  where
    test : Option String → Option ℕ → Bool
    test owner lease =
        elim owner [ none ↦ true | some _ ↦ false ]
        || elim owner [ none ↦ false | some other ↦ other == worker ]
        || elim lease [ none ↦ true | some until ↦ leb until now ]

    by_owner :
        (owner : Option String) (lease : Option ℕ)
        → ((test owner lease ≡ true) × Reason worker now owner lease)
          ⊎ ((test owner lease ≡ false) × (Reason worker now owner lease → ⊥))
    by_owner none lease = inl (refl, inl refl)
    by_owner (some other) none = elim (Bool-cases (other == worker)) [
      | inl mine ↦ inl (ground (arith, mine), inr (inr (inl refl)))
      | inr apart ↦ inl (ground (arith, apart), inr (inr (inl refl)))
    ]
    by_owner (some other) (some until) = elim (Bool-cases (other == worker)) [
      | inl mine ↦ inl (ground (arith, mine), inr (inl (ap some ((==_iff other worker).0 mine))))
      | inr apart ↦ elim (Bool-cases (leb until now)) [
        | inl past ↦
            inl (ground (arith, apart, past), inr (inr (inr (until, refl, ground (arith, past)))))
        | inr ahead ↦ inr (ground (arith, apart, ahead), none_holds other until apart ahead)
      ]
    ]
      where
        none_holds :
            (other : String) (until : ℕ)
            → (other == worker) ≡ false
            → leb until now ≡ false
            → Reason worker now (some other) (some until)
            → ⊥
        none_holds other until apart ahead (inl e) = absurd (cc)
        none_holds other until apart ahead (inr (inl e)) =
            let mine = (==_iff other worker).1 (some_inj e) in absurd (cc)
        none_holds other until apart ahead (inr (inr (inl e))) = absurd (cc)
        none_holds other until apart ahead (inr (inr (inr (n, e, le)))) =
            let same = some_inj e in absurd (ground (arith, same, le, ahead))

-- The condition of the statement is whether the worker may claim the job.
pub claimable-MayClaim :
    (id worker : String) (now : ℕ) (row : JobRow)
    → (row.id == id) ≡ true
    → ((claimable id worker now row ≡ true) × MayClaim worker now row)
      ⊎ ((claimable id worker now row ≡ false) × (MayClaim worker now row → ⊥))
claimable-MayClaim id worker now row here = elim (open_cases row.status) [
  | inr (ended, never) ↦ inr (ground (arith, ended), λ m. never m.0 m.1)
  | inl (open_now, not_succeeded, not_failed) ↦ elim (free_cases worker now row) [
    | inl (free, reason) ↦
        inl (ground (arith, here, open_now, free), (not_succeeded, not_failed, reason))
    | inr (taken, never) ↦ inr (ground (arith, taken), λ m. never m.2)
  ]
]
