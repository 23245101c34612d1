-- ===== src/Service/Cluster/Exclusive.antt =====
-- What all goroutines together may do to the row of a job.
use anchora.Prelude.{
  ℕ, ◌<◌, String, Bool, true, false, some, none, List, [], ◌∷◌, map, ◌≡◌, ◌≢◌, refl, ap, ◌∙◌, sym,
  All, All-append, String-cases, ◌==◌, arith, inl, inr, ok,
}
use anchora.Store.{JobRow, Selection, Operation, find_job, exec_all, is_terminal}
use anchora.Store.Ownership.{acts_for, finishes_unowned, exec_all-owned, exec_all-terminal}
use anchora.Service.Program.{Call}
use anchora.Service.Program.Rules.{Makes, Makes-weaken}
use anchora.Service.Backend.{Backend}
use anchora.Service.Cluster.{Actor, program_of, operations, Interleaves, at_time, statements}
use anchora.Service.Cluster.Foreign.{IsOf, program_of-IsOf, Interleaves-Makes}

-- The actor is not this worker.
abbrev pub IsOther : String → Actor → Type 0
IsOther w (Actor.worker info turns) = (w == info.id) ≡ false
IsOther w (Actor.reaper ticks) = Unit {0}
IsOther w (Actor.submission schedule new_id now steps) = Unit {0}

-- The actor is a worker with a name, a reaper, or the submission of another job.
abbrev pub IsLater : String → Actor → Type 0
IsLater id (Actor.worker info turns) = (info.id == "") ≡ false
IsLater id (Actor.reaper ticks) = Unit {0}
IsLater id (Actor.submission schedule new_id now steps) = new_id ≢ ok id

other-acts :
    (w : String) (actor : Actor) (op : Operation)
    → (w == "") ≡ false
    → IsOther w actor
    → IsOf actor op
    → acts_for w op ≡ false
other-acts w actor (Operation.creates id status) named other is = refl
other-acts w (Actor.worker info turns) (Operation.claims id owner lease) named other is =
    ap (λ o. w == o) is ∙ other
other-acts w (Actor.worker info turns) (Operation.extends id owner lease) named other is =
    ap (λ o. w == o) is ∙ other
other-acts w (Actor.worker info turns) (Operation.finishes id owner status e) named other is =
    ap (λ o. w == o) is ∙ other
other-acts w (Actor.worker info turns) (Operation.releases id owner) named other is =
    ap (λ o. w == o) is ∙ other
other-acts w (Actor.reaper ticks) (Operation.claims id owner lease) named other is = absurd is
other-acts w (Actor.reaper ticks) (Operation.extends id owner lease) named other is = absurd is
other-acts w (Actor.reaper ticks) (Operation.finishes id owner status e) named other is = absurd is
other-acts w (Actor.reaper ticks) (Operation.releases id owner) named other is = absurd is
other-acts w (Actor.submission s n t l) (Operation.claims id owner lease) named other is = absurd is
other-acts w (Actor.submission s n t l) (Operation.extends id owner lease) named other is =
    absurd is
other-acts w (Actor.submission s n t l) (Operation.finishes id owner status e) named other is =
    ap (λ o. w == o) is.0 ∙ named
other-acts w (Actor.submission s n t l) (Operation.releases id owner) named other is = absurd is
other-acts w actor (Operation.reclaims selection grace limit) named other is = refl

pub later-finishes :
    (job : String) (actor : Actor) (op : Operation)
    → IsLater job actor
    → IsOf actor op
    → finishes_unowned job op ≡ false
later-finishes job actor (Operation.creates id status) later is = refl
later-finishes job actor (Operation.claims id owner lease) later is = refl
later-finishes job actor (Operation.extends id owner lease) later is = refl
later-finishes job (Actor.worker info turns) (Operation.finishes id owner status e) later is =
    let named : (owner == "") ≡ false = ap (λ o. o == "") is ∙ later in ground (arith, named)
later-finishes job (Actor.reaper ticks) (Operation.finishes id owner status e) later is = absurd is
later-finishes job (Actor.submission s n t l) (Operation.finishes id owner status e) later is =
    elim (String-cases job id) [
      | inl same ↦ absurd (later (is.1 ∙ ap ok (sym same)))
      | inr other ↦ rw other refl
    ]
later-finishes job actor (Operation.releases id owner) later is = refl
later-finishes job actor (Operation.reclaims selection grace limit) later is = refl

module _ (backend : Backend) (select : Selection) (test : Operation → Bool) (Good : Actor → Type 0)
    (avoids : (actor : Actor) (op : Operation) → Good actor → IsOf actor op → test op ≡ false) where
  abbrev pub Avoids : Call → Type 0
  Avoids c = All (λ op. test op ≡ false) (operations select c)

  own_avoids :
      (actor : Actor) (ops : List Operation)
      → Good actor
      → All (IsOf actor) ops
      → All (λ op. test op ≡ false) ops
  own_avoids actor [] good is = tt
  own_avoids actor (op ∷ ops) good is = (avoids actor op good is.0, own_avoids actor ops good is.1)

  pub program_of-Avoids : (actor : Actor) → Good actor → Makes Avoids (program_of backend actor)
  program_of-Avoids actor good =
      Makes-weaken _ Avoids (λ c is. own_avoids actor (operations select c) good is)
        (program_of backend actor) (program_of-IsOf select backend actor)

  programs-Avoids :
      (actors : List Actor) → All Good actors → All (Makes Avoids) (map (program_of backend) actors)
  programs-Avoids [] good = tt
  programs-Avoids (actor ∷ actors) good =
      (program_of-Avoids actor good.0, programs-Avoids actors good.1)

  at_time-All :
      (P : ℕ → Type 0) (now : ℕ) (ops : List Operation)
      → P now
      → All (λ op. test op ≡ false) ops
      → All (λ op. P op.0 × (test op.1 ≡ false)) (at_time now ops)
  at_time-All P now [] p h = tt
  at_time-All P now (op ∷ ops) p h = ((p, h.0), at_time-All P now ops p h.1)

  statements-All :
      (P : ℕ → Type 0) (trace : List (ℕ × Call))
      → All (λ entry. P entry.0) trace
      → All (λ entry. Avoids entry.1) trace
      → All (λ op. P op.0 × (test op.1 ≡ false)) (statements select trace)
  statements-All P [] p h = tt
  statements-All P (entry ∷ trace) p h =
      All-append _ (at_time entry.0 (operations select entry.1)) (statements select trace)
        (at_time-All P entry.0 (operations select entry.1) p.0 h.0) (statements-All P trace p.1 h.1)

  -- No statement of the actors passes the test.
  trace-avoids :
      (P : ℕ → Type 0) (actors : List Actor) (trace : List (ℕ × Call))
      → All Good actors
      → Interleaves (map (program_of backend) actors) trace
      → All (λ entry. P entry.0) trace
      → All (λ op. P op.0 × (test op.1 ≡ false)) (statements select trace)
  trace-avoids P actors trace good i p = statements-All P trace p (
      Interleaves-Makes Avoids (map (program_of backend) actors) trace (programs-Avoids actors good)
        i)

module _ (backend : Backend) (select : Selection) (actors : List Actor) (trace : List (ℕ × Call))
    (i : Interleaves (map (program_of backend) actors) trace) (id : String) (rows : List JobRow)
    (row : JobRow) (found : find_job id rows ≡ some row) where
  -- While the lease of a worker with a name runs, the row of its job stays as it is whatever all other
  -- workers, all reapers and all submissions do, in any interleaving.
  pub Interleaves-owned :
      (owner : String) (until : ℕ)
      → (owner == "") ≡ false
      → row.owner ≡ some owner
      → row.lease_expires_at ≡ some until
      → All (IsOther owner) actors
      → All (λ entry. entry.0 < until) trace
      → find_job id (exec_all (statements select trace) rows) ≡ some row
  Interleaves-owned owner until named owned leased others early =
      exec_all-owned (statements select trace) id owner until rows row found owned leased (
        trace-avoids backend select (acts_for owner) (IsOther owner)
          (λ actor op other is. other-acts owner actor op named other is) (λ now. now < until)
          actors trace others i early)

  -- A finished job, without an owner, stays as it is for good: whatever workers with a name, reapers
  -- and the submissions of other jobs do, in any interleaving.
  pub Interleaves-terminal :
      is_terminal row.status ≡ true
      → row.owner ≡ none
      → All (IsLater row.id) actors
      → find_job id (exec_all (statements select trace) rows) ≡ some row
  Interleaves-terminal terminal unowned later =
      exec_all-terminal (statements select trace) id rows row found terminal unowned (
        tests (statements select trace) (
          trace-avoids backend select (finishes_unowned row.id) (IsLater row.id)
            (λ actor op good is. later-finishes row.id actor op good is) (λ now. Unit {0}) actors
            trace later i (any_time trace)))
    where
      tests :
          (ops : List (ℕ × Operation))
          → All (λ op. Unit {0} × (finishes_unowned row.id op.1 ≡ false)) ops
          → All (λ op. finishes_unowned row.id op.1 ≡ false) ops
      tests [] h = tt
      tests (op ∷ ops) h = (h.0.1, tests ops h.1)

      any_time : (calls : List (ℕ × Call)) → All (λ entry. Unit {0}) calls
      any_time [] = tt
      any_time (entry ∷ calls) = (tt, any_time calls)
