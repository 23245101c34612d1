-- ===== src/Queue/Samples.antt =====
-- A small queue in memory, what the scripts do on it, and the theorems applied to it.
use anchora.Prelude.{
  String, true, false, none, some, List, [], ◌∷◌, ◌≡◌, ◌≢◌, refl, All, ok, ◌==◌, arith, ap, length,
}
use anchora.Redis.{last, init, take}
use anchora.Redis.Memory.{Memory, memory, empty}
use anchora.Queue.{
  Command, Fault, claim_script, extend_script, ack_script, reclaim_script, exec, exec_all, claim,
  push, reclaim, extend, lease_of, owner_of, ready,
}
use anchora.Queue.Refines.{abstract, abstract_step, expired_ids, exec-abstract_step}
use anchora.Queue.Safety.{IsPresent, exec_all-IsPresent}
use anchora.Queue.Leases.{
  claims_for, ack_script-lost, extend_script-lost, claim_script-owner, reclaim_script-IsFree,
  IsFree,
}

scripts : Unit {0}
unfolding exec_all exec claim extend reclaim push last init take ◌==◌
scripts = tt

-- Two jobs; the first is claimed by "one", expires and is claimed by "two".
abbrev handover : List Command
handover =
    Command.pushes "a"
    ∷ Command.claims 50 "one"
    ∷ Command.pushes "b"
    ∷ Command.reclaims 60 10
    ∷ Command.claims 90 "two"
    ∷ []

abbrev after : Memory
after = exec_all memory "q" handover empty

after_ready : ready memory "q" after ≡ "a" ∷ []
unfolding scripts
after_ready = refl

after_owner : owner_of memory "q" after "b" ≡ some "two"
unfolding scripts
after_owner = refl

after_lease : lease_of memory "q" after "b" ≡ some 90
unfolding scripts
after_lease = refl

queued : Memory
queued = exec_all memory "q" (Command.pushes "a" ∷ Command.pushes "b" ∷ []) empty

first_claim :
    (claim memory "q" Fault.delivered Fault.delivered "one" 1000000 5000000 queued).1 ≡ ok "a"
unfolding scripts queued
first_claim = refl

no_claim : (claim memory "q" Fault.delivered Fault.delivered "one" 1000000 5000000 empty).1 ≡ ok ""
unfolding scripts
no_claim = refl

claim_queued : (claim_script memory "q" 6 "one" queued).1 ≡ some "a"
unfolding scripts queued
claim_queued = refl

cannot_extend : (extend_script memory "q" "b" 99 "one" after).1 ≡ false
unfolding scripts
cannot_extend = refl

exec-abstract_step_example :
    abstract memory "q" (exec memory "q" (Command.reclaims 95 10) after)
    ≡ abstract_step
        (Command.reclaims 95 10)
        (expired_ids memory "q" (Command.reclaims 95 10) after)
        (abstract memory "q" after)
exec-abstract_step_example = exec-abstract_step memory "q" (Command.reclaims 95 10) after

not_acked : All (λ c. c ≢ Command.acks "a") (Command.claims 70 "two" ∷ Command.reclaims 80 10 ∷ [])
not_acked = (λ e. cc, (λ e. cc, tt))

queued-IsPresent : IsPresent "a" (abstract memory "q" queued)
unfolding scripts queued
queued-IsPresent = refl

exec_all-IsPresent_example : IsPresent "a" (
    abstract memory "q"
      (exec_all memory "q" (Command.claims 70 "two" ∷ Command.reclaims 80 10 ∷ []) queued))
exec_all-IsPresent_example =
    exec_all-IsPresent memory "q" (Command.claims 70 "two" ∷ Command.reclaims 80 10 ∷ []) "a" queued
      not_acked queued-IsPresent

no_claims_for_one :
    All (λ c. claims_for "one" c ≡ false) (Command.pushes "b" ∷ Command.claims 70 "two" ∷ [])
unfolding scripts
no_claims_for_one = (refl, (refl, tt))

extend_script-lost_example :
    ((extend_script memory "q" "b" 99 "one"
        (exec_all memory "q" (Command.pushes "b" ∷ Command.claims 70 "two" ∷ []) after)).1
      ≡ false)
    × (abstract memory "q"
          (extend_script memory "q" "b" 99 "one"
            (exec_all memory "q" (Command.pushes "b" ∷ Command.claims 70 "two" ∷ []) after)).0
        ≡ abstract memory "q"
            (exec_all memory "q" (Command.pushes "b" ∷ Command.claims 70 "two" ∷ []) after))
extend_script-lost_example =
    extend_script-lost memory "q" (Command.pushes "b" ∷ Command.claims 70 "two" ∷ []) "b" "one" 99
      99 after cannot_extend no_claims_for_one

two_workers : ("one" == "two") ≡ false
unfolding ◌==◌
two_workers = refl

claim_script-owner_example :
    (last (ready memory "q" queued) ≡ some "a")
    × (ready memory "q" (claim_script memory "q" 6 "one" queued).0 ≡ init (ready memory "q" queued))
    × ((extend_script memory "q" "a" 9 "one" (claim_script memory "q" 6 "one" queued).0).1 ≡ true)
    × ((extend_script memory "q" "a" 9 "two" (claim_script memory "q" 6 "one" queued).0).1 ≡ false)
claim_script-owner_example =
    claim_script-owner memory "q" "one" "two" "a" 6 9 queued claim_queued two_workers

few_expired : (reclaim_script memory "q" 95 10 after).1 ≡ "b" ∷ []
unfolding scripts
few_expired = refl

reclaim_script-IsFree_example :
    IsFree "b" (abstract memory "q" (reclaim_script memory "q" 95 10 after).0)
reclaim_script-IsFree_example =
    reclaim_script-IsFree memory "q" 95 10 90 "b" after (omega (arith, ap length few_expired))
      after_lease (omega arith)

ack_script-lost_example :
    (lease_of memory "q" (ack_script memory "q" "b" after) "b" ≡ none)
    × (owner_of memory "q" (ack_script memory "q" "b" after) "b" ≡ none)
    × (ready memory "q" (ack_script memory "q" "b" after) ≡ ready memory "q" after)
    × ((other : String)
        → ("b" == other) ≡ false
        → (lease_of memory "q" (ack_script memory "q" "b" after) other
            ≡ lease_of memory "q" after other)
          × (owner_of memory "q" (ack_script memory "q" "b" after) other
              ≡ owner_of memory "q" after other))
    × ((extend_script memory "q" "b" 95 "two" (ack_script memory "q" "b" after)).1 ≡ false)
ack_script-lost_example = ack_script-lost memory "q" "b" "two" 95 after
