-- ===== src/Queue/Ready.antt =====
-- internal/jobs/queue.go: what the methods of the queue do to the ready IDs, also where they fail.
use anchora.Prelude.{
  ℕ, ◌/◌, String, ◌≡◌, refl, sym, ap, ◌∙◌, subst, Bool, true, false, ◌||◌, ◌⊎◌, inl, inr, none,
  some, Option-cases, Bool-cases, List, [], ◌∷◌, contains, ◌==◌, ==_refl, arith, ok,
}
use anchora.Prelude.Int.{ℤ}
use anchora.Redis.{Redis, last, init}
use anchora.Queue.{
  Command, Fault, exec, ready, notify_key, deadline, reclaim_limit, call, claim_script, push, claim,
  extend, ack, requeue, reclaim,
}
use anchora.Queue.Refines.{
  Abstract, end_lease, make_ready, return_each, abstract_step, abstract, expired_ids,
  exec-abstract_step, abstract-hint,
}
use anchora.Queue.Safety.{last-contains}

abbrev pub is_refused : Fault → Bool
is_refused (Fault.refused e) = true
is_refused fault = false

abbrev pub is_lost : Fault → Bool
is_lost (Fault.lost e) = true
is_lost fault = false

abbrev is_claim : Command → Bool
is_claim (Command.claims until owner) = true
is_claim c = false

return_each-keeps :
    (expired : List String) (k : String) (s : Abstract)
    → contains k s.ready ≡ true
    → contains k (return_each expired s).ready ≡ true
return_each-keeps [] k s h = h
return_each-keeps (id ∷ expired) k s h =
    return_each-keeps expired k (make_ready id (end_lease id s)) (ground (arith, h))

abstract_step-keeps :
    (c : Command) (expired : List String) (k : String) (s : Abstract)
    → is_claim c ≡ false
    → contains k s.ready ≡ true
    → contains k (abstract_step c expired s).ready ≡ true
abstract_step-keeps (Command.pushes id) expired k s other h = ground (arith, h)
abstract_step-keeps (Command.claims until owner) expired k s other h = absurd (cc)
abstract_step-keeps (Command.acks id) expired k s other h = h
abstract_step-keeps (Command.requeues id) expired k s other h = ground (arith, h)
abstract_step-keeps (Command.extends id until owner) expired k s other h = ground (arith, h)
abstract_step-keeps (Command.reclaims now limit) expired k s other h =
    return_each-keeps expired k s h

module _ (redis : Redis) (name : String) where
  open redis use {Db, rpop}

  abbrev Has : String → Db → Type 0
  Has k db = contains k (ready redis name db) ≡ true

  exec-keeps :
      (c : Command) (k : String) (db : Db)
      → is_claim c ≡ false
      → Has k db
      → Has k (exec redis name c db)
  exec-keeps c k db other h =
      subst (λ (s : Abstract). contains k s.ready ≡ true) (sym (exec-abstract_step redis name c db))
        (abstract_step-keeps c (expired_ids redis name c db) k (abstract redis name db) other h)

  -- A call either leaves the database as it is, or runs the script.
  pub by_call :
      {A : Type 0} (P : Db → Type 0) (fault : Fault) (script : Db → Db × A) (db : Db)
      → P db
      → P (script db).0
      → P (call redis name fault script db).0
  by_call P Fault.delivered script db before after = after
  by_call P (Fault.refused e) script db before after = before
  by_call P (Fault.lost e) script db before after = after

  -- Every method but Claim keeps the ready IDs.
  pub push-keeps :
      (fault : Fault) (id k : String) (db : Db) → Has k db → Has k (push redis name fault id db).0
  unfolding push exec
  push-keeps fault id k db h =
      by_call (Has k) fault _ db h (exec-keeps (Command.pushes id) k db refl h)

  pub ack-keeps :
      (fault : Fault) (id k : String) (db : Db) → Has k db → Has k (ack redis name fault id db).0
  unfolding ack exec
  ack-keeps fault id k db h =
      by_call (Has k) fault _ db h (exec-keeps (Command.acks id) k db refl h)

  pub requeue-keeps :
      (fault : Fault) (id k : String) (db : Db)
      → Has k db
      → Has k (requeue redis name fault id db).0
  unfolding requeue exec
  requeue-keeps fault id k db h =
      by_call (Has k) fault _ db h (exec-keeps (Command.requeues id) k db refl h)

  pub extend-keeps :
      (fault : Fault) (id owner : String) (now lease : ℕ) (k : String) (db : Db)
      → Has k db
      → Has k (extend redis name fault id owner now lease db).0
  unfolding extend exec
  extend-keeps fault id owner now lease k db h =
      by_call (Has k) fault _ db h
        (exec-keeps (Command.extends id (deadline now lease) owner) k db refl h)

  pub reclaim-keeps :
      (fault : Fault) (now : ℕ) (limit : ℤ) (k : String) (db : Db)
      → Has k db
      → Has k (reclaim redis name fault now limit db).0
  unfolding reclaim exec
  reclaim-keeps fault now limit k db h =
      by_call (Has k) fault _ db h
        (exec-keeps (Command.reclaims (now / 1000000) (reclaim_limit redis name limit)) k db refl h)

  -- What is pushed is ready, unless the call is refused.
  exec-puts :
      (k : String) (db : Db)
      → Has k (exec redis name (Command.pushes k) db)
        × Has k (exec redis name (Command.requeues k) db)
  exec-puts k db = (
    put (Command.pushes k) (ground (arith, ==_refl k)),
    put (Command.requeues k) (ground (arith, ==_refl k)),
  )
    where
      put :
          (c : Command)
          → contains k
              (abstract_step c (expired_ids redis name c db) (abstract redis name db)).ready
            ≡ true
          → Has k (exec redis name c db)
      put c h =
          subst (λ (s : Abstract). contains k s.ready ≡ true)
            (sym (exec-abstract_step redis name c db)) h

  pub push-puts :
      (fault : Fault) (k : String) (db : Db)
      → is_refused fault ≡ false
      → Has k (push redis name fault k db).0
  unfolding push exec
  push-puts Fault.delivered k db ran = (exec-puts k db).0
  push-puts (Fault.refused e) k db ran = absurd (cc)
  push-puts (Fault.lost e) k db ran = (exec-puts k db).0

  pub requeue-puts :
      (fault : Fault) (k : String) (db : Db)
      → is_refused fault ≡ false
      → Has k (requeue redis name fault k db).0
  unfolding requeue exec
  requeue-puts Fault.delivered k db ran = (exec-puts k db).1
  requeue-puts (Fault.refused e) k db ran = absurd (cc)
  requeue-puts (Fault.lost e) k db ran = (exec-puts k db).1

  ready-claim :
      (until : ℕ) (owner id k : String) (db : Db)
      → last (ready redis name db) ≡ some id
      → contains k (ready redis name db)
        ≡ (contains k (ready redis name (claim_script redis name until owner db).0) || id == k)
  unfolding exec last init
  ready-claim until owner id k db e =
      last-contains (ready redis name db) id k e
      ∙ ap (λ l. contains k l || id == k)
          (sym (
            ap (λ (s : Abstract). s.ready)
              (exec-abstract_step redis name (Command.claims until owner) db)
            ∙ rw e refl))

  unready-claim :
      (until : ℕ) (owner k : String) (db : Db)
      → last (ready redis name db) ≡ none
      → Has k db
      → Has k (claim_script redis name until owner db).0
  unfolding exec last
  unready-claim until owner k db e h =
      subst (λ (s : Abstract). contains k s.ready ≡ true)
        (sym (exec-abstract_step redis name (Command.claims until owner) db)) (rw e h)

  claim_script-reply :
      (until : ℕ) (owner : String) (db : Db)
      → (claim_script redis name until owner db).1 ≡ last (ready redis name db)
  unfolding claim_script
  claim_script-reply until owner db = elim (Option-cases (last (ready redis name db))) [
    | inl e ↦ rw (e, claim_script) refl
    | inr (id, e) ↦ rw (e, claim_script) refl
  ]

  -- A claim takes at most one ID, and returns it, unless its answer is lost.
  pub claim-keeps :
      (fault wait : Fault) (owner : String) (now lease : ℕ) (k : String) (db : Db)
      → is_lost fault ≡ false
      → Has k db
      → Has k (claim redis name fault wait owner now lease db).0
        ⊎ ((id : String) × ((claim redis name fault wait owner now lease db).1 ≡ ok id)
            × ((id == k) ≡ true))
  unfolding claim last
  claim-keeps (Fault.lost e) wait owner now lease k db answered h = absurd (cc)
  claim-keeps (Fault.refused e) wait owner now lease k db answered h = inl h
  claim-keeps Fault.delivered wait owner now lease k db answered h =
      elim (Option-cases (last (ready redis name db))) [
        | inl e ↦
            rw (claim_script-reply (deadline now lease) owner db ∙ e, claim)
              (inl (hinted wait (unready-claim (deadline now lease) owner k db e h)))
        | inr (id, e) ↦
            rw (claim_script-reply (deadline now lease) owner db ∙ e, claim)
              (elim (Bool-cases (id == k)) [
                | inl same ↦ inr (id, refl, same)
                | inr other ↦
                    let kept = ready-claim (deadline now lease) owner id k db e in
                    inl (ground (arith, kept, other, h))
              ])
      ]
    where
      hinted :
          (wait : Fault)
          → Has k (claim_script redis name (deadline now lease) owner db).0
          → Has k
              (call redis name {A = String} wait
                (λ db'. (rpop (notify_key redis name) db', ""))
                (claim_script redis name (deadline now lease) owner db).0).0
      hinted wait h' =
          by_call (Has k) wait (λ db'. (rpop (notify_key redis name) db', ""))
            (claim_script redis name (deadline now lease) owner db).0 h'
            (subst (λ (s : Abstract). contains k s.ready ≡ true)
              (sym (
                abstract-hint redis name (claim_script redis name (deadline now lease) owner db).0))
              h')
