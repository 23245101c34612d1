-- ===== src/Queue/Leases.antt =====
-- Who may extend a lease, and which leases a reclaim ends.
use anchora.Prelude.{
  ℕ, ◌≤◌, ◌<◌, String, ◌≡◌, refl, sym, ap, ◌∙◌, subst, Bool, true, false, none, some, Option-cases,
  Bool-cases, List, [], ◌∷◌, length, ◌==◌, ==_iff, ==_refl, if◌then◌else◌, arith, inl, inr, assign,
  contains, All, String-cases, some_inj,
}
use anchora.Redis.{Redis, IsDue, last, init}
use anchora.Queue.{
  Command, leases_key, lease_of, owner_of, ready, claim_script, extend_script, ack_script,
  reclaim_script, exec, exec_all,
}
use anchora.Queue.Refines.{
  Abstract, end_lease, make_ready, give, return_each, renews, abstract_step, abstract, expired_ids,
  exec-abstract_step, abstract-extend,
}

-- The script is a claim by this worker.
abbrev pub claims_for : String → Command → Bool
claims_for worker (Command.claims until owner) = owner == worker
claims_for worker _ = false

return_each-renews :
    (expired : List String) (k worker : String) (s : Abstract)
    → renews k worker s ≡ false
    → renews k worker (return_each expired s) ≡ false
return_each-renews [] k worker s h = h
return_each-renews (id ∷ expired) k worker s h =
    return_each-renews expired k worker (make_ready id (end_lease id s)) (ground (arith, h))

abstract_step-renews :
    (c : Command) (expired : List String) (k worker : String) (s : Abstract)
    → claims_for worker c ≡ false
    → renews k worker s ≡ false
    → renews k worker (abstract_step c expired s) ≡ false
abstract_step-renews (Command.pushes id) expired k worker s other h = h
abstract_step-renews (Command.acks id) expired k worker s other h = ground (arith, h)
abstract_step-renews (Command.requeues id) expired k worker s other h = ground (arith, h)
abstract_step-renews (Command.claims until owner) expired k worker s other h =
    elim (Option-cases (last s.ready)) [
      | inl e ↦ rw (e, abstract_step) h
      | inr (id, e) ↦ rw (e, abstract_step) (ground (arith, h, other))
    ]
abstract_step-renews (Command.extends id until owner) expired k worker s other h =
    elim (Bool-cases (renews id owner s)) [
      | inl held ↦ elim (String-cases id k) [
        | inl same ↦
            let held_here : renews k owner s ≡ true =
              subst (λ t. renews t owner s ≡ true) same held in
            rw (held, (==_iff id k).1 same, abstract_step) (ground (arith, h, held_here))
        | inr apart ↦ rw (held, apart, abstract_step) h
      ]
      | inr lost ↦ rw (lost, abstract_step) h
    ]
abstract_step-renews (Command.reclaims now limit) expired k worker s other h =
    return_each-renews expired k worker s h

return_each-absent :
    (expired : List String) (k : String) (s : Abstract)
    → contains k expired ≡ false
    → ((return_each expired s).leases k ≡ s.leases k)
      × ((return_each expired s).owners k ≡ s.owners k)
return_each-absent [] k s h = (refl, refl)
return_each-absent (id ∷ expired) k s h =
    let (l, o) = return_each-absent expired k (make_ready id (end_lease id s)) (ground arith) in
    (ground (arith, l), ground (arith, o))

-- The ID is free to be claimed.
abbrev pub IsFree : String → Abstract → Type 0
IsFree k s = (contains k s.ready ≡ true) × (s.leases k ≡ none) × (s.owners k ≡ none)

return_each-IsFree :
    (expired : List String) (k : String) (s : Abstract)
    → IsFree k s
    → IsFree k (return_each expired s)
return_each-IsFree [] k s h = h
return_each-IsFree (id ∷ expired) k s h =
    return_each-IsFree expired k (make_ready id (end_lease id s))
      (ground (arith, h.0), ground (arith, h.1), ground (arith, h.2))

return_each-contained :
    (expired : List String) (k : String) (s : Abstract)
    → contains k expired ≡ true
    → IsFree k (return_each expired s)
return_each-contained [] k s h = absurd (cc)
return_each-contained (id ∷ expired) k s h = elim (String-cases id k) [
  | inl same ↦
      let found = (==_iff id k).1 same in
      return_each-IsFree expired k (make_ready id (end_lease id s))
        (ground (arith, found), ground (arith, found), ground (arith, found))
  | inr apart ↦
      return_each-contained expired k (make_ready id (end_lease id s)) (ground (arith, apart))
]

module _ (redis : Redis) (name : String) where
  open redis use {Db, view, zrangebyscore, zrangebyscore_due, zrangebyscore_all}

  exec_all-renews :
      (cs : List Command) (id worker : String) (db : Db)
      → All (λ c. claims_for worker c ≡ false) cs
      → renews id worker (abstract redis name db) ≡ false
      → renews id worker (abstract redis name (exec_all redis name cs db)) ≡ false
  unfolding exec_all
  exec_all-renews [] id worker db other h = h
  exec_all-renews (c ∷ cs) id worker db other h =
      exec_all-renews cs id worker (exec redis name c db) other.1 (
        subst (λ s. renews id worker s ≡ false) (sym (exec-abstract_step redis name c db))
          (abstract_step-renews c (expired_ids redis name c db) id worker (abstract redis name db)
            other.0 h))

  -- A worker that cannot extend its lease on a job cannot extend it after any sequence of scripts
  -- without a claim of its own: the attempt is answered with 0 and leaves the queue as it is.
  pub extend_script-lost :
      (cs : List Command) (id worker : String) (until until' : ℕ) (db : Db)
      → (extend_script redis name id until worker db).1 ≡ false
      → All (λ c. claims_for worker c ≡ false) cs
      → ((extend_script redis name id until' worker (exec_all redis name cs db)).1 ≡ false)
        × (abstract redis name
              (extend_script redis name id until' worker (exec_all redis name cs db)).0
            ≡ abstract redis name (exec_all redis name cs db))
  extend_script-lost cs id worker until until' db lost other =
      let after = exec_all redis name cs db in
      let e =
        exec_all-renews cs id worker db other
          (sym (abstract-extend redis name id worker until db).1 ∙ lost) in
      let (same, reply) = abstract-extend redis name id worker until' after in
      (
        reply ∙ e,
        same
            ∙ ap
                (λ b.
                  if b
                  then record (abstract redis name after) {
                    leases = assign (abstract redis name after).leases id (some until');
                  }
                  else abstract redis name after)
                e,
      )

  taken :
      (worker id : String) (until : ℕ) (db : Db)
      → (claim_script redis name until worker db).1 ≡ some id
      → last (ready redis name db) ≡ some id
  unfolding claim_script
  taken worker id until db h = elim (Option-cases (last (ready redis name db))) [
    | inl e ↦ absurd (ground (arith, h, e))
    | inr (k, e) ↦ e ∙ (rw (e, claim_script) at h)
  ]

  leased :
      (worker id : String) (until : ℕ) (db : Db)
      → (claim_script redis name until worker db).1 ≡ some id
      → abstract redis name (claim_script redis name until worker db).0
        ≡ give until worker id
            (record (abstract redis name db) { ready = init (ready redis name db) })
  unfolding exec
  leased worker id until db h =
      exec-abstract_step redis name (Command.claims until worker) db
      ∙ (rw (taken worker id until db h, abstract_step) refl)

  -- A claim that returns an ID takes the last of the ready IDs, and it alone, off the list; the worker
  -- can then extend its lease on it, and no other worker can.
  pub claim_script-owner :
      (worker other id : String) (until until' : ℕ) (db : Db)
      → (claim_script redis name until worker db).1 ≡ some id
      → (worker == other) ≡ false
      → (last (ready redis name db) ≡ some id)
        × (ready redis name (claim_script redis name until worker db).0
            ≡ init (ready redis name db))
        × ((extend_script redis name id until' worker (claim_script redis name until worker db).0).1
            ≡ true)
        × ((extend_script redis name id until' other (claim_script redis name until worker db).0).1
            ≡ false)
  claim_script-owner worker other id until until' db h apart =
      let after = (claim_script redis name until worker db).0 in
      (
        taken worker id until db h,
        ap (λ s. s.ready) (leased worker id until db h),
        (abstract-extend redis name id worker until' after).1
            ∙ ap (renews id worker) (leased worker id until db h)
            ∙ ground (arith, ==_refl id, ==_refl worker),
        (abstract-extend redis name id other until' after).1
            ∙ ap (renews id other) (leased worker id until db h)
            ∙ ground (arith, ==_refl id, apart),
      )

  absent_of_IsDue :
      (now id_until : ℕ) (id : String) (db : Db) (l : List String)
      → lease_of redis name db id ≡ some id_until
      → now < id_until
      → All (IsDue (view db) (leases_key redis name) now) l
      → contains id l ≡ false
  absent_of_IsDue now id_until id db [] e less h = refl
  absent_of_IsDue now id_until id db (x ∷ l) e less h = elim (String-cases x id) [
    | inl same ↦
        let (n, found, le) = h.0 in
        absurd
          (omega (arith, some_inj (sym e ∙ ap (λ k. lease_of redis name db k) (sym same) ∙ found)))
    | inr other ↦ ground (arith, other, absent_of_IsDue now id_until id db l e less h.1)
  ]

  -- A reclaim leaves a lease that has not expired, and its owner, as they are.
  pub reclaim_script-kept :
      (now limit until : ℕ) (id : String) (db : Db)
      → lease_of redis name db id ≡ some until
      → now < until
      → (lease_of redis name (reclaim_script redis name now limit db).0 id ≡ some until)
        × (owner_of redis name (reclaim_script redis name now limit db).0 id
            ≡ owner_of redis name db id)
  unfolding exec
  reclaim_script-kept now limit until id db e less =
      let step = exec-abstract_step redis name (Command.reclaims now limit) db in
      let expired = zrangebyscore (leases_key redis name) now limit db in
      let (lease, owner) = return_each-absent expired id (abstract redis name db) (
        absent_of_IsDue now until id db expired e less
          (zrangebyscore_due (leases_key redis name) now limit db)) in
      (ap (λ s. s.leases id) step ∙ lease ∙ e, ap (λ s. s.owners id) step ∙ owner)

  -- A reclaim that finds fewer expired leases than its limit makes every job whose lease has expired
  -- ready, without a lease and without an owner.
  pub reclaim_script-IsFree :
      (now limit until : ℕ) (id : String) (db : Db)
      → length (reclaim_script redis name now limit db).1 < limit
      → lease_of redis name db id ≡ some until
      → until ≤ now
      → IsFree id (abstract redis name (reclaim_script redis name now limit db).0)
  unfolding exec reclaim_script
  reclaim_script-IsFree now limit until id db fewer e le =
      subst (IsFree id) (sym (exec-abstract_step redis name (Command.reclaims now limit) db)) (
        return_each-contained (zrangebyscore (leases_key redis name) now limit db) id
          (abstract redis name db)
          (zrangebyscore_all (leases_key redis name) now limit db id fewer (until, e, le)))

  -- An ack of a job, by whichever worker, takes away its lease and its owner, and leaves the ready IDs
  -- and the leases and owners of all other jobs as they are. So no worker can extend a lease on the job
  -- any longer, not even the one that held it.
  pub ack_script-lost :
      (id worker : String) (until : ℕ) (db : Db)
      → (lease_of redis name (ack_script redis name id db) id ≡ none)
        × (owner_of redis name (ack_script redis name id db) id ≡ none)
        × (ready redis name (ack_script redis name id db) ≡ ready redis name db)
        × ((other : String)
            → (id == other) ≡ false
            → (lease_of redis name (ack_script redis name id db) other
                ≡ lease_of redis name db other)
              × (owner_of redis name (ack_script redis name id db) other
                  ≡ owner_of redis name db other))
        × ((extend_script redis name id until worker (ack_script redis name id db)).1 ≡ false)
  unfolding exec
  ack_script-lost id worker until db =
      let step = exec-abstract_step redis name (Command.acks id) db in
      (
        ap (λ s. s.leases id) step ∙ ground (arith, ==_refl id),
        ap (λ s. s.owners id) step ∙ ground (arith, ==_refl id),
        ap (λ s. s.ready) step,
        λ other apart. (
          ap (λ s. s.leases other) step ∙ ground (arith, apart),
          ap (λ s. s.owners other) step ∙ ground (arith, apart),
        ),
        (abstract-extend redis name id worker until (ack_script redis name id db)).1
            ∙ ap (renews id worker) step
            ∙ ground (arith, ==_refl id),
      )
