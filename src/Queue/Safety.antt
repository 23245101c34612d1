-- ===== src/Queue/Safety.antt =====
-- What the scripts of the queue keep, in any order in which the workers run them.
use anchora.Prelude.{
  String, ◌≡◌, ◌≢◌, sym, ap, ◌∙◌, subst, Bool, true, false, ◌||◌, Option, none, some, Option-cases,
  Bool-cases, List, [], ◌∷◌, ◌==◌, ==_iff, arith, inl, inr, contains, All, String-cases, some_inj,
}
use anchora.Redis.{Redis, last, init}
use anchora.Queue.{Command, exec, exec_all}
use anchora.Queue.Refines.{
  Abstract, end_lease, make_ready, return_each, renews, abstract_step, abstract, expired_ids,
  exec-abstract_step,
}

abbrev is_some : {A : Type 0} → Option A → Bool
is_some none = false
is_some (some x) = true

-- A leased ID has an owner, and an owned ID has a lease.
abbrev pub IsWellFormed : Abstract → Type 0
IsWellFormed s = (id : String) → is_some (s.leases id) ≡ is_some (s.owners id)

-- The ID is ready or leased.
abbrev pub IsPresent : String → Abstract → Type 0
IsPresent id s = (contains id s.ready || is_some (s.leases id)) ≡ true

pub last-contains :
    (l : List String) (x k : String)
    → last l ≡ some x
    → contains k l ≡ (contains k (init l) || x == k)
unfolding last init
last-contains [] x k e = absurd (cc)
last-contains (y ∷ []) x k e = ground (arith, some_inj e, ap (λ t. t == k) (some_inj e))
last-contains (y ∷ z ∷ l) x k e = ground (arith, last-contains (z ∷ l) x k e)

return_each-IsWellFormed :
    (expired : List String) (s : Abstract) → IsWellFormed s → IsWellFormed (return_each expired s)
return_each-IsWellFormed [] s h = h
return_each-IsWellFormed (id ∷ expired) s h =
    return_each-IsWellFormed expired (make_ready id (end_lease id s)) (λ k. ground (arith, h k))

abstract_step-IsWellFormed :
    (c : Command) (expired : List String) (s : Abstract)
    → IsWellFormed s
    → IsWellFormed (abstract_step c expired s)
abstract_step-IsWellFormed (Command.pushes id) expired s h k = h k
abstract_step-IsWellFormed (Command.acks id) expired s h k = ground (arith, h k)
abstract_step-IsWellFormed (Command.requeues id) expired s h k = ground (arith, h k)
abstract_step-IsWellFormed (Command.claims until owner) expired s h k =
    elim (Option-cases (last s.ready)) [
      | inl e ↦ rw (e, abstract_step) (h k)
      | inr (id, e) ↦ rw (e, abstract_step) (ground (arith, h k))
    ]
abstract_step-IsWellFormed (Command.extends id until owner) expired s h k =
    elim (Bool-cases (renews id owner s)) [
      | inl held ↦
          let renewed : is_some (s.leases id) ≡ true = ground (arith, held) in
          elim (String-cases id k) [
            | inl same ↦
                let owned : is_some (s.owners k) ≡ true =
                  subst (λ t. is_some (s.owners t) ≡ true) same (sym (h id) ∙ renewed) in
                rw (held, (==_iff id k).1 same, abstract_step) (sym owned)
            | inr apart ↦ rw (held, apart, abstract_step) (h k)
          ]
      | inr lost ↦ rw (lost, abstract_step) (h k)
    ]
abstract_step-IsWellFormed (Command.reclaims now limit) expired s h k =
    return_each-IsWellFormed expired s h k

return_each-IsPresent :
    (expired : List String) (k : String) (s : Abstract)
    → IsPresent k s
    → IsPresent k (return_each expired s)
return_each-IsPresent [] k s h = h
return_each-IsPresent (id ∷ expired) k s h =
    return_each-IsPresent expired k (make_ready id (end_lease id s)) (ground (arith, h))

abstract_step-IsPresent :
    (c : Command) (expired : List String) (k : String) (s : Abstract)
    → c ≢ Command.acks k
    → IsPresent k s
    → IsPresent k (abstract_step c expired s)
abstract_step-IsPresent (Command.pushes id) expired k s other h = ground (arith, h)
abstract_step-IsPresent (Command.acks id) expired k s other h = elim (String-cases id k) [
  | inl same ↦ absurd (other (ap Command.acks same))
  | inr apart ↦ ground (arith, h)
]
abstract_step-IsPresent (Command.requeues id) expired k s other h = ground (arith, h)
abstract_step-IsPresent (Command.claims until owner) expired k s other h =
    elim (Option-cases (last s.ready)) [
      | inl e ↦ rw (e, abstract_step) h
      | inr (id, e) ↦ rw (e, abstract_step) (ground (arith, h, last-contains s.ready id k e))
    ]
abstract_step-IsPresent (Command.extends id until owner) expired k s other h =
    elim (Bool-cases (renews id owner s)) [
      | inl held ↦ ground (arith, held, h)
      | inr lost ↦ ground (arith, lost, h)
    ]
abstract_step-IsPresent (Command.reclaims now limit) expired k s other h =
    return_each-IsPresent expired k s h

module _ (redis : Redis) (name : String) where
  open redis use {Db}

  -- If each leased ID has an owner and each owned ID a lease, then so after any sequence of scripts.
  pub exec_all-IsWellFormed :
      (cs : List Command) (db : Db)
      → IsWellFormed (abstract redis name db)
      → IsWellFormed (abstract redis name (exec_all redis name cs db))
  unfolding exec_all
  exec_all-IsWellFormed [] db h = h
  exec_all-IsWellFormed (c ∷ cs) db h = exec_all-IsWellFormed cs (exec redis name c db) (
      subst IsWellFormed (sym (exec-abstract_step redis name c db))
        (abstract_step-IsWellFormed c (expired_ids redis name c db) (abstract redis name db) h))

  -- No job is lost: an ID that is ready or leased is ready or leased after any sequence of scripts
  -- without an ack of it.
  pub exec_all-IsPresent :
      (cs : List Command) (id : String) (db : Db)
      → All (λ c. c ≢ Command.acks id) cs
      → IsPresent id (abstract redis name db)
      → IsPresent id (abstract redis name (exec_all redis name cs db))
  unfolding exec_all
  exec_all-IsPresent [] id db other h = h
  exec_all-IsPresent (c ∷ cs) id db other h =
      exec_all-IsPresent cs id (exec redis name c db) other.1 (
        subst (IsPresent id) (sym (exec-abstract_step redis name c db)) (
          abstract_step-IsPresent c (expired_ids redis name c db) id (abstract redis name db)
            other.0 h))
