-- ===== src/Queue/Refines.antt =====
-- The scripts of the queue do what an abstract queue of ready IDs, leases and owners does.
use Prim.Native.String.{◌++◌, count}
use text.Mathlib.TextLemmas.{length-append}
use anchora.Prelude.{
  ℕ, ◌<◌, zero, String, ◌≡◌, refl, ap, ◌∙◌, Bool, true, false, Option, none, some, Option-cases,
  Bool-cases, List, [], ◌∷◌, is_empty, ◌==◌, ==_refl, if◌then◌else◌, arith, inl, inr, assign,
  String-cases,
}
use anchora.Redis.{Redis, last, init}
use anchora.Queue.{
  Command, leases_key, owners_key, notify_key, ready, lease_of, owner_of, is_owner, wake,
  push_script, claim_script, ack_script, requeue_script, extend_script, return_all, reclaim_script,
  exec,
}

-- The queue, without the hints: the ready IDs, of which the last is the next, and the leases.
pub record Abstract : Type 0 where
  pub ready : List String
  pub leases : String → Option ℕ
  pub owners : String → Option String

abbrev pub end_lease : String → Abstract → Abstract
end_lease id s = record s { leases = assign s.leases id none; owners = assign s.owners id none }

abbrev pub make_ready : String → Abstract → Abstract
make_ready id s = record s { ready = id ∷ s.ready }

abbrev pub give : ℕ → String → String → Abstract → Abstract
give until owner id s = record s {
  leases = assign s.leases id (some until);
  owners = assign s.owners id (some owner);
}

abbrev pub return_each : List String → Abstract → Abstract
return_each [] s = s
return_each (id ∷ expired) s = return_each expired (make_ready id (end_lease id s))

abbrev pub renews : String → String → Abstract → Bool
renews id owner s =
    if is_owner owner (s.owners id)
    then elim (s.leases id) [ none ↦ false | some _ ↦ true ]
    else false

-- One step; the list is that of the expired IDs which a reclaim finds.
abbrev pub abstract_step : Command → List String → Abstract → Abstract
abstract_step (Command.pushes id) expired s = make_ready id s
abstract_step (Command.claims until owner) expired s = elim (last s.ready) [
  | none ↦ s
  | some id ↦ give until owner id (record s { ready = init s.ready })
]
abstract_step (Command.acks id) expired s = end_lease id s
abstract_step (Command.requeues id) expired s = make_ready id (end_lease id s)
abstract_step (Command.extends id until owner) expired s =
    if renews id owner s then record s { leases = assign s.leases id (some until) } else s
abstract_step (Command.reclaims now limit) expired s = return_each expired s

init-none : (l : List String) → last l ≡ none → init l ≡ l
unfolding last init
init-none [] h = refl
init-none (x ∷ []) h = absurd (cc)
init-none (x ∷ y ∷ l) h = absurd (last_some x y l h)
  where
    last_some : (x y : String) (l : List String) → last (x ∷ y ∷ l) ≡ none → ⊥
    last_some x y [] h = cc
    last_some x y (z ∷ l) h = last_some y z l h

longer_key : (name suffix : String) → zero < count suffix → ((name ++ suffix) == name) ≡ false
longer_key name suffix h = elim (String-cases (name ++ suffix) name) [
  | inl same ↦ absurd (omega (arith, ap count same, length-append name suffix))
  | inr other ↦ other
]

module _ (redis : Redis) (name : String) where
  open redis use {
    Db, view, lpush, rpop, ltrim, zadd, zrem, hset, hdel, zrangebyscore, view_lpush, view_rpop,
    view_ltrim, view_zadd, view_zrem, view_hset, view_hdel,
  }

  -- What the database holds of the queue.
  abbrev pub abstract : Db → Abstract
  abstract db = record {
    ready = (view db).lists name;
    leases = (view db).scores (leases_key redis name);
    owners = (view db).fields (owners_key redis name);
  }

  notify_apart : (notify_key redis name == name) ≡ false
  notify_apart = longer_key name ":notify" (omega arith)

  abstract-wake : (db : Db) → abstract (wake redis name db) ≡ abstract db
  unfolding wake
  abstract-wake db = rw (view_ltrim, view_lpush, notify_apart) refl

  abstract-release :
      (id : String) (db : Db)
      → abstract (hdel (owners_key redis name) id (zrem (leases_key redis name) id db))
        ≡ end_lease id (abstract db)
  abstract-release id db =
      rw (view_hdel, view_zrem, ==_refl (owners_key redis name), ==_refl (leases_key redis name))
        refl

  abstract-lpush :
      (id : String) (db : Db) → abstract (lpush name id db) ≡ make_ready id (abstract db)
  abstract-lpush id db = rw (view_lpush, ==_refl name) refl

  abstract-rpop :
      (db : Db)
      → abstract (rpop name db) ≡ record (abstract db) { ready = init (ready redis name db) }
  abstract-rpop db = rw (view_rpop, ==_refl name) refl

  -- The hints are no part of the queue.
  pub abstract-hint : (db : Db) → abstract (rpop (notify_key redis name) db) ≡ abstract db
  abstract-hint db = rw (view_rpop, notify_apart) refl

  abstract-give :
      (until : ℕ) (owner id : String) (db : Db)
      → abstract (hset (owners_key redis name) id owner (zadd (leases_key redis name) until id db))
        ≡ give until owner id (abstract db)
  abstract-give until owner id db =
      rw (view_hset, view_zadd, ==_refl (owners_key redis name), ==_refl (leases_key redis name))
        refl

  abstract-zadd :
      (until : ℕ) (id : String) (db : Db)
      → abstract (zadd (leases_key redis name) until id db)
        ≡ record (abstract db) { leases = assign (abstract db).leases id (some until) }
  abstract-zadd until id db = rw (view_zadd, ==_refl (leases_key redis name)) refl

  abstract-return_all :
      (expired : List String) (db : Db)
      → abstract (return_all redis name expired db) ≡ return_each expired (abstract db)
  unfolding return_all
  abstract-return_all [] db = refl
  abstract-return_all (id ∷ expired) db =
      abstract-return_all expired
        (lpush name id (hdel (owners_key redis name) id (zrem (leases_key redis name) id db)))
      ∙ ap (return_each expired) (
          abstract-lpush id (hdel (owners_key redis name) id (zrem (leases_key redis name) id db))
          ∙ ap (make_ready id) (abstract-release id db))

  -- The IDs that a reclaim finds expired.
  abbrev pub expired_ids : Command → Db → List String
  expired_ids (Command.reclaims now limit) db = zrangebyscore (leases_key redis name) now limit db
  expired_ids _ db = []

  abstract-claim :
      (until : ℕ) (owner : String) (db : Db)
      → abstract (claim_script redis name until owner db).0
        ≡ abstract_step (Command.claims until owner) [] (abstract db)
  unfolding claim_script last
  abstract-claim until owner db = elim (Option-cases (last (ready redis name db))) [
    | inl e ↦
        rw (e, claim_script)
          (abstract-rpop db
            ∙ ap (λ l. record (abstract db) { ready = l }) (init-none (ready redis name db) e))
    | inr (id, e) ↦
        rw (e, claim_script)
          (abstract-give until owner id (rpop name db)
            ∙ ap (give until owner id) (abstract-rpop db))
  ]

  pub abstract-extend :
      (id owner : String) (until : ℕ) (db : Db)
      → (abstract (extend_script redis name id until owner db).0
          ≡ abstract_step (Command.extends id until owner) [] (abstract db))
        × ((extend_script redis name id until owner db).1 ≡ renews id owner (abstract db))
  unfolding extend_script
  abstract-extend id owner until db =
      elim (Bool-cases (is_owner owner (owner_of redis name db id))) [
        | inl held ↦ elim (Option-cases (lease_of redis name db id)) [
          | inl e ↦ (rw (held, e, extend_script) refl, rw (held, e, extend_script) refl)
          | inr (n, e) ↦ (
            rw (held, e, extend_script) (abstract-zadd until id db),
            rw (held, e, extend_script) refl,
          )
        ]
        | inr other ↦ (rw (other, extend_script) refl, rw (other, extend_script) refl)
      ]

  -- Each script does one step of the abstract queue.
  pub exec-abstract_step :
      (c : Command) (db : Db)
      → abstract (exec redis name c db) ≡ abstract_step c (expired_ids c db) (abstract db)
  unfolding exec push_script ack_script requeue_script reclaim_script
  exec-abstract_step (Command.pushes id) db =
      abstract-wake (lpush name id db) ∙ abstract-lpush id db
  exec-abstract_step (Command.acks id) db = abstract-release id db
  exec-abstract_step (Command.requeues id) db =
      abstract-wake
        (lpush name id (hdel (owners_key redis name) id (zrem (leases_key redis name) id db)))
      ∙ abstract-lpush id (hdel (owners_key redis name) id (zrem (leases_key redis name) id db))
      ∙ ap (make_ready id) (abstract-release id db)
  exec-abstract_step (Command.claims until owner) db = abstract-claim until owner db
  exec-abstract_step (Command.extends id until owner) db = (abstract-extend id owner until db).0
  exec-abstract_step (Command.reclaims now limit) db =
      elim (Bool-cases (is_empty (zrangebyscore (leases_key redis name) now limit db))) [
        | inl e ↦ rw e (abstract-return_all (zrangebyscore (leases_key redis name) now limit db) db)
        | inr e ↦ rw e (
            abstract-wake
              (return_all redis name (zrangebyscore (leases_key redis name) now limit db) db)
            ∙ abstract-return_all (zrangebyscore (leases_key redis name) now limit db) db)
      ]
