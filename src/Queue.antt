-- ===== src/Queue.antt =====
-- internal/jobs/queue.go: the queue of job IDs, on the commands of a Redis server.
pub mod Refines
pub mod Safety
pub mod Leases
pub mod Ready
mod Samples
use Prim.Native.String.{◌++◌}
use anchora.Prelude.{
  ℕ, ◌+◌, ◌/◌, String, Bool, true, false, Option, none, some, List, [], ◌∷◌, is_empty, nat_eq, ◌==◌,
  if◌then◌else◌, Result, ok, err,
}
use anchora.Prelude.Int.{ℤ, pos_part, is_nonpositive}
use anchora.Redis.{View, Redis, last}

-- `notifyBacklog`, `defaultReclaimBatch`
abbrev pub notify_backlog : ℕ
notify_backlog = 255

abbrev pub default_reclaim_batch : ℕ
default_reclaim_batch = 100

-- `NewQueue`: an empty name is the default one.
abbrev pub queue_name : String → String
queue_name name = if name == "" then "anchora:jobs" else name

-- `time.Now().Add(lease).UnixMilli()`, from nanoseconds.
abbrev pub deadline : ℕ → ℕ → ℕ
deadline now lease = (now + lease) / 1000000

-- What can become of a call: it is done and answered, it is not done, or its answer is lost.
pub data Fault : Type 0 where
  delivered : Fault
  refused lost : String → Fault

-- `HGET … == ARGV[3]`; a missing field is `false` in Lua, and no text.
abbrev pub is_owner : String → Option String → Bool
is_owner owner none = false
is_owner owner (some other) = other == owner

-- The scripts, with the arguments that the methods give them.
pub data Command : Type 0 where
  pushes acks requeues : String → Command
  claims : ℕ → String → Command
  extends : String → ℕ → String → Command
  reclaims : ℕ → ℕ → Command

module _ (redis : Redis) (name : String) where
  open redis use {Db, view, lpush, rpop, ltrim, zadd, zrem, hset, hdel, zrangebyscore}

  abbrev pub leases_key : String
  leases_key = name ++ ":leases"

  abbrev pub owners_key : String
  owners_key = name ++ ":owners"

  abbrev pub notify_key : String
  notify_key = name ++ ":notify"

  -- What the queue's keys hold.
  abbrev pub ready : Db → List String
  ready db = (view db).lists name

  abbrev pub lease_of : Db → String → Option ℕ
  lease_of db id = (view db).scores leases_key id

  abbrev pub owner_of : Db → String → Option String
  owner_of db id = (view db).fields owners_key id

  -- `LPUSH KEYS[4] '1'` and `LTRIM KEYS[4] 0 …`
  unfoldable pub wake : Db → Db
  wake db = ltrim notify_key notify_backlog (lpush notify_key "1" db)

  unfoldable pub push_script : String → Db → Db
  unfolding wake
  push_script id db = wake (lpush name id db)

  unfoldable pub claim_script : ℕ → String → Db → Db × Option String
  claim_script until owner db = elim (last (ready db)) [
    | none ↦ (rpop name db, none)
    | some id ↦ (hset owners_key id owner (zadd leases_key until id (rpop name db)), some id)
  ]

  unfoldable pub ack_script : String → Db → Db
  ack_script id db = hdel owners_key id (zrem leases_key id db)

  unfoldable pub requeue_script : String → Db → Db
  unfolding wake
  requeue_script id db = wake (lpush name id (hdel owners_key id (zrem leases_key id db)))

  -- The reply is `true` for 1 and `false` for 0.
  unfoldable pub extend_script : String → ℕ → String → Db → Db × Bool
  extend_script id until owner db =
      if is_owner owner (owner_of db id)
      then elim (lease_of db id) [
        | none ↦ (db, false)
        | some _ ↦ (zadd leases_key until id db, true)
      ]
      else (db, false)

  -- The loop over `expired`.
  unfoldable pub return_all : List String → Db → Db
  return_all [] db = db
  return_all (id ∷ expired) db =
      return_all expired (lpush name id (hdel owners_key id (zrem leases_key id db)))

  unfoldable pub reclaim_script : ℕ → ℕ → Db → Db × List String
  unfolding return_all wake
  reclaim_script now limit db =
      let expired = zrangebyscore leases_key now limit db in
      let returned = return_all expired db in
      (if is_empty expired then returned else wake returned, expired)

  -- One run of a script, by whichever worker.
  unfoldable pub exec : Command → Db → Db
  unfolding push_script claim_script ack_script requeue_script extend_script reclaim_script
  exec (Command.pushes id) db = push_script id db
  exec (Command.claims until owner) db = (claim_script until owner db).0
  exec (Command.acks id) db = ack_script id db
  exec (Command.requeues id) db = requeue_script id db
  exec (Command.extends id until owner) db = (extend_script id until owner db).0
  exec (Command.reclaims now limit) db = (reclaim_script now limit db).0

  -- Runs of scripts, one after the other: Redis runs one at a time.
  unfoldable pub exec_all : List Command → Db → Db
  unfolding exec
  exec_all [] db = db
  exec_all (c ∷ cs) db = exec_all cs (exec c db)

  -- One call of a script.
  abbrev pub call : {A : Type 0} → Fault → (Db → Db × A) → Db → Db × Result String A
  call Fault.delivered script db = let (db', reply) = script db in (db', ok reply)
  call (Fault.refused e) script db = (db, err e)
  call (Fault.lost e) script db = ((script db).0, err e)

  unfoldable pub push : Fault → String → Db → Db × Result String (Unit {0})
  unfolding push_script
  push fault id = call fault (λ db. (push_script id db, tt))

  -- The wait on the notify list takes a hint, if one is there; `""` is an empty claim.
  unfoldable pub claim : Fault → Fault → String → ℕ → ℕ → Db → Db × Result String String
  unfolding claim_script
  claim fault wait owner now lease db =
      let (db', reply) = call fault (claim_script (deadline now lease) owner) db in
      elim reply [
        | err e ↦ (db', err e)
        | ok (some id) ↦ (db', ok id)
        | ok none ↦ call wait (λ db. (rpop notify_key db, "")) db'
      ]

  unfoldable pub extend : Fault → String → String → ℕ → ℕ → Db → Db × Result String Bool
  unfolding extend_script
  extend fault id owner now lease = call fault (extend_script id (deadline now lease) owner)

  unfoldable pub ack : Fault → String → Db → Db × Result String (Unit {0})
  unfolding ack_script
  ack fault id = call fault (λ db. (ack_script id db, tt))

  unfoldable pub requeue : Fault → String → Db → Db × Result String (Unit {0})
  unfolding requeue_script
  requeue fault id = call fault (λ db. (requeue_script id db, tt))

  abbrev pub reclaim_limit : ℤ → ℕ
  reclaim_limit limit = if is_nonpositive limit then default_reclaim_batch else pos_part limit

  unfoldable pub reclaim : Fault → ℕ → ℤ → Db → Db × Result String (List String)
  unfolding reclaim_script
  reclaim fault now limit = call fault (reclaim_script (now / 1000000) (reclaim_limit limit))
