-- ===== src/Node/Startup.antt =====
-- cmd/anchora/main.go: what a node is built from, and what it leaves open.
use anchora.Prelude.{
  ℕ, zero, suc, ◌*◌, ◌^◌, ◌<◌, String, Bool, true, false, not, ◌⊎◌, ◌≤◌, ap, nat_eq, length, filter,
  Option-cases, is_empty, Option, none, some, List, [], ◌∷◌, ◌≡◌, refl, sym, ◌∙◌, ◌==◌, Result, ok,
  err, arith, Result-elim, if◌then◌else◌, Bool-cases, inl, inr, ok_inj, subst, ==_iff,
}
use anchora.Prelude.Int.{pos, pos_part, ltb_ℤ}
use anchora.Config
use anchora.Config.{Config, AgentConfig, Async, validate_async, database_env, redis_env}
use anchora.Config.Windows.{heartbeat-lt-lease_ms}
use anchora.Agents.{ModelSettings, AgentError, ChatAgent, new_agent}
use anchora.Service
use anchora.Service.{Settings}
use anchora.Service.Windows.{chosen, heartbeat-chosen}
use anchora.Node.{
  Connection, RunError, close_backend, failed_end, no_pool, new_job_service, Goroutine, add, go,
  start_each, start_workers, serve_end, Exit, StartError, Surroundings, Pool, NodeEnd,
  AgentRegistry, find_agent, build_agents, agent_settings, service_settings, run_node,
}

lease-kept : (c : Settings) (n : ℕ) → c.lease_setting ≡ pos n → 0 < n → Service.lease c ≡ pos n
unfolding Service.lease
lease-kept c n e positive = ground (arith, e)

chosen-kept : (h n : ℕ) → 0 < h → h < n → chosen (pos h) (pos n) ≡ pos h
chosen-kept zero n positive less = absurd (omega arith)
chosen-kept (suc k) n positive less =
    let fits : ltb_ℤ (pos (suc k)) (pos n) ≡ true = ground (arith, less) in rw (chosen, fits) refl

heartbeat-kept :
    (c : Settings) (h n : ℕ)
    → c.heartbeat_setting ≡ pos h
    → Service.lease c ≡ pos n
    → 0 < h
    → h < n
    → Service.heartbeat c ≡ pos h
heartbeat-kept c h n e l positive less =
    heartbeat-chosen c ∙ rw (l, e) (chosen-kept h n positive less)

-- If the asynchronous section passes validation and its lease is set, to at most what an int64 of
-- nanoseconds holds, then the service of the node has the lease and the heartbeat that the
-- configuration states, not the fallbacks of its own.
pub service_settings-agree :
    (getenv : String → String) (a : Async) (m : ℕ)
    → validate_async getenv a ≡ ok tt
    → a.lease_ms ≡ pos (suc m)
    → 1000000 * suc m < 2 ^ 63
    → (Service.lease (service_settings a) ≡ Config.lease a)
      × (Service.heartbeat (service_settings a) ≡ Config.heartbeat a)
service_settings-agree getenv a m valid window small =
    let (h, set, beat, positive, less) = heartbeat-lt-lease_ms getenv a m valid window small in
    let kept : Service.lease (service_settings a) ≡ pos (1000000 * suc m) =
      lease-kept (service_settings a) (1000000 * suc m) set (omega arith) in
    (
      kept ∙ sym set,
      heartbeat-kept (service_settings a) h (1000000 * suc m) beat kept positive less ∙ sym beat,
    )

abbrev pub is_err : {E A : Type 0} → Result E A → Bool
is_err (err e) = true
is_err (ok a) = false

-- The `sync.WaitGroup` counts every goroutine of the pool.
abbrev IsTracked : Pool → Type 0
IsTracked pool = pool.counter ≡ length pool.goroutines

start_each-IsTracked :
    (draw : ℕ → Result String String) (count n : ℕ) (pool : Pool)
    → IsTracked pool
    → IsTracked (start_each draw count n pool).0
unfolding start_each
start_each-IsTracked draw zero n pool tracked = tracked
start_each-IsTracked draw (suc count) n pool tracked =
    Result-elim (λ (r : Pool × Option StartError). IsTracked r.0) (draw n) _ _ (λ e h. tracked)
      (λ id h.
        start_each-IsTracked draw count (suc n) (go (Goroutine.runs_worker id) (add pool))
          (ap suc tracked))

start_workers-IsTracked :
    (draw : ℕ → Result String String) (a : Async) (pool : Pool)
    → IsTracked pool
    → IsTracked (start_workers draw a pool).0
unfolding start_workers
start_workers-IsTracked draw a pool tracked =
    let kept = start_each-IsTracked draw (pos_part (Config.worker_count a)) 0 pool tracked in
    elim (Option-cases (start_each draw (pos_part (Config.worker_count a)) 0 pool).1) [
      | inl none_failed ↦ elim (Bool-cases (Config.reaper_enabled a)) [
        | inl on ↦ rw (none_failed, on, start_workers) (ap suc kept)
        | inr off ↦ rw (none_failed, off, start_workers) kept
      ]
      | inr (e, failed) ↦ rw (failed, start_workers) kept
    ]

length-filter : (ended : Goroutine → Bool) (l : List Goroutine) → length (filter ended l) ≤ length l
length-filter ended [] = omega arith
length-filter ended (g ∷ l) = ground (arith, length-filter ended l)

-- All goroutines have returned exactly if as many have as there are.
all_ended :
    (ended : Goroutine → Bool) (l : List Goroutine)
    → nat_eq (length (filter ended l)) (length l) ≡ is_empty (filter (λ g. not (ended g)) l)
all_ended ended [] = refl
all_ended ended (g ∷ l) = elim (Bool-cases (ended g)) [
  | inl over ↦ ground (arith, over, all_ended ended l)
  | inr runs ↦ ground (arith, runs, length-filter ended l)
]

abbrev pub IsClosed : NodeEnd → Type 0
IsClosed node =
    (node.open_connections ≡ [])
    × ((is_err node.result ≡ true) ⊎ (node.drained ≡ is_empty node.goroutines))

serve_end-IsClosed :
    (pool : Pool) (exit : Exit) → IsTracked pool → IsClosed (serve_end [] pool exit)
serve_end-IsClosed pool (Exit.listener_failed e) tracked = (refl, inl refl)
serve_end-IsClosed pool (Exit.signalled ended) tracked = (
  refl,
  inr (
      ap (nat_eq (length (filter ended pool.goroutines))) tracked
      ∙ all_ended ended pool.goroutines),
)

-- What the backend leaves open: nothing if it cannot be built, and else what its function closes.
abbrev Opens : List Connection × Result StartError Settings → Type 0
Opens (opened, err e) = opened ≡ []
Opens (opened, ok settings) = close_backend opened ≡ []

started-IsClosed :
    (opened : List Connection) (exit : Exit) (start : Pool × Result StartError (Unit {0}))
    → close_backend opened ≡ []
    → IsTracked start.0
    → IsClosed (elim start.1 [
      | err e ↦ failed_end (close_backend opened) start.0 (RunError.start_failed e)
      | ok _ ↦ serve_end (close_backend opened) start.0 exit
    ])
started-IsClosed opened exit (pool, err e) closed tracked = (closed, inl refl)
started-IsClosed opened exit (pool, ok u) closed tracked =
    rw closed (serve_end-IsClosed pool exit tracked)

built-IsClosed :
    (exit : Exit) (start : Pool × Result StartError (Unit {0}))
    (service : List Connection × Result StartError Settings)
    → IsTracked start.0
    → Opens service
    → IsClosed (elim service.1 [
      | err e ↦ failed_end service.0 no_pool (RunError.start_failed e)
      | ok settings ↦ elim start.1 [
        | err e ↦ failed_end (close_backend service.0) start.0 (RunError.start_failed e)
        | ok _ ↦ serve_end (close_backend service.0) start.0 exit
      ]
    ])
built-IsClosed exit start (opened, err e) tracked opens = (opens, inl refl)
built-IsClosed exit start (opened, ok settings) tracked opens =
    started-IsClosed opened exit start opens tracked

module _ {Model : Type 0} (outside : Surroundings Model) where
  new_job_service-Opens : (a : Async) → Opens (new_job_service outside a)
  unfolding new_job_service
  new_job_service-Opens a =
      Result-elim Opens (outside.new_store (outside.getenv (database_env a))) _ _ (λ e h. refl)
        (λ u h.
          Result-elim Opens (outside.new_queue (outside.getenv (redis_env a)) a.queue_name) _ _
            (λ e h'. refl) (λ u' h'. refl))

  -- However `run` ends, no connection of the backend is left open. If it returns no error, then it has
  -- waited for its workers and its reaper exactly if none of them is left running: the `WaitGroup`
  -- counts every goroutine that was started.
  pub run_node-IsClosed : (config : Config) (exit : Exit) → IsClosed (run_node outside config exit)
  unfolding run_node
  run_node-IsClosed config exit =
      Result-elim IsClosed (build_agents (outside.getenv) (outside.new_chat_model) config.agents) _
        _ (λ e h. (refl, inl refl))
        (λ agents h.
          if-IsClosed _ _ config.async.enabled
            (built-IsClosed exit _ (new_job_service outside config.async)
              (start_workers-IsTracked _ config.async no_pool refl)
              (new_job_service-Opens config.async))
            (serve_end-IsClosed no_pool exit refl))
    where
      if-IsClosed :
          (x y : NodeEnd) (b : Bool) → IsClosed x → IsClosed y → IsClosed (if b then x else y)
      if-IsClosed x y true p q = p
      if-IsClosed x y false p q = q

module _ {Model : Type 0} (getenv : String → String)
    (new_chat_model : ModelSettings → Result String Model) where
  -- What the registry has for a name, by what the configuration has.
  abbrev pub Registered : AgentRegistry (ChatAgent Model) → String → Option AgentConfig → Type 0
  Registered registry name none = find_agent registry name ≡ none
  Registered registry name (some definition) =
      (agent : ChatAgent Model) × (find_agent registry name ≡ some agent)
      × (new_agent getenv new_chat_model (agent_settings name definition) ≡ ok agent)

  Registered-later :
      (entry : String × ChatAgent Model) (registry : AgentRegistry (ChatAgent Model))
      (name : String) (o : Option AgentConfig)
      → (entry.0 == name) ≡ false
      → Registered registry name o
      → Registered (entry ∷ registry) name o
  unfolding find_agent
  Registered-later entry registry name none other h = rw other h
  Registered-later entry registry name (some d) other h = (h.0, rw other h.1, h.2)

  Registered-first :
      (name : String) (d : AgentConfig) (agent : ChatAgent Model)
      (registry : AgentRegistry (ChatAgent Model)) (wanted : String)
      → (name == wanted) ≡ true
      → new_agent getenv new_chat_model (agent_settings name d) ≡ ok agent
      → Registered ((name, agent) ∷ registry) wanted (some d)
  unfolding find_agent
  Registered-first name d agent registry wanted same made = (
    agent,
    rw same refl,
    subst (λ n. new_agent getenv new_chat_model (agent_settings n d) ≡ ok agent)
        ((==_iff name wanted).0 same) made,
  )

  -- When the agents could all be built, the registry has an agent for exactly the names of the
  -- configuration, and it is the one that `New` made of the name's definition.
  pub build_agents-Registered :
      (definitions : List (String × AgentConfig)) (registry : AgentRegistry (ChatAgent Model))
      → build_agents getenv new_chat_model definitions ≡ ok registry
      → (name : String) → Registered registry name (find_agent definitions name)
  unfolding build_agents find_agent
  build_agents-Registered [] registry h name = subst (λ r. find_agent r name ≡ none) (ok_inj h) refl
  build_agents-Registered (definition ∷ definitions) registry h name =
      go (new_agent getenv new_chat_model (agent_settings definition.0 definition.1))
        (build_agents getenv new_chat_model definitions) refl
        (λ agents r. build_agents-Registered definitions agents r name) h
    where
      go :
          (made : Result AgentError (ChatAgent Model))
          (rest : Result StartError (AgentRegistry (ChatAgent Model)))
          → new_agent getenv new_chat_model (agent_settings definition.0 definition.1) ≡ made
          → ((agents : AgentRegistry (ChatAgent Model))
              → rest ≡ ok agents
              → Registered agents name (find_agent definitions name))
          → ◌≡◌ {A = Result StartError (AgentRegistry (ChatAgent Model))}
              (elim made [
                | err e ↦ err (StartError.agent_error definition.0 e)
                | ok agent ↦ elim rest [
                  | err e ↦ err e
                  | ok agents ↦ ok ((definition.0, agent) ∷ agents)
                ]
              ])
              (ok registry)
          → Registered registry name
              (if definition.0 == name then some definition.1 else find_agent definitions name)
      go (err e) rest m later h' = absurd (cc)
      go (ok agent) (err e) m later h' = absurd (cc)
      go (ok agent) (ok agents) m later h' =
          subst
            (λ r.
              Registered r name
                (if definition.0 == name then some definition.1 else find_agent definitions name))
            (ok_inj h')
            (elim (Bool-cases (definition.0 == name)) [
              | inl same ↦
                  rw same (Registered-first definition.0 definition.1 agent agents name same m)
              | inr other ↦
                  rw other
                    (Registered-later (definition.0, agent) agents name _ other (later agents refl))
            ])
