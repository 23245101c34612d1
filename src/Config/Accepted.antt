-- ===== src/Config/Accepted.antt =====
-- What a configuration that Load accepts promises.
use anchora.Prelude.{
  String, ◌≡◌, refl, sym, ap, ◌∙◌, true, false, ◌||◌, List, [], ◌∷◌, ◌==◌, if◌then◌else◌, ok, Permᴰ,
  All, All-perm, arith, Bool-cases, inl, inr, Result-cases,
}
use anchora.Prelude.Int.{is_negative}
use anchora.Config.{
  Config, Async, AgentConfig, validate_async, validate_agents, validate, finish_load, database_env,
  redis_env,
}

-- The agent has a name and a model, and no negative limit.
abbrev pub IsUsable : String × AgentConfig → Type 0
IsUsable e =
    ((e.0 == "") ≡ false)
    × ((e.1.model_id == "") ≡ false)
    × (is_negative e.1.max_tokens ≡ false)
    × (is_negative e.1.timeout_ms ≡ false)

module _ (getenv : String → String) where
  validate_agents-IsUsable :
      (l : List (String × AgentConfig)) → validate_agents getenv l ≡ ok tt → All IsUsable l
  unfolding validate_agents
  validate_agents-IsUsable [] h = tt
  validate_agents-IsUsable ((name, agent) ∷ l) h =
      let rest : validate_agents getenv l ≡ ok tt = ground arith in
      ((ground arith, ground arith, ground arith, ground arith), validate_agents-IsUsable l rest)

  validate_async-ok :
      (a : Async)
      → validate_async getenv a ≡ ok tt
      → (a.enabled ≡ true → (getenv (database_env a) == "") ≡ false)
        × (a.enabled ≡ true → (getenv (redis_env a) == "") ≡ false)
  unfolding validate_async
  validate_async-ok a h = (λ on. ground arith, λ on. ground arith)

  validate-ok :
      (visit : List (String × AgentConfig) → List (String × AgentConfig)) (c : Config)
      → validate getenv visit c ≡ ok tt
      → (is_negative c.workflow.max_retries ≡ false)
        × (is_negative c.workflow.retry_delay_ms ≡ false)
        × (validate_async getenv c.async ≡ ok tt)
        × (validate_agents getenv (visit c.agents) ≡ ok tt)
  unfolding validate
  validate-ok visit c h =
      elim (Bool-cases
        (is_negative c.workflow.max_retries || is_negative c.workflow.retry_delay_ms)) [
          | inl bad ↦ absurd (ground (arith, h, bad))
          | inr good ↦ elim (Result-cases (validate_async getenv c.async)) [
            | inl (u, e) ↦ (ground arith, ground arith, e, ground (arith, h, good, e))
            | inr (bad, e) ↦ absurd (ground (arith, h, good, e))
          ]
        ]

  addressed : Config → Config
  addressed c = if c.address == "" then record c { address = ":8080" } else c

  addressed-kept :
      (d : Config)
      → (((addressed d).address == "") ≡ false) × (record (addressed d) { address = d.address } ≡ d)
  unfolding addressed ◌==◌
  addressed-kept d = elim (Bool-cases (d.address == "")) [
    | inl e ↦ (rw (e, addressed) refl, rw (e, addressed) refl)
    | inr e ↦ (rw (e, addressed) e, rw (e, addressed) refl)
  ]

  load-ok :
      (visit : List (String × AgentConfig) → List (String × AgentConfig)) (decoded c : Config)
      → finish_load getenv visit decoded ≡ ok c
      → (addressed decoded ≡ c) × (validate getenv visit c ≡ ok tt)
  unfolding finish_load addressed
  load-ok visit decoded c h = elim (Result-cases (validate getenv visit (addressed decoded))) [
    | inl (u, e) ↦
        let same : addressed decoded ≡ c = ground (arith, h, e) in
        (same, ap (validate getenv visit) (sym same) ∙ e)
    | inr (bad, e) ↦ absurd (ground (arith, h, e))
  ]

  -- A configuration that Load accepts has a listen address, is otherwise the decoded one, has no
  -- negative retry values, only agents with a name, a model and no negative limit, and the URLs of
  -- both backends if jobs are enabled.
  pub finish_load-IsUsable :
      (visit : List (String × AgentConfig) → List (String × AgentConfig))
      → ((l : List (String × AgentConfig)) → Permᴰ (visit l) l)
      → (decoded c : Config) → finish_load getenv visit decoded ≡ ok c
      → ((c.address == "") ≡ false)
        × (record c { address = decoded.address } ≡ decoded)
        × (is_negative c.workflow.max_retries ≡ false)
        × (is_negative c.workflow.retry_delay_ms ≡ false)
        × All IsUsable c.agents
        × (c.async.enabled ≡ true → (getenv (database_env c.async) == "") ≡ false)
        × (c.async.enabled ≡ true → (getenv (redis_env c.async) == "") ≡ false)
  finish_load-IsUsable visit visited decoded c h =
      let (same, valid) = load-ok visit decoded c h in
      let (named, kept) = addressed-kept decoded in
      let (retries, delay, async, agents) = validate-ok visit c valid in
      let (database, redis) = validate_async-ok c.async async in
      (
        ap (λ x. x.address == "") (sym same) ∙ named,
        ap {A = Config} {B = Config} (λ x. record x { address = decoded.address }) (sym same)
            ∙ kept,
        retries,
        delay,
        All-perm IsUsable (visit c.agents) c.agents (visited c.agents)
            (validate_agents-IsUsable (visit c.agents) agents),
        database,
        redis,
      )
