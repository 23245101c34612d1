-- ===== src/Workflow/Retry/Outcome.antt =====
-- What runStep reports, and how long it waits.
use anchora.Prelude.{
  ℕ, zero, suc, ◌+◌, ◌*◌, ◌^◌, ◌≤◌, ◌<◌, String, ◌≡◌, refl, ap, ◌∙◌, Option, none, some,
  Option-cases, List, [], ◌∷◌, ◌++◌, ltb, arith, ◌⊎◌, inl, inr, Bool-cases,
}
use anchora.Prelude.Int.{ℤ, pos, pos_part, ltb_ℤ}
use anchora.Workflow.{Status, Message, Reply, answer, failure, Agent, StepResult, Options}
use anchora.Workflow.Retry.{to_int64, backoff, step_loop, started, run_step}

-- The first `n` calls fail, and no wait after one of them is cut short.
abbrev pub Fails : (ℕ → Option Message) → Agent → String → ℕ → Type 0
Fails done agent prompt n =
    (k : ℕ) → k < n → (m : Message) × (agent k prompt ≡ failure m) × (done (suc k) ≡ none)

-- The three ways in which a step can end, and the result of each.
pub data Ends (max : ℕ) (done : ℕ → Option Message) (id : String) (agent : Agent) (prompt : String)
    (r : StepResult) : Type 0 where
  succeeds :
      (n : ℕ) (output : String)
      → n ≤ max
      → Fails done agent prompt n
      → agent n prompt ≡ answer output
      → r ≡ record {
        id = id;
        status = Status.succeeded;
        attempts = n;
        output = output;
        error = Message.nothing;
      }
      → Ends max done id agent prompt r
  exhausts :
      (m : Message)
      → Fails done agent prompt max
      → agent max prompt ≡ failure m
      → r ≡ record { id = id; status = Status.failed; attempts = max; output = ""; error = m }
      → Ends max done id agent prompt r
  cancelled :
      (n : ℕ) (m cause : Message)
      → n < max
      → Fails done agent prompt n
      → agent n prompt ≡ failure m
      → done (suc n) ≡ some cause
      → r ≡ record { id = id; status = Status.failed; attempts = suc n; output = ""; error = cause }
      → Ends max done id agent prompt r

-- The delays after the failures number `from + 1` up to `from + n`.
unfoldable pub delays_from : ℤ → ℕ → ℕ → List ℤ
delays_from delay from zero = []
delays_from delay from (suc n) = backoff (suc from) delay ∷ delays_from delay (suc from) n

-- 1, 2, 3, … times the delay.
unfoldable pub linear : ℕ → ℕ → ℕ → List ℤ
linear delay from zero = []
linear delay from (suc n) = pos (suc from * delay) ∷ linear delay (suc from) n

delays_from-concat :
    (delay : ℤ) (from n : ℕ)
    → delays_from delay from n ++ backoff (suc (from + n)) delay ∷ []
      ≡ delays_from delay from (suc n)
unfolding delays_from
delays_from-concat delay from zero = ap (λ k. backoff (suc k) delay ∷ []) (omega arith)
delays_from-concat delay from (suc n) =
    ap (λ l. backoff (suc from) delay ∷ l)
      (ap (λ k. delays_from delay (suc from) n ++ backoff (suc k) delay ∷ []) (omega arith)
        ∙ delays_from-concat delay (suc from) n)

to_int64-small : (n : ℕ) → n < 2 ^ 63 → to_int64 n ≡ pos n
to_int64-small n h = ground arith

delays_from-linear :
    (delay max from n : ℕ)
    → from + n ≤ max
    → max * delay < 2 ^ 63
    → delays_from (pos delay) from n ≡ linear delay from n
unfolding delays_from linear backoff
delays_from-linear delay max from zero h b = refl
delays_from-linear delay max from (suc n) h b =
    let le : suc from * delay ≤ max * delay = grind arith in
    ground (
      arith,
      to_int64-small (suc from * delay),
      delays_from-linear delay max (suc from) n (omega arith) b,
    )

Reply-cases : (r : Reply) → ((o : String) × (r ≡ answer o)) ⊎ ((m : Message) × (r ≡ failure m))
Reply-cases (answer o) = inl (o, refl)
Reply-cases (failure m) = inr (m, refl)

module _ (options : Options) (done : ℕ → Option Message) (id : String) (agent : Agent)
    (prompt : String) where
  abbrev max : ℕ
  max = pos_part options.max_retries

  Fails-suc :
      (n : ℕ) (m : Message)
      → Fails done agent prompt n
      → agent n prompt ≡ failure m
      → done (suc n) ≡ none
      → Fails done agent prompt (suc n)
  Fails-suc n m f e d k h = elim (Bool-cases (ltb k n)) [
    | inl less ↦ f k (ground arith)
    | inr other ↦ let same : k ≡ n = ground arith in rw same (m, e, d)
  ]

  test : (a : ℕ) → ltb_ℤ (pos a) options.max_retries ≡ ltb a max
  test a = ground arith

  step_loop-Ends :
      (fuel : ℕ) (r : StepResult) (delays : List ℤ)
      → r.id ≡ id
      → r.output ≡ ""
      → Fails done agent prompt r.attempts
      → r.attempts ≤ max
      → r.attempts + fuel ≡ suc max
      → Ends max done id agent prompt (step_loop fuel options done agent prompt r delays).0
  unfolding step_loop
  step_loop-Ends zero r delays i o f h e = absurd (omega arith)
  step_loop-Ends (suc fuel) r delays i o f h e = elim (Reply-cases (agent r.attempts prompt)) [
    | inl (output, reply) ↦
        rw (reply, step_loop) (Ends.succeeds r.attempts output h f reply (ground arith))
    | inr (m, reply) ↦ elim (Bool-cases (ltb r.attempts max)) [
      | inl more ↦ elim (Option-cases (done (suc r.attempts))) [
        | inl waits ↦
            rw (reply, step_loop, test r.attempts, more, waits)
              (step_loop-Ends fuel
                (record r { status = Status.retrying; attempts = suc r.attempts; error = m })
                (delays ++ backoff (suc r.attempts) options.retry_delay ∷ []) i o
                (Fails-suc r.attempts m f reply waits) (ground arith) (omega arith))
        | inr (cause, stops) ↦
            rw (reply, step_loop, test r.attempts, more, stops)
              (Ends.cancelled r.attempts m cause (ground arith) f reply stops (ground arith))
      ]
      | inr last ↦
          let same : r.attempts ≡ max = ground arith in
          rw (reply, step_loop, test r.attempts, last)
            (Ends.exhausts m (rw same at f) (rw same at reply) (ground arith))
    ]
  ]

  -- A step ends with the first answer, after the last allowed attempt, or with the context, and its
  -- result says which: the number of failed attempts, the output of the answer, and the error of the
  -- last failure or of the context.
  pub run_step-Ends : Ends max done id agent prompt (run_step options done id agent prompt).0
  unfolding run_step
  run_step-Ends =
      step_loop-Ends (suc max) (started id) [] refl refl (λ k h. absurd (omega arith)) (omega arith)
        (omega arith)

  abbrev cut : ℕ → List ℤ
  cut = delays_from options.retry_delay 0

  cut-suc : (n : ℕ) → cut n ++ backoff (suc n) options.retry_delay ∷ [] ≡ cut (suc n)
  cut-suc n =
      ap (λ k. cut n ++ backoff (suc k) options.retry_delay ∷ []) (omega arith)
      ∙ delays_from-concat options.retry_delay 0 n

  step_loop-delays :
      (fuel : ℕ) (r : StepResult)
      → (step_loop fuel options done agent prompt r (cut r.attempts)).1
        ≡ cut (step_loop fuel options done agent prompt r (cut r.attempts)).0.attempts
  unfolding step_loop
  step_loop-delays zero r = refl
  step_loop-delays (suc fuel) r = elim (Reply-cases (agent r.attempts prompt)) [
    | inl (output, reply) ↦ rw (reply, step_loop) refl
    | inr (m, reply) ↦ elim (Bool-cases (ltb r.attempts max)) [
      | inl more ↦ elim (Option-cases (done (suc r.attempts))) [
        | inl waits ↦
            rw (reply, step_loop, test r.attempts, more, waits, cut-suc r.attempts)
              (step_loop-delays fuel
                (record r { status = Status.retrying; attempts = suc r.attempts; error = m }))
        | inr (cause, stops) ↦
            rw (reply, step_loop, test r.attempts, more, stops) (cut-suc r.attempts)
      ]
      | inr last ↦ rw (reply, step_loop, test r.attempts, last) refl
    ]
  ]

  -- One delay for each failed attempt but the last: the backoff of its number.
  run_step-delays :
      (run_step options done id agent prompt).1
      ≡ cut (run_step options done id agent prompt).0.attempts
  unfolding run_step delays_from
  run_step-delays = step_loop-delays (suc max) (started id)

  -- The options' bound on the attempts.
  pub run_step-attempts_le : (run_step options done id agent prompt).0.attempts ≤ max
  run_step-attempts_le = elim run_step-Ends [
    | Ends.succeeds n output h f reply e ↦ omega (arith, ap (λ r. r.attempts) e)
    | Ends.exhausts m f reply e ↦ omega (arith, ap (λ r. r.attempts) e)
    | Ends.cancelled n m cause h f reply stops e ↦ omega (arith, ap (λ r. r.attempts) e)
  ]

  -- Where the delay is not negative and `max_retries * retry_delay` fits an int64, the waits of a step
  -- are 1, 2, 3, … times the delay, one for each of its attempts.
  pub run_step-linear :
      (delay : ℕ)
      → options.retry_delay ≡ pos delay
      → max * delay < 2 ^ 63
      → (run_step options done id agent prompt).1
        ≡ linear delay 0 (run_step options done id agent prompt).0.attempts
  run_step-linear delay e h =
      run_step-delays
      ∙ ap (λ d. delays_from d 0 (run_step options done id agent prompt).0.attempts) e
      ∙ delays_from-linear delay max 0 (run_step options done id agent prompt).0.attempts
          (omega (arith, run_step-attempts_le)) h
