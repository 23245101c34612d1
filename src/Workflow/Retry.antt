-- ===== src/Workflow/Retry.antt =====
-- internal/workflow/workflow.go, runStep: the calls of one step's agent, with a linear backoff.
pub mod Outcome
use anchora.Prelude.{
  ℕ, zero, suc, ◌+◌, ◌-◌, ◌*◌, ◌%◌, ◌^◌, String, not, Option, none, some, List, [], ◌∷◌, ◌++◌, ltb,
  if◌then◌else◌,
}
use anchora.Prelude.Int.{ℤ, pos, negsuc, pos_part, ltb_ℤ}
use anchora.Workflow.{Status, Message, Reply, answer, failure, Agent, StepResult, Options}

-- A 64-bit pattern as a signed integer (`time.Duration` is an int64).
abbrev pub to_int64 : ℕ → ℤ
to_int64 n = let r = n % 2 ^ 64 in if ltb r (2 ^ 63) then pos r else negsuc (2 ^ 64 - r - 1)

-- `time.Duration(attempts) * delay`, with its wrap-around.
unfoldable pub backoff : ℕ → ℤ → ℤ
backoff attempts (pos delay) = to_int64 (attempts * delay)
backoff attempts (negsuc n) = to_int64 (2 ^ 64 - attempts * suc n % 2 ^ 64)

-- The loop of runStep, on fuel. `done n` is the context's error if it ends the n-th wait. The second
-- result lists the delays that were waited for.
unfoldable pub step_loop :
    ℕ → Options → (ℕ → Option Message) → Agent → String → StepResult → List ℤ → StepResult × List ℤ
step_loop zero options done agent prompt result delays = (result, delays)
step_loop (suc fuel) options done agent prompt result delays = elim (agent result.attempts prompt) [
  | answer output ↦ (
    record result { status = Status.succeeded; output = output; error = Message.nothing },
    delays,
  )
  | failure message ↦
      if not (ltb_ℤ (pos result.attempts) options.max_retries)
      then (record result { status = Status.failed; error = message }, delays)
      else let attempts = suc result.attempts in
        let waited = delays ++ backoff attempts options.retry_delay ∷ [] in
        elim (done attempts) [
          | some cause ↦
              (record result { status = Status.failed; attempts = attempts; error = cause }, waited)
          | none ↦
              step_loop fuel options done agent prompt
                (record result { status = Status.retrying; attempts = attempts; error = message })
                waited
        ]
]

abbrev pub started : String → StepResult
started id = record {
  id = id;
  status = Status.running;
  attempts = 0;
  output = "";
  error = Message.nothing;
}

-- One round for each attempt that the options allow; `Outcome` shows that these are enough.
unfoldable pub run_step :
    Options → (ℕ → Option Message) → String → Agent → String → StepResult × List ℤ
unfolding step_loop
run_step options done id agent prompt =
    step_loop (suc (pos_part options.max_retries)) options done agent prompt (started id) []
