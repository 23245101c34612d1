-- ===== src/Workflow/Samples.antt =====
-- Small workflows, what the code does on them, and the theorems of the parts applied to them.
use anchora.Prelude.{
  ℕ, zero, suc, String, true, false, none, some, List, [], ◌∷◌, ◌≡◌, refl, perm_refl, All, Permᴰ,
  ok, err, ◌==◌, if◌then◌else◌, arith, contains,
}
use anchora.Prelude.Int.{pos, is_negative}
use anchora.Workflow.InOrder.{in_order}
use anchora.Workflow.{
  Status, ValidationError, Message, Agent, answer, failure, Step, StepResult, Options, Workflow,
  Results, Schedule,
}
use anchora.Workflow.Cycle.{has_cycle}
use anchora.Workflow.Cycle.Correct.{IsRanked}
use anchora.Workflow.Validate.{new_workflow}
use anchora.Workflow.Validate.Sound.{IsValid, new_workflow_sound, new_workflow_complete}
use anchora.Workflow.Render.{render_prompt, segments}
use anchora.Workflow.Render.{Segment, literal, output_of}
use anchora.Workflow.Render.Laws.{references, print}
use anchora.Workflow.Render.Written.{AllNames, IsWritten, IsRendered, render_prompt-IsRendered}
use anchora.Workflow.Retry.{run_step, backoff}
use anchora.Workflow.Retry.Outcome.{Ends, run_step-Ends, linear, run_step-linear}
use anchora.Workflow.Waves.{put}
use anchora.Workflow.Run.{Context, run, run_waves, start}
use anchora.Workflow.Run.Ends.{run_waves-Ends}
use anchora.Workflow.Run.Complete.{Explains, run-Explains}
use anchora.Workflow.Run.Report.{FirstFailure, run-FirstFailure, WasRun, run-observed}
use anchora.Workflow.Run.Determinism.{run-deterministic}
use anchora.Workflow.Run.Settled.{IsLocal}

-- It fails once and then answers.
abbrev flaky : Agent
flaky zero prompt = failure (Message.agent_error "busy")
flaky (suc n) prompt = answer "facts"

abbrev broken : Agent
broken n prompt = failure (Message.agent_error "down")

abbrev research : Step
research = record {
  id = "research";
  agent = some flaky;
  prompt = "Explain select.";
  depends_on = [];
}

abbrev summary : Step
summary = record {
  id = "summary";
  agent = some broken;
  prompt = "Summarize {{steps.research.output}} ";
  depends_on = "research" ∷ [];
}

abbrev report : Step
report = record {
  id = "report";
  agent = some flaky;
  prompt = "Report {{steps.summary.output}}";
  depends_on = "summary" ∷ [];
}

abbrev chain : List Step
chain = report ∷ research ∷ summary ∷ []

abbrev twice : Options
twice = record { max_retries = pos 2; retry_delay = pos 5; resume = [] }

abbrev patient : Context
patient id n = none

abbrev chain_workflow : Workflow
chain_workflow = record { steps = chain; options = twice }

program : Unit {0}
unfolding new_workflow has_cycle run render_prompt run_step backoff ◌==◌
program = tt

chain_accepted : new_workflow in_order chain twice ≡ ok chain_workflow
unfolding program
chain_accepted = refl

cycle_rejected :
    new_workflow in_order
      (record report { depends_on = "research" ∷ [] }
        ∷ record research { depends_on = "report" ∷ [] }
        ∷ [])
      twice
    ≡ err ValidationError.dependency_cycle
unfolding program
cycle_rejected = refl

abbrev chain_results : List StepResult
chain_results =
    record {
      id = "report";
      status = Status.skipped;
      attempts = 0;
      output = "";
      error = Message.dependency_failed;
    }
    ∷ record {
      id = "research";
      status = Status.succeeded;
      attempts = 1;
      output = "facts";
      error = Message.nothing;
    }
    ∷ record {
      id = "summary";
      status = Status.failed;
      attempts = 2;
      output = "";
      error = Message.agent_error "down";
    }
    ∷ []

chain_run : (run in_order patient chain_workflow).results ≡ chain_results
unfolding program
chain_run = refl

chain_waits : (run_step twice (patient "summary") "summary" broken "p").1 ≡ pos 5 ∷ pos 10 ∷ []
unfolding program
chain_waits = refl

chain-IsValid : IsValid chain
chain-IsValid = (new_workflow_sound in_order chain twice chain_workflow chain_accepted).0

-- The first two entries in the other order.
swap_two {ℓ} : {A : Type ℓ} → List A → List A
swap_two (x ∷ y ∷ l) = y ∷ x ∷ l
swap_two l = l

swap_two-perm {ℓ} : {A : Type ℓ} (l : List A) → Permᴰ (swap_two l) l
unfolding swap_two
swap_two-perm [] = Permᴰ.nil
swap_two-perm (x ∷ []) = perm_refl (x ∷ [])
swap_two-perm (x ∷ y ∷ l) = Permᴰ.swap refl refl

abbrev swapped : Schedule
swapped = record {
  visit_keys = swap_two;
  visit_keys_perm = swap_two-perm;
  visit_steps = swap_two;
  visit_steps_perm = swap_two-perm;
  arrivals = swap_two;
  arrivals_perm = swap_two-perm;
}

abbrev level : String → ℕ
level id = if id == "report" then 2 else if id == "summary" then 1 else 0

level_ranks : IsRanked level chain
unfolding program
level_ranks = ((omega arith, tt), (tt, ((omega arith, tt), tt)))

chain_acyclic : has_cycle swapped chain ≡ false
unfolding program swap_two
chain_acyclic = refl

chain-IsLocal : All IsLocal chain
unfolding program references
chain-IsLocal = ((refl, tt), (tt, ((refl, tt), tt)))

abbrev research_done : Results
research_done =
    put
      (record {
        id = "research";
        status = Status.succeeded;
        attempts = 0;
        output = "facts";
        error = Message.nothing;
      })
      (λ id. none)

new_workflow_sound_example :
    IsValid chain
    × (is_negative twice.max_retries ≡ false)
    × (is_negative twice.retry_delay ≡ false)
    × (chain_workflow ≡ record { steps = chain; options = twice })
new_workflow_sound_example = new_workflow_sound in_order chain twice chain_workflow chain_accepted

new_workflow_complete_example : new_workflow swapped chain twice ≡ ok chain_workflow
new_workflow_complete_example = new_workflow_complete swapped chain twice chain-IsValid refl refl

run-Explains_example :
    (final : Results) × Explains patient twice final chain
      (run swapped patient chain_workflow).results
run-Explains_example = run-Explains swapped patient chain_workflow chain-IsValid

run-FirstFailure_example :
    FirstFailure
      (run in_order patient chain_workflow).results
      (run in_order patient chain_workflow).error
run-FirstFailure_example = run-FirstFailure in_order patient chain_workflow chain-IsValid

run-observed_example : All WasRun (run in_order patient chain_workflow).observed
run-observed_example = run-observed in_order patient chain_workflow

run-deterministic_example :
    (run in_order patient chain_workflow).results ≡ (run swapped patient chain_workflow).results
run-deterministic_example =
    run-deterministic in_order swapped patient chain_workflow chain-IsValid chain-IsLocal refl

abbrev pieces : List Segment
pieces = literal "S" ∷ literal ":" ∷ literal " " ∷ output_of "research" ∷ literal " " ∷ []

pieces-IsWritten : IsWritten pieces
unfolding program
pieces-IsWritten = (refl, (refl, (refl, (refl, research-AllNames, (refl, tt)))))
  where
    research-AllNames : AllNames "research"
    research-AllNames = (refl, (refl, (refl, (refl, (refl, (refl, (refl, (refl, tt))))))))

render_prompt-IsRendered_example :
    IsRendered pieces research_done (render_prompt (print pieces) research_done)
render_prompt-IsRendered_example = render_prompt-IsRendered pieces research_done pieces-IsWritten

summary_refers : contains "research" (references (segments zero summary.prompt)) ≡ true
unfolding program references
summary_refers = refl

run_step-Ends_example :
    Ends 2
      (patient "summary")
      "summary"
      broken
      "p"
      (run_step twice (patient "summary") "summary" broken "p").0
run_step-Ends_example = run_step-Ends twice (patient "summary") "summary" broken "p"

run_step-linear_example :
    (run_step twice (patient "summary") "summary" broken "p").1
    ≡ linear 5 0 (run_step twice (patient "summary") "summary" broken "p").0.attempts
run_step-linear_example =
    run_step-linear twice (patient "summary") "summary" broken "p" 5 refl (omega arith)

run_waves-Ends_example :
    ((run_waves in_order patient twice 9 (start chain_workflow)).remaining ≡ [])
    × (run_waves in_order patient twice 9 (start chain_workflow)
        ≡ run_waves in_order patient twice 4 (start chain_workflow))
run_waves-Ends_example =
    run_waves-Ends in_order patient chain_workflow chain-IsValid 9 (omega arith)
