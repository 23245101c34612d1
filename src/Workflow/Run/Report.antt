-- ===== src/Workflow/Run/Report.antt =====
-- What Run reports besides the results: the error, and the calls of OnStepState.
use anchora.Prelude.{
  ℕ, zero, suc, ◌≡◌, refl, sym, ap, true, false, Option, none, some, List, [], ◌∷◌, is_empty,
  length, All, ◌⊎◌, inl, inr, Bool-cases, All-perm, All-append, perm_sym, map,
}
use anchora.Workflow.{Status, Step, StepResult, Options, Workflow, Results, Schedule, is_failed}
use anchora.Workflow.Validate.Sound.{IsValid}
use anchora.Workflow.Waves.{ready_wave}
use anchora.Workflow.Run.{
  Context, State, WorkflowError, run_wave, run_waves, start, run, collect, result_of, step_result,
}
use anchora.Workflow.Run.Complete.{Explains, run-Explains}
use anchora.Workflow.Run.Arrivals.{step_result-terminal}

-- The reported error is the first failed result.
abbrev pub FirstFailure : List StepResult → Option WorkflowError → Type 0
FirstFailure [] e = e ≡ none
FirstFailure (r ∷ l) e =
    ((is_failed r.status ≡ true) × (e ≡ some (record { step_id = r.id; cause = r.error })))
    ⊎ ((is_failed r.status ≡ false) × FirstFailure l e)

collect-FirstFailure :
    (context : Context) (options : Options) (final final' : Results) (steps : List Step)
    → Explains context options final' steps (collect final steps).0
    → FirstFailure (collect final steps).0 (collect final steps).1
unfolding collect
collect-FirstFailure context options final final' [] h = refl
collect-FirstFailure context options final final' (s ∷ steps) h =
    elim (Bool-cases (is_failed (result_of final s).status)) [
      | inl failed ↦ inl (
        failed,
        rw failed (
            ap (λ i. some (record { step_id = i; cause = (result_of final s).error }))
              (sym h.0.named)),
      )
      | inr fine ↦ inr (fine, rw fine (collect-FirstFailure context options final final' steps h.1))
    ]

-- On a valid workflow, Run reports an error exactly where a step failed, and then it is the error of
-- the first failed step, in the order of the steps.
pub run-FirstFailure :
    (schedule : Schedule) (context : Context) (w : Workflow)
    → IsValid w.steps
    → FirstFailure (run schedule context w).results (run schedule context w).error
unfolding run
run-FirstFailure schedule context w valid =
    let (final, h) = run-Explains schedule context w valid in
    collect-FirstFailure context w.options
      (run_waves schedule context w.options (suc (length w.steps)) (start w)).results final w.steps
      h

-- What OnStepState is told: the results of the steps that were run, none else.
abbrev pub WasRun : StepResult → Type 0
WasRun r = (r.status ≡ Status.succeeded) ⊎ (r.status ≡ Status.failed)

run_wave-observed :
    (schedule : Schedule) (context : Context) (options : Options) (s : State)
    (ready rest : List Step)
    → All WasRun s.observed
    → All WasRun (run_wave schedule context options s ready rest).observed
unfolding run_wave
run_wave-observed schedule context options s ready rest h =
    let sent = map (step_result context options s.results) ready in
    All-append WasRun s.observed (schedule.arrivals sent) h (
      All-perm WasRun sent (schedule.arrivals sent) (perm_sym (schedule.arrivals_perm sent))
        (all_sent ready))
  where
    all_sent : (l : List Step) → All WasRun (map (step_result context options s.results) l)
    all_sent [] = tt
    all_sent (t ∷ l) = (step_result-terminal context options s.results t, all_sent l)

run_waves-observed :
    (schedule : Schedule) (context : Context) (options : Options) (fuel : ℕ) (s : State)
    → All WasRun s.observed
    → All WasRun (run_waves schedule context options fuel s).observed
unfolding run_waves
run_waves-observed schedule context options zero s h = h
run_waves-observed schedule context options (suc fuel) s h =
    elim (Bool-cases (is_empty s.remaining)) [
      | inl over ↦ rw (over, run_waves) h
      | inr more ↦ elim (Bool-cases (is_empty (ready_wave schedule s.remaining s.results).0)) [
        | inl stuck ↦ rw (more, stuck, run_waves) h
        | inr ready ↦
            rw (more, ready, run_waves)
              (run_waves-observed schedule context options fuel _ (
                run_wave-observed schedule context options s
                  (ready_wave schedule s.remaining s.results).0
                  (ready_wave schedule s.remaining s.results).1 h))
      ]
    ]

-- Every result that Run passes to OnStepState is a success or a failure: no retrying state, and no
-- skipped step, is ever observed.
pub run-observed :
    (schedule : Schedule) (context : Context) (w : Workflow)
    → All WasRun (run schedule context w).observed
unfolding run start
run-observed schedule context w =
    run_waves-observed schedule context w.options (suc (length w.steps)) (start w) tt
