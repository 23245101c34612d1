-- ===== src/Workflow/Run/Complete.antt =====
-- Workflow.Run gives every step of a valid workflow a result, each for a reason.
use anchora.Prelude.{
  ◌≡◌, sym, subst, true, some, Option-cases, List, [], ◌∷◌, All, contains, arith, inl, inr,
}
use anchora.Workflow.{Step, StepResult, Options, Workflow, Results, Schedule, ids}
use anchora.Workflow.Validate.Sound.{IsValid}
use anchora.Workflow.Run.{Context, run, collect, result_of}
use anchora.Workflow.Run.Invariant.{
  Inv, Reason, is_done, is_terminal, find, find_self, known_of_find,
}
use anchora.Workflow.Run.Ends.{run_waves-Inv}

-- The result of a step, at the end of a run with the results `final`.
pub record IsExplained (context : Context) (options : Options) (final : Results) (s : Step)
    (r : StepResult) : Type 0 where
  pub named : r.id ≡ s.id
  pub terminal : is_terminal r.status ≡ true
  pub kept : final s.id ≡ some r
  pub reason : Reason context options final s r

-- One such result for each step, in the order of the steps.
abbrev pub Explains : Context → Options → Results → List Step → List StepResult → Type 0
Explains context options final [] [] = Unit
Explains context options final (s ∷ steps) (r ∷ results) =
    IsExplained context options final s r × Explains context options final steps results
Explains context options final _ _ = ⊥

result_of-some :
    (final : Results) (s : Step) (r : StepResult) → final s.id ≡ some r → result_of final s ≡ r
result_of-some final s r e = ground (arith, e)

collect-Explains :
    (context : Context) (w : Workflow) (final : Results)
    → Inv context w.options w.steps [] final
    → (steps : List Step)
    → All (λ s. (find s.id w.steps ≡ some s) × (contains s.id (ids w.steps) ≡ true)) steps
    → Explains context w.options final steps (collect final steps).0
unfolding collect
collect-Explains context w final v [] h = tt
collect-Explains context w final v (s ∷ steps) h = elim (Option-cases (final s.id)) [
  | inl missing ↦ absurd (unfold is_done in (ground (arith, missing, v.covered s.id h.0.1)))
  | inr (r, e) ↦
      subst
        (λ x.
          IsExplained context w.options final s x
          × Explains context w.options final steps (collect final steps).0)
        (sym (result_of-some final s r e))
        (
          record {
            named = v.named s.id r e;
            terminal = unfold is_done in (ground (arith, e, v.covered s.id h.0.1));
            kept = e;
            reason = v.reasons s.id s r h.0.0 e;
          },
          collect-Explains context w final v steps h.1,
        )
]

known_steps :
    (w : Workflow)
    → IsValid w.steps
    → All (λ s. (find s.id w.steps ≡ some s) × (contains s.id (ids w.steps) ≡ true)) w.steps
known_steps w valid = known w.steps (find_self w.steps valid.distinct)
  where
    known :
        (l : List Step)
        → All (λ s. find s.id w.steps ≡ some s) l
        → All (λ s. (find s.id w.steps ≡ some s) × (contains s.id (ids w.steps) ≡ true)) l
    known [] h = tt
    known (s ∷ l) h = ((h.0, known_of_find s.id s w.steps h.0), known l h.1)

-- Run returns one result for each step of a valid workflow, in order: a success or failure of the
-- step on its rendered prompt, once all of its dependencies had succeeded; a skip, where a
-- dependency failed or was skipped; or the success that it was resumed with.
pub run-Explains :
    (schedule : Schedule) (context : Context) (w : Workflow)
    → IsValid w.steps
    → (final : Results) × Explains context w.options final w.steps (run schedule context w).results
unfolding run
run-Explains schedule context w valid = (
  _,
  collect-Explains context w _ (run_waves-Inv schedule context w valid) w.steps
      (known_steps w valid),
)
