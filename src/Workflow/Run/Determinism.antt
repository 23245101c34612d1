-- ===== src/Workflow/Run/Determinism.antt =====
-- The results do not depend on the schedule, where prompts refer to dependencies only.
use anchora.Prelude.{
  ℕ, zero, suc, ◌<◌, String, ◌≡◌, sym, ap, ◌∙◌, true, some, List, [], ◌∷◌, All, All-contains,
  All-of_contains, contains, arith, inl, inr,
}
use anchora.Workflow.{Step, StepResult, Workflow, Results, Schedule, ids}
use anchora.Workflow.Validate.Sound.{IsValid}
use anchora.Workflow.Run.{Context, run}
use anchora.Workflow.Run.Invariant.{find, find_self, find_known, known_of_find, All-find}
use anchora.Workflow.Run.Complete.{Explains, run-Explains}
use anchora.Workflow.Run.Settled.{
  Settled-of_Reason, Explains-find, Explains-unique, IsLocal, Settled, agree_succeeded, none_failed,
  step_result-local,
}

module _ (context : Context) (w : Workflow) (valid : IsValid w.steps) (local : All IsLocal w.steps)
    (unresumed : w.options.resume ≡ []) (one two : Results) (l m : List StepResult)
    (first : Explains context w.options one w.steps l)
    (second : Explains context w.options two w.steps m) where
  agree_below :
      (n : ℕ) (id : String) → contains id (ids w.steps) ≡ true → valid.rank id < n → one id ≡ two id
  agree_below zero id known less = absurd (omega arith)
  agree_below (suc n) id known less =
      let (s, found) = find_known w.steps id known in
      let (here, same) = All-find IsLocal w.steps id s local found in
      let (below, _) = All-find _ w.steps id s valid.ranked found in
      let (inside, _) = All-find _ w.steps id s valid.closed found in
      let (r, x) = Explains-find context w.options one w.steps l id s first found in
      let (q, y) = Explains-find context w.options two w.steps m id s second found in
      let deps =
        All-of_contains (λ d. one d ≡ two d) s.depends_on
          λ d listed.
            agree_below n d
              (All-contains (λ e. contains e (ids w.steps) ≡ true) s.depends_on d inside listed)
              (omega (
                arith,
                All-contains (λ e. valid.rank e < valid.rank s.id) s.depends_on d below listed,
                ap valid.rank same,
              )) in
      ap one (sym same)
      ∙ x.kept
      ∙ ap some (
          settled_unique s r q deps here
            (Settled-of_Reason context w.options unresumed one s r here x.reason)
            (Settled-of_Reason context w.options unresumed two s q here y.reason))
      ∙ sym y.kept
      ∙ ap two same
    where
      settled_unique :
          (s : Step) (r q : StepResult)
          → All (λ d. one d ≡ two d) s.depends_on
          → IsLocal s
          → Settled context w.options one s r
          → Settled context w.options two s q
          → r ≡ q
      settled_unique s r q deps here (inl (f, e)) (inl (f', e')) = e ∙ sym e'
      settled_unique s r q deps here (inl (f, e)) (inr (g, e')) =
          absurd (none_failed one s.depends_on (agree_succeeded one two s.depends_on deps ∙ g) f)
      settled_unique s r q deps here (inr (g, e)) (inl (f, e')) =
          absurd
            (none_failed two s.depends_on (sym (agree_succeeded one two s.depends_on deps) ∙ g) f)
      settled_unique s r q deps here (inr (g, e)) (inr (g', e')) =
          e ∙ step_result-local context w.options one two s here g deps ∙ sym e'

  same_results : l ≡ m
  same_results =
      Explains-unique context w.options one two w.steps l m
        (all_agree w.steps (find_self w.steps valid.distinct)) first second
    where
      all_agree :
          (steps : List Step)
          → All (λ s. find s.id w.steps ≡ some s) steps
          → All (λ s. one s.id ≡ two s.id) steps
      all_agree [] h = tt
      all_agree (s ∷ steps) h = (
        agree_below (suc (valid.rank s.id)) s.id (known_of_find s.id s w.steps h.0) (omega arith),
        all_agree steps h.1,
      )

-- The results of a valid workflow whose prompts refer to dependencies only, run from the start, do
-- not depend on the schedule: neither on the order in which maps are visited nor on the order in
-- which a wave's results arrive.
pub run-deterministic :
    (one two : Schedule) (context : Context) (w : Workflow)
    → IsValid w.steps
    → All IsLocal w.steps
    → w.options.resume ≡ []
    → (run one context w).results ≡ (run two context w).results
run-deterministic one two context w valid local unresumed =
    same_results context w valid local unresumed _ _ (run one context w).results
      (run two context w).results (run-Explains one context w valid).1
      (run-Explains two context w valid).1
