-- ===== src/Workflow/Run/Settled.antt =====
-- The final results settle what each step returned, where its prompt refers to dependencies only.
use Prim.Native.String.{◌++◌ as ◌++ˢ◌}
use mathlib.Core.Path.{ap₂}
use mathlib.Core.List.{Memᴰ, not-mem-nil}
use anchora.Prelude.{
  zero, String, ◌≡◌, refl, sym, ap, ◌∙◌, subst, Bool, true, false, none, some, some_inj,
  Option-cases, List, [], ◌∷◌, All, All-contains, ◌==◌, All-of, contains, Subset, arith, ◌⊎◌, inl,
  inr, Bool-cases, ok,
}
use anchora.Workflow.{Step, StepResult, Options, Results, is_succeeded}
use anchora.Workflow.Retry.{run_step}
use anchora.Workflow.Waves.{all_succeeded, any_failed, skipped_result, has_succeeded}
use anchora.Workflow.Render.{
  Segment, literal, output_of, segments, output_in, render_prompt, trim_space,
}
use anchora.Workflow.Render.Laws.{references, expand, render_prompt-ok}
use anchora.Workflow.Run.{Context, agent_of, step_result}
use anchora.Workflow.Run.Invariant.{Reason, Extends, find, all_succeeded-Extends}
use anchora.Workflow.Run.Complete.{Explains, IsExplained}

-- The outputs of steps that succeeded.
abbrev pub output_of_step : Results → String → String
output_of_step results id = elim (results id) [ none ↦ "" | some r ↦ r.output ]

output_of_success :
    (results : Results) (id : String)
    → has_succeeded results id ≡ true
    → output_in results id ≡ some (output_of_step results id)
unfolding output_in
output_of_success results id h = ground arith

successes :
    (results : Results) (deps : List String)
    → all_succeeded deps results ≡ true
    → All (λ d. has_succeeded results d ≡ true) deps
unfolding all_succeeded
successes results [] h = tt
successes results (d ∷ deps) h = (ground arith, successes results deps (ground arith))

-- The prompts refer to dependencies only.
abbrev pub IsLocal : Step → Type 0
IsLocal s = Subset (references (segments zero s.prompt)) s.depends_on

-- Such a prompt is always rendered when its step is ready, with the outputs of its dependencies.
pub render-ready :
    (results : Results) (s : Step)
    → IsLocal s
    → all_succeeded s.depends_on results ≡ true
    → render_prompt s.prompt results
      ≡ ok (trim_space (expand (output_of_step results) (segments zero s.prompt)))
render-ready results s local h = render_prompt-ok s.prompt results (output_of_step results) (
    All-of (λ d. contains d s.depends_on ≡ true)
      (λ d. output_in results d ≡ some (output_of_step results d))
      (references (segments zero s.prompt))
      (λ d m. output_of_success results d (
        All-contains (λ e. has_succeeded results e ≡ true) s.depends_on d
          (successes results s.depends_on h) m))
      local)

expand-congr :
    (one two : String → String) (l : List Segment)
    → All (λ id. one id ≡ two id) (references l)
    → expand one l ≡ expand two l
unfolding expand references
expand-congr one two [] h = refl
expand-congr one two (literal c ∷ l) h = ap (λ t. String.◌∷◌ c t) (expand-congr one two l h)
expand-congr one two (output_of id ∷ l) h = ap₂ (λ t u. t ++ˢ u) h.0 (expand-congr one two l h.1)

pub none_failed :
    (results : Results) (deps : List String)
    → all_succeeded deps results ≡ true
    → any_failed deps results ≡ true
    → ⊥
unfolding all_succeeded any_failed
none_failed results [] h f = cc
none_failed results (d ∷ deps) h f = ground (arith, none_failed results deps)

pub agree_succeeded :
    (one two : Results) (deps : List String)
    → All (λ d. one d ≡ two d) deps
    → all_succeeded deps one ≡ all_succeeded deps two
unfolding all_succeeded
agree_succeeded one two [] h = refl
agree_succeeded one two (d ∷ deps) h = ground (
  arith,
  agree_succeeded one two deps h.1,
  ap {B = Bool} (λ o. elim o [ none ↦ false | some r ↦ is_succeeded r.status ]) h.0,
)

-- Two maps agree where one extends the other, on what succeeded in it.
agree_extended :
    (old new : Results) (deps : List String)
    → Extends old new
    → all_succeeded deps old ≡ true
    → All (λ d. old d ≡ new d) deps
unfolding all_succeeded
agree_extended old new [] x h = tt
agree_extended old new (d ∷ deps) x h = elim (Option-cases (old d)) [
  | inl e ↦ absurd (ground (arith, e))
  | inr (r, e) ↦ (e ∙ sym (x d r e), agree_extended old new deps x (ground (arith, e)))
]

module _ (context : Context) (options : Options) where
  -- The one result that the final results allow a step.
  abbrev pub Settled : Results → Step → StepResult → Type 0
  Settled final s r =
      ((any_failed s.depends_on final ≡ true) × (r ≡ skipped_result s))
      ⊎ ((all_succeeded s.depends_on final ≡ true) × (r ≡ step_result context options final s))

  step_result-ok :
      (results : Results) (s : Step) (p : String)
      → render_prompt s.prompt results ≡ ok p
      → step_result context options results s
        ≡ (run_step options (context s.id) s.id (agent_of s.agent) p).0
  unfolding step_result
  step_result-ok results s p e = rw (e, step_result)

  -- On a local prompt, what a step sends is decided by its dependencies.
  pub step_result-local :
      (one two : Results) (s : Step)
      → IsLocal s
      → all_succeeded s.depends_on one ≡ true
      → All (λ d. one d ≡ two d) s.depends_on
      → step_result context options one s ≡ step_result context options two s
  step_result-local one two s local h same =
      step_result-ok one s _ (render-ready one s local h)
      ∙ ap (λ t. (run_step options (context s.id) s.id (agent_of s.agent) (trim_space t)).0)
          (expand-congr (output_of_step one) (output_of_step two) (segments zero s.prompt) (
            All-of (λ d. contains d s.depends_on ≡ true)
              (λ d. output_of_step one d ≡ output_of_step two d)
              (references (segments zero s.prompt))
              (λ d m.
                ap (λ o. elim o [ none ↦ "" | some r ↦ r.output ])
                  (All-contains (λ e. one e ≡ two e) s.depends_on d same m))
              local))
      ∙ sym (
          step_result-ok two s _
            (render-ready two s local (sym (agree_succeeded one two s.depends_on same) ∙ h)))

  module _ (unresumed : options.resume ≡ []) where
    pub Settled-of_Reason :
        (final : Results) (s : Step) (r : StepResult)
        → IsLocal s
        → Reason context options final s r
        → Settled final s r
    Settled-of_Reason final s r local (Reason.resumed m e) =
        absurd (not-mem-nil ∣ subst (Memᴰ r) unresumed m ∣₁)
    Settled-of_Reason final s r local (Reason.blocked e f) = inl (f, e)
    Settled-of_Reason final s r local (Reason.ran seen x h e) = inr (
      all_succeeded-Extends s.depends_on seen final x h,
      e ∙ step_result-local seen final s local h (agree_extended seen final s.depends_on x h),
    )

pub Explains-find :
    (context : Context) (options : Options) (final : Results) (steps : List Step)
    (results : List StepResult) (id : String) (s : Step)
    → Explains context options final steps results
    → find id steps ≡ some s
    → (r : StepResult) × IsExplained context options final s r
unfolding find
Explains-find context options final [] [] id s h e = absurd (cc)
Explains-find context options final [] (r ∷ results) id s h e = absurd h
Explains-find context options final (t ∷ steps) [] id s h e = absurd h
Explains-find context options final (t ∷ steps) (r ∷ results) id s h e =
    elim (Bool-cases (t.id == id)) [
      | inl here ↦
          let same : t ≡ s = ground (arith, here) in
          (r, subst (λ x. IsExplained context options final x r) same h.0)
      | inr later ↦
          Explains-find context options final steps results id s h.1 (ground (arith, later))
    ]

pub Explains-unique :
    (context : Context) (options : Options) (one two : Results) (steps : List Step)
    (l m : List StepResult)
    → All (λ s. one s.id ≡ two s.id) steps
    → Explains context options one steps l
    → Explains context options two steps m
    → l ≡ m
Explains-unique context options one two [] [] [] same h k = refl
Explains-unique context options one two [] [] (r ∷ m) same h k = absurd k
Explains-unique context options one two [] (r ∷ l) m same h k = absurd h
Explains-unique context options one two (s ∷ steps) [] m same h k = absurd h
Explains-unique context options one two (s ∷ steps) (r ∷ l) [] same h k = absurd k
Explains-unique context options one two (s ∷ steps) (r ∷ l) (q ∷ m) same h k =
    ap₂ (λ x y. x ∷ y) (some_inj (sym h.0.kept ∙ same.0 ∙ k.0.kept))
      (Explains-unique context options one two steps l m same.1 h.1 k.1)
