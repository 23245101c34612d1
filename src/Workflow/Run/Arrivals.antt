-- ===== src/Workflow/Run/Arrivals.antt =====
-- The results of one wave: which step sends which, and what they do to the map of results.
use anchora.Prelude.{
  ◌+◌, ◌≤◌, ◌≡◌, refl, sym, ap, ◌∙◌, subst, true, List, [], ◌∷◌, ◌++◌, map, length, length-perm,
  length-append, All, All-perm, Permᴰ, perm_append_right, perm_sym, arith, ◌⊎◌, inl, inr,
  Result-cases,
}
use anchora.Workflow.{Status, Step, StepResult, Options, Results, Schedule}
use anchora.Workflow.Render.{render_prompt}
use anchora.Workflow.Retry.Outcome.{run_step-Ends, Ends}
use anchora.Workflow.Waves.{put, all_succeeded, ready_wave}
use anchora.Workflow.Run.{Context, State, agent_of, step_result, put_all, run_wave}
use anchora.Workflow.Run.Invariant.{
  Inv, Inv-perm, settle, Reason, Extends, Extends-put, is_terminal,
}
use anchora.Workflow.Run.Skips.{IsFree, skip_blocked_lem}
use anchora.Workflow.Run.Progress.{ready_wave-perm, ready_wave-succeeded}

-- A wave's results, in the order of their arrival, are those of its steps in some order.
unmap :
    {A B : Type 0} (f : A → B) {zs ys : List B} (xs : List A)
    → Permᴰ zs ys
    → zs ≡ map f xs
    → (xs' : List A) × Permᴰ xs xs' × (ys ≡ map f xs')
unmap f [] Permᴰ.nil e = ([], Permᴰ.nil, e)
unmap f (x ∷ xs) Permᴰ.nil e = absurd (cc)
unmap f [] (Permᴰ.cons h p) e = absurd (cc)
unmap f (x ∷ xs) (Permᴰ.cons h p) e =
    let (xs', q, e') = unmap f xs p (ground arith) in (x ∷ xs', Permᴰ.cons refl q, cc (e, h, e'))
unmap f [] (Permᴰ.swap g h) e = absurd (cc)
unmap f (x ∷ []) (Permᴰ.swap g h) e = absurd (cc)
unmap f (x ∷ y ∷ xs) (Permᴰ.swap g h) e = (y ∷ x ∷ xs, Permᴰ.swap refl refl, cc (e, g, h))
unmap f xs (Permᴰ.trans p q) e =
    let (xs', p', e') = unmap f xs p e in
    let (xs'', q', e'') = unmap f xs' q e' in (xs'', Permᴰ.trans p' q', e'')

module _ (context : Context) (options : Options) where
  pub step_result-id :
      (results : Results) (s : Step) → (step_result context options results s).id ≡ s.id
  unfolding step_result
  step_result-id results s = elim (Result-cases (render_prompt s.prompt results)) [
    | inl (p, e) ↦
        rw (e, step_result)
          (elim (run_step-Ends options (context s.id) s.id (agent_of s.agent) p) [
            | Ends.succeeds n output h f reply q ↦ ap (λ r. r.id) q
            | Ends.exhausts m f reply q ↦ ap (λ r. r.id) q
            | Ends.cancelled n m cause h f reply stops q ↦ ap (λ r. r.id) q
          ])
    | inr (m, e) ↦ rw (e, step_result) refl
  ]

  -- What a ready step sends is a success or a failure.
  pub step_result-terminal :
      (results : Results) (s : Step)
      → ((step_result context options results s).status ≡ Status.succeeded)
        ⊎ ((step_result context options results s).status ≡ Status.failed)
  unfolding step_result
  step_result-terminal results s = elim (Result-cases (render_prompt s.prompt results)) [
    | inl (p, e) ↦
        rw (e, step_result)
          (elim (run_step-Ends options (context s.id) s.id (agent_of s.agent) p) [
            | Ends.succeeds n output h f reply q ↦ inl (ap (λ r. r.status) q)
            | Ends.exhausts m f reply q ↦ inr (ap (λ r. r.status) q)
            | Ends.cancelled n m cause h f reply stops q ↦ inr (ap (λ r. r.status) q)
          ])
    | inr (m, e) ↦ rw (e, step_result) (inr refl)
  ]

  module _ (steps : List Step) where
    settle-All :
        (seen : Results) (ready rest : List Step) (results : Results)
        → Inv context options steps (ready ++ rest) results
        → Extends seen results
        → All (λ s. all_succeeded s.depends_on seen ≡ true) ready
        → Inv context options steps rest
            (put_all (map (step_result context options seen) ready) results)
    unfolding put_all
    settle-All seen [] rest results v x h = v
    settle-All seen (s ∷ ready) rest results v x h =
        settle-All seen ready rest (put r results)
          (settle context options steps r v same done (Reason.ran seen x' h.0 refl)) x' h.1
      where
        r : StepResult
        r = step_result context options seen s

        same : r.id ≡ s.id
        same = step_result-id seen s

        done : is_terminal r.status ≡ true
        done = elim (step_result-terminal seen s) [
          | inl e ↦ ap is_terminal e
          | inr e ↦ ap is_terminal e
        ]

        x' : Extends seen (put r results)
        x' id y e = Extends-put results r (ap results same ∙ v.fresh.0) id y (x id y e)

    -- One wave: the invariant, free steps and, where it was not empty, fewer of them.
    pub run_wave_lem :
        (schedule : Schedule) (s : State)
        → Inv context options steps s.remaining s.results
        → let (ready, rest) = ready_wave schedule s.remaining s.results in
          let s' = run_wave schedule context options s ready rest in
          Inv context options steps s'.remaining s'.results
          × All (IsFree s'.results) s'.remaining
          × (length s'.remaining + length ready ≤ length s.remaining)
    unfolding run_wave
    run_wave_lem schedule s v =
        let (ready, rest) = ready_wave schedule s.remaining s.results in
        let f = step_result context options s.results in
        let split = ready_wave-perm schedule s.remaining s.results in
        let (ready', p, e) = unmap f ready (perm_sym (schedule.arrivals_perm (map f ready))) refl in
        let v' = Inv-perm context options steps (Permᴰ.trans split (perm_append_right rest p)) v in
        let succeeded =
          All-perm _ ready ready' p (ready_wave-succeeded schedule s.remaining s.results) in
        let settled = settle-All s.results ready' rest s.results v' (λ id r h. h) succeeded in
        let (after, free, le) =
          skip_blocked_lem context options steps schedule rest
            (put_all (schedule.arrivals (map f ready)) s.results)
            (subst (λ l. Inv context options steps rest (put_all l s.results)) (sym e) settled) in
        (
          after,
          free,
          omega
              (arith, le, length-append ready rest, length-perm s.remaining (ready ++ rest) split),
        )
