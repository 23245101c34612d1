-- ===== src/Workflow/Run/Skips.antt =====
-- skipBlocked keeps the invariant, and leaves no step with a dependency that did not succeed.
use anchora.Prelude.{
  ℕ, zero, suc, ◌+◌, ◌≤◌, ◌<◌, ◌≡◌, refl, sym, ap, subst, false, List, [], ◌∷◌, ◌++◌, length,
  length-perm, All, Permᴰ, perm_middle, perm_middle_sym, perm_sym, perm_refl, if◌then◌else◌, arith,
  inl, inr, Bool-cases,
}
use mathlib.Core.List.{append-nil}
use anchora.Workflow.{Step, Options, Results, Schedule}
use anchora.Workflow.Waves.{put, any_failed, skipped_result, skip_pass, skip_loop, skip_blocked}
use anchora.Workflow.Run.{Context}
use anchora.Workflow.Run.Invariant.{Inv, Inv-perm, settle, Reason, Extends-put, any_failed-Extends}

-- No dependency of the step has a result other than a success.
abbrev pub IsFree : Results → Step → Type 0
IsFree results s = any_failed s.depends_on results ≡ false

-- A round that takes no step away has found every step free, and changes nothing.
skip_pass-still :
    (l : List Step) (results : Results)
    → (skip_pass l results).2 ≡ false
    → ((skip_pass l results).0 ≡ l) × ((skip_pass l results).1 ≡ results) × All (IsFree results) l
unfolding skip_pass
skip_pass-still [] results h = (refl, refl, tt)
skip_pass-still (s ∷ l) results h = elim (Bool-cases (any_failed s.depends_on results)) [
  | inl failed ↦ absurd (ground (arith, failed))
  | inr free ↦
      let (same, same', all) = skip_pass-still l results (ground (arith, free)) in
      (rw free (ap (λ m. s ∷ m) same), rw free same', (free, all))
]

-- A round never adds steps, and takes one away where it reports so.
skip_pass-shorter :
    (l : List Step) (results : Results)
    → length (skip_pass l results).0 + (if (skip_pass l results).2 then 1 else 0) ≤ length l
unfolding skip_pass
skip_pass-shorter [] results = omega arith
skip_pass-shorter (s ∷ l) results =
    let f = any_failed s.depends_on results in
    ground (arith, skip_pass-shorter l (if f then put (skipped_result s) results else results))

module _ (context : Context) (options : Options) (steps : List Step) where
  skip_pass-Inv :
      (l kept : List Step) (results : Results)
      → Inv context options steps (l ++ kept) results
      → Inv context options steps ((skip_pass l results).0 ++ kept) (skip_pass l results).1
  unfolding skip_pass
  skip_pass-Inv [] kept results v = v
  skip_pass-Inv (s ∷ l) kept results v = elim (Bool-cases (any_failed s.depends_on results)) [
    | inl failed ↦ rw failed (
        skip_pass-Inv l kept (put (skipped_result s) results) (
          settle context options steps (skipped_result s) v refl refl (
            Reason.blocked refl (
              any_failed-Extends s.depends_on results (put (skipped_result s) results)
                (Extends-put results (skipped_result s) v.fresh.0) failed))))
    | inr free ↦ rw free (
        Inv-perm context options steps (perm_middle s (skip_pass l results).0 kept) (
          skip_pass-Inv l (s ∷ kept) results
            (Inv-perm context options steps (perm_middle_sym s l kept) v)))
  ]

no_more : (l : List Step) → Permᴰ (l ++ []) l
no_more l = subst (λ m. Permᴰ m l) (sym (append-nil l)) (perm_refl l)

module _ (context : Context) (options : Options) (steps : List Step) (schedule : Schedule) where
  open schedule use {visit_steps, visit_steps_perm}

  skip_loop-Inv :
      (fuel : ℕ) (l : List Step) (results : Results)
      → Inv context options steps l results
      → Inv context options steps
          (skip_loop schedule fuel l results).0
          (skip_loop schedule fuel l results).1
  unfolding skip_loop
  skip_loop-Inv zero l results v = v
  skip_loop-Inv (suc fuel) l results v = elim (Bool-cases (skip_pass (visit_steps l) results).2) [
    | inl again ↦ rw (again, skip_loop) (skip_loop-Inv fuel _ _ next)
    | inr last ↦ rw (last, skip_loop) next
  ]
    where
      next :
          Inv context options steps
            (skip_pass (visit_steps l) results).0
            (skip_pass (visit_steps l) results).1
      next = Inv-perm context options steps (no_more _) (
          skip_pass-Inv context options steps (visit_steps l) [] results (
            Inv-perm context options steps
              (Permᴰ.trans (perm_sym (visit_steps_perm l)) (perm_sym (no_more _))) v))

  skip_loop-IsFree :
      (fuel : ℕ) (l : List Step) (results : Results)
      → length l < fuel
      → All (IsFree (skip_loop schedule fuel l results).1) (skip_loop schedule fuel l results).0
        × (length (skip_loop schedule fuel l results).0 ≤ length l)
  unfolding skip_loop
  skip_loop-IsFree zero l results h = absurd (omega arith)
  skip_loop-IsFree (suc fuel) l results h =
      elim (Bool-cases (skip_pass (visit_steps l) results).2) [
        | inl again ↦
            let fewer : suc (length (skip_pass (visit_steps l) results).0) ≤ length l =
              ground (arith, shorter, again) in
            let (free, le) =
              skip_loop-IsFree fuel _ (skip_pass (visit_steps l) results).1 (omega arith) in
            rw (again, skip_loop) (free, omega arith)
        | inr last ↦
            let (same, same', free) = skip_pass-still (visit_steps l) results last in
            rw (last, skip_loop) (rw (same, same') free, ground (arith, shorter))
      ]
    where
      shorter :
          length (skip_pass (visit_steps l) results).0
            + (if (skip_pass (visit_steps l) results).2 then 1 else 0)
          ≤ length l
      shorter = omega (
        arith,
        skip_pass-shorter (visit_steps l) results,
        length-perm (visit_steps l) l (visit_steps_perm l),
      )

  -- The rounds of skipBlocked end, and then every waiting step is free.
  pub skip_blocked_lem :
      (l : List Step) (results : Results)
      → Inv context options steps l results
      → Inv context options steps
          (skip_blocked schedule l results).0
          (skip_blocked schedule l results).1
        × All (IsFree (skip_blocked schedule l results).1) (skip_blocked schedule l results).0
        × (length (skip_blocked schedule l results).0 ≤ length l)
  unfolding skip_blocked
  skip_blocked_lem l results v =
      let (free, le) = skip_loop-IsFree (suc (length l)) l results (omega arith) in
      (skip_loop-Inv (suc (length l)) l results v, free, le)
