-- ===== src/Workflow/Run/Ends.antt =====
-- The loop of Workflow.Run ends by its own test.
use anchora.Prelude.{
  ℕ, zero, suc, ◌+◌, ◌≤◌, ◌<◌, ◌≡◌, refl, sym, ◌∙◌, ap, subst, true, false, List, [], ◌∷◌, is_empty,
  length, All, arith, ◌⊎◌, inl, inr, Bool-cases,
}
use anchora.Workflow.{Step, Workflow, Schedule}
use anchora.Workflow.Validate.Sound.{IsValid}
use anchora.Workflow.Waves.{ready_wave}
use anchora.Workflow.Run.{Context, State, run_wave, run_waves, start}
use anchora.Workflow.Run.Invariant.{Inv}
use anchora.Workflow.Run.Skips.{IsFree}
use anchora.Workflow.Run.Progress.{ready_wave-progress}
use anchora.Workflow.Run.Arrivals.{run_wave_lem}
use anchora.Workflow.Run.Resume.{start_lem}

is_empty-eq {ℓ} : {A : Type ℓ} (l : List A) → is_empty l ≡ true → l ≡ []
is_empty-eq [] e = refl
is_empty-eq (x ∷ l) e = absurd (cc)

fewer : (l : List Step) {a b : ℕ} → is_empty l ≡ false → a + length l ≤ b → a < b
fewer [] e le = absurd (cc)
fewer (x ∷ l) e le = omega arith

module _ (schedule : Schedule) (context : Context) (w : Workflow) (valid : IsValid w.steps) where
  -- The invariant of the loop.
  abbrev pub IsSound : State → Type 0
  IsSound s =
      Inv context w.options w.steps s.remaining s.results × All (IsFree s.results) s.remaining

  -- The loop has ended, or one round leaves fewer steps.
  pub round :
      (s : State)
      → IsSound s
      → (s.remaining ≡ [])
        ⊎ ((s' : State) × IsSound s'
            × (length s'.remaining < length s.remaining)
            × ((fuel : ℕ)
                → run_waves schedule context w.options (suc fuel) s
                  ≡ run_waves schedule context w.options fuel s'))
  unfolding run_waves
  round s (v, free) = elim (Bool-cases (is_empty s.remaining)) [
    | inl over ↦ inl (is_empty-eq s.remaining over)
    | inr more ↦ elim (Bool-cases (is_empty (ready_wave schedule s.remaining s.results).0)) [
      | inl stuck ↦ inl (
          ready_wave-progress context w.options w.steps valid.rank valid.closed valid.ranked
            schedule s.remaining s.results v free stuck)
      | inr ready ↦
          let wave = ready_wave schedule s.remaining s.results in
          let (v', free', le) = run_wave_lem context w.options w.steps schedule s v in
          inr (
            run_wave schedule context w.options s wave.0 wave.1,
            (v', free'),
            fewer wave.0 ready le,
            λ fuel. rw (more, ready, run_waves) refl,
          )
    ]
  ]

  over : (fuel : ℕ) (s : State) → s.remaining ≡ [] → run_waves schedule context w.options fuel s ≡ s
  unfolding run_waves
  over zero s e = refl
  over (suc fuel) s e =
      let none_left : is_empty s.remaining ≡ true = ap is_empty e in rw (none_left, run_waves) refl

  ends :
      (fuel fuel' : ℕ) (s : State)
      → IsSound s
      → length s.remaining < fuel
      → length s.remaining < fuel'
      → ((run_waves schedule context w.options fuel s).remaining ≡ [])
        × IsSound (run_waves schedule context w.options fuel s)
        × (run_waves schedule context w.options fuel s
            ≡ run_waves schedule context w.options fuel' s)
  ends zero fuel' s sound h h' = absurd (omega arith)
  ends (suc fuel) zero s sound h h' = absurd (omega arith)
  ends (suc fuel) (suc fuel') s sound h h' = elim (round s sound) [
    | inl done ↦ (
      ap (λ (x : State). x.remaining) (over (suc fuel) s done) ∙ done,
      subst IsSound (sym (over (suc fuel) s done)) sound,
      over (suc fuel) s done ∙ sym (over (suc fuel') s done),
    )
    | inr (s', sound', less, step) ↦
        let (rest, last, same) =
          ends fuel fuel' s' sound' (omega (arith, less)) (omega (arith, less)) in
        (
          ap (λ (x : State). x.remaining) (step fuel) ∙ rest,
          subst IsSound (sym (step fuel)) last,
          step fuel ∙ same ∙ sym (step fuel'),
        )
  ]

  start-IsSound : IsSound (start w) × (length (start w).remaining ≤ length w.steps)
  start-IsSound = let (v, free, le) = start_lem context w valid.distinct in ((v, free), le)

  -- What holds of the steps and the results when the loop of a valid workflow has ended.
  pub run_waves-Inv :
      Inv context w.options w.steps []
        (run_waves schedule context w.options (suc (length w.steps)) (start w)).results
  run_waves-Inv =
      let (sound, le) = start-IsSound in
      let (rest, last, same) =
        ends (suc (length w.steps)) (suc (length w.steps)) (start w) sound (omega (arith, le))
          (omega (arith, le)) in
      subst
        (λ l.
          Inv context w.options w.steps l
            (run_waves schedule context w.options (suc (length w.steps)) (start w)).results)
        rest last.0

  -- With more fuel than steps, the loop of a valid workflow ends with no step waiting, and any such
  -- fuel gives what Run's has given.
  pub run_waves-Ends :
      (fuel : ℕ)
      → length w.steps < fuel
      → ((run_waves schedule context w.options fuel (start w)).remaining ≡ [])
        × (run_waves schedule context w.options fuel (start w)
            ≡ run_waves schedule context w.options (suc (length w.steps)) (start w))
  run_waves-Ends fuel more =
      let (sound, le) = start-IsSound in
      let (rest, last, same) =
        ends fuel (suc (length w.steps)) (start w) sound (omega (arith, le, more))
          (omega (arith, le)) in
      (rest, same)
