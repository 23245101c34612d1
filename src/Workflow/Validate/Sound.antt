-- ===== src/Workflow/Validate/Sound.antt =====
-- What NewWorkflow accepts.
use anchora.Prelude.{
  ℕ, String, ◌≡◌, refl, sym, ◌∙◌, true, false, ◌||◌, List, [], ◌∷◌, contains, is_empty, ◌==◌, ok,
  All, All-of_contains, absent_of_All, All-of_absent, Distinct, Subset, arith, Result-cases, All-of,
  inl, inr,
}
use anchora.Prelude.Int.{is_negative}
use anchora.Workflow.{Step, Options, Workflow, Schedule, ids}
use anchora.Workflow.Cycle.{has_cycle}
use anchora.Workflow.Cycle.Correct.{IsRanked, IsClosed, has_cycle_sound, has_cycle_complete}
use anchora.Workflow.Validate.{
  is_nil, check_steps, check_step_dependencies, check_dependencies, new_workflow,
}

-- The step has an ID, a prompt and an agent.
abbrev pub IsFilled : Step → Type 0
IsFilled s = ((s.id == "") ≡ false) × ((s.prompt == "") ≡ false) × (is_nil s.agent ≡ false)

-- The dependencies of one step: none empty, none the step itself, none twice.
abbrev pub IsNamed : Step → Type 0
IsNamed s =
    All (λ d. ((d == "") ≡ false) × ((d == s.id) ≡ false)) s.depends_on × Distinct s.depends_on

-- A runnable workflow.
pub record IsValid (steps : List Step) : Type 0 where
  pub nonempty : is_empty steps ≡ false
  pub filled : All IsFilled steps
  pub distinct : Distinct (ids steps)
  pub named : All IsNamed steps
  pub closed : IsClosed steps
  pub rank : String → ℕ
  pub ranked : IsRanked rank steps

-- What the first loop has ruled out when it ends, and what it has seen.
check_steps-ok :
    (seen : List String) (steps : List Step) (out : List String)
    → check_steps seen steps ≡ ok out
    → All IsFilled steps
      × All (λ k. contains k seen ≡ false) (ids steps)
      × Distinct (ids steps)
      × ((k : String) → contains k out ≡ (contains k (ids steps) || contains k seen))
unfolding check_steps
check_steps-ok seen [] out h = (tt, tt, tt, λ k. ground arith)
check_steps-ok seen (s ∷ l) out h =
    let rest : check_steps (s.id ∷ seen) l ≡ ok out = ground arith in
    let (filled, unseen, distinct, known) = check_steps-ok (s.id ∷ seen) l out rest in
    let (absent, unseen') = absent_of_All s.id seen (ids l) unseen in
    (
      (ground arith, filled),
      (ground arith, unseen'),
      (absent, distinct),
      λ k. ground (arith, known k),
    )

-- It ends so on every list of complete steps with distinct IDs.
check_steps_complete :
    (seen : List String) (steps : List Step)
    → All IsFilled steps
    → All (λ k. contains k seen ≡ false) (ids steps)
    → Distinct (ids steps)
    → (out : List String) × (check_steps seen steps ≡ ok out)
unfolding check_steps
check_steps_complete seen [] f a u = (seen, refl)
check_steps_complete seen (s ∷ l) f a u =
    let (out, e) =
      check_steps_complete (s.id ∷ seen) l f.1 (All-of_absent s.id seen (ids l) u.0 a.1) u.1 in
    (out, ground (arith, e, f.0, a.0))

check_step_dependencies-ok :
    (seen : List String) (id : String) (before deps : List String)
    → check_step_dependencies seen id before deps ≡ ok tt
    → All (λ d. ((d == "") ≡ false) × ((d == id) ≡ false)) deps
      × All (λ d. contains d seen ≡ true) deps
      × All (λ d. contains d before ≡ false) deps
      × Distinct deps
unfolding check_step_dependencies
check_step_dependencies-ok seen id before [] h = (tt, tt, tt, tt)
check_step_dependencies-ok seen id before (d ∷ deps) h =
    let rest : check_step_dependencies seen id (d ∷ before) deps ≡ ok tt = ground arith in
    let (valid, known, unseen, distinct) =
      check_step_dependencies-ok seen id (d ∷ before) deps rest in
    let (absent, unseen') = absent_of_All d before deps unseen in
    ((ground arith, valid), (ground arith, known), (ground arith, unseen'), (absent, distinct))

check_step_dependencies_complete :
    (seen : List String) (id : String) (before deps : List String)
    → All (λ d. ((d == "") ≡ false) × ((d == id) ≡ false)) deps
    → All (λ d. contains d seen ≡ true) deps
    → All (λ d. contains d before ≡ false) deps
    → Distinct deps
    → check_step_dependencies seen id before deps ≡ ok tt
unfolding check_step_dependencies
check_step_dependencies_complete seen id before [] v k a u = refl
check_step_dependencies_complete seen id before (d ∷ deps) v k a u = ground (
  arith,
  check_step_dependencies_complete seen id (d ∷ before) deps v.1 k.1
      (All-of_absent d before deps u.0 a.1) u.1,
  v.0,
  k.0,
  a.0,
  u.0,
)

check_dependencies-ok :
    (seen : List String) (steps : List Step)
    → check_dependencies seen steps ≡ ok tt
    → All IsNamed steps × All (λ s. All (λ d. contains d seen ≡ true) s.depends_on) steps
unfolding check_dependencies
check_dependencies-ok seen [] h = (tt, tt)
check_dependencies-ok seen (s ∷ l) h =
    let here : check_step_dependencies seen s.id [] s.depends_on ≡ ok tt = ground arith in
    let there : check_dependencies seen l ≡ ok tt = ground arith in
    let (valid, known, _, distinct) = check_step_dependencies-ok seen s.id [] s.depends_on here in
    let (named, closed) = check_dependencies-ok seen l there in
    (((valid, distinct), named), (known, closed))

check_dependencies_complete :
    (seen : List String) (steps : List Step)
    → All IsNamed steps
    → All (λ s. All (λ d. contains d seen ≡ true) s.depends_on) steps
    → check_dependencies seen steps ≡ ok tt
unfolding check_dependencies
check_dependencies_complete seen [] n c = refl
check_dependencies_complete seen (s ∷ l) n c = ground (
  arith,
  check_step_dependencies_complete seen s.id [] s.depends_on n.0.0 c.0
      (All-of_contains (λ d. false ≡ false) s.depends_on (λ k m. refl)) n.0.1,
  check_dependencies_complete seen l n.1 c.1,
)

-- Only the keys of `seen` matter.
closed-congr :
    (xs ys : List String) (steps : List Step)
    → ((k : String) → contains k xs ≡ contains k ys)
    → All (λ s. Subset s.depends_on xs) steps
    → All (λ s. Subset s.depends_on ys) steps
closed-congr xs ys steps e =
    All-of (λ s. Subset s.depends_on xs) (λ s. Subset s.depends_on ys) steps
      λ s.
        All-of (λ d. contains d xs ≡ true) (λ d. contains d ys ≡ true) s.depends_on
          λ d m. sym (e d) ∙ m

module _ (schedule : Schedule) (steps : List Step) (options : Options) where
  -- NewWorkflow returns a workflow only for non-negative options and valid steps, and it holds the
  -- steps and the options that it was given.
  pub new_workflow_sound :
      (w : Workflow)
      → new_workflow schedule steps options ≡ ok w
      → IsValid steps
        × (is_negative options.max_retries ≡ false)
        × (is_negative options.retry_delay ≡ false)
        × (w ≡ record { steps = steps; options = options })
  unfolding new_workflow
  new_workflow_sound w h = elim (Result-cases (check_steps [] steps)) [
    | inl (seen, checked) ↦
        let checked_deps : check_dependencies seen steps ≡ ok tt = ground arith in
        let acyclic : has_cycle schedule steps ≡ false = ground arith in
        let (filled, _, distinct, known) = check_steps-ok [] steps seen checked in
        let (named, closed) = check_dependencies-ok seen steps checked_deps in
        let (rank, ranked) = has_cycle_sound schedule steps distinct acyclic in
        let listed : (k : String) → contains k seen ≡ contains k (ids steps) =
          λ k. ground (arith, known k) in
        (
          record {
            nonempty = ground arith;
            filled = filled;
            distinct = distinct;
            named = named;
            closed = closed-congr seen (ids steps) steps listed closed;
            rank = rank;
            ranked = ranked;
          },
          ground arith,
          ground arith,
          ground arith,
        )
    | inr (e, failed) ↦ absurd (ground arith)
  ]

  -- NewWorkflow accepts every valid list of steps with non-negative options.
  pub new_workflow_complete :
      IsValid steps
      → is_negative options.max_retries ≡ false
      → is_negative options.retry_delay ≡ false
      → new_workflow schedule steps options ≡ ok (record { steps = steps; options = options })
  unfolding new_workflow
  new_workflow_complete v r d =
      let nothing_seen = All-of_contains (λ k. false ≡ false) (ids steps) (λ k m. refl) in
      let (seen, e) = check_steps_complete [] steps v.filled nothing_seen v.distinct in
      let (_, _, _, known) = check_steps-ok [] steps seen e in
      let listed : (k : String) → contains k (ids steps) ≡ contains k seen =
        λ k. ground (arith, known k) in
      ground (
        arith,
        e,
        check_dependencies_complete seen steps v.named
            (closed-congr (ids steps) seen steps listed v.closed),
        has_cycle_complete schedule steps v.rank v.distinct v.closed v.ranked,
        v.nonempty,
      )
