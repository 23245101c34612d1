-- ===== src/Workflow/Waves.antt =====
-- internal/workflow/workflow.go, readyWave and skipBlocked. The map `remaining` is the list of its
-- steps; a `range` over it visits them in the order that the schedule gives.
use Prim.Native.Nat.{Ordering}
use Prim.Native.String.{compare}
use anchora.Prelude.{
  ℕ, zero, suc, String, Bool, true, false, not, none, some, List, [], ◌∷◌, length, filter, assign,
  if◌then◌else◌,
}
use anchora.Workflow.{Status, Message, Step, StepResult, Results, Schedule, is_succeeded}

-- `results[result.ID] = result`
abbrev pub put : StepResult → Results → Results
put result results = assign results result.id (some result)

-- `result, ok := results[id]; ok && result.Status == Succeeded`
abbrev pub has_succeeded : Results → String → Bool
has_succeeded results id = elim (results id) [
  | none ↦ false
  | some result ↦ is_succeeded result.status
]

-- `result, ok := results[id]; ok && result.Status != Succeeded`
abbrev pub has_not_succeeded : Results → String → Bool
has_not_succeeded results id = elim (results id) [
  | none ↦ false
  | some result ↦ not (is_succeeded result.status)
]

unfoldable pub all_succeeded : List String → Results → Bool
all_succeeded [] results = true
all_succeeded (id ∷ rest) results =
    if has_succeeded results id then all_succeeded rest results else false

abbrev pub dependencies_succeeded : Step → Results → Bool
dependencies_succeeded step results = all_succeeded step.depends_on results

unfoldable pub any_failed : List String → Results → Bool
any_failed [] results = false
any_failed (id ∷ rest) results =
    if has_not_succeeded results id then true else any_failed rest results

abbrev pub has_failed_dependency : Step → Results → Bool
has_failed_dependency step results = any_failed step.depends_on results

-- `ready[i].ID < ready[j].ID`
abbrev pub before : Step → Step → Bool
before a b = elim (compare a.id b.id) [ Ordering.lt ↦ true | _ ↦ false ]

unfoldable pub insert_by_id : Step → List Step → List Step
insert_by_id step [] = step ∷ []
insert_by_id step (other ∷ rest) =
    let later = insert_by_id step rest in
    if before other step then other ∷ later else step ∷ other ∷ rest

-- sort.Slice by ID; the IDs differ, so the sorted order is unique.
unfoldable pub sort_by_id : List Step → List Step
unfolding insert_by_id
sort_by_id [] = []
sort_by_id (step ∷ rest) = insert_by_id step (sort_by_id rest)

abbrev pub skipped_result : Step → StepResult
skipped_result step = record {
  id = step.id;
  status = Status.skipped;
  attempts = 0;
  output = "";
  error = Message.dependency_failed;
}

-- The inner loop of skipBlocked: what is left, the new results, and `blocked`.
unfoldable pub skip_pass : List Step → Results → List Step × Results × Bool
unfolding any_failed
skip_pass [] results = ([], results, false)
skip_pass (step ∷ rest) results =
    let failed = has_failed_dependency step results in
    let (left, results', blocked) =
      skip_pass rest (if failed then put (skipped_result step) results else results) in
    if failed then (left, results', true) else (step ∷ left, results', blocked)

module _ (schedule : Schedule) where
  -- The ready steps, and what is left of `remaining`.
  unfoldable pub ready_wave : List Step → Results → List Step × List Step
  unfolding sort_by_id all_succeeded
  ready_wave remaining results =
      let visited = schedule.visit_steps remaining in
      (
        sort_by_id (filter (λ step. dependencies_succeeded step results) visited),
        filter (λ step. not (dependencies_succeeded step results)) visited,
      )

  -- The outer loop, on fuel for its rounds.
  unfoldable pub skip_loop : ℕ → List Step → Results → List Step × Results
  unfolding skip_pass
  skip_loop zero remaining results = (remaining, results)
  skip_loop (suc fuel) remaining results =
      let (left, results', blocked) = skip_pass (schedule.visit_steps remaining) results in
      elim blocked [ true ↦ skip_loop fuel left results' | false ↦ (left, results') ]

  -- Each round but the last takes a step away, so this fuel is enough: see `Run.Skips`.
  unfoldable pub skip_blocked : List Step → Results → List Step × Results
  unfolding skip_loop
  skip_blocked remaining results = skip_loop (suc (length remaining)) remaining results
