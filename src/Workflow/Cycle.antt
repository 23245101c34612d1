-- ===== src/Workflow/Cycle.antt =====
-- internal/workflow/workflow.go, hasCycle: Kahn's algorithm. A map is a function with the zero value
-- of its type at missing keys; `keys` are those that the loop over `dependencies` visits.
pub mod Build
pub mod Release
pub mod Order
pub mod Correct
use anchora.Prelude.{
  ℕ, zero, suc, ◌+◌, String, Bool, not, List, [], ◌∷◌, ◌++◌, length, filter, contains, assign,
  nat_eq, if◌then◌else◌,
}
use anchora.Prelude.Int.{ℤ, pos, pred_ℤ, is_zero}
use anchora.Workflow.{Step, Schedule}

pub record Graph : Type 0 where
  pub dependencies : String → ℤ
  pub keys : List String
  pub children : String → List String

-- `for _, dep := range step.DependsOn { children[dep] = append(children[dep], step.ID) }`
unfoldable pub add_children : String → List String → (String → List String) → String → List String
add_children id [] children = children
add_children id (dep ∷ deps) children =
    add_children id deps (assign children dep (children dep ++ id ∷ []))

unfoldable pub add_step : Graph → Step → Graph
unfolding add_children
add_step g step = record {
  dependencies = assign g.dependencies step.id (pos (length step.depends_on));
  keys = if contains step.id g.keys then g.keys else g.keys ++ step.id ∷ [];
  children = add_children step.id step.depends_on g.children;
}

unfoldable pub build : Graph → List Step → Graph
unfolding add_step
build g [] = g
build g (step ∷ steps) = build (add_step g step) steps

abbrev pub no_graph : Graph
no_graph = record { dependencies = λ k. pos 0; keys = []; children = λ k. [] }

-- The loop over `children[id]`: the new counts and the new queue.
unfoldable pub release : List String → (String → ℤ) → List String → (String → ℤ) × List String
release [] dependencies ready = (dependencies, ready)
release (child ∷ rest) dependencies ready =
    let left = pred_ℤ (dependencies child) in
    release rest (assign dependencies child left)
      (if is_zero left then ready ++ child ∷ [] else ready)

-- The loop over the queue, with fuel for its rounds: the value of `visited`.
unfoldable pub drain : ℕ → (String → List String) → (String → ℤ) → List String → ℕ → ℕ
unfolding release
drain fuel children dependencies [] visited = visited
drain zero children dependencies (id ∷ ready) visited = visited
drain (suc fuel) children dependencies (id ∷ ready) visited =
    let (dependencies', ready') = release (children id) dependencies ready in
    drain fuel children dependencies' ready' (suc visited)

-- The fuel is one round for each step and one more; `Correct` shows that it is never used up.
unfoldable pub has_cycle : Schedule → List Step → Bool
unfolding build drain
has_cycle schedule steps =
    let g = build no_graph steps in
    let ready = filter (λ id. is_zero (g.dependencies id)) (schedule.visit_keys g.keys) in
    let visited = drain (suc (length steps)) g.children g.dependencies ready 0 in
    not (nat_eq visited (length steps))
