-- ===== src/Workflow/Cycle/Build.antt =====
-- What the first loop of hasCycle builds: the counts, the keys and the reversed edges.
use anchora.Prelude.{
  ◌+◌, String, ◌≡◌, refl, ap, subst, true, false, List, [], ◌∷◌, ◌++◌, length, contains, Distinct,
  assign, occ, ◌==◌, ==_iff, if◌then◌else◌, arith, inl, inr, String-cases, Bool-cases, nat_eq,
}
use anchora.Prelude.Int.{pos}
use anchora.Workflow.{Step, ids}
use anchora.Workflow.Cycle.{Graph, add_children, add_step, build}

-- The dependencies of the step that a key names.
unfoldable pub deps_of : List Step → String → List String
deps_of [] k = []
deps_of (s ∷ l) k = if s.id == k then s.depends_on else deps_of l k

pub occ-append : (k : String) (xs ys : List String) → occ k (xs ++ ys) ≡ occ k xs + occ k ys
occ-append k [] ys = omega arith
occ-append k (x ∷ xs) ys = omega (arith, occ-append k xs ys)

pub occ-zero_of_absent : (k : String) (xs : List String) → contains k xs ≡ false → occ k xs ≡ 0
occ-zero_of_absent k [] h = refl
occ-zero_of_absent k (x ∷ xs) h = ground (arith, occ-zero_of_absent k xs)

pub contains_of_occ :
    (k : String) (xs : List String) → contains k xs ≡ (if nat_eq (occ k xs) 0 then false else true)
contains_of_occ k [] = refl
contains_of_occ k (x ∷ xs) = ground (arith, contains_of_occ k xs)

pub deps_of_absent : (l : List Step) (k : String) → contains k (ids l) ≡ false → deps_of l k ≡ []
unfolding deps_of
deps_of_absent [] k h = refl
deps_of_absent (s ∷ l) k h = ground (arith, deps_of_absent l k)

occ-add_children :
    (k d id : String) (deps : List String) (ch : String → List String)
    → occ k (add_children id deps ch d) ≡ occ k (ch d) + (if id == k then occ d deps else 0)
unfolding add_children
occ-add_children k d id [] ch = ground arith
occ-add_children k d id (e ∷ deps) ch = elim (String-cases e d) [
  | inl same ↦ ground (
    arith,
    occ-add_children k d id deps (assign ch e (ch e ++ id ∷ [])),
    occ-append k (ch e) (id ∷ []),
    ap (λ t. occ k (ch t)) same,
    (==_iff e d).1 same,
  )
  | inr other ↦ ground (arith, occ-add_children k d id deps (assign ch e (ch e ++ id ∷ [])))
]

-- `children[d]` lists a step once for each time that it names `d`.
pub occ-children :
    (k d : String) (g : Graph) (l : List Step)
    → Distinct (ids l)
    → occ k ((build g l).children d) ≡ occ k (g.children d) + occ d (deps_of l k)
unfolding build deps_of
occ-children k d g [] h = omega arith
occ-children k d g (s ∷ l) h = elim (Bool-cases (s.id == k)) [
  | inl same ↦
      let gone : contains k (ids l) ≡ false =
        subst (λ t. contains t (ids l) ≡ false) ((==_iff s.id k).0 same) h.0 in
      ground (
        arith,
        occ-children k d (add_step g s) l h.1,
        occ-add_children k d s.id s.depends_on g.children,
        ap (occ d) (deps_of_absent l k gone),
      )
  | inr other ↦ ground (
    arith,
    occ-children k d (add_step g s) l h.1,
    occ-add_children k d s.id s.depends_on g.children,
  )
]

pub dependencies-build_absent :
    (k : String) (g : Graph) (l : List Step)
    → contains k (ids l) ≡ false
    → (build g l).dependencies k ≡ g.dependencies k
unfolding build
dependencies-build_absent k g [] h = refl
dependencies-build_absent k g (s ∷ l) h =
    ground (arith, dependencies-build_absent k (add_step g s) l)

-- `dependencies[k]` starts as the number of dependencies.
pub dependencies-build :
    (k : String) (g : Graph) (l : List Step)
    → Distinct (ids l)
    → contains k (ids l) ≡ true
    → (build g l).dependencies k ≡ pos (length (deps_of l k))
unfolding build deps_of
dependencies-build k g [] h m = absurd (cc)
dependencies-build k g (s ∷ l) h m = elim (Bool-cases (s.id == k)) [
  | inl same ↦
      let gone : contains k (ids l) ≡ false =
        subst (λ t. contains t (ids l) ≡ false) ((==_iff s.id k).0 same) h.0 in
      ground (arith, dependencies-build_absent k (add_step g s) l gone)
  | inr other ↦ ground (arith, dependencies-build k (add_step g s) l h.1)
]

-- The keys of `dependencies` are the IDs, each once.
pub occ-keys :
    (k : String) (g : Graph) (l : List Step)
    → occ k (build g l).keys
      ≡ (if nat_eq (occ k g.keys) 0 then (if contains k (ids l) then 1 else 0) else occ k g.keys)
unfolding build
occ-keys k g [] = ground arith
occ-keys k g (s ∷ l) = elim (String-cases s.id k) [
  | inl same ↦ ground (
    arith,
    occ-keys k (add_step g s) l,
    occ-append k g.keys (s.id ∷ []),
    contains_of_occ k g.keys,
    ap (λ t. contains t g.keys) same,
    (==_iff s.id k).1 same,
  )
  | inr other ↦ ground (arith, occ-keys k (add_step g s) l, occ-append k g.keys (s.id ∷ []))
]
