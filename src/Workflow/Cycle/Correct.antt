-- ===== src/Workflow/Cycle/Correct.antt =====
-- hasCycle accepts exactly the acyclic workflows.
use anchora.Prelude.{
  ℕ, zero, suc, ◌≤◌, ◌<◌, String, ◌≡◌, refl, sym, ap, ◌∙◌, subst, Bool, true, false, not, List, [],
  ◌∷◌, length, contains, occ, Distinct, Subset, length-le_of_Subset, contains_of_length, ◌==◌,
  ==_iff, ==_refl, if◌then◌else◌, arith, inl, inr, String-cases, nat_eq, All, All-of_contains,
  All-contains, filter, Permᴰ,
}
use anchora.Prelude.Int.{ℤ, pos, is_zero}
use anchora.Workflow.{Step, Schedule, ids}
use anchora.Workflow.Cycle.{build, no_graph, has_cycle}
use anchora.Workflow.Cycle.Build.{
  deps_of, contains_of_occ, occ-children, dependencies-build, occ-keys,
}
use anchora.Workflow.Cycle.Release.{is_zero-pos}
use anchora.Workflow.Cycle.Order.{
  unresolved, unresolved-nil, visited_of_unresolved, IsOrdered, Inv, visited-Distinct,
  visited-Subset, drain_lem,
}

-- Each step is ranked above its dependencies, so that no dependency leads back to it.
abbrev pub IsRanked : (String → ℕ) → List Step → Type 0
IsRanked rank steps = All (λ s. All (λ d. rank d < rank s.id) s.depends_on) steps

-- Every dependency is the ID of a step.
abbrev pub IsClosed : List Step → Type 0
IsClosed steps = All (λ s. Subset s.depends_on (ids steps)) steps

occ-filter :
    (p : String → Bool) (k : String) (xs : List String)
    → occ k (filter p xs) ≡ (if p k then occ k xs else 0)
occ-filter p k [] = ground arith
occ-filter p k (x ∷ xs) = elim (String-cases x k) [
  | inl same ↦ ground (arith, occ-filter p k xs, ap p same, (==_iff x k).1 same)
  | inr other ↦ ground (arith, occ-filter p k xs)
]

occ-perm : (k : String) (xs ys : List String) → Permᴰ xs ys → occ k xs ≡ occ k ys
occ-perm k _ _ Permᴰ.nil = refl
occ-perm k _ _ (Permᴰ.cons {l₁ = xs} {l₂ = ys} e p) =
    omega (arith, occ-perm k xs ys p, ap (λ t. occ k (t ∷ [])) e)
occ-perm k _ _ (Permᴰ.swap {l = l} e f) =
    omega (arith, ap (λ t. occ k (t ∷ [])) e, ap (λ t. occ k (t ∷ [])) f)
occ-perm k _ _ (Permᴰ.trans {l₁ = xs} {l₂ = ys} {l₃ = zs} p q) =
    occ-perm k xs ys p ∙ occ-perm k ys zs q

-- The place of a step in the order of the visits.
place : List String → String → ℕ
place [] k = 0
place (x ∷ visited) k = if x == k then suc (length visited) else place visited k

place-le : (visited : List String) (k : String) → place visited k ≤ length visited
unfolding place
place-le [] k = omega arith
place-le (x ∷ visited) k = ground (arith, place-le visited k)

-- A dependency of a visited step has been visited before it.
place-lt :
    (steps : List Step) (visited : List String) (k d : String)
    → Distinct visited
    → IsOrdered steps visited
    → contains k visited ≡ true
    → contains d (deps_of steps k) ≡ true
    → (contains d visited ≡ true) × (place visited d < place visited k)
unfolding place
place-lt steps [] k d u o m e = absurd (cc)
place-lt steps (x ∷ visited) k d u o m e = elim (String-cases x k) [
  | inl same ↦
      let before =
        visited_of_unresolved visited (deps_of steps k) d
          (ap (λ t. unresolved visited (deps_of steps t)) (sym same) ∙ o.0) e in
      ground (
        arith,
        before,
        place-le visited d,
        ==_iff x d,
        ap (λ t. contains t visited) same,
        (==_iff x k).1 same,
        absent d before,
      )
  | inr other ↦
      let (before, less) = place-lt steps visited k d u.1 o.1 (ground arith) e in
      ground (arith, before, less, absent d before)
]
  where
    absent : (j : String) → contains j visited ≡ true → (x == j) ≡ false
    absent j before = elim (String-cases x j) [
      | inl same ↦ absurd (cc (u.0, before, ap (λ t. contains t visited) same))
      | inr other ↦ other
    ]

-- A relation of all steps with their dependencies, by the keys of the steps.
All-of_deps :
    (P : String → String → Type 0) (steps : List Step)
    → Distinct (ids steps)
    → ((k d : String) → contains k (ids steps) ≡ true → contains d (deps_of steps k) ≡ true → P k d)
    → All (λ s. All (P s.id) s.depends_on) steps
unfolding deps_of
All-of_deps P [] u h = tt
All-of_deps P (s ∷ l) u h = (
  All-of_contains (P s.id) s.depends_on
      λ d m. h s.id d (ground (arith, ==_refl s.id)) (ground (arith, ==_refl s.id)),
  All-of_deps P l u.1 λ k d known m. elim (String-cases s.id k) [
    | inl same ↦ absurd (cc (u.0, known, same))
    | inr other ↦ h k d (ground arith) (ground arith)
  ],
)

All-deps :
    (P : String → String → Type 0) (steps : List Step) (k d : String)
    → All (λ s. All (P s.id) s.depends_on) steps
    → contains k (ids steps) ≡ true
    → contains d (deps_of steps k) ≡ true
    → P k d
unfolding deps_of
All-deps P [] k d h known m = absurd (cc)
All-deps P (s ∷ l) k d h known m = elim (String-cases s.id k) [
  | inl same ↦
      subst (λ t. P t d) same
        (All-contains (P s.id) s.depends_on d h.0 (ground (arith, (==_iff s.id k).1 same)))
  | inr other ↦ All-deps P l k d h.1 (ground arith) (ground arith)
]

length-ids : (steps : List Step) → length (ids steps) ≡ length steps
length-ids [] = refl
length-ids (s ∷ l) = ap suc (length-ids l)

start-Inv :
    (schedule : Schedule) (steps : List Step)
    → Distinct (ids steps)
    → Inv steps [] (build no_graph steps).dependencies (
        filter
          (λ id. is_zero ((build no_graph steps).dependencies id))
          (schedule.visit_keys (build no_graph steps).keys))
start-Inv schedule steps u = record {
  counts = λ k known.
      dependencies-build k no_graph steps u known ∙ ap pos (sym (unresolved-nil (deps_of steps k)));
  once = λ k known. ground (
    arith,
    queued k,
    ap is_zero (dependencies-build k no_graph steps u known),
    is_zero-pos (length (deps_of steps k)),
    unresolved-nil (deps_of steps k),
  );
  inside = λ k unknown. ground (arith, queued k);
  ordered = tt;
}
  where
    open build no_graph steps use {dependencies, keys}

    queued :
        (k : String)
        → occ k (filter (λ id. is_zero (dependencies id)) (schedule.visit_keys keys))
          ≡ (if is_zero (dependencies k) then (if contains k (ids steps) then 1 else 0) else 0)
    queued k = ground (
      arith,
      occ-filter (λ id. is_zero (dependencies id)) k (schedule.visit_keys keys),
      occ-perm k (schedule.visit_keys keys) keys (schedule.visit_keys_perm keys),
      occ-keys k no_graph steps,
    )

visits :
    (schedule : Schedule) (steps : List Step)
    → Distinct (ids steps)
    → (final : List String) × (dependencies : String → ℤ) × Inv steps final dependencies []
      × (has_cycle schedule steps ≡ not (nat_eq (length final) (length steps)))
unfolding has_cycle
visits schedule steps u =
    let g = build no_graph steps in
    let ready = filter (λ id. is_zero (g.dependencies id)) (schedule.visit_keys g.keys) in
    let (final, dependencies, v, count) =
      drain_lem steps g.children (λ k d. omega (arith, occ-children k d no_graph steps u))
        (suc (length steps)) [] g.dependencies ready (start-Inv schedule steps u)
        (omega (arith, length-ids steps)) in
    (final, dependencies, v, ap (λ n. not (nat_eq n (length steps))) count)

-- A workflow that passes hasCycle, with distinct step IDs, has a ranking of its steps: no step
-- depends on itself, however indirectly.
pub has_cycle_sound :
    (schedule : Schedule) (steps : List Step)
    → Distinct (ids steps)
    → has_cycle schedule steps ≡ false
    → (rank : String → ℕ) × IsRanked rank steps
has_cycle_sound schedule steps u e =
    let (final, dependencies, v, count) = visits schedule steps u in
    let all : length (ids steps) ≤ length final = ground (arith, count, e, length-ids steps) in
    let unique = visited-Distinct steps v in
    (
      place final,
      All-of_deps (λ k d. place final d < place final k) steps u
          λ k d known m.
            (place-lt steps final k d unique v.ordered
              (contains_of_length final (ids steps) k unique (visited-Subset steps v) all known)
              m).1,
    )

-- A workflow with distinct step IDs, known dependencies and a ranking passes hasCycle.
pub has_cycle_complete :
    (schedule : Schedule) (steps : List Step) (rank : String → ℕ)
    → Distinct (ids steps)
    → IsClosed steps
    → IsRanked rank steps
    → has_cycle schedule steps ≡ false
has_cycle_complete schedule steps rank u closed ranked =
    let (final, dependencies, v, count) = visits schedule steps u in
    ground (
      arith,
      count,
      length-ids steps,
      length-le_of_Subset (ids steps) final u (
          All-of_contains (λ k. contains k final ≡ true) (ids steps)
            (λ k known. reached v (suc (rank k)) k known (omega arith))),
      length-le_of_Subset final (ids steps) (visited-Distinct steps v) (visited-Subset steps v),
    )
  where
    resolve :
        (final deps : List String)
        → ((d : String) → contains d deps ≡ true → contains d final ≡ true)
        → unresolved final deps ≡ 0
    resolve final [] h = refl
    resolve final (d ∷ deps) h =
        ground (arith, h d, ==_refl d, resolve final deps (λ j m. h j (ground arith)))

    reached :
        {final : List String} {dependencies : String → ℤ} (v : Inv steps final dependencies [])
        (bound : ℕ) (k : String)
        → contains k (ids steps) ≡ true
        → rank k < bound
        → contains k final ≡ true
    reached v zero k known less = absurd (omega arith)
    reached {final} v (suc bound) k known less = ground (
      arith,
      v.once k known,
      contains_of_occ k final,
      resolve final (deps_of steps k) (λ d m.
          reached v bound d
            (All-deps (λ _ j. contains j (ids steps) ≡ true) steps k d closed known m)
            (omega (arith, All-deps (λ i j. rank j < rank i) steps k d ranked known m))),
    )
