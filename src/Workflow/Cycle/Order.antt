-- ===== src/Workflow/Cycle/Order.antt =====
-- The loop over the queue of hasCycle, and the order in which it visits the steps.
use anchora.Prelude.{
  ℕ, zero, suc, ◌+◌, ◌≤◌, String, ◌≡◌, refl, sym, ap, ◌∙◌, true, false, List, [], ◌∷◌, length,
  contains, occ, Distinct, Subset, length-le_of_Subset, ==_iff, ==_refl, if◌then◌else◌, arith, inl,
  inr, String-cases, Bool-cases, nat_eq,
}
use anchora.Prelude.Int.{ℤ, pos}
use anchora.Workflow.{Step, ids}
use anchora.Workflow.Cycle.{release, drain}
use anchora.Workflow.Cycle.Build.{deps_of, deps_of_absent, contains_of_occ}
use anchora.Workflow.Cycle.Release.{release-dependencies, release-ready, release-ready_absent}

-- How many of the dependencies are not among the visited steps.
abbrev pub unresolved : List String → List String → ℕ
unresolved visited [] = 0
unresolved visited (d ∷ deps) = (if contains d visited then 0 else 1) + unresolved visited deps

pub unresolved-cons :
    (k : String) (visited deps : List String)
    → contains k visited ≡ false
    → unresolved (k ∷ visited) deps + occ k deps ≡ unresolved visited deps
unresolved-cons k visited [] h = refl
unresolved-cons k visited (d ∷ deps) h = elim (String-cases k d) [
  | inl same ↦ ground (
    arith,
    unresolved-cons k visited deps h,
    ap (λ t. contains t visited) same,
    (==_iff k d).1 same,
    (==_iff d k).1 (sym same),
  )
  | inr other ↦ ground (arith, unresolved-cons k visited deps h, ==_iff d k, ==_iff k d)
]

pub unresolved-nil : (deps : List String) → unresolved [] deps ≡ length deps
unresolved-nil [] = refl
unresolved-nil (d ∷ deps) = omega (arith, unresolved-nil deps)

-- With nothing unresolved, each dependency has been visited.
pub visited_of_unresolved :
    (visited deps : List String) (d : String)
    → unresolved visited deps ≡ 0
    → contains d deps ≡ true
    → contains d visited ≡ true
visited_of_unresolved visited [] d h m = absurd (cc)
visited_of_unresolved visited (e ∷ deps) d h m = elim (String-cases e d) [
  | inl same ↦ ground (arith, ap (λ t. contains t visited) same)
  | inr other ↦ ground (arith, visited_of_unresolved visited deps d)
]

pub Distinct-of_occ : (xs : List String) → ((k : String) → occ k xs ≤ 1) → Distinct xs
Distinct-of_occ [] h = tt
Distinct-of_occ (x ∷ xs) h = (
  ground (arith, h x, ==_refl x, contains_of_occ x xs),
  Distinct-of_occ xs (λ k. ground (arith, h k)),
)

module _ (steps : List Step) where
  -- The steps in the order of their visits, the last one first: each stands behind its dependencies.
  abbrev pub IsOrdered : List String → Type 0
  IsOrdered [] = Unit
  IsOrdered (x ∷ visited) = (unresolved visited (deps_of steps x) ≡ 0) × IsOrdered visited

  pub record Inv (visited : List String) (dependencies : String → ℤ) (ready : List String)
      : Type 0 where
    pub counts :
        (k : String)
        → contains k (ids steps) ≡ true
        → dependencies k ≡ pos (unresolved visited (deps_of steps k))
    pub once :
        (k : String)
        → contains k (ids steps) ≡ true
        → occ k ready + occ k visited
          ≡ (if nat_eq (unresolved visited (deps_of steps k)) 0 then 1 else 0)
    pub inside : (k : String) → contains k (ids steps) ≡ false → occ k ready + occ k visited ≡ 0
    pub ordered : IsOrdered visited

  pub visited-Distinct :
      {visited : List String} {dependencies : String → ℤ} {ready : List String}
      → Inv visited dependencies ready
      → Distinct visited
  visited-Distinct {visited} v = Distinct-of_occ visited λ k.
      elim (Bool-cases (contains k (ids steps))) [
        | inl known ↦ ground (arith, v.once k known)
        | inr unknown ↦ omega (arith, v.inside k unknown)
      ]

  pub Subset_of_occ :
      (xs : List String)
      → ((k : String) → contains k (ids steps) ≡ false → occ k xs ≡ 0)
      → Subset xs (ids steps)
  Subset_of_occ [] h = tt
  Subset_of_occ (x ∷ xs) h = (
    elim (Bool-cases (contains x (ids steps))) [
      | inl known ↦ known
      | inr unknown ↦ absurd (ground (arith, h x unknown, ==_refl x))
    ],
    Subset_of_occ xs (λ k e. ground (arith, h k e)),
  )

  pub visited-Subset :
      {visited : List String} {dependencies : String → ℤ} {ready : List String}
      → Inv visited dependencies ready
      → Subset visited (ids steps)
  visited-Subset {visited} v = Subset_of_occ visited (λ k e. omega (arith, v.inside k e))

  module _ (children : String → List String)
      (edges : (k d : String) → occ k (children d) ≡ occ d (deps_of steps k)) where
    -- One round of the loop: the head of the queue is visited.
    round-Inv :
        {visited : List String} {dependencies : String → ℤ} (id : String) (ready : List String)
        → Inv visited dependencies (id ∷ ready)
        → (contains id visited ≡ false)
          × Inv
              (id ∷ visited)
              (release (children id) dependencies ready).0
              (release (children id) dependencies ready).1
    round-Inv {visited} {dependencies} id ready v = (
      fresh,
      record {
        counts = λ k known.
            release-dependencies k (children id) dependencies ready _ (v.counts k known)
              (omega (arith, bound k, edges k id))
            ∙ ap pos (omega (arith, bound k, edges k id));
        once = λ k known. ground (
          arith,
          release-ready k (children id) dependencies ready _ (v.counts k known)
              (omega (arith, bound k, edges k id)),
          bound k,
          edges k id,
          v.once k known,
        );
        inside = λ k unknown. omega (
          arith,
          release-ready_absent k (children id) dependencies ready
              (edges k id ∙ ap (occ id) (deps_of_absent steps k unknown)),
          v.inside k unknown,
        );
        ordered = (resolved, v.ordered);
      },
    )
      where
        known_id : contains id (ids steps) ≡ true
        known_id = elim (Bool-cases (contains id (ids steps))) [
          | inl known ↦ known
          | inr unknown ↦ absurd (ground (arith, v.inside id unknown, ==_refl id))
        ]

        resolved : unresolved visited (deps_of steps id) ≡ 0
        resolved = ground (arith, v.once id known_id, ==_refl id)

        fresh : contains id visited ≡ false
        fresh = ground (arith, v.once id known_id, ==_refl id, contains_of_occ id visited)

        bound :
            (k : String)
            → unresolved (id ∷ visited) (deps_of steps k) + occ id (deps_of steps k)
              ≡ unresolved visited (deps_of steps k)
        bound k = unresolved-cons id visited (deps_of steps k) fresh

    -- The loop ends with an empty queue, and has counted the visited steps: the fuel is enough.
    pub drain_lem :
        (fuel : ℕ) (visited : List String) (dependencies : String → ℤ) (ready : List String)
        → Inv visited dependencies ready
        → length visited + fuel ≡ suc (length (ids steps))
        → (final : List String) × (dependencies' : String → ℤ) × Inv final dependencies' []
          × (drain fuel children dependencies ready (length visited) ≡ length final)
    unfolding drain
    drain_lem fuel visited dependencies [] v e = (visited, dependencies, v, refl)
    drain_lem zero visited dependencies (id ∷ ready) v e = absurd (
        omega
          (arith, length-le_of_Subset visited (ids steps) (visited-Distinct v) (visited-Subset v)))
    drain_lem (suc fuel) visited dependencies (id ∷ ready) v e =
        let (final, dependencies', v', count) =
          drain_lem fuel (id ∷ visited) (release (children id) dependencies ready).0
            (release (children id) dependencies ready).1 (round-Inv id ready v).1 (omega arith) in
        (final, dependencies', v', count)
