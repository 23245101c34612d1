-- ===== src/Workflow/Cycle/Release.antt =====
-- The loop over `children[id]`, seen at one key.
use anchora.Prelude.{
  ℕ, zero, suc, ◌+◌, ◌-◌, ◌≤◌, String, ◌≡◌, refl, ap, ◌&&◌, List, [], ◌∷◌, ◌++◌, assign, occ,
  ==_iff, if◌then◌else◌, arith, inl, inr, String-cases, nat_eq, ltb,
}
use anchora.Prelude.Int.{ℤ, pos, pred_ℤ, is_zero}
use anchora.Workflow.Cycle.{release}
use anchora.Workflow.Cycle.Build.{occ-append}

pred_ℤ-pos : (n : ℕ) → 1 ≤ n → pred_ℤ (pos n) ≡ pos (n - 1)
pred_ℤ-pos zero h = absurd (omega arith)
pred_ℤ-pos (suc n) h = ap pos (omega arith)

pub is_zero-pos : (n : ℕ) → is_zero (pos n) ≡ nat_eq n 0
is_zero-pos zero = refl
is_zero-pos (suc n) = ground arith

-- Each mention of a key takes one from its count.
pub release-dependencies :
    (k : String) (cs : List String) (dependencies : String → ℤ) (ready : List String) (n : ℕ)
    → dependencies k ≡ pos n
    → occ k cs ≤ n
    → (release cs dependencies ready).0 k ≡ pos (n - occ k cs)
unfolding release
release-dependencies k [] dependencies ready n e h = ground arith
release-dependencies k (c ∷ cs) dependencies ready n e h = elim (String-cases c k) [
  | inl same ↦ ground (
    arith,
    release-dependencies k cs (assign dependencies c (pred_ℤ (dependencies c)))
        (if is_zero (pred_ℤ (dependencies c)) then ready ++ c ∷ [] else ready) (n - 1),
    ap (λ t. pred_ℤ (dependencies t)) same,
    ap pred_ℤ e,
    pred_ℤ-pos n,
    (==_iff c k).1 same,
  )
  | inr other ↦ ground (
    arith,
    release-dependencies k cs (assign dependencies c (pred_ℤ (dependencies c)))
        (if is_zero (pred_ℤ (dependencies c)) then ready ++ c ∷ [] else ready) n,
  )
]

-- A key enters the queue when its count reaches 0, and only then.
pub release-ready :
    (k : String) (cs : List String) (dependencies : String → ℤ) (ready : List String) (n : ℕ)
    → dependencies k ≡ pos n
    → occ k cs ≤ n
    → occ k (release cs dependencies ready).1
      ≡ occ k ready + (if ltb 0 (occ k cs) && nat_eq (occ k cs) n then 1 else 0)
unfolding release
release-ready k [] dependencies ready n e h = ground arith
release-ready k (c ∷ cs) dependencies ready n e h = elim (String-cases c k) [
  | inl same ↦ ground (
    arith,
    release-ready k cs (assign dependencies c (pred_ℤ (dependencies c)))
        (if is_zero (pred_ℤ (dependencies c)) then ready ++ c ∷ [] else ready) (n - 1),
    ap (λ t. pred_ℤ (dependencies t)) same,
    ap pred_ℤ e,
    pred_ℤ-pos n,
    is_zero-pos (n - 1),
    occ-append k ready (c ∷ []),
    (==_iff c k).1 same,
  )
  | inr other ↦ ground (
    arith,
    release-ready k cs (assign dependencies c (pred_ℤ (dependencies c)))
        (if is_zero (pred_ℤ (dependencies c)) then ready ++ c ∷ [] else ready) n,
    occ-append k ready (c ∷ []),
  )
]

-- A key that is not mentioned does not enter the queue.
pub release-ready_absent :
    (k : String) (cs : List String) (dependencies : String → ℤ) (ready : List String)
    → occ k cs ≡ 0
    → occ k (release cs dependencies ready).1 ≡ occ k ready
unfolding release
release-ready_absent k [] dependencies ready h = refl
release-ready_absent k (c ∷ cs) dependencies ready h = ground (
  arith,
  release-ready_absent k cs (assign dependencies c (pred_ℤ (dependencies c)))
      (if is_zero (pred_ℤ (dependencies c)) then ready ++ c ∷ [] else ready),
  occ-append k ready (c ∷ []),
)
