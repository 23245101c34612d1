-- ===== src/Workflow/Run/Resume.antt =====
-- The start of Workflow.Run: all steps are waiting, but for those that a prior delivery completed.
use mathlib.Core.List.{Memᴰ, append-nil, append_assoc}
use anchora.Prelude.{
  ◌≤◌, String, ◌≡◌, refl, sym, ap, ◌∙◌, subst, true, false, ◌&&◌, Option, none, some, some_inj,
  Option-cases, List, [], ◌∷◌, ◌++◌, filter, length, length-perm, All, contains, contains-append,
  Distinct, Permᴰ, perm_partition, ==_iff, arith, inl, inr, Bool-cases, String-cases, ◌==◌,
}
use anchora.Workflow.{Status, Step, StepResult, Options, Workflow, Results, ids, is_succeeded}
use anchora.Workflow.Waves.{put, any_failed}
use anchora.Workflow.Run.{Context, add_remaining, all_remaining, delete, resume_from, start}
use anchora.Workflow.Run.Invariant.{Inv, Inv-perm, settle, Reason, find_self, is_terminal}
use anchora.Workflow.Run.Skips.{IsFree}

add_remaining-absent :
    (s : Step) (l : List Step) → contains s.id (ids l) ≡ false → add_remaining s l ≡ l ++ s ∷ []
unfolding add_remaining
add_remaining-absent s [] h = refl
add_remaining-absent s (t ∷ l) h =
    ground (arith, add_remaining-absent s l, ==_iff t.id s.id, ==_iff s.id t.id)

ids-append : (l m : List Step) → ids (l ++ m) ≡ ids l ++ ids m
ids-append [] m = refl
ids-append (s ∷ l) m = ap (λ r. s.id ∷ r) (ids-append l m)

-- The map `remaining` starts as all steps.
all_remaining_lem :
    (before steps : List Step)
    → Distinct (ids steps)
    → All (λ s. contains s.id (ids before) ≡ false) steps
    → all_remaining before steps ≡ before ++ steps
unfolding all_remaining
all_remaining_lem before [] u h = sym (append-nil before)
all_remaining_lem before (s ∷ l) u h =
    rw (add_remaining-absent s before h.0) (
      all_remaining_lem (before ++ s ∷ []) l u.1 (others l u.0 h.1)
      ∙ append_assoc before (s ∷ []) l)
  where
    others :
        (m : List Step)
        → contains s.id (ids m) ≡ false
        → All (λ t. contains t.id (ids before) ≡ false) m
        → All (λ t. contains t.id (ids (before ++ s ∷ [])) ≡ false) m
    others [] a h' = tt
    others (t ∷ m) a h' = (
      ground (
        arith,
        ap (contains t.id) (ids-append before (s ∷ [])),
        contains-append t.id (ids before) (s.id ∷ []),
        h'.0,
        ==_iff s.id t.id,
        ==_iff t.id s.id,
      ),
      others m (ground arith) h'.1,
    )

-- The one step that an ID names.
named_step :
    (id : String) (l : List Step)
    → Distinct (ids l)
    → contains id (ids l) ≡ true
    → (s : Step) × (s.id ≡ id) × (filter (λ t. t.id == id) l ≡ s ∷ [])
named_step id [] u h = absurd (cc)
named_step id (t ∷ l) u h = elim (String-cases t.id id) [
  | inl same ↦ (
    t,
    same,
    rw ((==_iff t.id id).1 same)
        (ap (λ r. t ∷ r) (none_named l (subst (λ k. contains k (ids l) ≡ false) same u.0))),
  )
  | inr other ↦ let (s, same, e) = named_step id l u.1 (ground arith) in (s, same, rw other e)
]
  where
    none_named : (m : List Step) → contains id (ids m) ≡ false → filter (λ x. x.id == id) m ≡ []
    none_named [] a = refl
    none_named (x ∷ m) a = ground (arith, none_named m)

-- Every result so far is a success.
abbrev AllSucceeded : Results → Type 0
AllSucceeded results =
    (id : String) (r : StepResult) → results id ≡ some r → r.status ≡ Status.succeeded

AllSucceeded-put :
    (r : StepResult) (results : Results)
    → r.status ≡ Status.succeeded
    → AllSucceeded results
    → AllSucceeded (put r results)
AllSucceeded-put r results good h id x e = elim (Bool-cases (r.id == id)) [
  | inl here ↦ ap (λ y. y.status) (some_inj (sym (rw here at e))) ∙ good
  | inr other ↦ h id x (rw other at e)
]

free_of_success :
    (results : Results) (deps : List String)
    → AllSucceeded results
    → any_failed deps results ≡ false
unfolding any_failed
free_of_success results [] h = refl
free_of_success results (d ∷ deps) h = elim (Option-cases (results d)) [
  | inl e ↦ ground (arith, e, free_of_success results deps h)
  | inr (r, e) ↦ ground (arith, e, h d r e, free_of_success results deps h)
]

pub All-IsFree : (results : Results) (l : List Step) → AllSucceeded results → All (IsFree results) l
All-IsFree results [] h = tt
All-IsFree results (s ∷ l) h = (free_of_success results s.depends_on h, All-IsFree results l h)

module _ (context : Context) (options : Options) (steps : List Step) where
  resume_from_lem :
      (prior : List StepResult) (remaining : List Step) (results : Results)
      → ((r : StepResult) → Memᴰ r prior → Memᴰ r options.resume)
      → Inv context options steps remaining results
      → AllSucceeded results
      → let (remaining', results') = resume_from prior remaining results in
        Inv context options steps remaining' results'
        × AllSucceeded results'
        × (length remaining' ≤ length remaining)
  unfolding resume_from delete
  resume_from_lem [] remaining results listed v h = (v, h, omega arith)
  resume_from_lem (r ∷ prior) remaining results listed v h =
      elim (Bool-cases (is_succeeded r.status && contains r.id (ids remaining))) [
        | inl taken ↦
            let (s, same, e) = named_step r.id remaining v.distinct (ground arith) in
            let good : r.status ≡ Status.succeeded = ground arith in
            let p : Permᴰ remaining (s ∷ delete r.id remaining) =
              subst (λ l. Permᴰ remaining (l ++ delete r.id remaining)) e
                (perm_partition (λ t. t.id == r.id) remaining) in
            let (v', h', le) =
              resume_from_lem prior (delete r.id remaining) (put r results)
                (λ x m. listed x (Memᴰ.tail m))
                (settle context options steps r (Inv-perm context options steps p v) (sym same)
                  (ap is_terminal good) (Reason.resumed (listed r (Memᴰ.head refl)) good))
                (AllSucceeded-put r results good h) in
            rw (taken, resume_from)
              (v', h', omega (arith, length-perm remaining (s ∷ delete r.id remaining) p))
        | inr kept ↦
            rw (kept, resume_from)
              (resume_from_lem prior remaining results (λ x m. listed x (Memᴰ.tail m)) v h)
      ]

-- What holds when the loop of Run begins.
pub start_lem :
    (context : Context) (w : Workflow)
    → Distinct (ids w.steps)
    → Inv context w.options w.steps (start w).remaining (start w).results
      × All (IsFree (start w).results) (start w).remaining
      × (length (start w).remaining ≤ length w.steps)
unfolding start
start_lem context w u = rw all (
    let (v, h, le) =
      resume_from_lem context w.options w.steps w.options.resume w.steps (λ id. none) (λ r m. m) v₀
        (λ id r e. absurd (cc)) in
    (v, All-IsFree _ _ h, le))
  where
    open w use {steps}

    none_before : (l : List Step) → All (λ s. contains s.id (ids []) ≡ false) l
    none_before [] = tt
    none_before (s ∷ l) = (refl, none_before l)

    all : all_remaining [] steps ≡ steps
    all = all_remaining_lem [] steps u (none_before steps)

    nothing_yet : (l : List Step) → All (λ s. ◌≡◌ {A = Option StepResult} none none) l
    nothing_yet [] = tt
    nothing_yet (s ∷ l) = (refl, nothing_yet l)

    v₀ : Inv context w.options steps steps (λ id. none)
    v₀ = record {
      distinct = u;
      fresh = nothing_yet steps;
      covered = λ id known. ground arith;
      within = find_self steps u;
      named = λ id r e. absurd (cc);
      reasons = λ id s r found e. absurd (cc);
    }
