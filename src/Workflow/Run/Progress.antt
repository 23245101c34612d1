-- ===== src/Workflow/Run/Progress.antt =====
-- readyWave and the wave that it starts: the invariant, and why a wave is never empty.
use mathlib.Core.Bool.{not}
use anchora.Prelude.{
  ℕ, zero, suc, ◌<◌, String, ◌≡◌, refl, ap, Bool, true, false, some, List, [], ◌∷◌, ◌++◌, filter,
  is_empty, length-perm, All, All-perm, All-contains, All-of_contains, contains, Permᴰ,
  perm_append_right, perm_sym, perm_refl, perm_partition, ==_refl, arith, inl, inr, Bool-cases,
  String-cases,
}
use anchora.Workflow.{Step, Options, Results, Schedule, ids}
use anchora.Workflow.Cycle.Correct.{IsRanked, IsClosed}
use anchora.Workflow.Waves.{all_succeeded, any_failed, insert_by_id, sort_by_id, ready_wave, before}
use anchora.Workflow.Run.{Context}
use anchora.Workflow.Run.Invariant.{Inv, is_done, find, All-find}
use anchora.Workflow.Run.Skips.{IsFree}

insert_by_id-perm : (s : Step) (l : List Step) → Permᴰ (insert_by_id s l) (s ∷ l)
unfolding insert_by_id
insert_by_id-perm s [] = perm_refl (s ∷ [])
insert_by_id-perm s (t ∷ l) = elim (Bool-cases (before t s)) [
  | inl e ↦
      rw (e, insert_by_id)
        (Permᴰ.trans (Permᴰ.cons refl (insert_by_id-perm s l)) (Permᴰ.swap refl refl))
  | inr e ↦ rw (e, insert_by_id) (perm_refl (s ∷ t ∷ l))
]

sort_by_id-perm : (l : List Step) → Permᴰ (sort_by_id l) l
unfolding sort_by_id
sort_by_id-perm [] = Permᴰ.nil
sort_by_id-perm (s ∷ l) =
    Permᴰ.trans (insert_by_id-perm s (sort_by_id l)) (Permᴰ.cons refl (sort_by_id-perm l))

-- A wave and what it leaves are the steps that were waiting.
pub ready_wave-perm :
    (schedule : Schedule) (remaining : List Step) (results : Results)
    → Permᴰ remaining
        ((ready_wave schedule remaining results).0 ++ (ready_wave schedule remaining results).1)
unfolding ready_wave
ready_wave-perm schedule remaining results =
    let ready = λ (s : Step). all_succeeded s.depends_on results in
    let visited = schedule.visit_steps remaining in
    Permᴰ.trans (perm_sym (schedule.visit_steps_perm remaining)) (
      Permᴰ.trans (perm_partition ready visited) (
        perm_append_right (filter (λ s. not (ready s)) visited)
          (perm_sym (sort_by_id-perm (filter ready visited)))))

All-filter : (p : Step → Bool) (l : List Step) → All (λ s. p s ≡ true) (filter p l)
All-filter p [] = tt
All-filter p (s ∷ l) = elim (Bool-cases (p s)) [
  | inl e ↦ rw e (e, All-filter p l)
  | inr e ↦ rw e (All-filter p l)
]

-- The steps of a wave are those with all dependencies succeeded.
pub ready_wave-succeeded :
    (schedule : Schedule) (remaining : List Step) (results : Results)
    → All (λ s. all_succeeded s.depends_on results ≡ true) (ready_wave schedule remaining results).0
unfolding ready_wave
ready_wave-succeeded schedule remaining results =
    let ready = λ (s : Step). all_succeeded s.depends_on results in
    All-perm _ _ _ (perm_sym (sort_by_id-perm (filter ready (schedule.visit_steps remaining))))
      (All-filter ready (schedule.visit_steps remaining))

filter-none :
    (p : Step → Bool) (l : List Step) → is_empty (filter p l) ≡ true → All (λ s. p s ≡ false) l
filter-none p [] h = tt
filter-none p (s ∷ l) h = elim (Bool-cases (p s)) [
  | inl e ↦ absurd (ground (arith, e))
  | inr e ↦ (e, filter-none p l (ground (arith, e)))
]

is_empty-length : {l m : List Step} → Permᴰ l m → is_empty l ≡ true → is_empty m ≡ true
is_empty-length {l} {m} p h = ground (arith, length-perm l m p)

ready_wave-none :
    (schedule : Schedule) (remaining : List Step) (results : Results)
    → is_empty (ready_wave schedule remaining results).0 ≡ true
    → All (λ s. all_succeeded s.depends_on results ≡ false) remaining
unfolding ready_wave
ready_wave-none schedule remaining results h =
    let ready = λ (s : Step). all_succeeded s.depends_on results in
    All-perm _ _ _ (schedule.visit_steps_perm remaining) (
      filter-none ready (schedule.visit_steps remaining)
        (is_empty-length (sort_by_id-perm (filter ready (schedule.visit_steps remaining))) h))

-- Dependencies that are done and not failed have succeeded.
resolve :
    (results : Results) (deps : List String)
    → any_failed deps results ≡ false
    → All (λ d. is_done results d ≡ true) deps
    → all_succeeded deps results ≡ true
unfolding any_failed all_succeeded is_done
resolve results [] f h = refl
resolve results (d ∷ deps) f h = ground (arith, resolve results deps)

module _ (context : Context) (options : Options) (steps : List Step) (rank : String → ℕ)
    (closed : IsClosed steps) (ranked : IsRanked rank steps) where
  module _ (remaining : List Step) (results : Results)
      (v : Inv context options steps remaining results) (free : All (IsFree results) remaining)
      (stuck : All (λ s. all_succeeded s.depends_on results ≡ false) remaining) where
    abbrev Waiting : Step → Type 0
    Waiting s =
        IsFree results s × (all_succeeded s.depends_on results ≡ false) × (find s.id steps ≡ some s)

    gather :
        (l : List Step)
        → All (IsFree results) l
        → All (λ s. all_succeeded s.depends_on results ≡ false) l
        → All (λ s. find s.id steps ≡ some s) l
        → (id : String) → contains id (ids l) ≡ true
        → (s : Step) × (s.id ≡ id) × Waiting s
    gather [] f n w id h = absurd (cc)
    gather (s ∷ l) f n w id h = elim (String-cases s.id id) [
      | inl same ↦ (s, same, (f.0, n.0, w.0))
      | inr other ↦ gather l f.1 n.1 w.1 id (ground arith)
    ]

    -- No waiting step has a rank below `n`: one of least rank would be ready.
    descent : (n : ℕ) (id : String) → contains id (ids remaining) ≡ true → ¬ (rank id < n)
    descent zero id h less = omega arith
    descent (suc n) id h less =
        let (s, same, (f, blocked, found)) = gather remaining free stuck v.within id h in
        let known = (All-find _ steps s.id s closed found).0 in
        let below = (All-find _ steps s.id s ranked found).0 in
        absurd (
          cc (
            blocked,
            resolve results s.depends_on f (
                All-of_contains (λ d. is_done results d ≡ true) s.depends_on
                  λ d m. elim (Bool-cases (contains d (ids remaining))) [
                    | inl waits ↦ absurd (
                        descent n d waits (
                          omega (
                            arith,
                            All-contains (λ e. rank e < rank s.id) s.depends_on d below m,
                            ap rank same,
                          )))
                    | inr gone ↦ ground (
                      arith,
                      v.covered d (
                          All-contains (λ e. contains e (ids steps) ≡ true) s.depends_on d known m),
                    )
                  ]),
          ))

  -- Where a step waits and none has a failed dependency, the wave is not empty.
  pub ready_wave-progress :
      (schedule : Schedule) (remaining : List Step) (results : Results)
      → Inv context options steps remaining results
      → All (IsFree results) remaining
      → is_empty (ready_wave schedule remaining results).0 ≡ true
      → remaining ≡ []
  ready_wave-progress schedule [] results v free e = refl
  ready_wave-progress schedule (s ∷ l) results v free e = absurd (
      descent (s ∷ l) results v free (ready_wave-none schedule (s ∷ l) results e) (suc (rank s.id))
        s.id (ground (arith, ==_refl s.id)) (omega arith))
