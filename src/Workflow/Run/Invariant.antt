-- ===== src/Workflow/Run/Invariant.antt =====
-- What holds between the loops of Workflow.Run: each step is waiting, or has a result that the code
-- had a reason to give it.
use mathlib.Core.List.{Memᴰ}
use anchora.Prelude.{
  String, ◌≡◌, refl, sym, ap, ◌∙◌, subst, Bool, true, false, ◌||◌, Option, none, some, some_inj,
  Option-cases, List, [], ◌∷◌, All, All-perm, contains, contains-perm, Distinct, Distinct-perm,
  keys-perm, Permᴰ, ◌==◌, ==_iff, ==_refl, if◌then◌else◌, arith, inl, inr, Bool-cases, String-cases,
}
use anchora.Workflow.{Status, Step, StepResult, Options, Results, ids}
use anchora.Workflow.Waves.{put, all_succeeded, any_failed, skipped_result}
use anchora.Workflow.Run.{Context, step_result}

-- The step with an ID.
unfoldable pub find : String → List Step → Option Step
find id [] = none
find id (s ∷ l) = if s.id == id then some s else find id l

pub All-find {ℓ} :
    (P : Step → Type ℓ) (l : List Step) (id : String) (s : Step)
    → All P l
    → find id l ≡ some s
    → P s × (s.id ≡ id)
unfolding find
All-find P [] id s h e = absurd (cc)
All-find P (t ∷ l) id s h e = elim (String-cases t.id id) [
  | inl same ↦
      let e' : t ≡ s = ground (arith, (==_iff t.id id).1 same) in
      (subst P e' h.0, ap (λ x. x.id) (sym e') ∙ same)
  | inr other ↦ All-find P l id s h.1 (ground arith)
]

pub find_known :
    (l : List Step) (id : String) → contains id (ids l) ≡ true → (s : Step) × (find id l ≡ some s)
unfolding find
find_known [] id h = absurd (cc)
find_known (t ∷ l) id h = elim (Bool-cases (t.id == id)) [
  | inl e ↦ (t, rw e)
  | inr e ↦ let (s, found) = find_known l id (ground arith) in (s, rw e found)
]

pub known_of_find :
    (id : String) (s : Step) (l : List Step) → find id l ≡ some s → contains id (ids l) ≡ true
unfolding find
known_of_find id s [] e = absurd (cc)
known_of_find id s (t ∷ l) e = ground (arith, known_of_find id s l)

pub find_self : (l : List Step) → Distinct (ids l) → All (λ s. find s.id l ≡ some s) l
unfolding find
find_self [] u = tt
find_self (t ∷ l) u = (rw (==_refl t.id), later l t u.0 (find_self l u.1))
  where
    later :
        (m : List Step) (t : Step)
        → contains t.id (ids m) ≡ false
        → All (λ s. find s.id l ≡ some s) m
        → All (λ s. (if t.id == s.id then some t else find s.id l) ≡ some s) m
    later [] t u h = tt
    later (s ∷ m) t u h =
        (ground (arith, h.0, ==_iff t.id s.id, ==_iff s.id t.id), later m t (ground arith) h.1)

-- A result that Run reports: a step that is not running or about to run.
abbrev pub is_terminal : Status → Bool
is_terminal Status.succeeded = true
is_terminal Status.failed = true
is_terminal Status.skipped = true
is_terminal _ = false

unfoldable pub is_done : Results → String → Bool
is_done results id = elim (results id) [ none ↦ false | some r ↦ is_terminal r.status ]

pub is_done-put :
    (r : StepResult) (results : Results) (id : String)
    → is_done (put r results) id ≡ (if r.id == id then is_terminal r.status else is_done results id)
unfolding is_done
is_done-put r results id = elim (Bool-cases (r.id == id)) [
  | inl e ↦ rw (e, is_done)
  | inr e ↦ rw (e, is_done)
]

-- The second map has what the first one has.
abbrev pub Extends : Results → Results → Type 0
Extends old new = (id : String) (r : StepResult) → old id ≡ some r → new id ≡ some r

pub Extends-put :
    (results : Results) (r : StepResult) → results r.id ≡ none → Extends results (put r results)
Extends-put results r fresh id x e = elim (String-cases r.id id) [
  | inl same ↦ absurd (cc (ap results same))
  | inr other ↦ rw other e
]

pub all_succeeded-Extends :
    (deps : List String) (old new : Results)
    → Extends old new
    → all_succeeded deps old ≡ true
    → all_succeeded deps new ≡ true
unfolding all_succeeded
all_succeeded-Extends [] old new x h = refl
all_succeeded-Extends (d ∷ deps) old new x h = elim (Option-cases (old d)) [
  | inl e ↦ absurd (ground (arith, e))
  | inr (r, e) ↦ ground (arith, e, x d r e, all_succeeded-Extends deps old new x)
]

pub any_failed-Extends :
    (deps : List String) (old new : Results)
    → Extends old new
    → any_failed deps old ≡ true
    → any_failed deps new ≡ true
unfolding any_failed
any_failed-Extends [] old new x h = absurd (cc)
any_failed-Extends (d ∷ deps) old new x h = elim (Option-cases (old d)) [
  | inl e ↦ ground (arith, e, any_failed-Extends deps old new x)
  | inr (r, e) ↦ ground (arith, e, x d r e, any_failed-Extends deps old new x)
]

module _ (context : Context) (options : Options) where
  -- Why a step has the result that it has.
  pub data Reason (results : Results) (s : Step) (r : StepResult) : Type 0 where
    -- it succeeded on an earlier delivery
    resumed : Memᴰ r options.resume → r.status ≡ Status.succeeded → Reason results s r
    -- a dependency failed or was skipped
    blocked : r ≡ skipped_result s → any_failed s.depends_on results ≡ true → Reason results s r
    -- it was run with the results of that moment, in which its dependencies had succeeded
    ran :
        (seen : Results)
        → Extends seen results
        → all_succeeded s.depends_on seen ≡ true
        → r ≡ step_result context options seen s
        → Reason results s r

  pub Reason-Extends :
      (old new : Results) (s : Step) (r : StepResult)
      → Extends old new
      → Reason old s r
      → Reason new s r
  Reason-Extends old new s r x (resumed m e) = resumed m e
  Reason-Extends old new s r x (blocked e f) =
      blocked e (any_failed-Extends s.depends_on old new x f)
  Reason-Extends old new s r x (ran seen y h e) = ran seen (λ id q f. x id q (y id q f)) h e

  module _ (steps : List Step) where
    pub record Inv (remaining : List Step) (results : Results) : Type 0 where
      pub distinct : Distinct (ids remaining)
      pub fresh : All (λ s. results s.id ≡ none) remaining
      pub covered :
          (id : String)
          → contains id (ids steps) ≡ true
          → (contains id (ids remaining) || is_done results id) ≡ true
      pub within : All (λ s. find s.id steps ≡ some s) remaining
      pub named : (id : String) (r : StepResult) → results id ≡ some r → r.id ≡ id
      pub reasons :
          (id : String) (s : Step) (r : StepResult)
          → find id steps ≡ some s
          → results id ≡ some r
          → Reason results s r

    pub Inv-perm :
        {old new : List Step} {results : Results}
        → Permᴰ old new
        → Inv old results
        → Inv new results
    Inv-perm {old} {new} p v = record {
      distinct = Distinct-perm (ids old) (ids new) (keys-perm _ p) v.distinct;
      fresh = All-perm _ old new p v.fresh;
      covered = λ id known.
          ground (arith, v.covered id known, contains-perm id (ids old) (ids new) (keys-perm _ p));
      within = All-perm _ old new p v.within;
      named = v.named;
      reasons = v.reasons;
    }

    fresh-put :
        (r : StepResult) (results : Results) (l : List Step)
        → contains r.id (ids l) ≡ false
        → All (λ s. results s.id ≡ none) l
        → All (λ s. put r results s.id ≡ none) l
    fresh-put r results [] a f = tt
    fresh-put r results (s ∷ l) a f = (
      ground (arith, f.0, ==_iff r.id s.id, ==_iff s.id r.id),
      fresh-put r results l (ground arith) f.1,
    )

    covered-put :
        (r : StepResult) (results : Results) (head id : String) (l : List String)
        → r.id ≡ head
        → is_terminal r.status ≡ true
        → ((head == id) || contains id l || is_done results id) ≡ true
        → (contains id l || is_done (put r results) id) ≡ true
    covered-put r results head id l same done h =
        ground (arith, ap (λ t. t == id) same, is_done-put r results id)

    put_self :
        (r : StepResult) (results : Results) (id : String) → r.id ≡ id → put r results id ≡ some r
    put_self r results id here = rw ((==_iff r.id id).1 here)

    named-put :
        (r : StepResult) (results : Results) (id : String) (x : StepResult)
        → (results id ≡ some x → x.id ≡ id)
        → put r results id ≡ some x
        → x.id ≡ id
    named-put r results id x h e = elim (String-cases r.id id) [
      | inl same ↦ ap (λ y. y.id) (some_inj (sym e ∙ put_self r results id same)) ∙ same
      | inr other ↦ h (rw other at e)
    ]

    -- A waiting step gets a result, for a reason.
    pub settle :
        {s : Step} {remaining : List Step} {results : Results} (r : StepResult)
        → Inv (s ∷ remaining) results
        → r.id ≡ s.id
        → is_terminal r.status ≡ true
        → Reason (put r results) s r
        → Inv remaining (put r results)
    settle {s} {remaining} {results} r v same done why = record {
      distinct = v.distinct.1;
      fresh =
          fresh-put r results remaining (ap (λ t. contains t (ids remaining)) same ∙ v.distinct.0)
            v.fresh.1;
      covered =
          λ id known. covered-put r results s.id id (ids remaining) same done (v.covered id known);
      within = v.within.1;
      named = λ id x e. named-put r results id x (v.named id x) e;
      reasons = λ id t x found e. elim (String-cases r.id id) [
        | inl here ↦
            let same_step : s ≡ t =
              some_inj (sym v.within.0 ∙ ap (λ k. find k steps) (sym same ∙ here) ∙ found) in
            let same_result : r ≡ x = some_inj (sym (put_self r results id here) ∙ e) in
            subst (λ y. Reason (put r results) t y) same_result
              (subst (λ y. Reason (put r results) y r) same_step why)
        | inr other ↦
            Reason-Extends results (put r results) t x
              (Extends-put results r (ap results same ∙ v.fresh.0))
              (v.reasons id t x found (rw other at e))
      ];
    }
