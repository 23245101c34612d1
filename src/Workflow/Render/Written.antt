-- ===== src/Workflow/Render/Written.antt =====
-- renderPrompt on a prompt that is written as text and references.
use Prim.Native.Char.{Char, code}
use Prim.Native.String.{◌++◌}
use Prim.Native.String.append
use text.Mathlib.TextLemmas.{append_assoc}
use anchora.Prelude.{
  ℕ, zero, String, Bool, true, false, ◌&&◌, ◌||◌, none, some, some_inj, Option-cases, Result, List,
  [], ◌∷◌, All, All-of_contains, contains, nat_eq, leb, ok, err, arith, ◌≡◌, refl, sym, ap, ◌∙◌,
  ◌⊎◌, inl, inr,
}
use anchora.Workflow.{Status, Message, StepResult, Results, is_succeeded}
use anchora.Workflow.Render.{
  strip, name_run, is_name_char, is_blank, reference, placeholder, Segment, literal, output_of,
  segments, output_in, replace, trim_space, render_prompt,
}
use anchora.Workflow.Render.Laws.{
  print, references, expand, replace-expand, replace-cases, segments-some, brace,
}
use anchora.Workflow.Render.Trimmed.{IsTrimmed, trim_space-IsTrimmed}

-- A letter, a digit, an underscore or a dash, by its code.
abbrev pub names : Char → Bool
names c =
    leb 65 (code c) && leb (code c) 90
    || leb 97 (code c) && leb (code c) 122
    || leb 48 (code c) && leb (code c) 57
    || nat_eq (code c) 95
    || nat_eq (code c) 45

abbrev pub AllNames : String → Type 0
AllNames String.[] = Unit {0}
AllNames (String.◌∷◌ c text) = (names c ≡ true) × AllNames text

-- Text without opening braces, and references to IDs.
abbrev pub IsWritten : List Segment → Type 0
IsWritten [] = Unit {0}
IsWritten (literal c ∷ l) = (nat_eq 123 (code c) ≡ false) × IsWritten l
IsWritten (output_of id ∷ l) = (is_blank id ≡ false) × AllNames id × IsWritten l

same_nat : (n : ℕ) → nat_eq n n ≡ true
same_nat n = ground arith

strip-append_self : (pattern rest : String) → strip pattern (pattern ++ rest) ≡ some rest
unfolding strip
strip-append_self String.[] rest = rw (append.nil rest) refl
strip-append_self (String.◌∷◌ c pattern) rest =
    rw (append.cons c pattern rest, strip, same_nat (code c)) (strip-append_self pattern rest)

name_run-written :
    (id rest : String)
    → AllNames id
    → name_run (id ++ (".output}}" ++ rest)) ≡ (id, ".output}}" ++ rest)
unfolding name_run is_name_char
name_run-written String.[] rest h =
    rw (append.nil (".output}}" ++ rest), append.cons "." "output}}" rest) refl
name_run-written (String.◌∷◌ c id) rest h =
    rw (append.cons c id (".output}}" ++ rest), name_run, name_run-written id rest h.1, named) refl
  where
    named : is_name_char c ≡ true
    named = h.0

reference-placeholder :
    (id rest : String)
    → is_blank id ≡ false
    → AllNames id
    → reference (placeholder id ++ rest) ≡ some id
unfolding reference
reference-placeholder id rest named h =
    let split : placeholder id ++ rest ≡ "{{steps." ++ (id ++ (".output}}" ++ rest)) =
      append_assoc "{{steps." (id ++ ".output}}") rest
      ∙ ap (λ t. "{{steps." ++ t) (append_assoc id ".output}}" rest) in
    rw
      (
        split,
        reference,
        strip-append_self "{{steps." (id ++ (".output}}" ++ rest)),
        name_run-written id rest h,
        named,
        strip-append_self ".output}}" rest,
      )
      (ap (λ p. some p.0) (name_run-written id rest h))

strip-apart :
    (c d : Char) (pattern text : String)
    → nat_eq (code c) (code d) ≡ false
    → strip (String.◌∷◌ c pattern) (String.◌∷◌ d text) ≡ none
unfolding strip
strip-apart c d pattern text h = rw (h, strip) refl

reference-text :
    (c : Char) (text : String) → nat_eq 123 (code c) ≡ false → reference (String.◌∷◌ c text) ≡ none
unfolding reference
reference-text c text h =
    let apart : strip "{{steps." (String.◌∷◌ c text) ≡ none =
      strip-apart brace c "{steps." text h in
    rw (apart, reference) refl

reference-empty : reference String.[] ≡ none
unfolding reference
reference-empty = refl

-- The matches in a prompt are the references that are written there.
segments-print : (l : List Segment) → IsWritten l → segments zero (print l) ≡ l
unfolding segments print
segments-print [] h = refl
segments-print (literal c ∷ l) h =
    rw (reference-text c (print l) h.0, segments)
      (ap (λ rest. literal c ∷ rest) (segments-print l h.1))
segments-print (output_of id ∷ l) h =
    matched (placeholder id ++ print l) refl (reference-placeholder id (print l) h.0 h.1)
    ∙ ap (λ rest. output_of id ∷ rest) (segments-print l h.2)
  where
    matched :
        (text : String)
        → text ≡ placeholder id ++ print l
        → reference text ≡ some id
        → segments zero text ≡ output_of id ∷ segments zero (print l)
    matched String.[] e r = let nothing = reference-empty in absurd (cc)
    matched (String.◌∷◌ c text) e r = segments-some c text id (print l) r e

-- The step has succeeded.
abbrev pub IsDone : Results → String → Type 0
IsDone results id = (r : StepResult) × (results id ≡ some r) × (r.status ≡ Status.succeeded)

abbrev pub output_given : Results → String → String
output_given results id = elim (results id) [ none ↦ "" | some r ↦ r.output ]

success_cases :
    (results : Results) (id : String)
    → (IsDone results id × (output_in results id ≡ some (output_given results id)))
      ⊎ ((IsDone results id → ⊥) × (output_in results id ≡ none))
unfolding output_in
success_cases results id = elim (Option-cases (results id)) [
  | inl missing ↦ inr (λ d. absurd (cc), rw (missing, output_in) refl)
  | inr (r, found) ↦ elim (by_status r.status) [
    | inl (succeeded, same) ↦ inl (
      (r, found, same),
      rw (found, output_in, succeeded)
          (ap some (sym (ap {B = String} (λ o. elim o [ none ↦ "" | some s ↦ s.output ]) found))),
    )
    | inr (other, apart) ↦ inr (
      λ d. apart (ap (λ (s : StepResult). s.status) (some_inj (sym found ∙ d.1)) ∙ d.2),
      rw (found, output_in, other) refl,
    )
  ]
]
  where
    by_status :
        (status : Status)
        → ((is_succeeded status ≡ true) × (status ≡ Status.succeeded))
          ⊎ ((is_succeeded status ≡ false) × (status ≡ Status.succeeded → ⊥))
    by_status Status.pending = inr (refl, λ e. cc)
    by_status Status.running = inr (refl, λ e. cc)
    by_status Status.succeeded = inl (refl, refl)
    by_status Status.failed = inr (refl, λ e. cc)
    by_status Status.retrying = inr (refl, λ e. cc)
    by_status Status.skipped = inr (refl, λ e. cc)

-- What renderPrompt returns for a prompt that is written so: the text with the outputs in the places of
-- the references, without the spaces around it, or an error.
abbrev pub IsRendered : List Segment → Results → Result Message String → Type 0
IsRendered l results rendered =
    (All (IsDone results) (references l)
      × ((text : String) × (rendered ≡ ok text) × IsTrimmed (expand (output_given results) l) text))
    ⊎ ((id : String) × (contains id (references l) ≡ true)
        × (IsDone results id → ⊥)
        × (rendered ≡ err (Message.output_unavailable id)))

-- A prompt made of text without opening braces and of references to steps, with IDs of letters, digits,
-- underscores and dashes, is rendered exactly if each of these steps has succeeded: to the text with
-- their outputs in the places of the references, without the spaces around it. If not, the error names
-- one of them that has not succeeded.
pub render_prompt-IsRendered :
    (l : List Segment) (results : Results)
    → IsWritten l
    → IsRendered l results (render_prompt (print l) results)
unfolding render_prompt
render_prompt-IsRendered l results written =
    let parsed = segments-print l written in
    elim (replace-cases results l) [
      | inr (id, listed, missing, last) ↦ inr (
        id,
        listed,
        elim (success_cases results id) [ inl (d, e) ↦ absurd (cc) | inr (never, e) ↦ never ],
        rw (render_prompt, parsed, last none) refl,
      )
      | inl (found, kept) ↦
          let outputs : All (λ id. output_in results id ≡ some (output_given results id))
              (references l) =
            All-of_contains _ (references l) (λ id m. (succeeded id (found id m)).1) in
          let replaced : replace results (segments zero (print l)) none
              ≡ (expand (output_given results) l, none) =
            ap (λ s. replace results s none) parsed
            ∙ replace-expand results (output_given results) l outputs in
          inl (
            All-of_contains _ (references l) (λ id m. (succeeded id (found id m)).0),
            (
              trim_space (expand (output_given results) l),
              rw (render_prompt, ap (λ p. p.1) replaced) (ap (λ p. ok (trim_space p.0)) replaced),
              trim_space-IsTrimmed (expand (output_given results) l),
            ),
          )
    ]
  where
    succeeded :
        (id : String)
        → ((o : String) × (output_in results id ≡ some o))
        → IsDone results id × (output_in results id ≡ some (output_given results id))
    succeeded id (o, e) = elim (success_cases results id) [
      | inl both ↦ both
      | inr (never, missing) ↦ absurd (cc)
    ]
