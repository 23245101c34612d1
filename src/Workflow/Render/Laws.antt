-- ===== src/Workflow/Render/Laws.antt =====
-- What renderPrompt replaces, and when it fails.
use Prim.Native.Nat.{Ordering, compare}
use Prim.Native.Char.{Char, code}
use Prim.Native.String.{◌++◌, count}
use Prim.Native.String.append
use Prim.Native.String.count
use text.Mathlib.TextLemmas.{append_assoc, length-append}
use mathlib.Core.Path.{ap₂}
use text.Mathlib.TextEquality.{codes_equal}
use anchora.Prelude.{
  ℕ, zero, suc, ◌-◌, ◌≤◌, String, true, false, Option, none, some, Option-cases, List, [], ◌∷◌,
  nat_eq, ok, err, arith, ◌≡◌, refl, sym, ap, ◌∙◌, ◌⊎◌, inl, inr, All, contains, ==_refl,
  Bool-cases, String-cases,
}
use anchora.Workflow.{Message, Results}
use anchora.Workflow.Render.{
  strip, name_run, is_name_char, reference, placeholder, Segment, literal, output_of, segments,
  output_in, replace, trim_space, render_prompt,
}

abbrev pub brace : Char
brace = "{"

same_code : (c d : Char) → nat_eq (code c) (code d) ≡ true → c ≡ d
same_code c d h = codes_equal c d (go (compare (code c) (code d)) h)
  where
    go : (o : Ordering) → (elim o [ Ordering.eq ↦ true | _ ↦ false ]) ≡ true → o ≡ Ordering.eq
    go Ordering.lt e = absurd (cc)
    go Ordering.eq e = refl
    go Ordering.gt e = absurd (cc)

strip-append :
    (pattern text rest : String) → strip pattern text ≡ some rest → text ≡ pattern ++ rest
unfolding strip
strip-append String.[] text rest h = cc (append.nil rest)
strip-append (String.◌∷◌ c pattern) String.[] rest h = absurd (cc)
strip-append (String.◌∷◌ c pattern) (String.◌∷◌ d text) rest h =
    elim (Bool-cases (nat_eq (code c) (code d))) [
      | inl e ↦
          let tail : strip pattern text ≡ some rest = ground arith in
          cc (append.cons c pattern rest, same_code c d e, strip-append pattern text rest tail)
      | inr e ↦ absurd (ground arith)
    ]

name_run-append : (text : String) → text ≡ (name_run text).0 ++ (name_run text).1
unfolding name_run
name_run-append String.[] = sym (append.nil String.[])
name_run-append (String.◌∷◌ c text) = elim (Bool-cases (is_name_char c)) [
  | inl e ↦ rw e (cc (append.cons c (name_run text).0 (name_run text).1, name_run-append text))
  | inr e ↦ rw e (sym (append.nil (String.◌∷◌ c text)))
]

-- A match is a placeholder at the head of the text.
reference-append :
    (text id : String)
    → reference text ≡ some id
    → (rest : String) × (text ≡ placeholder id ++ rest)
unfolding reference
reference-append text id h = elim (Option-cases (strip "{{steps." text)) [
  | inl e ↦ absurd (ground (arith, e))
  | inr (rest, e) ↦ elim (Option-cases (strip ".output}}" (name_run rest).1)) [
    | inl e' ↦ absurd (ground (arith, e, e'))
    | inr (tail, e') ↦
        let named : (name_run rest).0 ≡ id = ground (arith, e, e') in
        (
          tail,
          cc (
            strip-append "{{steps." text rest e,
            strip-append ".output}}" (name_run rest).1 tail e',
            name_run-append rest,
            named,
            append_assoc "{{steps." (id ++ ".output}}") tail,
            append_assoc id ".output}}" tail,
          ),
        )
  ]
]

segments-skip : (part rest : String) → segments (count part) (part ++ rest) ≡ segments zero rest
unfolding segments
segments-skip String.[] rest = rw (append.nil rest)
segments-skip (String.◌∷◌ c part) rest =
    rw (append.cons c part rest, count.cons c part) (segments-skip part rest)

-- The text that segments stand for.
unfoldable pub print : List Segment → String
print [] = String.[]
print (literal c ∷ rest) = String.◌∷◌ c (print rest)
print (output_of id ∷ rest) = placeholder id ++ print rest

abbrev pub after_brace : String → String
after_brace id = "{steps." ++ (id ++ ".output}}")

pub placeholder-cons : (id : String) → placeholder id ≡ String.◌∷◌ brace (after_brace id)
placeholder-cons id = append.cons brace "{steps." (id ++ ".output}}")

pub segments-some :
    (c : Char) (text id rest : String)
    → reference (String.◌∷◌ c text) ≡ some id
    → String.◌∷◌ c text ≡ placeholder id ++ rest
    → segments zero (String.◌∷◌ c text) ≡ output_of id ∷ segments zero rest
unfolding segments
segments-some c text id rest h e =
    rw (h, segments)
      (ap (λ l. output_of id ∷ l)
        (ap₂ segments length_tail tail ∙ segments-skip (after_brace id) rest))
  where
    tail : text ≡ after_brace id ++ rest
    tail = cc (e, placeholder-cons id, append.cons brace (after_brace id) rest)

    length_tail : count (placeholder id) - 1 ≡ count (after_brace id)
    length_tail = omega (arith, ap count (placeholder-cons id), count.cons brace (after_brace id))

print-segments_below : (n : ℕ) (text : String) → count text ≤ n → print (segments zero text) ≡ text
unfolding segments print
print-segments_below n String.[] h = refl
print-segments_below zero (String.◌∷◌ c text) h = absurd (omega (arith, count.cons c text))
print-segments_below (suc n) (String.◌∷◌ c text) h =
    elim (Option-cases (reference (String.◌∷◌ c text))) [
      | inl e ↦
          rw (e, segments)
            (ap (λ t. String.◌∷◌ c t)
              (print-segments_below n text (omega (arith, count.cons c text))))
      | inr (id, e) ↦
          let (rest, split) = reference-append (String.◌∷◌ c text) id e in
          let shorter : count rest ≤ n = omega (
            arith,
            ap count split,
            ap count (placeholder-cons id),
            count.cons brace (after_brace id),
            length-append (placeholder id) rest,
          ) in
          ap print (segments-some c text id rest e split)
          ∙ ap (λ t. placeholder id ++ t) (print-segments_below n rest shorter)
          ∙ sym split
    ]

-- The matches and the characters between them are the whole text.
pub print-segments : (text : String) → print (segments zero text) ≡ text
print-segments text = print-segments_below (count text) text (omega arith)

-- The IDs that a prompt refers to.
unfoldable pub references : List Segment → List String
references [] = []
references (literal c ∷ rest) = references rest
references (output_of id ∷ rest) = id ∷ references rest

-- The text with an output for each ID.
unfoldable pub expand : (String → String) → List Segment → String
expand outputs [] = String.[]
expand outputs (literal c ∷ rest) = String.◌∷◌ c (expand outputs rest)
expand outputs (output_of id ∷ rest) = outputs id ++ expand outputs rest

pub replace-expand :
    (results : Results) (outputs : String → String) (l : List Segment)
    → All (λ id. output_in results id ≡ some (outputs id)) (references l)
    → replace results l none ≡ (expand outputs l, none)
unfolding replace references expand
replace-expand results outputs [] h = refl
replace-expand results outputs (literal c ∷ l) h = rw (replace-expand results outputs l h)
replace-expand results outputs (output_of id ∷ l) h =
    rw (h.0, replace, replace-expand results outputs l h.1)

-- Either every reference has an output, and the error stays as it was, or the error names a
-- reference that has none.
pub replace-cases :
    (results : Results) (l : List Segment)
    → (((id : String)
          → contains id (references l) ≡ true
          → (o : String) × (output_in results id ≡ some o))
        × ((m : Option Message) → (replace results l m).1 ≡ m))
      ⊎ ((id : String) × (contains id (references l) ≡ true)
          × (output_in results id ≡ none)
          × ((m : Option Message) → (replace results l m).1 ≡ some (Message.output_unavailable id)))
unfolding replace references
replace-cases results [] = inl (λ id h. absurd (cc), λ m. refl)
replace-cases results (literal c ∷ l) = replace-cases results l
replace-cases results (output_of id ∷ l) = elim (Option-cases (output_in results id)) [
  | inl e ↦ elim (replace-cases results l) [
    | inl (found, kept) ↦ inr (
      id,
      ground (arith, ==_refl id),
      e,
      λ m. rw (e, replace) (kept (some (Message.output_unavailable id))),
    )
    | inr (j, listed, missing, last) ↦ inr (
      j,
      ground arith,
      missing,
      λ m. rw (e, replace) (last (some (Message.output_unavailable id))),
    )
  ]
  | inr (o, e) ↦ elim (replace-cases results l) [
    | inl (found, kept) ↦ inl (
      λ j h. elim (String-cases id j) [
        | inl same ↦ (o, rw same at e)
        | inr other ↦ found j (ground arith)
      ],
      λ m. rw (e, replace) (kept m),
    )
    | inr (j, listed, missing, last) ↦ inr (j, ground arith, missing, λ m. rw (e, replace) (last m))
  ]
]

-- A prompt whose references all have outputs is rendered with them, and trimmed.
pub render_prompt-ok :
    (prompt : String) (results : Results) (outputs : String → String)
    → All (λ id. output_in results id ≡ some (outputs id)) (references (segments zero prompt))
    → render_prompt prompt results ≡ ok (trim_space (expand outputs (segments zero prompt)))
unfolding render_prompt
render_prompt-ok prompt results outputs h =
    let e = replace-expand results outputs (segments zero prompt) h in
    rw (render_prompt, ap (λ p. p.1) e) (ap (λ p. ok (trim_space p.0)) e)

-- A prompt with a reference that has no output is not rendered, and the error names such a
-- reference.
pub render_prompt-err :
    (prompt : String) (results : Results) (id : String)
    → contains id (references (segments zero prompt)) ≡ true
    → output_in results id ≡ none
    → (j : String) × (contains j (references (segments zero prompt)) ≡ true)
      × (output_in results j ≡ none)
      × (render_prompt prompt results ≡ err (Message.output_unavailable j))
unfolding render_prompt
render_prompt-err prompt results id h e = elim (replace-cases results (segments zero prompt)) [
  | inl (found, kept) ↦ let (o, e') = found id h in absurd (cc)
  | inr (j, listed, missing, last) ↦ (j, listed, missing, rw (render_prompt, last none))
]
