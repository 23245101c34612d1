-- ===== src/Workflow/Render/Trimmed.antt =====
-- strings.TrimSpace, as renderPrompt uses it.
use Prim.Native.String.{◌++◌}
use Prim.Native.String.append
use anchora.Prelude.{
  String, Bool, true, false, ◌&&◌, if◌then◌else◌, ◌≡◌, refl, sym, ap, ◌∙◌, inl, inr, Bool-cases,
  arith,
}
use anchora.Workflow.Render.{is_blank, is_space, trim_left, trim_right, trim_space}

abbrev pub AllSpace : String → Type 0
AllSpace String.[] = Unit {0}
AllSpace (String.◌∷◌ c text) = (is_space c ≡ true) × AllSpace text

abbrev pub starts_with_space : String → Bool
starts_with_space String.[] = false
starts_with_space (String.◌∷◌ c text) = is_space c

abbrev pub ends_with_space : String → Bool
ends_with_space String.[] = false
ends_with_space (String.◌∷◌ c text) = if is_blank text then is_space c else ends_with_space text

-- The text without the spaces around it.
pub record IsTrimmed (full text : String) : Type 0 where
  pub before : String
  pub after : String
  pub whole : full ≡ before ++ (text ++ after)
  pub spaces_before : AllSpace before
  pub spaces_after : AllSpace after
  pub at_start : starts_with_space text ≡ false
  pub at_end : ends_with_space text ≡ false

trim_left-cut :
    (text : String)
    → (before : String) × (text ≡ before ++ trim_left text)
      × AllSpace before
      × (starts_with_space (trim_left text) ≡ false)
unfolding trim_left
trim_left-cut String.[] = (String.[], sym (append.nil String.[]), tt, refl)
trim_left-cut (String.◌∷◌ c text) = elim (Bool-cases (is_space c)) [
  | inl space ↦
      let (before, whole, spaces, start) = trim_left-cut text in
      (
        String.◌∷◌ c before,
        rw (space, trim_left)
            (ap (λ t. String.◌∷◌ c t) whole ∙ sym (append.cons c before (trim_left text))),
        (space, spaces),
        rw (space, trim_left) start,
      )
  | inr letter ↦ (
    String.[],
    rw (letter, trim_left) (sym (append.nil (String.◌∷◌ c text))),
    tt,
    rw (letter, trim_left) letter,
  )
]

blank_lem : (text : String) → is_blank text ≡ true → text ≡ String.[]
blank_lem String.[] h = refl
blank_lem (String.◌∷◌ c text) h = absurd (cc)

trim_right-cut :
    (text : String)
    → (after : String) × (text ≡ trim_right text ++ after)
      × AllSpace after
      × (ends_with_space (trim_right text) ≡ false)
unfolding trim_right
trim_right-cut String.[] = (String.[], sym (append.nil String.[]), tt, refl)
trim_right-cut (String.◌∷◌ c text) =
    let (after, whole, spaces, end) = trim_right-cut text in
    elim (Bool-cases (is_blank (trim_right text) && is_space c)) [
      | inl gone ↦
          let empty = blank_lem (trim_right text) (ground (arith, gone)) in
          let space : is_space c ≡ true = ground (arith, gone) in
          let rest : text ≡ after = whole ∙ ap (λ t. t ++ after) empty ∙ append.nil after in
          (
            String.◌∷◌ c after,
            rw (gone, trim_right)
                (ap (λ t. String.◌∷◌ c t) rest ∙ sym (append.nil (String.◌∷◌ c after))),
            (space, spaces),
            rw (gone, trim_right) refl,
          )
      | inr kept ↦ (
        after,
        rw (kept, trim_right)
            (ap (λ t. String.◌∷◌ c t) whole ∙ sym (append.cons c (trim_right text) after)),
        spaces,
        rw (kept, trim_right) (ground (arith, kept, end)),
      )
    ]

trim_right-start :
    (text : String) → starts_with_space text ≡ false → starts_with_space (trim_right text) ≡ false
unfolding trim_right
trim_right-start String.[] h = refl
trim_right-start (String.◌∷◌ c text) h = rw (h, trim_right) (ground (arith, h))

pub trim_space-IsTrimmed : (text : String) → IsTrimmed text (trim_space text)
unfolding trim_space
trim_space-IsTrimmed text =
    let (before, front, spaces, start) = trim_left-cut text in
    let (after, back, spaces', end) = trim_right-cut (trim_left text) in
    record {
      before = before;
      after = after;
      whole = front ∙ ap (λ t. before ++ t) back;
      spaces_before = spaces;
      spaces_after = spaces';
      at_start = trim_right-start (trim_left text) start;
      at_end = end;
    }
