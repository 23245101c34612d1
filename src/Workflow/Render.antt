-- ===== src/Workflow/Render.antt =====
-- internal/workflow/workflow.go, outputReference and renderPrompt. A text is a list of characters.
pub mod Laws
pub mod Trimmed
pub mod Written
use Prim.Native.Nat.{compare}
use Prim.Native.Char.{Char, code}
use Prim.Native.String.{◌++◌, count}
use anchora.Prelude.{
  ℕ, zero, suc, ◌+◌, ◌-◌, String, Bool, true, false, ◌&&◌, ◌||◌, Option, none, some, List, [], ◌∷◌,
  leb, nat_eq, if◌then◌else◌, Result, ok, err,
}
use anchora.Workflow.{Message, Results, StepResult, is_succeeded}

abbrev between : ℕ → ℕ → ℕ → Bool
between lo hi c = leb lo c && leb c hi

-- `[A-Za-z0-9_-]`
unfoldable pub is_name_char : Char → Bool
is_name_char c =
    between b'A' b'Z' (code c)
    || between b'a' b'z' (code c)
    || between b'0' b'9' (code c)
    || nat_eq (code c) b'_'
    || nat_eq (code c) b'-'

-- What follows a literal at the head of a text.
unfoldable pub strip : String → String → Option String
strip String.[] text = some text
strip (String.◌∷◌ c literal) String.[] = none
strip (String.◌∷◌ c literal) (String.◌∷◌ d text) =
    if nat_eq (code c) (code d) then strip literal text else none

-- The longest run of name characters at the head of a text, and the rest.
unfoldable pub name_run : String → String × String
unfolding is_name_char
name_run String.[] = (String.[], String.[])
name_run (String.◌∷◌ c text) =
    let run = name_run text in
    if is_name_char c then (String.◌∷◌ c run.0, run.1) else (String.[], String.◌∷◌ c text)

abbrev pub is_blank : String → Bool
is_blank String.[] = true
is_blank (String.◌∷◌ c text) = false

-- `\{\{steps\.([A-Za-z0-9_-]+)\.output\}\}` at the head of a text: the ID. No name character is a
-- dot, so the run must be the longest.
unfoldable pub reference : String → Option String
unfolding strip name_run
reference text = elim (strip "{{steps." text) [
  | none ↦ none
  | some rest ↦
      let (id, rest') = name_run rest in
      if is_blank id
      then none
      else elim (strip ".output}}" rest') [ none ↦ none | some _ ↦ some id ]
]

abbrev pub placeholder : String → String
placeholder id = "{{steps." ++ (id ++ ".output}}")

-- A text as the regular expression's matches, from the left, and the characters between them.
pub data Segment : Type 0 where
  literal : Char → Segment
  output_of : String → Segment

-- `skip` counts the characters that still belong to the last match.
unfoldable pub segments : ℕ → String → List Segment
segments skip String.[] = []
segments (suc skip) (String.◌∷◌ c text) = segments skip text
segments zero (String.◌∷◌ c text) = elim (reference (String.◌∷◌ c text)) [
  | none ↦ literal c ∷ segments zero text
  | some id ↦ output_of id ∷ segments (count (placeholder id) - 1) text
]

-- The usable output of a step.
unfoldable pub output_in : Results → String → Option String
output_in results id = elim (results id) [
  | none ↦ none
  | some result ↦ if is_succeeded result.status then some result.output else none
]

-- ReplaceAllStringFunc with the function of renderPrompt: the new text and `renderErr`.
unfoldable pub replace : Results → List Segment → Option Message → String × Option Message
replace results [] error = (String.[], error)
replace results (literal c ∷ rest) error =
    let (text, error') = replace results rest error in (String.◌∷◌ c text, error')
replace results (output_of id ∷ rest) error = elim (output_in results id) [
  | none ↦
      let (text, error') = replace results rest (some (Message.output_unavailable id)) in
      (placeholder id ++ text, error')
  | some output ↦ let (text, error') = replace results rest error in (output ++ text, error')
]

-- unicode.IsSpace
unfoldable pub is_space : Char → Bool
is_space c =
    between 9 13 (code c)
    || nat_eq (code c) 32
    || nat_eq (code c) 0x85
    || nat_eq (code c) 0xA0
    || nat_eq (code c) 0x1680
    || between 0x2000 0x200A (code c)
    || between 0x2028 0x2029 (code c)
    || nat_eq (code c) 0x202F
    || nat_eq (code c) 0x205F
    || nat_eq (code c) 0x3000

unfoldable pub trim_left : String → String
unfolding is_space
trim_left String.[] = String.[]
trim_left (String.◌∷◌ c text) =
    let rest = trim_left text in if is_space c then rest else String.◌∷◌ c text

unfoldable pub trim_right : String → String
unfolding is_space
trim_right String.[] = String.[]
trim_right (String.◌∷◌ c text) =
    let rest = trim_right text in
    if is_blank rest && is_space c then String.[] else String.◌∷◌ c rest

-- strings.TrimSpace
unfoldable pub trim_space : String → String
unfolding trim_left trim_right
trim_space text = trim_right (trim_left text)

unfoldable pub render_prompt : String → Results → Result Message String
unfolding segments reference replace output_in trim_space
render_prompt prompt results =
    let (rendered, error) = replace results (segments zero prompt) none in
    elim error [ some message ↦ err message | none ↦ ok (trim_space rendered) ]
