-- ===== src/Hydrate/Prompt.antt =====
-- domain/tool.go: `RenderApprovalPrompt`, what a person is shown before they approve a call. The
-- inputs are put in in the order in which they are listed.
pub mod Plain
use Prim.Native.String.{count}
use Prim.Native.Char.{Char, code}
use open_kael.Prelude.{
  ℕ, zero, suc, ◌-◌, String, Bool, true, false, not, ◌&&◌, ◌||◌, List, [], ◌∷◌, if◌then◌else◌, ◌==◌,
}
use open_kael.Prelude.Text.{◌<>◌, is_empty, join, starts_with}
use open_kael.Values.{Value, Fields, end, field}
use open_kael.Tools.{ToolDefinition}
use open_kael.Gates.{Texts}

-- `strings.ReplaceAll(s, old, new)` for an `old` that is not empty, on the text behind the next
-- `skip` characters, which are part of the last find.
unfoldable pub replace_after : (skip : ℕ) → (old new : String) → String → String
replace_after skip old new String.[] = String.[]
replace_after (suc skip) old new (String.◌∷◌ c s) = replace_after skip old new s
replace_after zero old new (String.◌∷◌ c s) =
    let found = replace_after (count old - 1) old new s in
    let other = replace_after 0 old new s in
    if starts_with (String.◌∷◌ c s) old then new <> found else String.◌∷◌ c other

abbrev pub replace_all : String → (old new : String) → String
replace_all s old new = replace_after 0 old new s

abbrev pub is_brace : Char → Bool
is_brace c = code c == b'{'

abbrev pub starts_brace : String → Bool
starts_brace String.[] = false
starts_brace (String.◌∷◌ c s) = is_brace c

-- `strings.Contains(s, "{{")`.
unfoldable pub has_braces : String → Bool
has_braces String.[] = false
has_braces (String.◌∷◌ c s) = is_brace c && starts_brace s || has_braces s

abbrev push : Char → List String → List String
push c [] = String.◌∷◌ c String.[] ∷ []
push c (line ∷ lines) = String.◌∷◌ c line ∷ lines

-- `strings.Split(s, "\n")`.
unfoldable pub split_lines : String → List String
split_lines String.[] = String.[] ∷ []
split_lines (String.◌∷◌ c s) =
    let rest = split_lines s in if code c == 10 then String.[] ∷ rest else push c rest

-- The lines whose values were all given.
unfoldable pub filled_lines : List String → List String
filled_lines [] = []
filled_lines (line ∷ lines) =
    let rest = filled_lines lines in if has_braces line then rest else line ∷ rest

abbrev pub template_of : ToolDefinition → String
template_of def =
    if is_empty def.approval_prompt_template then def.description else def.approval_prompt_template

module _ {F : Type 0} (t : Texts F) where
  unfoldable pub fill : Fields F → String → String
  fill end prompt = prompt
  fill (field key value rest) prompt =
      fill rest (replace_all prompt ("{{" <> (key <> "}}")) (t.sprint value))

  unfoldable pub render_approval_prompt : ToolDefinition → Fields F → String
  render_approval_prompt def input =
      let prompt = fill input (template_of def) in
      if has_braces prompt then join "\n" (filled_lines (split_lines prompt)) else prompt
