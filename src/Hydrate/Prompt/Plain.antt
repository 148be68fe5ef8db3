-- ===== src/Hydrate/Prompt/Plain.antt =====
-- domain/tool.go: an approval never shows a placeholder.
use text.Mathlib.TextLemmas.{nil-append, cons-append}
use open_kael.Prelude.{
  String, true, false, not, ◌||◌, List, [], ◌∷◌, ◌≡◌, refl, arith, all, ◌∙◌, ap,
}
use open_kael.Prelude.Text.{◌<>◌, join}
use open_kael.Values.{Fields}
use open_kael.Tools.{ToolDefinition}
use open_kael.Gates.{Texts}
use open_kael.Hydrate.Prompt.{
  starts_brace, has_braces, filled_lines, split_lines, fill, template_of, render_approval_prompt,
}

line-cons : (b : String) → ("\n" <> b) ≡ String.◌∷◌ "\n" b
line-cons b = cons-append "\n" String.[] b ∙ ap (λ s. String.◌∷◌ "\n" s) (nil-append b)

starts_brace-line : (a b : String) → starts_brace (a <> ("\n" <> b)) ≡ starts_brace a
starts_brace-line String.[] b = rw (nil-append ("\n" <> b), line-cons b) refl
starts_brace-line (String.◌∷◌ c a) b = rw (cons-append c a ("\n" <> b)) refl

-- A line break ends a run of braces.
has_braces-line : (a b : String) → has_braces (a <> ("\n" <> b)) ≡ (has_braces a || has_braces b)
unfolding has_braces
has_braces-line String.[] b = rw (nil-append ("\n" <> b), line-cons b) refl
has_braces-line (String.◌∷◌ c a) b =
    rw (cons-append c a ("\n" <> b), starts_brace-line a b, has_braces-line a b) (ground arith)

has_braces-join :
    (lines : List String)
    → all (λ l. not (has_braces l)) lines ≡ true
    → has_braces (join "\n" lines) ≡ false
unfolding join has_braces
has_braces-join [] h = refl
has_braces-join (l ∷ []) h = ground arith
has_braces-join (l ∷ m ∷ lines) h =
    ground (arith, has_braces-line l (join "\n" (m ∷ lines)), has_braces-join (m ∷ lines))

filled_lines-plain :
    (lines : List String) → all (λ l. not (has_braces l)) (filled_lines lines) ≡ true
unfolding filled_lines
filled_lines-plain [] = refl
filled_lines-plain (l ∷ lines) = ground (arith, filled_lines-plain lines)

-- What a person is shown before they approve a call has no placeholder left in it, whatever the
-- template and the inputs.
pub render_approval_prompt-plain :
    {F : Type 0} (t : Texts F) (def : ToolDefinition) (input : Fields F)
    → has_braces (render_approval_prompt t def input) ≡ false
unfolding render_approval_prompt
render_approval_prompt-plain t def input = ground (
  arith,
  has_braces-join (filled_lines (split_lines (fill t input (template_of def)))),
  filled_lines-plain (split_lines (fill t input (template_of def))),
)
