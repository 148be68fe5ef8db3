-- ===== src/Gates/Shown.antt =====
-- domain/tool_rule.go: `specWithRules`, what the model is shown of a tool that rules are kept on.
use open_kael.Values.{num, Value}
use open_kael.Tools.{ToolSpec}
use open_kael.Gates.Rules.{
  rule_one_of, rule_none_of, rule_min, rule_max_product, rule_max, rule_fixed, rule_default,
  other_kind, list_of, limit, humanize, ToolRule, RuleKind,
}
use open_kael.Prelude.{◌∷◌, some, none, if◌then◌else◌, [], String, Option, List}
use open_kael.Gates.{Texts, Floats}
use open_kael.Prelude.Text.{◌<>◌, ◌=ₛ◌, trim_space}
use open_kael.Schema.{Schema, schema, Properties, property}

-- `kept := required[:0]` without one name.
unfoldable pub drop_name : String → List String → List String
drop_name name [] = []
drop_name name (n ∷ names) = let rest = drop_name name names in if n =ₛ name then rest else n ∷ rest

-- `delete(props, name)`.
unfoldable pub drop_property : String → Properties → Properties
drop_property name Properties.end = Properties.end
drop_property name (property n s props) =
    let rest = drop_property name props in if n =ₛ name then rest else property n s rest

abbrev pub described : String → Schema → Schema
described text (schema type d props items required values) =
    schema type (trim_space (d <> (" " <> text))) props items required values

-- `note`: more words on a property, where there is one of that name.
unfoldable pub note_property : String → String → Properties → Properties
note_property name text Properties.end = Properties.end
note_property name text (property n s props) =
    let rest = note_property name text props in
    if n =ₛ name then property n (described text s) props else property n s rest

-- The properties shown, and the names required.
pub record Shown : Type 0 where
  pub props : Properties
  pub required : List String

abbrev pub with_note : String → String → Shown → Shown
with_note name text v = record v { props = note_property name text v.props }

abbrev together : (other input with_input limit : String) → String
together other input with_input limit =
    "Together with "
    <> (other
        <> (", "
            <> (input
                <> (" × " <> (with_input <> (" may not come to more than " <> (limit <> ".")))))))

module _ {F : Type 0} (t : Texts F) (n : Floats F) where
  -- `r.Value.(float64)`, where it is a number: a saved limit is.
  abbrev pub limit_text : Value F → Option String
  limit_text (num x) = some (n.format x)
  limit_text v = none

  -- What one rule changes of what is shown; `none` where the code panics, at a limit that is no number.
  unfoldable pub show_rule : ToolRule F → RuleKind → Shown → Option Shown
  show_rule r rule_fixed v =
      some
        (record { props = drop_property r.input v.props; required = drop_name r.input v.required })
  show_rule r rule_default v = some (
      with_note r.input ("If you leave it out, " <> (t.sprint r.value <> " is used."))
        (record v { required = drop_name r.input v.required }))
  show_rule r rule_max_product v = elim (limit_text r.value) [
    | none ↦ none
    | some most ↦ some (
        with_note r.with_input
          (together (humanize r.input) (humanize r.input) (humanize r.with_input) most)
          (with_note r.input
            (together (humanize r.with_input) (humanize r.input) (humanize r.with_input) most) v))
  ]
  show_rule r rule_max v = elim (limit_text r.value) [
    | none ↦ none
    | some most ↦ some (with_note r.input ("Allowed: at most " <> (most <> ".")) v)
  ]
  show_rule r rule_min v = elim (limit_text r.value) [
    | none ↦ none
    | some least ↦ some (with_note r.input ("Allowed: at least " <> (least <> ".")) v)
  ]
  show_rule r rule_one_of v =
      some (with_note r.input ("Allowed: only " <> (list_of t n r.value <> ".")) v)
  show_rule r rule_none_of v =
      some (with_note r.input ("Not allowed: " <> (list_of t n r.value <> ".")) v)
  show_rule r (other_kind k) v = some v

  unfoldable pub show_rules : List (ToolRule F) → Shown → Option Shown
  show_rules [] v = some v
  show_rules (r ∷ rules) v = elim (show_rule r r.kind v) [
    | none ↦ none
    | some v' ↦ show_rules rules v'
  ]

  abbrev pub input_with : Shown → Schema → Schema
  input_with v (schema type d props items required values) =
      schema type d v.props items v.required values

  abbrev pub shown_of : Schema → Shown
  shown_of (schema type d props items required values) = record {
    props = props;
    required = required;
  }

  -- `specWithRules`.
  unfoldable pub spec_with_rules : ToolSpec → List (ToolRule F) → Option ToolSpec
  spec_with_rules spec rules = elim (show_rules rules (shown_of spec.input)) [
    | none ↦ none
    | some v ↦ some (record spec { input = input_with v spec.input })
  ]
