-- ===== src/Gates/SavedRules.antt =====
-- domain/tool_rule.go: `NormalizeRule` and `NormalizeRules`, the check of a creator's rules as they are
-- saved. A value is decoded JSON; `none` is where the code panics.
pub mod Together
pub mod Calm
pub mod Kinds
pub mod Whole
mod Examples
use open_kael.Messages.{message}
use open_kael.Outcome.{is_nil}
use Prim.Native.String.{count}
use open_kael.Values.{Items, str, num, nil, cons, arr, Value}
use open_kael.Tools.{detail, ToolDefinition}
use open_kael.Schema.{schema, Schema}
use open_kael.Gates.Rules.{
  to_number, same_value, rule_one_of, rule_none_of, rule_min, rule_max_product, rule_max,
  rule_fixed, rule_default, other_kind, humanize, ToolRule, RuleKind,
}
use open_kael.Gates.{Texts, Floats}
use open_kael.Contract.{
  wrong, type_of, text_type, number_type, kind, integer_type, fine, check, boolean_type, SchemaType,
  Converted,
}
use open_kael.Prelude.Text.{trim_space, ◌=ₛ◌, ◌<>◌}
use open_kael.Prelude.{
  ℕ, ◌||◌, true, some, ok, not, none, map_ok, ltb, if◌then◌else◌, false, bad, any, String, Result,
  Option, List, Bool, ◌==◌, ◌+◌, ◌&&◌,
}

abbrev pub max_rule_values : ℕ
max_rule_values = 50

abbrev pub max_rule_message : ℕ
max_rule_message = 200

abbrev pub max_rules_per_tool : ℕ
max_rules_per_tool = 20

abbrev pub is_number_type : SchemaType → Bool
is_number_type number_type = true
is_number_type integer_type = true
is_number_type other = false

abbrev pub is_number : Schema → Bool
is_number (schema type d p i r e) = is_number_type (type_of type)

abbrev pub enum_values : Schema → List String
enum_values (schema t d p i r e) = e

-- `len(list)`.
unfoldable pub item_count : {F : Type 0} → Items F → ℕ
item_count nil = 0
item_count (cons v items) = item_count items + 1

-- The text of a kind.
abbrev pub kind_text : RuleKind → String
kind_text rule_max = "max"
kind_text rule_max_product = "max_product"
kind_text rule_min = "min"
kind_text rule_one_of = "one_of"
kind_text rule_none_of = "none_of"
kind_text rule_fixed = "fixed"
kind_text rule_default = "default"
kind_text (other_kind k) = k

abbrev pub is_one_of : RuleKind → Bool
is_one_of rule_one_of = true
is_one_of kind = false

module _ {F : Type 0} where
  abbrev pub trimmed : ToolRule F → ToolRule F
  trimmed r = record r { input = trim_space r.input; message = trim_space r.message }

  abbrev pub checked_value : Converted F → Result (Value F)
  checked_value (fine v) = ok v
  checked_value (wrong e) = bad e

module _ {F : Type 0} (t : Texts F) (n : Floats F) where
  -- `enumHas`.
  unfoldable pub enum_has : List String → Value F → Bool
  enum_has enum v = any (λ e. same_value t n (str e) v) enum

  abbrev pub rule_value_of : SchemaType → Schema → Value F → Result (Value F)
  rule_value_of text_type prop v = checked_value (check t n prop v)
  rule_value_of number_type prop v = checked_value (check t n prop v)
  rule_value_of integer_type prop v = checked_value (check t n prop v)
  rule_value_of boolean_type prop v = checked_value (check t n prop v)
  rule_value_of type prop v = bad "rules can only be set on text, number, yes/no details"

  -- `checkRuleValue`.
  abbrev pub check_rule_value : Schema → Value F → Result (Value F)
  check_rule_value (schema type d p i r e) v =
      rule_value_of (type_of type) (schema type d p i r e) v

  abbrev pub no_limit : ToolRule F → String
  no_limit r =
      "the limit for "
      <> (humanize r.input <> (" × " <> (humanize r.with_input <> " must be a number above zero")))

  -- The names of the details that a limit multiplies, each a number.
  unfoldable pub normalize_product : ToolRule F → ToolDefinition → Schema → Result (ToolRule F)
  normalize_product r def prop = elim (detail def r.with_input) [
    | none ↦ bad (t.quoted r.with_input <> (" isn't a detail of " <> def.name))
    | some other ↦
        if r.with_input =ₛ r.input
        then bad "pick two different details to multiply"
        else if not (is_number prop)
        then bad (humanize r.input <> " isn't a number, so it can't be multiplied")
        else if not (is_number other)
        then bad (humanize r.with_input <> " isn't a number, so it can't be multiplied")
        else elim (to_number t n r.value) [
          | none ↦ bad (no_limit r)
          | some x ↦ if n.less n.zero x then ok (record r { value = num x }) else bad (no_limit r)
        ]
  ]

  unfoldable pub normalize_limit : ToolRule F → Schema → Result (ToolRule F)
  normalize_limit r prop =
      if not (is_number prop)
      then bad
          (humanize r.input <> " isn't a number, so it can't have a largest or smallest allowed")
      else elim (to_number t n r.value) [
        | none ↦ bad ("the limit for " <> (humanize r.input <> " must be a number"))
        | some x ↦ ok (record r { value = num x })
      ]

  -- One of the values of a list.
  unfoldable pub normalize_item : ToolRule F → Schema → Value F → Result (Value F)
  normalize_item r prop v = elim (check_rule_value prop v) [
    | bad e ↦ bad (t.sprint v <> (" isn't a valid value for " <> (humanize r.input <> (": " <> e))))
    | ok cv ↦
        if is_one_of r.kind
          && not (is_nil (enum_values prop))
          && not (enum_has (enum_values prop) cv)
        then bad (t.sprint v <> (" isn't one of the values " <> (humanize r.input <> " can take")))
        else ok cv
  ]

  unfoldable pub normalize_items : ToolRule F → Schema → Items F → Result (Items F)
  normalize_items r prop nil = ok nil
  normalize_items r prop (cons v items) = elim (normalize_item r prop v) [
    | bad e ↦ bad e
    | ok cv ↦ map_ok (λ rest. cons cv rest) (normalize_items r prop items)
  ]

  abbrev pub values_wanted : ToolRule F → String
  values_wanted r =
      "give between 1 and " <> (t.itoa max_rule_values <> (" values for " <> humanize r.input))

  abbrev pub normalize_list : ToolRule F → Schema → Value F → Result (ToolRule F)
  normalize_list r prop (arr items) =
      if item_count items == 0 || ltb max_rule_values (item_count items)
      then bad (values_wanted r)
      else map_ok (λ canon. record r { value = arr canon }) (normalize_items r prop items)
  normalize_list r prop v = bad (values_wanted r)

  unfoldable pub normalize_value : ToolRule F → Schema → Result (ToolRule F)
  normalize_value r prop = elim (check_rule_value prop r.value) [
    | bad e ↦ bad ("that isn't a valid value for " <> (humanize r.input <> (": " <> e)))
    | ok cv ↦
        if not (is_nil (enum_values prop)) && not (enum_has (enum_values prop) cv)
        then bad ("that isn't one of the values " <> (humanize r.input <> " can take"))
        else ok (record r { value = cv })
  ]

  -- The switch on the kind.
  unfoldable pub normalize_kind :
      RuleKind → ToolRule F → ToolDefinition → Schema → Result (ToolRule F)
  normalize_kind rule_max_product r def prop =
      normalize_product (record r { with_input = trim_space r.with_input }) def prop
  normalize_kind rule_max r def prop = normalize_limit (record r { with_input = "" }) prop
  normalize_kind rule_min r def prop = normalize_limit (record r { with_input = "" }) prop
  normalize_kind rule_one_of r def prop = normalize_list (record r { with_input = "" }) prop r.value
  normalize_kind rule_none_of r def prop =
      normalize_list (record r { with_input = "" }) prop r.value
  normalize_kind rule_fixed r def prop = normalize_value (record r { with_input = "" }) prop
  normalize_kind rule_default r def prop = normalize_value (record r { with_input = "" }) prop
  normalize_kind (other_kind k) r def prop = bad ("unknown kind of rule " <> t.quoted k)

  unfoldable pub normalize_trimmed : ToolRule F → ToolDefinition → Result (ToolRule F)
  normalize_trimmed r def =
      if ltb max_rule_message (count r.message)
      then bad ("the message is too long (up to " <> (t.itoa max_rule_message <> " characters)"))
      else elim (detail def r.input) [
        | none ↦ bad (t.quoted r.input <> (" isn't a detail of " <> def.name))
        | some prop ↦ normalize_kind r.kind r def prop
      ]

  -- `NormalizeRule`.
  unfoldable pub normalize_rule : ToolRule F → Option ToolDefinition → Result (ToolRule F)
  normalize_rule r none = bad "that isn't something it can do"
  normalize_rule r (some def) = normalize_trimmed (trimmed r) def
