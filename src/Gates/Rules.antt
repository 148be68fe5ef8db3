-- ===== src/Gates/Rules.antt =====
-- domain/tool_rule.go: the gate that keeps a creator's rules on what a tool is given.
use Prim.Native.Char.{code}
use open_kael.Prelude.{
  String, Bool, true, false, not, ◌||◌, ◌==◌, Option, none, some, List, [], ◌∷◌, if◌then◌else◌, any,
}
use open_kael.Prelude.Text.{◌<>◌, ◌=ₛ◌, is_empty, trim_space, join}
use open_kael.Values.{Value, null, bool, num, str, arr, Items, nil, cons, Fields, end, field, get}
use open_kael.Outcome.{GoError}
use open_kael.Gates.{Invoke, Texts, Floats, value_at, refusal}

-- `RuleKind`, a text that may be none of these.
pub data RuleKind : Type 0 where
  rule_max rule_max_product rule_min rule_one_of rule_none_of rule_fixed rule_default : RuleKind
  other_kind : String → RuleKind

pub record ToolRule (F : Type 0) : Type 0 where
  pub id : String
  pub tool_id : String
  pub input : String
  pub with_input : String
  pub kind : RuleKind
  pub value : Value F
  pub message : String

-- `RulesFor`, of an agent and of a capability.
unfoldable pub rules_of_tool : {F : Type 0} → String → List (ToolRule F) → List (ToolRule F)
rules_of_tool tool_id [] = []
rules_of_tool tool_id (r ∷ rules) =
    let rest = rules_of_tool tool_id rules in if r.tool_id =ₛ tool_id then r ∷ rest else rest

-- What a rule says of a call: it keeps it, it breaks it, or the rule's own value is of the wrong
-- kind, where the code panics.
pub data Check : Type 0 where
  keeps : Check
  broken : (why : String) → Check
  panics : Check

-- `strings.ReplaceAll(s, "_", " ")`.
unfoldable pub spaced : String → String
spaced String.[] = String.[]
spaced (String.◌∷◌ c s) =
    let rest = spaced s in if code c == b'_' then " " <> rest else String.◌∷◌ c rest

unfoldable pub humanize : String → String
unfolding spaced
humanize name = spaced (trim_space name)

abbrev pub or_else : String → String → String
or_else message standard = if is_empty message then standard else message

abbrev pub is_pin : RuleKind → Bool
is_pin rule_fixed = true
is_pin rule_default = true
is_pin k = false

module _ {F : Type 0} where
  -- `refusalText`.
  unfoldable pub refusal_text : ToolRule F → String → String
  refusal_text r standard = or_else r.message standard

  -- `list.([]any)`, nil where it is none.
  unfoldable pub any_item : (Value F → Bool) → Items F → Bool
  any_item p nil = false
  any_item p (cons v rest) = p v || any_item p rest

  abbrev pub items_of : Value F → Items F
  items_of (arr items) = items
  items_of _ = nil

  -- `m[k] = v`.
  unfoldable pub set : String → Value F → Fields F → Fields F
  set k v end = field k v end
  set k v (field j w rest) =
      let rest' = set k v rest in if j =ₛ k then field k v rest else field j w rest'

  -- `!ok || v == nil || v == ""`.
  abbrev pub not_given : Option (Value F) → Bool
  not_given none = true
  not_given (some null) = true
  not_given (some (str s)) = is_empty s
  not_given (some v) = false

  -- The loop of `applyPins` that fills in the values.
  unfoldable pub pin : ToolRule F → RuleKind → Fields F → Fields F
  pin r rule_fixed out = set r.input r.value out
  pin r rule_default out = if not_given (get r.input out) then set r.input r.value out else out
  pin r k out = out

  unfoldable pub pins : List (ToolRule F) → Fields F → Fields F
  pins [] out = out
  pins (r ∷ rules) out = pins rules (pin r r.kind out)

  unfoldable pub apply_pins : List (ToolRule F) → Fields F → Fields F
  apply_pins rules input = if any (λ r. is_pin r.kind) rules then pins rules input else input

  -- `withPins`.
  unfoldable pub with_pins :
      {W R : Type 0} → List (ToolRule F) → (W → Fields F → R) → W → Fields F → R
  with_pins rules inner w input = inner w (apply_pins rules input)

module _ {F : Type 0} (t : Texts F) (n : Floats F) where
  abbrev finite : Option F → Option F
  finite none = none
  finite (some x) = if n.is_finite x then some x else none

  unfoldable pub to_number : Value F → Option F
  to_number (num x) = finite (some x)
  to_number (str s) = finite (n.parse (trim_space s))
  to_number v = none

  abbrev both_true : Bool → Value F → Bool
  both_true true (bool b) = b
  both_true false (bool b) = not b
  both_true a v = false

  -- `sameValue` of two values that are not both numbers.
  abbrev pub same_otherwise : Value F → Value F → Bool
  same_otherwise (bool a) b = both_true a b
  same_otherwise a b = t.equal_fold (trim_space (t.sprint a)) (trim_space (t.sprint b))

  unfoldable pub same_value : Value F → Value F → Bool
  same_value a b = elim (to_number a) [
    | none ↦ same_otherwise a b
    | some x ↦ elim (to_number b) [ some y ↦ n.equal x y | none ↦ same_otherwise a b ]
  ]

  unfoldable pub value_in : Value F → Value F → Bool
  value_in list v = any_item (λ it. same_value it v) (items_of list)

  unfoldable pub parts_of : Items F → List String
  parts_of nil = []
  parts_of (cons (num x) rest) = n.format x ∷ parts_of rest
  parts_of (cons v rest) = t.sprint v ∷ parts_of rest

  unfoldable pub list_of : Value F → String
  list_of list = join ", " (t.sorted (parts_of (items_of list)))

  unfoldable pub capital_first : String → String
  capital_first String.[] = String.[]
  capital_first (String.◌∷◌ c s) = t.to_upper (String.◌∷◌ c String.[]) <> s

  -- `r.Value.(float64)`, which panics where the value is none.
  abbrev pub limit : Value F → (F → Check) → Check
  limit (num x) use_it = use_it x
  limit v use_it = panics

  -- `breaksProduct`: what is too much by no more than a billionth is let through.
  unfoldable pub breaks_product : ToolRule F → Fields F → Check
  breaks_product r input =
      let what = humanize r.input <> (" × " <> humanize r.with_input) in
      let no_numbers = broken (
        refusal_text r (
          "I can't check the limit on "
          <> (what <> " without both numbers, so nothing was done."))) in
      elim (to_number (value_at r.input input)) [
        | none ↦ no_numbers
        | some a ↦ elim (to_number (value_at r.with_input input)) [
          | none ↦ no_numbers
          | some b ↦ limit r.value (λ most.
              if n.less (n.times n.billionth (n.max n.one (n.abs most)))
                (n.minus (n.times a b) most)
              then broken (
                  refusal_text r (
                    "That comes to "
                    <> (n.format (n.round_to_cents (n.times a b))
                        <> (" for "
                            <> (what
                                <> (", which is more than the most allowed ("
                                    <> (n.format most <> "), so nothing was done.")))))))
              else keeps)
        ]
      ]

  -- The rules on one number.
  unfoldable pub breaks_max : ToolRule F → Value F → Check
  breaks_max r v = elim (to_number v) [
    | none ↦ keeps
    | some x ↦ limit r.value (λ most.
        if n.less most x
        then broken (
            refusal_text r (
              "That's more than the most allowed for "
              <> (humanize r.input <> (" (" <> (n.format most <> "), so nothing was done.")))))
        else keeps)
  ]

  unfoldable pub breaks_min : ToolRule F → Value F → Check
  breaks_min r v = elim (to_number v) [
    | none ↦ keeps
    | some x ↦ limit r.value (λ least.
        if n.less x least
        then broken (
            refusal_text r (
              "That's less than the least allowed for "
              <> (humanize r.input <> (" (" <> (n.format least <> "), so nothing was done.")))))
        else keeps)
  ]

  -- A rule on one input that was given.
  unfoldable pub breaks_value : ToolRule F → RuleKind → Value F → Check
  breaks_value r rule_max v = breaks_max r v
  breaks_value r rule_min v = breaks_min r v
  breaks_value r rule_one_of v =
      if value_in r.value v
      then keeps
      else broken (
          refusal_text r (
            "Only these are allowed for "
            <> (humanize r.input <> (": " <> (list_of r.value <> ". So nothing was done.")))))
  breaks_value r rule_none_of v =
      if value_in r.value v
      then broken (
          refusal_text r (
            capital_first (t.sprint v)
            <> (" isn't allowed for " <> (humanize r.input <> ", so nothing was done."))))
      else keeps
  breaks_value r k v = keeps

  abbrev pub breaks_given : ToolRule F → Value F → Check
  breaks_given r null = keeps
  breaks_given r v = breaks_value r r.kind v

  -- The body of the loop of `breaks`: what one rule says of a call.
  unfoldable pub breaks_rule : ToolRule F → RuleKind → Fields F → Check
  breaks_rule r rule_max_product input = breaks_product r input
  breaks_rule r k input = breaks_given r (value_at r.input input)

  unfoldable pub breaks : List (ToolRule F) → Fields F → Check
  breaks [] input = keeps
  breaks (r ∷ rules) input =
      let later = breaks rules input in
      elim (breaks_rule r r.kind input) [
        | keeps ↦ later
        | broken why ↦ broken why
        | panics ↦ panics
      ]

  -- `withRules`; `none` where it panics. A reason that is empty would be none.
  unfoldable pub with_rules :
      {W : Type 0}
      → List (ToolRule F)
      → Invoke F W
      → W
      → Fields F
      → Option (Value F × Option GoError × W)
  with_rules rules inner w input = elim (breaks rules input) [
    | keeps ↦ some (inner w input)
    | broken why ↦ some (if is_empty why then inner w input else (refusal why, none, w))
    | panics ↦ none
  ]
