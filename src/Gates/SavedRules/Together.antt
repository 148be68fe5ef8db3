-- ===== src/Gates/SavedRules/Together.antt =====
-- domain/tool_rule.go: `NormalizeRules`, which refuses rules that can't all hold.
use open_kael.Gates.SavedRules.{normalize_rule, max_rules_per_tool, kind_text}
use open_kael.Contract.{kind}
use open_kael.Values.{num, Value}
use open_kael.Tools.{ToolDefinition}
use open_kael.Gates.Rules.{
  spaced, rule_min, rule_max_product, rule_max, rule_fixed, rule_default, humanize, ToolRule,
  RuleKind,
}
use open_kael.Gates.{Texts, Floats}
use open_kael.Prelude.Text.{◌=ₛ◌, ◌<>◌}
use open_kael.Prelude.{
  ◌∷◌, ℕ, ◌||◌, some, ok, none, ltb, lookup, if◌then◌else◌, false, bad, [], String, Result, Option,
  List, Bool, ◌++◌, ◌+◌, ◌&&◌,
}

abbrev pub Slot : Type 0
Slot = String × String

abbrev pub same_slot : Slot → Slot → Bool
same_slot (a, b) (c, d) = a =ₛ c && b =ₛ d

module _ {A : Type 0} where
  unfoldable pub at_slot : Slot → List (Slot × A) → Option A
  at_slot s [] = none
  at_slot s ((s', a) ∷ m) = if same_slot s' s then some a else at_slot s m

-- The variables of the loop.
pub record Seen (F : Type 0) : Type 0 where
  pub kept : List (ToolRule F)
  pub per_tool : List (String × ℕ)
  pub pinned : List (Slot × RuleKind)
  pub products : List (String × Slot)
  pub maxes : List (Slot × F)
  pub mins : List (Slot × F)

abbrev pub how_many : String → List (String × ℕ) → ℕ
how_many id m = elim (lookup id m) [ some k ↦ k | none ↦ 0 ]

unfoldable pub has_product : String → Slot → List (String × Slot) → Bool
has_product id p [] = false
has_product id p ((j, q) ∷ products) = j =ₛ id && same_slot q p || has_product id p products

module _ {F : Type 0} where
  abbrev pub slot_of : ToolRule F → Slot
  slot_of r = (r.tool_id, r.input)

  abbrev pub keep_it : ToolRule F → Seen F → Seen F
  keep_it r s = record s { kept = s.kept ++ r ∷ [] }

  abbrev pub count_it : ToolRule F → Seen F → Seen F
  count_it r s = record s { per_tool = (r.tool_id, how_many r.tool_id s.per_tool + 1) ∷ s.per_tool }

  unfoldable pub keep_pin : ToolRule F → Seen F → Option (Result (Seen F))
  keep_pin r s = elim (at_slot (slot_of r) s.pinned) [
    | some prev ↦ some (
        bad (
          humanize r.input
          <> (" already has a "
              <> (spaced (kind_text prev) <> " value; a detail can have only one"))))
    | none ↦ some (ok (keep_it r (record s { pinned = (slot_of r, r.kind) ∷ s.pinned })))
  ]

  unfoldable pub keep_product : ToolRule F → Seen F → Option (Result (Seen F))
  keep_product r s =
      if has_product r.tool_id (r.input, r.with_input) s.products
        || has_product r.tool_id (r.with_input, r.input) s.products
      then some
          (bad (humanize r.input <> (" × " <> (humanize r.with_input <> " already has a limit"))))
      else some (
          ok
            (keep_it r (record s { products = (r.tool_id, (r.input, r.with_input)) ∷ s.products })))

  -- `n.Value.(float64)`.
  abbrev pub with_number : Value F → (F → Seen F) → Option (Result (Seen F))
  with_number (num x) use_it = some (ok (use_it x))
  with_number v use_it = none

  unfoldable pub keep_max : ToolRule F → Seen F → Option (Result (Seen F))
  keep_max r s = elim (at_slot (slot_of r) s.maxes) [
    | some x ↦ some (bad (humanize r.input <> " already has a largest allowed"))
    | none ↦ with_number r.value (λ x. keep_it r (record s { maxes = (slot_of r, x) ∷ s.maxes }))
  ]

  unfoldable pub keep_min : ToolRule F → Seen F → Option (Result (Seen F))
  keep_min r s = elim (at_slot (slot_of r) s.mins) [
    | some x ↦ some (bad (humanize r.input <> " already has a smallest allowed"))
    | none ↦ with_number r.value (λ x. keep_it r (record s { mins = (slot_of r, x) ∷ s.mins }))
  ]

  -- The switch on the kind.
  unfoldable pub keep_kind : RuleKind → ToolRule F → Seen F → Option (Result (Seen F))
  keep_kind rule_fixed r s = keep_pin r s
  keep_kind rule_default r s = keep_pin r s
  keep_kind rule_max_product r s = keep_product r s
  keep_kind rule_max r s = keep_max r s
  keep_kind rule_min r s = keep_min r s
  keep_kind kind r s = some (ok (keep_it r s))

module _ {F : Type 0} where
  abbrev pub nothing_seen : Seen F
  nothing_seen = record {
    kept = [];
    per_tool = [];
    pinned = [];
    products = [];
    maxes = [];
    mins = [];
  }

  abbrev pub if_uncrossed : Seen F → Option String → Result (List (ToolRule F))
  if_uncrossed s none = ok s.kept
  if_uncrossed s (some e) = bad e

module _ {F : Type 0} (t : Texts F) (n : Floats F) where
  unfoldable pub keep_counted : ToolRule F → Seen F → Option (Result (Seen F))
  keep_counted r s =
      if ltb max_rules_per_tool (how_many r.tool_id s.per_tool)
      then some (
          bad ("too many rules on one thing it does (up to " <> (t.itoa max_rules_per_tool <> ")")))
      else keep_kind r.kind r s

  -- The loop over the rules.
  unfoldable pub keep_rules :
      List (ToolRule F) → List (String × ToolDefinition) → Seen F → Option (Result (Seen F))
  keep_rules [] tools s = some (ok s)
  keep_rules (r ∷ rules) tools s = elim (normalize_rule t n r (lookup r.tool_id tools)) [
    | bad e ↦ some (bad e)
    | ok r' ↦ elim (keep_counted r' (count_it r' s)) [
      | none ↦ none
      | some (bad e) ↦ some (bad e)
      | some (ok s') ↦ keep_rules rules tools s'
    ]
  ]

  -- The loop over the largest allowed.
  unfoldable pub crossed : List (Slot × F) → List (Slot × F) → Option String
  crossed [] mins = none
  crossed ((s, hi) ∷ maxes) mins =
      let rest = crossed maxes mins in
      elim (at_slot s mins) [
        | none ↦ rest
        | some lo ↦
            if n.less hi lo
            then some (
                "the smallest allowed for "
                <> (humanize s.1 <> " is bigger than the largest allowed"))
            else rest
      ]

  -- `NormalizeRules`.
  unfoldable pub normalize_rules :
      List (ToolRule F) → List (String × ToolDefinition) → Option (Result (List (ToolRule F)))
  normalize_rules rules tools = elim (keep_rules rules tools nothing_seen) [
    | none ↦ none
    | some (bad e) ↦ some (bad e)
    | some (ok s) ↦ some (if_uncrossed s (crossed s.maxes s.mins))
  ]
