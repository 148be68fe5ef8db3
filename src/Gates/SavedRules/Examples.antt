-- ===== src/Gates/SavedRules/Examples.antt =====
-- Rules as they are saved, at concrete inputs.
use open_kael.Prelude.Text.{trim_space}
use open_kael.Values.{num}
use open_kael.Gates.SavedRules.{normalize_trimmed, normalize_rule, normalize_limit, normalize_kind}
use open_kael.Contract.{type_of}
use open_kael.Gates.SavedRules.Together.{
  normalize_rules, keep_rules, keep_min, keep_max, keep_kind, keep_counted, crossed, at_slot,
}
use open_kael.Prelude.{◌≡◌, ◌∷◌, ℕ, some, refl, ok, lookup, bad, []}
use open_kael.Gates.Rules.{to_number, spaced, rule_min, rule_max, humanize, ToolRule}
use open_kael.Tools.{empty_tool, detail, ToolDefinition}
use open_kael.Gates.SavedRules.Whole.{normalize_rules-Saved, Saved}
use open_kael.Gates.Examples.{texts, floats}
use open_kael.Schema.{schema, no_items, find_property, Properties}

abbrev ordering : ToolDefinition
ordering = record empty_tool {
  id = "t1";
  name = "place_order";
  input_schema =
      schema "object" ""
        (Properties.property "units" (schema "number" "" Properties.end no_items [] [])
          Properties.end)
        no_items [] [];
}

abbrev most : ℕ → ToolRule ℕ
most k = record {
  id = "r1";
  tool_id = "t1";
  input = " units ";
  with_input = "price";
  kind = rule_max;
  value = num k;
  message = "";
}

abbrev least : ℕ → ToolRule ℕ
least k = record (most k) { kind = rule_min }

normalize_rules-Saved_example :
    Saved texts floats ℕ
      (normalize_rules texts floats (most 5 ∷ least 2 ∷ []) (("t1", ordering) ∷ []))
normalize_rules-Saved_example =
    normalize_rules-Saved texts floats ℕ (most 5 ∷ least 2 ∷ []) (("t1", ordering) ∷ [])

-- What is saved of one rule, and a smallest allowed above the largest.
most_saved :
    normalize_rules texts floats (most 5 ∷ []) (("t1", ordering) ∷ [])
    ≡ some (ok (record (most 5) { input = "units"; with_input = "" } ∷ []))
unfolding normalize_rules keep_rules normalize_rule normalize_trimmed normalize_kind normalize_limit
    keep_counted keep_kind keep_max keep_min at_slot crossed lookup detail find_property type_of
    to_number trim_space humanize spaced
most_saved = refl

crossed_refused :
    normalize_rules texts floats (most 5 ∷ least 7 ∷ []) (("t1", ordering) ∷ [])
    ≡ some (bad "the smallest allowed for units is bigger than the largest allowed")
unfolding normalize_rules keep_rules normalize_rule normalize_trimmed normalize_kind normalize_limit
    keep_counted keep_kind keep_max keep_min at_slot crossed lookup detail find_property type_of
    to_number trim_space humanize spaced
crossed_refused = refl
