-- ===== src/Gates/Examples.antt =====
-- Runs of the gates at concrete inputs.
use mathlib.Core.List.{Memᴰ}
use open_kael.Prelude.{
  ℕ, ◌+◌, ◌-◌, ◌*◌, String, true, false, ◌&&◌, ◌||◌, Option, none, some, List, [], ◌∷◌, ◌≡◌, refl,
  ltb, ◌==◌, if◌then◌else◌,
}
use open_kael.Prelude.Text.{◌=ₛ◌, trim_space}
use open_kael.Values.{Value, null, bool, num, str, arr, obj, Fields, end, field, get}
use open_kael.Schema.{schema, no_items}
use open_kael.Outcome.{GoError}
use open_kael.Loop.{BoundAction}
use open_kael.Gates.{Texts, Floats, Refused, value_at}
use open_kael.Gates.Journal.{
  Ctx, agree, has_run, went_through, with_journal, same_input, same_value_given,
}
use open_kael.Gates.Prerequisites.{Prerequisite, rule_holds, wrap_prerequisites}
use open_kael.Gates.Rules.{
  ToolRule, rule_max, rule_fixed, breaks_rule, with_rules, breaks_value, breaks_max, to_number,
}
use open_kael.Gates.Waiting.{wrap_prerequisites-Refused, with_journal-has_run}
use open_kael.Gates.Limits.{Stopped, with_rules-Stopped}

abbrev pub texts : Texts ℕ
texts = record {
  equal_fold = λ a b. a =ₛ b;
  to_lower = λ s. s;
  to_upper = λ s. s;
  sorted = λ l. l;
  sprint = λ v. elim v [
    | null ↦ "<nil>"
    | bool b ↦ if b then "true" else "false"
    | num x ↦ "5"
    | str s ↦ s
    | arr a ↦ "[]"
    | obj m ↦ "map[]"
  ];
  itoa = λ k. "1";
  quoted = λ s. s;
  marshal_value = λ v. none;
}

abbrev pub floats : Floats ℕ
floats = record {
  equal = λ a b. a == b;
  less = λ a b. ltb a b;
  times = λ a b. a * b;
  minus = λ a b. a - b;
  max = λ a b. if ltb a b then b else a;
  abs = λ a. a;
  zero = 0;
  one = 1;
  billionth = 0;
  round_to_cents = λ a. a;
  is_finite = λ a. true;
  is_whole = λ a. true;
  parse = λ s. none;
  format = λ x. "5";
}

-- A trade, which waits for a look-up of the open trades on the same pair.
abbrev trade : BoundAction ℕ (Ctx ℕ ℕ)
trade = record {
  spec = record {
    name = "place_trade";
    description = "";
    instructions = "";
    input_schema = schema "object" "" open_kael.Schema.Properties.end no_items [] [];
    output_schema = schema "object" "" open_kael.Schema.Properties.end no_items [] [];
    max_calls = 0;
    hidden = false;
    read_only = false;
    changes = true;
  };
  invoke = λ ctx input. (str "placed", none, record ctx { world = ctx.world + 1 });
  needs = [];
  app = "";
  app_name = "";
  with_look_ups = [];
  declared = true;
  limited = false;
}

abbrev open_trades_first : Prerequisite
open_trades_first = record {
  id = "r";
  before = "t1";
  first = "t2";
  same = "symbol" ∷ [];
  text = "";
  one_of = [];
}

abbrev on_pair : String → Fields ℕ
on_pair pair = field "symbol" (str pair) end

abbrev checked : String → Ctx ℕ ℕ
checked pair = record {
  journal = some (record { tool = "t2"; input = on_pair pair } ∷ []);
  unattended = false;
  world = 0;
}

abbrev trade_names : List (String × String)
trade_names = ("t2", "list_trades") ∷ []

same_pair : rule_holds texts floats (checked "EURUSD") (on_pair "EURUSD") open_trades_first ≡ true
unfolding rule_holds has_run agree same_input same_value_given value_at get trim_space
same_pair = refl

other_pair : rule_holds texts floats (checked "GBPUSD") (on_pair "EURUSD") open_trades_first ≡ false
unfolding rule_holds has_run agree same_input same_value_given value_at get trim_space
other_pair = refl

wrap_prerequisites-Refused_example : Refused (checked "GBPUSD") (
    (wrap_prerequisites texts floats trade (open_trades_first ∷ []) trade_names).invoke
      (checked "GBPUSD")
      (on_pair "EURUSD"))
wrap_prerequisites-Refused_example =
    wrap_prerequisites-Refused texts floats trade_names trade (open_trades_first ∷ [])
      (checked "GBPUSD") (on_pair "EURUSD") open_trades_first (Memᴰ.head refl) other_pair

-- A look-up of the trades on one pair, then the question about another.
with_journal-has_run_example :
    has_run texts floats
      (with_journal texts "t2" trade.invoke (checked "GBPUSD") (on_pair "EURUSD")).2.journal
      "t2"
      ("symbol" ∷ [])
      (on_pair "EURUSD")
    ≡ has_run texts floats
        (some (record { tool = "t2"; input = on_pair "GBPUSD" } ∷ []))
        "t2"
        ("symbol" ∷ [])
        (on_pair "EURUSD")
      || (went_through texts (str "placed") none
          && (("t2" =ₛ "t2")
              && agree texts floats ("symbol" ∷ []) (on_pair "EURUSD") (on_pair "EURUSD")))
with_journal-has_run_example =
    with_journal-has_run texts floats "t2" trade.invoke (checked "GBPUSD") (on_pair "EURUSD")
      (record { tool = "t2"; input = on_pair "GBPUSD" } ∷ []) "t2" ("symbol" ∷ [])
      (on_pair "EURUSD") refl

abbrev at_most_five : ToolRule ℕ
at_most_five = record {
  id = "m";
  tool_id = "t1";
  input = "units";
  with_input = "";
  kind = rule_max;
  value = num 5;
  message = "";
}

abbrev always_demo : ToolRule ℕ
always_demo = record {
  id = "f";
  tool_id = "t1";
  input = "account";
  with_input = "";
  kind = rule_fixed;
  value = str "demo";
  message = "";
}

abbrev units : ℕ → Fields ℕ
units n = field "units" (num n) end

abbrev place : ℕ → Fields ℕ → Value ℕ × Option GoError × ℕ
place w input = (str "placed", none, w + 1)

with_rules-Stopped_example :
    Stopped 0 (with_rules texts floats (always_demo ∷ at_most_five ∷ []) place 0 (units 6))
unfolding breaks_rule value_at get breaks_value breaks_max to_number
with_rules-Stopped_example =
    with_rules-Stopped texts floats (always_demo ∷ at_most_five ∷ []) place 0 (units 6) at_most_five
      (Memᴰ.tail (Memᴰ.head refl)) refl
