-- ===== src/Hydrate/Examples.antt =====
-- Tools behind their gates, at concrete inputs: an order that a person must approve, with a service
-- that counts the orders it was sent.
use open_kael.Hydrate.Quiet.{QuietOrPanics, PreparesQuietly, NobodyAgrees}
use open_kael.Gates.SavedRules.{
  normalize_trimmed, normalize_rule, normalize_kind, normalize_items, normalize_item, item_count,
}
use open_kael.Gates.SavedRules.Together.{
  normalize_rules, keep_rules, keep_kind, keep_counted, crossed,
}
use open_kael.Hydrate.Calm.{bind_tool-calm}
use open_kael.Hydrate.SignIn.{with_timezone_gate}
use open_kael.Gates.Rules.{breaks}
use open_kael.Prelude.Text.{join, trim_space}
use open_kael.Outcome.{outcome_of}
use open_kael.Gates.Journal.{with_journal, says_it_failed, note, has_run}
use open_kael.Hydrate.Skills.Order.{wait_for-refuses}
use open_kael.Hydrate.Skills.Waits.{id_named, wait_for}
use open_kael.Hydrate.Prompt.Plain.{render_approval_prompt-plain}
use open_kael.Gates.{value_at, refusal}
use open_kael.Contract.{
  check, without, type_of, take_property, take_given, require, in_enum, finish_object, convert,
  CheckedInput, accepted, invalid, checked_object, check_required, check_properties, check_input,
  as_string,
}
use open_kael.Hydrate.Prompt.{render_approval_prompt, has_braces}
use open_kael.Hydrate.Approval.{
  is_marked, with_user_approval_gate, with_approval_gate, once_key, ask_first, agreed_in_advance,
  after_asking, with_one_shot_guard,
}
use open_kael.Gates.Rules.{with_rules, with_pins, set, apply_pins, rule_one_of, ToolRule}
use mathlib.Core.List.{Memᴰ}
use open_kael.Hydrate.OneShot.{AnyCall, after_all}
use open_kael.Hydrate.Service.{SameOn, invoke_of-same}
use open_kael.Hydrate.Skills.{rules_for, hydrate_tools, ability_of, Stored, Skill, Agent, Ability}
use open_kael.Hydrate.Skills.Granted.{hydrate_tools-Granted, Granted, Abilities}
use open_kael.Values.{get, nil, cons, arr, end}
use open_kael.Hydrate.Bind.{
  with_prepare, with_input_contract, asked_call, sign_in_gate, guarded, approval_gates,
  execute_tool, bind_tool, invoke_of,
}
use open_kael.Schema.{find_property, schema, no_items, Properties}
use open_kael.Hydrate.Denied.{invoke_of-Quiet}
use open_kael.Tools.{detail, spec_of, empty_tool, ToolDefinition, Integration}
use open_kael.Values.{str, field, Fields}
use open_kael.Hydrate.{Turn, Run, ExecutorRegistry, Executor}
use open_kael.Prelude.{
  is_some, lookup, String, Bool, ◌≡◌, ◌∷◌, ℕ, true, sym, some_injective, some, refl, none, false,
  [], ◌+◌,
}
use open_kael.Gates.Examples.{texts, floats}

abbrev counting : Executor ℕ ℕ
counting = record {
  execute = λ identity ref id action input w. (str "placed", none, w + 1);
  prepare = none;
}

abbrev registry : ExecutorRegistry ℕ ℕ
registry = record { executors = ("broker", counting) ∷ []; fallback = none }

abbrev broker : Integration
broker = record {
  id = "i1";
  name = "Broker";
  service = "broker";
  created_by = "";
  source_given = false;
}

abbrev order : ToolDefinition
order = record empty_tool {
  id = "t1";
  name = "place_order";
  integration_id = "i1";
  input_schema =
      schema "object" ""
        (Properties.property "symbol" (schema "string" "" Properties.end no_items [] [])
          Properties.end)
        no_items ("symbol" ∷ []) [];
  requires_approval = true;
  first = "t2" ∷ [];
}

-- The same, once for each pair.
abbrev once_a_symbol : ToolDefinition
once_a_symbol = record order { once_for = "symbol" ∷ [] }

abbrev is_given : CheckedInput ℕ → Bool
is_given (accepted (field k v more)) = true
is_given c = false

abbrev look_up : ToolDefinition
look_up = record empty_tool {
  id = "t2";
  name = "list_orders";
  integration_id = "i1";
  read_only = true;
}

-- A turn whose person turns down whatever they are asked.
abbrev declining : Turn ℕ ℕ
declining = record {
  conversation = some 7;
  user_in = λ conv. "u1";
  user_id = "u1";
  timezone = "";
  unattended_allowed = [];
  user_tool_approvals = [];
  connection_refs = none;
  connect_tool_name = "";
  request_approval = some (λ conv prompt timeout w. (false, none, w));
  request_connect = none;
  request_timezone = none;
}

abbrev agreeing : Turn ℕ ℕ
agreeing = record declining { request_approval = some (λ conv prompt timeout w. (true, none, w)) }

abbrev fresh : Run ℕ ℕ
fresh = record { journal = some []; unattended = false; world = record { done = []; outside = 0 } }

abbrev for_symbol : Fields ℕ
for_symbol = field "symbol" (str "EURUSD") end

-- Nothing was sent to the service.
abbrev NothingSent : ℕ → Type 0
NothingSent w = w ≡ 0

declining-NobodyAgrees : NobodyAgrees NothingSent declining
declining-NobodyAgrees = record {
  asked = λ ask e conv prompt timeout w h. rw (sym (some_injective e)) h;
  never_yes = λ ask e conv prompt timeout w h. rw (sym (some_injective e)) refl;
  asked_timezone = λ ask e conv user w h. cc;
}

counting-PreparesQuietly : PreparesQuietly NothingSent counting
counting-PreparesQuietly = record { prepared = λ p e i ref action input w h. cc }

invoke_of-Quiet_example :
    QuietOrPanics NothingSent
      (invoke_of texts floats "g" counting order none [] declining fresh for_symbol)
unfolding open_kael.Hydrate.Approval.agreed_in_advance open_kael.Hydrate.Quiet.needs_approval
invoke_of-Quiet_example =
    invoke_of-Quiet NothingSent texts floats "g" counting order none [] declining fresh for_symbol
      declining-NobodyAgrees counting-PreparesQuietly refl refl refl

-- The same call, where the person agrees.
agreed :
    invoke_of texts floats "g" counting order none [] agreeing fresh for_symbol
    ≡ some (
      str "placed",
      none,
      record fresh {
        journal = some (record { tool = "t1"; input = for_symbol } ∷ []);
        world = record { done = ("g", "") ∷ []; outside = 1 };
      },
    )
unfolding invoke_of with_pins with_input_contract with_prepare with_rules breaks guarded
    with_timezone_gate approval_gates with_one_shot_guard with_approval_gate agreed_in_advance
    is_marked ask_first after_asking with_user_approval_gate sign_in_gate with_journal execute_tool
    note says_it_failed once_key outcome_of value_at get check_input checked_object finish_object
    check_required check_properties take_given take_property convert type_of as_string in_enum
    require without apply_pins trim_space set
agreed = refl

-- An order for a pair that a limit leaves out.
abbrev only_dollars : ToolRule ℕ
only_dollars = record {
  id = "r1";
  tool_id = "t1";
  input = "symbol";
  with_input = "";
  kind = rule_one_of;
  value = arr (cons (str "USDJPY") nil);
  message = "Only dollars.";
}

abbrev stored : Stored ℕ ℕ
stored = record {
  tools_by_id = ("t1", order) ∷ ("t2", look_up) ∷ [];
  identities_by_id = [];
  integrations_by_id = ("i1", broker) ∷ [];
  registry = some registry;
}

abbrev trader : Agent ℕ
trader = record { identity_ids = []; rules = [] }

-- A capability that names the order, and may use all look-ups of the broker.
abbrev trading : Skill ℕ
trading = record {
  id = "s1";
  tools = "t1" ∷ [];
  integrations = "i1" ∷ [];
  limited_integrations = "i1" ∷ [];
  all_look_ups = true;
  rules = [];
  prerequisites = [];
}

hydrate_tools-Granted_example :
    Abilities {F = ℕ} {C = ℕ} {W = ℕ}
      (Granted texts floats trader trading stored)
      (hydrate_tools texts floats trader trading stored)
hydrate_tools-Granted_example = hydrate_tools-Granted texts floats trader trading stored

abbrev ordering : Ability ℕ ℕ ℕ
ordering =
    ability_of trading stored.tools_by_id order broker
      (record { spec = spec_of order; invoke = invoke_of texts floats "g" counting order none [] })

-- An order, before the orders were looked up.
wait_for-refuses_example :
    (message : String) × ((wait_for texts floats [] stored.tools_by_id
          ("t1" ∷ "t2" ∷ [])
          ordering).invoke
        agreeing fresh for_symbol
      ≡ some (refusal message, none, fresh))
unfolding lookup id_named ability_of has_run
wait_for-refuses_example =
    wait_for-refuses texts floats [] stored.tools_by_id ("t1" ∷ "t2" ∷ []) ordering "t2" order
      agreeing fresh for_symbol refl (Memᴰ.head refl) refl refl refl refl

-- Between two orders for the same pair, one for another pair is made: it is a change of its own.
abbrev for_other : AnyCall ℕ ℕ ℕ
for_other = record {
  guard = "g";
  executor = counting;
  def = once_a_symbol;
  identity = none;
  turn = agreeing;
  input = field "symbol" (str "USDJPY") end;
}

abbrev ordered : Run ℕ ℕ
ordered =
    after_all texts floats (for_other ∷ [])
      (approval_gates texts floats "g" once_a_symbol
        (asked_call texts floats "g" counting once_a_symbol none) agreeing fresh for_symbol).2

-- Both orders were sent.
both_sent : ordered.world.outside ≡ 2
unfolding after_all guarded with_timezone_gate approval_gates with_one_shot_guard with_approval_gate
    agreed_in_advance is_marked ask_first after_asking with_user_approval_gate sign_in_gate
    with_journal execute_tool note says_it_failed once_key outcome_of value_at get trim_space join
both_sent = refl

-- A service that does nothing with an order for no pair at all, and is otherwise the same.
abbrev wary : Executor ℕ ℕ
wary = record {
  execute = λ identity ref id action input w. elim input [
    | end ↦ (str "nothing to do", none, w)
    | field k v more ↦ (str "placed", none, w + 1)
  ];
  prepare = none;
}

same_when_given :
    (c : CheckedInput ℕ) (clean : Fields ℕ)
    → is_given c ≡ true
    → c ≡ accepted clean
    → SameOn counting wary order clean
same_when_given c (field k v more) g h identity ref id w = refl
same_when_given (accepted (field k v more)) end g h identity ref id w = cc
same_when_given (accepted end) end g h identity ref id w = cc
same_when_given (invalid why) end g h identity ref id w = cc

invoke_of-same_example :
    invoke_of texts floats "g" counting order none (only_dollars ∷ []) agreeing fresh for_symbol
    ≡ invoke_of texts floats "g" wary order none (only_dollars ∷ []) agreeing fresh for_symbol
unfolding value_at get check_input checked_object finish_object check_required check_properties
    take_given take_property convert type_of as_string in_enum require without apply_pins trim_space
    set
invoke_of-same_example =
    invoke_of-same texts floats "g" counting wary order none (only_dollars ∷ []) agreeing fresh
      for_symbol refl
      (λ given checked kept.
        same_when_given (check_input texts floats order.input_schema for_symbol) given refl
          (checked refl))

render_approval_prompt-plain_example :
    has_braces (
      render_approval_prompt texts
        (record order { approval_prompt_template = "Buy {{symbol}} {{ now?" })
        for_symbol)
    ≡ false
render_approval_prompt-plain_example =
    render_approval_prompt-plain texts
      (record order { approval_prompt_template = "Buy {{symbol}} {{ now?" }) for_symbol

-- A trader who is held to dollars.
abbrev careful : Agent ℕ
careful = record { identity_ids = []; rules = only_dollars ∷ [] }

bind_tool-calm_example :
    (is_some (
        bind_tool {C = ℕ} texts floats "g" order none broker registry
          (rules_for careful trading "t1"))
      ≡ true)
    × (is_some (
          invoke_of texts floats "g" counting order none
            (rules_for careful trading "t1")
            agreeing
            fresh
            for_symbol)
        ≡ true)
unfolding normalize_rules keep_rules normalize_rule lookup normalize_trimmed trim_space detail
    find_property normalize_kind item_count normalize_items normalize_item type_of check convert
    as_string in_enum keep_counted keep_kind crossed
bind_tool-calm_example =
    bind_tool-calm texts floats "g" careful trading (only_dollars ∷ []) [] stored.tools_by_id order
      none broker registry counting agreeing fresh for_symbol refl refl
