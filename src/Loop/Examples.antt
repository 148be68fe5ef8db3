-- ===== src/Loop/Examples.antt =====
-- A small agent, run, and the theorems about the loop at it: it looks for trades, places one, says
-- so, and is held to having placed it.
use open_kael.Prelude.{
  ℕ, ◌+◌, ◌≤◌, String, Bool, true, false, none, some, List, [], ◌∷◌, ◌≡◌, refl, ◌⊎◌, arith,
  if◌then◌else◌, ◌==◌, lookup,
}
use open_kael.Values.{Value, str, obj, bool, Fields, end, field, text_at}
use open_kael.Schema.{Schema, schema, no_items, property, has_property, find_property}
use open_kael.Schema
use open_kael.Messages.{ToolCall, message, user}
use open_kael.Outcome.{
  outcome_of, changed_anything, finish_check, satisfied, receipts, nothing_changed_message,
}
use open_kael.Outcome.Honesty.{Evidence}
use open_kael.Loop.{
  ActionSpec, BoundAction, Config, State, LoopResult, complete, answered, Provider, find_action,
  held, stringify_result,
}
use open_kael.Loop.Providers.{
  call_llm, call_from, after_provider, call_with_retry, retry, is_down, mark_up, mark_down,
}
use open_kael.Loop.Flow.{finish_call, add_lines, truncate_runes}
use open_kael.Loop.Calls.{
  call_key, after_invoke, invoke_action, change_guard, limit_guard, look_up_guard, run_call,
  run_calls,
}
use open_kael.Loop.Run.{
  Ending, returned, ask, take_answer, step_reply, step, steps, start, run, after_calls,
}
use open_kael.Loop.Termination.{run-total}
use open_kael.Loop.Safety.Runs.{ending_state}
use open_kael.Loop.Recorded.{Entry, recorded, recorded_action, uses, NoRepeat}
use open_kael.Loop.Recorded.Uses.{run-uses-le, run-uses-le_max_calls, run-NoRepeat}
use open_kael.Loop.Honesty.Runs.{run-honest}

abbrev F : Type 0
F = Unit {0}

abbrev no_schema : Schema
no_schema = schema "object" "" Schema.end no_items [] []

abbrev spec : String → Schema → ℕ → Bool → Bool → ActionSpec
spec name input max_calls read_only changes = record {
  name = name;
  description = "";
  instructions = "";
  input_schema = input;
  output_schema = no_schema;
  max_calls = max_calls;
  hidden = false;
  read_only = read_only;
  changes = changes;
}

-- The world is the number of calls made of the model so far.
abbrev bound : ActionSpec → Value F → BoundAction F ℕ
bound s output = record {
  spec = s;
  invoke = λ w args. (output, none, w);
  needs = [];
  app = "";
  app_name = "";
  with_look_ups = [];
  declared = false;
  limited = false;
}

abbrev place : BoundAction F ℕ
place =
    bound (spec "place_trade" no_schema 2 false true)
      (obj (field "message" (str "Placed.") (field "changed" (bool true) end)))

abbrev finish : BoundAction F ℕ
finish =
    bound
      (spec "finish" (schema "object" "" (property "outcome" no_schema Schema.end) no_items [] []) 0
        false false)
      (str "")

abbrev call : String → Fields F → ToolCall F
call name args = record { id = "c"; name = name; arguments = args }

abbrev says_done : Fields F
says_done = field "content" (str "Done.") (field "outcome" (str "done") end)

-- It calls place_trade twice at once, then finish.
model : Provider F ℕ
model w msgs specs = (
  answered (record {
    content = "";
    tool_calls =
        if w == 0
        then call "place_trade" end ∷ call "place_trade" end ∷ []
        else call "finish" says_done ∷ [];
  }),
  w + 1,
)

abbrev agent : Config F ℕ
agent = record {
  llms = model ∷ [];
  max_iterations = 0;
  actions = place ∷ finish ∷ [];
  requirements = some (record { tools = "place_trade" ∷ []; any_change = false });
  printing = record {
    marshal = λ args. some "{}";
    marshal_value = λ v. some "{}";
    sprint = λ v. "";
    quote = λ s. s;
    itoa = λ n. "n";
  };
  clock = record { now = λ w. w; wait = λ n w. (none, w) };
}

abbrev begin : State F ℕ
begin = start agent (message user "Place it." ∷ []) (λ i. 0) 0

program : Unit {0}
unfolding run steps step step_reply take_answer ask call_llm call_from after_provider
    call_with_retry retry is_down mark_up mark_down run_calls run_call finish_call add_lines
    look_up_guard limit_guard change_guard invoke_action after_invoke call_key held stringify_result
    truncate_runes after_calls model outcome_of finish_check satisfied receipts changed_anything
    find_property lookup text_at
program = tt

result : LoopResult F
unfolding program
result = elim (run agent 5 begin) [
  | some (returned res s) ↦ res
  | _ ↦ record { status = complete; content = "none"; output = none; actions = [] }
]

run_example : result.content ≡ "Done.\n\n✓ Placed."
unfolding result
run_example = refl

run-total_example :
    (e : Ending F ℕ) × (run agent 155 (start agent (message user "Place it." ∷ []) (λ i. 0) 0)
      ≡ some e)
run-total_example = run-total agent (message user "Place it." ∷ []) (λ i. 0) 0 155 (omega arith)

-- The same run, watched.
abbrev watched : Config F (ℕ × List Entry)
watched = recorded agent

abbrev watched_begin : State F (ℕ × List Entry)
watched_begin = start watched (message user "Place it." ∷ []) (λ i. 0) (0, [])

watched-run : (e : Ending F (ℕ × List Entry)) × (run watched 155 watched_begin ≡ some e)
watched-run = run-total watched (message user "Place it." ∷ []) (λ i. 0) (0, []) 155 (omega arith)

abbrev watched_log : List Entry
watched_log = (ending_state watched-run.0).world.1

run-uses-le_example : uses "place_trade" watched_log ≤ 15
run-uses-le_example =
    run-uses-le agent 155 (message user "Place it." ∷ []) (λ i. 0) 0 watched-run.0 watched-run.1
      "place_trade"

run-uses-le_max_calls_example : uses "place_trade" watched_log ≤ 2
unfolding find_action
run-uses-le_max_calls_example =
    run-uses-le_max_calls agent 155 (message user "Place it." ∷ []) (λ i. 0) 0 watched-run.0
      watched-run.1 "place_trade" (recorded_action agent.printing place) refl refl (omega arith)

run-NoRepeat_example : NoRepeat watched_log
run-NoRepeat_example =
    run-NoRepeat agent 155 (message user "Place it." ∷ []) (λ i. 0) 0 watched-run.0 watched-run.1

-- The state and the result of the run.
final : State F ℕ
unfolding program
final = elim (run agent 5 begin) [ some e ↦ ending_state e | none ↦ begin ]

run-honest_example :
    Evidence (record { tools = "place_trade" ∷ []; any_change = false }) result.actions
    ⊎ (result.content
        ≡ nothing_changed_message
            (record { tools = "place_trade" ∷ []; any_change = false })
            result.actions)
unfolding result final
run-honest_example =
    run-honest (record { tools = "place_trade" ∷ []; any_change = false }) agent 5 begin final
      result says_done refl refl refl refl refl
