-- ===== src/WakePlan/Examples.antt =====
-- runtime/wake_plan.go: an agent looks a deadline up and plans to act at it.
use open_kael.WakePlan.Prompt.{wake_prompt}
use open_kael.Outcome.{outcome_of}
use open_kael.Loop.Providers.{
  retry, mark_up, mark_down, is_down, call_with_retry, call_llm, call_from, after_provider,
}
use open_kael.Loop.Calls.{
  run_calls, run_call, look_up_guard, limit_guard, invoke_action, change_guard, call_key,
  after_invoke,
}
use open_kael.Loop.Run.{take_answer, steps, step_reply, step, run, ask, after_calls}
use open_kael.Loop.Flow.{truncate_runes, finish_call, add_lines}
use open_kael.Messages.{ToolCall}
use open_kael.Schema.{schema, no_items, Properties}
use open_kael.WakePlan.Abilities.{
  set_next_wake, next_set, get_current_time, finish_action, count_lookups, confirm_moment,
  cannot_plan, Planning,
}
use open_kael.WakePlan.Plan.{
  plan_with, plan_hosted, look_ups_of, look_ups, final_plan, after_first, timed, plan_wake,
  HostedAgent,
}
use open_kael.WakePlan.Decision.{plan_wake-Returns, Answered}
use open_kael.Prelude.Text.{trim_space, ◌=ₛ◌}
use open_kael.Prelude.{
  lookup, ◌≡◌, ◌∷◌, ℕ, true, some, refl, ok, none, if◌then◌else◌, false, bad, [], String, Result,
  List, ◌==◌, ◌+◌,
}
use open_kael.Values.{text_at, str, field, Fields, end}
use open_kael.Loop.{
  held, stringify_result, find_action, Provider, Printing, Clock, BoundAction, answered,
}
use open_kael.WakePlan.{
  with_kind, validate, parse_wake_time, in_range, act, WakeRequest, Times, WakePlan,
}

abbrev F : Type 0
F = Unit {0}

abbrev look_up : BoundAction F ℕ
look_up = record {
  spec = record {
    name = "deadline";
    description = "";
    instructions = "";
    input_schema = schema "object" "" Properties.end no_items [] [];
    output_schema = schema "object" "" Properties.end no_items [] [];
    max_calls = 0;
    hidden = false;
    read_only = true;
    changes = false;
  };
  invoke = λ w args. (str "Saturday", none, w);
  needs = [];
  app = "";
  app_name = "";
  with_look_ups = [];
  declared = false;
  limited = false;
}

abbrev call : String → Fields F → ToolCall F
call name args = record { id = "c"; name = name; arguments = args }

abbrev chosen : Fields F
chosen =
    field "kind" (str "act")
      (field "at" (str "soon") (field "reason" (str "The deadline is on Saturday.") end))

-- It looks the deadline up, sets the time, and finishes.
abbrev planner : Provider F ℕ
planner w msgs specs = (
  answered (record {
    content = "";
    tool_calls =
        (if w == 0
          then call "deadline" end
          else if w == 1
          then call "set_next_wake" chosen
          else call "finish" (field "content" (str "Set.") end))
        ∷ [];
  }),
  w + 1,
)

abbrev times : Times ℕ
times = record {
  now = λ w. 5;
  zone = "UTC";
  parse = λ s. if s =ₛ "soon" then some 2000000000000 else none;
  parse_in = λ layout s. none;
  rfc3339 = λ n. "";
  utc = λ n. "";
  local = λ n. "";
  date = λ n. "";
  time_of_day = λ n. "";
  weekday = λ n. "";
  to_lower = λ s. s;
  quote = λ s. s;
  itoa = λ n. "";
}

abbrev printing : Printing F
printing = record {
  marshal = λ args. some "{}";
  marshal_value = λ v. some "{}";
  sprint = λ v. "";
  quote = λ s. s;
  itoa = λ n. "";
}

abbrev clock : Clock ℕ
clock = record { now = λ w. w; wait = λ n w. (none, w) }

abbrev agents : List (String × HostedAgent F ℕ)
agents =
    ("a", record { llms = planner ∷ []; skills = bad "no connection" ∷ ok (look_up ∷ []) ∷ [] })
    ∷ []

abbrev asked : WakeRequest
asked = record {
  agent_id = "a";
  action = "Look at my squad";
  timing = "two hours before the deadline";
  now = 1000;
  last = none;
  due = false;
}

planned_lem :
    plan_wake printing times clock agents asked 0
    ≡ some (
      ok (record {
        at = 2000000000000;
        kind = act;
        reason = "The deadline is on Saturday.";
        do_it_now = false;
        say = "";
      }),
      (
        3,
        record {
          lookups = 1;
          plan = some record {
            at = 2000000000000;
            kind = act;
            reason = "The deadline is on Saturday.";
            do_it_now = false;
            say = "";
          };
          say = "";
          do_now = false;
        },
      ),
    )
unfolding plan_wake plan_hosted lookup trim_space plan_with look_ups look_ups_of run after_first
    steps step step_reply ask call_llm call_from after_provider call_with_retry retry is_down
    mark_up mark_down take_answer after_calls run_calls run_call look_up_guard limit_guard
    change_guard invoke_action after_invoke find_action call_key outcome_of final_plan count_lookups
    set_next_wake next_set validate with_kind in_range parse_wake_time get_current_time cannot_plan
    finish_action confirm_moment stringify_result truncate_runes finish_call add_lines text_at
    wake_prompt held
planned_lem = refl

plan_wake-Returns_example :
    (r : Result WakePlan × Planning ℕ) × (plan_wake printing times clock agents asked 0 ≡ some r)
    × Answered (timed times 0 asked) r
plan_wake-Returns_example = plan_wake-Returns printing times clock agents asked 0
