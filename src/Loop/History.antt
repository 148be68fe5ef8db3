-- ===== src/Loop/History.antt =====
-- The conversation as the models see it: a call is followed by its answer.
pub mod Answered
pub mod Heard
use open_kael.Prelude.{
  ℕ, zero, suc, ◌+◌, String, Bool, true, false, not, ◌&&◌, ◌||◌, Option, none, some, List, [], ◌∷◌,
  ◌≡◌, sym, if◌then◌else◌, ltb, leb, ◌==◌, length, map, Bool-cases, Option-rule, if_rule, inl, inr,
  any,
}
use open_kael.Prelude.Text.{◌=ₛ◌}
use open_kael.Values.{Value}
use open_kael.Messages.{Role, ToolCall, Message, LlmResponse, message, assistant}
use open_kael.Outcome.{
  GoError, Requirements, outcome_of, changed_anything, finish_check, max_finish_bounces, is_nil,
}
use open_kael.Loop.{
  Printing, LoopResult, BoundAction, Config, State, Reply, answered, failed, find_action, held, say,
  max_stale_steps, max_tool_calls_per_iter, max_consecutive_failures, max_same_action_calls,
}
use open_kael.Loop.OpenCalls.{makes_calls, answers}
use open_kael.Loop.Flow.{Flow, next, break_out, return_with, wrap_with, finish_call, fail_call}
use open_kael.Loop.Calls.{
  unknown_action, after_invoke, invoke_action, change_guard, limit_guard, look_up_guard, run_call,
  run_calls, call_key, kept_for, record_of,
}
use open_kael.Loop.Run.{
  Step, again, ended, ask, scold, after_calls, take_answer, step_reply, step, steps,
}

module _ {F : Type 0} where
  abbrev pub ids : List (ToolCall F) → List String
  ids calls = map (λ c. c.id) calls

  -- The calls still open after some messages, given those open before: none where a message stands
  -- between a call and its answer.
  unfoldable pub open_after : List String → List (Message F) → Option (List String)
  open_after pending [] = some pending
  open_after [] (m ∷ msgs) =
      let after_call = open_after (ids m.tool_calls) msgs in
      let after_words = open_after [] msgs in if makes_calls m then after_call else after_words
  open_after (id ∷ pending) (m ∷ msgs) =
      let rest = open_after pending msgs in if answers id m then rest else none

-- Messages that leave some calls open, in order.
pub record Leaves {F : Type 0} (pending : List String) (msgs : List (Message F)) : Type 0 where
  pub left : open_after [] msgs ≡ some pending

-- What a call leads to leaves the rest of the answer's calls open, or none where the loop over them
-- is left; a reply that is wrapped up may leave any of the last answer's calls open.
pub data FlowLeaves {F W : Type 0} (rest : List (ToolCall F)) : Flow F W → Type 0 where
  goes_on : {s : State F W} → Leaves (ids rest) s.messages → FlowLeaves rest (next s)
  breaks : {s : State F W} → Leaves [] s.messages → FlowLeaves rest (break_out s)
  returns : {r : LoopResult F} {s : State F W} → FlowLeaves rest (return_with r s)
  wraps :
      {pending : List String} {why : String} {s : State F W}
      → Leaves pending s.messages
      → FlowLeaves rest (wrap_with why s)
