-- ===== src/Loop/Run.antt =====
-- domain/loop.go: `Run`, step by step.
use open_kael.Prelude.{
  ℕ, zero, suc, ◌+◌, String, true, false, not, ◌||◌, Option, none, some, List, [], ◌∷◌, ◌++◌, map,
  if◌then◌else◌, ltb, leb, ◌==◌, length,
}
use open_kael.Prelude.Text.{◌<>◌, ◌=ₛ◌, is_empty, trim_space}
use open_kael.Values.{text_at}
use open_kael.Messages.{Role, user, assistant, ToolCall, Message, LlmResponse, message, answer}
use open_kael.Outcome.{GoError, Requirements, finish_check, nothing_changed_message}
use open_kael.Loop.{
  ActionSpec, Reply, answered, failed, LoopResult, max_iteration, error, Config, State,
  finish_action_name, max_consecutive_failures, max_tool_calls_per_iter, max_stale_steps,
  find_action, say, held,
}
use open_kael.Loop.Providers.{call_llm, wrap}
use open_kael.Loop.OpenCalls.{answer_open_calls}
use open_kael.Loop.Flow.{Flow, next, break_out, return_with, wrap_with, finished}
use open_kael.Loop.Calls.{run_calls}

-- What `Run` returns, `(*LoopResult, []Message, error)`, beside the state that it leaves: the
-- messages, the circuit breaker and the world.
pub data Ending (F W : Type 0) : Type 0 where
  returned : LoopResult F → State F W → Ending F W
  llm_failed : GoError → State F W → Ending F W

-- One step of the loop: another one follows, or the run ends.
pub data Step (F W : Type 0) : Type 0 where
  again : State F W → Step F W
  ended : Ending F W → Step F W

abbrev pub internal_message : {F : Type 0} → Role → String → Message F
internal_message role content = record (message role content) { internal = true }

abbrev pub wrap_up_note : String
wrap_up_note =
    "Stop using abilities now. Answer the person with what you found so far, and say plainly what you couldn't finish (they can ask again). Don't say anything was done unless it really went through. Call finish."

module _ {F W : Type 0} (c : Config F W) where
  -- One call of the models, with the breaker and the world it leaves.
  unfoldable pub ask : List (Message F) → List ActionSpec → State F W → Reply F × State F W
  ask msgs specs s =
      let (reply, down, w) = call_llm c.clock msgs specs c.llms s.down_until s.world in
      (reply, record s { down_until = down; world = w })

  unfoldable pub give_up : String → State F W → Ending F W
  give_up reason s =
      returned (record { status = error; content = reason; output = none; actions = s.records }) s

  -- What a reply cut short may say: its words, or the facts where a "done" is not backed.
  unfoldable pub wrap_up_content : Option Requirements → ToolCall F → State F W → String
  wrap_up_content none call s = text_at "content" call.arguments
  wrap_up_content (some r) call s =
      if (finish_check call.arguments r s.records).0
      then text_at "content" call.arguments
      else nothing_changed_message r s.records

  -- The answer that the model gave to the wrap-up note: its words, and its first call.
  unfoldable pub wrap_up_answer :
      String → List (Message F) → String → List (ToolCall F) → State F W → Ending F W
  wrap_up_answer reason msgs words [] s = give_up reason s
  wrap_up_answer reason msgs words (call ∷ more) s =
      if not (call.name =ₛ finish_action_name)
        || is_empty (trim_space (text_at "content" call.arguments))
      then give_up reason s
      else returned (finished call (wrap_up_content (held c) call s) s.records) (record s {
        messages =
            msgs
            ++ record (message assistant words) { tool_calls = call ∷ [] }
              ∷ answer call "done"
              ∷ [];
      })

  unfoldable pub wrap_up_reply : String → List (Message F) → Reply F × State F W → Ending F W
  wrap_up_reply reason msgs (failed err, s) = give_up reason s
  wrap_up_reply reason msgs (answered resp, s) =
      wrap_up_answer reason msgs resp.content resp.tool_calls s

  -- The messages that a reply cut short ends with before the model is asked once more.
  abbrev pub wrap_up_messages : State F W → List (Message F)
  wrap_up_messages s = answer_open_calls s.messages ++ internal_message user wrap_up_note ∷ []

  -- `wrapUp`: one more call, with only finish offered.
  unfoldable pub wrap_up : String → State F W → Ending F W
  wrap_up reason s = elim (find_action finish_action_name c.actions) [
    | none ↦ give_up reason s
    | some fin ↦
        wrap_up_reply reason (wrap_up_messages s) (ask (wrap_up_messages s) (fin.spec ∷ []) s)
  ]

  -- An answer that is no use: it is told so, and the third in a row ends the reply.
  unfoldable pub scold : String → String → String → State F W → Step F W
  scold words note reason s =
      let s' = record (say s (internal_message assistant words ∷ internal_message user note ∷ [])) {
        consecutive_failures = s.consecutive_failures + 1;
      } in
      if leb max_consecutive_failures s'.consecutive_failures
      then ended (wrap_up reason s')
      else again s'

  -- The end of a step that made calls: whether it ran anything new is counted.
  unfoldable pub after_calls : Flow F W → Step F W
  after_calls (next s) = again (record s { stale = if s.progressed then 0 else s.stale + 1 })
  after_calls (break_out s) = again (record s { stale = if s.progressed then 0 else s.stale + 1 })
  after_calls (return_with r s) = ended (returned r s)
  after_calls (wrap_with reason s) = ended (wrap_up reason s)

  -- What a step does with a model's answer.
  unfoldable pub take_answer : LlmResponse F → State F W → Step F W
  take_answer resp s =
      let n = length resp.tool_calls in
      if n == 0
      then scold resp.content
          ("You must respond by calling one of the available actions. Call \"finish\" to deliver your response to the user.")
          "too many responses with no action call" s
      else if ltb max_tool_calls_per_iter n
      then scold resp.content
          ("You requested "
            <> (c.printing.itoa n
                <> (" tool calls at once. Make at most "
                    <> (c.printing.itoa max_tool_calls_per_iter <> " tool calls per response."))))
          "too many tool calls per response" s
      else after_calls (
          run_calls c resp.tool_calls
            (say s (record (message assistant resp.content) { tool_calls = resp.tool_calls } ∷ [])))

  unfoldable pub step_reply : Reply F × State F W → Step F W
  step_reply (failed err, s) = ended (llm_failed (wrap "native loop: call llm: " err) s)
  step_reply (answered resp, s) = take_answer resp s

  -- The body of the `for` loop.
  unfoldable pub step : State F W → Step F W
  step s =
      if leb max_stale_steps s.stale
      then ended (wrap_up "no progress: it only repeated what it had already done" s)
      else step_reply
          (ask s.messages (map (λ a. a.spec) c.actions) (record s { progressed = false }))

  -- At most so many steps: the ending, or the state after the last.
  unfoldable pub steps : ℕ → State F W → Step F W
  steps zero s = again s
  steps (suc n) s = elim (step s) [ again s' ↦ steps n s' | ended e ↦ ended e ]

  -- The steps are used up.
  unfoldable pub out_of_steps : State F W → Ending F W
  out_of_steps s = elim (find_action finish_action_name c.actions) [
    | none ↦
        returned (record { status = max_iteration; content = ""; output = none; actions = [] }) s
    | some fin ↦ wrap_up "used all its steps" s
  ]

  -- The variables of a run before its loop, on the loop's breaker and the world as they are.
  abbrev pub start : List (Message F) → (ℕ → ℕ) → W → State F W
  start messages down_until world = record {
    messages = messages;
    records = [];
    done_changes = [];
    looked_up = [];
    call_counts = λ name. 0;
    consecutive_failures = 0;
    stale = 0;
    bounces = 0;
    progressed = false;
    down_until = down_until;
    world = world;
  }

  -- `Run`. A loop with no step limit takes fuel, and is `none` where that runs out.
  unfoldable pub run : ℕ → State F W → Option (Ending F W)
  run fuel s =
      if c.max_iterations == 0
      then elim (steps fuel s) [ again s' ↦ none | ended e ↦ some e ]
      else some (elim (steps c.max_iterations s) [ again s' ↦ out_of_steps s' | ended e ↦ e ])
