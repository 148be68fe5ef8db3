-- ===== src/Loop/OpenCalls.antt =====
-- domain/loop.go: `answerOpenCalls`.
use open_kael.Prelude.{
  String, Bool, true, false, not, ◌&&◌, List, [], ◌∷◌, ◌++◌, if◌then◌else◌, any,
}
use open_kael.Prelude.Text.{◌=ₛ◌}
use open_kael.Outcome.{is_nil}
use open_kael.Messages.{Role, assistant, tool, ToolCall, Message, answer}

abbrev pub is_assistant : Role → Bool
is_assistant assistant = true
is_assistant _ = false

abbrev pub is_tool : Role → Bool
is_tool tool = true
is_tool _ = false

module _ {F : Type 0} where
  -- An assistant message that makes calls.
  abbrev pub makes_calls : Message F → Bool
  makes_calls m = is_assistant m.role && not (is_nil m.tool_calls)

  -- Whether a message answers the call of that id.
  abbrev pub answers : String → Message F → Bool
  answers id m = is_tool m.role && m.tool_call_id =ₛ id

  -- The calls of the last message that makes any, with the messages behind it.
  unfoldable pub last_calls : List (Message F) → List (ToolCall F) × List (Message F)
  last_calls [] = ([], [])
  last_calls (m ∷ msgs) =
      let (calls, later) = last_calls msgs in
      if any makes_calls msgs
      then (calls, later)
      else if makes_calls m
      then (m.tool_calls, msgs)
      else ([], msgs)

  -- The answers given for the calls that have none among the messages.
  unfoldable pub missing_answers : List (ToolCall F) → List (Message F) → List (Message F)
  missing_answers [] later = []
  missing_answers (c ∷ calls) later =
      let rest = missing_answers calls later in
      if any (answers c.id) later then rest else answer c "not run: the reply is wrapping up" ∷ rest

  unfoldable pub answer_open_calls : List (Message F) → List (Message F)
  unfolding last_calls missing_answers
  answer_open_calls messages =
      let (calls, later) = last_calls messages in messages ++ missing_answers calls later
