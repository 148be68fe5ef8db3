-- ===== src/Loop/Flow.antt =====
-- domain/loop.go: what an action call of a model's answer can lead to, and the call of
-- `finish`.
use Prim.Native.String.{count}
use open_kael.Prelude.{
  ℕ, zero, suc, ◌+◌, String, Option, none, some, List, [], ◌∷◌, map, if◌then◌else◌, ltb, leb,
}
use open_kael.Prelude.Text.{◌<>◌, ◌=ₛ◌}
use open_kael.Values.{text_at}
use open_kael.Messages.{ToolCall, Message, answer}
use open_kael.Outcome.{
  ActionRecord, Requirements, outcome_done, max_finish_bounces, finish_check, receipts,
  nothing_changed_message,
}
use open_kael.Loop.{
  LoopResult, complete, Printing, State, max_consecutive_failures, max_same_action_calls, say,
}

-- What one call leads to: the next call, the end of this answer's calls, a result, or the end of
-- the reply with an answer from what it found.
pub data Flow (F W : Type 0) : Type 0 where
  next : State F W → Flow F W
  break_out : State F W → Flow F W
  return_with : LoopResult F → State F W → Flow F W
  wrap_with : String → State F W → Flow F W

-- `truncateRunes`.
unfoldable pub first_runes : ℕ → String → String
first_runes zero s = ""
first_runes (suc n) String.[] = ""
first_runes (suc n) (String.◌∷◌ c s) = String.◌∷◌ c (first_runes n s)

unfoldable pub truncate_runes : String → ℕ → String
unfolding first_runes
truncate_runes s n = if ltb n (count s) then first_runes n s <> "…" else s

-- Every call that will not run needs an answer.
abbrev pub answer_rest : {F : Type 0} → String → List (ToolCall F) → List (Message F)
answer_rest content rest = map (λ c. answer c content) rest

abbrev pub over_used : {F : Type 0} → Printing F → String → String
over_used p name =
    "not run: "
    <> (name
        <> (" has been used "
            <> (p.itoa max_same_action_calls
                <> " times in this reply, as many as one reply may use. Answer now with what you already have, and say plainly what you did not get to (the person can ask for the rest).")))

-- The receipts that follow the words of a reply that says it is done.
unfoldable pub add_lines : String → List String → String
add_lines content [] = content
add_lines content (line ∷ lines) = add_lines (content <> ("\n\n" <> line)) lines

abbrev pub finished : {F : Type 0} → ToolCall F → String → List ActionRecord → LoopResult F
finished call content records = record {
  status = complete;
  content = content;
  output = some call.arguments;
  actions = records;
}

module _ {F W : Type 0} where
  -- `consecutiveFailures++`, and the end of the reply at the third in a row.
  abbrev pub fail_call : String → (State F W → Flow F W) → State F W → Flow F W
  fail_call reason go_on s =
      let s' = record s { consecutive_failures = s.consecutive_failures + 1 } in
      if leb max_consecutive_failures s'.consecutive_failures then wrap_with reason s' else go_on s'

  -- The call of `finish`, for a loop with requirements or none.
  unfoldable pub finish_call :
      Option Requirements → ToolCall F → List (ToolCall F) → State F W → Flow F W
  unfolding add_lines
  finish_call none call rest s =
      return_with (finished call (text_at "content" call.arguments) s.records)
        (say s (answer call "done" ∷ []))
  finish_call (some r) call rest s =
      let content = text_at "content" call.arguments in
      let (accepted, feedback) = finish_check call.arguments r s.records in
      if accepted
      then return_with
          (finished call
            (if text_at "outcome" call.arguments =ₛ outcome_done
              then add_lines content (receipts s.records)
              else content)
            s.records)
          (say s (answer call "done" ∷ []))
      else (let s' = record s { bounces = s.bounces + 1 } in
          if ltb max_finish_bounces s'.bounces
          then return_with (finished call (nothing_changed_message r s.records) s.records)
              (say s' (answer call "done" ∷ []))
          else break_out (
              say s' (answer call feedback ∷ answer_rest "not run: finish was refused first" rest)))
