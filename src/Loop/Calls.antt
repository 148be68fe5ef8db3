-- ===== src/Loop/Calls.antt =====
-- domain/loop.go: what `Run` does with one action call of a model's answer.
use open_kael.Prelude.{
  ◌+◌, String, Bool, true, not, ◌&&◌, Option, none, some, List, [], ◌∷◌, ◌++◌, if◌then◌else◌, ltb,
  lookup,
}
use open_kael.Prelude.Text.{◌<>◌, ◌=ₛ◌}
use open_kael.Values.{Value}
use open_kael.Messages.{ToolCall, answer}
use open_kael.Outcome.{GoError, ActionRecord, Verdict, outcome_of, changed_anything}
use open_kael.Loop.{
  BoundAction, complete, Printing, Config, State, finish_action_name, max_same_action_calls,
  find_action, say, held, stringify_result,
}
use open_kael.Loop.Flow.{
  Flow, next, break_out, return_with, wrap_with, truncate_runes, fail_call, answer_rest, over_used,
  finish_call,
}

-- `name + "|" + args`, where the arguments can be written as JSON.
unfoldable pub call_key : {F : Type 0} → Printing F → ToolCall F → Option String
call_key p call = elim (p.marshal call.arguments) [
  | none ↦ none
  | some args ↦ some (call.name <> ("|" <> args))
]

-- What was kept for a key, if there is a key and something was.
abbrev pub kept_for : Option String → List (String × String) → Option String
kept_for none kept = none
kept_for (some key) kept = lookup key kept

-- `if key != "" && done { kept[key] = content }`.
abbrev pub keep : Option String → Bool → String → List (String × String) → List (String × String)
keep none done content kept = kept
keep (some key) done content kept = if done then (key, content) ∷ kept else kept

-- What is recorded of an action that ran.
abbrev pub record_of : {F W : Type 0} → BoundAction F W → ToolCall F → Verdict → ActionRecord
record_of action call v = record {
  name = call.name;
  changes = action.spec.changes;
  done = v.done;
  message = v.message;
  reason = v.reason;
}

module _ {F W : Type 0} (p : Printing F) where
  unfoldable pub unknown_action : ToolCall F → State F W → Flow F W
  unknown_action call s =
      fail_call "too many failed action calls" next
        (say s (answer call ("unknown action " <> p.quote call.name) ∷ []))

  -- The action ran and returned `output` and `err`: what is recorded, answered and remembered.
  unfoldable pub after_invoke :
      (lookup_key change_key : Option String)
      → BoundAction F W
      → ToolCall F
      → List (ToolCall F)
      → Value F
      → Option GoError
      → State F W
      → Flow F W
  after_invoke lookup_key change_key action call rest output err s =
      let v = outcome_of output err in
      let s' = record s { records = s.records ++ record_of action call v ∷ [] } in
      elim err [
        | some e ↦
            if e.superseded && not (changed_anything s'.records)
            then return_with
                (record { status = complete; content = ""; output = none; actions = s'.records })
                (say s' (
                  answer call "not answered: the person wrote a new message instead"
                  ∷ answer_rest "not run: the person wrote a new message first" rest))
            else fail_call "too many failed action calls" next
                (say s' (answer call ("error: " <> e.text) ∷ []))
        | none ↦
            let text = stringify_result p output in
            next (
              say
                (record s' {
                  consecutive_failures = 0;
                  done_changes = keep change_key v.done (truncate_runes text 300) s'.done_changes;
                  looked_up = keep lookup_key v.done text s'.looked_up;
                })
                (answer call text ∷ []))
      ]

  -- The action runs.
  unfoldable pub invoke_action :
      (lookup_key change_key : Option String)
      → BoundAction F W
      → ToolCall F
      → List (ToolCall F)
      → State F W
      → Flow F W
  invoke_action lookup_key change_key action call rest s =
      let (output, err, w) = action.invoke s.world call.arguments in
      after_invoke lookup_key change_key action call rest output err
        (record s { progressed = true; world = w })

  -- The same change is not made twice in one turn.
  unfoldable pub change_guard :
      Option String → BoundAction F W → ToolCall F → List (ToolCall F) → State F W → Flow F W
  change_guard lookup_key action call rest s =
      let change_key = if action.spec.changes then call_key p call else none in
      elim (kept_for change_key s.done_changes) [
        | some prev ↦ next (
            say s (
              answer call ("already done this turn, so it was not repeated. Result: " <> prev)
              ∷ []))
        | none ↦ invoke_action lookup_key change_key action call rest s
      ]

  -- One reply may use an action only so often.
  unfoldable pub limit_guard :
      Option String → BoundAction F W → ToolCall F → List (ToolCall F) → State F W → Flow F W
  limit_guard lookup_key action call rest s =
      let used = s.call_counts call.name + 1 in
      let s' = record s { call_counts = λ k. if k =ₛ call.name then used else s.call_counts k } in
      if ltb max_same_action_calls used
      then fail_call ("action " <> (p.quote call.name <> " called too many times")) break_out (
          say s' (
            answer call (over_used p call.name)
            ∷ answer_rest ("not run: " <> over_used p call.name) rest))
      else if not action.spec.read_only
          && ltb 0 action.spec.max_calls
          && ltb action.spec.max_calls used
      then fail_call "too many failed action calls" next (
          say s' (
            answer call (
              "already called "
              <> (p.itoa action.spec.max_calls
                  <> " time(s) this turn — the result is already in context, do not call again"))
            ∷ []))
      else change_guard lookup_key action call rest s'

  -- The same look-up gets the same answer.
  unfoldable pub look_up_guard :
      BoundAction F W → ToolCall F → List (ToolCall F) → State F W → Flow F W
  look_up_guard action call rest s =
      let lookup_key = if action.spec.read_only then call_key p call else none in
      elim (kept_for lookup_key s.looked_up) [
        | some prev ↦ next (
            say s (
              answer call (
                "Already looked up in this reply, with the same inputs; the same as before:\n"
                <> prev)
              ∷ []))
        | none ↦ limit_guard lookup_key action call rest s
      ]

module _ {F W : Type 0} (c : Config F W) where
  -- The body of the loop over an answer's calls.
  unfoldable pub run_call : ToolCall F → List (ToolCall F) → State F W → Flow F W
  run_call call rest s =
      if call.name =ₛ finish_action_name
      then finish_call (held c) call rest s
      else elim (find_action call.name c.actions) [
        | none ↦ unknown_action c.printing call s
        | some action ↦ look_up_guard c.printing action call rest s
      ]

  -- The loop: `next` where the run goes on to its next step.
  unfoldable pub run_calls : List (ToolCall F) → State F W → Flow F W
  run_calls [] s = next s
  run_calls (call ∷ rest) s = elim (run_call call rest s) [
    | next s' ↦ run_calls rest s'
    | break_out s' ↦ next s'
    | return_with r s' ↦ return_with r s'
    | wrap_with why s' ↦ wrap_with why s'
  ]
