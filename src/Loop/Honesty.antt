-- ===== src/Loop/Honesty.antt =====
-- What a run that is held to requirements may end with: the calls of one answer. `Runs` has the rest.
pub mod Runs
use mathlib.Core.Path.{subst}
use open_kael.Prelude.{
  ℕ, zero, suc, ◌+◌, String, Bool, true, false, not, ◌&&◌, ◌||◌, Option, none, some, List, [], ◌∷◌,
  ◌++◌, ◌≡◌, refl, sym, ◌∙◌, ◌⊎◌, inl, inr, arith, if◌then◌else◌, ltb, leb, ◌==◌, length, map,
  Bool-cases, Option-rule, if_rule, some_injective,
}
use open_kael.Prelude.Text.{◌=ₛ◌, is_empty, trim_space, eq_iff}
use open_kael.Values.{Value, Fields, text_at}
use open_kael.Messages.{Message, ToolCall, LlmResponse}
use open_kael.Outcome.{
  GoError, Requirements, ActionRecord, finish_check, nothing_changed_message, outcome_of,
  changed_anything, max_finish_bounces,
}
use open_kael.Outcome.Honesty.{Evidence, finish_check_iff}
use open_kael.Loop.{
  ActionSpec, BoundAction, Config, State, LoopResult, complete, error, Reply, answered, failed,
  find_action, held, max_stale_steps, max_tool_calls_per_iter, max_consecutive_failures,
  max_same_action_calls,
}
use open_kael.Loop.Flow.{Flow, next, break_out, return_with, wrap_with, finish_call}
use open_kael.Loop.Calls.{
  unknown_action, after_invoke, invoke_action, change_guard, limit_guard, look_up_guard, run_call,
  run_calls, call_key, kept_for, record_of,
}
use open_kael.Loop.Run.{
  Step, again, ended, Ending, returned, llm_failed, ask, give_up, wrap_up_answer, wrap_up_reply,
  wrap_up_content, wrap_up_messages, wrap_up, scold, after_calls, take_answer, step_reply, step,
  steps, out_of_steps, run,
}

-- A result says "done" only if the records back it, or else states the facts in the model's place.
pub record IsHonest {F : Type 0} (r : Requirements) (res : LoopResult F) : Type 0 where
  pub backed :
      (args : Fields F)
      → res.status ≡ complete
      → res.output ≡ some args
      → text_at "outcome" args ≡ "done"
      → Evidence r res.actions ⊎ (res.content ≡ nothing_changed_message r res.actions)

-- The arguments of a call are those of the result that reports them.
said :
    {F : Type 0} {given args : Fields F}
    → some given ≡ some args
    → text_at "outcome" args ≡ "done"
    → text_at "outcome" given ≡ "done"
said same says = subst (λ a. text_at "outcome" a ≡ "done") (sym (some_injective same)) says

-- An accepted finish that says "done" is backed.
accepted-Evidence :
    {F : Type 0} (args : Fields F) (r : Requirements) (records : List ActionRecord)
    → (finish_check args r records).0 ≡ true
    → text_at "outcome" args ≡ "done"
    → Evidence r records
accepted-Evidence args r records ok says = elim ((finish_check_iff args r records).0 ok) [
  | inl details ↦ cc ((eq_iff "need_details" "done").1 (sym details ∙ says))
  | inr (inl cannot) ↦ cc ((eq_iff "cannot" "done").1 (sym cannot ∙ says))
  | inr (inr (_, backed)) ↦ backed
]

-- A result without arguments says nothing of how it ended.
silent-IsHonest :
    {F : Type 0} (r : Requirements) (res : LoopResult F) → res.output ≡ none → IsHonest r res
silent-IsHonest r res e = record { backed = λ args _ same _. cc }

-- So does a result that is no completed reply.
unfinished-IsHonest :
    {F : Type 0} (r : Requirements) (res : LoopResult F) → res.status ≡ error → IsHonest r res
unfinished-IsHonest r res e = record { backed = λ args ends _ _. cc }

abbrev pub flow_result : {F W : Type 0} → Flow F W → Option (LoopResult F)
flow_result (return_with res s) = some res
flow_result _ = none

abbrev pub OptionIsHonest : {F : Type 0} → Requirements → Option (LoopResult F) → Type 0
OptionIsHonest r none = Unit
OptionIsHonest r (some res) = IsHonest r res

module _ {F W : Type 0} (r : Requirements) where
  pub record FlowIsHonest (f : Flow F W) : Type 0 where
    pub honest : OptionIsHonest r (flow_result f)

  finish_call-IsHonest :
      (call : ToolCall F) (rest : List (ToolCall F)) (s : State F W)
      → FlowIsHonest (finish_call (some r) call rest s)
  unfolding finish_call
  finish_call-IsHonest call rest s =
      if_rule FlowIsHonest (finish_check call.arguments r s.records).0
        (λ ok. record {
          honest = record {
            backed = λ args _ same says.
                inl (accepted-Evidence call.arguments r s.records ok (said same says));
          };
        })
        (λ _.
          if_rule FlowIsHonest (ltb max_finish_bounces (s.bounces + 1))
            (λ _. record { honest = record { backed = λ _ _ _ _. inr refl } })
            (λ _. record { honest = tt }))

  module _ (c : Config F W) where
    unknown_action-IsHonest :
        (call : ToolCall F) (s : State F W) → FlowIsHonest (unknown_action c.printing call s)
    unfolding unknown_action
    unknown_action-IsHonest call s =
        if_rule FlowIsHonest (leb max_consecutive_failures (s.consecutive_failures + 1))
          (λ _. record { honest = tt }) (λ _. record { honest = tt })

    after_invoke-IsHonest :
        (lookup_key change_key : Option String) (action : BoundAction F W) (call : ToolCall F)
        (rest : List (ToolCall F)) (output : Value F) (err : Option GoError) (s : State F W)
        → FlowIsHonest (after_invoke c.printing lookup_key change_key action call rest output err s)
    unfolding after_invoke
    after_invoke-IsHonest lookup_key change_key action call rest output none s = record {
      honest = tt;
    }
    after_invoke-IsHonest lookup_key change_key action call rest output (some e) s =
        if_rule FlowIsHonest
          (e.superseded
            && not (
                changed_anything
                  (s.records ++ record_of action call (outcome_of output (some e)) ∷ [])))
          (λ _. record { honest = silent-IsHonest r _ refl })
          (λ _.
            if_rule FlowIsHonest (leb max_consecutive_failures (s.consecutive_failures + 1))
              (λ _. record { honest = tt }) (λ _. record { honest = tt }))

    change_guard-IsHonest :
        (lookup_key : Option String) (action : BoundAction F W) (call : ToolCall F)
        (rest : List (ToolCall F)) (s : State F W)
        → FlowIsHonest (change_guard c.printing lookup_key action call rest s)
    unfolding change_guard invoke_action
    change_guard-IsHonest lookup_key action call rest s =
        let change_key = if action.spec.changes then call_key c.printing call else none in
        Option-rule FlowIsHonest (kept_for change_key s.done_changes)
          (λ prev _. record { honest = tt })
          (λ _. after_invoke-IsHonest lookup_key change_key action call rest _ _ _)

    limit_guard-IsHonest :
        (lookup_key : Option String) (action : BoundAction F W) (call : ToolCall F)
        (rest : List (ToolCall F)) (s : State F W)
        → FlowIsHonest (limit_guard c.printing lookup_key action call rest s)
    unfolding limit_guard
    limit_guard-IsHonest lookup_key action call rest s =
        let used = s.call_counts call.name + 1 in
        if_rule FlowIsHonest (ltb max_same_action_calls used)
          (λ _.
            if_rule FlowIsHonest (leb max_consecutive_failures (s.consecutive_failures + 1))
              (λ _. record { honest = tt }) (λ _. record { honest = tt }))
          (λ _.
            if_rule FlowIsHonest
              (not action.spec.read_only
                && ltb 0 action.spec.max_calls
                && ltb action.spec.max_calls used)
              (λ _.
                if_rule FlowIsHonest (leb max_consecutive_failures (s.consecutive_failures + 1))
                  (λ _. record { honest = tt }) (λ _. record { honest = tt }))
              (λ _. change_guard-IsHonest lookup_key action call rest _))

    run_call-IsHonest :
        held c ≡ some r
        → (call : ToolCall F) (rest : List (ToolCall F)) (s : State F W)
        → FlowIsHonest (run_call c call rest s)
    unfolding run_call look_up_guard
    run_call-IsHonest is_held call rest s =
        if_rule FlowIsHonest (call.name =ₛ "finish")
          (λ _. rw is_held (finish_call-IsHonest call rest s))
          (λ _.
            Option-rule FlowIsHonest (find_action call.name c.actions)
              (λ action _.
                Option-rule FlowIsHonest
                  (kept_for (if action.spec.read_only then call_key c.printing call else none)
                    s.looked_up)
                  (λ prev _. record { honest = tt })
                  (λ _. limit_guard-IsHonest _ action call rest s))
              (λ _. unknown_action-IsHonest call s))

    pub run_calls-IsHonest :
        held c ≡ some r
        → (calls : List (ToolCall F)) (s : State F W) → FlowIsHonest (run_calls c calls s)
    unfolding run_calls
    run_calls-IsHonest is_held [] s = record { honest = tt }
    run_calls-IsHonest is_held (call ∷ rest) s =
        after (run_call c call rest s) (run_call-IsHonest is_held call rest s)
          (run_calls-IsHonest is_held rest)
      where
        after :
            (f : Flow F W)
            → FlowIsHonest f
            → ((t : State F W) → FlowIsHonest (run_calls c rest t))
            → FlowIsHonest (elim f [
              | next t ↦ run_calls c rest t
              | break_out t ↦ next t
              | return_with res t ↦ return_with res t
              | wrap_with why t ↦ wrap_with why t
            ])
        after (next t) k later = later t
        after (break_out t) k later = record { honest = tt }
        after (return_with res t) k later = record { honest = k.honest }
        after (wrap_with why t) k later = record { honest = tt }
