-- ===== src/Loop/Honesty/Runs.antt =====
-- What a run that is held to requirements may end with: from the steps to the ending.
use mathlib.Core.Path.{subst}
use open_kael.Prelude.{
  ℕ, zero, suc, ◌+◌, String, not, ◌||◌, Option, none, some, List, [], ◌∷◌, ◌≡◌, refl, ◌⊎◌, inl, inr,
  ltb, leb, ◌==◌, length, Bool-cases, Option-rule, if_rule, some_injective,
}
use open_kael.Prelude.Text.{◌=ₛ◌, is_empty, trim_space}
use open_kael.Values.{Fields, text_at}
use open_kael.Messages.{Message, ToolCall}
use open_kael.Outcome.{Requirements, finish_check, nothing_changed_message}
use open_kael.Outcome.Honesty.{Evidence}
use open_kael.Loop.{
  Config, State, LoopResult, complete, Reply, answered, failed, find_action, held, max_stale_steps,
  max_tool_calls_per_iter, max_consecutive_failures,
}
use open_kael.Loop.Flow.{Flow, next, break_out, return_with, wrap_with, finished}
use open_kael.Loop.Run.{
  Step, again, ended, Ending, returned, llm_failed, give_up, wrap_up_answer, wrap_up_reply,
  wrap_up_content, wrap_up_messages, wrap_up, scold, after_calls, take_answer, step_reply, step,
  steps, out_of_steps, run,
}
use open_kael.Loop.Honesty.{
  FlowIsHonest, OptionIsHonest, accepted-Evidence, said, silent-IsHonest, unfinished-IsHonest,
  run_calls-IsHonest,
}

abbrev pub ending_result : {F W : Type 0} → Ending F W → Option (LoopResult F)
ending_result (returned res s) = some res
ending_result (llm_failed err s) = none

abbrev step_result : {F W : Type 0} → Step F W → Option (LoopResult F)
step_result (again s) = none
step_result (ended e) = ending_result e

module _ {F W : Type 0} (r : Requirements) where
  record EndingIsHonest (e : Ending F W) : Type 0 where
    honest : OptionIsHonest r (ending_result e)

  record StepIsHonest (t : Step F W) : Type 0 where
    honest : OptionIsHonest r (step_result t)

module _ {F W : Type 0} (r : Requirements) (c : Config F W) (is_held : held c ≡ some r) where
  give_up-IsHonest : (reason : String) (s : State F W) → EndingIsHonest r (give_up c reason s)
  unfolding give_up
  give_up-IsHonest reason s = record { honest = unfinished-IsHonest r _ refl }

  wrap_up_content-IsHonest :
      (call : ToolCall F) (s t : State F W)
      → EndingIsHonest r (returned (finished call (wrap_up_content c (held c) call s) s.records) t)
  unfolding wrap_up_content
  wrap_up_content-IsHonest call s t =
      rw is_held (elim (Bool-cases (finish_check call.arguments r s.records).0) [
        | inl ok ↦ record {
          honest = record {
            backed = λ args _ same says.
                inl (accepted-Evidence call.arguments r s.records ok (said same says));
          };
        }
        | inr refused ↦ record {
          honest = record { backed = λ args _ same says. rw refused (inr refl) };
        }
      ])

  wrap_up_answer-IsHonest :
      (reason : String) (msgs : List (Message F)) (words : String) (calls : List (ToolCall F))
      (s : State F W)
      → EndingIsHonest r (wrap_up_answer c reason msgs words calls s)
  unfolding wrap_up_answer
  wrap_up_answer-IsHonest reason msgs words [] s = give_up-IsHonest reason s
  wrap_up_answer-IsHonest reason msgs words (call ∷ more) s =
      if_rule (EndingIsHonest r)
        (not (call.name =ₛ "finish") || is_empty (trim_space (text_at "content" call.arguments)))
        (λ _. give_up-IsHonest reason s) (λ _. wrap_up_content-IsHonest call s _)

  wrap_up_reply-IsHonest :
      (reason : String) (msgs : List (Message F)) (asked : Reply F × State F W)
      → EndingIsHonest r (wrap_up_reply c reason msgs asked)
  unfolding wrap_up_reply
  wrap_up_reply-IsHonest reason msgs (failed err, s) = give_up-IsHonest reason s
  wrap_up_reply-IsHonest reason msgs (answered resp, s) =
      wrap_up_answer-IsHonest reason msgs resp.content resp.tool_calls s

  wrap_up-IsHonest : (reason : String) (s : State F W) → EndingIsHonest r (wrap_up c reason s)
  unfolding wrap_up
  wrap_up-IsHonest reason s =
      Option-rule (EndingIsHonest r) (find_action "finish" c.actions)
        (λ fin _. wrap_up_reply-IsHonest reason (wrap_up_messages c s) _)
        (λ _. give_up-IsHonest reason s)

  scold-IsHonest :
      (words note reason : String) (s : State F W) → StepIsHonest r (scold c words note reason s)
  unfolding scold
  scold-IsHonest words note reason s =
      if_rule (StepIsHonest r) (leb max_consecutive_failures (s.consecutive_failures + 1))
        (λ _. record { honest = (wrap_up-IsHonest reason _).honest }) (λ _. record { honest = tt })

  after_calls-IsHonest : (f : Flow F W) → FlowIsHonest r f → StepIsHonest r (after_calls c f)
  unfolding after_calls
  after_calls-IsHonest (next s) k = record { honest = tt }
  after_calls-IsHonest (break_out s) k = record { honest = tt }
  after_calls-IsHonest (return_with res s) k = record { honest = k.honest }
  after_calls-IsHonest (wrap_with why s) k = record { honest = (wrap_up-IsHonest why s).honest }

  step_reply-IsHonest : (asked : Reply F × State F W) → StepIsHonest r (step_reply c asked)
  unfolding step_reply take_answer
  step_reply-IsHonest (failed err, s) = record { honest = tt }
  step_reply-IsHonest (answered resp, s) =
      if_rule (StepIsHonest r) (length resp.tool_calls == 0) (λ _. scold-IsHonest _ _ _ s)
        (λ _.
          if_rule (StepIsHonest r) (ltb max_tool_calls_per_iter (length resp.tool_calls))
            (λ _. scold-IsHonest _ _ _ s)
            (λ _. after_calls-IsHonest _ (run_calls-IsHonest r c is_held resp.tool_calls _)))

  step-IsHonest : (s : State F W) → StepIsHonest r (step c s)
  unfolding step
  step-IsHonest s =
      if_rule (StepIsHonest r) (leb max_stale_steps s.stale)
        (λ _. record { honest = (wrap_up-IsHonest _ s).honest }) (λ _. step_reply-IsHonest _)

  steps-IsHonest : (n : ℕ) (s : State F W) → StepIsHonest r (steps c n s)
  unfolding steps
  steps-IsHonest zero s = record { honest = tt }
  steps-IsHonest (suc n) s = after (step c s) (step-IsHonest s) (steps-IsHonest n)
    where
      after :
          (t : Step F W)
          → StepIsHonest r t
          → ((u : State F W) → StepIsHonest r (steps c n u))
          → StepIsHonest r (elim t [ again u ↦ steps c n u | ended e ↦ ended e ])
      after (again u) k later = later u
      after (ended e) k later = record { honest = k.honest }

  limited-IsHonest :
      (t : Step F W)
      → StepIsHonest r t
      → EndingIsHonest r (elim t [ again u ↦ out_of_steps c u | ended e ↦ e ])
  unfolding out_of_steps
  limited-IsHonest (again u) k =
      Option-rule (EndingIsHonest r) (find_action "finish" c.actions)
        (λ fin _. wrap_up-IsHonest "used all its steps" u)
        (λ _. record { honest = silent-IsHonest r _ refl })
  limited-IsHonest (ended e) k = record { honest = k.honest }

  unlimited-IsHonest :
      (t : Step F W) {e : Ending F W}
      → StepIsHonest r t
      → elim t [ again v ↦ none | ended e' ↦ some e' ] ≡ some e
      → EndingIsHonest r e
  unlimited-IsHonest (again v) k q = cc
  unlimited-IsHonest (ended e') k q =
      subst (EndingIsHonest r) (some_injective q) (record { honest = k.honest })

  run-IsHonest :
      (fuel : ℕ) (s : State F W) {e : Ending F W} → run c fuel s ≡ some e → EndingIsHonest r e
  unfolding run
  run-IsHonest fuel s {e} q = elim (Bool-cases (c.max_iterations == 0)) [
    | inl unlimited ↦
        unlimited-IsHonest (steps c fuel s) (steps-IsHonest fuel s) (rw unlimited at q)
    | inr limited ↦
        subst (EndingIsHonest r) (some_injective (rw limited at q))
          (limited-IsHonest (steps c c.max_iterations s) (steps-IsHonest c.max_iterations s))
  ]

-- A completed reply that is held to requirements says "done" only if an action of this run backs it,
-- and otherwise states the facts in place of the model's own words.
pub run-honest :
    {F W : Type 0} (r : Requirements) (c : Config F W) (fuel : ℕ) (s u : State F W)
    (res : LoopResult F) (args : Fields F)
    → held c ≡ some r
    → run c fuel s ≡ some (returned res u)
    → res.status ≡ complete
    → res.output ≡ some args
    → text_at "outcome" args ≡ "done"
    → Evidence r res.actions ⊎ (res.content ≡ nothing_changed_message r res.actions)
run-honest r c fuel s u res args is_held ends =
    (run-IsHonest r c is_held fuel s ends).honest.backed args
